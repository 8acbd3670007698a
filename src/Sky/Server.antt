-- ===== src/Sky/Server.antt =====
-- server/server.c: `server_pre_routing_sky`, the hook on the host of the proxy's server, on a
-- little-endian host. Checksums are left out.
pub mod Sessions
pub mod Misread
use xsky.Base.{
  ℕ, ◌+◌, ◌*◌, ◌/◌, ◌%◌, ◌^◌, List, [], ◌∷◌, Bool, true, false, not, ◌&&◌, ◌||◌, Option, none, some,
  length, drop, byte_at, ◌==◌, if◌then◌else◌, little, htons,
}
use xsky.Base.Kernel.{Verdict, nf_drop, nf_accept}
use xsky.Sky.Data.{SkyData, Pair, tcpopt_v4, tcpolen_v4}
use xsky.Sky.Table.{Routes, insert_route_sky, find_route_sky, remove_route_sky, deref}
use xsky.Sky.Toa.{get_toa_data_sky}
use xsky.Sky.Xor.{xor_data_sky}

-- What the hook reads of a socket buffer. `bytes` are the packet from `skb->data` on, which
-- starts with the IP header, `payload` the memory behind the TCP header, of which `data_len` bytes
-- are the segment's.
pub record SkBuff : Type 0 where
  pub saddr : ℕ
  pub daddr : ℕ
  pub protocol : ℕ
  pub is_nonlinear : Bool
  pub linearize_fails : Bool
  pub source : ℕ
  pub dest : ℕ
  pub syn : Bool
  pub ack : Bool
  pub rst : Bool
  pub fin : Bool
  pub doff : ℕ
  pub bytes : List ℕ
  pub data_len : ℕ
  pub payload : List ℕ

-- The port that the server listens at.
abbrev pub server_port : ℕ
server_port = 48888

-- `memcpy( pdata, ptr - 2, … )` of 8 or 20 bytes over what the union held.
unfoldable pub loaded : SkyData → List ℕ → SkyData
loaded old bytes = record {
  code = byte_at bytes 0;
  size = byte_at bytes 1;
  port = byte_at bytes 2 + byte_at bytes 3 * 2 ^ 8;
  addr =
      byte_at bytes 4
      + byte_at bytes 5 * 2 ^ 8
      + byte_at bytes 6 * 2 ^ 16
      + byte_at bytes 7 * 2 ^ 24;
  rest = if length bytes == 8 then old.rest else drop 8 bytes;
}

-- `get_toa_data_sky( skb, &data )`, whose result is not looked at: where it is NULL, `data` is what
-- the stack held.
unfoldable pub read_option : SkyData → SkBuff → SkyData
read_option old skb = elim (get_toa_data_sky skb.doff skb.bytes) [
  | none ↦ old
  | some none ↦ old
  | some (some bytes) ↦ loaded old bytes
]

-- The key of the sender. Only four members are assigned: `rest` is what the stack held.
abbrev pub sender : List ℕ → SkBuff → SkyData
sender rest skb = record {
  code = tcpopt_v4;
  size = tcpolen_v4;
  port = skb.source;
  addr = skb.saddr;
  rest = rest;
}

-- The segment on its way to the second member of the pair.
unfoldable pub forwarded : SkBuff → Pair → SkBuff
forwarded skb pair = record skb {
  daddr = pair.second.addr;
  dest = pair.second.port;
  payload = xor_data_sky skb.payload skb.data_len;
}

-- `stack` is what the uninitialised `data` holds, and `rest` the last bytes of `pair.first`.
pub server_pre_routing_sky :
    (stack : SkyData) (rest : List ℕ) → Routes → SkBuff → Verdict × Routes × SkBuff
server_pre_routing_sky stack rest t skb =
    let accepted : Verdict × Routes × SkBuff = (nf_accept, t, skb) in
    let key = sender stack.rest skb in
    if skb.daddr % 256 == 192 || skb.daddr % 256 == 127
    then accepted
    else if not (skb.protocol == 6)
    then accepted
    else if skb.is_nonlinear && skb.linearize_fails
    then (nf_drop, t, skb)
    else if not (skb.dest == htons little server_port)
    then accepted
    else if skb.syn && not skb.ack
    then (let pair : Pair = record { first = sender rest skb; second = read_option stack skb } in
        (nf_accept, insert_route_sky t pair, forwarded skb pair))
    else elim (find_route_sky t key) [
      | none ↦ accepted
      | some r ↦
          let after = if skb.rst || skb.fin then remove_route_sky t key else t in
          (nf_accept, after, forwarded skb (deref t r))
    ]
