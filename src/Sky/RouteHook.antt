-- ===== src/Sky/RouteHook.antt =====
-- server/server.c: `set_toa_data_sky` and `route_pre_routing_sky`, the hook on the host that routes
-- to the proxy's server, on the bytes of the packet and on a little-endian host with pointers of
-- eight bytes.
pub mod Insertion
pub mod Scrambled
pub mod Tunnel
pub mod Again
pub mod Opening
pub mod Tests
use xsky.Base.{
  ℕ, zero, suc, ◌+◌, ◌-◌, ◌*◌, ◌/◌, ◌%◌, ◌^◌, List, [], ◌∷◌, ◌++◌, Bool, true, false, not, ◌&&◌,
  ◌||◌, Option, none, some, take, drop, set, byte_at, ltb, ◌==◌, if◌then◌else◌, little, htons,
  ntohs,
}
use xsky.Base.Kernel.{Verdict, nf_drop, nf_accept}
use xsky.Sky.Data.{SkyData, tcpopt_v4, tcpolen_v4, tcpolen_v6, zero_data}
use xsky.Sky.Memory.{put, memcpy, load16, load32, store16, store32}
use xsky.Sky.Xor.{xor_data_sky}
use xsky.Sky.Server.{server_port}
use xsky.Sky.Toa.{tcp_header_size}

-- What the hook uses of a `struct sk_buff`: the buffer from `skb->head` on, the places in it of
-- `skb->data` and of the two headers, and whether the packet's device fills checksums in.
pub record Packet : Type 0 where
  pub memory : List ℕ
  pub start : ℕ
  pub len : ℕ
  pub network : ℕ
  pub transport : ℕ
  pub is_nonlinear : Bool
  pub linearize_fails : Bool
  pub checksum_hw : Bool
  pub csum : ℕ

-- The fields of the two headers that stand in a part of a byte.
abbrev pub ihl : Packet → ℕ
ihl skb = byte_at skb.memory skb.network % 16

abbrev pub doff : Packet → ℕ
doff skb = byte_at skb.memory (skb.transport + 12) / 16

abbrev pub syn : Packet → Bool
syn skb = byte_at skb.memory (skb.transport + 13) / 2 % 2 == 1

abbrev pub ack : Packet → Bool
ack skb = byte_at skb.memory (skb.transport + 13) / 16 % 2 == 1

-- Assignments to fields of four bits: the rest of the byte stays.
abbrev pub with_low : (byte v : ℕ) → ℕ
with_low byte v = byte / 16 * 16 + v % 16

abbrev pub with_high : (byte v : ℕ) → ℕ
with_high byte v = v % 16 * 16 + byte % 16

abbrev pub option_size : SkyData → ℕ
option_size toa = if toa.code == tcpopt_v4 then tcpolen_v4 else tcpolen_v6

-- The copies of `set_toa_data_sky`, with the lengths of its local variables. `here` is the memory
-- from `&toa` on, the variable that holds the pointer.
pub moved : (here m : List ℕ) → (start len ihead_len opt_len data_len : ℕ) → List ℕ
moved here m start len ihead_len opt_len data_len =
    let to = start - len in
    let m = memcpy m to start ihead_len in
    let m = memcpy m (to + ihead_len) (start + ihead_len) tcp_header_size in
    let to' = to + ihead_len + tcp_header_size in
    let from = start + ihead_len + tcp_header_size in
    let m = put m to' (take len here) in
    let m = memcpy m (to' + len) from opt_len in
    memcpy m (to' + len + opt_len) (from + opt_len) data_len

-- `none` is a crash of the kernel: no room in front of the packet, or a copy of a negative length.
-- `skb_push` moves `skb->data` only, so that the two headers are written where they stood before.
pub set_toa_data_sky : (here : List ℕ) → Packet → SkyData → Option Packet
set_toa_data_sky here skb toa =
    let ihead_len = ihl skb * 4 in
    let thead_len = doff skb * 4 in
    let opt_len = thead_len - tcp_header_size in
    let data_len = skb.len - ihead_len - thead_len in
    let len = option_size toa in
    let m = moved here skb.memory skb.start len ihead_len opt_len data_len in
    let m = set m skb.network (with_low (byte_at m skb.network) ((ihead_len + len) / 4)) in
    let d = skb.transport + 12 in
    let m = set m d (with_high (byte_at m d) ((thead_len + len) / 4)) in
    if ltb skb.start len || ltb thead_len tcp_header_size || ltb skb.len (ihead_len + thead_len)
    then none
    else some (record skb { memory = m; start = skb.start - len; len = skb.len + len })

-- The original destination as the proxy's option.
abbrev pub toa_of : Packet → SkyData
toa_of skb = record zero_data {
  addr = load32 skb.memory (skb.network + 16);
  port = load16 skb.memory (skb.transport + 2);
  code = tcpopt_v4;
  size = tcpolen_v4;
}

-- The server as destination.
abbrev pub aimed : (servers : ℕ) → Packet → Packet
aimed servers skb = record skb {
  memory =
      store16 (store32 skb.memory (skb.network + 16) servers) (skb.transport + 2)
        (htons little server_port);
}

-- The segment that opens a connection: the option, and the server as destination.
unfoldable pub redirect : (here : List ℕ) → (servers : ℕ) → Packet → Option Packet
redirect here servers skb = elim (set_toa_data_sky here skb (toa_of skb)) [
  | none ↦ none
  | some r ↦ some (aimed servers r)
]

-- The kernel's checksums: of a header of so many words, of a range of bytes with what is summed
-- already, and with the addresses of a TCP segment.
pub record Checksums : Type 0 where
  pub ip_fast_csum : List ℕ → ℕ → ℕ
  pub csum_partial : List ℕ → ℕ → ℕ → ℕ
  pub csum_tcpudp_magic : (saddr daddr len proto sum : ℕ) → ℕ

module _ (sums : Checksums) where
  -- The last lines of the hook, with the headers at the places `ip_h` and `tcp_h`.
  pub check : (ip_h tcp_h : ℕ) → Packet → Packet
  check ip_h tcp_h skb =
      let m = store16 skb.memory (ip_h + 10) 0 in
      let m = store16 m (ip_h + 10) (sums.ip_fast_csum (drop ip_h m) (byte_at m ip_h % 16)) in
      let size = ntohs little (load16 m (ip_h + 2)) - byte_at m ip_h % 16 * 4 in
      let sum = sums.csum_partial (drop tcp_h m) size 0 in
      let c = sums.csum_tcpudp_magic (load32 m (ip_h + 12)) (load32 m (ip_h + 16)) size 6 sum in
      if skb.checksum_hw
      then record skb { memory = store16 m (tcp_h + 16) c; csum = 16 }
      else record skb { memory = m }

  -- The scrambling of what follows the two headers, and the checksums.
  pub scramble : Packet → Packet
  scramble skb =
      let heads = ihl skb * 4 + doff skb * 4 in
      let at = skb.start + heads in
      let m = take at skb.memory ++ xor_data_sky (drop at skb.memory) (skb.len - heads) in
      check skb.network skb.transport (record skb { memory = m })

  -- `none` is a crash of the kernel. A buffer that is made linear keeps the bytes of its packet.
  pub route_pre_routing_sky : (here : List ℕ) → (servers : ℕ) → Packet → Option (Verdict × Packet)
  route_pre_routing_sky here servers skb =
      let octet = byte_at skb.memory (skb.network + 16) in
      if octet == 192 || octet == 127
      then some (nf_accept, skb)
      else if not (byte_at skb.memory (skb.network + 9) == 6)
      then some (nf_accept, skb)
      else if skb.is_nonlinear && skb.linearize_fails
      then some (nf_drop, skb)
      else if syn skb && not (ack skb)
      then elim (redirect here servers skb) [ none ↦ none | some r ↦ some (nf_accept, scramble r) ]
      else some (nf_accept, scramble skb)
