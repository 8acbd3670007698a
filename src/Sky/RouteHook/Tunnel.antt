-- ===== src/Sky/RouteHook/Tunnel.antt =====
-- server/server.c: a segment through `route_pre_routing_sky` on the host that routes, and then
-- through `server_pre_routing_sky` on the host of the server.
use xsky.Base.{
  ℕ, ◌+◌, ◌/◌, ◌%◌, ◌≤◌, ◌<◌, ◌≡◌, refl, sym, ap, subst, ◌∙◌, List, false, not, ◌&&◌, some, length,
  drop, byte_at, ◌==◌, arith, All, IsByte, inl, inr, drop-All,
}
use xsky.Base.Kernel.{nf_accept}
use xsky.Sky.Data.{SkyData, Pair}
use xsky.Sky.Table.{Routes}
use xsky.Sky.Table.Routes.{route}
use xsky.Sky.Memory.{slice, load16, load32}
use xsky.Sky.Xor.{xor_data_sky}
use xsky.Sky.Xor.Twice.{xor_data_sky-twice}
use xsky.Sky.Server.{SkBuff, sender, forwarded, server_pre_routing_sky}
use xsky.Sky.Server.Sessions.{IsSeen, IsCarrying, carrying_lem}
use xsky.Sky.RouteHook.{Packet, doff, syn, ack, Checksums, scramble, route_pre_routing_sky}
use xsky.Sky.RouteHook.Insertion.{IsPacket}
use xsky.Sky.RouteHook.Scrambled.{
  scramble-places, IsRouted, routed_lem, scramble_lem, ip_byte, tcp_byte, payload_at, payload_len,
}

-- The fields that the hook of the server reads of a packet.
unfoldable pub segment : Packet → SkBuff
segment skb = record {
  saddr = load32 skb.memory (skb.network + 12);
  daddr = load32 skb.memory (skb.network + 16);
  protocol = byte_at skb.memory (skb.network + 9);
  is_nonlinear = skb.is_nonlinear;
  linearize_fails = skb.linearize_fails;
  source = load16 skb.memory (skb.transport + 0);
  dest = load16 skb.memory (skb.transport + 2);
  syn = syn skb;
  ack = ack skb;
  rst = byte_at skb.memory (skb.transport + 13) / 4 % 2 == 1;
  fin = byte_at skb.memory (skb.transport + 13) % 2 == 1;
  doff = doff skb;
  bytes = slice skb.memory skb.start skb.len;
  data_len = payload_len skb;
  payload = drop (payload_at skb) skb.memory;
}

module _ (sums : Checksums) (skb : Packet) (w : IsPacket skb) where
  address-scramble :
      (at : ℕ)
      → skb.network + 12 ≤ at
      → at + 4 ≤ skb.network + 20
      → load32 (scramble sums skb).memory at ≡ load32 skb.memory at
  address-scramble at ge lt =
      let same = λ (j : ℕ). ip_byte sums skb w j in
      rw
        (
          same at (inr ge) (omega (arith, lt)),
          same (at + 1) (inr (omega (arith, ge))) (omega (arith, lt)),
          same (at + 2) (inr (omega (arith, ge))) (omega (arith, lt)),
          same (at + 3) (inr (omega (arith, ge))) (omega (arith, lt)),
        )
        refl

  port-scramble :
      (at : ℕ)
      → skb.transport ≤ at
      → at + 2 ≤ skb.transport + 16
      → load16 (scramble sums skb).memory at ≡ load16 skb.memory at
  port-scramble at ge lt =
      rw
        (
          tcp_byte sums skb w at ge (omega (arith, lt)),
          tcp_byte sums skb w (at + 1) (omega (arith, ge)) (omega (arith, lt)),
        )
        refl

  -- The scrambling keeps every field that the hook of the server reads, but for the payload.
  segment-scramble : segment (scramble sums skb) ≡ record (segment skb) {
    bytes = slice (scramble sums skb).memory skb.start skb.len;
    payload = xor_data_sky (segment skb).payload (payload_len skb);
  }
  unfolding segment
  segment-scramble =
      let n = skb.network in
      let t = skb.transport in
      let (en, et, es, el, ea, eb) = scramble-places sums skb in
      rw
        (
          en,
          et,
          es,
          el,
          ea,
          eb,
          address-scramble (n + 12) (omega arith) (omega arith),
          address-scramble (n + 16) (omega arith) (omega arith),
          port-scramble (t + 0) (omega arith) (omega arith),
          port-scramble (t + 2) (omega arith) (omega arith),
          ip_byte sums skb w (n + 9) (inl (omega arith)) (omega arith),
          ip_byte sums skb w n (inl (omega arith)) (omega arith),
          tcp_byte sums skb w (t + 12) (omega arith) (omega arith),
          tcp_byte sums skb w (t + 13) (omega arith) (omega arith),
          (scramble_lem sums skb w).2,
        )
        refl

forwarded_lem :
    (s : SkBuff) (pair : Pair)
    → forwarded s pair ≡ record s {
      daddr = pair.second.addr;
      dest = pair.second.port;
      payload = xor_data_sky s.payload s.data_len;
    }
unfolding forwarded
forwarded_lem s pair = refl

-- A packet of bytes with a known route that goes to the server's port and opens or ends no
-- connection: the hook of the host that routes accepts it and keeps its length, and the hook of the
-- server accepts what arrives, sends it to the address of the route, changes no route, and gives the
-- memory from the payload on back as it was before the first hook.
pub tunnel_lem :
    (sums : Checksums) (here rest : List ℕ) (servers : ℕ) (stack : SkyData) (t : Routes)
    (skb : Packet) (pair : Pair)
    → IsPacket skb
    → All IsByte skb.memory
    → IsRouted skb
    → IsSeen (segment skb)
    → IsCarrying (segment skb)
    → route t (sender stack.rest (segment skb)) ≡ some pair
    → (q : Packet) × (route_pre_routing_sky sums here servers skb ≡ some (nf_accept, q))
      × (q.len ≡ skb.len)
      × (let r = server_pre_routing_sky stack rest t (segment q) in
          (r.0 ≡ nf_accept)
          × (r.1 ≡ t)
          × (r.2.daddr ≡ pair.second.addr)
          × (r.2.dest ≡ pair.second.port)
          × ((j : ℕ)
              → j < length (segment skb).payload
              → byte_at r.2.payload j ≡ byte_at (segment skb).payload j))
unfolding segment
tunnel_lem sums here rest servers stack t skb pair w bytes routed seen carrying found =
    let q = scramble sums skb in
    let same = segment-scramble sums skb w in
    let seen' : IsSeen (segment q) =
      subst IsSeen (sym same)
        (record { abroad = seen.abroad; tcp = seen.tcp; linear = seen.linear; here = seen.here }) in
    let carrying' : IsCarrying (segment q) = subst IsCarrying (sym same) carrying in
    let found' : route t (sender stack.rest (segment q)) ≡ some pair =
      ap (λ (s : SkBuff). route t (sender stack.rest s)) same ∙ found in
    let run = carrying_lem stack rest t (segment q) pair seen' carrying' found' in
    let forward = ap (λ (s : SkBuff). forwarded s pair) same ∙ forwarded_lem _ pair in
    let closed : (syn skb && not (ack skb)) ≡ false = ground (arith, carrying.0) in
    let (_, _, _, el, _, _) = scramble-places sums skb in
    (
      q,
      routed_lem sums here servers skb routed closed,
      el,
      rw (run, forward)
          (
            refl,
            refl,
            refl,
            refl,
            (xor_data_sky-twice (drop (payload_at skb) skb.memory) (payload_len skb)
                (drop-All IsByte (payload_at skb) skb.memory bytes)).1,
          ),
    )
