-- ===== src/Sky/RouteHook/Opening.antt =====
-- server/server.c: what `route_pre_routing_sky` does to the headers of a segment that opens a
-- connection.
use xsky.Base.{
  ◌⊎◌, inl, inr, ℕ, ◌+◌, ◌*◌, ◌/◌, ◌%◌, ◌≤◌, ◌<◌, ◌≡◌, refl, ap, ◌∙◌, List, some, length, htons,
  little, byte_at, false, arith,
}
use xsky.Sky.Memory.{
  load32, store16, store32, within, byte_at-store16, byte_at-store32, length-store32,
}
use xsky.Sky.RouteHook.{Packet, ihl, doff, set_toa_data_sky, redirect, toa_of, aimed}
use xsky.Sky.RouteHook.Insertion.{IsPacket, spread, inserted, set_toa_data_sky_lem}
use xsky.Sky.Server.{server_port}

-- A byte of a header that has moved, away from the places where the lengths are written.
inserted_head :
    (here : List ℕ) (skb : Packet) (j : ℕ)
    → IsPacket skb
    → 8 ≤ skb.start
    → skb.start ≤ j + 8
    → j < skb.start + (ihl skb * 4 + 12)
    → (j < skb.start) ⊎ (skb.start < j)
    → inserted here skb 8 j ≡ byte_at skb.memory (j + 8)
unfolding spread
inserted_head here skb j w room ge lt ne = ground (arith, w.behind, w.tcp_head)

-- A byte that is neither of the address nor of the port that are written.
byte_at-redirected :
    (m : List ℕ) (n t servers port j : ℕ)
    → n + 20 ≤ length m
    → t + 4 ≤ length m
    → within (n + 16) 4 j ≡ false
    → within (t + 2) 2 j ≡ false
    → byte_at (store16 (store32 m (n + 16) servers) (t + 2) port) j ≡ byte_at m j
byte_at-redirected m n t servers port j hn ht on ot =
    byte_at-store16 _ (t + 2) port j (omega (arith, ht, length-store32 m (n + 16) servers)) ot
    ∙ byte_at-store32 m (n + 16) servers j (omega (arith, hn)) on

redirect-some :
    (here : List ℕ) (servers : ℕ) (skb p : Packet)
    → set_toa_data_sky here skb (toa_of skb) ≡ some p
    → redirect here servers skb ≡ some (aimed servers p)
unfolding redirect
redirect-some here servers skb p e = ground (arith, e)

module _ (here : List ℕ) (servers : ℕ) (skb : Packet) where
  -- The bytes of the headers where the packet starts now, away from what is written.
  redirect_run :
      IsPacket skb
      → 8 ≤ skb.start
      → 8 ≤ length here
      → (r : Packet) × (redirect here servers skb ≡ some r)
        × (r.start + 8 ≡ skb.start)
        × ((j p : ℕ)
            → j + 8 ≡ p
            → ((skb.network ≤ p) × (p < skb.network + 8))
              ⊎ ((skb.network + 8 < p) × (p < skb.network + 20))
              ⊎ ((skb.transport + 11 < p) × (p < skb.transport + 20))
            → byte_at r.memory j ≡ byte_at skb.memory p)
  redirect_run w room size =
      let (p, run, start, _, l, (n, t), bytes) =
        (set_toa_data_sky_lem here skb (toa_of skb) w size).1 room in
      (
        aimed servers p,
        redirect-some here servers skb p run,
        start,
        (λ j p' e at.
            byte_at-redirected p.memory p.network p.transport servers (htons little server_port) j
              (omega (arith, l, n, w.here, w.ip_head, w.whole, w.inside))
              (omega (arith, l, t, w.behind, w.tcp_head, w.whole, w.inside))
              (ground (arith, n, e, at, w.behind, w.here, w.ip_head))
              (ground (arith, t, w.behind, w.here, w.ip_head, e, at))
            ∙ bytes j
            ∙ inserted_head here skb j w room (ground (arith, e, w.here, w.behind, w.ip_head, at))
                (ground (arith, e, w.here, w.behind, w.ip_head, at))
                (ground (arith, e, w.here, w.behind, w.ip_head, at))
            ∙ ap (λ (i : ℕ). byte_at skb.memory i) e),
      )

  -- A segment that opens a connection and has room in front of it keeps, where the packet starts
  -- after the option has been put in, the lengths of both headers and the destination's address: the
  -- option counts as payload, and neither the new lengths nor the server's address stand where the
  -- headers are.
  pub redirect_lem :
      IsPacket skb
      → 8 ≤ skb.start
      → 8 ≤ length here
      → (r : Packet) × (redirect here servers skb ≡ some r)
        × (r.start + 8 ≡ skb.start)
        × (byte_at r.memory r.start % 16 ≡ ihl skb)
        × (byte_at r.memory (r.start + ihl skb * 4 + 12) / 16 ≡ doff skb)
        × (load32 r.memory (r.start + 16) ≡ load32 skb.memory (skb.network + 16))
  redirect_lem w room size =
      let (r, run, start, bytes) = redirect_run w room size in
      let ip = λ (j p : ℕ) (e : j + 8 ≡ p) (ge : skb.network + 8 < p) (lt : p < skb.network + 20).
        bytes j p e (inr (inl (ge, lt))) in
      let at = r.start + 16 in
      let to = skb.network + 16 in
      (
        r,
        run,
        start,
        ap (λ (b : ℕ). b % 16)
            (bytes r.start skb.network (start ∙ w.here) (inl (omega arith, omega arith))),
        ap (λ (b : ℕ). b / 16)
            (bytes (r.start + ihl skb * 4 + 12) (skb.transport + 12)
              (omega (arith, start, w.behind)) (inr (inr (omega arith, omega arith)))),
        rw
            (
              ip at to (omega (arith, start, w.here)) (omega arith) (omega arith),
              ip (at + 1) (to + 1) (omega (arith, start, w.here)) (omega arith) (omega arith),
              ip (at + 2) (to + 2) (omega (arith, start, w.here)) (omega arith) (omega arith),
              ip (at + 3) (to + 3) (omega (arith, start, w.here)) (omega arith) (omega arith),
            )
            refl,
      )
