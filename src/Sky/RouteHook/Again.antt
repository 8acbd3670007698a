-- ===== src/Sky/RouteHook/Again.antt =====
-- server/server.c: a packet that `route_pre_routing_sky` sees twice.
use xsky.Base.{
  ℕ, ◌+◌, ◌-◌, ◌<◌, ◌≡◌, refl, sym, ap, ap₂, ◌∙◌, List, Bool, false, not, ◌&&◌, some, length, drop,
  byte_at, arith, All, IsByte, inl, inr, dec_lt, drop-All, length-drop, get_or-drop,
}
use xsky.Base.Kernel.{nf_accept}
use xsky.Sky.Xor.{xor_data_sky}
use xsky.Sky.Xor.Twice.{xor_data_sky-twice}
use xsky.Sky.RouteHook.{Packet, ihl, doff, syn, ack, Checksums, scramble, route_pre_routing_sky}
use xsky.Sky.RouteHook.Insertion.{IsPacket}
use xsky.Sky.RouteHook.Scrambled.{
  IsRouted, IsPlain, routed_lem, scramble_lem, scramble-places, header_byte, ip_byte, tcp_byte,
  payload_at, payload_len,
}

module _ (sums : Checksums) (skb : Packet) (w : IsPacket skb) where
  -- The places and the lengths of the headers are those of the packet before.
  scramble-ihl : ihl (scramble sums skb) ≡ ihl skb
  scramble-ihl =
      let (n, _, _, _, _, _) = scramble-places sums skb in
      rw (n, ip_byte sums skb w skb.network (inl (omega arith)) (omega arith)) refl

  scramble-doff : doff (scramble sums skb) ≡ doff skb
  scramble-doff =
      let (_, t, _, _, _, _) = scramble-places sums skb in
      rw (t, tcp_byte sums skb w (skb.transport + 12) (omega arith) (omega arith)) refl

  scramble-IsPacket : IsPacket (scramble sums skb)
  scramble-IsPacket =
      let (n, t, s, l, _, _) = scramble-places sums skb in
      let size = (scramble_lem sums skb w).0 in
      record {
        here = s ∙ w.here ∙ sym n;
        behind = omega (arith, t, s, scramble-ihl, w.behind);
        ip_head = omega (arith, scramble-ihl, w.ip_head);
        tcp_head = omega (arith, scramble-doff, w.tcp_head);
        whole = omega (arith, scramble-ihl, scramble-doff, l, w.whole);
        inside = omega (arith, s, l, size, w.inside);
      }

  scramble-IsRouted : IsRouted skb → IsRouted (scramble sums skb)
  scramble-IsRouted s =
      let (n, _, _, _, a, _) = scramble-places sums skb in
      record {
        abroad =
            rw (n, ip_byte sums skb w (skb.network + 16) (inr (omega arith)) (omega arith))
              s.abroad;
        tcp = rw (n, ip_byte sums skb w (skb.network + 9) (inl (omega arith)) (omega arith)) s.tcp;
        linear = a ∙ s.linear;
      }

  scramble-flags : (syn (scramble sums skb) ≡ syn skb) × (ack (scramble sums skb) ≡ ack skb)
  scramble-flags =
      let (_, t, _, _, _, _) = scramble-places sums skb in
      rw (t, tcp_byte sums skb w (skb.transport + 13) (omega arith) (omega arith)) (refl, refl)

  -- The memory from the payload on after the second time.
  payload-twice :
      drop (payload_at skb) (scramble sums (scramble sums skb)).memory
      ≡ xor_data_sky
          (xor_data_sky (drop (payload_at skb) skb.memory) (payload_len skb))
          (payload_len skb)
  payload-twice =
      let q = scramble sums skb in
      let (_, _, s, l, _, _) = scramble-places sums skb in
      let at : payload_at q ≡ payload_at skb = omega (arith, s, scramble-ihl, scramble-doff) in
      let len : payload_len q ≡ payload_len skb = omega (arith, l, scramble-ihl, scramble-doff) in
      ap (λ (k : ℕ). drop k (scramble sums q).memory) (sym at)
      ∙ (scramble_lem sums q scramble-IsPacket).2
      ∙ ap₂ (λ (k n : ℕ). xor_data_sky (drop k q.memory) n) at len
      ∙ ap (λ (bs : List ℕ). xor_data_sky bs (payload_len skb)) (scramble_lem sums skb w).2

  -- Away from the checksums, every byte is as it was before the first time.
  pub scramble-twice :
      All IsByte skb.memory
      → (j : ℕ) → IsPlain skb j
      → j < length skb.memory
      → byte_at (scramble sums (scramble sums skb)).memory j ≡ byte_at skb.memory j
  scramble-twice bytes j p lt =
      let q = scramble sums skb in
      let (n, t, s, l, _, _) = scramble-places sums skb in
      let at : payload_at q ≡ payload_at skb = omega (arith, s, scramble-ihl, scramble-doff) in
      let k = payload_at skb in
      elim (dec_lt j (payload_at skb)) [
        | yes in_head ↦
            header_byte sums q scramble-IsPacket j (rw (n, t) p) (omega (arith, at, in_head))
            ∙ header_byte sums skb w j p in_head
        | no behind ↦
            let index : k + (j - k) ≡ j = omega (arith, behind) in
            ap (λ (i : ℕ). byte_at (scramble sums q).memory i) (sym index)
            ∙ sym (get_or-drop k (scramble sums q).memory (j - k) 0)
            ∙ ap (λ (bs : List ℕ). byte_at bs (j - k)) payload-twice
            ∙ (xor_data_sky-twice (drop k skb.memory) (payload_len skb)
                  (drop-All IsByte k skb.memory bytes)).1
                (j - k) (omega (arith, length-drop k skb.memory, lt, behind))
            ∙ get_or-drop k skb.memory (j - k) 0
            ∙ ap (λ (i : ℕ). byte_at skb.memory i) index
      ]

-- Registered twice, the hook runs twice.
pub hook_twice :
    (sums : Checksums) (here : List ℕ) (servers : ℕ) (skb : Packet)
    → IsPacket skb
    → IsRouted skb
    → (syn skb && not (ack skb)) ≡ false
    → route_pre_routing_sky sums here servers (scramble sums skb)
      ≡ some (nf_accept, scramble sums (scramble sums skb))
hook_twice sums here servers skb w s closed =
    let (e, e') = scramble-flags sums skb w in
    routed_lem sums here servers (scramble sums skb) (scramble-IsRouted sums skb w s)
      (ap₂ (λ (a b : Bool). a && not b) e e' ∙ closed)
