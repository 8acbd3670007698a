-- ===== src/Sky/Lifecycle/Doubled.antt =====
-- server/server.c: the device opened twice, so that the hook is registered twice.
use xsky.Base.{
  ℕ, suc, ◌≡◌, ◌<◌, refl, ap, ◌∙◌, List, true, false, not, ◌&&◌, some, length, drop, byte_at, arith,
  All, IsByte,
}
use xsky.Base.Kernel.{nf_accept}
use xsky.Sky.Xor.{xor_data_sky}
use xsky.Sky.RouteHook.{Packet, syn, ack, Checksums, scramble, route_pre_routing_sky}
use xsky.Sky.RouteHook.Insertion.{IsPacket}
use xsky.Sky.RouteHook.Scrambled.{
  IsRouted, IsPlain, routed_lem, scramble_lem, payload_at, payload_len,
}
use xsky.Sky.RouteHook.Again.{scramble-twice, hook_twice}
use xsky.Sky.Lifecycle.{Host, file_open_sky, run_route_hooks}

module _ (sums : Checksums) (here : List ℕ) (servers : ℕ) where
  run_once :
      (skb q : Packet)
      → route_pre_routing_sky sums here servers skb ≡ some (nf_accept, q)
      → (k n : ℕ) → k ≡ suc n
      → run_route_hooks sums here servers k skb ≡ run_route_hooks sums here servers n q
  unfolding run_route_hooks
  run_once skb q e k n at =
      ap (λ (m : ℕ). run_route_hooks sums here servers m skb) at ∙ rw (run_route_hooks, e) refl

-- A packet that the hook looks at and that opens no connection: opened once, the device has it
-- scrambled from the payload on. Opened twice, it is accepted with every byte but the checksums as
-- it came: nothing is scrambled.
pub opened_twice :
    (sums : Checksums) (here : List ℕ) (h : Host) (skb : Packet)
    → h.route_hooks ≡ 0
    → IsPacket skb
    → All IsByte skb.memory
    → IsRouted skb
    → (syn skb && not (ack skb)) ≡ false
    → let one = (file_open_sky true h).1 in
      let two = (file_open_sky true one).1 in
      ((q : Packet) × (run_route_hooks sums here one.servers one.route_hooks skb
          ≡ some (nf_accept, q))
        × (drop (payload_at skb) q.memory
            ≡ xor_data_sky (drop (payload_at skb) skb.memory) (payload_len skb)))
      × ((q : Packet) × (run_route_hooks sums here two.servers two.route_hooks skb
            ≡ some (nf_accept, q))
          × ((j : ℕ)
              → IsPlain skb j
              → j < length skb.memory
              → byte_at q.memory j ≡ byte_at skb.memory j))
unfolding file_open_sky run_route_hooks
opened_twice sums here h skb none_ w bytes s closed =
    let q = scramble sums skb in
    let first = routed_lem sums here h.servers skb s closed in
    let second = hook_twice sums here h.servers skb w s closed in
    (
      (
        q,
        run_once sums here h.servers skb q first _ 0 (omega (arith, none_)),
        (scramble_lem sums skb w).2,
      ),
      (
        scramble sums q,
        run_once sums here h.servers skb q first _ 1 (omega (arith, none_))
            ∙ run_once sums here h.servers q (scramble sums q) second 1 0 refl,
        scramble-twice sums skb w bytes,
      ),
    )
