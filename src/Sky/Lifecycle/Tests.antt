-- ===== src/Sky/Lifecycle/Tests.antt =====
-- server/server.c: the theorems on the life of the module at concrete histories.
use xsky.Base.{ℕ, ◌≡◌, ◌<◌, refl, [], ◌∷◌, true, some, drop, byte_at, arith}
use xsky.Base.Kernel.{nf_accept}
use xsky.Sky.Xor.{xor_data_sky}
use xsky.Sky.RouteHook.{Packet}
use xsky.Sky.RouteHook.Scrambled.{IsPlain}
use xsky.Sky.RouteHook.Tests.{packet, packet-IsPacket, pointer, sums}
use xsky.Sky.Lifecycle.{Outcome, fresh_host, file_open_sky, run_route_hooks}
use xsky.Sky.Lifecycle.Doubled.{opened_twice}

abbrev all_well : Outcome
all_well = record {
  device = true;
  memory = true;
  chrdev = true;
  cls = true;
  dev = true;
  hooks = true;
}

opened_twice_example :
    let one = (file_open_sky true (fresh_host all_well)).1 in
    let two = (file_open_sky true one).1 in
    ((q : Packet) × (run_route_hooks sums pointer one.servers one.route_hooks (packet 16)
        ≡ some (nf_accept, q))
      × (drop 48 q.memory ≡ xor_data_sky (65 ∷ 66 ∷ 67 ∷ 0 ∷ 0 ∷ 0 ∷ 0 ∷ []) 3))
    × ((q : Packet) × (run_route_hooks sums pointer two.servers two.route_hooks (packet 16)
          ≡ some (nf_accept, q))
        × ((j : ℕ)
            → IsPlain (packet 16) j
            → j < 55
            → byte_at q.memory j ≡ byte_at (packet 16).memory j))
opened_twice_example =
    opened_twice sums pointer (fresh_host all_well) (packet 16) refl (packet-IsPacket 16)
      (ground arith)
      (record {
        abroad = ((λ e. omega (arith, e)), (λ e. omega (arith, e)));
        tcp = refl;
        linear = refl;
      })
      refl
