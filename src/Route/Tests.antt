-- ===== src/Route/Tests.antt =====
-- route/: the theorems on the module at concrete queues, packets and requests.
use xsky.Base.{
  ap, ◌/◌, drop, ℕ, zero, suc, ◌+◌, ◌*◌, ◌≡◌, ◌≤◌, ◌⊎◌, ◌↔◌, refl, sym, subst, List, [], ◌∷◌, ◌++◌,
  map, true, false, none, some, length, arith, some_inj, All, IsByte, byte_at,
}
use xsky.Base.Kernel.{Verdict}
use xsky.Route.Queue
use xsky.Route.Queue.{
  XskyQueue, PushStatus, blank, grow, set_next, set_previous, append_node, init, enqueue, target,
  push, pop, release, xsky_mtu, node_at,
}
use xsky.Route.Queue.Ring.{IsValid, init-IsValid}
use xsky.Route.Queue.Inv.{enqueue-IsValid}
use xsky.Route.Queue.Refine.{contents, packet_of}
use xsky.Route.Queue.Run
use xsky.Route.Queue.Run.{
  pushes, pops, resets, fifo_run, run_refines, run-init, release_lem, count_from,
}
use xsky.Route.Queue.Race.{refusal, locked_push, pop_times, locked_push-race, locked_push-pop_times}
use xsky.Route.Subnet.{XskySubnet, is_subnet}
use xsky.Route.Subnet.Prefix.{AgreesOn, subnet_of, is_subnet_lem}
use xsky.Route.Device.{
  Globals, SkBuff, set_subnet, Ret, ok, zero_subnet, xsky_init, chr_ioctl, chr_read, nf_handle_in,
}
use xsky.Route.Device.Settings.{family, set_subnet_lem}
use xsky.Route.Device.Hook.{HoldsLength, Handled, nf_handle_in_lem}
use xsky.Route.Device.Histories.{
  IsHealthy, ReadOutcome, Event, opens, closes, requests, reads, packets, run, chr_read_lem,
}
use xsky.Route.Device.Run.{run-xsky_init}
use xsky.Route.Hooks.{
  NetRet, registered, absent, failed, register, unregister, Distinct, Succeeds, Failure,
  nf_register_hook, nf_register_hook_lem,
}

-- A queue of two buffers, and the same with one packet in it.
abbrev two_buffers : XskyQueue
two_buffers = record {
  begin = none;
  end = none;
  list = some 0;
  have = 0;
  size = 2;
  nodes = set_next 1 0 (set_previous 0 1 (grow 2 []));
}

two_buffers-IsValid : IsValid two_buffers
unfolding init
two_buffers-IsValid =
    let (q, e, v, _, _) = init-IsValid 2 (omega arith) in subst IsValid (some_inj (sym e)) v

abbrev three_bytes : List ℕ
three_bytes = 1 ∷ 2 ∷ 3 ∷ []

abbrev one_packet : XskyQueue
one_packet = enqueue two_buffers three_bytes 3 0

one_packet-IsValid : IsValid one_packet
unfolding target
one_packet-IsValid =
    enqueue-IsValid two_buffers-IsValid three_bytes 3 0 (omega arith) (omega arith) (omega arith)
      refl

abbrev calls : List Queue.Run.Call
calls = pops ∷ pushes (7 ∷ []) ∷ pushes (8 ∷ 9 ∷ []) ∷ pushes (6 ∷ []) ∷ pops ∷ resets ∷ pops ∷ []

run-init_example :
    (q : XskyQueue) × (init 2 ≡ some q) × (Queue.Run.run q calls ≡ some (fifo_run 2 [] calls))
run-init_example = run-init 2 calls (omega arith)

locked_push-race_example :
    (refusal one_packet 2 ≡ none)
    × (refusal one_packet 1 ≡ none)
    × (q1 q2 : XskyQueue) × (locked_push one_packet (4 ∷ 5 ∷ []) 2 ≡ some q1)
    × (locked_push q1 (6 ∷ []) 1 ≡ some q2)
    × (q2.have ≡ 3)
    × (b : ℕ) × (q2.begin ≡ some b)
    × (one_packet.begin ≡ some b)
    × (packet_of (node_at q2.nodes b) ≡ 6 ∷ [])
locked_push-race_example =
    locked_push-race (4 ∷ 5 ∷ []) (6 ∷ []) 2 1 one_packet-IsValid (omega arith) refl (omega arith)
      (omega arith) (omega arith) (omega arith)

locked_push-pop_times_example :
    (q1 q2 : XskyQueue) × (pop_times 1 one_packet ≡ some q1)
    × (locked_push q1 (4 ∷ 5 ∷ []) 2 ≡ some q2)
    × IsValid q2
    × (contents q2 ≡ drop 1 (contents one_packet) ++ (4 ∷ 5 ∷ []) ∷ [])
unfolding refusal
locked_push-pop_times_example =
    locked_push-pop_times 1 (4 ∷ 5 ∷ []) 2 one_packet-IsValid (omega arith) refl

-- 10.1.255.2, and the subnet 10.1.0.0/12.
abbrev host : List ℕ
host = 10 ∷ 1 ∷ 255 ∷ 2 ∷ []

abbrev net : List ℕ
net = 10 ∷ 1 ∷ 0 ∷ 0 ∷ []

abbrev ten_net : XskySubnet
ten_net = record { address = net; prefix = 12; is_ipv6 = false }

abbrev garbage : List ℕ
garbage = 77 ∷ 66 ∷ 55 ∷ 44 ∷ 33 ∷ 22 ∷ 11 ∷ 0 ∷ 1 ∷ 2 ∷ 3 ∷ 4 ∷ 5 ∷ 6 ∷ 7 ∷ 8 ∷ []

bytes_host : All IsByte host
bytes_host = ground arith

bytes_net : All IsByte net
bytes_net = ground arith

is_subnet_lem_example :
    (is_subnet garbage (subnet_of garbage net 12 false) host false ≡ true) ↔ AgreesOn 12 host net
is_subnet_lem_example =
    is_subnet_lem garbage garbage host net 12 false (omega arith) bytes_host bytes_net

-- The module with the device open or closed, a tunnel or none, and a packet in the queue or none.
abbrev open_module : Globals
open_module = record {
  flock_flag = true;
  tunnel_addr = 192 ∷ 168 ∷ 0 ∷ 9 ∷ [];
  tunnel_addr6 = garbage;
  subnet = zero_subnet;
  subnet6 = zero_subnet;
  is_set_subnet = false;
  is_set_subnet6 = false;
  is_set_tunnel_addr = true;
  is_set_tunnel_addr6 = false;
  r_queue = one_packet;
  wakeups = 1;
}

abbrev new_module : Globals
new_module = record open_module {
  flock_flag = false;
  is_set_tunnel_addr = false;
  r_queue = two_buffers;
}

open_module-IsHealthy : IsHealthy open_module
open_module-IsHealthy = record {
  queue = one_packet-IsValid;
  closed = λ e. absurd (ground (arith, e));
}

-- A UDP datagram from 10.1.255.2 to 192.168.0.1.
abbrev datagram : List ℕ
datagram =
    69 ∷ 0 ∷ 0 ∷ 20 ∷ 0 ∷ 0 ∷ 0 ∷ 0 ∷ 64 ∷ 17 ∷ 0 ∷ 0 ∷ 10 ∷ 1 ∷ 255 ∷ 2 ∷ 192 ∷ 168 ∷ 0 ∷ 1 ∷ []

abbrev skb : SkBuff
skb = record { network_header = some datagram }

skb-HoldsLength : HoldsLength skb
skb-HoldsLength = (
  (λ ip e _.
      subst (λ (p : List ℕ). byte_at p 2 * 256 + byte_at p 3 ≤ length p) (some_inj e)
        (omega arith)),
  (λ ip e six. absurd (six (ap (λ (p : List ℕ). byte_at p 0 / 16) (sym (some_inj e))))),
)

nf_handle_in_lem_example :
    (r : Verdict × Globals) × (nf_handle_in open_module garbage (some skb) ≡ some r)
    × Handled open_module garbage skb r
nf_handle_in_lem_example =
    nf_handle_in_lem open_module garbage skb one_packet-IsValid skb-HoldsLength

chr_read_lem_example :
    (r : Ret × List ℕ × Globals) × (chr_read open_module 1 true ≡ some r)
    × ReadOutcome open_module true r
    × IsHealthy r.2
chr_read_lem_example = chr_read_lem open_module 1 true open_module-IsHealthy

set_subnet_lem_example :
    let r = chr_ioctl open_module (set_subnet (some ten_net)) in
    (r.0 ≡ ok 0)
    × ((buf ip : List ℕ)
        → All IsByte ip
        → (is_subnet buf (family r.1 false) ip false ≡ true) ↔ AgreesOn 12 ip net)
    × (family r.1 true ≡ family open_module true)
    × (r.1.r_queue ≡ one_packet)
    × (r.1.flock_flag ≡ true)
set_subnet_lem_example = set_subnet_lem open_module ten_net (omega arith) bytes_net

abbrev history : List Event
history =
    opens
    ∷ requests (set_subnet (some ten_net))
    ∷ packets garbage (some skb)
    ∷ reads 1501 true
    ∷ packets garbage none
    ∷ closes
    ∷ reads 4 false
    ∷ []

run-xsky_init_example :
    (g₀ g : Globals) × (xsky_init ≡ some g₀) × (run g₀ history ≡ some g) × IsHealthy g
run-xsky_init_example = run-xsky_init history (skb-HoldsLength, tt)

-- The second of three namespaces is gone, and the third fails.
abbrev result : ℕ → NetRet
result zero = registered
result (suc zero) = absent
result (suc (suc n)) = failed 12

abbrev namespaces : List ℕ
namespaces = 0 ∷ 1 ∷ 2 ∷ []

namespaces-Distinct : Distinct namespaces
namespaces-Distinct = (
  ((λ e. omega (arith, e)), ((λ e. omega (arith, e)), tt)),
  (((λ e. omega (arith, e)), tt), (tt, tt)),
)

nf_register_hook_lem_example :
    (Succeeds result namespaces
      × (nf_register_hook result namespaces ≡ (registered, map register namespaces)))
    ⊎ ((f : Failure result namespaces) × (nf_register_hook result namespaces
          ≡ (result f.last, map register f.before ++ register f.last ∷ map unregister f.before)))
nf_register_hook_lem_example = nf_register_hook_lem result namespaces namespaces-Distinct
