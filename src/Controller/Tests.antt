-- ===== src/Controller/Tests.antt =====
-- controller/: the theorems at concrete bitmaps, lines and packets.
use mathlib.Core.Option
use xsky.Base.{
  ℕ, suc, ◌+◌, ◌*◌, ◌≤◌, ◌≡◌, ◌≢◌, ◌/◌, ◌^◌, ◌<◌, false, none, Bool, refl, List, [], ◌∷◌, ◌++◌,
  true, some, length, drop, arith, All, ◌==◌, if◌then◌else◌,
}
use xsky.Controller.Apnic.{Apnic, Addresses, marker, index4, is_cn4, is_cn6, sync_line, fresh}
use xsky.Controller.Mmap.Open.{Outcome, fresh_state, close_map}
use xsky.Controller.Mmap.Open.Handles.{Call, opens, steps, lost, steps_close}
use xsky.Controller.Apnic.Lifecycle.{Maps, apnic_of, init, close4, release}
use xsky.Controller.Apnic.Lifecycle.Reach.{init_lem, released_early}
use xsky.Controller.Apnic.Marks.{IsReady, fresh-IsReady, sync_line-ipv4}
use xsky.Controller.Create.{Task, dns_task, create}
use xsky.Controller.Pool.{
  waiting, testing, trying, missed, holding, TaskPool, Step, worker, notifier, enqueue, enter,
  dequeue, execute, miss, wait, notify_one, fresh_pool, Reach, here, next,
}
use xsky.Controller.Pool.Works.{Works, idle, work}
use xsky.Controller.Pool.Conserved.{IsConserved, fresh_pool-IsConserved, total}
use xsky.Controller.Pool.Drain.{push_lem, pushed}
use xsky.Controller.Pool.Runs.{stuck, lost_wakeup}
use xsky.Controller.Create.Kinds.{expected_kind, le_value, create_lem}

-- `1.0.1.0`
abbrev ip : List ℕ
ip = b'1' ∷ b'.' ∷ b'0' ∷ b'.' ∷ b'1' ∷ b'.' ∷ b'0' ∷ []

-- `256|20110414|allocated`, cut short.
abbrev rest : List ℕ
rest = b'2' ∷ b'5' ∷ b'6' ∷ b'|' ∷ []

abbrev six_bytes : List ℕ
six_bytes = 32 ∷ 1 ∷ 2 ∷ 80 ∷ []

abbrev asio : Addresses
asio = record { to_uint = λ _. some 0x01000100; to_bytes = λ _. some six_bytes }

no_bars : All (λ c. c ≢ b'|') ip
no_bars = ground arith

sync_line-ipv4_example :
    (a' : Apnic) × (sync_line asio fresh (marker ++ b'4' ∷ b'|' ∷ (ip ++ b'|' ∷ rest)) ≡ some a')
    × IsReady a'
    × ((x : ℕ)
        → is_cn4 a' x ≡ (if index4 0x01000100 == index4 x then some true else is_cn4 fresh x))
    × ((x : ℕ) → is_cn6 a' x ≡ is_cn6 fresh x)
sync_line-ipv4_example = sync_line-ipv4 asio fresh ip rest 0x01000100 fresh-IsReady no_bars refl

-- An identifier and an IPv6 header for UDP, with port 53 where the code reads it.
abbrev message : List ℕ
message =
    5 ∷ 0 ∷ 0 ∷ 0 ∷ 0 ∷ 0 ∷ 0 ∷ 0 ∷ 96 ∷ 0 ∷ 0 ∷ 0 ∷ 0 ∷ 8 ∷ 17 ∷ 64 ∷ 1 ∷ 2 ∷ 3 ∷ 4 ∷ 5 ∷ 6 ∷ 7 ∷ 8
    ∷ 9 ∷ 10 ∷ 11 ∷ 12 ∷ 13 ∷ 14 ∷ 15 ∷ 16 ∷ 17 ∷ 18 ∷ 0 ∷ 53 ∷ []

create_lem_example :
    create message 36
    ≡ some (
        Option.map
          (λ kind. record {
            kind = kind;
            id = le_value 8 message;
            size = 36;
            packet = drop 8 message;
          })
          (expected_kind 17 53))
create_lem_example = create_lem message 36 (omega arith) (omega arith)

abbrev query : Task
query = record { kind = dns_task; id = 5; size = 36; packet = drop 8 message }

-- A pool of two threads, the first of which has taken a task.
abbrev given : TaskPool
given = record (fresh_pool 2) {
  workers = holding query ∷ testing ∷ [];
  pushed = query ∷ [];
  notifications = 1;
  taken = query ∷ [];
}

given-Reach : Reach (fresh_pool 2) given
given-Reach =
    let p = fresh_pool 2 in
    let full = record p { queue = query ∷ []; pushed = query ∷ []; notifications = 1 } in
    next (next (next here (enqueue p query refl)) (enter full [] (testing ∷ []) refl refl)) (
      dequeue (record full { workers = trying ∷ testing ∷ [] }) [] (testing ∷ []) query [] refl
        refl)

fresh_pool-IsConserved_example : IsConserved given
fresh_pool-IsConserved_example = fresh_pool-IsConserved 2 given given-Reach

lost_wakeup_example :
    Reach (fresh_pool 2) (stuck 2 query)
    × ((q : TaskPool) → ¬ Step worker (stuck 2 query) q)
    × ((q : TaskPool) → ¬ Step notifier (stuck 2 query) q)
lost_wakeup_example = lost_wakeup 2 query

-- The pool of one thread that has lost a wake-up, after another push and its notification, and once
-- the thread waits again.
abbrev woken_pool : TaskPool
woken_pool = record (pushed (stuck 1 query) query) { workers = testing ∷ []; notifications = 0 }

abbrev drained : TaskPool
drained = record woken_pool {
  queue = [];
  workers = waiting ∷ [];
  taken = query ∷ query ∷ [];
  executed = query ∷ query ∷ [];
}

-- The thread's passes of its loop, from a pool at the test of `exit`.
pass-Works :
    (p q : TaskPool) (n : ℕ) (t : Task) (ts : List Task)
    → q.exit ≡ false
    → q.queue ≡ t ∷ ts
    → q.workers ≡ testing ∷ []
    → Works p n q
    → Works p (suc (suc (suc n))) (record q {
      queue = ts;
      workers = testing ∷ [];
      taken = q.taken ++ t ∷ [];
      executed = q.executed ++ t ∷ [];
    })
pass-Works p q n t ts on queue at r =
    work
      (work (work r (enter q [] [] on at))
        (dequeue (record q { workers = trying ∷ [] }) [] [] t ts queue refl))
      (execute (record q { queue = ts; workers = holding t ∷ []; taken = q.taken ++ t ∷ [] }) [] []
        t refl)

drained-Works : Works woken_pool 9 drained
drained-Works =
    let once = record woken_pool {
      queue = query ∷ [];
      taken = query ∷ [];
      executed = query ∷ [];
    } in
    let empty = record drained { workers = testing ∷ [] } in
    let first = pass-Works woken_pool woken_pool 0 query (query ∷ []) refl refl refl idle in
    let second = pass-Works woken_pool once 3 query [] refl refl refl first in
    work
      (work (work second (enter empty [] [] refl refl))
        (miss (record empty { workers = trying ∷ [] }) [] [] refl refl))
      (wait (record empty { workers = missed ∷ [] }) [] [] refl)

push_lem_example :
    (9 ≤ 3 * length woken_pool.queue + 4 * length woken_pool.workers)
    × (((s : TaskPool) → ¬ Step worker drained s)
        → (drained.queue ≡ [])
          × (drained.taken ≡ query ∷ query ∷ [])
          × ((f : Task → ℕ) → total f drained.executed ≡ total f (query ∷ query ∷ [])))
push_lem_example =
    push_lem 1 (stuck 1 query) [] [] query woken_pool 9 drained (lost_wakeup 1 query).0 refl refl
      refl refl (notify_one (pushed (stuck 1 query) query) [] [] (omega arith) refl) drained-Works

-- A call whose file is opened and not mapped, and one that succeeds, each on a file of two bytes.
abbrev unmapped : Outcome
unmapped = record { file = true; mapping = false; view = false }

abbrev mapped : Outcome
mapped = record { file = true; mapping = true; view = true }

abbrev calls : List Call
calls = opens unmapped (1 ∷ 2 ∷ []) 4 ∷ opens mapped (1 ∷ 2 ∷ []) 4 ∷ []

steps_close_example :
    let s = close_map (steps fresh_state calls) in
    (s.views ≡ 0) × (s.mappings ≡ 0) × (s.files ≡ lost calls)
steps_close_example = steps_close calls

abbrev maps : Maps
maps = record { ipv4 = fresh_state; ipv6 = fresh_state; is_exit = false }

abbrev started : Maps
started = init mapped mapped (1 ∷ []) [] maps

init_lem_example :
    ((x : ℕ) → index4 x / 8 < length (apnic_of started).ipv4.address)
    × ((x : ℕ) → (b : Bool) × (is_cn4 (apnic_of started) x ≡ some b))
    × ((word : ℕ) → word < 2 ^ 32 → word / 8 < length (apnic_of started).ipv6.address)
    × ((word : ℕ) → word < 2 ^ 32 → (b : Bool) × (is_cn6 (apnic_of started) word ≡ some b))
init_lem_example =
    init_lem mapped mapped (1 ∷ []) [] maps (refl, refl) (refl, refl) (omega arith, tt) tt

released_early_example :
    let line = marker ++ b'4' ∷ b'|' ∷ (ip ++ b'|' ∷ rest) in
    ((a : Apnic) × (sync_line asio (apnic_of started) line ≡ some a))
    × ((close4 started).is_exit ≡ false)
    × (sync_line asio (apnic_of (close4 started)) line ≡ none)
    × ((x : ℕ) → is_cn4 (apnic_of (release started)) x ≡ none)
    × ((x : ℕ) → is_cn6 (apnic_of (release started)) x ≡ none)
released_early_example =
    released_early mapped mapped (1 ∷ []) [] maps (refl, refl) (refl, refl) (omega arith, tt) tt
      asio ip rest 0x01000100 no_bars refl
