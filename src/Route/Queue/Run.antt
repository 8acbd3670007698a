-- ===== src/Route/Queue/Run.antt =====
-- Whole histories of route/queue.h, from `xsky_queue_init` to `xsky_queue_release`.
use mathlib.Core.Option
use xsky.Base.{
  ℕ, zero, suc, ◌+◌, ◌-◌, ◌<◌, ◌≡◌, refl, ap, ap₂, ◌∙◌, subst, List, [], ◌∷◌, Option, none, some,
  length, take, arith,
}
use xsky.Route.Queue.{
  Node, XskyQueue, PushStatus, node_at, init, push, pop, reset, release, release_from,
}
use xsky.Route.Queue.Ring.{IsRing, IsValid, init-IsValid}
use xsky.Route.Queue.Inv.{push-IsValid, pop-IsValid, reset-IsValid}
use xsky.Route.Queue.Refine.{
  packet_of, contents, walk, fifo_push, fifo_pop, push_refines, pop_refines,
}

-- A client's call: a push hands over a whole packet.
pub data Call : Type 0 where
  pushes : List ℕ → Call
  pops resets : Call

pub data Reply : Type 0 where
  status : PushStatus → Reply
  packet : Option (List ℕ) → Reply
  done : Reply

-- One call and what it returns. A reader copies its packet before the next call.
pub step : XskyQueue → Call → Option (Reply × XskyQueue)
step q (pushes p) = Option.map (λ r. (status r.0, r.1)) (push q p (length p))
step q pops =
    Option.map (λ r. (packet (Option.map (λ i. packet_of (node_at r.1.nodes i)) r.0), r.1)) (pop q)
step q resets = some (done, reset q)

pub run : XskyQueue → List Call → Option (List Reply)
run q [] = some []
run q (c ∷ cs) =
    let rest = λ (r : Reply × XskyQueue). Option.map (λ rs. r.0 ∷ rs) (run r.1 cs) in
    elim (step q c) [ none ↦ none | some r ↦ rest r ]

pub fifo_step : ℕ → List (List ℕ) → Call → Reply × List (List ℕ)
fifo_step cap ps (pushes p) = let (s, ps') = fifo_push cap ps p in (status s, ps')
fifo_step cap ps pops = let (p, ps') = fifo_pop ps in (packet p, ps')
fifo_step cap ps resets = (done, [])

pub fifo_run : ℕ → List (List ℕ) → List Call → List Reply
fifo_run cap ps [] = []
fifo_run cap ps (c ∷ cs) = let (r, ps') = fifo_step cap ps c in r ∷ fifo_run cap ps' cs

take_all : (xs : List ℕ) → take (length xs) xs ≡ xs
take_all [] = refl
take_all (x ∷ xs) = ap (λ t. x ∷ t) (take_all xs)

step_refines :
    {q : XskyQueue} (c : Call)
    → IsValid q
    → (r : Reply × XskyQueue) × (step q c ≡ some r)
      × IsValid r.1
      × (r.1.size ≡ q.size)
      × ((r.0, contents r.1) ≡ fifo_step q.size (contents q) c)
unfolding step fifo_step walk reset fifo_push fifo_pop
step_refines {q} (pushes p) v =
    let (r, e, valid, same) = push-IsValid v p (length p) (omega arith) in
    let (r', e', fits) = push_refines v p (length p) (omega arith) in
    ((status r.0, r.1), ground (arith, e), valid, same, ground (arith, e, e', fits, take_all p))
step_refines {q} pops v =
    let (r, e, valid, same) = pop-IsValid v in
    let (r', e', fits) = pop_refines v in
    (
      (packet (Option.map (λ i. packet_of (node_at r.1.nodes i)) r.0), r.1),
      ground (arith, e),
      valid,
      same,
      ground (arith, e, e', fits),
    )
step_refines {q} resets v = ((done, reset q), refl, (reset-IsValid v).0, refl, refl)

-- No history of calls tells a valid ring from the FIFO of its packets: no call reads through NULL,
-- and every call returns what the FIFO of that capacity returns.
pub run_refines :
    (cs : List Call) {q : XskyQueue} → IsValid q → run q cs ≡ some (fifo_run q.size (contents q) cs)
unfolding run fifo_run
run_refines [] v = refl
run_refines (c ∷ cs) {q} v =
    let (r, e, valid, same, fits) = step_refines c v in
    rw (run, e, run_refines cs valid, same, ← fits)

-- So it is for a queue fresh from `xsky_queue_init`: an empty FIFO of `n` packets.
pub run-init :
    (n : ℕ) (cs : List Call)
    → 0 < n
    → (q : XskyQueue) × (init n ≡ some q) × (run q cs ≡ some (fifo_run n [] cs))
unfolding walk
run-init n cs h =
    let (q, e, v, none_have, same) = init-IsValid n h in
    (
      q,
      e,
      run_refines cs v
          ∙ ap₂ (λ (k : ℕ) ps. some (fifo_run k ps cs)) same
              (ap (λ (k : ℕ). walk q.nodes q.begin k) none_have),
    )

-- `i`, `i + 1`, and so on: `k` numbers.
unfoldable pub count_from : ℕ → ℕ → List ℕ
count_from i zero = []
count_from i (suc k) = i ∷ count_from (suc i) k

release_from-count :
    {n : ℕ} {ns : List Node} (k i : ℕ)
    → IsRing n ns
    → i + suc k ≡ n
    → release_from ns (some i) (suc k) ≡ some (count_from i (suc k))
unfolding release_from count_from
release_from-count {n} {ns} zero i r e = refl
release_from-count {n} {ns} (suc k) i r e =
    let forward : (node_at ns i).next ≡ some (suc i) = ground (arith, r.forward i) in
    rw (release_from, forward, release_from-count k (suc i) r (omega arith))

-- `xsky_queue_release` frees every buffer of a valid ring exactly once, in the order of allocation.
pub release_lem : {q : XskyQueue} → IsValid q → release q ≡ some (count_from 0 q.size)
unfolding release
release_lem {q} v =
    let e : suc (q.size - 1) ≡ q.size = omega (arith, v.room) in
    rw v.first (
      subst (λ (k : ℕ). release_from q.nodes (some 0) k ≡ some (count_from 0 k)) e
        (release_from-count (q.size - 1) 0 v.ring (omega (arith, v.room))))
