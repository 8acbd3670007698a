-- ===== src/Controller/Pool/Drain.antt =====
-- controller/controller.cpp: once a push has notified, the threads of `task_pool` work off the queue.
use mathlib.Core.List.{append_assoc, append-nil}
use xsky.Base.{
  ◌<◌, subst, ℕ, ◌+◌, ◌*◌, ◌≡◌, ◌≢◌, ◌≤◌, refl, sym, ap, ◌∙◌, List, [], ◌∷◌, ◌++◌, length, false,
  All, ◌⊎◌, inl, inr, arith,
}
use xsky.Controller.Create.{Task}
use xsky.Controller.Pool.{
  Worker, testing, trying, missed, waiting, holding, returned, TaskPool, notifier, worker, Step,
  Reach, fresh_pool, enqueue, notify_one, notify_none, notify_all, enter, leave, dequeue, miss,
  wait, execute,
}
use xsky.Controller.Pool.Works.{Works, idle, work, Works-length, Works-pushed, Works-IsConserved}
use xsky.Controller.Pool.Conserved.{
  Step-IsConserved, fresh_pool-IsConserved, total, held, weight_of,
}

-- Whether the thread will look into the queue again, and how many will.
looks : Worker → ℕ
looks testing = 1
looks trying = 1
looks missed = 0
looks waiting = 0
looks (holding t) = 1
looks returned = 0

looking : List Worker → ℕ
unfolding looks
looking [] = 0
looking (w ∷ ws) = looks w + looking ws

looking-append :
    (ws : List Worker) (w : Worker) (vs : List Worker)
    → looking (ws ++ w ∷ vs) ≡ looking ws + (looks w + looking vs)
unfolding looking looks
looking-append [] w vs = omega arith
looking-append (v ∷ ws) w vs = ground (arith, looking-append ws w vs)

looking-moved :
    {all : List Worker} (ws vs : List Worker) (w v : Worker)
    → all ≡ ws ++ w ∷ vs
    → looking (ws ++ v ∷ vs) + looks w ≡ looking all + looks v
looking-moved ws vs w v e =
    ground (arith, ap looking e, looking-append ws w vs, looking-append ws v vs)

-- The pool runs, and where a task is in the queue a thread will look into it.
IsAwake : TaskPool → Type 0
IsAwake p = (p.exit ≡ false) × ((p.queue ≡ []) ⊎ (0 < looking p.workers))

Step-IsAwake : {p q : TaskPool} → Step worker p q → IsAwake p → IsAwake q
unfolding IsAwake looks
Step-IsAwake (enter p ws vs x e) (on, h) =
    (on, inr (ground (arith, looking-moved ws vs testing trying e, looking-append ws trying vs)))
Step-IsAwake (leave p ws vs x e) (on, h) = let same = sym on ∙ x in cc
Step-IsAwake (dequeue p ws vs t ts e w) (on, h) =
    (on, inr (ground (arith, looking-append ws (holding t) vs)))
Step-IsAwake (miss p ws vs x e) (on, h) = (on, inl x)
Step-IsAwake (wait p ws vs e) (on, inl none) = (on, inl none)
Step-IsAwake (wait p ws vs e) (on, inr some) =
    (on, inr (ground (arith, looking-moved ws vs missed waiting e, some)))
Step-IsAwake (execute p ws vs t e) (on, h) =
    (on, inr (ground (arith, looking-append ws testing vs)))

Works-IsAwake : {p q : TaskPool} {n : ℕ} → Works p n q → IsAwake p → IsAwake q
Works-IsAwake idle h = h
Works-IsAwake (work r s) h = Step-IsAwake s (Works-IsAwake r h)

-- The thread takes no step of its own any more.
Rests : Worker → Type 0
Rests w = (w ≡ waiting) ⊎ (w ≡ returned)

IsStuck : TaskPool → Type 0
IsStuck p = (q : TaskPool) → ¬ Step worker p q

IsStuck-trying :
    (p : TaskPool) (ws vs : List Worker) (ts : List Task)
    → IsStuck p
    → p.workers ≡ ws ++ trying ∷ vs
    → ¬ (p.queue ≡ ts)
unfolding IsStuck
IsStuck-trying p ws vs [] shut e q = shut _ (miss p ws vs q e)
IsStuck-trying p ws vs (t ∷ ts) shut e q = shut _ (dequeue p ws vs t ts q e)

IsStuck-Rests :
    (p : TaskPool) (ws vs : List Worker) (w : Worker)
    → p.exit ≡ false
    → IsStuck p
    → p.workers ≡ ws ++ w ∷ vs
    → Rests w
unfolding IsStuck Rests
IsStuck-Rests p ws vs testing on shut e = absurd (shut _ (enter p ws vs on e))
IsStuck-Rests p ws vs trying on shut e = absurd (IsStuck-trying p ws vs p.queue shut e refl)
IsStuck-Rests p ws vs missed on shut e = absurd (shut _ (wait p ws vs e))
IsStuck-Rests p ws vs waiting on shut e = inl refl
IsStuck-Rests p ws vs (holding t) on shut e = absurd (shut _ (execute p ws vs t e))
IsStuck-Rests p ws vs returned on shut e = inr refl

-- Threads that rest neither look into the queue nor hold a task.
all_rest :
    (f : Task → ℕ) (p : TaskPool) (ws vs : List Worker)
    → p.exit ≡ false
    → IsStuck p
    → p.workers ≡ ws ++ vs
    → (looking vs ≡ 0) × (held f vs ≡ 0)
unfolding looking looks held weight_of Rests
all_rest f p ws [] on shut e = (refl, refl)
all_rest f p ws (w ∷ vs) on shut e =
    let (look, hold) =
      all_rest f p (ws ++ w ∷ []) vs on shut (e ∙ sym (append_assoc ws (w ∷ []) vs)) in
    elim (IsStuck-Rests p ws vs w on shut e) [
      | inl e ↦ (ground (arith, e, look), ground (arith, e, hold))
      | inr e ↦ (ground (arith, e, look), ground (arith, e, hold))
    ]

All-middle :
    (P : Worker → Type 0) (ws : List Worker) (w : Worker) (vs : List Worker)
    → All P (ws ++ w ∷ vs)
    → P w
All-middle P [] w vs (h, hs) = h
All-middle P (v ∷ ws) w vs (h, hs) = All-middle P ws w vs hs

-- A notification after a push wakes a thread where one waits.
notified :
    {p q : TaskPool} (ws vs : List Worker)
    → p.exit ≡ false
    → p.announced ≡ false
    → p.workers ≡ ws ++ waiting ∷ vs
    → Step notifier p q
    → IsAwake q × (q.pushed ≡ p.pushed)
unfolding IsAwake looks
notified ws vs on quiet e (notify_one p us xs n w) =
    ((on, inr (ground (arith, looking-append us testing xs))), refl)
notified ws vs on quiet e (notify_none p n h) =
    absurd (All-middle (λ w. w ≢ waiting) ws waiting vs (subst (All (λ w. w ≢ waiting)) e h) refl)
notified ws vs on quiet e (notify_all p h) = let same = sym quiet ∙ h in cc

-- The pool after `enqueue`, and before `notify_one`.
abbrev pub pushed : TaskPool → Task → TaskPool
pushed p t = record p {
  queue = p.queue ++ t ∷ [];
  pushed = p.pushed ++ t ∷ [];
  notifications = p.notifications + 1;
}

-- In any pool that a fresh one leads to, that its destructor has left alone and whose earlier pushes
-- have notified: a push of a task while a thread waits gets the work done once it has notified, in
-- whatever order the threads run and without a further wake-up. They take at most three steps for
-- each task in the queue and four for each thread; where none of them can step any more, the queue
-- is empty and every task that was ever pushed has been taken, in the order of the pushes, and been
-- executed as often as it was pushed, also those whose own wake-up was lost.
pub push_lem :
    (k : ℕ) (p : TaskPool) (ws vs : List Worker) (t : Task) (q : TaskPool) (n : ℕ) (r : TaskPool)
    → Reach (fresh_pool k) p
    → p.exit ≡ false
    → p.announced ≡ false
    → p.notifications ≡ 0
    → p.workers ≡ ws ++ waiting ∷ vs
    → Step notifier (pushed p t) q
    → Works q n r
    → (n ≤ 3 * length q.queue + 4 * length q.workers)
      × (((s : TaskPool) → ¬ Step worker r s)
          → (r.queue ≡ [])
            × (r.taken ≡ p.pushed ++ t ∷ [])
            × ((f : Task → ℕ) → total f r.executed ≡ total f (p.pushed ++ t ∷ [])))
unfolding IsAwake IsStuck
push_lem k p ws vs t q n r reach on quiet done asleep notice run =
    let (awake, same) = notified {p = pushed p t} {q = q} ws vs on quiet asleep notice in
    let before = Step-IsConserved (enqueue p t done) (fresh_pool-IsConserved k p reach) in
    let kept = Works-IsConserved run (Step-IsConserved notice before) in
    let (runs, looked) = Works-IsAwake run awake in
    let all : r.pushed ≡ p.pushed ++ t ∷ [] = Works-pushed run ∙ same in
    (
      Works-length run,
      λ stuck.
          let rest = λ (f : Task → ℕ). all_rest f r [] r.workers runs stuck refl in
          let empty : r.queue ≡ [] = ground (arith, looked, (rest (λ _. 0)).0) in
          let taken : r.taken ≡ p.pushed ++ t ∷ [] =
            sym (append-nil r.taken)
            ∙ sym (ap (λ (ts : List Task). r.taken ++ ts) empty)
            ∙ sym kept.order
            ∙ all in
          (empty, taken, λ f. ground (arith, kept.work f, (rest f).1, ap (total f) taken)),
    )
