-- ===== src/Controller/Pool/Runs.antt =====
-- controller/controller.cpp: where the steps of `task_pool` get stuck.
use xsky.Base.{
  ℕ, zero, suc, ◌≡◌, ◌≢◌, refl, sym, ap, subst, ◌∙◌, List, [], ◌∷◌, ◌++◌, true, false, All,
  replicate, map, arith,
}
use xsky.Controller.Create.{Task}
use xsky.Controller.Pool.{
  Worker, testing, trying, missed, waiting, holding, TaskPool, notifier, worker, woken, Step,
  enqueue, notify_one, notify_none, stop, notify_all, enter, leave, dequeue, miss, wait, execute,
  fresh_pool, Reach, here, next,
}

-- All threads pass from one place to the next, one after the other.
module _ (w v : Worker) (p : TaskPool)
    (move : (ws vs : List Worker)
      → Step worker
          (record p { workers = ws ++ w ∷ vs })
          (record p { workers = ws ++ v ∷ vs })) where
  replicate-snoc : (n : ℕ) (vs : List Worker) → replicate n v ++ v ∷ vs ≡ v ∷ (replicate n v ++ vs)
  replicate-snoc zero vs = refl
  replicate-snoc (suc n) vs = ap (λ (ws : List Worker). v ∷ ws) (replicate-snoc n vs)

  pass :
      {o : TaskPool} (n k : ℕ)
      → Reach o (record p { workers = replicate k v ++ replicate n w })
      → Reach o (record p { workers = replicate k v ++ replicate n v })
  pass zero k r = r
  pass {o} (suc n) k r =
      let moved = next r (move (replicate k v) (replicate n w)) in
      let there = pass n (suc k) (
        subst (λ (ws : List Worker). Reach o (record p { workers = ws }))
          (replicate-snoc k (replicate n w)) moved) in
      subst (λ (ws : List Worker). Reach o (record p { workers = ws }))
        (sym (replicate-snoc k (replicate n v))) there

  pass_all :
      {o : TaskPool} (n : ℕ)
      → Reach o (record p { workers = replicate n w })
      → Reach o (record p { workers = replicate n v })
  pass_all n r = pass n 0 r

-- A pool with a task in its queue, all of whose threads wait, and nobody left to notify them.
abbrev pub stuck : ℕ → Task → TaskPool
stuck n t = record {
  exit = false;
  queue = t ∷ [];
  workers = replicate n waiting;
  notifications = 0;
  announced = false;
  pushed = t ∷ [];
  taken = [];
  executed = [];
}

all_waiting :
    (n : ℕ) (ws vs : List Worker) (w : Worker) → replicate n waiting ≡ ws ++ w ∷ vs → w ≡ waiting
all_waiting zero [] vs w e = cc
all_waiting zero (x ∷ ws) vs w e = cc
all_waiting (suc n) [] vs w e = cc
all_waiting (suc n) (x ∷ ws) vs w e = all_waiting n ws vs w cc

-- The same after the destructor's `notify_all`: nobody is left to end the threads.
abbrev pub hung : ℕ → TaskPool
hung n = record (fresh_pool n) { exit = true; workers = replicate n waiting }

no_thread : (n : ℕ) {p q : TaskPool} → p.workers ≡ replicate n waiting → ¬ Step worker p q
no_thread n e (enter p ws vs x w) = let same = all_waiting n ws vs testing (sym e ∙ w) in cc
no_thread n e (leave p ws vs x w) = let same = all_waiting n ws vs testing (sym e ∙ w) in cc
no_thread n e (dequeue p ws vs t ts x w) = let same = all_waiting n ws vs trying (sym e ∙ w) in cc
no_thread n e (miss p ws vs x w) = let same = all_waiting n ws vs trying (sym e ∙ w) in cc
no_thread n e (wait p ws vs w) = let same = all_waiting n ws vs missed (sym e ∙ w) in cc
no_thread n e (execute p ws vs t w) = let same = all_waiting n ws vs (holding t) (sym e ∙ w) in cc

no_notice : {p q : TaskPool} → p.notifications ≡ 0 → p.announced ≡ false → ¬ Step notifier p q
no_notice z f (notify_one p ws vs n w) = omega arith
no_notice z f (notify_none p n w) = omega arith
no_notice z f (notify_all p e) = cc

none_waiting : (n : ℕ) → All (λ w. w ≢ waiting) (replicate n missed)
none_waiting zero = tt
none_waiting (suc n) = ((λ e. cc), none_waiting n)

all_woken : (n : ℕ) → map woken (replicate n missed) ≡ replicate n missed
all_woken zero = refl
all_woken (suc n) = ap (λ (ws : List Worker). missed ∷ ws) (all_woken n)

-- Every thread has looked into the empty queue, and none waits yet.
all_missed : (n : ℕ) → Reach (fresh_pool n) (record (fresh_pool n) { workers = replicate n missed })
all_missed n =
    let p = fresh_pool n in
    pass_all trying missed p
      (λ ws vs. miss (record p { workers = ws ++ trying ∷ vs }) ws vs refl refl) n
      (pass_all testing trying p
        (λ ws vs. enter (record p { workers = ws ++ testing ∷ vs }) ws vs refl refl) n here)

-- The mutex is not held over the look into the queue, so a wake-up can be lost: from a fresh pool of
-- any number of threads, steps lead to one where a task is in the queue, its push has notified, and
-- all threads wait. There neither a thread nor a notification takes a step.
pub lost_wakeup :
    (n : ℕ) (t : Task)
    → Reach (fresh_pool n) (stuck n t)
      × ((q : TaskPool) → ¬ Step worker (stuck n t) q)
      × ((q : TaskPool) → ¬ Step notifier (stuck n t) q)
lost_wakeup n t =
    let p = record (fresh_pool n) { workers = replicate n missed } in
    let full = record p { queue = t ∷ []; pushed = t ∷ []; notifications = 1 } in
    let told = record full { notifications = 0 } in
    let pushed = next (all_missed n) (enqueue p t refl) in
    let notified = next pushed (notify_none full (omega arith) (none_waiting n)) in
    (
      pass_all missed waiting told
          (λ ws vs. wait (record told { workers = ws ++ missed ∷ vs }) ws vs refl) n notified,
      (λ q. no_thread n refl),
      (λ q. no_notice refl refl),
    )

-- In the same way the destructor can wait for ever: from a fresh pool of any number of threads,
-- steps lead to one whose destructor has set `exit` and notified, and all of whose threads wait.
-- There neither a thread nor a notification takes a step.
lost_exit :
    (n : ℕ)
    → Reach (fresh_pool n) (hung n)
      × ((q : TaskPool) → ¬ Step worker (hung n) q)
      × ((q : TaskPool) → ¬ Step notifier (hung n) q)
lost_exit n =
    let p = record (fresh_pool n) { workers = replicate n missed } in
    let told = record p { exit = true } in
    let stopped = next (all_missed n) (stop p) in
    let notified = next stopped (notify_all (record told { announced = true }) refl) in
    (
      pass_all missed waiting told
          (λ ws vs. wait (record told { workers = ws ++ missed ∷ vs }) ws vs refl) n
          (subst (λ (ws : List Worker). Reach (fresh_pool n) (record told { workers = ws }))
            (all_woken n) notified),
      (λ q. no_thread n refl),
      (λ q. no_notice refl refl),
    )
