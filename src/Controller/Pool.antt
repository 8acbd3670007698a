-- ===== src/Controller/Pool.antt =====
-- controller/controller.cpp, `task_pool`: threads that take tasks from a shared queue, as a relation
-- of steps that interleave. `concurrentqueue` has one producer here, so it is a FIFO.
pub mod Conserved
pub mod Runs
pub mod Works
pub mod Drain
use xsky.Base.{
  ℕ, ◌+◌, ◌-◌, ◌<◌, ◌≡◌, ◌≢◌, List, [], ◌∷◌, ◌++◌, Bool, true, false, All, replicate, map,
}
use xsky.Controller.Create.{Task}

-- Where a thread of the pool is in the loop of `execute`: before its test of `exit`, before
-- `try_dequeue`, past a failed one, in `cond.wait`, with a task, or returned.
pub data Worker : Type 0 where
  testing trying missed waiting : Worker
  holding : Task → Worker
  returned : Worker

-- The pool. `notifications` is 1 where the last push has not called `notify_one` yet, and `announced`
-- says that the destructor has still to call `notify_all`. `pushed`, `taken` and `executed` keep
-- the tasks of the past, oldest first.
pub record TaskPool : Type 0 where
  pub exit : Bool
  pub queue : List Task
  pub workers : List Worker
  pub notifications : ℕ
  pub announced : Bool
  pub pushed : List Task
  pub taken : List Task
  pub executed : List Task

-- Whose step it is: the thread that pushes and notifies, the destructor, a thread of the pool, or a
-- spurious wake-up.
pub data Actor : Type 0 where
  pusher notifier destructor worker chance : Actor

-- `notify_all` on one thread.
abbrev pub woken : Worker → Worker
woken waiting = testing
woken w = w

pub data Step : Actor → TaskPool → TaskPool → Type 0 where
  enqueue :
      (p : TaskPool) (t : Task)
      → p.notifications ≡ 0
      → Step pusher p (record p {
        queue = p.queue ++ t ∷ [];
        pushed = p.pushed ++ t ∷ [];
        notifications = p.notifications + 1;
      })
  notify_one :
      (p : TaskPool) (ws vs : List Worker)
      → 0 < p.notifications
      → p.workers ≡ ws ++ waiting ∷ vs
      → Step notifier p
          (record p { workers = ws ++ testing ∷ vs; notifications = p.notifications - 1 })
  notify_none :
      (p : TaskPool)
      → 0 < p.notifications
      → All (λ w. w ≢ waiting) p.workers
      → Step notifier p (record p { notifications = p.notifications - 1 })
  stop : (p : TaskPool) → Step destructor p (record p { exit = true; announced = true })
  notify_all :
      (p : TaskPool)
      → p.announced ≡ true
      → Step notifier p (record p { workers = map woken p.workers; announced = false })
  enter :
      (p : TaskPool) (ws vs : List Worker)
      → p.exit ≡ false
      → p.workers ≡ ws ++ testing ∷ vs
      → Step worker p (record p { workers = ws ++ trying ∷ vs })
  leave :
      (p : TaskPool) (ws vs : List Worker)
      → p.exit ≡ true
      → p.workers ≡ ws ++ testing ∷ vs
      → Step worker p (record p { workers = ws ++ returned ∷ vs })
  dequeue :
      (p : TaskPool) (ws vs : List Worker) (t : Task) (ts : List Task)
      → p.queue ≡ t ∷ ts
      → p.workers ≡ ws ++ trying ∷ vs
      → Step worker p
          (record p { queue = ts; workers = ws ++ holding t ∷ vs; taken = p.taken ++ t ∷ [] })
  miss :
      (p : TaskPool) (ws vs : List Worker)
      → p.queue ≡ []
      → p.workers ≡ ws ++ trying ∷ vs
      → Step worker p (record p { workers = ws ++ missed ∷ vs })
  wait :
      (p : TaskPool) (ws vs : List Worker)
      → p.workers ≡ ws ++ missed ∷ vs
      → Step worker p (record p { workers = ws ++ waiting ∷ vs })
  execute :
      (p : TaskPool) (ws vs : List Worker) (t : Task)
      → p.workers ≡ ws ++ holding t ∷ vs
      → Step worker p (record p { workers = ws ++ testing ∷ vs; executed = p.executed ++ t ∷ [] })
  wake :
      (p : TaskPool) (ws vs : List Worker)
      → p.workers ≡ ws ++ waiting ∷ vs
      → Step chance p (record p { workers = ws ++ testing ∷ vs })

-- The pool as its constructor leaves it, with `n` threads.
abbrev pub fresh_pool : ℕ → TaskPool
fresh_pool n = record {
  exit = false;
  queue = [];
  workers = replicate n testing;
  notifications = 0;
  announced = false;
  pushed = [];
  taken = [];
  executed = [];
}

-- The pools that steps lead to.
pub data Reach (p : TaskPool) : TaskPool → Type 0 where
  here : Reach p p
  next : {q r : TaskPool} {a : Actor} → Reach p q → Step a q r → Reach p r
