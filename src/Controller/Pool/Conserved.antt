-- ===== src/Controller/Pool/Conserved.antt =====
-- controller/controller.cpp: what the steps of `task_pool` keep.
use mathlib.Core.List.{append_assoc}
use xsky.Base.{
  ℕ, ◌+◌, ◌≡◌, refl, sym, ap, ◌∙◌, List, [], ◌∷◌, ◌++◌, map, zero, suc, replicate, arith,
}
use xsky.Controller.Create.{Task}
use xsky.Controller.Pool.{
  Worker, testing, trying, missed, waiting, holding, returned, TaskPool, Actor, woken, Step,
  enqueue, notify_one, notify_none, stop, notify_all, enter, leave, dequeue, miss, wait, execute,
  wake, fresh_pool, Reach, here, next,
}

-- What the tasks of a list weigh together, and those that threads hold.
unfoldable pub total : (Task → ℕ) → List Task → ℕ
total f [] = 0
total f (t ∷ ts) = f t + total f ts

unfoldable pub weight_of : (Task → ℕ) → Worker → ℕ
weight_of f (holding t) = f t
weight_of f testing = 0
weight_of f trying = 0
weight_of f missed = 0
weight_of f waiting = 0
weight_of f returned = 0

unfoldable pub held : (Task → ℕ) → List Worker → ℕ
held f [] = 0
held f (w ∷ ws) = weight_of f w + held f ws

-- The tasks that were taken, then those in the queue, are those that were pushed; and whatever a
-- task weighs, those executed and those that threads hold weigh what was taken. A weight of 1 for
-- one task and 0 for all others counts the times that it occurs.
pub record IsConserved (p : TaskPool) : Type 0 where
  pub order : p.pushed ≡ p.taken ++ p.queue
  pub work : (f : Task → ℕ) → total f p.taken ≡ total f p.executed + held f p.workers

total-append : (f : Task → ℕ) (ts us : List Task) → total f (ts ++ us) ≡ total f ts + total f us
unfolding total
total-append f [] us = omega arith
total-append f (t ∷ ts) us = ground (arith, total-append f ts us)

total-snoc : (f : Task → ℕ) (ts : List Task) (t : Task) → total f (ts ++ t ∷ []) ≡ total f ts + f t
unfolding total
total-snoc f ts t = ground (arith, total-append f ts (t ∷ []))

held-append :
    (f : Task → ℕ) (ws : List Worker) (w : Worker) (vs : List Worker)
    → held f (ws ++ w ∷ vs) ≡ held f ws + (weight_of f w + held f vs)
unfolding held
held-append f [] w vs = omega arith
held-append f (v ∷ ws) w vs = ground (arith, held-append f ws w vs)

-- What a thread's step changes in what is held.
held-moved :
    (f : Task → ℕ) {all : List Worker} (ws vs : List Worker) (w v : Worker)
    → all ≡ ws ++ w ∷ vs
    → held f (ws ++ v ∷ vs) + weight_of f w ≡ held f all + weight_of f v
held-moved f ws vs w v e =
    ground (arith, ap (held f) e, held-append f ws w vs, held-append f ws v vs)

held-woken : (f : Task → ℕ) (ws : List Worker) → held f (map woken ws) ≡ held f ws
unfolding held weight_of
held-woken f [] = refl
held-woken f (testing ∷ ws) = ground (arith, held-woken f ws)
held-woken f (trying ∷ ws) = ground (arith, held-woken f ws)
held-woken f (missed ∷ ws) = ground (arith, held-woken f ws)
held-woken f (waiting ∷ ws) = ground (arith, held-woken f ws)
held-woken f (holding t ∷ ws) = ap (λ (n : ℕ). f t + n) (held-woken f ws)
held-woken f (returned ∷ ws) = ground (arith, held-woken f ws)

held-fresh : (f : Task → ℕ) (n : ℕ) → held f (replicate n testing) ≡ 0
unfolding held weight_of
held-fresh f zero = refl
held-fresh f (suc n) = ground (arith, held-fresh f n)

Step-order :
    {p q : TaskPool} {a : Actor}
    → Step a p q
    → p.pushed ≡ p.taken ++ p.queue
    → q.pushed ≡ q.taken ++ q.queue
Step-order (enqueue p t n) h =
    ap (λ (ts : List Task). ts ++ t ∷ []) h ∙ append_assoc p.taken p.queue (t ∷ [])
Step-order (dequeue p ws vs t ts e w) h =
    h ∙ ap (λ (q : List Task). p.taken ++ q) e ∙ sym (append_assoc p.taken (t ∷ []) ts)
Step-order (notify_one p ws vs n e) h = h
Step-order (notify_none p n e) h = h
Step-order (stop p) h = h
Step-order (notify_all p e) h = h
Step-order (enter p ws vs x e) h = h
Step-order (leave p ws vs x e) h = h
Step-order (miss p ws vs x e) h = h
Step-order (wait p ws vs e) h = h
Step-order (execute p ws vs t e) h = h
Step-order (wake p ws vs e) h = h

Step-work :
    {p q : TaskPool} {a : Actor} (f : Task → ℕ)
    → Step a p q
    → total f p.taken ≡ total f p.executed + held f p.workers
    → total f q.taken ≡ total f q.executed + held f q.workers
unfolding weight_of
Step-work f (enqueue p t n) h = h
Step-work f (notify_one p ws vs n e) h = ground (arith, h, held-moved f ws vs waiting testing e)
Step-work f (notify_none p n e) h = h
Step-work f (stop p) h = h
Step-work f (notify_all p e) h = ground (arith, h, held-woken f p.workers)
Step-work f (enter p ws vs x e) h = ground (arith, h, held-moved f ws vs testing trying e)
Step-work f (leave p ws vs x e) h = ground (arith, h, held-moved f ws vs testing returned e)
Step-work f (dequeue p ws vs t ts e w) h =
    ground (arith, h, held-moved f ws vs trying (holding t) w, total-snoc f p.taken t)
Step-work f (miss p ws vs x e) h = ground (arith, h, held-moved f ws vs trying missed e)
Step-work f (wait p ws vs e) h = ground (arith, h, held-moved f ws vs missed waiting e)
Step-work f (execute p ws vs t e) h =
    ground (arith, h, held-moved f ws vs (holding t) testing e, total-snoc f p.executed t)
Step-work f (wake p ws vs e) h = ground (arith, h, held-moved f ws vs waiting testing e)

pub Step-IsConserved : {p q : TaskPool} {a : Actor} → Step a p q → IsConserved p → IsConserved q
Step-IsConserved s h = record { order = Step-order s h.order; work = λ f. Step-work f s (h.work f) }

-- In every pool that a fresh one leads to, by any interleaving of its threads, the tasks were taken
-- from the queue in the order of their pushes, each once, and those not taken are in the queue; each
-- task that was taken has been executed, or is held by a thread, as often as it was taken.
pub fresh_pool-IsConserved : (n : ℕ) (q : TaskPool) → Reach (fresh_pool n) q → IsConserved q
unfolding total
fresh_pool-IsConserved n q here = record {
  order = refl;
  work = λ f. ground (arith, held-fresh f n);
}
fresh_pool-IsConserved n q (next {q = p} r s) = Step-IsConserved s (fresh_pool-IsConserved n p r)
