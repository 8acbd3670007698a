-- ===== src/Controller/Pool/Works.antt =====
-- controller/controller.cpp: the threads of `task_pool` take finitely many steps of their own.
use xsky.Base.{ℕ, suc, ◌+◌, ◌*◌, ◌≡◌, ◌≤◌, refl, ap, List, [], ◌∷◌, ◌++◌, length, arith}
use xsky.Controller.Pool.{
  Worker, testing, trying, missed, waiting, holding, returned, TaskPool, worker, Step, enter, leave,
  dequeue, miss, wait, execute,
}
use xsky.Controller.Pool.Conserved.{IsConserved, Step-IsConserved}

-- The pool once `n` steps of its threads, and of nobody else, have led on from `p`.
pub data Works (p : TaskPool) : ℕ → TaskPool → Type 0 where
  idle : Works p 0 p
  work : {n : ℕ} {q r : TaskPool} → Works p n q → Step worker q r → Works p (suc n) r

-- How many steps a thread can still take without a further task, three for each task included.
left : Worker → ℕ
left testing = 3
left trying = 2
left missed = 1
left waiting = 0
left (holding t) = 4
left returned = 0

left_all : List Worker → ℕ
unfolding left
left_all [] = 0
left_all (w ∷ ws) = left w + left_all ws

left_all-append :
    (ws : List Worker) (w : Worker) (vs : List Worker)
    → left_all (ws ++ w ∷ vs) ≡ left_all ws + (left w + left_all vs)
unfolding left_all left
left_all-append [] w vs = omega arith
left_all-append (v ∷ ws) w vs = ground (arith, left_all-append ws w vs)

left_all-moved :
    {all : List Worker} (ws vs : List Worker) (w v : Worker)
    → all ≡ ws ++ w ∷ vs
    → left_all (ws ++ v ∷ vs) + left w ≡ left_all all + left v
left_all-moved ws vs w v e =
    ground (arith, ap left_all e, left_all-append ws w vs, left_all-append ws v vs)

left-bound : (w : Worker) → left w ≤ 4
unfolding left
left-bound testing = omega arith
left-bound trying = omega arith
left-bound missed = omega arith
left-bound waiting = omega arith
left-bound (holding t) = omega arith
left-bound returned = omega arith

left_all-bound : (ws : List Worker) → left_all ws ≤ 4 * length ws
unfolding left_all left
left_all-bound [] = ground arith
left_all-bound (w ∷ ws) = ground (arith, left-bound w, left_all-bound ws)

bound : TaskPool → ℕ
bound p = 3 * length p.queue + left_all p.workers

Step-bound : {p q : TaskPool} → Step worker p q → bound q + 1 ≤ bound p
unfolding bound left
Step-bound (enter p ws vs x e) = ground (arith, left_all-moved ws vs testing trying e)
Step-bound (leave p ws vs x e) = ground (arith, left_all-moved ws vs testing returned e)
Step-bound (dequeue p ws vs t ts e w) =
    ground (arith, ap length e, left_all-moved ws vs trying (holding t) w)
Step-bound (miss p ws vs x e) = ground (arith, left_all-moved ws vs trying missed e)
Step-bound (wait p ws vs e) = ground (arith, left_all-moved ws vs missed waiting e)
Step-bound (execute p ws vs t e) = ground (arith, left_all-moved ws vs (holding t) testing e)

Works-bound : {p q : TaskPool} {n : ℕ} → Works p n q → n + bound q ≤ bound p
Works-bound idle = omega arith
Works-bound (work r s) = ground (arith, Works-bound r, Step-bound s)

-- A bound for the steps, by the tasks and the threads.
pub Works-length :
    {p q : TaskPool} {n : ℕ} → Works p n q → n ≤ 3 * length p.queue + 4 * length p.workers
unfolding bound
Works-length {p = p} r = ground (arith, Works-bound r, left_all-bound p.workers)

-- The steps of the threads push nothing.
pub Works-pushed : {p q : TaskPool} {n : ℕ} → Works p n q → q.pushed ≡ p.pushed
Works-pushed idle = refl
Works-pushed (work r (enter p ws vs x e)) = Works-pushed r
Works-pushed (work r (leave p ws vs x e)) = Works-pushed r
Works-pushed (work r (dequeue p ws vs t ts e w)) = Works-pushed r
Works-pushed (work r (miss p ws vs x e)) = Works-pushed r
Works-pushed (work r (wait p ws vs e)) = Works-pushed r
Works-pushed (work r (execute p ws vs t e)) = Works-pushed r

pub Works-IsConserved : {p q : TaskPool} {n : ℕ} → Works p n q → IsConserved p → IsConserved q
Works-IsConserved idle h = h
Works-IsConserved (work r s) h = Step-IsConserved s (Works-IsConserved r h)
