-- ===== src/Route/Queue/Race.antt =====
-- route/queue.h, `xsky_queue_push` on several processors at once: its tests stand before the lock.
use mathlib.Core.Option
use xsky.Base.{
  zero, suc, [], ◌∷◌, ◌++◌, drop, length-drop, refl, ℕ, ◌+◌, ◌≤◌, ◌<◌, ◌≡◌, sym, ap, ◌∙◌, List,
  Option, none, some, length, take, ltb, ◌==◌, if◌then◌else◌, arith, some_inj, Option-cases, inl,
  inr,
}
use xsky.Route.Queue.{
  XskyQueue, PushStatus, pushed, too_big, full, node_at, target, enqueue, push, pop, xsky_mtu,
}
use xsky.Route.Queue.Ring.{IsValid, slot}
use xsky.Route.Queue.Inv.{target-some, pop-IsValid, target_of_waiting, enqueue-IsValid}
use xsky.Route.Queue.Refine.{
  contents, contents-enqueue, length-contents, fifo_pop, pop_refines, packet_of, packet_of-enqueue,
}

-- The two tests of a push; `none` lets it go on to the lock.
unfoldable pub refusal : XskyQueue → ℕ → Option PushStatus
refusal q size =
    if ltb xsky_mtu size then some too_big else if q.size == q.have then some full else none

-- What a push does under the lock.
unfoldable pub locked_push : XskyQueue → List ℕ → ℕ → Option XskyQueue
locked_push q packet size = Option.map (enqueue q packet size) (target q)

-- A push that nothing interrupts is its tests and, where they pass, its locked part.
push-locked_push :
    (q : XskyQueue) (packet : List ℕ) (size : ℕ)
    → push q packet size ≡ elim (refusal q size) [
      | some s ↦ some (s, q)
      | none ↦ Option.map (λ q'. (pushed, q')) (locked_push q packet size)
    ]
unfolding push refusal locked_push
push-locked_push q packet size = elim (Option-cases (target q)) [
  | inl e ↦ ground (arith, e)
  | inr (tmp, e) ↦ ground (arith, e)
]

-- Where one buffer is free, two pushes can both pass the tests before either takes the lock. Then the
-- queue counts one packet more than it has buffers, and the second push has overwritten the packet
-- that the next pop returns.
pub locked_push-race :
    {q : XskyQueue} (p1 p2 : List ℕ) (s1 s2 : ℕ)
    → IsValid q
    → 0 < q.have
    → q.have + 1 ≡ q.size
    → s1 ≤ xsky_mtu
    → s2 ≤ xsky_mtu
    → s1 ≤ length p1
    → s2 ≤ length p2
    → (refusal q s1 ≡ none)
      × (refusal q s2 ≡ none)
      × (q1 q2 : XskyQueue) × (locked_push q p1 s1 ≡ some q1)
      × (locked_push q1 p2 s2 ≡ some q2)
      × (q2.have ≡ q.size + 1)
      × (b : ℕ) × (q2.begin ≡ some b)
      × (q.begin ≡ some b)
      × (packet_of (node_at q2.nodes b) ≡ take s2 p2)
unfolding refusal locked_push
locked_push-race {q} p1 p2 s1 s2 v wait one m1 m2 l1 l2 =
    let (b, hb, lt, e) = target_of_waiting v wait in
    let tmp = slot q.size b q.have in
    let q1 = enqueue q p1 s1 tmp in
    let v1 = enqueue-IsValid v p1 s1 tmp m1 l1 (omega arith) e in
    let (b', hb', lt', e') = target_of_waiting v1 (omega arith) in
    let same : b' ≡ b = some_inj (sym hb' ∙ ground (arith, hb)) in
    let back : slot q1.size b' q1.have ≡ b = ground (arith, same) in
    let found : target q1 ≡ some b = e' ∙ ap (λ (i : ℕ). some i) back in
    (
      ground arith,
      ground arith,
      q1,
      enqueue q1 p2 s2 b,
      ground (arith, e),
      ground (arith, found),
      omega arith,
      b,
      ground (arith, hb),
      hb,
      packet_of-enqueue v1 p2 s2 l2 b lt,
    )

-- `k` pops, whose packets the reader has had.
unfoldable pub pop_times : (k : ℕ) → XskyQueue → Option XskyQueue
pop_times zero q = some q
pop_times (suc k) q = elim (pop q) [ none ↦ none | some r ↦ pop_times k r.1 ]

-- One pop of a valid ring: what remains.
popped :
    {q : XskyQueue}
    → IsValid q
    → (r : Option ℕ × XskyQueue) × (pop q ≡ some r)
      × IsValid r.1
      × (r.1.size ≡ q.size)
      × (contents r.1 ≡ drop 1 (contents q))
unfolding fifo_pop
popped {q} v =
    let (r, e, valid, same) = pop-IsValid v in
    let (r', e', fits) = pop_refines v in
    let one : r ≡ r' = some_inj (sym e ∙ e') in
    let rest : (fifo_pop (contents q)).1 ≡ drop 1 (contents q) = fifo_rest (contents q) in
    (
      r,
      e,
      valid,
      same,
      ap (λ (s : Option ℕ × XskyQueue). contents s.1) one
          ∙ ap (λ (s : Option (List ℕ) × List (List ℕ)). s.1) fits
          ∙ rest,
    )
  where
    fifo_rest : (ps : List (List ℕ)) → (fifo_pop ps).1 ≡ drop 1 ps
    fifo_rest [] = refl
    fifo_rest (p ∷ ps) = refl

pop_times-IsValid :
    (k : ℕ) {q : XskyQueue}
    → IsValid q
    → (r : XskyQueue) × (pop_times k q ≡ some r)
      × IsValid r
      × (r.size ≡ q.size)
      × (contents r ≡ drop k (contents q))
unfolding pop_times
pop_times-IsValid zero {q} v = (q, refl, v, refl, refl)
pop_times-IsValid (suc k) {q} v =
    let (s, e, valid, same, rest) = popped v in
    let (r, e', valid', same', rest') = pop_times-IsValid k valid in
    (
      r,
      ground (arith, e, e'),
      valid',
      same' ∙ same,
      rest' ∙ ap (λ ps. drop k ps) rest ∙ drop-suc k (contents q),
    )
  where
    drop-suc : (k : ℕ) (ps : List (List ℕ)) → drop k (drop 1 ps) ≡ drop (suc k) ps
    drop-suc zero [] = refl
    drop-suc (suc k) [] = refl
    drop-suc k (p ∷ ps) = refl

-- With one thread that pushes, the tests before the lock are good enough: whatever number of packets
-- the reader pops between the tests of a push and its lock, the push succeeds, the ring is valid
-- after it and holds the packets that are left, the new one last.
pub locked_push-pop_times :
    {q : XskyQueue} (k : ℕ) (packet : List ℕ) (size : ℕ)
    → IsValid q
    → size ≤ length packet
    → refusal q size ≡ none
    → (q1 q2 : XskyQueue) × (pop_times k q ≡ some q1)
      × (locked_push q1 packet size ≡ some q2)
      × IsValid q2
      × (contents q2 ≡ drop k (contents q) ++ take size packet ∷ [])
unfolding refusal locked_push
locked_push-pop_times {q} k packet size v p passed =
    let (q1, e, v1, same, left) = pop_times-IsValid k v in
    let (tmp, found) = target-some v1 in
    let fits : size ≤ xsky_mtu = ground (arith, passed) in
    let free : q.have < q.size = ground (arith, passed, v.within) in
    let fewer : q1.have ≤ q.have =
      omega (
        arith,
        length-contents v,
        length-contents v1,
        ap length left,
        length-drop k (contents q),
      ) in
    let room : q1.have < q1.size = omega arith in
    (
      q1,
      enqueue q1 packet size tmp,
      e,
      ground (arith, found),
      enqueue-IsValid v1 packet size tmp fits p room found,
      contents-enqueue v1 packet size tmp p room found
          ∙ ap (λ ps. ps ++ take size packet ∷ []) left,
    )
