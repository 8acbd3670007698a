-- ===== src/Route/Queue/Refine.antt =====
-- The ring of route/queue.h behaves as a bounded FIFO of packets.
use xsky.Base.{
  ℕ, zero, suc, ◌+◌, ◌-◌, ◌≤◌, ◌<◌, ◌≡◌, ◌≢◌, refl, sym, ap, ap₂, ◌∙◌, subst, ==_refl, List, [],
  ◌∷◌, ◌++◌, Option, none, some, length, set, take, drop, length-take, take-append, get_or-set_ne,
  get_or-set, ◌==◌, ltb, if◌then◌else◌, arith, dec_lt,
}
use mathlib.Core.Option
use xsky.Route.Queue.{
  Node, XskyQueue, PushStatus, pushed, too_big, full, blank, node_at, fill, enqueue, target, push,
  pop, xsky_mtu,
}
use xsky.Route.Queue.Ring.{IsRing, IsValid, succ_in, slot}
use xsky.Route.Queue.Inv.{target_of_waiting, target-some, target-lt}

-- What a reader copies out of a buffer.
abbrev pub packet_of : Node → List ℕ
packet_of n = take n.size n.bytes

-- The packets of `n` buffers from a pointer on.
unfoldable pub walk : List Node → Option ℕ → ℕ → List (List ℕ)
walk ns p zero = []
walk ns none (suc n) = []
walk ns (some i) (suc n) = packet_of (node_at ns i) ∷ walk ns (node_at ns i).next n

-- The packets that wait, oldest first.
abbrev pub contents : XskyQueue → List (List ℕ)
contents q = walk q.nodes q.begin q.have

-- A FIFO of at most `cap` packets of at most `xsky_mtu` bytes.
unfoldable pub fifo_push : ℕ → List (List ℕ) → List ℕ → PushStatus × List (List ℕ)
fifo_push cap ps packet =
    if ltb xsky_mtu (length packet)
    then (too_big, ps)
    else if length ps == cap
    then (full, ps)
    else (pushed, ps ++ packet ∷ [])

unfoldable pub fifo_pop : List (List ℕ) → Option (List ℕ) × List (List ℕ)
fifo_pop [] = (none, [])
fifo_pop (p ∷ ps) = (some p, ps)

module _ {n : ℕ} {ns : List Node} (r : IsRing n ns) where
  length-walk : (k i : ℕ) → i < n → length (walk ns (some i) k) ≡ k
  unfolding walk
  length-walk zero i h = refl
  length-walk (suc k) i h = rw (r.forward i h) (ap suc (length-walk k (succ_in n i) (ground arith)))

pub walk-pos :
    (ns : List Node) (i k : ℕ)
    → 0 < k
    → walk ns (some i) k ≡ packet_of (node_at ns i) ∷ walk ns (node_at ns i).next (k - 1)
unfolding walk
walk-pos ns i zero h = absurd (omega arith)
walk-pos ns i (suc k) h =
    let e : k ≡ suc k - 1 = omega arith in
    ap (λ (j : ℕ). packet_of (node_at ns i) ∷ walk ns (node_at ns i).next j) e

packet_of-fill :
    (n : Node) (packet : List ℕ) (size : ℕ)
    → size ≤ length packet
    → packet_of (fill n packet size) ≡ take size packet
packet_of-fill n packet size h =
    subst (λ (k : ℕ). take k (take size packet ++ drop size n.bytes) ≡ take size packet)
      (omega (arith, length-take size packet)) (take-append (take size packet) (drop size n.bytes))

module _ {n : ℕ} {ns : List Node} (r : IsRing n ns) (packet : List ℕ) (size : ℕ)
    (p : size ≤ length packet) (tmp : ℕ) where
  filled : List Node
  filled = set ns tmp (fill (node_at ns tmp) packet size)

  filled_here : tmp < n → packet_of (node_at filled tmp) ≡ take size packet
  unfolding filled
  filled_here h =
      let node = fill (node_at ns tmp) packet size in
      rw (get_or-set ns tmp tmp node blank (omega (arith, r.count)), ==_refl tmp)
        (packet_of-fill (node_at ns tmp) packet size p)

  filled_elsewhere : (i : ℕ) → tmp ≢ i → node_at filled i ≡ node_at ns i
  unfolding filled
  filled_elsewhere i h = get_or-set_ne ns tmp i _ blank h

  -- Filling the buffer behind `k` waiting packets appends its packet to them.
  walk-filled :
      (k i : ℕ)
      → i < n
      → k < n
      → tmp ≡ slot n i k
      → walk filled (some i) (suc k) ≡ walk ns (some i) k ++ take size packet ∷ []
  unfolding walk
  walk-filled zero i h lt e =
      let here : tmp ≡ i = ground arith in
      ap (λ t. t ∷ [])
        (subst (λ (j : ℕ). packet_of (node_at filled j) ≡ take size packet) here
          (filled_here (omega arith)))
  walk-filled (suc k) i h lt e =
      rw (filled_elsewhere i (ground arith), r.forward i h)
        (ap (λ t. packet_of (node_at ns i) ∷ t)
          (walk-filled k (succ_in n i) (ground arith) (omega arith) (ground arith)))

module _ {q : XskyQueue} (v : IsValid q) where
  pub length-contents : length (contents q) ≡ q.have
  unfolding walk
  length-contents = elim (dec_lt 0 q.have) [
    | yes h ↦ let (b, hb, lt, he) = v.span h in rw hb (length-walk v.ring q.have b lt)
    | no h ↦ ground arith
  ]

  pub contents-enqueue :
      (packet : List ℕ) (size tmp : ℕ)
      → size ≤ length packet
      → q.have < q.size
      → target q ≡ some tmp
      → contents (enqueue q packet size tmp) ≡ contents q ++ take size packet ∷ []
  unfolding filled walk
  contents-enqueue packet size tmp p free e = elim (dec_lt 0 q.have) [
    | yes waiting ↦
        let (b, hb, lt, ht) = target_of_waiting v waiting in
        let e1 : (if q.have == 0 then some tmp else q.begin) ≡ some b = ground (arith, hb) in
        let e2 : q.have + 1 ≡ suc q.have = omega arith in
        ap₂ after e1 e2
        ∙ walk-filled v.ring packet size p tmp q.have b lt free (ground (arith, ht, e))
        ∙ ap (λ x. walk q.nodes x q.have ++ take size packet ∷ []) (sym hb)
    | no empty ↦
        let lt : tmp < q.size = target-lt v tmp e in
        let e1 : (if q.have == 0 then some tmp else q.begin) ≡ some tmp = ground arith in
        let e2 : q.have + 1 ≡ 1 = omega arith in
        let e3 : 0 ≡ q.have = omega arith in
        ap₂ after e1 e2
        ∙ walk-filled v.ring packet size p tmp 0 tmp lt v.room (ground arith)
        ∙ ap (λ (k : ℕ). walk q.nodes q.begin k ++ take size packet ∷ []) e3
  ]
    where
      after : Option ℕ → ℕ → List (List ℕ)
      after x k = walk (filled v.ring packet size p tmp) x k

  -- The buffer that a push fills holds its packet.
  pub packet_of-enqueue :
      (packet : List ℕ) (size : ℕ)
      → size ≤ length packet
      → (tmp : ℕ) → tmp < q.size
      → packet_of (node_at (enqueue q packet size tmp).nodes tmp) ≡ take size packet
  unfolding filled
  packet_of-enqueue packet size p tmp lt = filled_here v.ring packet size p tmp lt

  -- A push of `size` bytes returns what the FIFO returns for those bytes, and leaves the ring
  -- holding the FIFO's packets.
  pub push_refines :
      (packet : List ℕ) (size : ℕ)
      → size ≤ length packet
      → (r : PushStatus × XskyQueue) × (push q packet size ≡ some r)
        × ((r.0, contents r.1) ≡ fifo_push q.size (contents q) (take size packet))
  unfolding push fifo_push
  push_refines packet size p =
      let len : length (take size packet) ≡ size = omega (arith, length-take size packet) in
      elim (dec_lt xsky_mtu size) [
        | yes big ↦ ((too_big, q), ground arith, ground (arith, len))
        | no small ↦ elim (dec_lt q.have q.size) [
          | yes free ↦
              let (tmp, e) = target-some v in
              (
                (pushed, enqueue q packet size tmp),
                ground (arith, e),
                ground (arith, len, length-contents, contents-enqueue packet size tmp p free e),
              )
          | no none_free ↦
              ((full, q), ground (arith, v.within), ground (arith, len, length-contents, v.within))
        ]
      ]

  -- A pop returns the node that holds the FIFO's oldest packet, and leaves the ring holding the
  -- rest.
  pub pop_refines :
      (r : Option ℕ × XskyQueue) × (pop q ≡ some r)
      × ((Option.map (λ i. packet_of (node_at r.1.nodes i)) r.0, contents r.1)
          ≡ fifo_pop (contents q))
  unfolding pop fifo_pop walk
  pop_refines = elim (dec_lt 0 q.have) [
    | yes h ↦
        let (b, hb, lt, he) = v.span h in
        (
          (some b, record q { begin = (node_at q.nodes b).next; have = q.have - 1 }),
          ground (arith, hb),
          rw (hb, walk-pos q.nodes b q.have h),
        )
    | no h ↦ (
      (none, q),
      ground arith,
      (let e : q.have ≡ 0 = omega arith in rw (ap (λ (k : ℕ). walk q.nodes q.begin k) e)),
    )
  ]
