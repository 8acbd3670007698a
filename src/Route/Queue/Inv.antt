-- ===== src/Route/Queue/Inv.antt =====
-- The operations of route/queue.h keep the ring, and none reads through NULL.
use xsky.Base.{
  ℕ, zero, suc, ◌-◌, ◌≤◌, ◌<◌, ◌≡◌, refl, List, [], ◌∷◌, Option, none, some, length, set, take,
  drop, dec_lt, length-set, length-append, length-take, get_or-set, set-All, get_or-All, arith,
}
use xsky.Route.Queue.{
  Node, XskyQueue, PushStatus, pushed, too_big, full, blank, node_at, fill, enqueue, target, push,
  pop, reset, xsky_mtu,
}
use xsky.Route.Queue.Ring.{IsRing, IsValid, IsBuffer, succ_in, slot, blank-IsBuffer}

length-drop : (n : ℕ) (xs : List ℕ) → length (drop n xs) ≡ length xs - n
length-drop zero xs = omega arith
length-drop (suc n) [] = omega arith
length-drop (suc n) (x ∷ xs) = omega (arith, length-drop n xs)

-- Filling a buffer keeps its length.
fill-IsBuffer :
    (n : Node) (packet : List ℕ) (size : ℕ)
    → size ≤ xsky_mtu
    → size ≤ length packet
    → IsBuffer n
    → IsBuffer (fill n packet size)
fill-IsBuffer n packet size h p b = (
  omega (
    arith,
    length-append (take size packet) (drop size n.bytes),
    length-take size packet,
    length-drop size n.bytes,
    b.0,
  ),
  h,
)

-- A push into a node changes no pointer of the ring.
fill-IsRing :
    {n : ℕ} {ns : List Node} (packet : List ℕ) (size tmp : ℕ)
    → size ≤ xsky_mtu
    → size ≤ length packet
    → tmp < n
    → IsRing n ns
    → IsRing n (set ns tmp (fill (node_at ns tmp) packet size))
fill-IsRing {n} {ns} packet size tmp h p lt r =
    let node = fill (node_at ns tmp) packet size in
    record {
      count = omega (arith, length-set ns tmp node, r.count);
      forward = λ i hi. ground (arith, get_or-set ns tmp i node blank, r.forward i hi, r.count);
      back =
          λ i hi. ground (arith, get_or-set ns tmp (succ_in n i) node blank, r.back i hi, r.count);
      buffers =
          set-All IsBuffer ns tmp node
            (fill-IsBuffer (node_at ns tmp) packet size h p
              (get_or-All IsBuffer ns tmp blank blank-IsBuffer r.buffers))
            r.buffers;
    }

module _ {q : XskyQueue} (v : IsValid q) where
  -- Where a push writes: the head of the ring, or just behind the packets that wait.
  target_of_empty : q.have ≡ 0 → target q ≡ some 0
  unfolding target
  target_of_empty h = ground (arith, v.first)

  pub target_of_waiting :
      0 < q.have
      → (b : ℕ) × (q.begin ≡ some b) × (b < q.size) × (target q ≡ some (slot q.size b q.have))
  unfolding target
  target_of_waiting h =
      let (b, hb, lt, he) = v.span h in
      (b, hb, lt, ground (arith, he, v.within, v.ring.forward (slot q.size b (q.have - 1))))

  pub target-lt : (tmp : ℕ) → target q ≡ some tmp → tmp < q.size
  target-lt tmp e = elim (dec_lt 0 q.have) [
    | yes h ↦ let (b, hb, lt, ht) = target_of_waiting h in ground (arith, ht, e, v.within)
    | no h ↦ ground (arith, target_of_empty, e, v.room)
  ]

  pub target-some : (tmp : ℕ) × (target q ≡ some tmp)
  target-some = elim (dec_lt 0 q.have) [
    | yes h ↦ let (b, hb, lt, ht) = target_of_waiting h in (slot q.size b q.have, ht)
    | no h ↦ (0, target_of_empty (omega arith))
  ]

  pub enqueue-IsValid :
      (packet : List ℕ) (size tmp : ℕ)
      → size ≤ xsky_mtu
      → size ≤ length packet
      → q.have < q.size
      → target q ≡ some tmp
      → IsValid (enqueue q packet size tmp)
  enqueue-IsValid packet size tmp h p free e = record {
    room = v.room;
    ring = fill-IsRing packet size tmp h p (target-lt tmp e) v.ring;
    first = v.first;
    within = omega arith;
    span = λ _. elim (dec_lt 0 q.have) [
      | yes waiting ↦
          let (b, hb, lt, ht) = target_of_waiting waiting in
          (b, ground (arith, hb), lt, ground (arith, ht, e))
      | no empty ↦ (
        0,
        ground (arith, target_of_empty, e),
        v.room,
        ground (arith, target_of_empty, e, v.room),
      )
    ];
  }

  -- A push of bytes that the caller has never reads through NULL, and leaves a valid ring of the
  -- same size.
  pub push-IsValid :
      (packet : List ℕ) (size : ℕ)
      → size ≤ length packet
      → (r : PushStatus × XskyQueue) × (push q packet size ≡ some r)
        × IsValid r.1
        × (r.1.size ≡ q.size)
  unfolding push
  push-IsValid packet size p = elim (dec_lt xsky_mtu size) [
    | yes big ↦ ((too_big, q), ground arith, v, refl)
    | no small ↦ elim (dec_lt q.have q.size) [
      | yes free ↦
          let (tmp, e) = target-some in
          (
            (pushed, enqueue q packet size tmp),
            ground (arith, e),
            enqueue-IsValid packet size tmp (omega arith) p free e,
            refl,
          )
      | no none_free ↦ ((full, q), ground (arith, v.within), v, refl)
    ]
  ]

  -- A pop never reads through NULL, and leaves a valid ring of the same size.
  pub pop-IsValid :
      (r : Option ℕ × XskyQueue) × (pop q ≡ some r) × IsValid r.1 × (r.1.size ≡ q.size)
  unfolding pop
  pop-IsValid = elim (dec_lt 0 q.have) [
    | yes h ↦
        let (b, hb, lt, he) = v.span h in
        (
          (some b, record q { begin = (node_at q.nodes b).next; have = q.have - 1 }),
          ground (arith, hb),
          record {
            room = v.room;
            ring = v.ring;
            first = v.first;
            within = omega (arith, v.within);
            span =
                λ more. (succ_in q.size b, v.ring.forward b lt, ground arith, ground (arith, he));
          },
          refl,
        )
    | no h ↦ ((none, q), ground arith, v, refl)
  ]

  -- `xsky_queue_reset` forgets the packets, and leaves a valid ring.
  pub reset-IsValid : IsValid (reset q) × ((reset q).have ≡ 0)
  unfolding reset
  reset-IsValid = (
    record {
      room = v.room;
      ring = v.ring;
      first = v.first;
      within = omega arith;
      span = λ h. absurd (omega arith);
    },
    refl,
  )
