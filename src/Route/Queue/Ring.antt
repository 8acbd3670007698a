-- ===== src/Route/Queue/Ring.antt =====
-- The invariant of `struct xsky_queue`, and what `xsky_queue_init` establishes.
use xsky.Base.{
  ℕ, zero, suc, ◌+◌, ◌-◌, ◌≤◌, ◌<◌, ◌≡◌, refl, subst, List, [], ◌∷◌, ◌++◌, none, some, length, All,
  length-replicate, set-All, get_or-All, ◌==◌, ltb, if◌then◌else◌, arith,
}
use xsky.Route.Queue.{
  Node, XskyQueue, blank, node_at, set_next, set_previous, append_node, grow, init, xsky_mtu,
}
use xsky.Route.Queue.Chain.{
  IsChain, grow-IsChain, next-set_next, next-set_previous, previous-set_next, previous-set_previous,
  length-set_next, length-set_previous,
}

-- The index behind `i`, and the one `k` steps on, in a ring of `n`.
abbrev pub succ_in : ℕ → ℕ → ℕ
succ_in n i = if suc i == n then 0 else suc i

abbrev pub slot : ℕ → ℕ → ℕ → ℕ
slot n i k = if ltb (i + k) n then i + k else i + k - n

-- A buffer has all its bytes, and its size is within them.
abbrev pub IsBuffer : Node → Type 0
IsBuffer n = (length n.bytes ≡ xsky_mtu) × (n.size ≤ xsky_mtu)

pub record IsRing (n : ℕ) (ns : List Node) : Type 0 where
  pub count : length ns ≡ n
  pub forward : (i : ℕ) → i < n → (node_at ns i).next ≡ some (succ_in n i)
  pub back : (i : ℕ) → i < n → (node_at ns (succ_in n i)).previous ≡ some i
  pub buffers : All IsBuffer ns

pub record IsValid (q : XskyQueue) : Type 0 where
  pub room : 0 < q.size
  pub ring : IsRing q.size q.nodes
  pub first : q.list ≡ some 0
  pub within : q.have ≤ q.size
  pub span :
      0 < q.have
      → (b : ℕ) × (q.begin ≡ some b) × (b < q.size) × (q.end ≡ some (slot q.size b (q.have - 1)))

pub blank-IsBuffer : IsBuffer blank
unfolding blank
blank-IsBuffer = (length-replicate {A = ℕ} xsky_mtu 0, omega arith)

append-All : (xs : List Node) → All IsBuffer xs → All IsBuffer (xs ++ blank ∷ [])
append-All [] h = (blank-IsBuffer, tt)
append-All (x ∷ xs) h = (h.0, append-All xs h.1)

set_next-All : (p q : ℕ) (ns : List Node) → All IsBuffer ns → All IsBuffer (set_next p q ns)
unfolding set_next
set_next-All p q ns h = set-All IsBuffer ns p _ (get_or-All IsBuffer ns p blank blank-IsBuffer h) h

set_previous-All : (p q : ℕ) (ns : List Node) → All IsBuffer ns → All IsBuffer (set_previous p q ns)
unfolding set_previous
set_previous-All p q ns h =
    set-All IsBuffer ns p _ (get_or-All IsBuffer ns p blank blank-IsBuffer h) h

append_node-All : (ns : List Node) → All IsBuffer ns → All IsBuffer (append_node ns)
unfolding append_node
append_node-All [] h = (blank-IsBuffer, tt)
append_node-All (n ∷ ns) h =
    let tmp = length (n ∷ ns) in
    let longer = n ∷ ns ++ blank ∷ [] in
    set_previous-All tmp (tmp - 1) (set_next (tmp - 1) tmp longer)
      (set_next-All (tmp - 1) tmp longer (append-All (n ∷ ns) h))

grow-All : (k : ℕ) (ns : List Node) → All IsBuffer ns → All IsBuffer (grow k ns)
unfolding grow
grow-All zero ns h = h
grow-All (suc k) ns h = grow-All k (append_node ns) (append_node-All ns h)

module _ (k : ℕ) (ns : List Node) (c : IsChain (suc k) ns) where
  closed : List Node
  closed = set_next k 0 (set_previous 0 k ns)

  length-closed : length closed ≡ suc k
  unfolding closed
  length-closed = rw (length-set_next, length-set_previous, c.count)

  opened : (k < length (set_previous 0 k ns)) × (0 < length ns)
  opened = (omega (arith, c.count, length-set_previous ns 0 k), omega (arith, c.count))

  closed_forward : (i : ℕ) → i < suc k → (node_at closed i).next ≡ some (succ_in (suc k) i)
  unfolding closed
  closed_forward i h = ground (
    arith,
    next-set_next (set_previous 0 k ns) k 0 i opened.0,
    next-set_previous ns 0 k i opened.1,
    c.forward i,
  )

  closed_back : (i : ℕ) → i < suc k → (node_at closed (succ_in (suc k) i)).previous ≡ some i
  unfolding closed
  closed_back i h = ground (
    arith,
    previous-set_next (set_previous 0 k ns) k 0 (succ_in (suc k) i) opened.0,
    previous-set_previous ns 0 k (succ_in (suc k) i) opened.1,
    c.back i,
  )

  closed-All : All IsBuffer ns → All IsBuffer closed
  unfolding closed
  closed-All h = set_next-All k 0 (set_previous 0 k ns) (set_previous-All 0 k ns h)

empty-IsChain : IsChain 0 []
empty-IsChain = record {
  count = refl;
  forward = λ i h. absurd (omega arith);
  back = λ i h. absurd (omega arith);
}

-- `xsky_queue_init` of at least one buffer returns a queue: empty, of that size, its buffers a ring
-- in both directions from `list` on.
pub init-IsValid :
    (n : ℕ) → 0 < n → (q : XskyQueue) × (init n ≡ some q) × IsValid q × (q.have ≡ 0) × (q.size ≡ n)
unfolding init
init-IsValid zero h = absurd (omega arith)
init-IsValid (suc k) h = (
  record {
    begin = none;
    end = none;
    list = some 0;
    have = 0;
    size = suc k;
    nodes = closed k (grow (suc k) []) chain;
  },
  unfold closed in refl,
  record {
    room = omega arith;
    ring = record {
      count = length-closed k _ chain;
      forward = closed_forward k _ chain;
      back = closed_back k _ chain;
      buffers = closed-All k _ chain (grow-All (suc k) [] tt);
    };
    first = refl;
    within = omega arith;
    span = λ p. absurd (omega arith);
  },
  refl,
  refl,
)
  where
    chain : IsChain (suc k) (grow (suc k) [])
    chain =
        subst (λ (j : ℕ). IsChain j (grow (suc k) [])) {x = 0 + suc k} {y = suc k} (omega arith)
          (grow-IsChain (suc k) 0 [] empty-IsChain)
