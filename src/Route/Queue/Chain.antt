-- ===== src/Route/Queue/Chain.antt =====
-- What `grow` of route/queue.h builds: a chain of buffers, linked both ways.
use xsky.Base.{
  ℕ, zero, suc, ◌+◌, ◌-◌, ◌<◌, ◌≡◌, sym, subst, List, [], ◌∷◌, ◌++◌, some, length, length-set,
  length-append, get_or-set, get_or-append, ◌==◌, if◌then◌else◌, arith,
}
use xsky.Route.Queue.{Node, blank, node_at, set_next, set_previous, append_node, grow}

module _ (ns : List Node) (p q i : ℕ) (h : p < length ns) where
  pub next-set_next :
      (node_at (set_next p q ns) i).next ≡ (if p == i then some q else (node_at ns i).next)
  unfolding set_next
  next-set_next = rw get_or-set (ground arith)

  pub previous-set_next : (node_at (set_next p q ns) i).previous ≡ (node_at ns i).previous
  unfolding set_next
  previous-set_next =
      ground (arith, get_or-set ns p i (record (node_at ns p) { next = some q }) blank)

  pub next-set_previous : (node_at (set_previous p q ns) i).next ≡ (node_at ns i).next
  unfolding set_previous
  next-set_previous =
      ground (arith, get_or-set ns p i (record (node_at ns p) { previous = some q }) blank)

  pub previous-set_previous :
      (node_at (set_previous p q ns) i).previous
      ≡ (if p == i then some q else (node_at ns i).previous)
  unfolding set_previous
  previous-set_previous =
      ground (arith, get_or-set ns p i (record (node_at ns p) { previous = some q }) blank)

pub length-set_next : (ns : List Node) (p q : ℕ) → length (set_next p q ns) ≡ length ns
unfolding set_next
length-set_next ns p q = length-set ns p _

pub length-set_previous : (ns : List Node) (p q : ℕ) → length (set_previous p q ns) ≡ length ns
unfolding set_previous
length-set_previous ns p q = length-set ns p _

-- The pointers of a chain of `n` buffers: each leads to the one behind it.
pub record IsChain (n : ℕ) (ns : List Node) : Type 0 where
  pub count : length ns ≡ n
  pub forward : (i : ℕ) → suc i < n → (node_at ns i).next ≡ some (suc i)
  pub back : (i : ℕ) → suc i < n → (node_at ns (suc i)).previous ≡ some i

module _ (k : ℕ) (ns : List Node) (c : IsChain (suc k) ns) where
  longer : List Node
  longer = ns ++ blank ∷ []

  length-longer : length longer ≡ suc (suc k)
  unfolding longer
  length-longer = omega (arith, length-append ns (blank ∷ []), c.count)

  old : (i : ℕ) → i < suc k → node_at longer i ≡ node_at ns i
  unfolding longer
  old i h = get_or-append ns (blank ∷ []) i blank (omega (arith, c.count))

  linked : List Node
  linked = set_previous (suc k) k (set_next k (suc k) longer)

  length-linked : length linked ≡ suc (suc k)
  unfolding linked
  length-linked = rw (length-set_previous, length-set_next, length-longer)

  in_first : k < length longer
  in_first = omega (arith, length-longer)

  in_second : suc k < length (set_next k (suc k) longer)
  in_second = omega (arith, length-longer, length-set_next longer k (suc k))

  linked_forward : (i : ℕ) → i < suc k → (node_at linked i).next ≡ some (suc i)
  unfolding linked
  linked_forward i h = ground (
    arith,
    next-set_previous (set_next k (suc k) longer) (suc k) k i in_second,
    next-set_next longer k (suc k) i in_first,
    old i h,
    c.forward i,
  )

  linked_back : (i : ℕ) → i < suc k → (node_at linked (suc i)).previous ≡ some i
  unfolding linked
  linked_back i h = ground (
    arith,
    previous-set_previous (set_next k (suc k) longer) (suc k) k (suc i) in_second,
    previous-set_next longer k (suc k) (suc i) in_first,
    old (suc i),
    c.back i,
  )

  -- Linking a fresh buffer behind the last one.
  linked-IsChain : IsChain (suc (suc k)) linked
  linked-IsChain = record {
    count = length-linked;
    forward = λ i h. linked_forward i (omega arith);
    back = λ i h. linked_back i (omega arith);
  }

append_node-IsChain : (n : ℕ) (ns : List Node) → IsChain n ns → IsChain (suc n) (append_node ns)
unfolding append_node linked longer
append_node-IsChain n [] c = record {
  count = omega (arith, c.count);
  forward = λ i h. absurd (omega (arith, c.count));
  back = λ i h. absurd (omega (arith, c.count));
}
append_node-IsChain n (m ∷ ns) c =
    subst (λ (j : ℕ). IsChain (suc j) (append_node (m ∷ ns))) c.count
      (subst
        (λ (j : ℕ).
          IsChain (suc (suc (length ns))) (
            set_previous (suc (length ns)) j (set_next j (suc (length ns)) (m ∷ ns ++ blank ∷ []))))
        e
        (linked-IsChain (length ns) (m ∷ ns)
          (subst (λ (j : ℕ). IsChain j (m ∷ ns)) (sym c.count) c)))
  where
    e : length ns ≡ suc (length ns) - 1
    e = omega arith

pub grow-IsChain : (k n : ℕ) (ns : List Node) → IsChain n ns → IsChain (n + k) (grow k ns)
unfolding grow
grow-IsChain zero n ns c = subst (λ (j : ℕ). IsChain j ns) {x = n} {y = n + 0} (omega arith) c
grow-IsChain (suc k) n ns c =
    subst (λ (j : ℕ). IsChain j (grow (suc k) ns)) {x = suc n + k} {y = n + suc k} (omega arith)
      (grow-IsChain k (suc n) (append_node ns) (append_node-IsChain n ns c))
