-- ===== src/Sky/Table/Shape.antt =====
-- How many pages the route table of server/server.c has.
use xsky.Base.{
  ℕ, zero, suc, ◌+◌, ◌<◌, ◌≡◌, inl, inr, refl, sym, ap, ◌∙◌, List, [], ◌∷◌, none, some, length,
  get_or, set, ltb, arith, Bool-cases, Option-cases, length-set, subst, replicate, length-replicate,
}
use xsky.Sky.Data.{SkyData, Pair, bucket_size, pair_size, zero_pair}
use xsky.Sky.Table.{
  Page, Routes, empty_routes, bucket_of, fill_chain, fill_page, insert_chain, insert_half,
  remove_loop, remove_route_sky, find_route_sky, Ref, deref, match_from, page_at, clear_slot,
}
use xsky.Sky.Table.Routes.{bucket_of-lt}
use xsky.Sky.Table.Frame.{loops, remove_route_sky-some, remove_route_sky-none}
use xsky.Sky.Table.Removal.{loop_idle, loop_none, loop_some, cleared}

unfoldable pub count_pages : Routes → ℕ
count_pages [] = 0
count_pages (b ∷ bs) = length b + count_pages bs

-- A bucket that is replaced.
count_pages-set :
    (t : Routes) (b : ℕ) (pages : List Page)
    → b < length t
    → count_pages (set t b pages) + length (get_or t b []) ≡ count_pages t + length pages
unfolding count_pages
count_pages-set [] b pages h = absurd (omega arith)
count_pages-set (q ∷ t) zero pages h = omega arith
count_pages-set (q ∷ t) (suc b) pages h = omega (arith, count_pages-set t b pages (omega arith))

count_pages-set_same :
    (t : Routes) (b : ℕ) (pages : List Page)
    → length pages ≡ length (get_or t b [])
    → count_pages (set t b pages) ≡ count_pages t
unfolding count_pages
count_pages-set_same [] b pages e = refl
count_pages-set_same (q ∷ t) zero pages e = omega (arith, e)
count_pages-set_same (q ∷ t) (suc b) pages e = omega (arith, count_pages-set_same t b pages e)

length-fill_chain :
    (b : List Page) (pair : Pair) (new : List Page)
    → fill_chain b pair ≡ some new
    → length new ≡ length b
unfolding fill_chain
length-fill_chain [] pair new e = cc
length-fill_chain (p ∷ b) pair new e = elim (Bool-cases (ltb p.used pair_size)) [
  | inl room ↦
      let same : fill_page p pair ∷ b ≡ new = ground (arith, room, e) in ap length (sym same)
  | inr full ↦ elim (Option-cases (fill_chain b pair)) [
    | inl none_ ↦ absurd (ground (arith, full, none_, e))
    | inr (rest, e') ↦
        let same : p ∷ rest ≡ new = ground (arith, full, e, e') in
        ap length (sym same) ∙ ap suc (length-fill_chain b pair rest e')
  ]
]

count_pages-empty : (n : ℕ) → count_pages (replicate n []) ≡ 0
unfolding count_pages
count_pages-empty zero = refl
count_pages-empty (suc n) = omega (arith, count_pages-empty n)

pub empty_routes_lem : (count_pages empty_routes ≡ 0) × (length empty_routes ≡ bucket_size)
unfolding empty_routes
empty_routes_lem = (count_pages-empty bucket_size, length-replicate {A = List Page} bucket_size [])

-- The pages that an insertion allocates in a bucket.
unfoldable pub fresh : List Page → Pair → ℕ
fresh b pair = elim (fill_chain b pair) [ none ↦ 1 | some new ↦ 0 ]

length-insert_chain :
    (b : List Page) (pair : Pair) → length (insert_chain b pair) ≡ length b + fresh b pair
unfolding insert_chain fresh
length-insert_chain b pair = elim (Option-cases (fill_chain b pair)) [
  | inl e ↦ ground (arith, e)
  | inr (new, e) ↦ ground (arith, e, length-fill_chain b pair new e)
]

pub count_pages-insert_half :
    (t : Routes) (pair : Pair)
    → length t ≡ bucket_size
    → (count_pages (insert_half t pair)
        ≡ count_pages t + fresh (get_or t (bucket_of pair.first) []) pair)
      × (length (insert_half t pair) ≡ length t)
unfolding insert_half
count_pages-insert_half t pair w =
    let b = bucket_of pair.first in
    let new = insert_chain (get_or t b []) pair in
    (
      omega (
        arith,
        count_pages-set t b new (omega (arith, w, bucket_of-lt pair.first)),
        length-insert_chain (get_or t b []) pair,
      ),
      length-set t b new,
    )

-- The same buckets with as many pages.
abbrev IsAlike : Routes → Routes → Type 0
IsAlike t u = (count_pages u ≡ count_pages t) × (length u ≡ length t)

IsAlike-trans : (t u v : Routes) → IsAlike t u → IsAlike u v → IsAlike t v
IsAlike-trans t u v (a, b) (c, d) = (c ∙ a, d ∙ b)

cleared-IsAlike : (t : Routes) (b p j : ℕ) → IsAlike t (cleared t b p j)
cleared-IsAlike t b p j = (
  count_pages-set_same t b _ (length-set (get_or t b []) p (clear_slot (page_at t b p) j)),
  length-set t b _,
)

module _ (pick : Pair → SkyData) (zeroed : (pick zero_pair).code ≡ 0) (r : Ref) where
  remove_loop-IsAlike : (b k p i : ℕ) (t : Routes) → IsAlike t (remove_loop pick r b k p i t)
  unfolding remove_loop
  remove_loop-IsAlike b zero p i t = (refl, refl)
  remove_loop-IsAlike b (suc k) p i t = elim (Bool-cases (ltb 0 (page_at t b p).used)) [
    | inr idle ↦
        subst (IsAlike t) (sym (loop_idle pick zeroed r b k p i t idle))
          (remove_loop-IsAlike b k (p + 1) i t)
    | inl busy ↦ elim (Option-cases (match_from (page_at t b p).pairs (pick (deref t r)) i 0)) [
      | inl e ↦
          subst (IsAlike t) (sym (loop_none pick zeroed r b k p i t busy e))
            (remove_loop-IsAlike b k (p + 1) pair_size t)
      | inr (j, e) ↦ subst (IsAlike t) (sym (loop_some pick zeroed r b k p i j t busy e)) (
          IsAlike-trans t (cleared t b p j) _ (cleared-IsAlike t b p j)
            (remove_loop-IsAlike b k (p + 1) j (cleared t b p j)))
    ]
  ]

loops-IsAlike : (t : Routes) (r : Ref) (b1 k p i b2 : ℕ) → IsAlike t (loops t r b1 k p i b2)
unfolding loops
loops-IsAlike t r b1 k p i b2 =
    let t' = remove_loop (λ q. q.first) r b1 k p i t in
    IsAlike-trans t t' _ (remove_loop-IsAlike (λ q. q.first) refl r b1 k p i t)
      (remove_loop-IsAlike (λ q. q.second) refl r b2 (length (get_or t' b2 [])) 0 0 t')

pub remove_route_sky-IsAlike : (t : Routes) (d : SkyData) → IsAlike t (remove_route_sky t d)
remove_route_sky-IsAlike t d = elim (Option-cases (find_route_sky t d)) [
  | inl e ↦ subst (IsAlike t) (sym (remove_route_sky-none t d e)) (refl, refl)
  | inr (r, e) ↦
      subst (IsAlike t) (sym (remove_route_sky-some t d r e)) (loops-IsAlike t r _ _ 0 0 _)
]
