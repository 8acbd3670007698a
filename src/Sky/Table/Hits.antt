-- ===== src/Sky/Table/Hits.antt =====
-- The entries of a bucket of server/server.c with one key.
use xsky.Base.{
  ℕ, zero, suc, ◌≡◌, ◌≢◌, inl, inr, refl, sym, ap, ◌∙◌, List, [], ◌∷◌, ◌++◌, true, false, Option,
  none, some, get_or, set, if◌then◌else◌, arith, Bool-cases, set-cases,
}
use xsky.Sky.Data.{SkyData, Pair, zero_pair, same_key}
use xsky.Sky.Table.{Page, Routes, zero_page}
use xsky.Sky.Table.Chain.{entries, lookup}

-- The entries with a key, in the order of a search.
unfoldable pub hits : SkyData → List Pair → List Pair
hits d [] = []
hits d (p ∷ ps) = if same_key p.first d then p ∷ hits d ps else hits d ps

pub hits-append : (d : SkyData) (xs ys : List Pair) → hits d (xs ++ ys) ≡ hits d xs ++ hits d ys
unfolding hits
hits-append d [] ys = refl
hits-append d (x ∷ xs) ys = elim (Bool-cases (same_key x.first d)) [
  | inl e ↦ rw (e, hits-append d xs ys) refl
  | inr e ↦ rw (e, hits-append d xs ys) refl
]

first : List Pair → Option Pair
first [] = none
first (p ∷ ps) = some p

-- The first of them is what a search finds.
first-hits : (d : SkyData) (ps : List Pair) → lookup d ps ≡ first (hits d ps)
unfolding hits lookup first
first-hits d [] = refl
first-hits d (p ∷ ps) = elim (Bool-cases (same_key p.first d)) [
  | inl same ↦ rw (same) refl
  | inr other ↦ rw (other) (first-hits d ps)
]

pub lookup-hits_same :
    (d : SkyData) (xs ys : List Pair) → hits d xs ≡ hits d ys → lookup d xs ≡ lookup d ys
lookup-hits_same d xs ys e = first-hits d xs ∙ ap first e ∙ sym (first-hits d ys)

pub same_key_trans :
    (a b d : SkyData) → same_key a b ≡ true → same_key b d ≡ false → same_key a d ≡ false
unfolding same_key
same_key_trans a b d s o = ground (arith, s, o)

module _ (d : SkyData) (ne : d.code ≢ 0) where
  pub zero_other : same_key zero_pair.first d ≡ false
  unfolding same_key
  zero_other = ground (arith, ne)

  pub hits-set :
      (ps : List Pair) (j : ℕ)
      → same_key (get_or ps j zero_pair).first d ≡ false
      → hits d (set ps j zero_pair) ≡ hits d ps
  unfolding hits
  hits-set [] j o = refl
  hits-set (p ∷ ps) zero o = rw (o, zero_other) refl
  hits-set (p ∷ ps) (suc j) o = rw (hits-set ps j o) refl

  pub hits-set_page :
      (pages : List Page) (p : ℕ) (page : Page)
      → hits d page.pairs ≡ hits d (get_or pages p zero_page).pairs
      → hits d (entries (set pages p page)) ≡ hits d (entries pages)
  unfolding entries
  hits-set_page [] p page e = refl
  hits-set_page (q ∷ pages) zero page e =
      hits-append d page.pairs (entries pages)
      ∙ ap (λ xs. xs ++ hits d (entries pages)) e
      ∙ sym (hits-append d q.pairs (entries pages))
  hits-set_page (q ∷ pages) (suc p) page e =
      hits-append d q.pairs (entries (set pages p page))
      ∙ ap (λ xs. hits d q.pairs ++ xs) (hits-set_page pages p page e)
      ∙ sym (hits-append d q.pairs (entries pages))

  pub hits-set_bucket :
      (t : Routes) (b c : ℕ) (pages : List Page)
      → hits d (entries pages) ≡ hits d (entries (get_or t b []))
      → hits d (entries (get_or (set t b pages) c [])) ≡ hits d (entries (get_or t c []))
  hits-set_bucket t b c pages e = elim (set-cases t b c pages []) [
    | inl (same, at) ↦
        ap (λ ps. hits d (entries ps)) at
        ∙ e
        ∙ ap (λ (k : ℕ). hits d (entries (get_or t k []))) same
    | inr at ↦ ap (λ ps. hits d (entries ps)) at
  ]
