-- ===== src/Sky/Table/Lookup.antt =====
-- What a search in one bucket of the route table of server/server.c finds.
use xsky.Base.{
  ℕ, zero, suc, ◌+◌, ◌≡◌, ◌≢◌, ◌⊎◌, inl, inr, refl, sym, ap, ◌∙◌, List, [], ◌∷◌, ◌++◌, true, false,
  Option, none, some, get_or, replicate, arith, Bool-cases, ==_refl,
}
use xsky.Sky.Data.{SkyData, Pair, zero_pair, same_key}
use xsky.Sky.Table.{Page, zero_page, match_from, find_chain}
use xsky.Sky.Table.Chain.{entries, lookup, Inserted, reused, added}

abbrev or_else : Option Pair → Option Pair → Option Pair
or_else none q = q
or_else (some p) q = some p

or_else-none : (p q : Option Pair) → or_else p q ≡ none → p ≡ none
or_else-none none q e = refl
or_else-none (some p) q e = cc

lookup-append :
    (d : SkyData) (xs ys : List Pair) → lookup d (xs ++ ys) ≡ or_else (lookup d xs) (lookup d ys)
unfolding lookup
lookup-append d [] ys = refl
lookup-append d (x ∷ xs) ys = ground (arith, lookup-append d xs ys)

same_key-code : (a d : SkyData) → same_key a d ≡ true → a.code ≡ d.code
unfolding same_key
same_key-code a d e = ground arith

pub same_key_refl : (d : SkyData) → same_key d d ≡ true
unfolding same_key
same_key_refl d = ground (arith, ==_refl d.code, ==_refl d.size, ==_refl d.addr, ==_refl d.port)

-- A free entry has no key that is ever searched for.
free_lookup : (p : Pair) (d : SkyData) → p.first.code ≡ 0 → d.code ≢ 0 → same_key p.first d ≡ false
free_lookup p d e ne = elim (Bool-cases (same_key p.first d)) [
  | inl same ↦ absurd (ne (sym (same_key-code p.first d same) ∙ e))
  | inr other ↦ other
]

lookup-zeros : (n : ℕ) (d : SkyData) → d.code ≢ 0 → lookup d (replicate n zero_pair) ≡ none
unfolding lookup
lookup-zeros zero d ne = refl
lookup-zeros (suc n) d ne = rw (free_lookup zero_pair d refl ne, lookup-zeros n d ne)

module _ (pair : Pair) (old new : List Pair) (d : SkyData) (ne : d.code ≢ 0) where
  -- An insertion under another key does not change a search.
  pub lookup-Inserted_other :
      same_key pair.first d ≡ false → Inserted pair old new → lookup d new ≡ lookup d old
  unfolding lookup
  lookup-Inserted_other other (reused f) =
      ap (lookup d) f.to
      ∙ lookup-append d f.before (pair ∷ f.after)
      ∙ ground (arith, other, free_lookup f.free d f.is_free ne)
      ∙ sym (lookup-append d f.before (f.free ∷ f.after))
      ∙ ap (lookup d) (sym f.from)
  lookup-Inserted_other other (added n e) =
      ap (lookup d) e
      ∙ ground (arith, other)
      ∙ lookup-append d (replicate n zero_pair) old
      ∙ rw (lookup-zeros n d ne)

  -- A pair that is inserted under a new key is what a search finds.
  pub lookup-Inserted_self :
      same_key pair.first d ≡ true
      → lookup d old ≡ none
      → Inserted pair old new
      → lookup d new ≡ some pair
  unfolding lookup
  lookup-Inserted_self same fresh (reused f) =
      let whole : or_else (lookup d f.before) (lookup d (f.free ∷ f.after)) ≡ none =
        sym (lookup-append d f.before (f.free ∷ f.after)) ∙ ap (lookup d) (sym f.from) ∙ fresh in
      let before_none : lookup d f.before ≡ none = or_else-none _ _ whole in
      ap (lookup d) f.to
      ∙ lookup-append d f.before (pair ∷ f.after)
      ∙ ground (arith, same, before_none)
  lookup-Inserted_self same fresh (added n e) = ap (lookup d) e ∙ ground (arith, same)

match_from-lookup :
    (ps : List Pair) (d : SkyData) (n : ℕ)
    → ((match_from ps d 0 n ≡ none) × (lookup d ps ≡ none))
      ⊎ ((k : ℕ) × (match_from ps d 0 n ≡ some (n + k))
          × (lookup d ps ≡ some (get_or ps k zero_pair)))
unfolding match_from lookup
match_from-lookup [] d n = inl (refl, refl)
match_from-lookup (p ∷ ps) d n = elim (Bool-cases (same_key p.first d)) [
  | inl here ↦ inr (0, ground (arith, here), ground (arith, here))
  | inr there ↦ elim (match_from-lookup ps d (n + 1)) [
    | inl (e, e') ↦ inl (ground (arith, there, e), ground (arith, there, e'))
    | inr (k, e, e') ↦ inr (suc k, ground (arith, there, e), ground (arith, there, e'))
  ]
]

-- A search of a bucket finds the first entry with the key, and reports its page and index.
pub find_chain-lookup :
    (pages : List Page) (d : SkyData) (n : ℕ)
    → ((find_chain pages d n ≡ none) × (lookup d (entries pages) ≡ none))
      ⊎ ((p : ℕ) × (j : ℕ) × (find_chain pages d n ≡ some (n + p, j))
          × (lookup d (entries pages) ≡ some (get_or (get_or pages p zero_page).pairs j zero_pair)))
unfolding find_chain entries
find_chain-lookup [] d n = inl (refl, unfold lookup in refl)
find_chain-lookup (page ∷ pages) d n = elim (match_from-lookup page.pairs d 0) [
  | inr (j, e, e') ↦
      inr (0, j, ground (arith, e), ground (arith, e', lookup-append d page.pairs (entries pages)))
  | inl (e, e') ↦ elim (find_chain-lookup pages d (n + 1)) [
    | inl (f, f') ↦
        inl
          (ground (arith, e, f), ground (arith, e', f', lookup-append d page.pairs (entries pages)))
    | inr (p, j, f, f') ↦ inr (
      suc p,
      j,
      ground (arith, e, f),
      ground (arith, e', f', lookup-append d page.pairs (entries pages)),
    )
  ]
]
