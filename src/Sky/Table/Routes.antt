-- ===== src/Sky/Table/Routes.antt =====
-- The whole route table of server/server.c: an inserted pair is found under both its members.
use mathlib.Core.Option
use xsky.Base.{
  ℕ, zero, suc, ◌+◌, ◌<◌, ◌≡◌, ◌≢◌, inl, inr, refl, sym, ap, ◌∙◌, List, [], false, Option, none,
  some, length, get_or, All, set-All, get_or-All, replicate, ◌==◌, if◌then◌else◌, arith, ℕ_discrete,
  length-replicate, length-set, ==_refl, ==_iff, ne→==, get_or-replicate, get_or-set,
}
use xsky.Sky.Data.{SkyData, Pair, bucket_size, same_key}
use xsky.Sky.Table.{
  Page, Routes, bucket_of, swapped, insert_half, insert_chain, insert_route_sky, find_route_sky,
  deref, empty_routes,
}
use xsky.Sky.Table.Chain.{entries, lookup, IsPage, insert_chain-Inserted}
use xsky.Sky.Table.Lookup.{
  lookup-Inserted_other, lookup-Inserted_self, find_chain-lookup, same_key_refl,
}

-- All the buckets, with whole pages and right counters.
pub record IsTable (t : Routes) : Type 0 where
  pub buckets : length t ≡ bucket_size
  pub chains : All (All IsPage) t

-- What a caller of `find_route_sky` reads through the pointer.
unfoldable pub route : Routes → SkyData → Option Pair
route t d = Option.map (deref t) (find_route_sky t d)

abbrev pub bucket : Routes → SkyData → List Page
bucket t d = get_or t (bucket_of d) []

-- The entry that the pointer leads to is the first in the key's bucket with that key.
pub route-lookup : (t : Routes) (d : SkyData) → route t d ≡ lookup d (entries (bucket t d))
unfolding route find_route_sky deref
route-lookup t d = elim (find_chain-lookup (bucket t d) d 0) [
  | inl (e, e') ↦ rw (route, find_route_sky, e, e')
  | inr (p, j, e, e') ↦
      let from_zero : 0 + p ≡ p = omega arith in rw (route, find_route_sky, e, e', from_zero)
]

pub bucket_of-lt : (d : SkyData) → bucket_of d < bucket_size
unfolding bucket_of
bucket_of-lt d = omega arith

module _ (t : Routes) (pair : Pair) (w : IsTable t) (ne : pair.first.code ≢ 0) where
  chain : All IsPage (bucket t pair.first)
  chain = get_or-All (All IsPage) t (bucket_of pair.first) [] tt w.chains

  half-IsTable : IsTable (insert_half t pair)
  unfolding insert_half
  half-IsTable = record {
    buckets = length-set t (bucket_of pair.first) _ ∙ w.buckets;
    chains =
        set-All (All IsPage) t (bucket_of pair.first) _
          (insert_chain-Inserted (bucket t pair.first) pair chain ne).0 w.chains;
  }

  half_bucket :
      (d : SkyData)
      → bucket (insert_half t pair) d ≡ (
          if bucket_of pair.first == bucket_of d
          then insert_chain (bucket t pair.first) pair
          else bucket t d)
  unfolding insert_half
  half_bucket d =
      get_or-set t (bucket_of pair.first) (bucket_of d) _ []
        (omega (arith, w.buckets, bucket_of-lt pair.first))

  half_self : route t pair.first ≡ none → route (insert_half t pair) pair.first ≡ some pair
  half_self fresh =
      route-lookup (insert_half t pair) pair.first
      ∙ ap (λ ps. lookup pair.first (entries ps))
          (half_bucket pair.first ∙ rw (==_refl (bucket_of pair.first)) refl)
      ∙ lookup-Inserted_self pair _ _ pair.first ne (same_key_refl pair.first)
          (sym (route-lookup t pair.first) ∙ fresh)
          (insert_chain-Inserted (bucket t pair.first) pair chain ne).1

  half_elsewhere :
      (d : SkyData) → bucket_of pair.first ≢ bucket_of d → route (insert_half t pair) d ≡ route t d
  half_elsewhere d apart =
      route-lookup (insert_half t pair) d
      ∙ ap (λ ps. lookup d (entries ps)) (half_bucket d ∙ rw (ne→== _ _ apart) refl)
      ∙ sym (route-lookup t d)

  half_other :
      (d : SkyData)
      → d.code ≢ 0
      → same_key pair.first d ≡ false
      → route (insert_half t pair) d ≡ route t d
  half_other d nd other = elim (ℕ_discrete (bucket_of pair.first) (bucket_of d)) [
    | no apart ↦ half_elsewhere d apart
    | yes here ↦
        let same : bucket t pair.first ≡ bucket t d = ap (λ (b : ℕ). get_or t b []) here in
        route-lookup (insert_half t pair) d
        ∙ ap (λ ps. lookup d (entries ps)) (half_bucket d ∙ rw ((==_iff _ _).1 here) refl)
        ∙ lookup-Inserted_other pair _ _ d nd other
            (insert_chain-Inserted (bucket t pair.first) pair chain ne).1
        ∙ ap (λ ps. lookup d (entries ps)) same
        ∙ sym (route-lookup t d)
  ]

-- `insert_route_sky` of a pair, whose members are set, differ as keys and have no route yet, keeps
-- the table's counters right. Then each member leads to the pair, itself in front; a search for any
-- other key, and for any data that hashes to neither bucket, finds what it found before.
pub insert_route_sky_lem :
    (t : Routes) (pair : Pair)
    → IsTable t
    → pair.first.code ≢ 0
    → pair.second.code ≢ 0
    → same_key pair.first pair.second ≡ false
    → same_key pair.second pair.first ≡ false
    → route t pair.first ≡ none
    → route t pair.second ≡ none
    → let t' = insert_route_sky t pair in
      IsTable t'
      × (route t' pair.first ≡ some pair)
      × (route t' pair.second ≡ some (swapped pair))
      × ((d : SkyData)
          → d.code ≢ 0
          → same_key pair.first d ≡ false
          → same_key pair.second d ≡ false
          → route t' d ≡ route t d)
      × ((d : SkyData)
          → bucket_of pair.first ≢ bucket_of d
          → bucket_of pair.second ≢ bucket_of d
          → route t' d ≡ route t d)
unfolding insert_route_sky
insert_route_sky_lem t pair w n1 n2 k12 k21 f1 f2 =
    let t1 = insert_half t pair in
    let w1 = half-IsTable t pair w n1 in
    (
      half-IsTable t1 (swapped pair) w1 n2,
      half_other t1 (swapped pair) w1 n2 pair.first n1 k21 ∙ half_self t pair w n1 f1,
      half_self t1 (swapped pair) w1 n2 (half_other t pair w n1 pair.second n2 k12 ∙ f2),
      (λ d nd o1 o2. half_other t1 (swapped pair) w1 n2 d nd o2 ∙ half_other t pair w n1 d nd o1),
      (λ d a1 a2. half_elsewhere t1 (swapped pair) w1 n2 d a2 ∙ half_elsewhere t pair w n1 d a1),
    )

replicate-chains : (n : ℕ) → All (All IsPage) (replicate n [])
replicate-chains zero = tt
replicate-chains (suc n) = (tt, replicate-chains n)

empty_lookup :
    (n : ℕ) (b : ℕ) (d : SkyData) → lookup d (entries (get_or (replicate n []) b [])) ≡ none
empty_lookup n b d =
    ap (λ ps. lookup d (entries ps)) (get_or-replicate n b []) ∙ unfold lookup entries in refl

-- The table of a module that has just been loaded: no route.
pub empty_routes-IsTable : IsTable empty_routes × ((d : SkyData) → route empty_routes d ≡ none)
unfolding empty_routes
empty_routes-IsTable = (
  record {
    buckets = length-replicate {A = List Page} bucket_size [];
    chains = replicate-chains bucket_size;
  },
  λ d. route-lookup empty_routes d ∙ empty_lookup bucket_size (bucket_of d) d,
)
