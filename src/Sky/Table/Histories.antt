-- ===== src/Sky/Table/Histories.antt =====
-- server/server.c: the route table after a sequence of insertions, and the map from keys to pairs
-- that it stands for.
use xsky.Base.{
  ℕ, ◌≡◌, ◌≢◌, inl, inr, refl, sym, ap, ◌∙◌, List, [], ◌∷◌, true, false, Option, none, some, All,
  arith, Bool-cases, if◌then◌else◌,
}
use xsky.Sky.Data.{SkyData, Pair, same_key}
use xsky.Sky.Table.{Routes, swapped, insert_route_sky, empty_routes, remove_route_sky}
use xsky.Sky.Table.Routes.{IsTable, route, insert_route_sky_lem, empty_routes-IsTable}
use xsky.Sky.Table.Frame.{remove_route_sky_other}

pub insert_all : Routes → List Pair → Routes
insert_all t [] = t
insert_all t (p ∷ ps) = insert_all (insert_route_sky t p) ps

-- The abstract view: the pair that a key is a member of, with the key's member in front.
pub find_pair : List Pair → SkyData → Option Pair
find_pair [] d = none
find_pair (p ∷ ps) d =
    let rest = find_pair ps d in
    if same_key p.first d then some p else if same_key p.second d then some (swapped p) else rest

abbrev IsApart : Pair → SkyData → Type 0
IsApart p d = (same_key p.first d ≡ false) × (same_key p.second d ≡ false)

-- Two set keys with the same bytes behind the address.
pub record IsPair (rest : List ℕ) (p : Pair) : Type 0 where
  pub first_set : p.first.code ≢ 0
  pub second_set : p.second.code ≢ 0
  pub first_rest : p.first.rest ≡ rest
  pub second_rest : p.second.rest ≡ rest
  pub differ : same_key p.first p.second ≡ false
  pub differ_back : same_key p.second p.first ≡ false

-- Neither key of the one pair is a key of the other.
abbrev pub IsOther : Pair → Pair → Type 0
IsOther p r = (IsApart p r.first × IsApart p r.second) × (IsApart r p.first × IsApart r p.second)

abbrev pub IsDistinct : List ℕ → List Pair → Type 0
IsDistinct rest [] = Unit
IsDistinct rest (p ∷ ps) = IsPair rest p × (All (IsOther p) ps × IsDistinct rest ps)

abbrev IsNew : Routes → Pair → Type 0
IsNew t p = (route t p.first ≡ none) × (route t p.second ≡ none)

same_key-eq : (a d : SkyData) → same_key a d ≡ true → a.rest ≡ d.rest → a ≡ d
unfolding same_key
same_key-eq a d same rest =
    let code : a.code ≡ d.code = ground (arith, same) in
    let size : a.size ≡ d.size = ground (arith, same) in
    let port : a.port ≡ d.port = ground (arith, same) in
    let addr : a.addr ≡ d.addr = ground (arith, same) in cc

module _ (others : List ℕ) where
  -- The table is as good as before, what no pair of the sequence has as a key is found as before, and
  -- each pair is found under both its members.
  record IsRun (t t' : Routes) (ps : List Pair) : Type 0 where
    is_table : IsTable t'
    kept : (d : SkyData) → d.code ≢ 0 → All (λ p. IsApart p d) ps → route t' d ≡ route t d
    found : All (λ p. (route t' p.first ≡ some p) × (route t' p.second ≡ some (swapped p))) ps

  news :
      (t : Routes) (p : Pair) (ps : List Pair)
      → IsTable t
      → IsPair others p
      → IsNew t p
      → All (IsOther p) ps
      → IsDistinct others ps
      → All (IsNew t) ps
      → All (IsNew (insert_route_sky t p)) ps
  news t p [] w q n o d ns = tt
  news t p (r ∷ rs) w q n o d ns =
      let keeps =
        (insert_route_sky_lem t p w q.first_set q.second_set q.differ q.differ_back n.0 n.1).3 in
      (
        (
          keeps r.first d.0.first_set o.0.0.0.0 o.0.0.0.1 ∙ ns.0.0,
          keeps r.second d.0.second_set o.0.0.1.0 o.0.0.1.1 ∙ ns.0.1,
        ),
        news t p rs w q n o.1 d.1.1 ns.1,
      )

  IsOther-first : (p : Pair) (ps : List Pair) → All (IsOther p) ps → All (λ r. IsApart r p.first) ps
  IsOther-first p [] o = tt
  IsOther-first p (r ∷ rs) o = (o.0.1.0, IsOther-first p rs o.1)

  IsOther-second :
      (p : Pair) (ps : List Pair) → All (IsOther p) ps → All (λ r. IsApart r p.second) ps
  IsOther-second p [] o = tt
  IsOther-second p (r ∷ rs) o = (o.0.1.1, IsOther-second p rs o.1)

  insert_all-IsRun :
      (t : Routes) (ps : List Pair)
      → IsTable t
      → IsDistinct others ps
      → All (IsNew t) ps
      → IsRun t (insert_all t ps) ps
  unfolding insert_all
  insert_all-IsRun t [] w d ns = record { is_table = w; kept = λ d nd a. refl; found = tt }
  insert_all-IsRun t (p ∷ ps) w d ns =
      let q = d.0 in
      let t1 = insert_route_sky t p in
      let (w1, first, second, keeps, apart) =
        insert_route_sky_lem t p w q.first_set q.second_set q.differ q.differ_back ns.0.0 ns.0.1 in
      let run = insert_all-IsRun t1 ps w1 d.1.1 (news t p ps w q ns.0 d.1.0 d.1.1 ns.1) in
      record {
        is_table = run.is_table;
        kept = λ k nk a. run.kept k nk a.1 ∙ keeps k nk a.0.0 a.0.1;
        found = (
          (
            run.kept p.first q.first_set (IsOther-first p ps d.1.0) ∙ first,
            run.kept p.second q.second_set (IsOther-second p ps d.1.0) ∙ second,
          ),
          run.found,
        );
      }

  -- A run of pairs that are found where they are, and nothing else that is set.
  find_pair-route :
      (t : Routes) (ps : List Pair) (d : SkyData)
      → IsDistinct others ps
      → All (λ p. (route t p.first ≡ some p) × (route t p.second ≡ some (swapped p))) ps
      → (All (λ p. IsApart p d) ps → route t d ≡ none)
      → d.rest ≡ others
      → route t d ≡ find_pair ps d
  unfolding find_pair
  find_pair-route t [] d ds found none_ rest = none_ tt
  find_pair-route t (p ∷ ps) d ds found none_ rest = elim (Bool-cases (same_key p.first d)) [
    | inl e ↦
        ap (route t) (sym (same_key-eq p.first d e (ds.0.first_rest ∙ sym rest)))
        ∙ found.0.0
        ∙ rw e refl
    | inr e ↦ elim (Bool-cases (same_key p.second d)) [
      | inl e' ↦
          ap (route t) (sym (same_key-eq p.second d e' (ds.0.second_rest ∙ sym rest)))
          ∙ found.0.1
          ∙ rw (e, e') refl
      | inr e' ↦
          find_pair-route t ps d ds.1.1 found.1 (λ a. none_ ((e, e'), a)) rest ∙ rw (e, e') refl
    ]
  ]

-- After the insertion into the empty table of pairs with set keys, of which no two are the same and
-- whose twelve bytes behind the address are all the same, a search for a set key with these bytes
-- finds what the abstract map of the pairs gives. The removal of a key takes no other pair's keys
-- from that map.
pub insert_all_lem :
    (rest : List ℕ) (ps : List Pair)
    → IsDistinct rest ps
    → let t = insert_all empty_routes ps in
      IsTable t
      × ((d : SkyData) → d.code ≢ 0 → d.rest ≡ rest → route t d ≡ find_pair ps d)
      × ((p : Pair) (key d : SkyData)
          → key.code ≢ 0
          → key.rest ≡ rest
          → find_pair ps key ≡ some p
          → d.code ≢ 0
          → d.rest ≡ rest
          → same_key p.first d ≡ false
          → same_key p.second d ≡ false
          → route (remove_route_sky t key) d ≡ find_pair ps d)
insert_all_lem rest ps distinct =
    let t = insert_all empty_routes ps in
    let run = insert_all-IsRun rest empty_routes ps empty_routes-IsTable.0 distinct (empty ps) in
    let view = λ (d : SkyData) (nd : d.code ≢ 0) (r : d.rest ≡ rest).
      find_pair-route rest t ps d distinct run.found
        (λ a. run.kept d nd a ∙ empty_routes-IsTable.1 d) r in
    (
      run.is_table,
      view,
      (λ p key d nk rk found nd rd o1 o2.
          (remove_route_sky_other t key).1 p (view key nk rk ∙ found) d nd o1 o2 ∙ view d nd rd),
    )
  where
    empty : (qs : List Pair) → All (IsNew empty_routes) qs
    empty [] = tt
    empty (q ∷ qs) = ((empty_routes-IsTable.1 q.first, empty_routes-IsTable.1 q.second), empty qs)
