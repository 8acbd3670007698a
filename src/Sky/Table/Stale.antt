-- ===== src/Sky/Table/Stale.antt =====
-- Which routes `remove_route_sky` of server/server.c takes away, and which it leaves.
use xsky.Base.{
  ℕ, zero, suc, ◌<◌, ◌≡◌, ◌≢◌, refl, sym, ap, ◌∙◌, subst, List, [], ◌∷◌, true, false, none, some,
  length, get_or, set, ltb, arith, All, ap₂, lt→ltb, get_or-All, get_or-set, ==_refl, length-append,
}
use xsky.Sky.Data.{SkyData, Pair, zero_pair, same_key}
use xsky.Sky.Table.{
  Page, Routes, zero_page, bucket_of, match_from, Ref, deref, page_at, clear_slot, remove_route_sky,
  find_route_sky, find_chain,
}
use xsky.Sky.Table.Chain.{entries, lookup, occupied, IsPage}
use xsky.Sky.Table.Routes.{IsTable, route, bucket, route-lookup, bucket_of-lt}
use xsky.Sky.Table.Lookup.{same_key_refl}
use xsky.Sky.Table.Frame.{loops-turn, loops, removed, loops-hits, remove_route_sky-some}
use xsky.Sky.Table.Hits.{hits-append, hits, lookup-hits_same, zero_other}
use xsky.Sky.Table.Removal.{cleared-hits, cleared, loop_some}

hits-set_self :
    (d : SkyData)
    → d.code ≢ 0
    → (ps : List Pair) (j : ℕ) → same_key (get_or ps j zero_pair).first d ≡ true
    → suc (length (hits d (set ps j zero_pair))) ≡ length (hits d ps)
unfolding hits
hits-set_self d ne [] j e = absurd (ground (arith, e, zero_other d ne))
hits-set_self d ne (p ∷ ps) zero e = rw (e, zero_other d ne) refl
hits-set_self d ne (p ∷ ps) (suc j) e = ground (arith, hits-set_self d ne ps j e)

get_or-cleared : (ps : List Pair) (j : ℕ) → get_or (set ps j zero_pair) j zero_pair ≡ zero_pair
get_or-cleared [] j = refl
get_or-cleared (p ∷ ps) zero = refl
get_or-cleared (p ∷ ps) (suc j) = get_or-cleared ps j

length-zero {ℓ} : {A : Type ℓ} (xs : List A) → length xs ≡ 0 → xs ≡ []
length-zero [] e = refl
length-zero (x ∷ xs) e = absurd (omega (arith, e))

occupied-pos : (ps : List Pair) (j : ℕ) → (get_or ps j zero_pair).first.code ≢ 0 → 0 < occupied ps
unfolding occupied
occupied-pos [] j h = absurd (h refl)
occupied-pos (p ∷ ps) zero h = ground (arith, h)
occupied-pos (p ∷ ps) (suc j) h = ground (arith, occupied-pos ps j h)

module _ (t : Routes) (d : SkyData) (page : Page) (pages : List Page) (j : ℕ) (w : IsTable t)
    (ne : d.code ≢ 0) (front : get_or t (bucket_of d) [] ≡ page ∷ pages)
    (at : match_from page.pairs d 0 0 ≡ some j)
    (key : (get_or page.pairs j zero_pair).first ≡ d) where
  abbrev r : Ref
  r = record { bucket = bucket_of d; page = 0; slot = j }

  found : find_route_sky t d ≡ some r
  unfolding find_route_sky find_chain
  found = rw (find_route_sky, find_chain, front, at) refl

  pointed : deref t r ≡ get_or page.pairs j zero_pair
  unfolding deref
  pointed = rw front refl

  -- The first turn of the first loop clears the entry.
  abbrev one : Routes
  one = cleared t (bucket_of d) 0 j

  busy : ltb 0 (page_at t (bucket_of d) 0).used ≡ true
  busy =
      let good : IsPage page =
        (subst (All IsPage) front (get_or-All (All IsPage) t (bucket_of d) [] tt w.chains)).0 in
      let code = occupied-pos page.pairs j (λ e. ne (sym (ap (λ (k : SkyData). k.code) key) ∙ e)) in
      rw front (lt→ltb 0 page.used (omega (arith, code, good.counted)))

  match : match_from (page_at t (bucket_of d) 0).pairs (deref t r).first 0 0 ≡ some j
  match =
      ap (λ (k : SkyData). match_from (page_at t (bucket_of d) 0).pairs k 0 0)
        (ap (λ (p : Pair). p.first) pointed ∙ key)
      ∙ rw front at

  first_turn :
      removed t r (bucket_of (deref t r).first) (bucket_of (deref t r).second)
      ≡ loops one r
          (bucket_of d)
          (length pages)
          1
          j
          (bucket_of (get_or page.pairs j zero_pair).second)
  first_turn =
      let other = bucket_of (get_or page.pairs j zero_pair).second in
      ap₂ (λ (b c : ℕ). loops t r b (length (get_or t b [])) 0 0 c)
        (ap (λ (p : Pair). bucket_of p.first) pointed ∙ ap bucket_of key)
        (ap (λ (p : Pair). bucket_of p.second) pointed)
      ∙ ap (λ (n : ℕ). loops t r (bucket_of d) n 0 0 other) (ap length front)
      ∙ loops-turn t one r (bucket_of d) (length pages) j other
          (loop_some (λ p. p.first) refl r (bucket_of d) (length pages) 0 0 j t busy match)

  one_bucket : get_or one (bucket_of d) [] ≡ clear_slot page j ∷ pages
  one_bucket =
      get_or-set t (bucket_of d) (bucket_of d) _ [] (omega (arith, w.buckets, bucket_of-lt d))
      ∙ rw (==_refl (bucket_of d), front) refl

  -- The pointer now leads to nothing.
  zeroed : deref one r ≡ zero_pair
  unfolding deref
  zeroed =
      ap (λ ps. get_or (get_or ps 0 zero_page).pairs j zero_pair) one_bucket
      ∙ get_or-cleared page.pairs j

  one_less :
      suc (length (hits d (entries (get_or one (bucket_of d) []))))
      ≡ length (hits d (entries (bucket t d)))
  unfolding entries
  one_less =
      let same : same_key (get_or page.pairs j zero_pair).first d ≡ true =
        ap (λ k. same_key k d) key ∙ same_key_refl d in
      rw (one_bucket, front)
        (omega (
          arith,
          hits-set_self d ne page.pairs j same,
          ap length (hits-append d (set page.pairs j zero_pair) (entries pages)),
          ap length (hits-append d page.pairs (entries pages)),
          length-append (hits d (set page.pairs j zero_pair)) (hits d (entries pages)),
          length-append (hits d page.pairs) (hits d (entries pages)),
        ))

  unfold_removal :
      remove_route_sky t d
      ≡ loops one r
          (bucket_of d)
          (length pages)
          1
          j
          (bucket_of (get_or page.pairs j zero_pair).second)
  unfold_removal = remove_route_sky-some t d r found ∙ first_turn

  -- Behind the first turn no entry in use is lost.
  rest-hits :
      (e : SkyData)
      → e.code ≢ 0
      → (c : ℕ)
      → hits e (entries (get_or (remove_route_sky t d) c [])) ≡ hits e (entries (get_or one c []))
  rest-hits e used c =
      let o : same_key zero_pair.first e ≡ false = zero_other e used in
      ap (λ u. hits e (entries (get_or u c []))) unfold_removal
      ∙ loops-hits one r (bucket_of d) (length pages) 1 j
          (bucket_of (get_or page.pairs j zero_pair).second) e used
          (ap (λ (p : Pair). same_key p.first e) zeroed ∙ o)
          (ap (λ (p : Pair). same_key p.second e) zeroed ∙ o) c

  -- In a table with whole pages and right counters, where the first page of the bucket of `d` has an
  -- entry with exactly that key, whose second member is set and has another key: after the removal
  -- of `d` there is one entry less with the key `d`, so that a route that was the only one is gone.
  -- The route of the second member is still what it was.
  pub remove_route_sky_lem :
      let second = (get_or page.pairs j zero_pair).second in
      second.code ≢ 0
      → same_key d second ≡ false
      → (suc (length (hits d (entries (bucket (remove_route_sky t d) d))))
          ≡ length (hits d (entries (bucket t d))))
        × (length (hits d (entries (bucket t d))) ≡ 1 → route (remove_route_sky t d) d ≡ none)
        × (route (remove_route_sky t d) second ≡ route t second)
  unfolding hits lookup
  remove_route_sky_lem used other =
      let second = (get_or page.pairs j zero_pair).second in
      let less = ap (λ ps. suc (length ps)) (rest-hits d ne (bucket_of d)) ∙ one_less in
      let kept =
        cleared-hits (λ p. p.first) refl r second used t (bucket_of d) 0 0 j
          (ap (λ (k : SkyData). same_key k second) (ap (λ (p : Pair). p.first) pointed ∙ key)
            ∙ other)
          match in
      (
        less,
        (λ single.
            route-lookup (remove_route_sky t d) d
            ∙ lookup-hits_same d _ [] (length-zero _ (omega (arith, less, single)))),
        route-lookup (remove_route_sky t d) second
            ∙ lookup-hits_same second _ _
                (rest-hits second used (bucket_of second) ∙ kept.1 (bucket_of second))
            ∙ sym (route-lookup t second),
      )
