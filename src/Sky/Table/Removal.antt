-- ===== src/Sky/Table/Removal.antt =====
-- What `remove_route_sky` of server/server.c leaves in the table.
use xsky.Base.{
  ℕ, zero, suc, ◌+◌, ◌≡◌, ◌≢◌, ◌⊎◌, inl, inr, refl, sym, ap, ◌∙◌, subst, List, [], ◌∷◌, true, false,
  ◌&&◌, none, some, get_or, set, ltb, leb, arith, Option-cases, Bool-cases, set-cases, ap₂,
  and_right,
}
use xsky.Sky.Data.{SkyData, Pair, zero_pair, pair_size, same_key}
use xsky.Sky.Table.{
  Page, Routes, zero_page, match_from, Ref, deref, page_at, clear_slot, remove_loop,
}
use xsky.Sky.Table.Chain.{entries}
use xsky.Sky.Table.Hits.{hits, same_key_trans, hits-set, hits-set_page, hits-set_bucket}

-- The table after one entry has been cleared.
abbrev pub cleared : Routes → (b p j : ℕ) → Routes
cleared t b p j = set t b (set (get_or t b []) p (clear_slot (page_at t b p) j))

-- Through a pointer the entry is seen cleared, or as it was.
deref-cleared :
    (t : Routes) (b p j : ℕ) (r : Ref)
    → (deref (cleared t b p j) r ≡ zero_pair) ⊎ (deref (cleared t b p j) r ≡ deref t r)
unfolding deref
deref-cleared t b p j r =
    let pages = get_or t b [] in
    let new = clear_slot (page_at t b p) j in
    elim (set-cases t b r.bucket (set pages p new) []) [
      | inr at ↦ inr (ap (λ ps. get_or (get_or ps r.page zero_page).pairs r.slot zero_pair) at)
      | inl (same, at) ↦
          let here : deref (cleared t b p j) r
              ≡ get_or (get_or (set pages p new) r.page zero_page).pairs r.slot zero_pair =
            ap (λ ps. get_or (get_or ps r.page zero_page).pairs r.slot zero_pair) at in
          elim (set-cases pages p r.page new zero_page) [
            | inr at' ↦ inr (
                here
                ∙ ap (λ (pg : Page). get_or pg.pairs r.slot zero_pair) at'
                ∙ ap (λ (k : ℕ). get_or (page_at t k r.page).pairs r.slot zero_pair) same)
            | inl (same', at') ↦
                let there = here ∙ ap (λ (pg : Page). get_or pg.pairs r.slot zero_pair) at' in
                elim (set-cases (page_at t b p).pairs j r.slot zero_pair zero_pair) [
                  | inl (_, e) ↦ inl (there ∙ e)
                  | inr e ↦ inr (
                      there
                      ∙ e
                      ∙ ap₂ (λ (k l : ℕ). get_or (page_at t k l).pairs r.slot zero_pair) same same')
                ]
          ]
    ]

-- An index that a search reports is that of an entry with the key.
match_from-same :
    (ps : List Pair) (key : SkyData) (i n j : ℕ)
    → match_from ps key i n ≡ some j
    → (k : ℕ) × (j ≡ n + k) × (same_key (get_or ps k zero_pair).first key ≡ true)
unfolding match_from
match_from-same [] key i n j e = cc
match_from-same (p ∷ ps) key i n j e = elim (Bool-cases (leb i n && same_key p.first key)) [
  | inl yes_ ↦ (0, ground (arith, yes_, e), and_right (leb i n) (same_key p.first key) yes_)
  | inr no_ ↦
      let (k, at, same) = match_from-same ps key i (n + 1) j (ground (arith, no_, e)) in
      (suc k, omega (arith, at), same)
]

module _ (pick : Pair → SkyData) (zeroed : (pick zero_pair).code ≡ 0) (r : Ref) where
  abbrev IsSame : Routes → Routes → Type 0
  IsSame t u = (deref u r ≡ zero_pair) ⊎ (deref u r ≡ deref t r)

  -- One turn of a loop of the removal.
  pub loop_idle :
      (b k p i : ℕ) (t : Routes)
      → ltb 0 (page_at t b p).used ≡ false
      → remove_loop pick r b (suc k) p i t ≡ remove_loop pick r b k (p + 1) i t
  unfolding remove_loop
  loop_idle b k p i t e = rw e refl

  pub loop_none :
      (b k p i : ℕ) (t : Routes)
      → ltb 0 (page_at t b p).used ≡ true
      → match_from (page_at t b p).pairs (pick (deref t r)) i 0 ≡ none
      → remove_loop pick r b (suc k) p i t ≡ remove_loop pick r b k (p + 1) pair_size t
  unfolding remove_loop
  loop_none b k p i t e e' = rw (e, e') refl

  pub loop_some :
      (b k p i j : ℕ) (t : Routes)
      → ltb 0 (page_at t b p).used ≡ true
      → match_from (page_at t b p).pairs (pick (deref t r)) i 0 ≡ some j
      → remove_loop pick r b (suc k) p i t ≡ remove_loop pick r b k (p + 1) j (cleared t b p j)
  unfolding remove_loop
  loop_some b k p i j t e e' = rw (e, e') refl

  -- Through the pointer the entry is seen cleared after a loop, or as it was.
  pub remove_loop-deref :
      (b k p i : ℕ) (t : Routes)
      → let u = remove_loop pick r b k p i t in (deref u r ≡ zero_pair) ⊎ (deref u r ≡ deref t r)
  unfolding remove_loop
  remove_loop-deref b zero p i t = inr refl
  remove_loop-deref b (suc k) p i t = elim (Bool-cases (ltb 0 (page_at t b p).used)) [
    | inr idle ↦
        subst (IsSame t) (sym (loop_idle b k p i t idle)) (remove_loop-deref b k (p + 1) i t)
    | inl busy ↦ elim (Option-cases (match_from (page_at t b p).pairs (pick (deref t r)) i 0)) [
      | inl e ↦
          subst (IsSame t) (sym (loop_none b k p i t busy e))
            (remove_loop-deref b k (p + 1) pair_size t)
      | inr (j, e) ↦
          subst (IsSame t) (sym (loop_some b k p i j t busy e))
            (elim (remove_loop-deref b k (p + 1) j (cleared t b p j)) [
              | inl z ↦ inl z
              | inr z ↦ elim (deref-cleared t b p j r) [
                | inl z' ↦ inl (z ∙ z')
                | inr z' ↦ inr (z ∙ z')
              ]
            ])
    ]
  ]

  module _ (d : SkyData) (ne : d.code ≢ 0) where
    -- The key that a loop of the removal looks for is not `d`.
    abbrev pub IsOther : Routes → Type 0
    IsOther t = same_key (pick (deref t r)) d ≡ false

    zeroed_other : same_key (pick zero_pair) d ≡ false
    unfolding same_key
    zeroed_other = ground (arith, ne, zeroed)

    -- One entry is cleared: no entry with the key `d`.
    pub cleared-hits :
        (t : Routes) (b p i j : ℕ)
        → IsOther t
        → match_from (page_at t b p).pairs (pick (deref t r)) i 0 ≡ some j
        → IsOther (cleared t b p j)
          × ((c : ℕ)
              → hits d (entries (get_or (cleared t b p j) c [])) ≡ hits d (entries (get_or t c [])))
    cleared-hits t b p i j o e =
        let (k, at, same) = match_from-same (page_at t b p).pairs (pick (deref t r)) i 0 j e in
        let same' : same_key (get_or (page_at t b p).pairs j zero_pair).first (pick (deref t r))
            ≡ true =
          ap
            (λ (m : ℕ).
              same_key (get_or (page_at t b p).pairs m zero_pair).first (pick (deref t r)))
            {x = j} {y = k} (omega (arith, at))
          ∙ same in
        (
          elim (deref-cleared t b p j r) [
            | inl z ↦ ap (λ q. same_key (pick q) d) z ∙ zeroed_other
            | inr z ↦ ap (λ q. same_key (pick q) d) z ∙ o
          ],
          λ c. hits-set_bucket d ne t b c _ (
              hits-set_page d ne (get_or t b []) p (clear_slot (page_at t b p) j)
                (hits-set d ne (page_at t b p).pairs j (same_key_trans _ _ d same' o))),
        )

    -- The second table has the same entries with the key `d` as the first.
    abbrev pub Keeps : Routes → Routes → Type 0
    Keeps t t' =
        IsOther t'
        × ((c : ℕ) → hits d (entries (get_or t' c [])) ≡ hits d (entries (get_or t c [])))

    Keeps-trans : (t u v : Routes) → Keeps t u → Keeps u v → Keeps t v
    Keeps-trans t u v (_, e) (o, e') = (o, λ c. e' c ∙ e c)

    pub remove_loop-Keeps :
        (b k p i : ℕ) (t : Routes) → IsOther t → Keeps t (remove_loop pick r b k p i t)
    unfolding remove_loop
    remove_loop-Keeps b zero p i t o = (o, λ c. refl)
    remove_loop-Keeps b (suc k) p i t o = elim (Bool-cases (ltb 0 (page_at t b p).used)) [
      | inr idle ↦
          subst (Keeps t) (sym (loop_idle b k p i t idle)) (remove_loop-Keeps b k (p + 1) i t o)
      | inl busy ↦ elim (Option-cases (match_from (page_at t b p).pairs (pick (deref t r)) i 0)) [
        | inl e ↦
            subst (Keeps t) (sym (loop_none b k p i t busy e))
              (remove_loop-Keeps b k (p + 1) pair_size t o)
        | inr (j, e) ↦
            let (o', same) = cleared-hits t b p i j o e in
            subst (Keeps t) (sym (loop_some b k p i j t busy e)) (
              Keeps-trans t (cleared t b p j) _ (o', same)
                (remove_loop-Keeps b k (p + 1) j (cleared t b p j) o'))
      ]
    ]
