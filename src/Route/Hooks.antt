-- ===== src/Route/Hooks.antt =====
-- route/main.c, `nf_register_hook` and `nf_unregister_hook`: one hook in every network namespace.
-- What `nf_register_net_hook` returns is a parameter; the result is the calls made, in order.
use xsky.Base.{
  ℕ, ◌≡◌, ◌≢◌, ◌⊎◌, inl, inr, refl, sym, subst, ap, ◌∙◌, List, [], ◌∷◌, ◌++◌, map, Bool, true,
  false, All, ◌==◌, if◌then◌else◌, arith, ==_refl, ne→==, Bool-cases,
}

-- 0, `-ENOENT`, or another error number.
pub data NetRet : Type 0 where
  registered absent : NetRet
  failed : ℕ → NetRet

pub data Call : Type 0 where
  register unregister : ℕ → Call

-- `ret && ret != -ENOENT`
abbrev is_failure : NetRet → Bool
is_failure registered = false
is_failure absent = false
is_failure (failed e) = true

-- The rollback: each namespace of the list up to `last`.
unfoldable pub rollback : ℕ → List ℕ → List Call
rollback last [] = []
rollback last (net ∷ nets) =
    let rest = rollback last nets in if net == last then [] else unregister net ∷ rest

module _ (result : ℕ → NetRet) where
  -- The loop over the namespaces that are left; `all` is the whole list.
  unfoldable pub register_from : List ℕ → List ℕ → NetRet × List Call
  register_from all [] = (registered, [])
  register_from all (net ∷ nets) =
      let rest = register_from all nets in
      if is_failure (result net)
      then (result net, register net ∷ rollback net all)
      else (rest.0, register net ∷ rest.1)

  unfoldable pub nf_register_hook : List ℕ → NetRet × List Call
  unfolding register_from
  nf_register_hook nets = register_from nets nets

abbrev nf_unregister_hook : List ℕ → List Call
nf_unregister_hook nets = map unregister nets

-- No namespace of the list is `x`.
abbrev pub Misses : ℕ → List ℕ → Type 0
Misses x nets = All (λ n. n ≢ x) nets

-- No namespace stands twice in the list.
abbrev pub Distinct : List ℕ → Type 0
Distinct [] = Unit
Distinct (n ∷ nets) = Misses n nets × Distinct nets

rollback-split :
    (last : ℕ) (before after : List ℕ)
    → Misses last before
    → rollback last (before ++ last ∷ after) ≡ map unregister before
unfolding rollback
rollback-split last [] after m = ground (arith, ==_refl last)
rollback-split last (n ∷ before) after m =
    ground (arith, ne→== n last m.0, rollback-split last before after m.1)

Distinct-split :
    (before : List ℕ) (last : ℕ) (after : List ℕ)
    → Distinct (before ++ last ∷ after)
    → Misses last before
Distinct-split [] last after d = tt
Distinct-split (n ∷ before) last after d =
    (λ e. head before d.0 e, Distinct-split before last after d.1)
  where
    head : (ns : List ℕ) → Misses n (ns ++ last ∷ after) → n ≡ last → ⊥
    head [] m e = m.0 (sym e)
    head (k ∷ ns) m e = head ns m.1 e

module _ (result : ℕ → NetRet) where
  -- The registration succeeds in every namespace of a list.
  abbrev pub Succeeds : List ℕ → Type 0
  Succeeds nets = All (λ n. is_failure (result n) ≡ false) nets

  -- The list as the namespaces before the first failure, that one, and the rest.
  pub record Failure (nets : List ℕ) : Type 0 where
    pub before : List ℕ
    pub last : ℕ
    pub after : List ℕ
    pub parts : nets ≡ before ++ last ∷ after
    pub fine : Succeeds before
    pub fails : is_failure (result last) ≡ true

  register_from_lem :
      (whole nets : List ℕ)
      → (Succeeds nets × (register_from result whole nets ≡ (registered, map register nets)))
        ⊎ ((f : Failure nets) × (register_from result whole nets
              ≡ (result f.last, map register f.before ++ register f.last ∷ rollback f.last whole)))
  unfolding register_from
  register_from_lem whole [] = inl (tt, refl)
  register_from_lem whole (net ∷ nets) = elim (Bool-cases (is_failure (result net))) [
    | inl bad ↦ inr (
      record { before = []; last = net; after = nets; parts = refl; fine = tt; fails = bad },
      ground (arith, bad),
    )
    | inr good ↦ elim (register_from_lem whole nets) [
      | inl (all_good, e) ↦ inl ((good, all_good), ground (arith, good, e))
      | inr (f, e) ↦ inr (
        record {
          before = net ∷ f.before;
          last = f.last;
          after = f.after;
          parts = ap (λ t. net ∷ t) f.parts;
          fine = (good, f.fine);
          fails = f.fails;
        },
        ground (arith, good, e),
      )
    ]
  ]

  -- Registration in a list of distinct namespaces either succeeds in all of them, or stops at the
  -- first that fails, returns its error, and unregisters exactly those before it.
  pub nf_register_hook_lem :
      (nets : List ℕ)
      → Distinct nets
      → (Succeeds nets × (nf_register_hook result nets ≡ (registered, map register nets)))
        ⊎ ((f : Failure nets) × (nf_register_hook result nets ≡ (
          result f.last,
          map register f.before ++ register f.last ∷ map unregister f.before,
        )))
  unfolding nf_register_hook
  nf_register_hook_lem nets d = elim (register_from_lem nets nets) [
    | inl good ↦ inl good
    | inr (f, e) ↦
        let undone : rollback f.last nets ≡ map unregister f.before =
          ap (λ t. rollback f.last t) f.parts
          ∙ rollback-split f.last f.before f.after
              (Distinct-split f.before f.last f.after (subst Distinct f.parts d)) in
        inr (f, e ∙ ap (λ t. (result f.last, map register f.before ++ register f.last ∷ t)) undone)
  ]
