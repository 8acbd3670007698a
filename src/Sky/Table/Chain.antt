-- ===== src/Sky/Table/Chain.antt =====
-- One bucket of the route table of server/server.c: what an insertion does to its lookups.
use xsky.Base.{
  ℕ, zero, suc, ◌+◌, ◌-◌, ◌<◌, ◌≡◌, ◌≢◌, inl, inr, refl, sym, ap, ◌∙◌, subst, List, [], ◌∷◌, ◌++◌,
  Option, none, some, length, All, replicate, ◌==◌, if◌then◌else◌, arith, dec_lt, ℕ_discrete,
  Option-cases, length-append, length-replicate,
}
use mathlib.Core.List.{append_assoc}
use xsky.Sky.Data.{SkyData, Pair, zero_pair, pair_size, same_key}
use xsky.Sky.Table.{Page, zero_page, fill_slot, fill_page, fill_chain, insert_chain}

-- The entries of a bucket in the order in which a search meets them.
unfoldable pub entries : List Page → List Pair
entries [] = []
entries (page ∷ pages) = page.pairs ++ entries pages

-- The first entry with a key.
unfoldable pub lookup : SkyData → List Pair → Option Pair
lookup d [] = none
lookup d (p ∷ ps) = if same_key p.first d then some p else lookup d ps

-- How many entries of a page are in use.
unfoldable pub occupied : List Pair → ℕ
occupied [] = 0
occupied (p ∷ ps) = if p.first.code == 0 then occupied ps else suc (occupied ps)

pub record IsPage (page : Page) : Type 0 where
  pub width : length page.pairs ≡ pair_size
  pub counted : page.used ≡ occupied page.pairs

-- `new` is `old` with the pair in place of a free entry.
pub record Filled (pair : Pair) (old new : List Pair) : Type 0 where
  pub before : List Pair
  pub free : Pair
  pub after : List Pair
  pub from : old ≡ before ++ free ∷ after
  pub to : new ≡ before ++ pair ∷ after
  pub is_free : free.first.code ≡ 0

occupied-append : (xs ys : List Pair) → occupied (xs ++ ys) ≡ occupied xs + occupied ys
unfolding occupied
occupied-append [] ys = omega arith
occupied-append (x ∷ xs) ys = ground (arith, occupied-append xs ys)

occupied-zeros : (n : ℕ) → occupied (replicate n zero_pair) ≡ 0
unfolding occupied
occupied-zeros zero = refl
occupied-zeros (suc n) = occupied-zeros n

zero_page-IsPage : IsPage zero_page
unfolding zero_page
zero_page-IsPage = record {
  width = length-replicate pair_size zero_pair;
  counted = sym (occupied-zeros pair_size);
}

zero_page_room : zero_page.used < pair_size
unfolding zero_page
zero_page_room = omega arith

fill_slot-Filled :
    (ps : List Pair) (pair : Pair)
    → occupied ps < length ps
    → (new : List Pair) × (fill_slot ps pair ≡ some new) × Filled pair ps new
unfolding fill_slot occupied
fill_slot-Filled [] pair h = absurd (omega arith)
fill_slot-Filled (p ∷ ps) pair h = elim (ℕ_discrete p.first.code 0) [
  | yes e ↦ (
    pair ∷ ps,
    ground (arith, e),
    record { before = []; free = p; after = ps; from = refl; to = refl; is_free = e },
  )
  | no ne ↦
      let (new, run, f) = fill_slot-Filled ps pair (ground arith) in
      (
        p ∷ new,
        ground (arith, run),
        record {
          before = p ∷ f.before;
          free = f.free;
          after = f.after;
          from = ap (λ t. p ∷ t) f.from;
          to = ap (λ t. p ∷ t) f.to;
          is_free = f.is_free;
        },
      )
]

module _ {pair : Pair} {old new : List Pair} (f : Filled pair old new) where
  length-Filled : length new ≡ length old
  length-Filled =
      ap length f.to
      ∙ omega (
        arith,
        length-append f.before (pair ∷ f.after),
        length-append f.before (f.free ∷ f.after),
      )
      ∙ ap length (sym f.from)

  occupied-Filled : pair.first.code ≢ 0 → occupied new ≡ occupied old + 1
  unfolding occupied
  occupied-Filled ne =
      ap occupied f.to
      ∙ ground (
        arith,
        f.is_free,
        occupied-append f.before (pair ∷ f.after),
        occupied-append f.before (f.free ∷ f.after),
        ap occupied f.from,
      )

  append-Filled : (rest : List Pair) → Filled pair (old ++ rest) (new ++ rest)
  append-Filled rest = record {
    before = f.before;
    free = f.free;
    after = f.after ++ rest;
    from = rw f.from (append_assoc f.before (f.free ∷ f.after) rest);
    to = rw f.to (append_assoc f.before (pair ∷ f.after) rest);
    is_free = f.is_free;
  }

  prepend-Filled : (rest : List Pair) → Filled pair (rest ++ old) (rest ++ new)
  prepend-Filled rest = record {
    before = rest ++ f.before;
    free = f.free;
    after = f.after;
    from = rw f.from (sym (append_assoc rest f.before (f.free ∷ f.after)));
    to = rw f.to (sym (append_assoc rest f.before (pair ∷ f.after)));
    is_free = f.is_free;
  }

-- Filling a page with a free entry.
fill_page-IsPage :
    (page : Page) (pair : Pair)
    → IsPage page
    → page.used < pair_size
    → pair.first.code ≢ 0
    → IsPage (fill_page page pair) × Filled pair page.pairs (fill_page page pair).pairs
unfolding fill_page
fill_page-IsPage page pair w h ne =
    let (new, run, f) = fill_slot-Filled page.pairs pair (omega (arith, w.width, w.counted)) in
    rw (fill_page, run)
      (
        record {
          width = omega (arith, length-Filled f, w.width);
          counted = omega (arith, occupied-Filled f ne, w.counted);
        },
        f,
      )

-- What an insertion leaves: the old entries with the pair in place of a free one, or behind a fresh
-- page that starts with the pair.
pub data Inserted (pair : Pair) (old new : List Pair) : Type 0 where
  reused : Filled pair old new → Inserted pair old new
  added : (n : ℕ) → new ≡ pair ∷ replicate n zero_pair ++ old → Inserted pair old new

fill_chain-Filled :
    (pages : List Page) (pair : Pair) (new : List Page)
    → All IsPage pages
    → pair.first.code ≢ 0
    → fill_chain pages pair ≡ some new
    → All IsPage new × Filled pair (entries pages) (entries new)
unfolding fill_chain entries
fill_chain-Filled [] pair new w ne e = cc
fill_chain-Filled (page ∷ pages) pair new w ne e = elim (dec_lt page.used pair_size) [
  | yes room ↦
      let (good, f) = fill_page-IsPage page pair w.0 room ne in
      let same : fill_page page pair ∷ pages ≡ new = ground arith in
      subst (λ ps. All IsPage ps × Filled pair (page.pairs ++ entries pages) (entries ps)) same
        ((good, w.1), append-Filled f (entries pages))
  | no full ↦ elim (Option-cases (fill_chain pages pair)) [
    | inl none_ ↦ absurd (ground arith)
    | inr (rest, e') ↦
        let (good, f) = fill_chain-Filled pages pair rest w.1 ne e' in
        let same : page ∷ rest ≡ new = ground arith in
        subst (λ ps. All IsPage ps × Filled pair (page.pairs ++ entries pages) (entries ps)) same
          ((w.0, good), prepend-Filled f page.pairs)
  ]
]

-- An insertion keeps the pages of a bucket whole and their counters right.
pub insert_chain-Inserted :
    (pages : List Page) (pair : Pair)
    → All IsPage pages
    → pair.first.code ≢ 0
    → All IsPage (insert_chain pages pair)
      × Inserted pair (entries pages) (entries (insert_chain pages pair))
unfolding insert_chain entries
insert_chain-Inserted pages pair w ne = elim (Option-cases (fill_chain pages pair)) [
  | inr (new, e) ↦
      let (good, f) = fill_chain-Filled pages pair new w ne e in
      rw (insert_chain, e) (good, reused f)
  | inl e ↦
      let (good, _) = fill_page-IsPage zero_page pair zero_page-IsPage zero_page_room ne in
      rw (insert_chain, e) ((good, w), added (pair_size - 1) (ap (λ t. t ++ entries pages) fresh))
]
  where
    fresh : (fill_page zero_page pair).pairs ≡ pair ∷ replicate (pair_size - 1) zero_pair
    fresh = unfold fill_page zero_page fill_slot in refl
