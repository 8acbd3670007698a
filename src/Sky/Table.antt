-- ===== src/Sky/Table.antt =====
-- server/server.c: `insert_route_sky`, `find_route_sky` and `remove_route_sky`.
-- A pointer to an entry is its place in the table: bucket, page and index.
pub mod Chain
pub mod Lookup
pub mod Routes
pub mod Hits
pub mod Removal
pub mod Frame
pub mod Shape
pub mod Stale
pub mod Histories
mod Tests
use xsky.Base.{
  ℕ, zero, suc, ◌+◌, ◌-◌, ◌%◌, List, [], ◌∷◌, ◌++◌, Bool, true, false, Option, none, some, length,
  get_or, set, replicate, drop, ltb, leb, ◌==◌, ◌&&◌, if◌then◌else◌,
}
use xsky.Sky.Data.{
  SkyData, Pair, zero_pair, zero_data, pair_size, bucket_size, hash_route_sky, same_key,
}

-- `struct sky_data_page`; its `next` is the rest of the list of pages.
pub record Page : Type 0 where
  pub used : ℕ
  pub pairs : List Pair

-- `device_sky->routes`: for each bucket its list of pages.
abbrev pub Routes : Type 0
Routes = List (List Page)

pub zero_page : Page
zero_page = record { used = 0; pairs = replicate pair_size zero_pair }

pub empty_routes : Routes
empty_routes = replicate bucket_size []

pub bucket_of : SkyData → ℕ
bucket_of d = hash_route_sky d % bucket_size

-- The loop that stores a pair in the first free entry of a page; a page with none is left alone.
pub fill_slot : List Pair → Pair → Option (List Pair)
fill_slot [] pair = none
fill_slot (p ∷ ps) pair =
    if p.first.code == 0
    then some (pair ∷ ps)
    else elim (fill_slot ps pair) [ none ↦ none | some ps' ↦ some (p ∷ ps') ]

pub fill_page : Page → Pair → Page
unfolding fill_slot
fill_page page pair = elim (fill_slot page.pairs pair) [
  | none ↦ page
  | some pairs ↦ record { used = page.used + 1; pairs = pairs }
]

-- The pair goes to the first page that is not full, if there is one.
pub fill_chain : List Page → Pair → Option (List Page)
fill_chain [] pair = none
fill_chain (page ∷ pages) pair =
    if ltb page.used pair_size
    then some (fill_page page pair ∷ pages)
    else elim (fill_chain pages pair) [ none ↦ none | some pages' ↦ some (page ∷ pages') ]

-- Otherwise to a fresh page in front.
pub insert_chain : List Page → Pair → List Page
insert_chain pages pair = elim (fill_chain pages pair) [
  | none ↦ fill_page zero_page pair ∷ pages
  | some pages' ↦ pages'
]

abbrev pub swapped : Pair → Pair
swapped p = record { first = p.second; second = p.first }

-- One half of `insert_route_sky`: the pair into the bucket of its first member.
pub insert_half : Routes → Pair → Routes
insert_half t pair = let b = bucket_of pair.first in set t b (insert_chain (get_or t b []) pair)

unfoldable pub insert_route_sky : Routes → Pair → Routes
insert_route_sky t pair = insert_half (insert_half t pair) (swapped pair)

-- The first entry from index `i` on whose key is that of `d`, counted from `n`.
pub match_from : List Pair → SkyData → (i n : ℕ) → Option ℕ
match_from [] d i n = none
match_from (p ∷ ps) d i n =
    let rest = match_from ps d i (n + 1) in if leb i n && same_key p.first d then some n else rest

-- The page and the index of the entry that `find_route_sky` stops at, counted from page `n`.
pub find_chain : List Page → SkyData → ℕ → Option (ℕ × ℕ)
find_chain [] d n = none
find_chain (page ∷ pages) d n =
    let rest = find_chain pages d (n + 1) in
    elim (match_from page.pairs d 0 0) [ none ↦ rest | some j ↦ some (n, j) ]

-- A pointer into the table.
pub record Ref : Type 0 where
  pub bucket : ℕ
  pub page : ℕ
  pub slot : ℕ

pub find_route_sky : Routes → SkyData → Option Ref
find_route_sky t d =
    let b = bucket_of d in
    elim (find_chain (get_or t b []) d 0) [
      | none ↦ none
      | some (p, j) ↦ some (record { bucket = b; page = p; slot = j })
    ]

abbrev page_at : Routes → ℕ → ℕ → Page
page_at t b p = get_or (get_or t b []) p zero_page

-- `*pair`
pub deref : Routes → Ref → Pair
deref t r = get_or (page_at t r.bucket r.page).pairs r.slot zero_pair

-- `memset( &page->pairs[j], 0, … ); page->used--;`, at a page whose `used` is not 0.
abbrev clear_slot : Page → ℕ → Page
clear_slot page j = record { used = page.used - 1; pairs = set page.pairs j zero_pair }

-- A `while` loop of `remove_route_sky` over the pages of bucket `b`, from page `p` on, `k` of them
-- left. `pick` reads the key through the pointer, anew at each page; `i` is not reset between pages.
unfoldable pub remove_loop : (pick : Pair → SkyData) → Ref → ℕ → (k p i : ℕ) → Routes → Routes
remove_loop pick r b zero p i t = t
remove_loop pick r b (suc k) p i t =
    let page = page_at t b p in
    let after = λ (j : ℕ) (t' : Routes). remove_loop pick r b k (p + 1) j t' in
    if ltb 0 page.used
    then (elim (match_from page.pairs (pick (deref t r)) i 0) [
      | none ↦ after pair_size t
      | some j ↦ after j (set t b (set (get_or t b []) p (clear_slot page j)))
    ])
    else after i t

-- The hashes are taken before the first loop, the keys through the pointer as the loops run.
unfoldable pub remove_route_sky : Routes → SkyData → Routes
remove_route_sky t d = elim (find_route_sky t d) [
  | none ↦ t
  | some r ↦
      let pair = deref t r in
      let first_bucket = bucket_of pair.first in
      let second_bucket = bucket_of pair.second in
      let t' =
        remove_loop (λ p. p.first) r first_bucket (length (get_or t first_bucket [])) 0 0 t in
      remove_loop (λ p. p.second) r second_bucket (length (get_or t' second_bucket [])) 0 0 t'
]
