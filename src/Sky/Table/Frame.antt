-- ===== src/Sky/Table/Frame.antt =====
-- What `remove_route_sky` of server/server.c leaves alone.
use xsky.Base.{
  ℕ, suc, ◌≡◌, ◌≢◌, inl, inr, refl, sym, ap, ◌∙◌, [], false, none, some, length, get_or, arith,
  Option-cases,
}
use xsky.Sky.Data.{SkyData, Pair, same_key}
use xsky.Sky.Table.{Routes, bucket_of, Ref, deref, remove_loop, remove_route_sky, find_route_sky}
use xsky.Sky.Table.Chain.{entries}
use xsky.Sky.Table.Routes.{route, route-lookup}
use xsky.Sky.Table.Hits.{hits, lookup-hits_same, zero_other}
use xsky.Sky.Table.Removal.{remove_loop-deref, remove_loop-Keeps}

-- The two loops, the first from a page `p` on.
unfoldable pub loops : Routes → Ref → (b1 k p i b2 : ℕ) → Routes
loops t r b1 k p i b2 =
    let t' = remove_loop (λ p. p.first) r b1 k p i t in
    remove_loop (λ p. p.second) r b2 (length (get_or t' b2 [])) 0 0 t'

abbrev pub removed : Routes → Ref → (b1 b2 : ℕ) → Routes
removed t r b1 b2 = loops t r b1 (length (get_or t b1 [])) 0 0 b2

pub remove_route_sky-some :
    (t : Routes) (d : SkyData) (r : Ref)
    → find_route_sky t d ≡ some r
    → remove_route_sky t d
      ≡ removed t r (bucket_of (deref t r).first) (bucket_of (deref t r).second)
unfolding remove_route_sky loops
remove_route_sky-some t d r e = rw (remove_route_sky, e) refl

pub remove_route_sky-none :
    (t : Routes) (d : SkyData) → find_route_sky t d ≡ none → remove_route_sky t d ≡ t
unfolding remove_route_sky
remove_route_sky-none t d e = rw (remove_route_sky, e) refl

-- The first turn of the first loop.
pub loops-turn :
    (t u : Routes) (r : Ref) (b k j b2 : ℕ)
    → remove_loop (λ p. p.first) r b (suc k) 0 0 t ≡ remove_loop (λ p. p.first) r b k 1 j u
    → loops t r b (suc k) 0 0 b2 ≡ loops u r b k 1 j b2
unfolding loops
loops-turn t u r b k j b2 e =
    ap (λ t'. remove_loop (λ p. p.second) r b2 (length (get_or t' b2 [])) 0 0 t') e

-- Entries with neither of the keys stay.
pub loops-hits :
    (t : Routes) (r : Ref) (b1 k p i b2 : ℕ) (d : SkyData)
    → d.code ≢ 0
    → same_key (deref t r).first d ≡ false
    → same_key (deref t r).second d ≡ false
    → (c : ℕ)
    → hits d (entries (get_or (loops t r b1 k p i b2) c [])) ≡ hits d (entries (get_or t c []))
unfolding loops
loops-hits t r b1 k p i b2 d ne o1 o2 c =
    let t' = remove_loop (λ p. p.first) r b1 k p i t in
    let first = remove_loop-Keeps (λ p. p.first) refl r d ne b1 k p i t o1 in
    let o2' : same_key (deref t' r).second d ≡ false =
      elim (remove_loop-deref (λ p. p.first) refl r b1 k p i t) [
        | inl z ↦ ap (λ (q : Pair). same_key q.second d) z ∙ zero_other d ne
        | inr z ↦ ap (λ (q : Pair). same_key q.second d) z ∙ o2
      ] in
    (remove_loop-Keeps (λ p. p.second) refl r d ne b2 (length (get_or t' b2 [])) 0 0 t' o2').1 c
    ∙ first.1 c

-- A removal changes no search for a key but the two of the pair that the removed key leads to; a
-- removal of a key that leads nowhere changes nothing.
pub remove_route_sky_other :
    (t : Routes) (key : SkyData)
    → (route t key ≡ none → remove_route_sky t key ≡ t)
      × ((pair : Pair)
          → route t key ≡ some pair
          → (d : SkyData) → d.code ≢ 0
          → same_key pair.first d ≡ false
          → same_key pair.second d ≡ false
          → route (remove_route_sky t key) d ≡ route t d)
unfolding route
remove_route_sky_other t key = elim (Option-cases (find_route_sky t key)) [
  | inl e ↦ ((λ n. remove_route_sky-none t key e), (λ pair f. absurd (ground (arith, e, f))))
  | inr (r, e) ↦ (
    (λ n. absurd (ground (arith, e, n))),
    (λ pair f d ne o1 o2.
        let at : deref t r ≡ pair = ground (arith, e, f) in
        let b1 = bucket_of (deref t r).first in
        let b2 = bucket_of (deref t r).second in
        ap (λ u. route u d) (remove_route_sky-some t key r e)
        ∙ route-lookup (removed t r b1 b2) d
        ∙ lookup-hits_same d _ _ (
            loops-hits t r b1 (length (get_or t b1 [])) 0 0 b2 d ne
              (ap (λ (q : Pair). same_key q.first d) at ∙ o1)
              (ap (λ (q : Pair). same_key q.second d) at ∙ o2) (bucket_of d))
        ∙ sym (route-lookup t d)),
  )
]
