-- ===== src/Sky/Table/Tests.antt =====
-- server/server.c: the theorems on removals and on sequences of insertions at concrete routes.
use xsky.Base.{
  suc, ◌≡◌, ◌≢◌, refl, List, [], ◌∷◌, false, none, some, length, get_or, replicate, arith,
}
use xsky.Sky.Data.{SkyData, Pair, zero_pair, same_key, hash_route_sky, hash_bytes}
use xsky.Sky.Table.{
  Page, bucket_of, insert_half, insert_chain, fill_chain, fill_page, fill_slot, insert_route_sky,
  empty_routes, remove_route_sky, match_from, zero_page,
}
use xsky.Sky.Table.Chain.{entries}
use xsky.Sky.Table.Hits.{hits}
use xsky.Sky.Table.Routes.{IsTable, route, bucket, insert_route_sky_lem, empty_routes-IsTable}
use xsky.Sky.Table.Histories.{insert_all, find_pair, IsDistinct, insert_all_lem}
use xsky.Sky.Table.Stale.{remove_route_sky_lem}
use xsky.Sky.Tests.{client, site, pair, apart}

abbrev table : List (List Page)
table = insert_route_sky empty_routes pair

abbrev ready : IsTable table
ready =
    (insert_route_sky_lem empty_routes pair empty_routes-IsTable.0 (λ e. omega (arith, e))
      (λ e. omega (arith, e)) apart.0 apart.1 (empty_routes-IsTable.1 client)
      (empty_routes-IsTable.1 site)).0

-- The page of the client.
abbrev page : Page
page = record { used = 1; pairs = pair ∷ replicate 99 zero_pair }

front : get_or table (bucket_of client) [] ≡ page ∷ []
unfolding insert_route_sky insert_half insert_chain fill_chain fill_page fill_slot zero_page
    empty_routes bucket_of hash_route_sky hash_bytes
front = refl

first_match : match_from page.pairs client 0 0 ≡ some 0
unfolding match_from same_key
first_match = refl

remove_route_sky_lem_example :
    (suc (length (hits client (entries (bucket (remove_route_sky table client) client))))
      ≡ length (hits client (entries (bucket table client))))
    × (length (hits client (entries (bucket table client))) ≡ 1
        → route (remove_route_sky table client) client ≡ none)
    × (route (remove_route_sky table client) site ≡ route table site)
remove_route_sky_lem_example =
    remove_route_sky_lem table client page [] 0 ready (λ e. omega (arith, e)) front first_match refl
      (λ e. omega (arith, e)) apart.0

-- A second route, of another client.
abbrev client2 : SkyData
client2 = record { code = 253; size = 8; port = 0x5100; addr = 0x0200000a; rest = replicate 12 0 }

abbrev site2 : SkyData
site2 = record { code = 253; size = 8; port = 0xbb01; addr = 0x04040808; rest = replicate 12 0 }

abbrev pairs : List Pair
pairs = pair ∷ record { first = client2; second = site2 } ∷ []

pairs-IsDistinct : IsDistinct (replicate 12 0) pairs
unfolding same_key
pairs-IsDistinct = (
  record {
    first_set = λ e. omega (arith, e);
    second_set = λ e. omega (arith, e);
    first_rest = refl;
    second_rest = refl;
    differ = refl;
    differ_back = refl;
  },
  (
    ((((refl, refl), (refl, refl)), ((refl, refl), (refl, refl))), tt),
    (
      record {
        first_set = λ e. omega (arith, e);
        second_set = λ e. omega (arith, e);
        first_rest = refl;
        second_rest = refl;
        differ = refl;
        differ_back = refl;
      },
      (tt, tt),
    ),
  ),
)

insert_all_lem_example :
    let t = insert_all empty_routes pairs in
    IsTable t
    × ((d : SkyData) → d.code ≢ 0 → d.rest ≡ replicate 12 0 → route t d ≡ find_pair pairs d)
    × ((p : Pair) (key d : SkyData)
        → key.code ≢ 0
        → key.rest ≡ replicate 12 0
        → find_pair pairs key ≡ some p
        → d.code ≢ 0
        → d.rest ≡ replicate 12 0
        → same_key p.first d ≡ false
        → same_key p.second d ≡ false
        → route (remove_route_sky t key) d ≡ find_pair pairs d)
insert_all_lem_example = insert_all_lem (replicate 12 0) pairs pairs-IsDistinct
