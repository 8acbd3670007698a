-- ===== src/Sky/Tests.antt =====
-- server/server.c: the theorems at concrete routes and TCP options.
use xsky.Base.{
  inr, true, sym, ap, ◌∙◌, ℕ, ◌≡◌, ◌≢◌, refl, List, [], ◌∷◌, ◌++◌, false, none, some, replicate,
  arith, All,
}
use xsky.Sky.Data.{SkyData, Pair, same_key}
use xsky.Sky.Table.{bucket_of, swapped, insert_route_sky, empty_routes}
use xsky.Sky.Table.Routes.{IsTable, route, insert_route_sky_lem, empty_routes-IsTable}
use xsky.Sky.Toa.{scan, get_toa_data_sky}
use xsky.Sky.Toa.Options.{
  TcpOption, nop, option, encode, encode_all, IsForeign, get_toa_data_sky-encode,
  get_toa_data_sky-total,
}
use xsky.Sky.Server.{SkBuff, sender, loaded, read_option, server_pre_routing_sky}
use xsky.Sky.Server.Misread.{opening_misread}
use xsky.Sky.Server.Sessions.{IsSeen, session_lem}
use xsky.Sky.Data.{zero_data}
use xsky.Base.Kernel.{nf_accept}

abbrev pub client : SkyData
client = record { code = 253; size = 8; port = 0x5000; addr = 0x0100000a; rest = replicate 12 0 }

abbrev pub site : SkyData
site = record { code = 253; size = 8; port = 0xbb01; addr = 0x08080808; rest = replicate 12 0 }

abbrev pub pair : Pair
pair = record { first = client; second = site }

pub apart : (same_key client site ≡ false) × (same_key site client ≡ false)
unfolding same_key
apart = (refl, refl)

insert_route_sky_lem_example :
    let t' = insert_route_sky empty_routes pair in
    IsTable t'
    × (route t' client ≡ some pair)
    × (route t' site ≡ some (swapped pair))
    × ((d : SkyData)
        → d.code ≢ 0
        → same_key client d ≡ false
        → same_key site d ≡ false
        → route t' d ≡ route empty_routes d)
    × ((d : SkyData)
        → bucket_of client ≢ bucket_of d
        → bucket_of site ≢ bucket_of d
        → route t' d ≡ route empty_routes d)
insert_route_sky_lem_example =
    insert_route_sky_lem empty_routes pair empty_routes-IsTable.0 (λ e. omega (arith, e))
      (λ e. omega (arith, e)) apart.0 apart.1 (empty_routes-IsTable.1 client)
      (empty_routes-IsTable.1 site)

-- A segment size, two bytes of padding, and the proxy's option.
abbrev options : List TcpOption
options = option 2 (5 ∷ 180 ∷ []) ∷ nop ∷ nop ∷ []

abbrev body : List ℕ
body = 1 ∷ 187 ∷ 8 ∷ 8 ∷ 8 ∷ 8 ∷ []

options-IsForeign : All IsForeign options
options-IsForeign =
    ((omega arith, (λ e. omega (arith, e)), (λ e. omega (arith, e))), (tt, (tt, tt)))

-- The first twenty bytes of the IP header of a segment from 10.0.0.1 to 8.7.6.5.
abbrev ip_header : List ℕ
ip_header = 71 ∷ 0 ∷ 0 ∷ 56 ∷ 0 ∷ 0 ∷ 64 ∷ 0 ∷ 64 ∷ 6 ∷ 0 ∷ 0 ∷ 10 ∷ 0 ∷ 0 ∷ 1 ∷ 8 ∷ 7 ∷ 6 ∷ 5 ∷ []

get_toa_data_sky-encode_example :
    get_toa_data_sky 9 (ip_header ++ (encode_all options ++ (253 ∷ 8 ∷ (body ++ (1 ∷ 1 ∷ 9 ∷ [])))))
    ≡ some (some (253 ∷ 8 ∷ body))
unfolding encode_all encode
get_toa_data_sky-encode_example =
    get_toa_data_sky-encode ip_header options body (1 ∷ 1 ∷ 9 ∷ []) 9 2 refl options-IsForeign refl
      (omega arith) refl

abbrev padded : List TcpOption
padded = option 2 (5 ∷ 180 ∷ []) ∷ nop ∷ nop ∷ nop ∷ nop ∷ []

get_toa_data_sky-total_example : get_toa_data_sky 15 (3 ∷ 1 ∷ []) ≢ none
get_toa_data_sky-total_example = get_toa_data_sky-total 15 (3 ∷ 1 ∷ [])

-- A segment of 10.0.0.1 that opens a connection, with the address 8.8.8.8 among the options of its IP
-- header, and one that carries data.
abbrev opening : SkBuff
opening = record {
  saddr = 0x0100000a;
  daddr = 0x05060708;
  protocol = 6;
  is_nonlinear = false;
  linearize_fails = false;
  source = 0x5000;
  dest = 0xf8be;
  syn = true;
  ack = false;
  rst = false;
  fin = false;
  doff = 7;
  bytes = ip_header ++ (253 ∷ 8 ∷ 1 ∷ 187 ∷ 8 ∷ 8 ∷ 8 ∷ 8 ∷ replicate 28 0);
  data_len = 0;
  payload = [];
}

abbrev carrying : SkBuff
carrying = record opening {
  syn = false;
  ack = true;
  doff = 5;
  bytes = [];
  data_len = 3;
  payload = 65 ∷ 66 ∷ 67 ∷ 0 ∷ 0 ∷ [];
}

opening-IsSeen : IsSeen opening
opening-IsSeen = record {
  abroad = ((λ e. omega (arith, e)), (λ e. omega (arith, e)));
  tcp = refl;
  linear = refl;
  here = refl;
}

carrying-IsSeen : IsSeen carrying
carrying-IsSeen = record {
  abroad = ((λ e. omega (arith, e)), (λ e. omega (arith, e)));
  tcp = refl;
  linear = refl;
  here = refl;
}

site_lem :
    read_option zero_data opening
    ≡ record zero_data { code = 253; size = 8; port = 0xbb01; addr = 0x08080808 }
unfolding read_option get_toa_data_sky scan loaded
site_lem = refl

keys_differ :
    (same_key (sender zero_data.rest opening) (read_option zero_data opening) ≡ false)
    × (same_key (read_option zero_data opening) (sender zero_data.rest opening) ≡ false)
unfolding same_key read_option get_toa_data_sky scan loaded
keys_differ = (refl, refl)

session_lem_example :
    let option = read_option zero_data opening in
    let r = server_pre_routing_sky zero_data zero_data.rest empty_routes opening in
    let r' = server_pre_routing_sky zero_data zero_data.rest r.1 carrying in
    (r.2.daddr ≡ option.addr)
    × (r.2.dest ≡ option.port)
    × (r'.2.daddr ≡ option.addr)
    × (r'.2.dest ≡ option.port)
    × (r'.0 ≡ nf_accept)
    × (r'.1 ≡ r.1)
session_lem_example =
    session_lem zero_data zero_data zero_data.rest zero_data.rest empty_routes opening carrying
      empty_routes-IsTable.0 opening-IsSeen (refl, refl) carrying-IsSeen (refl, refl, refl) refl
      refl refl (λ e. omega (arith, sym (ap (λ (d : SkyData). d.code) site_lem) ∙ e)) keys_differ.0
      keys_differ.1 (empty_routes-IsTable.1 (sender zero_data.rest opening))
      (empty_routes-IsTable.1 (read_option zero_data opening))

-- A segment from port 50000 with the proxy's option in its TCP header.
abbrev missed : SkBuff
missed = record opening {
  source = 0x50c3;
  bytes =
      ip_header
      ++ (195 ∷ 80 ∷ 190 ∷ 248 ∷ (replicate 16 0 ++ (253 ∷ 8 ∷ 1 ∷ 187 ∷ 8 ∷ 8 ∷ 8 ∷ 8 ∷ [])));
}

opening_misread_example :
    let r = server_pre_routing_sky zero_data zero_data.rest empty_routes missed in
    (r.0 ≡ nf_accept)
    × (r.1
        ≡ insert_route_sky empty_routes
            (record { first = sender zero_data.rest missed; second = zero_data }))
    × (r.2.daddr ≡ 0)
    × (r.2.dest ≡ 0)
opening_misread_example =
    opening_misread zero_data zero_data.rest empty_routes missed ip_header
      (190 ∷ 248 ∷ (replicate 16 0 ++ (253 ∷ 8 ∷ 1 ∷ 187 ∷ 8 ∷ 8 ∷ 8 ∷ 8 ∷ []))) 195 80
      (record {
        abroad = ((λ e. omega (arith, e)), (λ e. omega (arith, e)));
        tcp = refl;
        linear = refl;
        here = refl;
      })
      (refl, refl) refl refl (inr (omega arith, inr (omega arith)))
