-- ===== src/Sky/Data.antt =====
-- server/server.h and `hash_route_sky` of server/server.c: the entries of the route table.
use xsky.Base.{ℕ, ◌*◌, ◌/◌, ◌%◌, ◌^◌, List, [], ◌∷◌, Bool, ◌&&◌, bit_xor, ◌==◌, replicate}

abbrev pub pair_size : ℕ
pair_size = 100

abbrev pub bucket_size : ℕ
bucket_size = 1000

abbrev pub tcpopt_v4 : ℕ
tcpopt_v4 = 253

abbrev pub tcpolen_v4 : ℕ
tcpolen_v4 = 8

abbrev pub tcpopt_v6 : ℕ
tcpopt_v6 = 254

abbrev pub tcpolen_v6 : ℕ
tcpolen_v6 = 20

-- `sky_data`, a union of 20 bytes, by its IPv4 member. `rest` are the 12 bytes behind that.
pub record SkyData : Type 0 where
  pub code : ℕ
  pub size : ℕ
  pub port : ℕ
  pub addr : ℕ
  pub rest : List ℕ

pub record Pair : Type 0 where
  pub first : SkyData
  pub second : SkyData

abbrev pub zero_data : SkyData
zero_data = record { code = 0; size = 0; port = 0; addr = 0; rest = replicate 12 0 }

abbrev pub zero_pair : Pair
zero_pair = record { first = zero_data; second = zero_data }

-- The union's memory on a little-endian host.
abbrev memory : SkyData → List ℕ
memory d =
    d.code
    ∷ d.size
    ∷ (d.port % 256)
    ∷ (d.port / 256)
    ∷ (d.addr % 256)
    ∷ (d.addr / 2 ^ 8 % 256)
    ∷ (d.addr / 2 ^ 16 % 256)
    ∷ (d.addr / 2 ^ 24)
    ∷ d.rest

-- The loop of `hash_route_sky` over the bytes.
unfoldable pub hash_bytes : ℕ → List ℕ → ℕ
hash_bytes val [] = val
hash_bytes val (b ∷ bs) = hash_bytes (bit_xor val b * 16777619 % 2 ^ 32) bs

unfoldable pub hash_route_sky : SkyData → ℕ
unfolding hash_bytes
hash_route_sky d = hash_bytes 2166136261 (memory d)

-- The test of the three loops that look for an entry: all fields but `rest`.
unfoldable pub same_key : SkyData → SkyData → Bool
same_key a b = a.code == b.code && a.size == b.size && a.addr == b.addr && a.port == b.port
