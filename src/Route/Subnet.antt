-- ===== src/Route/Subnet.antt =====
-- route/main.c, `calc_subnet` and `xsky_is_subnet`: the network part of an address.
pub mod Bytes
pub mod Prefix
use xsky.Base.{
  ℕ, zero, suc, ◌+◌, ◌-◌, ◌/◌, ◌%◌, List, [], ◌∷◌, ◌++◌, Bool, true, false, ◌&&◌, bit_and, drop,
  get_or, set, replicate, byte_at, ◌==◌, if◌then◌else◌,
}

-- `struct xsky_subnet`; its flag is only tested for zero.
pub record XskySubnet : Type 0 where
  pub address : List ℕ
  pub prefix : ℕ
  pub is_ipv6 : Bool

abbrev pub tables : List ℕ
tables = 128 ∷ 192 ∷ 224 ∷ 240 ∷ 248 ∷ 252 ∷ 254 ∷ []

-- The bytes of an address.
abbrev pub alen : Bool → ℕ
alen is_ipv6 = if is_ipv6 then 16 else 4

-- `memset( buf, 0, n )`
abbrev pub clear : List ℕ → ℕ → List ℕ
clear buf n = replicate n 0 ++ drop n buf

-- `for ( int i = 0; i < a; i++ ) buf[i] = ipaddress[i];`, with `k` rounds left.
pub copy_bytes : ℕ → ℕ → List ℕ → List ℕ → List ℕ
copy_bytes zero i buf ip = buf
copy_bytes (suc k) i buf ip = copy_bytes k (i + 1) (set buf i (byte_at ip i)) ip

-- What the call leaves in `buf`.
pub calc_subnet : List ℕ → List ℕ → ℕ → Bool → List ℕ
unfolding copy_bytes
calc_subnet buf ip prefix is_ipv6 =
    let a = prefix / 8 in
    let b = prefix % 8 in
    let copied = copy_bytes a 0 (clear buf (alen is_ipv6)) ip in
    if b == 0 then copied else set copied a (bit_and (get_or tables (b - 1) 0) (byte_at ip a))

-- `!memcmp( x, y, n )`
pub same_bytes : ℕ → List ℕ → List ℕ → Bool
same_bytes zero xs ys = true
same_bytes (suc n) xs ys = byte_at xs 0 == byte_at ys 0 && same_bytes n (drop 1 xs) (drop 1 ys)

-- `buf` is the function's local array, whose bytes are not initialised.
unfoldable pub is_subnet : List ℕ → XskySubnet → List ℕ → Bool → Bool
unfolding calc_subnet same_bytes
is_subnet buf t ip is_ipv6 =
    same_bytes (alen is_ipv6) (calc_subnet buf ip t.prefix is_ipv6) t.address
