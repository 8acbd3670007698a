-- ===== src/Controller/Apnic.antt =====
-- controller/apnic.cpp: which addresses APNIC delegates to China, as two bitmaps.
-- `asio::ip::address::from_string` is a parameter, with what the code reads of its result.
pub mod Marks
pub mod Lifecycle
use mathlib.Core.Option
use xsky.Base.{
  ℕ, zero, suc, ◌+◌, ◌-◌, ◌*◌, ◌/◌, ◌%◌, ◌^◌, List, [], ◌∷◌, ◌++◌, Bool, true, false, ◌&&◌, Option,
  none, some, length, take, drop, byte_at, replicate, ltb, ◌==◌, if◌then◌else◌,
}
use xsky.Controller.Mmap.{Mmap, read, write}

-- `apnic|CN|ipv`
abbrev pub marker : List ℕ
marker = b'a' ∷ b'p' ∷ b'n' ∷ b'i' ∷ b'c' ∷ b'|' ∷ b'C' ∷ b'N' ∷ b'|' ∷ b'i' ∷ b'p' ∷ b'v' ∷ []

pub record Apnic : Type 0 where
  pub ipv4 : Mmap
  pub ipv6 : Mmap

-- Sizes of the two files in bytes.
abbrev pub ipv4_size : ℕ
ipv4_size = 1024 * 1024 * 64

abbrev pub ipv6_size : ℕ
ipv6_size = 1024 * 1024 * 1024 * 3

-- `( ip & 0xFFFFFF ) >> 8`
pub index4 : ℕ → ℕ
index4 ip = ip % 2 ^ 24 / 2 ^ 8

pub is_cn4 : Apnic → ℕ → Option Bool
is_cn4 a ip = read a.ipv4 (index4 ip)

-- The argument is `ip.addr32[0]`.
pub is_cn6 : Apnic → ℕ → Option Bool
is_cn6 a addr32 = read a.ipv6 addr32

-- `s.starts_with( p )`
unfoldable pub starts_with : List ℕ → List ℕ → Bool
starts_with [] s = true
starts_with (p ∷ ps) [] = false
starts_with (p ∷ ps) (c ∷ s) = p == c && starts_with ps s

-- `line.find( pattern )`, counted from `i`; `none` is `npos`.
pub find_from : ℕ → List ℕ → List ℕ → Option ℕ
unfolding starts_with
find_from i pattern [] = if starts_with pattern [] then some i else none
find_from i pattern (c ∷ s) =
    let rest = find_from (i + 1) pattern s in if starts_with pattern (c ∷ s) then some i else rest

-- What a line says: the family digit, and the text between the two bars behind it. A line with the
-- marker but without the second bar makes an iterator out of `npos`, `none`.
pub data Entry : Type 0 where
  skipped : Entry
  entry : (family : ℕ) → (ip : List ℕ) → Entry

pub parse_line : List ℕ → Option Entry
unfolding find_from
parse_line line = elim (find_from 0 marker line) [
  | none ↦ some skipped
  | some found ↦
      let pos = found + 12 in
      elim (find_from (pos + 2) (b'|' ∷ []) (drop (pos + 2) line)) [
        | none ↦ none
        | some end ↦ some (entry (byte_at line pos) (take (end - (pos + 2)) (drop (pos + 2) line)))
      ]
]

-- What `asio` makes of an address: `to_v4().to_uint()`, and the bytes of `to_v6()`; `none` where it
-- throws.
pub record Addresses : Type 0 where
  pub to_uint : List ℕ → Option ℕ
  pub to_bytes : List ℕ → Option (List ℕ)

-- The first four bytes as a number, on a little-endian host.
abbrev pub le32 : List ℕ → ℕ
le32 bs = byte_at bs 0 + byte_at bs 1 * 2 ^ 8 + byte_at bs 2 * 2 ^ 16 + byte_at bs 3 * 2 ^ 24

module _ (asio : Addresses) where
  pub mark : Apnic → Entry → Option Apnic
  unfolding index4
  mark a skipped = some a
  mark a (entry family ip) =
      if family == b'4'
      then elim (asio.to_uint ip) [
        | none ↦ none
        | some n ↦ Option.map (λ m. record a { ipv4 = m }) (write a.ipv4 (index4 n) true)
      ]
      else if family == b'6'
      then elim (asio.to_bytes ip) [
        | none ↦ none
        | some bs ↦ Option.map (λ m. record a { ipv6 = m }) (write a.ipv6 (le32 bs) true)
      ]
      else some a

  -- The body of the inner loop of `sync`, for one line.
  pub sync_line : Apnic → List ℕ → Option Apnic
  sync_line a line = elim (parse_line line) [ none ↦ none | some e ↦ mark a e ]

  -- The inner loop, over what `std::getline` gives: it stops at the first empty line.
  unfoldable pub sync_lines : Apnic → List (List ℕ) → Option Apnic
  sync_lines a [] = some a
  sync_lines a ([] ∷ lines) = some a
  sync_lines a ((c ∷ line) ∷ lines) = elim (sync_line a (c ∷ line)) [
    | none ↦ none
    | some a' ↦ sync_lines a' lines
  ]

-- `mmap::open` on a fresh file: that many zero bytes.
pub fresh_map : ℕ → Mmap
fresh_map size = record { address = replicate size 0 }

-- `apnic::init` on fresh files.
pub fresh : Apnic
fresh = record { ipv4 = fresh_map ipv4_size; ipv6 = fresh_map ipv6_size }
