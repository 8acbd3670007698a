-- ===== src/Controller/Mmap.antt =====
-- controller/mmap.cpp, `mmap::read` and `mmap::write`: a file mapped as an array of bits.
-- An index beyond the mapping is undefined behaviour, `none`.
pub mod Laws
pub mod Open
use xsky.Base.{
  ℕ, ◌+◌, ◌-◌, ◌*◌, ◌/◌, ◌%◌, ◌^◌, ◌<◌, List, Bool, true, false, Option, none, some, length, set,
  All, IsByte, byte_at, bit_and, bit_or, ltb, ◌!=◌, if◌then◌else◌,
}

-- The mapped bytes.
pub record Mmap : Type 0 where
  pub address : List ℕ

pub read : Mmap → ℕ → Option Bool
read m index =
    if ltb (index / 8) (length m.address)
    then some (bit_and (byte_at m.address (index / 8)) (2 ^ (index % 8)) != 0)
    else none

-- The byte that a write leaves. On a byte, `~( 1 << k )` keeps all bits but one.
abbrev pub written : ℕ → ℕ → Bool → ℕ
written b k true = bit_or b (2 ^ k)
written b k false = bit_and b (255 - 2 ^ k)

pub write : Mmap → ℕ → Bool → Option Mmap
write m index value =
    if ltb (index / 8) (length m.address)
    then some (record {
      address =
          set m.address (index / 8) (written (byte_at m.address (index / 8)) (index % 8) value);
    })
    else none
