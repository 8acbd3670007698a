-- ===== src/Controller/Mmap/Laws.antt =====
-- The bits of controller/mmap.cpp are an array of Booleans.
use xsky.Base.{
  ℕ, none, [], ◌/◌, ◌%◌, ◌^◌, ◌<◌, ◌≡◌, refl, Bool, true, false, ◌&&◌, some, length, set, All,
  IsByte, byte_at, bit_and, ltb, ◌==◌, ◌!=◌, if◌then◌else◌, arith, passes, passes-lt, get_or-set,
  length-set, set-All, get_or-All, ℕ_discrete, and_left, and_right, ltb→lt, ap,
}
use xsky.Controller.Mmap.{Mmap, read, write, written}

-- A value of the table: bit `j` of byte `b` after a write of bit `k`.
abbrev same : Bool → Bool → Bool
same true b = b
same false true = false
same false false = true

same_lem : (a b : Bool) → same a b ≡ true → a ≡ b
same_lem true b e = ground arith
same_lem false true e = ground arith
same_lem false false e = refl

abbrev holds : ℕ → ℕ → Bool
holds b j = bit_and b (2 ^ j) != 0

abbrev row : Bool → ℕ → ℕ → ℕ → Bool
row v k j b =
    same (holds (written b k v) j) (if k == j then v else holds b j) && ltb (written b k v) 256

rows_set : passes 8 (λ k. passes 8 (λ j. passes 256 (row true k j))) ≡ true
unfolding passes
rows_set = refl

rows_clear : passes 8 (λ k. passes 8 (λ j. passes 256 (row false k j))) ≡ true
unfolding passes
rows_clear = refl

row_lem : (v : Bool) (k j b : ℕ) → k < 8 → j < 8 → IsByte b → row v k j b ≡ true
row_lem true k j b hk hj hb =
    passes-lt 256 (row true k j) b
      (passes-lt 8 (λ j. passes 256 (row true k j)) j
        (passes-lt 8 (λ k. passes 8 (λ j. passes 256 (row true k j))) k rows_set hk) hj)
      hb
row_lem false k j b hk hj hb =
    passes-lt 256 (row false k j) b
      (passes-lt 8 (λ j. passes 256 (row false k j)) j
        (passes-lt 8 (λ k. passes 8 (λ j. passes 256 (row false k j))) k rows_clear hk) hj)
      hb

written_lem :
    (v : Bool) (k j b : ℕ)
    → k < 8
    → j < 8
    → IsByte b
    → (holds (written b k v) j ≡ (if k == j then v else holds b j)) × IsByte (written b k v)
written_lem v k j b hk hj hb =
    let e = row_lem v k j b hk hj hb in
    (same_lem _ _ (and_left _ _ e), ltb→lt _ _ (and_right _ _ e))

-- A write within the mapping succeeds and keeps the mapping's size and bytes; a read then gives the
-- written value at that index, and at any other what it gave before.
pub read-write :
    (m : Mmap) (index : ℕ) (value : Bool)
    → All IsByte m.address
    → index / 8 < length m.address
    → (m' : Mmap) × (write m index value ≡ some m')
      × (length m'.address ≡ length m.address)
      × All IsByte m'.address
      × ((j : ℕ) → read m' j ≡ (if index == j then some value else read m j))
unfolding read write
read-write m index value bytes h =
    let b = byte_at m.address (index / 8) in
    let byte : IsByte b = get_or-All IsByte m.address (index / 8) 0 (omega arith) bytes in
    let new = written b (index % 8) value in
    (
      record { address = set m.address (index / 8) new },
      ground arith,
      length-set m.address (index / 8) new,
      set-All IsByte m.address (index / 8) new
          (written_lem value (index % 8) 0 b (omega arith) (omega arith) byte).1 bytes,
      λ j. elim (ℕ_discrete (index / 8) (j / 8)) [
        | no apart ↦ ground (
          arith,
          length-set m.address (index / 8) new,
          get_or-set m.address (index / 8) (j / 8) new 0 h,
        )
        | yes here ↦ ground (
          arith,
          length-set m.address (index / 8) new,
          get_or-set m.address (index / 8) (j / 8) new 0 h,
          (written_lem value (index % 8) (j % 8) b (omega arith) (omega arith) byte).0,
          ap (λ (i : ℕ). byte_at m.address i) here,
        )
      ],
    )

-- A read within the mapping returns.
pub read-within : (m : Mmap) (i : ℕ) → i / 8 < length m.address → (b : Bool) × (read m i ≡ some b)
unfolding read
read-within m i h = (bit_and (byte_at m.address (i / 8)) (2 ^ (i % 8)) != 0, ground (arith, h))

-- Nothing is within a mapping that is closed.
pub read_null : (i : ℕ) → read (record { address = [] }) i ≡ none
unfolding read
read_null i = ground arith

pub write_null : (i : ℕ) (v : Bool) → write (record { address = [] }) i v ≡ none
unfolding write
write_null i v = ground arith
