-- ===== src/Sky/Xor.antt =====
-- server/server.c: `xor_data_sky`, which scrambles the payload of a segment.
pub mod Twice
use xsky.Base.{
  ℕ, zero, suc, ◌+◌, ◌*◌, ◌/◌, ◌%◌, ◌^◌, List, [], ◌∷◌, bit_xor, byte_at, set, ltb, if◌then◌else◌,
}

-- The bytes of an `int` on a little-endian host.
abbrev pub int_bytes : ℕ → List ℕ
int_bytes n = (n % 256) ∷ (n / 2 ^ 8 % 256) ∷ (n / 2 ^ 16 % 256) ∷ (n / 2 ^ 24 % 256) ∷ []

-- `*(int *)( data + i ) ^= …`, byte by byte.
pub xor_bytes : List ℕ → ℕ → List ℕ → List ℕ
xor_bytes [] i bytes = bytes
xor_bytes (k ∷ ks) i bytes = xor_bytes ks (i + 1) (set bytes i (bit_xor (byte_at bytes i) k))

-- The loop, from index `i` on, for as many rounds as there is fuel.
pub xor_from : (fuel : ℕ) → (i length : ℕ) → List ℕ → List ℕ
xor_from zero i length bytes = bytes
xor_from (suc n) i length bytes =
    let rest = xor_from n (i * 8) length (xor_bytes (int_bytes length) i bytes) in
    if ltb i length then rest else bytes

-- On the memory from `data` on, which holds what lies behind the payload too: the last round can
-- write up to three bytes there. The index is multiplied by 8 in each round, so `length` rounds are
-- enough.
pub xor_data_sky : List ℕ → (length : ℕ) → List ℕ
xor_data_sky bytes length = xor_from length 1 length bytes
