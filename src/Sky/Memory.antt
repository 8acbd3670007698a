-- ===== src/Sky/Memory.antt =====
-- The memory of a packet as bytes: what server/server.c reads and writes through pointers. A place
-- is counted from the head of the buffer.
use xsky.Base.{
  ℕ, zero, suc, ◌+◌, ◌-◌, ◌*◌, ◌/◌, ◌%◌, ◌^◌, ◌≤◌, ◌<◌, ◌≡◌, refl, ap, ◌∙◌, List, [], ◌∷◌, Bool,
  false, ◌&&◌, length, take, drop, set, byte_at, ltb, leb, if◌then◌else◌, arith, length-set,
  length-take, length-drop, get_or-set, get_or-drop,
}

-- The bytes are stored one after the other from a place on.
pub put : List ℕ → ℕ → List ℕ → List ℕ
put memory at [] = memory
put memory at (b ∷ bs) = put (set memory at b) (at + 1) bs

pub slice : List ℕ → (at n : ℕ) → List ℕ
slice memory at n = take n (drop at memory)

-- `memcpy`. Where the two ranges overlap it is taken to copy what was there before.
pub memcpy : List ℕ → (to from n : ℕ) → List ℕ
memcpy memory to from n = put memory to (slice memory from n)

-- Fields of two and four bytes of a little-endian host.
abbrev pub load16 : List ℕ → ℕ → ℕ
load16 m at = byte_at m at + byte_at m (at + 1) * 2 ^ 8

abbrev pub load32 : List ℕ → ℕ → ℕ
load32 m at =
    byte_at m at
    + byte_at m (at + 1) * 2 ^ 8
    + byte_at m (at + 2) * 2 ^ 16
    + byte_at m (at + 3) * 2 ^ 24

pub store16 : List ℕ → ℕ → ℕ → List ℕ
store16 m at w = put m at ((w % 256) ∷ (w / 2 ^ 8 % 256) ∷ [])

pub store32 : List ℕ → ℕ → ℕ → List ℕ
store32 m at w =
    put m at ((w % 256) ∷ (w / 2 ^ 8 % 256) ∷ (w / 2 ^ 16 % 256) ∷ (w / 2 ^ 24 % 256) ∷ [])

-- A place in the `n` bytes from `at` on.
abbrev pub within : (at n j : ℕ) → Bool
within at n j = leb at j && ltb j (at + n)

pub length-put : (m : List ℕ) (at : ℕ) (bs : List ℕ) → length (put m at bs) ≡ length m
unfolding put
length-put m at [] = refl
length-put m at (b ∷ bs) = length-put (set m at b) (at + 1) bs ∙ length-set m at b

byte_at-later :
    (b : ℕ) (bs : List ℕ) (at j : ℕ)
    → at < j
    → byte_at (b ∷ bs) (j - at) ≡ byte_at bs (j - (at + 1))
byte_at-later b bs at j h =
    ap (λ (k : ℕ). byte_at (b ∷ bs) k) {x = j - at} {y = suc (j - (at + 1))} (omega arith)

-- A byte after a store: of the stored ones, or as before.
pub byte_at-put :
    (m : List ℕ) (at : ℕ) (bs : List ℕ) (j : ℕ)
    → at + length bs ≤ length m
    → byte_at (put m at bs) j
      ≡ (if within at (length bs) j then byte_at bs (j - at) else byte_at m j)
unfolding put
byte_at-put m at [] j h = ground arith
byte_at-put m at (b ∷ bs) j h = ground (
  arith,
  byte_at-put (set m at b) (at + 1) bs j (omega (arith, length-set m at b)),
  get_or-set m at j b 0 (omega arith),
  byte_at-later b bs at j,
)

byte_at-put_out :
    (m : List ℕ) (at : ℕ) (bs : List ℕ) (j : ℕ)
    → at + length bs ≤ length m
    → within at (length bs) j ≡ false
    → byte_at (put m at bs) j ≡ byte_at m j
byte_at-put_out m at bs j h out = ground (arith, byte_at-put m at bs j h, out)

length-slice : (m : List ℕ) (at n : ℕ) → at + n ≤ length m → length (slice m at n) ≡ n
unfolding slice
length-slice m at n h = omega (arith, length-take n (drop at m), length-drop at m)

pub byte_at-take : (n : ℕ) (m : List ℕ) (j : ℕ) → j < n → byte_at (take n m) j ≡ byte_at m j
byte_at-take zero m j h = absurd (omega arith)
byte_at-take (suc n) [] j h = refl
byte_at-take (suc n) (x ∷ m) zero h = refl
byte_at-take (suc n) (x ∷ m) (suc j) h = byte_at-take n m j (omega arith)

byte_at-slice : (m : List ℕ) (at n j : ℕ) → j < n → byte_at (slice m at n) j ≡ byte_at m (at + j)
unfolding slice
byte_at-slice m at n j h = byte_at-take n (drop at m) j h ∙ get_or-drop at m j 0

pub length-memcpy : (m : List ℕ) (to from n : ℕ) → length (memcpy m to from n) ≡ length m
unfolding memcpy
length-memcpy m to from n = length-put m to (slice m from n)

pub byte_at-memcpy :
    (m : List ℕ) (to from n j : ℕ)
    → to + n ≤ length m
    → from + n ≤ length m
    → byte_at (memcpy m to from n) j
      ≡ (if within to n j then byte_at m (from + (j - to)) else byte_at m j)
unfolding memcpy
byte_at-memcpy m to from n j h k =
    let size = length-slice m from n k in
    ground (
      arith,
      size,
      byte_at-put m to (slice m from n) j (omega (arith, size)),
      byte_at-slice m from n (j - to),
    )

pub length-store16 : (m : List ℕ) (at w : ℕ) → length (store16 m at w) ≡ length m
unfolding store16
length-store16 m at w = length-put m at _

pub byte_at-store16 :
    (m : List ℕ) (at w j : ℕ)
    → at + 2 ≤ length m
    → within at 2 j ≡ false
    → byte_at (store16 m at w) j ≡ byte_at m j
unfolding store16
byte_at-store16 m at w j h out = byte_at-put_out m at _ j h out

pub length-store32 : (m : List ℕ) (at w : ℕ) → length (store32 m at w) ≡ length m
unfolding store32
length-store32 m at w = length-put m at _

pub byte_at-store32 :
    (m : List ℕ) (at w j : ℕ)
    → at + 4 ≤ length m
    → within at 4 j ≡ false
    → byte_at (store32 m at w) j ≡ byte_at m j
unfolding store32
byte_at-store32 m at w j h out = byte_at-put_out m at _ j h out
