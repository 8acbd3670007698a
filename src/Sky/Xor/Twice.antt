-- ===== src/Sky/Xor/Twice.antt =====
-- server/server.c: `xor_data_sky` undoes itself.
use xsky.Base.{
  ℕ, zero, suc, ◌+◌, ◌*◌, ◌≤◌, ◌<◌, ◌≡◌, refl, sym, ap, ◌∙◌, List, [], ◌∷◌, true, bit_xor, byte_at,
  set, ltb, ◌==◌, if◌then◌else◌, length, Option, none, some, subst, length-set, get_or-set,
  get_or-set_ne, get_or-All, All, IsByte, arith, dec_lt, ℕ_discrete, passes, passes-lt, ==_iff,
}
use xsky.Sky.Xor.{int_bytes, xor_bytes, xor_from, xor_data_sky}

table : passes 256 (λ b. passes 256 (λ a. bit_xor (bit_xor a b) b == a)) ≡ true
unfolding passes
table = refl

bit_xor-twice : (a b : ℕ) → IsByte a → IsByte b → bit_xor (bit_xor a b) b ≡ a
bit_xor-twice a b ha hb = (==_iff _ _).0 (
    passes-lt 256 (λ a. bit_xor (bit_xor a b) b == a) a
      (passes-lt 256 (λ b. passes 256 (λ a. bit_xor (bit_xor a b) b == a)) b table hb) ha)

-- What happens to a byte: nothing, or the XOR with a key.
abbrev flip : Option ℕ → ℕ → ℕ
flip none b = b
flip (some k) b = bit_xor b k

abbrev IsKey : Option ℕ → Type 0
IsKey none = Unit {0}
IsKey (some k) = IsByte k

-- The key for byte `j`, where the keys `ks` stand from `i` on.
unfoldable key : List ℕ → ℕ → ℕ → Option ℕ
key [] i j = none
key (k ∷ ks) i j = let rest = key ks (i + 1) j in if i == j then some k else rest

-- The key for byte `j` in the rounds from index `i` on.
unfoldable mask : (fuel : ℕ) → (i length j : ℕ) → Option ℕ
mask zero i len j = none
mask (suc n) i len j =
    let later = mask n (i * 8) len j in
    if ltb i len then (if ltb j (i + 4) then key (int_bytes len) i j else later) else none

key-before : (ks : List ℕ) (i j : ℕ) → j < i → key ks i j ≡ none
unfolding key
key-before [] i j h = refl
key-before (k ∷ ks) i j h = ground (arith, key-before ks (i + 1) j)

key-behind : (ks : List ℕ) (i j : ℕ) → i + length ks ≤ j → key ks i j ≡ none
unfolding key
key-behind [] i j h = refl
key-behind (k ∷ ks) i j h = ground (arith, key-behind ks (i + 1) j)

key-IsKey : (ks : List ℕ) (i j : ℕ) → All IsByte ks → IsKey (key ks i j)
unfolding key
key-IsKey [] i j h = tt
key-IsKey (k ∷ ks) i j h = elim (ℕ_discrete i j) [
  | yes e ↦ let this : key (k ∷ ks) i j ≡ some k = ground (arith, e) in subst IsKey (sym this) h.0
  | no ne ↦
      let this : key (k ∷ ks) i j ≡ key ks (i + 1) j = ground (arith, ne) in
      subst IsKey (sym this) (key-IsKey ks (i + 1) j h.1)
]

mask-before : (n i len j : ℕ) → j < i → mask n i len j ≡ none
unfolding mask
mask-before zero i len j h = refl
mask-before (suc n) i len j h = ground (arith, key-before (int_bytes len) i j h)

int_bytes-All : (n : ℕ) → All IsByte (int_bytes n)
int_bytes-All n = (omega arith, (omega arith, (omega arith, (omega arith, tt))))

length-xor_bytes :
    (ks : List ℕ) (i : ℕ) (bytes : List ℕ) → length (xor_bytes ks i bytes) ≡ length bytes
unfolding xor_bytes
length-xor_bytes [] i bytes = refl
length-xor_bytes (k ∷ ks) i bytes =
    length-xor_bytes ks (i + 1) _ ∙ length-set bytes i (bit_xor (byte_at bytes i) k)

length-xor_from : (n i len : ℕ) (bytes : List ℕ) → length (xor_from n i len bytes) ≡ length bytes
unfolding xor_from
length-xor_from zero i len bytes = refl
length-xor_from (suc n) i len bytes = ground (
  arith,
  length-xor_from n (i * 8) len (xor_bytes (int_bytes len) i bytes),
  length-xor_bytes (int_bytes len) i bytes,
)

pub length-xor_data_sky :
    (bytes : List ℕ) (len : ℕ) → length (xor_data_sky bytes len) ≡ length bytes
unfolding xor_data_sky
length-xor_data_sky bytes len = length-xor_from len 1 len bytes

byte_at-xor_bytes :
    (ks : List ℕ) (i : ℕ) (bytes : List ℕ) (j : ℕ)
    → j < length bytes
    → byte_at (xor_bytes ks i bytes) j ≡ flip (key ks i j) (byte_at bytes j)
unfolding xor_bytes key
byte_at-xor_bytes [] i bytes j h = refl
byte_at-xor_bytes (k ∷ ks) i bytes j h =
    let b = bit_xor (byte_at bytes i) k in
    let len = length-set bytes i b in
    let rest = byte_at-xor_bytes ks (i + 1) (set bytes i b) j (omega arith) in
    elim (ℕ_discrete i j) [
      | yes e ↦
          let same : bit_xor (byte_at bytes i) k ≡ bit_xor (byte_at bytes j) k =
            ap (λ (m : ℕ). bit_xor (byte_at bytes m) k) e in
          ground (
            arith,
            e,
            same,
            rest,
            key-before ks (i + 1) j (omega arith),
            get_or-set bytes i j b 0 (omega arith),
          )
      | no ne ↦ ground (arith, ne, rest, get_or-set_ne bytes i j b 0 ne)
    ]

byte_at-xor_from :
    (n i len : ℕ) (bytes : List ℕ) (j : ℕ)
    → 1 ≤ i
    → j < length bytes
    → byte_at (xor_from n i len bytes) j ≡ flip (mask n i len j) (byte_at bytes j)
unfolding xor_from mask
byte_at-xor_from zero i len bytes j h lt = refl
byte_at-xor_from (suc n) i len bytes j h lt =
    let ks = int_bytes len in
    let size = length-xor_bytes ks i bytes in
    let this = byte_at-xor_bytes ks i bytes j lt in
    let rest =
      byte_at-xor_from n (i * 8) len (xor_bytes ks i bytes) j (omega arith) (omega arith) in
    elim (dec_lt j (i + 4)) [
      | yes near ↦ ground (arith, near, this, rest, mask-before n (i * 8) len j (omega arith))
      | no far ↦ ground (arith, far, this, rest, key-behind ks i j (omega arith))
    ]

mask-IsKey : (n i len j : ℕ) → IsKey (mask n i len j)
unfolding mask
mask-IsKey zero i len j = tt
mask-IsKey (suc n) i len j = elim (dec_lt i len) [
  | no out ↦
      let this : mask (suc n) i len j ≡ none = ground (arith, out) in subst IsKey (sym this) tt
  | yes within ↦ elim (dec_lt j (i + 4)) [
    | yes near ↦
        let this : mask (suc n) i len j ≡ key (int_bytes len) i j = ground (arith, within, near) in
        subst IsKey (sym this) (key-IsKey (int_bytes len) i j (int_bytes-All len))
    | no far ↦
        let this : mask (suc n) i len j ≡ mask n (i * 8) len j = ground (arith, within, far) in
        subst IsKey (sym this) (mask-IsKey n (i * 8) len j)
  ]
]

flip-twice : (m : Option ℕ) (b : ℕ) → IsKey m → IsByte b → flip m (flip m b) ≡ b
flip-twice none b h hb = refl
flip-twice (some k) b h hb = bit_xor-twice b k hb h

xor_from-stable :
    (n m i len : ℕ) (bytes : List ℕ)
    → 1 ≤ i
    → n ≤ m
    → len ≤ i + n
    → xor_from m i len bytes ≡ xor_from n i len bytes
unfolding xor_from
xor_from-stable zero zero i len bytes h le fuel = refl
xor_from-stable zero (suc m) i len bytes h le fuel = ground arith
xor_from-stable (suc n) zero i len bytes h le fuel = absurd (omega arith)
xor_from-stable (suc n) (suc m) i len bytes h le fuel = ground (
  arith,
  xor_from-stable n m (i * 8) len (xor_bytes (int_bytes len) i bytes) (omega arith) (omega arith)
      (omega arith),
)

-- Scrambling twice with the same length gives back every byte of the memory, whose length it keeps;
-- the first byte is never changed, and more rounds than the length change nothing.
pub xor_data_sky-twice :
    (bytes : List ℕ) (len : ℕ)
    → All IsByte bytes
    → (length (xor_data_sky bytes len) ≡ length bytes)
      × ((j : ℕ)
          → j < length bytes
          → byte_at (xor_data_sky (xor_data_sky bytes len) len) j ≡ byte_at bytes j)
      × (0 < length bytes → byte_at (xor_data_sky bytes len) 0 ≡ byte_at bytes 0)
      × ((n : ℕ) → len ≤ n → xor_from n 1 len bytes ≡ xor_data_sky bytes len)
unfolding xor_data_sky
xor_data_sky-twice bytes len h =
    let once = xor_from len 1 len bytes in
    let size = length-xor_from len 1 len bytes in
    (
      size,
      (λ j lt.
          byte_at-xor_from len 1 len once j (omega arith) (omega arith)
          ∙ ap (λ (b : ℕ). flip (mask len 1 len j) b)
              (byte_at-xor_from len 1 len bytes j (omega arith) lt)
          ∙ flip-twice (mask len 1 len j) (byte_at bytes j) (mask-IsKey len 1 len j)
              (get_or-All IsByte bytes j 0 (omega arith) h)),
      (λ lt.
          byte_at-xor_from len 1 len bytes 0 (omega arith) lt
          ∙ ap (λ (m : Option ℕ). flip m (byte_at bytes 0))
              (mask-before len 1 len 0 (omega arith))),
      (λ n le. xor_from-stable len n 1 len bytes (omega arith) le (omega arith)),
    )
