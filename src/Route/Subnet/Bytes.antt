-- ===== src/Route/Subnet/Bytes.antt =====
-- The leading bits of a byte, and the bytes that `calc_subnet` leaves.
use xsky.Base.{
  ℕ, zero, suc, ◌+◌, ◌-◌, ◌*◌, ◌/◌, ◌%◌, ◌^◌, ◌≤◌, ◌<◌, ◌≡◌, ◌≢◌, refl, sym, ap, ◌∙◌, List, Bool,
  true, ◌&&◌, bit_and, min, drop, get_or, set, replicate, length, All, IsByte, byte_at, ◌==◌, ltb,
  if◌then◌else◌, arith, dec_lt, ℕ_discrete, subst, leb, passes, passes-lt, get_or-set, length-set,
  length-append, length-replicate, get_or-append, get_or-replicate, ==_iff, get_or-All,
}
use xsky.Route.Subnet.{tables, alen, clear, copy_bytes, calc_subnet}

-- The first `k` bits of a byte, as a number, and its `k`-th bit from the left.
abbrev pub top : ℕ → ℕ → ℕ
top k x = x / 2 ^ (8 - k)

abbrev pub bit : ℕ → ℕ → ℕ
bit k x = x / 2 ^ (7 - k) % 2

-- The byte with the rest of its bits cleared.
abbrev pub keep : ℕ → ℕ → ℕ
keep k x = top k x * 2 ^ (8 - k)

-- How many bits of byte `i` a prefix covers.
abbrev pub covered : ℕ → ℕ → ℕ
covered prefix i = min 8 (prefix - 8 * i)

mask_table :
    passes 7 (λ b. passes 256 (λ x. bit_and (get_or tables b 0) x == keep (suc b) x)) ≡ true
unfolding passes
mask_table = refl

mask_lem : (b x : ℕ) → b < 7 → IsByte x → bit_and (get_or tables b 0) x ≡ keep (suc b) x
mask_lem b x hb hx = (==_iff _ _).0 (
    passes-lt 256 _ x
      (passes-lt 7 (λ b. passes 256 (λ x. bit_and (get_or tables b 0) x == keep (suc b) x)) b
        mask_table hb)
      hx)

keep_table : passes 256 (λ x. (keep 8 x == x) && (keep 0 x == 0)) ≡ true
unfolding passes
keep_table = refl

keep_ends : (x : ℕ) → IsByte x → (keep 8 x ≡ x) × (keep 0 x ≡ 0)
keep_ends x h = omega arith

top_table : passes 8 (λ k. passes 256 (λ x. top (suc k) x == 2 * top k x + bit k x)) ≡ true
unfolding passes
top_table = refl

top_step : (k x : ℕ) → k < 8 → IsByte x → top (suc k) x ≡ 2 * top k x + bit k x
top_step k x hk hx = (==_iff _ _).0 (
    passes-lt 256 _ x
      (passes-lt 8 (λ k. passes 256 (λ x. top (suc k) x == 2 * top k x + bit k x)) k top_table hk)
      hx)

-- Two bytes have the same first `k` bits when those are equal one by one.
pub top_of_bits :
    (k x y : ℕ)
    → k ≤ 8
    → IsByte x
    → IsByte y
    → ((j : ℕ) → j < k → bit j x ≡ bit j y)
    → top k x ≡ top k y
top_of_bits zero x y h hx hy e = omega arith
top_of_bits (suc k) x y h hx hy e = omega (
  arith,
  top_step k x h hx,
  top_step k y h hy,
  top_of_bits k x y (omega arith) hx hy (λ j hj. e j (omega arith)),
  e k (omega arith),
)

pub bits_of_top :
    (k x y : ℕ)
    → k ≤ 8
    → IsByte x
    → IsByte y
    → top k x ≡ top k y
    → (j : ℕ) → j < k
    → bit j x ≡ bit j y
bits_of_top zero x y h hx hy e j hj = absurd (omega arith)
bits_of_top (suc k) x y h hx hy e j hj =
    let parts : (top k x ≡ top k y) × (bit k x ≡ bit k y) =
      omega (arith, top_step k x h hx, top_step k y h hy) in
    elim (dec_lt j k) [
      | yes lt ↦ bits_of_top k x y (omega arith) hx hy parts.0 j lt
      | no ge ↦ let same : j ≡ k = omega arith in rw same parts.1
    ]

pub scale : (k x y : ℕ) → k ≤ 8 → x * 2 ^ (8 - k) ≡ y * 2 ^ (8 - k) → x ≡ y
scale zero x y h e = omega arith
scale (suc zero) x y h e = omega arith
scale (suc (suc zero)) x y h e = omega arith
scale (suc (suc (suc zero))) x y h e = omega arith
scale (suc (suc (suc (suc zero)))) x y h e = omega arith
scale (suc (suc (suc (suc (suc zero))))) x y h e = omega arith
scale (suc (suc (suc (suc (suc (suc zero)))))) x y h e = omega arith
scale (suc (suc (suc (suc (suc (suc (suc zero))))))) x y h e = omega arith
scale (suc (suc (suc (suc (suc (suc (suc (suc k)))))))) x y h e =
    let e' : k ≡ 0 = omega arith in
    let full : (x * 1 ≡ y * 1) =
      subst
        (λ (k : ℕ).
          x * 2 ^ (8 - suc (suc (suc (suc (suc (suc (suc (suc k))))))))
          ≡ y * 2 ^ (8 - suc (suc (suc (suc (suc (suc (suc (suc k)))))))))
        e' e in
    omega arith

copy_bytes_lem :
    (k i : ℕ) (buf ip : List ℕ) (j : ℕ)
    → i + k ≤ length buf
    → byte_at (copy_bytes k i buf ip) j
      ≡ (if leb i j && ltb j (i + k) then byte_at ip j else byte_at buf j)
unfolding copy_bytes
copy_bytes_lem zero i buf ip j h = ground arith
copy_bytes_lem (suc k) i buf ip j h = ground (
  arith,
  copy_bytes_lem k (i + 1) (set buf i (byte_at ip i)) ip j,
  length-set buf i (byte_at ip i),
  get_or-set buf i j (byte_at ip i) 0,
)

length-copy_bytes : (k i : ℕ) (buf ip : List ℕ) → length (copy_bytes k i buf ip) ≡ length buf
unfolding copy_bytes
length-copy_bytes zero i buf ip = refl
length-copy_bytes (suc k) i buf ip =
    length-copy_bytes k (i + 1) (set buf i (byte_at ip i)) ip ∙ length-set buf i _

clear_lem : (buf : List ℕ) (n j : ℕ) → j < n → byte_at (clear buf n) j ≡ 0
clear_lem buf n j h =
    get_or-append (replicate n 0) (drop n buf) j 0 (omega (arith, length-replicate {A = ℕ} n 0))
    ∙ get_or-replicate n j 0

length-clear : (buf : List ℕ) (n : ℕ) → n ≤ length (clear buf n)
length-clear buf n =
    omega (arith, length-append (replicate n 0) (drop n buf), length-replicate {A = ℕ} n 0)

module _ (buf ip : List ℕ) (prefix n j : ℕ) (h : prefix ≤ 8 * n) (hj : j < n)
    (byte : IsByte (byte_at ip j)) where
  whole : List ℕ
  whole = copy_bytes (prefix / 8) 0 (clear buf n) ip

  length-whole : n ≤ length whole
  unfolding whole
  length-whole =
      omega (arith, length-copy_bytes (prefix / 8) 0 (clear buf n) ip, length-clear buf n)

  whole_lem : byte_at whole j ≡ (if ltb j (prefix / 8) then byte_at ip j else 0)
  unfolding whole
  whole_lem = ground (
    arith,
    copy_bytes_lem (prefix / 8) 0 (clear buf n) ip j,
    length-clear buf n,
    clear_lem buf n j hj,
  )

  kept :
      (k : ℕ)
      → covered prefix j ≡ k
      → (b : ℕ) → b ≡ keep k (byte_at ip j)
      → b ≡ keep (covered prefix j) (byte_at ip j)
  kept k e b eb = rw e eb

  even : prefix % 8 ≡ 0 → byte_at whole j ≡ keep (covered prefix j) (byte_at ip j)
  even e = elim (dec_lt j (prefix / 8)) [
    | yes lt ↦ kept 8 (omega arith) _ (ground (arith, whole_lem, keep_ends (byte_at ip j) byte))
    | no ge ↦ kept 0 (omega arith) _ (ground (arith, whole_lem, keep_ends (byte_at ip j) byte))
  ]

  odd :
      prefix % 8 ≢ 0
      → byte_at
          (set whole
            (prefix / 8)
            (bit_and (get_or tables (prefix % 8 - 1) 0) (byte_at ip (prefix / 8))))
          j
        ≡ keep (covered prefix j) (byte_at ip j)
  odd ne =
      let masked = bit_and (get_or tables (prefix % 8 - 1) 0) (byte_at ip (prefix / 8)) in
      let there = get_or-set whole (prefix / 8) j masked 0 (omega (arith, length-whole)) in
      elim (ℕ_discrete (prefix / 8) j) [
        | yes here ↦
            let byte' : IsByte (byte_at ip (prefix / 8)) =
              subst (λ (i : ℕ). IsByte (byte_at ip i)) (sym here) byte in
            let k : suc (prefix % 8 - 1) ≡ prefix % 8 = omega arith in
            let mask : masked ≡ keep (prefix % 8) (byte_at ip (prefix / 8)) =
              mask_lem (prefix % 8 - 1) (byte_at ip (prefix / 8)) (omega arith) byte'
              ∙ ap (λ (k : ℕ). keep k (byte_at ip (prefix / 8))) k in
            kept (prefix % 8) (omega arith) _
              (ground (arith, there) ∙ mask ∙ ap (λ (i : ℕ). keep (prefix % 8) (byte_at ip i)) here)
        | no apart ↦ elim (dec_lt j (prefix / 8)) [
          | yes lt ↦
              kept 8 (omega arith) _
                (ground (arith, there, whole_lem, keep_ends (byte_at ip j) byte))
          | no ge ↦
              kept 0 (omega arith) _
                (ground (arith, there, whole_lem, keep_ends (byte_at ip j) byte))
        ]
      ]

-- Byte `j` of what `calc_subnet` leaves: the bits of the address that the prefix covers, then zeros.
pub calc_subnet_lem :
    (buf ip : List ℕ) (prefix : ℕ) (v6 : Bool) (j : ℕ)
    → prefix ≤ 8 * alen v6
    → j < alen v6
    → All IsByte ip
    → byte_at (calc_subnet buf ip prefix v6) j ≡ keep (covered prefix j) (byte_at ip j)
unfolding calc_subnet whole
calc_subnet_lem buf ip prefix v6 j h hj bytes =
    let byte = get_or-All IsByte ip j 0 (omega arith) bytes in
    elim (ℕ_discrete (prefix % 8) 0) [
      | yes e ↦ ground (arith, even buf ip prefix (alen v6) j h hj byte e)
      | no ne ↦ ground (arith, odd buf ip prefix (alen v6) j h hj byte ne)
    ]
