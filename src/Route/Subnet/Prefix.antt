-- ===== src/Route/Subnet/Prefix.antt =====
-- `xsky_is_subnet` against its meaning: the address agrees with the configured one on the bits of
-- the prefix.
use xsky.Base.{
  ℕ, zero, suc, ◌+◌, ◌-◌, ◌*◌, ◌/◌, ◌%◌, ◌^◌, ◌≤◌, ◌<◌, ◌≡◌, ◌↔◌, refl, sym, ap, ◌∙◌, subst, List,
  [], ◌∷◌, Bool, true, drop, All, IsByte, byte_at, get_or-All, arith,
}
use xsky.Route.Subnet.{XskySubnet, alen, calc_subnet, same_bytes, is_subnet}
use xsky.Route.Subnet.Bytes.{top, bit, covered, scale, top_of_bits, bits_of_top, calc_subnet_lem}

-- Bit `j` of an address, counted from its first.
abbrev address_bit : List ℕ → ℕ → ℕ
address_bit ip j = bit (j % 8) (byte_at ip (j / 8))

-- Two addresses agree on the first `prefix` bits.
abbrev pub AgreesOn : ℕ → List ℕ → List ℕ → Type 0
AgreesOn prefix x y = (j : ℕ) → j < prefix → address_bit x j ≡ address_bit y j

byte_at-drop : (xs : List ℕ) (i : ℕ) → byte_at (drop 1 xs) i ≡ byte_at xs (suc i)
byte_at-drop [] i = refl
byte_at-drop (x ∷ xs) i = refl

same_bytes_sound :
    (n : ℕ) (xs ys : List ℕ)
    → same_bytes n xs ys ≡ true
    → (i : ℕ) → i < n
    → byte_at xs i ≡ byte_at ys i
unfolding same_bytes
same_bytes_sound zero xs ys e i h = absurd (omega arith)
same_bytes_sound (suc n) xs ys e zero h = ground arith
same_bytes_sound (suc n) xs ys e (suc i) h =
    let rest : same_bytes n (drop 1 xs) (drop 1 ys) ≡ true = ground arith in
    sym (byte_at-drop xs i)
    ∙ same_bytes_sound n (drop 1 xs) (drop 1 ys) rest i (omega arith)
    ∙ byte_at-drop ys i

same_bytes_complete :
    (n : ℕ) (xs ys : List ℕ)
    → ((i : ℕ) → i < n → byte_at xs i ≡ byte_at ys i)
    → same_bytes n xs ys ≡ true
unfolding same_bytes
same_bytes_complete zero xs ys e = refl
same_bytes_complete (suc n) xs ys e =
    let rest : same_bytes n (drop 1 xs) (drop 1 ys) ≡ true =
      same_bytes_complete n (drop 1 xs) (drop 1 ys)
        (λ i h. byte_at-drop xs i ∙ e (suc i) (omega arith) ∙ sym (byte_at-drop ys i)) in
    ground (arith, e 0, rest)

-- The subnet that `xsky_set_udp_proxy_subnet` stores for an address, over what its buffer held.
abbrev pub subnet_of : List ℕ → List ℕ → ℕ → Bool → XskySubnet
subnet_of old address prefix v6 = record {
  address = calc_subnet old address prefix v6;
  prefix = prefix;
  is_ipv6 = v6;
}

module _ (buf old ip address : List ℕ) (prefix : ℕ) (v6 : Bool) (h : prefix ≤ 8 * alen v6)
    (hx : All IsByte ip) (hy : All IsByte address) where
  byte_agrees :
      (i : ℕ)
      → i < alen v6
      → byte_at (calc_subnet buf ip prefix v6) i ≡ byte_at (calc_subnet old address prefix v6) i
      → top (covered prefix i) (byte_at ip i) ≡ top (covered prefix i) (byte_at address i)
  byte_agrees i hi e = scale (covered prefix i) _ _ (omega arith) (
      sym (calc_subnet_lem buf ip prefix v6 i h hi hx)
      ∙ e
      ∙ calc_subnet_lem old address prefix v6 i h hi hy)

  is_subnet_sound :
      is_subnet buf (subnet_of old address prefix v6) ip v6 ≡ true → AgreesOn prefix ip address
  unfolding is_subnet
  is_subnet_sound e j hj =
      bits_of_top (covered prefix (j / 8)) (byte_at ip (j / 8)) (byte_at address (j / 8))
        (omega arith) (get_or-All IsByte ip (j / 8) 0 (omega arith) hx)
        (get_or-All IsByte address (j / 8) 0 (omega arith) hy)
        (byte_agrees (j / 8) (omega arith) (same_bytes_sound (alen v6) _ _ e (j / 8) (omega arith)))
        (j % 8) (omega arith)

  is_subnet_complete :
      AgreesOn prefix ip address → is_subnet buf (subnet_of old address prefix v6) ip v6 ≡ true
  unfolding is_subnet
  is_subnet_complete agree = same_bytes_complete (alen v6) _ _ λ i hi.
      calc_subnet_lem buf ip prefix v6 i h hi hx
      ∙ ap (λ (t : ℕ). t * 2 ^ (8 - covered prefix i))
          (top_of_bits (covered prefix i) (byte_at ip i) (byte_at address i) (omega arith)
            (get_or-All IsByte ip i 0 (omega arith) hx)
            (get_or-All IsByte address i 0 (omega arith) hy)
            (λ k hk.
              let row : (8 * i + k) / 8 ≡ i = omega arith in
              let col : (8 * i + k) % 8 ≡ k = omega arith in
              subst (λ (a : ℕ). bit k (byte_at ip a) ≡ bit k (byte_at address a)) row
                (subst
                  (λ (b : ℕ).
                    bit b (byte_at ip ((8 * i + k) / 8))
                    ≡ bit b (byte_at address ((8 * i + k) / 8)))
                  col (agree (8 * i + k) (omega arith)))))
      ∙ sym (calc_subnet_lem old address prefix v6 i h hi hy)

  -- `xsky_is_subnet` accepts an address exactly when it agrees on every bit of the prefix with the
  -- address that the subnet was set from, whatever the two buffers held before.
  pub is_subnet_lem :
      (is_subnet buf (subnet_of old address prefix v6) ip v6 ≡ true) ↔ AgreesOn prefix ip address
  is_subnet_lem = (is_subnet_sound, is_subnet_complete)
