-- ===== src/Controller/Apnic/Marks.antt =====
-- What a line of the APNIC list does to the bitmaps of controller/apnic.cpp.
use xsky.Base.{
  ℕ, zero, suc, ◌+◌, ◌-◌, ◌/◌, ◌%◌, ◌^◌, ◌≤◌, ◌<◌, ◌≡◌, ◌≢◌, refl, ap, ◌∙◌, List, [], ◌∷◌, ◌++◌,
  true, get_or-All, some, length, take, replicate, All, IsByte, ◌==◌, if◌then◌else◌, arith,
  length-replicate, take-append,
}
use xsky.Controller.Mmap.Laws.{read-write}
use xsky.Controller.Apnic.{
  Apnic, entry, Addresses, marker, index4, is_cn4, is_cn6, find_from, parse_line, le32, mark,
  sync_line, fresh, fresh_map, ipv4_size, ipv6_size,
}

-- Both bitmaps hold bytes, and are large enough for every index.
pub record IsReady (a : Apnic) : Type 0 where
  pub bytes4 : All IsByte a.ipv4.address
  pub bytes6 : All IsByte a.ipv6.address
  pub size4 : 2 ^ 13 ≤ length a.ipv4.address
  pub size6 : 2 ^ 29 ≤ length a.ipv6.address

replicate-bytes : (n : ℕ) → All IsByte (replicate n 0)
replicate-bytes zero = tt
replicate-bytes (suc n) = (omega arith, replicate-bytes n)

fresh_map_lem : (n : ℕ) → All IsByte (fresh_map n).address × (length (fresh_map n).address ≡ n)
unfolding fresh_map
fresh_map_lem n = (replicate-bytes n, length-replicate {A = ℕ} n 0)

-- The files that `init` opens are ready.
pub fresh-IsReady : IsReady fresh
unfolding fresh
fresh-IsReady =
    let four = fresh_map_lem ipv4_size in
    let six = fresh_map_lem ipv6_size in
    record {
      bytes4 = four.0;
      bytes6 = six.0;
      size4 = omega (arith, four.1);
      size6 = omega (arith, six.1);
    }

index4-lt : (ip : ℕ) → index4 ip / 8 < 2 ^ 13
unfolding index4
index4-lt ip = omega arith

-- Two addresses that differ in the first octet only are not told apart.
is_cn4_congr : (a : Apnic) (x y : ℕ) → x % 2 ^ 24 ≡ y % 2 ^ 24 → is_cn4 a x ≡ is_cn4 a y
unfolding is_cn4 index4
is_cn4_congr a x y e = rw e

le32-lt : (bs : List ℕ) → All IsByte bs → le32 bs < 2 ^ 32
le32-lt bs h =
    let at = λ (i : ℕ). get_or-All IsByte bs i 0 (omega arith) h in
    omega (arith, at 0, at 1, at 2, at 3)

module _ (asio : Addresses) where
  -- A line for an IPv4 address that parses marks that address, and with it exactly those that agree
  -- in the second and third octet; every other address, and all of IPv6, is as before.
  mark-ipv4 :
      (a : Apnic) (ip : List ℕ) (n : ℕ)
      → IsReady a
      → asio.to_uint ip ≡ some n
      → (a' : Apnic) × (mark asio a (entry b'4' ip) ≡ some a')
        × IsReady a'
        × ((x : ℕ) → is_cn4 a' x ≡ (if index4 n == index4 x then some true else is_cn4 a x))
        × ((x : ℕ) → is_cn6 a' x ≡ is_cn6 a x)
  unfolding mark is_cn4 is_cn6
  mark-ipv4 a ip n w e =
      let (m, run, len, bytes, reads) =
        read-write a.ipv4 (index4 n) true w.bytes4 (omega (arith, w.size4, index4-lt n)) in
      (
        record a { ipv4 = m },
        rw (e, run),
        record {
          bytes4 = bytes;
          bytes6 = w.bytes6;
          size4 = omega (arith, len, w.size4);
          size6 = w.size6;
        },
        (λ x. reads (index4 x)),
        (λ x. refl),
      )

  -- A line for an IPv6 address that parses marks that address, and with it exactly those whose first
  -- four bytes are the same; every other address, and all of IPv4, is as before.
  mark-ipv6 :
      (a : Apnic) (ip bs : List ℕ)
      → IsReady a
      → asio.to_bytes ip ≡ some bs
      → All IsByte bs
      → (a' : Apnic) × (mark asio a (entry b'6' ip) ≡ some a')
        × IsReady a'
        × ((x : ℕ) → is_cn6 a' x ≡ (if le32 bs == x then some true else is_cn6 a x))
        × ((x : ℕ) → is_cn4 a' x ≡ is_cn4 a x)
  unfolding mark is_cn4 is_cn6
  mark-ipv6 a ip bs w e hb =
      let (m, run, len, bytes, reads) =
        read-write a.ipv6 (le32 bs) true w.bytes6 (omega (arith, w.size6, le32-lt bs hb)) in
      (
        record a { ipv6 = m },
        rw (e, run),
        record {
          bytes4 = w.bytes4;
          bytes6 = bytes;
          size4 = w.size4;
          size6 = omega (arith, len, w.size6);
        },
        reads,
        (λ x. refl),
      )

find-bar :
    (i : ℕ) (ip rest : List ℕ)
    → All (λ c. c ≢ b'|') ip
    → find_from i (b'|' ∷ []) (ip ++ b'|' ∷ rest) ≡ some (i + length ip)
unfolding find_from
find-bar i [] rest h = ap (λ (k : ℕ). some k) (omega arith)
find-bar i (c ∷ ip) rest h = ground (arith, h.0, find-bar (i + 1) ip rest h.1)

-- A line of the list gives back the family and the address that it was written with.
pub parse_line-format :
    (family : ℕ) (ip rest : List ℕ)
    → All (λ c. c ≢ b'|') ip
    → parse_line (marker ++ family ∷ b'|' ∷ (ip ++ b'|' ∷ rest)) ≡ some (entry family ip)
unfolding parse_line
parse_line-format family ip rest h =
    let width : 14 + length ip - 14 ≡ length ip = omega arith in
    rw (parse_line, find-bar 14 ip rest h)
      (ap (λ t. some (entry family t))
        (ap (λ (k : ℕ). take k (ip ++ b'|' ∷ rest)) width ∙ take-append ip (b'|' ∷ rest)))

-- A line for an IPv4 network of China, whatever follows the address, marks the address and with it
-- exactly those that agree in the second and third octet; all else is as before.
pub sync_line-ipv4 :
    (asio : Addresses) (a : Apnic) (ip rest : List ℕ) (n : ℕ)
    → IsReady a
    → All (λ c. c ≢ b'|') ip
    → asio.to_uint ip ≡ some n
    → (a' : Apnic) × (sync_line asio a (marker ++ b'4' ∷ b'|' ∷ (ip ++ b'|' ∷ rest)) ≡ some a')
      × IsReady a'
      × ((x : ℕ) → is_cn4 a' x ≡ (if index4 n == index4 x then some true else is_cn4 a x))
      × ((x : ℕ) → is_cn6 a' x ≡ is_cn6 a x)
unfolding sync_line
sync_line-ipv4 asio a ip rest n w h e =
    let (a', run, w', reads, others) = mark-ipv4 asio a ip n w e in
    (a', rw (sync_line, parse_line-format b'4' ip rest h) run, w', reads, others)
