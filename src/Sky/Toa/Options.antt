-- ===== src/Sky/Toa/Options.antt =====
-- server/server.c: `get_toa_data_sky` against the list of options that the bytes stand for.
use xsky.Base.{
  Bool, Option, if◌then◌else◌, ge→ltb, ℕ, zero, suc, ◌+◌, ◌-◌, ◌*◌, List, [], ◌∷◌, ◌++◌, none, some,
  All, arith, ◌≡◌, ◌≢◌, ◌≤◌, ap, ap₂, subst, ◌∙◌, length, take, drop, byte_at, length-append,
  drop-append, take-append,
}
use mathlib.Core.List.{append_assoc}
use xsky.Sky.Toa.{scan, get_toa_data_sky}

-- A TCP option: one byte of padding, or a kind with its data.
pub data TcpOption : Type 0 where
  nop : TcpOption
  option : (kind : ℕ) → (body : List ℕ) → TcpOption

unfoldable pub encode : TcpOption → List ℕ
encode nop = 1 ∷ []
encode (option kind body) = kind ∷ (2 + length body) ∷ body

unfoldable pub encode_all : List TcpOption → List ℕ
encode_all [] = []
encode_all (o ∷ os) = encode o ++ encode_all os

-- The option is well formed, and not one of the proxy's.
abbrev pub IsForeign : TcpOption → Type 0
IsForeign nop = Unit
IsForeign (option kind body) =
    (2 ≤ kind) × ((kind ≡ 253) → (length body ≡ 6) → ⊥) × ((kind ≡ 254) → (length body ≡ 18) → ⊥)

-- The loop steps over a foreign option.
scan-foreign :
    (o : TcpOption) (k n : ℕ) (after : List ℕ)
    → IsForeign o
    → scan (suc k) (encode o ++ after) (length (encode o) + n) ≡ scan k after n
unfolding scan encode
scan-foreign nop k n after h =
    ground (arith, ap (λ (m : ℕ). scan k after m) {x = 1 + n - 1} {y = n} (omega arith))
scan-foreign (option kind body) k n after h =
    let size = 2 + length body in
    let rest : scan k (drop (length body) (body ++ after)) (size + n - size) ≡ scan k after n =
      ap (λ (xs : List ℕ). scan k xs (size + n - size)) (drop-append body after)
      ∙ ap (λ (m : ℕ). scan k after m) {x = size + n - size} {y = n} (omega arith) in
    ground (arith, rest, h.0, h.1, h.2)

encode-positive : (o : TcpOption) → 1 ≤ length (encode o)
unfolding encode
encode-positive nop = omega arith
encode-positive (option kind body) = omega arith

-- Over all of a list of foreign options.
scan-encode_all :
    (os : List TcpOption) (k n : ℕ) (after : List ℕ)
    → All IsForeign os
    → length (encode_all os) + n ≤ k
    → (j : ℕ) × (n ≤ j)
      × (scan k (encode_all os ++ after) (length (encode_all os) + n) ≡ scan j after n)
unfolding encode_all
scan-encode_all [] k n after h fuel =
    (k, omega arith, ap (λ (m : ℕ). scan k after m) {x = 0 + n} {y = n} (omega arith))
scan-encode_all (o ∷ os) k n after h fuel =
    let m = length (encode_all os) in
    let len = length-append (encode o) (encode_all os) in
    let positive = encode-positive o in
    let at : length (encode o ++ encode_all os) + n ≡ length (encode o) + (m + n) = omega arith in
    let (j, le, rest) = scan-encode_all os (k - 1) n after h.1 (omega arith) in
    (
      j,
      le,
      ap₂ (λ (xs : List ℕ) (l : ℕ). scan k xs l) (append_assoc (encode o) (encode_all os) after) at
          ∙ ap
              (λ (f : ℕ).
                scan f (encode o ++ (encode_all os ++ after)) (length (encode o) + (m + n)))
              {x = k} {y = suc (k - 1)} (omega arith)
          ∙ scan-foreign o (k - 1) (m + n) (encode_all os ++ after) h.0
          ∙ rest,
    )

found :
    (k m : ℕ) (body after : List ℕ)
    → length body ≡ 6
    → 8 + m ≤ k
    → scan k (253 ∷ 8 ∷ (body ++ after)) (8 + m) ≡ some (some (253 ∷ 8 ∷ body))
unfolding scan
found zero m body after h le = ground arith
found (suc k) m body after h le =
    let copied : take 6 (body ++ after) ≡ body =
      subst (λ (n : ℕ). take n (body ++ after) ≡ body) h (take-append body after) in
    ground (arith, copied)

-- The search on a packet that is long enough is the loop behind its first twenty bytes.
scanned :
    (head ptr : List ℕ) (doff n : ℕ)
    → length head ≡ 20
    → doff * 4 ≡ 20 + n
    → n ≤ length ptr
    → get_toa_data_sky doff (head ++ ptr) ≡ scan n ptr n
unfolding get_toa_data_sky
scanned head ptr doff n h len le =
    let size : doff * 4 - 20 ≡ n = omega (arith, len) in
    let behind : drop 20 (head ++ ptr) ≡ ptr =
      subst (λ (k : ℕ). drop k (head ++ ptr) ≡ ptr) h (drop-append head ptr) in
    let bytes : List ℕ = head ++ ptr in
    let found : Option (Option (List ℕ)) = scan (doff * 4 - 20) (drop 20 bytes) (doff * 4 - 20) in
    ap (λ (b : Bool). if b then some none else found)
      (ge→ltb (length bytes) (20 + (doff * 4 - 20))
        (omega (arith, length-append head ptr, h, size, le)))
    ∙ ap₂ (λ (k : ℕ) (xs : List ℕ). scan k xs k) size behind

-- Behind the first twenty bytes of a packet, which are its IP header where that has no options, and
-- behind any well-formed options that are not the proxy's: an option that carries an IPv4 address
-- and its port is found, with all its eight bytes, where the data offset counts so many bytes and
-- the packet has them.
pub get_toa_data_sky-encode :
    (head : List ℕ) (os : List TcpOption) (body after : List ℕ) (doff m : ℕ)
    → length head ≡ 20
    → All IsForeign os
    → length body ≡ 6
    → m ≤ length after
    → doff * 4 ≡ 20 + (length (encode_all os) + (8 + m))
    → get_toa_data_sky doff (head ++ (encode_all os ++ (253 ∷ 8 ∷ (body ++ after))))
      ≡ some (some (253 ∷ 8 ∷ body))
get_toa_data_sky-encode head os body after doff m hd h b room len =
    let option = 253 ∷ 8 ∷ (body ++ after) in
    let n = length (encode_all os) + (8 + m) in
    let (j, le, run) = scan-encode_all os n (8 + m) option h (omega arith) in
    scanned head (encode_all os ++ option) doff n hd len
      (omega (arith, length-append (encode_all os) option, length-append body after, b, room))
    ∙ run
    ∙ found j m body after b le

-- The loop does not run out of fuel.
scan-total : (fuel : ℕ) (ptr : List ℕ) (length : ℕ) → length ≤ fuel → scan fuel ptr length ≢ none
unfolding scan
scan-total zero ptr length h = ground arith
scan-total (suc k) ptr length h =
    let size = byte_at ptr 1 in
    let padding = scan-total k (drop 1 ptr) (length - 1) (omega arith) in
    let other = scan-total k (drop size ptr) (length - size) in ground (arith, padding, other)

-- For every data offset and every packet, the search ends: with NULL or with an option.
pub get_toa_data_sky-total : (doff : ℕ) (bytes : List ℕ) → get_toa_data_sky doff bytes ≢ none
unfolding get_toa_data_sky
get_toa_data_sky-total doff bytes =
    let loop = scan-total (doff * 4 - 20) (drop 20 bytes) (doff * 4 - 20) (omega arith) in
    ground (arith, loop)
