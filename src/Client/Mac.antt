-- ===== src/Client/Mac.antt =====
-- client/DeviceListDialog.cpp and client/CaptureDialog.cpp: the form of a hardware address.
use xsky.Base.{
  ℕ, zero, suc, ◌≡◌, ◌≢◌, refl, [], ◌∷◌, Bool, true, false, ◌&&◌, ◌||◌, leb, ◌==◌, arith,
}
use xsky.Client.Controller.{Text}
use xsky.Client.QtText.{colon, percent, IsFree}

-- `[a-fA-F0-9]`
unfoldable pub is_hex : ℕ → Bool
is_hex c = leb b'a' c && leb c b'f' || (leb b'A' c && leb c b'F' || leb b'0' c && leb c b'9')

-- `(:[a-fA-F0-9]{2}){n}`, to the end of the text.
unfoldable pub is_mac_tail : ℕ → Text → Bool
is_mac_tail zero [] = true
is_mac_tail zero (c ∷ t) = false
is_mac_tail (suc n) [] = false
is_mac_tail (suc n) (c ∷ []) = false
is_mac_tail (suc n) (c ∷ h ∷ []) = false
is_mac_tail (suc n) (c ∷ h ∷ l ∷ t) = c == colon && (is_hex h && (is_hex l && is_mac_tail n t))

-- `exactMatch` with `[a-fA-F0-9]{2}(:[a-fA-F0-9]{2}){5}`
unfoldable pub is_mac : Text → Bool
is_mac [] = false
is_mac (h ∷ []) = false
is_mac (h ∷ l ∷ t) = is_hex h && (is_hex l && is_mac_tail 5 t)

-- 00:00:00:00:00:00
abbrev pub zero_mac : Text
zero_mac =
    b'0' ∷ b'0' ∷ b':' ∷ b'0' ∷ b'0' ∷ b':' ∷ b'0' ∷ b'0' ∷ b':' ∷ b'0' ∷ b'0' ∷ b':' ∷ b'0' ∷ b'0'
    ∷ b':' ∷ b'0' ∷ b'0' ∷ []

-- No such text has a percent sign.
is_hex-percent : (c : ℕ) → is_hex c ≡ true → c ≢ percent
unfolding is_hex
is_hex-percent c h e = ground (arith, h, e)

is_mac_tail-IsFree : (n : ℕ) (t : Text) → is_mac_tail n t ≡ true → IsFree percent t
unfolding is_mac_tail
is_mac_tail-IsFree zero [] h = tt
is_mac_tail-IsFree zero (c ∷ t) h = absurd (ground (arith, h))
is_mac_tail-IsFree (suc n) [] h = absurd (ground (arith, h))
is_mac_tail-IsFree (suc n) (c ∷ []) h = absurd (ground (arith, h))
is_mac_tail-IsFree (suc n) (c ∷ x ∷ []) h = absurd (ground (arith, h))
is_mac_tail-IsFree (suc n) (c ∷ x ∷ l ∷ t) h = (
  ground (arith, h),
  (
    is_hex-percent x (ground (arith, h)),
    (is_hex-percent l (ground (arith, h)), is_mac_tail-IsFree n t (ground (arith, h))),
  ),
)

pub is_mac-IsFree : (t : Text) → is_mac t ≡ true → IsFree percent t
unfolding is_mac
is_mac-IsFree [] h = absurd (ground (arith, h))
is_mac-IsFree (x ∷ []) h = absurd (ground (arith, h))
is_mac-IsFree (x ∷ l ∷ t) h = (
  is_hex-percent x (ground (arith, h)),
  (is_hex-percent l (ground (arith, h)), is_mac_tail-IsFree 5 t (ground (arith, h))),
)

pub zero_mac_lem : is_mac zero_mac ≡ true
unfolding is_mac is_mac_tail is_hex
zero_mac_lem = refl
