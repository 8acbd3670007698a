-- ===== src/Client/Capture/Ethernet.antt =====
-- client/CaptureDialog.cpp: the text of an Ethernet header.
use xsky.Base.{
  ◌>>=◌, ℕ, ◌+◌, ◌/◌, ◌%◌, ◌<◌, ◌≤◌, ◌≡◌, refl, List, ◌++◌, true, some, none, arith, All, IsByte,
  byte_at, length, get_or-All, bind-none,
}
use xsky.Client.Controller.{Text}
use xsky.Client.QtText.{QtText, IsQtText, hex_digit}
use xsky.Client.Mac.{is_hex, is_mac, is_mac_tail}
use xsky.Client.Capture.{load, mac_text, load_mac, create_eth, text_src, text_dst}

hex_digit-is_hex : (n : ℕ) → n < 16 → is_hex (hex_digit n) ≡ true
unfolding is_hex
hex_digit-is_hex n h = ground (arith, h)

module _ (q : QtText) (laws : IsQtText q) where
  mac_text-is_mac :
      (a b c d e f : ℕ)
      → IsByte a
      → IsByte b
      → IsByte c
      → IsByte d
      → IsByte e
      → IsByte f
      → is_mac (mac_text q a b c d e f) ≡ true
  unfolding mac_text is_mac is_mac_tail
  mac_text-is_mac a b c d e f ha hb hc hd he hf =
      let digits = λ (x : ℕ) (h : IsByte x). hex_digit-is_hex (x / 16) (omega (arith, h)) in
      let last = λ (x : ℕ) (h : IsByte x). hex_digit-is_hex (x % 16) (omega arith) in
      rw
        (
          laws.hex2-byte a ha,
          laws.hex2-byte b hb,
          laws.hex2-byte c hc,
          laws.hex2-byte d hd,
          laws.hex2-byte e he,
          laws.hex2-byte f hf,
        )
        (rw
          (
            digits a ha,
            last a ha,
            digits b hb,
            last b hb,
            digits c hc,
            last c hc,
            digits d hd,
            last d hd,
            digits e he,
            last e he,
            digits f hf,
            last f hf,
          )
          refl)

load-byte : (bytes : List ℕ) (i : ℕ) → i < length bytes → load bytes i ≡ some (byte_at bytes i)
unfolding load
load-byte bytes i h = ground (arith, h)

load-behind : (bytes : List ℕ) (i : ℕ) → length bytes < i → load bytes i ≡ none
unfolding load
load-behind bytes i h = ground (arith, h)

-- The text of the six bytes from a place on.
abbrev pub mac_at : QtText → List ℕ → ℕ → Text
mac_at q bytes at =
    mac_text q (byte_at bytes at) (byte_at bytes (at + 1)) (byte_at bytes (at + 2))
      (byte_at bytes (at + 3)) (byte_at bytes (at + 4)) (byte_at bytes (at + 5))

load_mac-mac_at :
    (q : QtText) (bytes : List ℕ) (at : ℕ)
    → at + 5 < length bytes
    → load_mac q bytes at ≡ some (mac_at q bytes at)
unfolding load_mac
load_mac-mac_at q bytes at h =
    rw
      (
        load-byte bytes at (omega (arith, h)),
        load-byte bytes (at + 1) (omega (arith, h)),
        load-byte bytes (at + 2) (omega (arith, h)),
        load-byte bytes (at + 3) (omega (arith, h)),
        load-byte bytes (at + 4) (omega (arith, h)),
        load-byte bytes (at + 5) (omega (arith, h)),
      )
      refl

load_mac-none :
    (q : QtText) (bytes : List ℕ) (at : ℕ) → length bytes < at + 5 → load_mac q bytes at ≡ none
unfolding load_mac
load_mac-none q bytes at h =
    let fifth = λ (a b c d e : ℕ). load bytes (at + 5) >>= λ f. some (mac_text q a b c d e f) in
    let fourth = λ (a b c d : ℕ). load bytes (at + 4) >>= fifth a b c d in
    let third = λ (a b c : ℕ). load bytes (at + 3) >>= fourth a b c in
    let second = λ (a b : ℕ). load bytes (at + 2) >>= third a b in
    let first = λ (a : ℕ). load bytes (at + 1) >>= second a in
    let nothing : (a b c d e : ℕ) → fifth a b c d e ≡ none =
      λ a b c d e. rw (load-behind bytes (at + 5) h) refl in
    bind-none (load bytes at) first (λ a. bind-none (load bytes (at + 1)) (second a) (λ b.
      bind-none (load bytes (at + 2)) (third a b) (λ c.
        bind-none (load bytes (at + 3)) (fourth a b c)
          (λ d. bind-none (load bytes (at + 4)) (fifth a b c d) (nothing a b c d)))))

mac_at-is_mac :
    (q : QtText) (bytes : List ℕ) (at : ℕ)
    → IsQtText q
    → All IsByte bytes
    → is_mac (mac_at q bytes at) ≡ true
mac_at-is_mac q bytes at laws w =
    let byte = λ (i : ℕ). get_or-All IsByte bytes i 0 (omega arith) w in
    mac_text-is_mac q laws _ _ _ _ _ _ (byte at) (byte (at + 1)) (byte (at + 2)) (byte (at + 3))
      (byte (at + 4)) (byte (at + 5))

-- A packet with both addresses gets the text with its source and then its destination, each in the
-- form that the dialog of the devices asks for, and the range of the 14 bytes of the header. One that
-- is shorter than eleven bytes is read beyond its end.
pub create_eth_lem :
    (q : QtText) (bytes : List ℕ)
    → IsQtText q
    → All IsByte bytes
    → (12 ≤ length bytes
        → (create_eth q bytes
            ≡ some (text_src q ++ mac_at q bytes 6 ++ text_dst q ++ mac_at q bytes 0, 0, 14))
          × (is_mac (mac_at q bytes 6) ≡ true)
          × (is_mac (mac_at q bytes 0) ≡ true))
      × (length bytes < 11 → create_eth q bytes ≡ none)
unfolding create_eth
create_eth_lem q bytes laws w = (
  (λ h. (
    rw (load_mac-mac_at q bytes 6 (omega (arith, h)), load_mac-mac_at q bytes 0 (omega (arith, h)))
        refl,
    mac_at-is_mac q bytes 6 laws w,
    mac_at-is_mac q bytes 0 laws w,
  )),
  (λ h. rw (load_mac-none q bytes 6 (omega (arith, h))) refl),
)
