-- ===== src/Base/Words.antt =====
-- Bytes, 16-bit and 32-bit words, and network byte order on a host of either kind.
use Prim.Native.Nat.{ℕ, ◌+◌, ◌*◌, ◌/◌, ◌%◌, ◌^◌, ◌<◌}
use mathlib.Core.Path.{◌≡◌}
use mathlib.Core.List.{List}
use native.Mathlib.Omega.{arith}
use xsky.Base.Lists.{get_or}

-- Byte order of the machine that runs the code.
pub data Endian : Type 0 where
  little big : Endian

abbrev pub IsByte : ℕ → Type 0
IsByte b = b < 256

abbrev pub IsWord : ℕ → Type 0
IsWord w = w < 2 ^ 16

abbrev swap16 : ℕ → ℕ
swap16 w = w % 256 * 256 + w / 256 % 256

-- `htons` and `ntohs` of the host's library: a 16-bit swap on a little-endian host.
abbrev pub htons : Endian → ℕ → ℕ
htons little w = swap16 w
htons big w = w % 2 ^ 16

abbrev pub ntohs : Endian → ℕ → ℕ
ntohs little w = swap16 w
ntohs big w = w % 2 ^ 16

ntohs-htons : (e : Endian) (w : ℕ) → IsWord w → ntohs e (htons e w) ≡ w
ntohs-htons little w h = omega arith
ntohs-htons big w h = omega arith

htons-IsWord : (e : Endian) (w : ℕ) → IsWord (htons e w)
htons-IsWord little w = omega arith
htons-IsWord big w = omega arith

-- The byte of an array at an index; the model has 0 beyond its end.
abbrev pub byte_at : List ℕ → ℕ → ℕ
byte_at bs i = get_or bs i 0
