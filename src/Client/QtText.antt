-- ===== src/Client/QtText.antt =====
-- What client/DomainListDialog.cpp, client/DeviceListDialog.cpp, client/ServerListDialog.cpp and
-- client/CaptureDialog.cpp use of Qt's strings, as a parameter with its documented laws.
pub mod Plain
use xsky.Base.{
  ℕ, ltb, if◌then◌else◌, ◌+◌, ◌-◌, ◌/◌, ◌%◌, ◌<◌, ◌≡◌, ◌≢◌, List, [], ◌∷◌, ◌++◌, Option, none, some,
  All, IsByte,
}
use xsky.Client.Controller.{Text}

abbrev pub bar : ℕ
bar = b'|'

abbrev pub percent : ℕ
percent = b'%'

abbrev pub colon : ℕ
colon = b':'

-- The numbers of the entries of a combo box, and -1 where none is selected.
abbrev pub Choice : Type 0
Choice = Option ℕ

abbrev pub IsChoice : Choice → Type 0
IsChoice none = Unit {0}
IsChoice (some i) = i < 3

-- `split( "|" )`, `QString::number`, `toInt` with none for a negative number,
-- `QString( "%1|%2|%3" ).arg( a ).arg( i ).arg( b )`, `QString( "%1:%2" ).arg( a ).arg( b )`, and
-- what `arg( b, 2, 16, QLatin1Char( '0' ) )` puts in.
pub record QtText : Type 0 where
  pub split : Text → List Text
  pub number : Choice → Text
  pub to_int : Text → Choice
  pub arg3 : Text → Choice → Text → Text
  pub arg2 : Text → Text → Text
  pub hex2 : ℕ → Text

-- In lower case.
abbrev pub hex_digit : ℕ → ℕ
hex_digit n = if ltb n 10 then b'0' + n else b'a' + (n - 10)

abbrev pub IsFree : ℕ → Text → Type 0
IsFree c t = All (λ d. d ≢ c) t

pub record IsQtText (q : QtText) : Type 0 where
  pub split-last : (s : Text) → IsFree bar s → q.split s ≡ s ∷ []
  pub split-bar : (s t : Text) → IsFree bar s → q.split (s ++ bar ∷ t) ≡ s ∷ q.split t
  pub number-IsFree : (c : Choice) → IsChoice c → IsFree bar (q.number c)
  pub to_int-number : (c : Choice) → IsChoice c → q.to_int (q.number c) ≡ c
  pub arg3-free :
      (a : Text) (c : Choice) (b : Text)
      → IsFree percent a
      → q.arg3 a c b ≡ a ++ (bar ∷ (q.number c ++ (bar ∷ b)))
  pub arg2-free : (a b : Text) → IsFree percent a → q.arg2 a b ≡ a ++ (colon ∷ b)
  pub hex2-byte : (b : ℕ) → IsByte b → q.hex2 b ≡ hex_digit (b / 16) ∷ hex_digit (b % 16) ∷ []
