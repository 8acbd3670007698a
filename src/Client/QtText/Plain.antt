-- ===== src/Client/QtText/Plain.antt =====
-- One family of functions with the documented laws of Qt's strings, for concrete runs of the dialogs
-- of client/.
use xsky.Base.{
  ℕ, ◌+◌, ◌-◌, ◌/◌, ◌%◌, ◌≡◌, refl, ap, List, [], ◌∷◌, ◌++◌, none, some, arith, ◌==◌, if◌then◌else◌,
  ne→==,
}
use xsky.Client.Controller.{Text}
use xsky.Client.QtText.{QtText, IsQtText, Choice, IsChoice, IsFree, bar, colon, hex_digit}

abbrev with_head : ℕ → List Text → List Text
with_head c [] = (c ∷ []) ∷ []
with_head c (t ∷ ts) = (c ∷ t) ∷ ts

unfoldable pub split : Text → List Text
split [] = [] ∷ []
split (c ∷ t) = if c == bar then [] ∷ split t else with_head c (split t)

abbrev pub number : Choice → Text
number none = b'-' ∷ b'1' ∷ []
number (some i) = (b'0' + i) ∷ []

abbrev pub to_int : Text → Choice
to_int [] = some 0
to_int (c ∷ t) = if c == b'-' then none else some (c - b'0')

abbrev pub plain : QtText
plain = record {
  split = split;
  number = number;
  to_int = to_int;
  arg3 = λ a c b. a ++ (bar ∷ (number c ++ (bar ∷ b)));
  arg2 = λ a b. a ++ (colon ∷ b);
  hex2 = λ b. hex_digit (b / 16) ∷ hex_digit (b % 16) ∷ [];
}

split-last : (s : Text) → IsFree bar s → split s ≡ s ∷ []
unfolding split
split-last [] h = refl
split-last (c ∷ s) h = rw (ne→== c bar h.0, split-last s h.1) refl

split-bar : (s t : Text) → IsFree bar s → split (s ++ bar ∷ t) ≡ s ∷ split t
unfolding split
split-bar [] t h = refl
split-bar (c ∷ s) t h = rw (ne→== c bar h.0, split-bar s t h.1) refl

number-IsFree : (c : Choice) → IsChoice c → IsFree bar (number c)
number-IsFree none h = ((λ e. omega (arith, e)), ((λ e. omega (arith, e)), tt))
number-IsFree (some i) h = ((λ e. omega (arith, e, h)), tt)

to_int-number : (c : Choice) → IsChoice c → to_int (number c) ≡ c
to_int-number none h = refl
to_int-number (some i) h =
    rw (ne→== (b'0' + i) b'-' (λ e. omega (arith, e))) (ap some (omega arith))

pub plain-IsQtText : IsQtText plain
plain-IsQtText = record {
  split-last = split-last;
  split-bar = split-bar;
  number-IsFree = number-IsFree;
  to_int-number = to_int-number;
  arg3-free = λ a c b h. refl;
  arg2-free = λ a b h. refl;
  hex2-byte = λ b h. refl;
}
