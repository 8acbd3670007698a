-- ===== src/Client/Controller/Same.antt =====
-- client/Controller.cpp: equality of texts and of lists of texts.
use xsky.Base.{ℕ, ◌≡◌, refl, ap₂, List, [], ◌∷◌, true, arith, ◌==◌, ==_iff, and_left, and_right}
use xsky.Client.Controller.{Text, same_text, same_list}

pub same_text-eq : (s t : Text) → same_text s t ≡ true → s ≡ t
unfolding same_text
same_text-eq [] [] e = refl
same_text-eq [] (d ∷ t) e = absurd (ground (arith, e))
same_text-eq (c ∷ s) [] e = absurd (ground (arith, e))
same_text-eq (c ∷ s) (d ∷ t) e =
    ap₂ (λ (x : ℕ) (y : Text). x ∷ y) ((==_iff c d).0 (and_left (c == d) (same_text s t) e))
      (same_text-eq s t (and_right (c == d) (same_text s t) e))

pub same_list-eq : (xs ys : List Text) → same_list xs ys ≡ true → xs ≡ ys
unfolding same_list
same_list-eq [] [] e = refl
same_list-eq [] (y ∷ ys) e = absurd (ground (arith, e))
same_list-eq (x ∷ xs) [] e = absurd (ground (arith, e))
same_list-eq (x ∷ xs) (y ∷ ys) e =
    ap₂ (λ (a : Text) (b : List Text). a ∷ b)
      (same_text-eq x y (and_left (same_text x y) (same_list xs ys) e))
      (same_list-eq xs ys (and_right (same_text x y) (same_list xs ys) e))
