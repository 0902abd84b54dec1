-- ===== src/Prelude/Text/Words.antt =====
-- The words of a text, and its lower case.
use theta_protocol_subchain.Prelude.Lists.{All}
use theta_protocol_subchain.Prelude.Text.{
  Text, equal_text, lower, to_lower, push_front, split, print_decimal,
}
use theta_protocol_subchain.Prelude.Text.Decimal.{IsDigit, print_decimal-IsDigit}
use Prim.Native.Nat.{ℕ}
use mathlib.Core.Path.{◌≡◌, refl, ap}
use mathlib.Core.Logic.{◌≢◌, ◌↔◌}
use mathlib.Core.Bool.{true}
use mathlib.Core.List.{[], ◌∷◌, ◌++◌}
use native.Mathlib.Omega.{arith}

-- The text does not have the code.
abbrev pub Lacks : ℕ → Text → Type 0
Lacks sep = All (λ c. c ≢ sep)

pub split-append : (sep : ℕ) (w s : Text) → Lacks sep w → split sep (w ++ sep ∷ s) ≡ w ∷ split sep s
unfolding split
split-append sep [] s h = ground arith
split-append sep (c ∷ w) s h = ground (arith, push_front, split-append sep w s h.1)

pub split-Lacks : (sep : ℕ) (w : Text) → Lacks sep w → split sep w ≡ w ∷ []
unfolding split push_front
split-Lacks sep [] h = refl
split-Lacks sep (c ∷ w) h = ground (arith, split-Lacks sep w h.1)

pub to_lower-append : (s t : Text) → to_lower (s ++ t) ≡ to_lower s ++ to_lower t
unfolding to_lower
to_lower-append [] t = refl
to_lower-append (c ∷ s) t = ap (λ (r : Text). lower c ∷ r) (to_lower-append s t)

pub to_lower_idem : (s : Text) → to_lower (to_lower s) ≡ to_lower s
unfolding to_lower lower
to_lower_idem [] = refl
to_lower_idem (c ∷ s) = ground (arith, to_lower_idem s)

pub to_lower-IsDigit : (s : Text) → All IsDigit s → to_lower s ≡ s
unfolding to_lower lower
to_lower-IsDigit [] h = refl
to_lower-IsDigit (c ∷ s) h = ground (arith, to_lower-IsDigit s h.1)

Lacks-IsDigit : (s : Text) → All IsDigit s → Lacks b'/' s
Lacks-IsDigit [] h = tt
Lacks-IsDigit (c ∷ s) h = (λ e. absurd (omega arith), Lacks-IsDigit s h.1)

pub equal_text_refl : (s : Text) → equal_text s s ≡ true
unfolding equal_text
equal_text_refl [] = refl
equal_text_refl (c ∷ s) = ground (arith, equal_text_refl s)

equal_text→eq : (s t : Text) → equal_text s t ≡ true → s ≡ t
unfolding equal_text
equal_text→eq [] [] h = refl
equal_text→eq [] (d ∷ t) h = cc
equal_text→eq (c ∷ s) [] h = cc
equal_text→eq (c ∷ s) (d ∷ t) h = ground (arith, equal_text→eq s t)

pub equal_text_iff : (s t : Text) → (equal_text s t ≡ true) ↔ (s ≡ t)
equal_text_iff s t = (equal_text→eq s t, λ e. rw e (equal_text_refl t))

pub split-print_decimal :
    (n : ℕ) (s : Text) → split b'/' (print_decimal n ++ b'/' ∷ s) ≡ print_decimal n ∷ split b'/' s
split-print_decimal n s =
    split-append b'/' (print_decimal n) s
      (Lacks-IsDigit (print_decimal n) (print_decimal-IsDigit n))

pub split-print_decimal_last : (n : ℕ) → split b'/' (print_decimal n) ≡ print_decimal n ∷ []
split-print_decimal_last n =
    split-Lacks b'/' (print_decimal n) (Lacks-IsDigit (print_decimal n) (print_decimal-IsDigit n))
