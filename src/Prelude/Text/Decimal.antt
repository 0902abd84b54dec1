-- ===== src/Prelude/Text/Decimal.antt =====
-- A number is read back from its decimal print.
use theta_protocol_subchain.Prelude.Tests.{◌==◌, Bool-cases}
use theta_protocol_subchain.Prelude.Lists.{All}
use theta_protocol_subchain.Prelude.Int.{pos}
use theta_protocol_subchain.Prelude.Text.{
  Text, digits, print_decimal, scan_decimal, parse_digits, parse_decimal,
}
use Prim.Native.Nat.{ℕ, zero, suc, ◌+◌, ◌/◌, ◌%◌, ◌≤◌}
use mathlib.Core.Path.{◌≡◌, refl, ◌∙◌}
use mathlib.Core.Logic.{inl, inr}
use mathlib.Core.Bool.{false}
use mathlib.Core.Option.{some}
use mathlib.Core.List.{[], ◌∷◌}
use native.Mathlib.Omega.{arith}

abbrev pub IsDigit : ℕ → Type 0
IsDigit c = (b'0' ≤ c) × (c ≤ b'9')

-- A text that begins with a digit.
abbrev pub HeadIsDigit : Text → Type 0
HeadIsDigit [] = ⊥
HeadIsDigit (c ∷ s) = IsDigit c

scan_decimal_last :
    (n : ℕ) (out : Text) → scan_decimal (n / 10) ((b'0' + n % 10) ∷ out) ≡ scan_decimal n out
unfolding scan_decimal
scan_decimal_last n out = ground arith

scan_decimal-digits :
    (fuel n : ℕ) (out : Text) → n ≤ fuel → scan_decimal 0 (digits fuel n out) ≡ scan_decimal n out
unfolding digits
scan_decimal-digits zero n out h = let e : n ≡ 0 = omega arith in rw e refl
scan_decimal-digits (suc fuel) n out h = elim (Bool-cases (n == 0)) [
  | inl e ↦ rw e (let z : n ≡ 0 = ground arith in rw z refl)
  | inr e ↦ rw e (
      scan_decimal-digits fuel (n / 10) ((b'0' + n % 10) ∷ out) (ground arith)
      ∙ scan_decimal_last n out)
]

digits-HeadIsDigit_on :
    (fuel n : ℕ) (out : Text) → HeadIsDigit out → HeadIsDigit (digits fuel n out)
unfolding digits
digits-HeadIsDigit_on zero n out h = h
digits-HeadIsDigit_on (suc fuel) n out h = elim (Bool-cases (n == 0)) [
  | inl e ↦ rw e h
  | inr e ↦
      rw e (digits-HeadIsDigit_on fuel (n / 10) ((b'0' + n % 10) ∷ out) (omega arith, omega arith))
]

digits-IsDigit : (fuel n : ℕ) (out : Text) → All IsDigit out → All IsDigit (digits fuel n out)
unfolding digits
digits-IsDigit zero n out h = h
digits-IsDigit (suc fuel) n out h = elim (Bool-cases (n == 0)) [
  | inl e ↦ rw e h
  | inr e ↦
      rw e (digits-IsDigit fuel (n / 10) ((b'0' + n % 10) ∷ out) ((omega arith, omega arith), h))
]

digits-HeadIsDigit : (fuel n : ℕ) → (n == 0) ≡ false → n ≤ fuel → HeadIsDigit (digits fuel n [])
unfolding digits
digits-HeadIsDigit zero n e h = absurd (ground arith)
digits-HeadIsDigit (suc fuel) n e h =
    rw e (digits-HeadIsDigit_on fuel (n / 10) ((b'0' + n % 10) ∷ []) (omega arith, omega arith))

print_decimal-HeadIsDigit : (n : ℕ) → HeadIsDigit (print_decimal n)
unfolding print_decimal
print_decimal-HeadIsDigit n = elim (Bool-cases (n == 0)) [
  | inl e ↦ rw e (omega arith, omega arith)
  | inr e ↦ rw e (digits-HeadIsDigit n n e (omega arith))
]

pub print_decimal-IsDigit : (n : ℕ) → All IsDigit (print_decimal n)
unfolding print_decimal
print_decimal-IsDigit n = elim (Bool-cases (n == 0)) [
  | inl e ↦ rw e ((omega arith, omega arith), tt)
  | inr e ↦ rw e (digits-IsDigit n n [] tt)
]

scan_decimal-print : (n : ℕ) → scan_decimal 0 (print_decimal n) ≡ some n
unfolding print_decimal scan_decimal
scan_decimal-print n = elim (Bool-cases (n == 0)) [
  | inl e ↦ rw e (let z : n ≡ 0 = ground arith in rw z refl)
  | inr e ↦ rw e (scan_decimal-digits n n [] (omega arith))
]

parse_decimal-scan :
    (s : Text) (n : ℕ) → HeadIsDigit s → scan_decimal 0 s ≡ some n → parse_decimal s ≡ some (pos n)
unfolding parse_decimal parse_digits
parse_decimal-scan [] n d e = absurd d
parse_decimal-scan (c ∷ s) n d e = ground arith

pub parse_decimal-print : (n : ℕ) → parse_decimal (print_decimal n) ≡ some (pos n)
parse_decimal-print n =
    parse_decimal-scan (print_decimal n) n (print_decimal-HeadIsDigit n) (scan_decimal-print n)
