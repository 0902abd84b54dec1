-- ===== src/Prelude/Text.antt =====
-- Texts as the lists of their ASCII codes: lower case, `strings.Split`, and decimal numbers.
pub mod Decimal
pub mod Words
use Prim.Native.Char.{code}
use Prim.Native.String.{String}
use Prim.Native.Nat.{ℕ, zero, suc, ◌+◌, ◌-◌, ◌*◌, ◌/◌, ◌%◌}
use mathlib.Core.Bool.{Bool, true, false, ◌&&◌}
use mathlib.Core.Option.{Option, none, some}
use mathlib.Core.List.{List, [], ◌∷◌}
use theta_protocol_subchain.Prelude.Tests.{leb, ◌==◌, if◌then◌else◌}
use theta_protocol_subchain.Prelude.Int.{ℤ, pos, sub_ℕ}

abbrev pub Text : Type 0
Text = List ℕ

abbrev pub codes : String → Text
codes String.[] = []
codes (String.◌∷◌ c s) = code c ∷ codes s

unfoldable pub equal_text : Text → Text → Bool
equal_text [] [] = true
equal_text (c ∷ s) (d ∷ t) = c == d && equal_text s t
equal_text _ _ = false

unfoldable pub lower : ℕ → ℕ
lower c = if leb b'A' c && leb c b'Z' then c + 32 else c

unfoldable pub to_lower : Text → Text
unfolding lower
to_lower [] = []
to_lower (c ∷ s) = lower c ∷ to_lower s

unfoldable pub push_front : ℕ → List Text → List Text
push_front c [] = (c ∷ []) ∷ []
push_front c (w ∷ ws) = (c ∷ w) ∷ ws

unfoldable pub split : ℕ → Text → List Text
unfolding push_front
split sep [] = [] ∷ []
split sep (c ∷ s) = let rest = split sep s in if c == sep then [] ∷ rest else push_front c rest

unfoldable pub digits : ℕ → ℕ → Text → Text
digits zero n out = out
digits (suc fuel) n out =
    let rest = digits fuel (n / 10) ((b'0' + n % 10) ∷ out) in if n == 0 then out else rest

-- A round divides the number by ten, so that as many rounds as the number are enough.
unfoldable pub print_decimal : ℕ → Text
unfolding digits
print_decimal n = if n == 0 then b'0' ∷ [] else digits n n []

unfoldable pub scan_decimal : ℕ → Text → Option ℕ
scan_decimal n [] = some n
scan_decimal n (c ∷ s) =
    let rest = scan_decimal (n * 10 + (c - b'0')) s in
    if leb b'0' c && leb c b'9' then rest else none

unfoldable pub parse_digits : Text → Option ℕ
unfolding scan_decimal
parse_digits [] = none
parse_digits (c ∷ s) = scan_decimal 0 (c ∷ s)

-- A decimal number with an optional sign.
unfoldable pub parse_decimal : Text → Option ℤ
unfolding parse_digits
parse_decimal [] = none
parse_decimal (c ∷ s) =
    if c == b'-'
    then elim (parse_digits s) [ none ↦ none | some n ↦ some (sub_ℕ 0 n) ]
    else if c == b'+'
    then elim (parse_digits s) [ none ↦ none | some n ↦ some (pos n) ]
    else elim (parse_digits (c ∷ s)) [ none ↦ none | some n ↦ some (pos n) ]
