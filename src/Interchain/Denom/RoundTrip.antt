-- ===== src/Interchain/Denom/RoundTrip.antt =====
-- core/inter_chain_message_event.go: what is read back from the denominations that the code makes.
use theta_protocol_subchain.Prelude.{
  ℕ, ◌≡◌, ◌∙◌, refl, ap, Bool, true, some, List, [], ◌∷◌, ◌++◌, arith,
}
use theta_protocol_subchain.Prelude.Int.{pos}
use theta_protocol_subchain.Prelude.Text.{Text, to_lower, equal_text, split, print_decimal}
use theta_protocol_subchain.Prelude.Text.Decimal.{print_decimal-IsDigit, parse_decimal-print}
use theta_protocol_subchain.Prelude.Text.Words.{
  Lacks, split-print_decimal, split-Lacks, to_lower-append, to_lower_idem, to_lower-IsDigit,
  equal_text_refl,
}
use theta_protocol_subchain.Interchain.Denom.{
  CrossChainTokenType, tfuel, tnt20, tnt721, tnt1155, token_number, tfuel_address_placeholder,
  three_parts, denom, is_lower_case, to_token_type, known_type, validate_address, validate_denom,
  validate_parts, type_of_parts, extract_originated_chain_id_from_denom,
  extract_cross_chain_token_type_from_denom,
}

-- What the last part of a denomination says of the address.
address_part : CrossChainTokenType → Text → Text
address_part tfuel hex = tfuel_address_placeholder
address_part tnt20 hex = hex
address_part tnt721 hex = hex
address_part tnt1155 hex = hex

denom-three_parts :
    (token : CrossChainTokenType) (chain : ℕ) (hex : Text)
    → denom token chain hex
      ≡ three_parts
          (print_decimal chain)
          (print_decimal (token_number token))
          (address_part token hex)
unfolding denom address_part
denom-three_parts tfuel chain hex = refl
denom-three_parts tnt20 chain hex = refl
denom-three_parts tnt721 chain hex = refl
denom-three_parts tnt1155 chain hex = refl

to_lower-slash : (s : Text) → to_lower (b'/' ∷ s) ≡ b'/' ∷ to_lower s
unfolding to_lower
to_lower-slash s = refl

to_lower-print_decimal :
    (n : ℕ) (s : Text)
    → to_lower (print_decimal n ++ b'/' ∷ s) ≡ print_decimal n ++ b'/' ∷ to_lower s
to_lower-print_decimal n s =
    to_lower-append (print_decimal n) (b'/' ∷ s)
    ∙ ap (λ (r : Text). r ++ to_lower (b'/' ∷ s))
        (to_lower-IsDigit (print_decimal n) (print_decimal-IsDigit n))
    ∙ ap (λ (r : Text). print_decimal n ++ r) (to_lower-slash s)

three_parts_lem :
    (a b : ℕ) (c : Text)
    → three_parts (print_decimal a) (print_decimal b) c
      ≡ print_decimal a ++ b'/' ∷ (print_decimal b ++ b'/' ∷ to_lower c)
unfolding three_parts
three_parts_lem a b c =
    to_lower-print_decimal a (print_decimal b ++ b'/' ∷ c)
    ∙ ap (λ (r : Text). print_decimal a ++ b'/' ∷ r) (to_lower-print_decimal b c)

split-three_parts :
    (a b : ℕ) (c : Text)
    → Lacks b'/' (to_lower c)
    → split b'/' (three_parts (print_decimal a) (print_decimal b) c)
      ≡ print_decimal a ∷ print_decimal b ∷ to_lower c ∷ []
split-three_parts a b c lacks =
    ap (split b'/') (three_parts_lem a b c)
    ∙ split-print_decimal a (print_decimal b ++ b'/' ∷ to_lower c)
    ∙ ap (λ (r : List Text). print_decimal a ∷ r)
        (split-print_decimal b (to_lower c)
          ∙ ap (λ (r : List Text). print_decimal b ∷ r) (split-Lacks b'/' (to_lower c) lacks))

is_lower_case-three_parts : (a b c : Text) → is_lower_case (three_parts a b c) ≡ true
unfolding is_lower_case three_parts
is_lower_case-three_parts a b c =
    let s : Text = a ++ b'/' ∷ (b ++ b'/' ∷ c) in
    ap (equal_text (to_lower s)) (to_lower_idem s) ∙ equal_text_refl (to_lower s)

to_token_type-number :
    (token : CrossChainTokenType) → to_token_type (pos (token_number token)) ≡ some token
unfolding to_token_type
to_token_type-number tfuel = refl
to_token_type-number tnt20 = refl
to_token_type-number tnt721 = refl
to_token_type-number tnt1155 = refl

-- The address of a denomination as it is tested: the text in lower case has no slash, and the main
-- chain's test on addresses accepts it.
abbrev pub IsAddress : (Text → Bool) → CrossChainTokenType → Text → Type 0
IsAddress is_hex_address tfuel hex = Unit
IsAddress is_hex_address tnt20 hex =
    Lacks b'/' (to_lower hex) × (is_hex_address (to_lower hex) ≡ true)
IsAddress is_hex_address tnt721 hex =
    Lacks b'/' (to_lower hex) × (is_hex_address (to_lower hex) ≡ true)
IsAddress is_hex_address tnt1155 hex =
    Lacks b'/' (to_lower hex) × (is_hex_address (to_lower hex) ≡ true)

module _ (is_hex_address : Text → Bool) (chain : ℕ) (hex : Text) where
  address_part-Lacks :
      (token : CrossChainTokenType)
      → IsAddress is_hex_address token hex
      → Lacks b'/' (to_lower (address_part token hex))
  unfolding address_part to_lower
  address_part-Lacks tfuel h = omega arith
  address_part-Lacks tnt20 h = h.0
  address_part-Lacks tnt721 h = h.0
  address_part-Lacks tnt1155 h = h.0

  validate_address-part :
      (token : CrossChainTokenType)
      → IsAddress is_hex_address token hex
      → validate_address is_hex_address token (to_lower (address_part token hex)) ≡ true
  unfolding address_part validate_address to_lower
  validate_address-part tfuel h = refl
  validate_address-part tnt20 h = h.1
  validate_address-part tnt721 h = h.1
  validate_address-part tnt1155 h = h.1

  split-denom :
      (token : CrossChainTokenType)
      → IsAddress is_hex_address token hex
      → split b'/' (denom token chain hex)
        ≡ print_decimal chain
          ∷ print_decimal (token_number token)
          ∷ to_lower (address_part token hex)
          ∷ []
  split-denom token h =
      ap (split b'/') (denom-three_parts token chain hex)
      ∙ split-three_parts chain (token_number token) (address_part token hex)
          (address_part-Lacks token h)

  validate_denom-denom :
      (token : CrossChainTokenType)
      → IsAddress is_hex_address token hex
      → validate_denom is_hex_address (denom token chain hex) ≡ true
  unfolding validate_denom validate_parts
  validate_denom-denom token h =
      let low : is_lower_case (denom token chain hex) ≡ true =
        ap is_lower_case (denom-three_parts token chain hex)
        ∙ is_lower_case-three_parts (print_decimal chain) (print_decimal (token_number token))
            (address_part token hex) in
      rw (low, split-denom token h, validate_parts)
        (rw (parse_decimal-print (token_number token), to_token_type-number token)
          (validate_address-part token h))

  -- A denomination that the code makes of a chain and a token passes `ValidateDenom`, gives back
  -- the chain, and gives back the token type, which for TNT1155 is an error. Of a token with a
  -- contract, the address in lower case is assumed to have no slash and to be accepted by the
  -- test on addresses.
  pub denom_lem :
      (token : CrossChainTokenType)
      → IsAddress is_hex_address token hex
      → (validate_denom is_hex_address (denom token chain hex) ≡ true)
        × (extract_originated_chain_id_from_denom (denom token chain hex) ≡ some (pos chain))
        × (extract_cross_chain_token_type_from_denom (denom token chain hex) ≡ known_type token)
  unfolding extract_originated_chain_id_from_denom extract_cross_chain_token_type_from_denom
  denom_lem token h = (
    validate_denom-denom token h,
    rw (split-denom token h) (parse_decimal-print chain),
    rw (split-denom token h, type_of_parts)
        (rw (parse_decimal-print (token_number token), to_token_type-number token) refl),
  )
