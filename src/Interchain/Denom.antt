-- ===== src/Interchain/Denom.antt =====
-- core/inter_chain_message_event.go: the denominations of tokens, ASCII texts. `IsHexAddress` and
-- `Hex` of addresses are the main chain's.
pub mod RoundTrip
use theta_protocol_subchain.Prelude.{
  ℕ, Bool, true, false, Option, none, some, List, [], ◌∷◌, ◌++◌, ◌==◌, if◌then◌else◌,
}
use theta_protocol_subchain.Prelude.Int.{ℤ, pos, negsuc}
use theta_protocol_subchain.Prelude.Text.{
  Text, codes, equal_text, to_lower, split, print_decimal, parse_decimal,
}

pub data CrossChainTokenType : Type 0 where
  tfuel tnt20 tnt721 tnt1155 : CrossChainTokenType

abbrev pub token_number : CrossChainTokenType → ℕ
token_number tfuel = 0
token_number tnt20 = 20
token_number tnt721 = 721
token_number tnt1155 = 1155

abbrev pub tfuel_address_placeholder : Text
tfuel_address_placeholder = codes "0x0000000000000000000000000000000000000000"

unfoldable pub three_parts : Text → Text → Text → Text
three_parts a b c = to_lower (a ++ b'/' ∷ (b ++ b'/' ∷ c))

-- The denomination of a token of a type, whose contract has the address with that text in Hex.
unfoldable pub denom : CrossChainTokenType → ℕ → Text → Text
unfolding three_parts print_decimal
denom tfuel chain hex =
    three_parts (print_decimal chain) (print_decimal (token_number tfuel)) tfuel_address_placeholder
denom tnt20 chain hex = three_parts (print_decimal chain) (print_decimal (token_number tnt20)) hex
denom tnt721 chain hex = three_parts (print_decimal chain) (print_decimal (token_number tnt721)) hex
denom tnt1155 chain hex =
    three_parts (print_decimal chain) (print_decimal (token_number tnt1155)) hex

unfoldable pub is_lower_case : Text → Bool
unfolding equal_text to_lower
is_lower_case s = equal_text s (to_lower s)

-- `none` stands for the number of no type.
unfoldable pub to_token_type : ℤ → Option CrossChainTokenType
to_token_type (negsuc _) = none
to_token_type (pos n) =
    if n == 0
    then some tfuel
    else if n == 20
    then some tnt20
    else if n == 721
    then some tnt721
    else if n == 1155
    then some tnt1155
    else none

module _ (is_hex_address : Text → Bool) where
  unfoldable pub validate_address : CrossChainTokenType → Text → Bool
  unfolding equal_text
  validate_address tfuel address = equal_text address tfuel_address_placeholder
  validate_address tnt20 address = is_hex_address address
  validate_address tnt721 address = is_hex_address address
  validate_address tnt1155 address = is_hex_address address

  unfoldable pub validate_parts : List Text → Bool
  unfolding parse_decimal to_token_type validate_address
  validate_parts (_ ∷ number ∷ address ∷ []) = elim (parse_decimal number) [
    | none ↦ false
    | some n ↦ elim (to_token_type n) [ none ↦ false | some token ↦ validate_address token address ]
  ]
  validate_parts _ = false

  unfoldable pub validate_denom : Text → Bool
  unfolding is_lower_case split validate_parts
  validate_denom s = if is_lower_case s then validate_parts (split b'/' s) else false

unfoldable pub chain_of_parts : List Text → Option ℤ
unfolding parse_decimal
chain_of_parts (chain ∷ _ ∷ _ ∷ []) = parse_decimal chain
chain_of_parts _ = none

unfoldable pub extract_originated_chain_id_from_denom : Text → Option ℤ
unfolding split chain_of_parts
extract_originated_chain_id_from_denom s = chain_of_parts (split b'/' s)

-- The TNT1155 type is left out here.
unfoldable pub known_type : CrossChainTokenType → Option CrossChainTokenType
known_type tnt1155 = none
known_type token = some token

unfoldable pub type_of_parts : List Text → Option CrossChainTokenType
unfolding parse_decimal to_token_type known_type
type_of_parts (_ ∷ number ∷ _ ∷ []) = elim (parse_decimal number) [
  | none ↦ none
  | some n ↦ elim (to_token_type n) [ none ↦ none | some token ↦ known_type token ]
]
type_of_parts _ = none

unfoldable pub extract_cross_chain_token_type_from_denom : Text → Option CrossChainTokenType
unfolding split type_of_parts
extract_cross_chain_token_type_from_denom s = type_of_parts (split b'/' s)
