-- ===== src/Interchain/Events.antt =====
-- core/inter_chain_message_event.go: the events, and what their data says. `crypto` and the ABI decoder
-- are parameters: the decoder gives the fields of all kinds of events in one record, of which each kind
-- has some.
use theta_protocol_subchain.Prelude.{
  ℕ, ◌+◌, Bool, false, not, Option, none, some, ◌∷◌, ◌++◌, ◌==◌, if◌then◌else◌,
}
use theta_protocol_subchain.Prelude.Int.{pos, eqb_ℤ}
use theta_protocol_subchain.Prelude.Text.{Text, to_lower, print_decimal}
use theta_protocol_subchain.Interchain.Denom.{
  CrossChainTokenType, tfuel, tnt20, tnt721, tnt1155, validate_denom,
  extract_originated_chain_id_from_denom,
}

-- One constructor for the four types of each kind.
pub data InterChainMessageEventType : Type 0 where
  unknown : InterChainMessageEventType
  token_lock voucher_mint token_unlock voucher_burn :
      CrossChainTokenType → InterChainMessageEventType

abbrev pub token_index : CrossChainTokenType → ℕ
token_index tfuel = 1
token_index tnt20 = 2
token_index tnt721 = 3
token_index tnt1155 = 4

abbrev pub type_number : InterChainMessageEventType → ℕ
type_number unknown = 0
type_number (token_lock token) = 10000 + token_index token
type_number (voucher_mint token) = 20000 + token_index token
type_number (token_unlock token) = 30000 + token_index token
type_number (voucher_burn token) = 40000 + token_index token

pub record InterChainMessageEvent : Type 0 where
  pub event_type : InterChainMessageEventType
  pub source_chain_id : ℕ
  pub target_chain_id : ℕ
  pub sender : ℕ
  pub receiver : ℕ
  pub payload : Text
  pub nonce : ℕ
  pub block_height : ℕ

unfoldable pub event_id : (Text → ℕ) → InterChainMessageEvent → ℕ
event_id keccak e = keccak (
    print_decimal (type_number e.event_type)
    ++ b'/' ∷ (print_decimal e.source_chain_id ++ b'/' ∷ print_decimal e.nonce))

-- The fields of the events `TokenLocked` and `VoucherBurned`; `receiver` is the receiver on the target
-- chain.
pub record EventData : Type 0 where
  pub denom : Text
  pub target_chain_id : ℕ
  pub receiver : ℕ
  pub amount : ℕ
  pub token_id : ℕ
  pub name : Text
  pub symbol : Text
  pub decimals : ℕ
  pub token_uri : Text
  pub nonce : ℕ

pub record Decoder : Type 0 where
  pub is_hex_address : Text → Bool
  pub unpack : InterChainMessageEventType → Text → EventData

module _ (d : Decoder) where
  -- The checks of a denomination that belongs to a chain.
  unfoldable pub denom_is_of : Text → ℕ → Bool
  unfolding validate_denom extract_originated_chain_id_from_denom
  denom_is_of denom chain =
      if validate_denom d.is_hex_address denom
      then elim (extract_originated_chain_id_from_denom denom) [
        | none ↦ false
        | some originated ↦ eqb_ℤ (pos chain) originated
      ]
      else false

  -- The denomination of a locked TFuel is left as it is.
  unfoldable pub normalized : CrossChainTokenType → EventData → EventData
  unfolding to_lower
  normalized tfuel e = e
  normalized tnt20 e = record e { denom = to_lower e.denom }
  normalized tnt721 e = record e { denom = to_lower e.denom }
  normalized tnt1155 e = record e { denom = to_lower e.denom }

  unfoldable pub parse_token_locked :
      CrossChainTokenType → InterChainMessageEvent → Option EventData
  unfolding denom_is_of normalized
  parse_token_locked token e =
      if not (type_number e.event_type == type_number (token_lock token))
      then none
      else let event = normalized token (d.unpack (token_lock token) e.payload) in
        if denom_is_of event.denom e.source_chain_id then some event else none

  unfoldable pub parse_voucher_burned :
      CrossChainTokenType → InterChainMessageEvent → Option EventData
  unfolding denom_is_of
  parse_voucher_burned token e =
      if not (type_number e.event_type == type_number (voucher_burn token))
      then none
      else let event = d.unpack (voucher_burn token) e.payload in
        if denom_is_of event.denom e.target_chain_id then some event else none
