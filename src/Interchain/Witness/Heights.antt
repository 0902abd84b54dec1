-- ===== src/Interchain/Witness/Heights.antt =====
-- interchain/witness/metachain_witness.go: the height from which a new node scans a chain.
use theta_protocol_subchain.Prelude.{
  ℕ, ◌-◌, ◌^◌, Bool, true, false, Option, none, some, List, [], ◌∷◌, ltb, ◌==◌, if◌then◌else◌,
}
use theta_protocol_subchain.Interchain.Denom.{CrossChainTokenType, tfuel, tnt20, tnt721, tnt1155}
use theta_protocol_subchain.Interchain.Events.{InterChainMessageEventType, token_lock, voucher_burn}

-- The queries of a token bank, for a chain and a nonce, and of the block number; `none` is an error.
pub record TokenBank : Type 0 where
  pub max_processed_token_lock_nonce : ℕ → Option ℕ
  pub max_processed_voucher_burn_nonce : ℕ → Option ℕ
  pub token_lock_event_height : ℕ → ℕ → Option ℕ
  pub voucher_burn_event_height : ℕ → ℕ → Option ℕ

pub record Chain : Type 0 where
  pub bank : CrossChainTokenType → TokenBank
  pub block_number : Option ℕ

-- The number without its error.
unfoldable pub number_or_zero : Option ℕ → ℕ
number_or_zero none = 0
number_or_zero (some n) = n

-- The end of the two functions below: a failed query gives 0, and where no event has been processed it
-- is the block number.
unfoldable pub height_for : Option ℕ → Option ℕ → (ℕ → Option ℕ) → ℕ
unfolding number_or_zero
height_for block_number none event_height = 0
height_for block_number (some nonce) event_height = elim (event_height nonce) [
  | none ↦ 0
  | some height ↦ if nonce == 0 then number_or_zero block_number else height
]

module _ (mainchain_id subchain_id : ℕ) (main sub : Chain) where
  -- `none` is the panic on a type that is not scanned. The height of a lock of TNT1155 is asked of
  -- the bank of TNT721.
  unfoldable pub get_mainchain_max_processed_nonce_event_height :
      InterChainMessageEventType → Option ℕ
  unfolding height_for number_or_zero
  get_mainchain_max_processed_nonce_event_height (token_lock tnt1155) = some (
      height_for main.block_number ((sub.bank tnt1155).max_processed_token_lock_nonce mainchain_id)
        ((main.bank tnt721).token_lock_event_height subchain_id))
  get_mainchain_max_processed_nonce_event_height (token_lock token) = some (
      height_for main.block_number ((sub.bank token).max_processed_token_lock_nonce mainchain_id)
        ((main.bank token).token_lock_event_height subchain_id))
  get_mainchain_max_processed_nonce_event_height (voucher_burn tfuel) =
      some (number_or_zero main.block_number)
  get_mainchain_max_processed_nonce_event_height (voucher_burn token) = some (
      height_for main.block_number ((sub.bank token).max_processed_voucher_burn_nonce mainchain_id)
        ((main.bank token).voucher_burn_event_height subchain_id))
  get_mainchain_max_processed_nonce_event_height _ = none

  unfoldable pub get_subchain_max_processed_nonce_event_height :
      InterChainMessageEventType → Option ℕ
  unfolding height_for number_or_zero
  get_subchain_max_processed_nonce_event_height (token_lock tfuel) =
      some (number_or_zero sub.block_number)
  get_subchain_max_processed_nonce_event_height (token_lock token) = some (
      height_for sub.block_number ((main.bank token).max_processed_token_lock_nonce subchain_id)
        ((sub.bank token).token_lock_event_height mainchain_id))
  get_subchain_max_processed_nonce_event_height (voucher_burn token) = some (
      height_for sub.block_number ((main.bank token).max_processed_voucher_burn_nonce subchain_id)
        ((sub.bank token).voucher_burn_event_height mainchain_id))
  get_subchain_max_processed_nonce_event_height _ = none

  -- The locks of TNT1155 are not among the types.
  abbrev pub scanned_types : List InterChainMessageEventType
  scanned_types =
      token_lock tfuel
      ∷ token_lock tnt20
      ∷ token_lock tnt721
      ∷ voucher_burn tfuel
      ∷ voucher_burn tnt20
      ∷ voucher_burn tnt721
      ∷ voucher_burn tnt1155
      ∷ []

  unfoldable pub event_height : Bool → InterChainMessageEventType → Option ℕ
  unfolding get_mainchain_max_processed_nonce_event_height
      get_subchain_max_processed_nonce_event_height
  event_height true kind = get_mainchain_max_processed_nonce_event_height kind
  event_height false kind = get_subchain_max_processed_nonce_event_height kind

  unfoldable pub lowest_height : Bool → ℕ → List InterChainMessageEventType → Option ℕ
  unfolding event_height
  lowest_height on_main lowest [] = some lowest
  lowest_height on_main lowest (kind ∷ kinds) = elim (event_height on_main kind) [
    | none ↦ none
    | some height ↦ lowest_height on_main (if ltb height lowest then height else lowest) kinds
  ]

  -- The margin is of five blocks.
  unfoldable pub get_block_scan_starting_height : Bool → Option ℕ
  unfolding lowest_height
  get_block_scan_starting_height on_main = elim (lowest_height on_main (2 ^ 64 - 1) scanned_types) [
    | none ↦ none
    | some height ↦ some (if ltb 5 height then height - 5 else 0)
  ]
