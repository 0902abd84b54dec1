-- ===== src/Interchain/Orchestrator.antt =====
-- interchain/orchestrator/orchestrator.go. The node's clock, the two chains with their token banks, and
-- the ledger are the environment. A call of a contract is the value that says which and with what; its
-- outcome is the environment's. A time is its number of nanoseconds.
use theta_protocol_subchain.Prelude.{
  ℕ, ◌-◌, ◌*◌, ◌^◌, Bool, true, false, not, Option, none, some, List, [], ◌∷◌, ◌==◌, if◌then◌else◌,
  ◌>>=◌,
}
use theta_protocol_subchain.Prelude.Dict.{Dict, lookup, insert}
use theta_protocol_subchain.Prelude.Text.{Text}
use theta_protocol_subchain.Interchain.Denom.{CrossChainTokenType, tfuel, tnt20, tnt721, tnt1155}
use theta_protocol_subchain.Interchain.Events.{
  InterChainMessageEventType, token_lock, voucher_mint, token_unlock, voucher_burn,
  InterChainMessageEvent, EventData, Decoder, event_id, parse_token_locked, parse_voucher_burned,
}
use theta_protocol_subchain.Interchain.Cache.{Entries, Faults, exists_event, delete_event}

-- The calls of the token banks, with their arguments in the order of the source.
pub data ContractCall : Type 0 where
  mint_tfuel : Text → ℕ → ℕ → ℕ → ℕ → ContractCall
  mint_tnt20 : Text → Text → Text → ℕ → ℕ → ℕ → ℕ → ℕ → ContractCall
  mint_tnt721 : Text → Text → Text → ℕ → ℕ → Text → ℕ → ℕ → ContractCall
  mint_tnt1155 : Text → ℕ → ℕ → ℕ → Text → ℕ → ℕ → ContractCall
  unlock_tfuel : ℕ → ℕ → ℕ → ℕ → ℕ → ContractCall
  unlock_tnt20 : ℕ → Text → ℕ → ℕ → ℕ → ℕ → ContractCall
  unlock_tnt721 : ℕ → Text → ℕ → ℕ → ℕ → ℕ → ContractCall
  unlock_tnt1155 : ℕ → Text → ℕ → ℕ → ℕ → ℕ → ℕ → ContractCall

pub record TransactOpts : Type 0 where
  pub chain_id : ℕ
  pub nonce : ℕ
  pub gas_price : ℕ

-- A call that was sent: for which event, to the bank of which chain, and when.
pub record Submission : Type 0 where
  pub event : InterChainMessageEvent
  pub target : ℕ
  pub opts : TransactOpts
  pub call : ContractCall
  pub at : ℕ
  pub accepted : Bool

pub record Config : Type 0 where
  pub mainchain_id : ℕ
  pub subchain_id : ℕ
  pub mainchain_block_interval : ℕ
  pub subchain_block_interval : ℕ
  pub keccak : Text → ℕ
  pub decoder : Decoder

-- What is outside the node, while one event is processed; `none` is an error, or no dynasty.
pub record Outside : Type 0 where
  pub now : ℕ
  pub faults : Faults
  pub dynasty : Option ℕ
  pub suggest_gas_price : Option ℕ
  pub pending_nonce : ℕ → Option ℕ
  pub has_transactor : ℕ → Bool
  pub accepts : ContractCall → Bool

pub record Orchestrator : Type 0 where
  pub cache : Entries
  pub event_processed_time : Dict ℕ

unfoldable pub get_target_chain_corresponding_event_type :
    InterChainMessageEventType → Option InterChainMessageEventType
get_target_chain_corresponding_event_type (token_lock token) = some (voucher_mint token)
get_target_chain_corresponding_event_type (voucher_burn token) = some (token_unlock token)
get_target_chain_corresponding_event_type _ = none

module _ (c : Config) where
  -- The block intervals are so small that the duration does not overflow.
  unfoldable pub get_retry_threshold : ℕ → ℕ
  get_retry_threshold chain =
      4
      * (if chain == c.mainchain_id then c.mainchain_block_interval else c.subchain_block_interval)
      * 1000000000

  -- `time.Since` of the zero time is the largest duration.
  unfoldable pub time_elapsed_since_event_processed : ℕ → Orchestrator → InterChainMessageEvent → ℕ
  unfolding lookup event_id
  time_elapsed_since_event_processed now oc e =
      elim (lookup (event_id c.keccak e) oc.event_processed_time) [
        | none ↦ 2 ^ 63 - 1
        | some processed ↦ now - processed
      ]

  unfoldable pub update_event_processed_time :
      ℕ → InterChainMessageEvent → Orchestrator → Orchestrator
  unfolding insert event_id
  update_event_processed_time now e oc = record oc {
    event_processed_time = insert (event_id c.keccak e) now oc.event_processed_time;
  }

  unfoldable pub clean_up_inter_chain_event_cache :
      Outside → ℕ → InterChainMessageEventType → ℕ → Orchestrator → Orchestrator
  unfolding exists_event delete_event
  clean_up_inter_chain_event_cache o source kind max_processed oc =
      elim (exists_event o.faults source kind max_processed oc.cache) [
        | some true ↦ record oc {
          cache = (delete_event o.faults source kind max_processed oc.cache).0;
        }
        | _ ↦ oc
      ]

  unfoldable pub build_tx_opts : Outside → ℕ → Option TransactOpts
  build_tx_opts o chain = do
    gas_price ← (if chain == c.mainchain_id then o.suggest_gas_price else some 0)
    nonce ← o.pending_nonce chain
    if o.has_transactor chain
        then some (record { chain_id = chain; nonce = nonce; gas_price = gas_price })
        else none

  -- The call that mints vouchers for an event, or unlocks its tokens.
  unfoldable pub mint_call : CrossChainTokenType → EventData → ℕ → ContractCall
  mint_call tfuel e dynasty = mint_tfuel e.denom e.receiver e.amount dynasty e.nonce
  mint_call tnt20 e dynasty =
      mint_tnt20 e.denom e.name e.symbol e.decimals e.receiver e.amount dynasty e.nonce
  mint_call tnt721 e dynasty =
      mint_tnt721 e.denom e.name e.symbol e.receiver e.token_id e.token_uri dynasty e.nonce
  mint_call tnt1155 e dynasty =
      mint_tnt1155 e.denom e.receiver e.token_id e.amount e.token_uri dynasty e.nonce

  unfoldable pub unlock_call : CrossChainTokenType → ℕ → EventData → ℕ → ContractCall
  unlock_call tfuel source e dynasty = unlock_tfuel source e.receiver e.amount dynasty e.nonce
  unlock_call tnt20 source e dynasty =
      unlock_tnt20 source e.denom e.receiver e.amount dynasty e.nonce
  unlock_call tnt721 source e dynasty =
      unlock_tnt721 source e.denom e.receiver e.token_id dynasty e.nonce
  unlock_call tnt1155 source e dynasty =
      unlock_tnt1155 source e.denom e.receiver e.token_id e.amount dynasty e.nonce

  -- The bank that is called is the one on the target chain, the main chain or the subchain.
  unfoldable pub submit :
      Outside → ℕ → TransactOpts → InterChainMessageEvent → ContractCall → Bool × List Submission
  submit o target opts event call = (
    o.accepts call,
    record {
      event = event;
      target = target;
      opts = opts;
      call = call;
      at = o.now;
      accepted = o.accepts call;
    }
        ∷ [],
  )

  -- Whether the error is nil or `ErrTargetChainMismatch`, and the call that was sent.
  unfoldable pub mint_vouchers :
      Outside
      → CrossChainTokenType
      → ℕ
      → TransactOpts
      → InterChainMessageEvent
      → Bool × List Submission
  unfolding parse_token_locked mint_call submit
  mint_vouchers o token target opts event = elim (parse_token_locked c.decoder token event) [
    | none ↦ (false, [])
    | some se ↦ if not (target == se.target_chain_id) then (true, []) else elim o.dynasty [
      | none ↦ (false, [])
      | some dynasty ↦ submit o target opts event (mint_call token se dynasty)
    ]
  ]

  unfoldable pub unlock_tokens :
      Outside
      → CrossChainTokenType
      → ℕ
      → TransactOpts
      → InterChainMessageEvent
      → Bool × List Submission
  unfolding parse_voucher_burned unlock_call submit
  unlock_tokens o token target opts event = elim (parse_voucher_burned c.decoder token event) [
    | none ↦ (false, [])
    | some se ↦ elim o.dynasty [
      | none ↦ (false, [])
      | some dynasty ↦
          submit o target opts event (unlock_call token event.source_chain_id se dynasty)
    ]
  ]

  unfoldable pub dispatch :
      Outside
      → ℕ
      → InterChainMessageEventType
      → TransactOpts
      → InterChainMessageEvent
      → Bool × List Submission
  unfolding mint_vouchers unlock_tokens
  dispatch o target (voucher_mint token) opts event = mint_vouchers o token target opts event
  dispatch o target (token_unlock token) opts event = unlock_tokens o token target opts event
  dispatch o target _ opts event = (true, [])

  -- Whether there is no error, and the call that was sent.
  unfoldable pub call_target_contract :
      Outside → ℕ → InterChainMessageEventType → InterChainMessageEvent → Bool × List Submission
  unfolding build_tx_opts dispatch
  call_target_contract o target kind event = elim (build_tx_opts o target) [
    | none ↦ (false, [])
    | some opts ↦ dispatch o target kind opts event
  ]
