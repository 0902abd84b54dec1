-- ===== src/Interchain/Processing.antt =====
-- interchain/orchestrator/orchestrator.go: the processing of the next event of each type, once a tick.
use theta_protocol_subchain.Prelude.{
  ℕ, ◌+◌, Option, none, some, List, [], ◌∷◌, ◌++◌, ltb, if◌then◌else◌,
}
use theta_protocol_subchain.Interchain.Denom.{CrossChainTokenType, tfuel, tnt20, tnt721, tnt1155}
use theta_protocol_subchain.Interchain.Events.{
  InterChainMessageEventType, unknown, token_lock, voucher_burn, InterChainMessageEvent,
}
use theta_protocol_subchain.Interchain.Cache.{found, key_not_found, read_failed, get_event}
use theta_protocol_subchain.Interchain.Orchestrator.{
  Config, Outside, Orchestrator, Submission, clean_up_inter_chain_event_cache,
  get_target_chain_corresponding_event_type, get_retry_threshold,
  time_elapsed_since_event_processed, call_target_contract, update_event_processed_time,
}

-- What `Get` returns along with an error: an event of no type, whose numbers are
-- nil, 0 here, so that its ID is the hash of another text than in the source.
abbrev pub unread_event : InterChainMessageEvent
unread_event = record {
  event_type = unknown;
  source_chain_id = 0;
  target_chain_id = 0;
  sender = 0;
  receiver = 0;
  payload = [];
  nonce = 0;
  block_height = 0;
}

-- What a tick asks the bank of the target chain for, with the world while the event is processed.
pub record Turn : Type 0 where
  pub source : ℕ
  pub target : ℕ
  pub kind : InterChainMessageEventType
  pub max_processed : ℕ
  pub outside : Outside

module _ (c : Config) where
  -- One instant stands for that of the test, of the call and of the note on it.
  unfoldable pub try_event :
      Outside
      → ℕ
      → InterChainMessageEventType
      → InterChainMessageEvent
      → Orchestrator
      → Option (Orchestrator × List Submission)
  unfolding get_target_chain_corresponding_event_type get_retry_threshold
      time_elapsed_since_event_processed call_target_contract update_event_processed_time
  try_event o target kind event oc = elim (get_target_chain_corresponding_event_type kind) [
    | none ↦ none
    | some target_kind ↦
        let outcome = call_target_contract c o target target_kind event in
        if ltb (get_retry_threshold c target) (time_elapsed_since_event_processed c o.now oc event)
        then some
            (if outcome.0 then update_event_processed_time c o.now event oc else oc, outcome.1)
        else some (oc, [])
  ]

  -- `none` is the fatal log on an event type with no counterpart.
  unfoldable pub process_next_event : Turn → Orchestrator → Option (Orchestrator × List Submission)
  unfolding clean_up_inter_chain_event_cache get_event try_event
  process_next_event t oc =
      let cleaned =
        clean_up_inter_chain_event_cache c t.outside t.source t.kind t.max_processed oc in
      elim (get_event t.outside.faults t.source t.kind (t.max_processed + 1) cleaned.cache) [
        | key_not_found ↦ some (cleaned, [])
        | read_failed ↦ try_event t.outside t.target t.kind unread_event cleaned
        | found e ↦ try_event t.outside t.target t.kind e cleaned
      ]

  -- One call after the other.
  unfoldable pub process_turns : List Turn → Orchestrator → Option (Orchestrator × List Submission)
  unfolding process_next_event
  process_turns [] oc = some (oc, [])
  process_turns (t ∷ ts) oc = elim (process_next_event t oc) [
    | none ↦ none
    | some first ↦ elim (process_turns ts first.0) [
      | none ↦ none
      | some rest ↦ some (rest.0, first.1 ++ rest.1)
    ]
  ]

-- The queries of the token banks on a chain; `none` is an error.
pub record Banks : Type 0 where
  pub max_processed_token_lock_nonce : CrossChainTokenType → ℕ → Option ℕ
  pub max_processed_voucher_burn_nonce : CrossChainTokenType → ℕ → Option ℕ

-- The call of `processNextEvent`, unless the query fails.
unfoldable pub turn_of :
    (InterChainMessageEventType → Outside)
    → ℕ
    → ℕ
    → InterChainMessageEventType
    → Option ℕ
    → List Turn
turn_of world source target kind none = []
turn_of world source target kind (some n) =
    record {
      source = source;
      target = target;
      kind = kind;
      max_processed = n;
      outside = world kind;
    }
    ∷ []

module _ (banks : ℕ → Banks) (world : ℕ → InterChainMessageEventType → Outside) where
  unfoldable pub token_lock_turn : ℕ → ℕ → CrossChainTokenType → List Turn
  unfolding turn_of
  token_lock_turn source target token =
      turn_of (world source) source target (token_lock token)
        ((banks target).max_processed_token_lock_nonce token source)

  unfoldable pub voucher_burn_turn : ℕ → ℕ → CrossChainTokenType → List Turn
  unfolding turn_of
  voucher_burn_turn source target token =
      turn_of (world source) source target (voucher_burn token)
        ((banks target).max_processed_voucher_burn_nonce token source)

  unfoldable pub next_token_lock_turns : ℕ → ℕ → List Turn
  unfolding token_lock_turn
  next_token_lock_turns source target =
      token_lock_turn source target tfuel
      ++ (token_lock_turn source target tnt20
          ++ (token_lock_turn source target tnt721 ++ token_lock_turn source target tnt1155))

  unfoldable pub next_voucher_burn_turns : ℕ → ℕ → List Turn
  unfolding voucher_burn_turn
  next_voucher_burn_turns source target =
      voucher_burn_turn source target tfuel
      ++ (voucher_burn_turn source target tnt20
          ++ (voucher_burn_turn source target tnt721 ++ voucher_burn_turn source target tnt1155))

  -- The calls of a tick, in their order.
  unfoldable pub tick_turns : Config → List Turn
  unfolding next_token_lock_turns next_voucher_burn_turns
  tick_turns c =
      next_token_lock_turns c.mainchain_id c.subchain_id
      ++ (next_token_lock_turns c.subchain_id c.mainchain_id
          ++ (next_voucher_burn_turns c.mainchain_id c.subchain_id
              ++ next_voucher_burn_turns c.subchain_id c.mainchain_id))

  unfoldable pub tick : Config → Orchestrator → Option (Orchestrator × List Submission)
  unfolding tick_turns process_turns
  tick c oc = process_turns c (tick_turns c) oc
