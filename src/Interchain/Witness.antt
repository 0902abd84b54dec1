-- ===== src/Interchain/Witness.antt =====
-- interchain/witness/metachain_witness.go and metachain_witness_state.go: the witness of the two chains.
-- What the chains answer, the databases' failures and RLP are the environment of a round. The answers
-- of a chain stay the same during a round, and block numbers are below 2 ^ 63.
pub mod Heights
pub mod Rounds
pub mod Updates
pub mod Scanning
pub mod Bounds
pub mod Losing
pub mod Reaching
pub mod Starting
pub mod Tests
use theta_protocol_subchain.Prelude.{
  ℕ, ◌+◌, ◌*◌, ◌≡◌, Bool, true, false, not, Option, none, some, List, [], ◌∷◌, ◌++◌, ◌==◌, ltb,
  length, is_some, if◌then◌else◌,
}
use theta_protocol_subchain.Prelude.Dict.{Dict, lookup, insert}
use theta_protocol_subchain.Prelude.Int.{ℤ, pos, ◌+ℤ◌, ◌-ℤ◌, ltb_ℤ}
use theta_protocol_subchain.Core.Validator.{
  Validator, ValidatorSet, new_validator, new_validator_set, add_validators,
}
use theta_protocol_subchain.Consensus.Proposing.{calculate_dynasty}
use theta_protocol_subchain.Interchain.Events.{InterChainMessageEvent}
use theta_protocol_subchain.Interchain.Cache.{Entries, Faults, insert_list}
use theta_protocol_subchain.Interchain.Witness.Heights.{Chain, get_block_scan_starting_height}

pub record WitnessConfig : Type 0 where
  pub mainchain_id : ℕ
  pub subchain_id : ℕ

-- A request for the events of a range of blocks, and whether it was answered.
pub record Query : Type 0 where
  pub on_main : Bool
  pub from_block : ℤ
  pub to_block : ℤ
  pub answered : Bool

-- The chains and the databases in a round; `none` is an error. `cannot_write_height` is also true for
-- what RLP does not encode.
pub record World : Type 0 where
  pub main : Chain
  pub sub : Chain
  pub logs : Bool → ℤ → ℤ → Option (List InterChainMessageEvent)
  pub validators_at : ℕ → Option (List ℕ × List ℕ)
  pub cache_faults : Faults
  pub cannot_read_height : ℕ → Bool
  pub cannot_write_height : ℕ → ℤ → Bool

pub record MetachainWitness : Type 0 where
  pub mainchain_block_height : Option ℕ
  pub subchain_block_height : Option ℕ
  pub witnessed_dynasty : ℕ
  pub validator_set_cache : Dict ValidatorSet
  pub last_queryed : Dict ℤ
  pub inter_chain_event_cache : Entries

abbrev pub max_block_range : ℕ
max_block_range = 300

abbrev pub min_block_gap : ℕ
min_block_gap = 2

unfoldable pub calculate_to_block : ℤ → Option ℕ → ℤ
calculate_to_block from_block none = from_block
calculate_to_block from_block (some height) =
    if ltb_ℤ (pos max_block_range) (pos height -ℤ from_block)
    then from_block +ℤ pos max_block_range
    else pos height -ℤ pos min_block_gap

unfoldable pub set_last_queryed_height : World → ℕ → ℤ → MetachainWitness → MetachainWitness
unfolding insert
set_last_queryed_height w chain height mw =
    if w.cannot_write_height chain height
    then mw
    else record mw { last_queryed = insert chain height mw.last_queryed }

unfoldable pub zip_validators : List ℕ → List ℕ → List Validator
unfolding new_validator
zip_validators (a ∷ as') (s ∷ ss) = new_validator a s ∷ zip_validators as' ss
zip_validators _ _ = []

-- `none` stands for an error.
unfoldable pub update_validator_set_cache :
    World → ℕ → MetachainWitness → MetachainWitness × Option ValidatorSet
unfolding add_validators new_validator_set zip_validators insert
update_validator_set_cache w dynasty mw = elim (w.validators_at (dynasty * 10000 + 1)) [
  | none ↦ (mw, none)
  | some (addresses, stakes) ↦
      if not (length addresses == length stakes)
      then (mw, none)
      else let made =
          add_validators (new_validator_set dynasty) (zip_validators addresses stakes) in
        (record mw { validator_set_cache = insert dynasty made mw.validator_set_cache }, some made)
]

-- No events where the request failed. What the request makes of a malformed answer is not represented.
unfoldable pub events_of : Option (List InterChainMessageEvent) → List InterChainMessageEvent
events_of none = []
events_of (some es) = es

module _ (c : WitnessConfig) where
  abbrev pub chain_id : Bool → ℕ
  chain_id true = c.mainchain_id
  chain_id false = c.subchain_id

  abbrev pub known_height : Bool → MetachainWitness → Option ℕ
  known_height true mw = mw.mainchain_block_height
  known_height false mw = mw.subchain_block_height

  -- The height from which a round queries, with the state in which a new starting height is noted.
  unfoldable pub find_from_block : World → Bool → MetachainWitness → Option (MetachainWitness × ℤ)
  unfolding lookup set_last_queryed_height get_block_scan_starting_height
  find_from_block w on_main mw =
      if w.cannot_read_height (chain_id on_main)
      then some (mw, pos 0)
      else elim (lookup (chain_id on_main) mw.last_queryed) [
        | some height ↦ some (mw, height)
        | none ↦
            elim (get_block_scan_starting_height c.mainchain_id c.subchain_id w.main w.sub
              on_main) [
                | none ↦ none
                | some start ↦
                    some (set_last_queryed_height w (chain_id on_main) (pos start) mw, pos start)
              ]
      ]

  -- The query of a range, whose events go to the cache. A query that fails gives no events. `none` is
  -- the panic on events that the cache does not take.
  unfoldable pub query_range :
      World → Bool → ℤ → ℤ → MetachainWitness → Option (MetachainWitness × Query)
  unfolding events_of insert_list set_last_queryed_height
  query_range w on_main from_block to_block mw =
      let answer = w.logs on_main from_block to_block in
      let inserted = insert_list w.cache_faults (events_of answer) mw.inter_chain_event_cache in
      if inserted.1
      then some (
        set_last_queryed_height w (chain_id on_main) to_block
            (record mw { inter_chain_event_cache = inserted.0 }),
        record {
          on_main = on_main;
          from_block = from_block;
          to_block = to_block;
          answered = is_some answer;
        },
      )
      else none

  unfoldable pub collect_inter_chain_message_events_on_chain :
      World → Bool → MetachainWitness → Option (MetachainWitness × Query)
  unfolding find_from_block calculate_to_block query_range
  collect_inter_chain_message_events_on_chain w on_main mw = elim (find_from_block w on_main mw) [
    | none ↦ none
    | some started ↦
        query_range w on_main started.1 (calculate_to_block started.1 (known_height on_main mw))
          started.0
  ]

  unfoldable pub update_mainchain_block_height : World → MetachainWitness → MetachainWitness
  update_mainchain_block_height w mw = elim w.main.block_number [
    | none ↦ mw
    | some height ↦ record mw { mainchain_block_height = some height }
  ]

  unfoldable pub update_subchain_block_height : World → MetachainWitness → MetachainWitness
  update_subchain_block_height w mw = elim w.sub.block_number [
    | none ↦ mw
    | some height ↦ record mw { subchain_block_height = some height }
  ]

  -- The new dynasty is noted even if its validators could not be queried.
  unfoldable pub update_dynasty : World → ℕ → MetachainWitness → MetachainWitness
  unfolding calculate_dynasty update_validator_set_cache
  update_dynasty w height mw =
      let dynasty = calculate_dynasty height in
      if ltb mw.witnessed_dynasty dynasty
      then record ((update_validator_set_cache w dynasty mw).0) { witnessed_dynasty = dynasty }
      else mw

  -- `none` is a panic, also that of `CalculateDynasty` while no height of the main chain is known.
  unfoldable pub update : World → MetachainWitness → Option (MetachainWitness × List Query)
  unfolding update_mainchain_block_height update_dynasty collect_inter_chain_message_events_on_chain
      update_subchain_block_height
  update w mw =
      let started = update_mainchain_block_height w mw in
      elim started.mainchain_block_height [
        | none ↦ none
        | some height ↦
            elim (collect_inter_chain_message_events_on_chain w true
              (update_dynasty w height started)) [
                | none ↦ none
                | some first ↦ elim (collect_inter_chain_message_events_on_chain w false first.0) [
                  | none ↦ none
                  | some second ↦
                      some (update_subchain_block_height w second.0, first.1 ∷ second.1 ∷ [])
                ]
              ]
      ]

  -- The rounds of the main loop.
  unfoldable pub run_updates :
      List World → MetachainWitness → Option (MetachainWitness × List Query)
  unfolding update
  run_updates [] mw = some (mw, [])
  run_updates (w ∷ ws) mw = elim (update w mw) [
    | none ↦ none
    | some round ↦ elim (run_updates ws round.0) [
      | none ↦ none
      | some rest ↦ some (rest.0, round.1 ++ rest.1)
    ]
  ]
