-- ===== src/Consensus/Engine.antt =====
-- consensus/engine.go: the engine, its environment, the tip of the chain, and the sync status. A panic
-- or a fatal log is `none`.
use theta_protocol_subchain.Prelude.{
  ℕ, zero, suc, ◌+◌, ◌-◌, ◌^◌, Bool, true, false, not, ◌&&◌, Option, none, some, List, [], ◌∷◌, ltb,
  ◌==◌, if◌then◌else◌, is_some, ◌>>=◌,
}
use theta_protocol_subchain.Core.Validator.{Validator, ValidatorSet, get_validator}
use theta_protocol_subchain.Core.Vote.{Crypto, Vote, sorted_votes}
use theta_protocol_subchain.Core.Block.{Block, ExtendedBlock, Proposal, is_valid}
use theta_protocol_subchain.Chain.Store.{TxHashes, Chain, find_block}
use theta_protocol_subchain.Consensus.Managers.{
  Rand, uint64, select_validators_for_block, get_rotating_proposer,
}
use theta_protocol_subchain.Consensus.State.{State}

-- What `ApplyBlockTxs` of the ledger answers; an OK carries `hasValidatorUpdate`.
pub data ApplyResult : Type 0 where
  applied : Bool → ApplyResult
  apply_error undecided : ApplyResult

-- What the engine is given: the ledger, asked by block hashes and blocks, the witness of the main
-- chain, the keys of the node, the clock, and libraries. `tip_fuel` bounds the search for the tip.
pub record Env : Type 0 where
  pub crypto : Crypto
  pub hashes : TxHashes
  pub address : ℕ
  pub sign : List ℕ → List ℕ
  pub rand : Rand
  pub rand_fuel : ℕ
  pub big_max_uint32 : ℕ
  pub finalized_validator_set : ℕ → Bool → Option ValidatorSet
  pub reset_state : Block → Bool
  pub apply_block_txs : Block → Block → ApplyResult
  pub mainchain_height : Option ℕ
  pub now : ℕ
  pub capacity : ℕ
  pub tip_fuel : ℕ

-- What the node sends to itself.
pub data Message : Type 0 where
  vote_message : Vote → Message
  block_message : Block → Message

-- The engine, with the finalized blocks in their channel, the votes and the proposals broadcast so
-- far, and the messages that it has added to its own queue.
pub record Engine : Type 0 where
  pub chain : Chain
  pub state : State
  pub has_synced : Bool
  pub stopped : Bool
  pub vote_timer_ready : Bool
  pub block_processed : Bool
  pub finalized_blocks : List Block
  pub sent : List Vote
  pub proposed : List Proposal
  pub outgoing : List Message

unfoldable pub get_highest_cc_block : Engine → Option ExtendedBlock
unfolding find_block
get_highest_cc_block e = find_block e.chain e.state.highest_cc_block

unfoldable pub get_last_finalized_block : Engine → Option ExtendedBlock
unfolding find_block
get_last_finalized_block e = find_block e.chain e.state.last_finalized_block

unfoldable pub get_validator_set : Env → ℕ → Option ValidatorSet
unfolding select_validators_for_block
get_validator_set env hash = select_validators_for_block env.finalized_validator_set hash false

unfoldable pub get_next_validator_set : Env → ℕ → Option ValidatorSet
unfolding select_validators_for_block
get_next_validator_set env hash = select_validators_for_block env.finalized_validator_set hash true

unfoldable pub get_next_proposer : Env → ℕ → ℕ → Option Validator
unfolding get_next_validator_set get_rotating_proposer
get_next_proposer env hash epoch = do
  validators ← get_next_validator_set env hash
  get_rotating_proposer env.rand env.rand_fuel env.big_max_uint32 validators epoch

-- `isSyncing`, for a finalized block that is there. The threshold is `now - 30`, and the difference
-- of the heights is one of uint64.
unfoldable pub is_syncing : ℕ → ℕ → ExtendedBlock → ℕ → Bool
is_syncing now timestamp lfb current_height =
    if ltb (timestamp + 30) now
    then ltb 5 (uint64 (current_height + 2 ^ 64 - lfb.height))
    else false

unfoldable pub max_vote_height : ℕ → List Vote → ℕ
max_vote_height m [] = m
max_vote_height m (v ∷ vs) = max_vote_height (if ltb m v.height then v.height else m) vs

unfoldable pub check_sync_status : Env → Engine → Option Engine
unfolding max_vote_height sorted_votes get_last_finalized_block is_syncing
check_sync_status env e = elim e.state.epoch_votes [
  | none ↦ some e
  | some votes ↦ do
    let current_height = uint64 (max_vote_height 0 (sorted_votes votes) + 2 ^ 64 - 1)
    lfb ← get_last_finalized_block e
    timestamp ← lfb.timestamp
    some (record e { has_synced = not (is_syncing env.now timestamp lfb current_height) })
]

-- The children that the search pushes, the last one on top; a missing child is fatal.
unfoldable pub push_children : Chain → List ℕ → List ExtendedBlock → Option (List ExtendedBlock)
unfolding find_block
push_children ch [] stack = some stack
push_children ch (h ∷ hs) stack = elim (find_block ch h) [
  | none ↦ none
  | some child ↦ push_children ch hs (child ∷ stack)
]

-- The loop of `GetTip`, whose stack has its top at the head of the list.
unfoldable pub search_tip :
    ℕ → Chain → Bool → ExtendedBlock → List ExtendedBlock → Option ExtendedBlock
unfolding push_children is_valid
search_tip fuel ch include_pending candidate [] = some candidate
search_tip zero ch include_pending candidate (curr ∷ stack) = none
search_tip (suc fuel) ch include_pending candidate (curr ∷ stack) =
    elim (not (is_valid curr.status)) [
      | true ↦ search_tip fuel ch include_pending candidate stack
      | false ↦ elim (not include_pending && curr.has_validator_update) [
        | true ↦ search_tip fuel ch include_pending candidate stack
        | false ↦
            let best = if ltb candidate.height curr.height then curr else candidate in
            elim (push_children ch curr.children stack) [
              | none ↦ none
              | some pushed ↦ search_tip fuel ch include_pending best pushed
            ]
      ]
    ]

unfoldable pub get_tip : Env → Engine → Bool → Option ExtendedBlock
unfolding get_highest_cc_block search_tip
get_tip env e include_pending = do
  hcc ← get_highest_cc_block e
  search_tip env.tip_fuel e.chain include_pending hcc (hcc ∷ [])

unfoldable pub get_tip_to_vote : Env → Engine → Option ExtendedBlock
unfolding get_tip
get_tip_to_vote env e = get_tip env e true

unfoldable pub get_tip_to_extend : Env → Engine → Option ExtendedBlock
unfolding get_tip
get_tip_to_extend env e = get_tip env e false

unfoldable pub should_vote_by_id : Env → ℕ → ℕ → Option Bool
unfolding get_validator_set get_validator
should_vote_by_id env id block = do
  validators ← get_validator_set env block
  some (is_some (get_validator validators id))

unfoldable pub should_propose_by_id : Env → ℕ → ℕ → ℕ → Option Bool
unfolding get_next_proposer
should_propose_by_id env previous_block epoch id =
    if epoch == 0
    then some false
    else do proposer ← get_next_proposer env previous_block epoch; some (proposer.address == id)

unfoldable pub enter_epoch : Engine → Engine
enter_epoch e = record e { vote_timer_ready = false; block_processed = false }
