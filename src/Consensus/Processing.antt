-- ===== src/Consensus/Processing.antt =====
-- consensus/engine.go: the validation and the processing of a block, and the dispatch of messages. A
-- panic or a fatal log is `none`.
pub mod Validation
mod Tests
use theta_protocol_subchain.Prelude.{
  ℕ, ◌+◌, ◌-◌, ◌^◌, Bool, true, false, not, ◌&&◌, ◌||◌, Option, none, some, List, [], ◌∷◌, ltb, leb,
  ◌==◌, if◌then◌else◌, ◌>>=◌,
}
use theta_protocol_subchain.Prelude.Dict.{Dict, lookup}
use theta_protocol_subchain.Core.Vote.{Vote, sorted_votes}
use theta_protocol_subchain.Core.Certificate.{CommitCertificate}
use theta_protocol_subchain.Core.Certificate as Cert
use theta_protocol_subchain.Core.Block.{
  Block, ExtendedBlock, trusted, is_valid, is_pending, is_finalized,
}
use theta_protocol_subchain.Chain.Store.{Chain, find_block, save_block}
use theta_protocol_subchain.Chain.Blocks.{
  with_status, is_descendant, mark_block_valid, mark_block_invalid, mark_block_has_validator_update,
}
use theta_protocol_subchain.Consensus.Managers.{uint64}
use theta_protocol_subchain.Consensus.State.{set_highest_cc_block}
use theta_protocol_subchain.Consensus.Engine.{
  applied, apply_error, undecided, Env, Engine, Message, vote_message, block_message,
  get_highest_cc_block, get_last_finalized_block, get_validator_set, should_propose_by_id,
}
use theta_protocol_subchain.Consensus.Commit.{check_cc}
use theta_protocol_subchain.Consensus.Voting.{vote, handle_vote}

-- The first steps of `validateBlock`, against the last finalized block and the parent. A missing
-- time is a panic, and so is a pending parent.
unfoldable pub validate_position : ExtendedBlock → Block → ExtendedBlock → Option Bool
unfolding is_valid is_pending
validate_position lfb block parent =
    let in_order = do
      parent_time ← parent.timestamp
      time ← block.timestamp
      if ltb time (parent_time + 1)
          then some false
          else (if leb block.epoch parent.epoch
              then some false
              else if is_valid parent.status
              then some true
              else if is_pending parent.status
              then none
              else some false)
    in if leb block.height lfb.height
      then some false
      else if uint64 (parent.height + 1) == block.height
      then in_order
      else some false

-- The steps on the certificate.
unfoldable pub validate_hcc : Env → Engine → Block → Option Bool
unfolding is_descendant find_block is_finalized get_validator_set Cert.is_valid
validate_hcc env e block =
    let present : Option Bool = elim (find_block e.chain block.hcc.block_hash) [
      | none ↦ some false
      | some hcc_block ↦
          let checked = do
            validators ← get_validator_set env block.hcc.block_hash
            some (Cert.is_valid env.crypto block.hcc validators)
          in if is_finalized hcc_block.status then some true else checked
    ] in
    if is_descendant e.chain block.hcc.block_hash block.hash then present else some false

-- The rule of two direct confirmations after a change of the validators.
unfoldable pub validate_confirmations : Chain → Block → ExtendedBlock → Bool
unfolding find_block
validate_confirmations ch block parent =
    let direct = block.hcc.block_hash == block.parent in
    let by_grandparent : Bool = elim (find_block ch parent.parent) [
      | none ↦ false
      | some grandparent ↦ if grandparent.has_validator_update then direct else true
    ] in
    if parent.has_validator_update && not direct
    then false
    else if parent.parent == 0
    then true
    else by_grandparent

unfoldable pub validate_block : Env → Engine → Block → ExtendedBlock → Option Bool
unfolding get_last_finalized_block validate_position validate_hcc validate_confirmations
    should_propose_by_id
validate_block env e block parent = do
  lfb ← get_last_finalized_block e
  placed ← validate_position lfb block parent
  let certified = do
    certified ← validate_hcc env e block
    if certified && validate_confirmations e.chain block parent
        then should_propose_by_id env block.parent block.epoch block.proposer
        else some false
  if placed then certified else some false

-- The loop over the votes of the certificate.
unfoldable pub handle_votes : Env → Engine → List Vote → Option Engine
unfolding handle_vote
handle_votes env e [] = some e
handle_votes env e (v ∷ vs) = elim (handle_vote env e v) [
  | none ↦ none
  | some r ↦ handle_votes env r.0 vs
]

-- A nil certificate is a nil dereference; `IsValid` lets none through, but a finalized HCC block
-- goes unchecked.
unfoldable pub handle_certificate : Env → Engine → CommitCertificate → Option Engine
unfolding handle_votes sorted_votes get_highest_cc_block check_cc
handle_certificate env e hcc = elim hcc.votes [
  | none ↦ none
  | some votes ↦ do
    e' ← handle_votes env e (sorted_votes votes)
    local ← get_highest_cc_block e'
    if local.hash == hcc.block_hash then some e' else check_cc env e' hcc.block_hash
]

-- What `handleNormalBlock` does with a block whose transactions have been applied.
unfoldable pub accept_block : Env → Engine → ℕ → ℕ → Bool → Option Engine
unfolding mark_block_has_validator_update mark_block_valid vote check_cc
accept_block env e hash epoch has_update = do
  ch ← if has_update then mark_block_has_validator_update e.chain hash else some e.chain
  ch' ← mark_block_valid ch hash
  let marked = record e { chain = ch' }
  let local_epoch = marked.state.epoch
  let processed = record marked { block_processed = true }
  let current = epoch == uint64 (local_epoch + 2 ^ 64 - 1) || epoch == local_epoch
  let voted = if processed.vote_timer_ready then vote env processed else some processed
  e' ← if current then voted else some marked
  check_cc env e' hash

unfoldable pub reject_block : Engine → ℕ → Option Engine
unfolding mark_block_invalid
reject_block e hash = do ch ← mark_block_invalid e.chain hash; some (record e { chain = ch })

-- The steps after the block has been found valid.
unfoldable pub apply_block : Env → Engine → Block → ExtendedBlock → Option Engine
unfolding handle_certificate reject_block accept_block
apply_block env e block parent = do
  e' ← handle_certificate env e block.hcc
  let rejected = reject_block e' block.hash
  let applied_ : Option Engine = elim (env.apply_block_txs parent.block block) [
    | apply_error ↦ rejected
    | undecided ↦ some e'
    | applied has_update ↦ accept_block env e' block.hash block.epoch has_update
  ]
  if env.reset_state parent.block then applied_ else rejected

unfoldable pub handle_normal_block : Env → Engine → ExtendedBlock → Option Engine
unfolding is_pending find_block validate_block reject_block apply_block
handle_normal_block env e eb =
    let processed = do
      parent ← find_block e.chain eb.parent
      ok ← validate_block env e eb.block parent
      if ok then apply_block env e eb.block parent else reject_block e eb.hash
    in if is_pending eb.status then processed else some e

-- core/hardcode_block_hashes.go: the map is empty in this version.
abbrev pub hardcode_block_hashes : Dict ℕ
hardcode_block_hashes = []

-- `pruneState` does nothing.
unfoldable pub handle_hardcode_block : Env → Engine → ℕ → Option Engine
unfolding find_block save_block set_highest_cc_block
handle_hardcode_block env e hash = elim (find_block e.chain hash) [
  | none ↦ some e
  | some eb ↦ do
    let marked = record e { chain = save_block e.chain (with_status trusted eb) }
    parent ← find_block marked.chain eb.parent
    let done : Option Engine = elim (env.apply_block_txs parent.block eb.block) [
      | applied _ ↦ some (record marked { state = set_highest_cc_block marked.state eb.hash })
      | _ ↦ some marked
    ]
    if env.reset_state parent.block then done else some marked
]

unfoldable pub handle_block : Env → Engine → Block → Option Engine
unfolding find_block lookup handle_hardcode_block handle_normal_block
handle_block env e block = do
  eb ← find_block e.chain block.hash
  elim (lookup eb.height hardcode_block_hashes) [
    | some hash ↦ handle_hardcode_block env e hash
    | none ↦ handle_normal_block env e eb
  ]

-- The Boolean says that the epoch ends.
unfoldable pub process_message : Env → Engine → Message → Option (Engine × Bool)
unfolding handle_vote check_cc handle_block
process_message env e (vote_message v) = do
  (e', end) ← handle_vote env e v
  e'' ← check_cc env e' v.block
  some (e'', end)
process_message env e (block_message b) = do e' ← handle_block env e b; some (e', false)
