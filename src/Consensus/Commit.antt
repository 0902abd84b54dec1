-- ===== src/Consensus/Commit.antt =====
-- consensus/engine.go: the commit of certified blocks and the finalization of their parents.
pub mod Finalize
pub mod Rules
mod Tests
use theta_protocol_subchain.Prelude.{
  ℕ, Bool, true, false, ◌||◌, Option, none, some, [], ◌∷◌, ◌++◌, ltb, leb, ◌==◌, if◌then◌else◌,
  ◌>>=◌, length,
}
use theta_protocol_subchain.Core.Vote.{unique_voter}
use theta_protocol_subchain.Core.Certificate.{has_majority}
use theta_protocol_subchain.Core.Block.{
  Block, ExtendedBlock, is_invalid, is_pending, is_committed, is_directly_finalized,
  is_indirectly_finalized, is_trusted,
}
use theta_protocol_subchain.Chain.Store.{find_block, add_txs_to_index, find_votes_by_hash}
use theta_protocol_subchain.Chain.Blocks.{finalize_previous_blocks, commit_block}
use theta_protocol_subchain.Consensus.State.{set_highest_cc_block, set_last_finalized_block}
use theta_protocol_subchain.Consensus.Engine.{
  Env, Engine, get_highest_cc_block, get_last_finalized_block, get_validator_set, check_sync_status,
}

-- The send that gives up when the channel is full.
unfoldable pub notify_finalized : Env → Engine → Block → Engine
notify_finalized env e block =
    if ltb (length e.finalized_blocks) env.capacity
    then record e { finalized_blocks = e.finalized_blocks ++ block ∷ [] }
    else e

-- The Boolean is `false` where an error is returned.
unfoldable pub finalize_block : Env → Engine → ExtendedBlock → Option (Engine × Bool)
unfolding get_last_finalized_block set_last_finalized_block check_sync_status
    finalize_previous_blocks add_txs_to_index notify_finalized
finalize_block env e block = if e.stopped then some (e, true) else do
  lfb ← get_last_finalized_block e
  let again = block.hash == lfb.hash
  let finalized = record e { state = set_last_finalized_block e.state block.hash }
  let fresh = do
    synced ← check_sync_status env finalized
    (ch, ok) ← finalize_previous_blocks env.hashes synced.chain block.hash
    some (
        if ok
        then (
          notify_finalized env (record synced { chain = add_txs_to_index env.hashes ch block true })
              block.block,
          true,
        )
        else (record synced { chain = ch }, false))
  if again then some (e, true) else fresh

-- The last two calls of `processCCBlock`.
unfoldable pub raise_highest_cc : Engine → ExtendedBlock → Option Engine
unfolding set_highest_cc_block commit_block
raise_highest_cc e cc_block = do
  ch ← commit_block e.chain cc_block.hash
  some (record e { state = set_highest_cc_block e.state cc_block.hash; chain = ch })

unfoldable pub process_cc_block : Env → Engine → ExtendedBlock → Option Engine
unfolding get_highest_cc_block find_block finalize_block raise_highest_cc
process_cc_block env e cc_block = do
  hcc ← get_highest_cc_block e
  let finalize_parent : Option Engine = elim (find_block e.chain cc_block.parent) [
    | none ↦ some e
    | some parent ↦ do
      (e', ok) ← finalize_block env e parent
      if ok then raise_highest_cc e' cc_block else some e'
  ]
  if leb cc_block.height hcc.height
      then some e
      else (if cc_block.parent == cc_block.hcc.block_hash
          then finalize_parent
          else raise_highest_cc e cc_block)

-- The votes of `checkCC` and their majority.
unfoldable pub has_certificate : Env → Engine → ℕ → Option Bool
unfolding get_validator_set find_votes_by_hash unique_voter has_majority
has_certificate env e hash = do
  validators ← get_validator_set env hash
  some (has_majority validators (unique_voter (find_votes_by_hash e.chain hash)))

unfoldable pub check_cc_block : Env → Engine → ℕ → ExtendedBlock → Option Engine
unfolding is_invalid is_pending is_committed is_directly_finalized is_indirectly_finalized
    is_trusted process_cc_block get_highest_cc_block has_certificate
check_cc_block env e hash block =
    if is_invalid block.status
    then some e
    else if is_pending block.status
    then some e
    else if is_committed block.status
        || is_directly_finalized block.status
        || is_indirectly_finalized block.status
    then some e
    else if is_trusted block.status
    then process_cc_block env e block
    else do
      hcc ← get_highest_cc_block e
      let counted = do
        certified ← has_certificate env e hash
        if certified then process_cc_block env e block else some e
      if ltb block.height hcc.height then some e else counted

unfoldable pub check_cc : Env → Engine → ℕ → Option Engine
unfolding find_block check_cc_block
check_cc env e hash = if hash == 0 then some e else elim (find_block e.chain hash) [
  | none ↦ some e
  | some block ↦ check_cc_block env e hash block
]
