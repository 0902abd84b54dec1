-- ===== src/Consensus/Voting.antt =====
-- consensus/engine.go: casting a vote, and handling one. A panic or a fatal log is `none`.
pub mod Safety
pub mod Majority
pub mod Epochs
mod Tests
use theta_protocol_subchain.Prelude.{
  ℕ, ◌+◌, Bool, true, false, not, ◌&&◌, Option, none, some, List, [], ◌∷◌, ◌++◌, ltb, leb, ◌==◌,
  if◌then◌else◌, ◌>>=◌,
}
use theta_protocol_subchain.Core.Vote.{
  Vote, VoteSet, new_vote_set, add_vote, sorted_votes, validate_vote, sign_bytes, set_signature,
}
use theta_protocol_subchain.Core.Certificate.{has_majority}
use theta_protocol_subchain.Core.Block.{Block, ExtendedBlock}
use theta_protocol_subchain.Chain.Store.{find_block, add_vote_to_index}
use theta_protocol_subchain.Consensus.Managers.{uint64}
use theta_protocol_subchain.Consensus.State.{set_epoch, set_last_vote, add_epoch_vote}
use theta_protocol_subchain.Consensus.Engine.{
  Env, Engine, vote_message, get_highest_cc_block, get_last_finalized_block, get_next_validator_set,
  get_next_proposer, check_sync_status, get_tip_to_vote, get_tip_to_extend, should_vote_by_id,
}

unfoldable pub create_vote : Env → Engine → Block → Vote
unfolding sign_bytes set_signature
create_vote env e block =
    let mainchain_height : ℕ = elim env.mainchain_height [ none ↦ 0 | some h ↦ uint64 h ] in
    let vote : Vote = record {
      block = block.hash;
      height = block.height;
      mainchain_height = mainchain_height;
      epoch = e.state.epoch;
      id = env.address;
      signature = none;
    } in
    set_signature vote (some (env.sign (sign_bytes env.crypto vote)))

unfoldable pub broadcast_vote : Engine → Vote → Engine
broadcast_vote e vote = record e { sent = e.sent ++ vote ∷ [] }

-- Whether `vote` repeats the last vote: the tip is no higher, or its HCC is not the local one.
unfoldable pub should_repeat_vote : Vote → ExtendedBlock → ℕ → Bool
should_repeat_vote last tip local_hcc =
    if not (last.height == 0) && leb tip.height last.height
    then true
    else not (last.height == 0) && not (tip.hcc.block_hash == local_hcc)

-- The vote of this round, and the engine that remembers it. A last vote whose block is not stored
-- is a panic.
unfoldable pub next_vote : Env → Engine → ExtendedBlock → Option (Engine × Vote)
unfolding get_highest_cc_block should_repeat_vote create_vote set_last_vote find_block
next_vote env e tip = do
  hcc ← get_highest_cc_block e
  let last = e.state.last_vote
  let repeated = do block ← find_block e.chain last.block; some (e, create_vote env e block.block)
  let vote = create_vote env e tip.block
  if should_repeat_vote last tip hcc.hash
      then repeated
      else some (record e { state = set_last_vote e.state vote }, vote)

unfoldable pub send_vote : Engine → Vote → Engine
unfolding broadcast_vote
send_vote e vote =
    let sent = broadcast_vote e vote in
    record sent { outgoing = sent.outgoing ++ vote_message vote ∷ [] }

unfoldable pub vote : Env → Engine → Option Engine
unfolding get_tip_to_vote should_vote_by_id next_vote send_vote
vote env e = do
  tip ← get_tip_to_vote env e
  should ← should_vote_by_id env env.address tip.hash
  let voted = do (e', v) ← next_vote env e tip; some (send_vote e' v)
  if should then voted else some e

-- `AddVote` of the state: the epoch votes, then the index of the chain.
unfoldable pub record_vote : Engine → Vote → Engine
unfolding add_epoch_vote add_vote_to_index
record_vote e v = record e { state = add_epoch_vote e.state v; chain = add_vote_to_index e.chain v }

-- The votes of `vs` of this epoch or a later one.
unfoldable pub votes_since : ℕ → VoteSet → List Vote → VoteSet
unfolding add_vote
votes_since epoch ret [] = ret
votes_since epoch ret (v ∷ vs) =
    votes_since epoch (if leb epoch v.epoch then add_vote ret v else ret) vs

unfoldable pub current_epoch_votes : Engine → ℕ → VoteSet
unfolding votes_since new_vote_set sorted_votes
current_epoch_votes e epoch = elim e.state.epoch_votes [
  | none ↦ new_vote_set
  | some all ↦ votes_since epoch new_vote_set (sorted_votes all)
]

unfoldable pub broadcast_votes : Engine → List Vote → Engine
unfolding broadcast_vote
broadcast_votes e [] = e
broadcast_votes e (v ∷ vs) = broadcast_votes (broadcast_vote e v) vs

-- What `handleVote` does once the votes have a majority. The expected proposer is only logged, but
-- to find it may panic.
unfoldable pub advance_epoch : Env → Engine → ℕ → VoteSet → Option Engine
unfolding broadcast_votes sorted_votes get_tip_to_extend get_next_proposer set_epoch
    check_sync_status
advance_epoch env e epoch votes = do
  let next_epoch = uint64 (epoch + 1)
  let informed =
      if ltb (uint64 (e.state.epoch + 1)) next_epoch
      then broadcast_votes e (sorted_votes votes)
      else e
  tip ← get_tip_to_extend env informed
  expected ← get_next_proposer env tip.hash next_epoch
  check_sync_status env (record informed { state = set_epoch informed.state next_epoch })

-- The Boolean says that the epoch ends.
unfoldable pub handle_vote : Env → Engine → Vote → Option (Engine × Bool)
unfolding validate_vote record_vote get_last_finalized_block get_next_validator_set
    current_epoch_votes has_majority advance_epoch
handle_vote env e v =
    if validate_vote env.crypto v
    then (do
      let saved = record_vote e v
      lfb ← get_last_finalized_block saved
      next_validators ← get_next_validator_set env lfb.hash
      let votes = current_epoch_votes saved v.epoch
      let next = do e' ← advance_epoch env saved v.epoch votes; some (e', true)
      if leb saved.state.epoch v.epoch && has_majority next_validators votes
          then next
          else some (saved, false))
    else some (e, false)
