-- ===== src/Consensus/Voting/Epochs.antt =====
-- consensus/engine.go `handleVote`: when the epoch ends, and what follows it.
use theta_protocol_subchain.Prelude.{
  ℕ, ◌+◌, ◌≡◌, refl, sym, ap, ◌∙◌, ◌⊎◌, inl, inr, Bool, true, false, ◌&&◌, some, List, [], ◌∷◌,
  arith, ltb, leb, if◌then◌else◌, Bool-cases, some_pair_inj, >>=-eq-some, ◌>>=◌,
}
use theta_protocol_subchain.Core.Validator.{ValidatorSet}
use theta_protocol_subchain.Core.Vote.{Vote, VoteSet, validate_vote, sorted_votes}
use theta_protocol_subchain.Core.Certificate.{has_majority}
use theta_protocol_subchain.Core.Block.{ExtendedBlock}
use theta_protocol_subchain.Consensus.Managers.{uint64}
use theta_protocol_subchain.Consensus.State.{set_epoch}
use theta_protocol_subchain.Consensus.Engine.{
  Env, Engine, get_last_finalized_block, get_next_validator_set, get_next_proposer,
  get_tip_to_extend, check_sync_status,
}
use theta_protocol_subchain.Consensus.Voting.{
  broadcast_vote, broadcast_votes, advance_epoch, record_vote, current_epoch_votes, handle_vote,
}

pub check_sync_status-keeps :
    (env : Env) (e e' : Engine)
    → check_sync_status env e ≡ some e'
    → (e'.chain ≡ e.chain) × (e'.state ≡ e.state) × (e'.stopped ≡ e.stopped)
unfolding check_sync_status
check_sync_status-keeps env e e' h = ground arith

broadcast_votes-keeps :
    (e : Engine) (vs : List Vote)
    → ((broadcast_votes e vs).chain ≡ e.chain) × ((broadcast_votes e vs).state ≡ e.state)
unfolding broadcast_votes broadcast_vote
broadcast_votes-keeps e [] = (refl, refl)
broadcast_votes-keeps e (v ∷ vs) = broadcast_votes-keeps (broadcast_vote e v) vs

informed_keeps :
    (e : Engine) (jump : Bool) (vs : List Vote)
    → let e' = if jump then broadcast_votes e vs else e in
      (e'.chain ≡ e.chain) × (e'.state ≡ e.state)
informed_keeps e true vs = broadcast_votes-keeps e vs
informed_keeps e false vs = (refl, refl)

advance_epoch_lem :
    (env : Env) (e e' : Engine) (epoch : ℕ) (votes : VoteSet)
    → advance_epoch env e epoch votes ≡ some e'
    → (e'.chain ≡ e.chain) × (e'.state ≡ set_epoch e.state (uint64 (epoch + 1)))
unfolding advance_epoch
advance_epoch_lem env e e' epoch votes h =
    let informed =
      if ltb (uint64 (e.state.epoch + 1)) (uint64 (epoch + 1))
      then broadcast_votes e (sorted_votes votes)
      else e in
    let (kept_chain, kept_state) =
      informed_keeps e (ltb (uint64 (e.state.epoch + 1)) (uint64 (epoch + 1)))
        (sorted_votes votes) in
    let (tip, _, found) = >>=-eq-some (get_tip_to_extend env informed) _ h in
    let (expected, _, synced) =
      >>=-eq-some (get_next_proposer env tip.hash (uint64 (epoch + 1))) _ found in
    let (chain, state, _) =
      check_sync_status-keeps env
        (record informed { state = set_epoch informed.state (uint64 (epoch + 1)) }) e' synced in
    (chain ∙ kept_chain, state ∙ ap (λ st. set_epoch st (uint64 (epoch + 1))) kept_state)

-- The end of `handleVote`, by whether the majority is there.
handle_vote_end :
    (env : Env) (saved e' : Engine) (epoch : ℕ) (votes : VoteSet) (moves end : Bool)
    → (if moves
        then ◌>>=◌ {B = Engine × Bool}
            (advance_epoch env saved epoch votes)
            (λ next. some (next, true))
        else some (saved, false))
      ≡ some (e', end)
    → (end ≡ moves)
      × (e'.chain ≡ saved.chain)
      × (e'.state ≡ (if end then set_epoch saved.state (uint64 (epoch + 1)) else saved.state))
handle_vote_end env saved e' epoch votes false end h =
    let (same, stays) = some_pair_inj h in rw (← stays, ← same) (refl, refl, refl)
handle_vote_end env saved e' epoch votes true end h =
    let (next, moved, done) = >>=-eq-some (advance_epoch env saved epoch votes) _ h in
    let (same, ends) = some_pair_inj done in
    let (chain, state) = advance_epoch_lem env saved next epoch votes moved in
    rw (← ends, ← same) (refl, chain, state)

-- A vote that is not valid changes nothing. Of a valid one, the engine records it; the epoch ends
-- exactly if the vote is of the current epoch or a later one and the recorded epoch votes of that
-- epoch and later ones have a majority of the validators of the next block, and it then goes on
-- to the one after the vote's; otherwise it stays. The rest of the state and the blocks are those
-- that the record of the vote left.
pub handle_vote_lem :
    (env : Env) (e e' : Engine) (v : Vote) (end : Bool)
    → handle_vote env e v ≡ some (e', end)
    → ((validate_vote env.crypto v ≡ false) × (e' ≡ e) × (end ≡ false))
      ⊎ ((validate_vote env.crypto v ≡ true)
          × (lfb : ExtendedBlock) × (validators : ValidatorSet) × (get_last_finalized_block
                (record_vote e v)
              ≡ some lfb)
          × (get_next_validator_set env lfb.hash ≡ some validators)
          × (end ≡ (
              leb (record_vote e v).state.epoch v.epoch
              && has_majority validators (current_epoch_votes (record_vote e v) v.epoch)))
          × (e'.chain ≡ (record_vote e v).chain)
          × (e'.state ≡ (
              if end
              then set_epoch (record_vote e v).state (uint64 (v.epoch + 1))
              else (record_vote e v).state)))
unfolding handle_vote
handle_vote_lem env e e' v end h = elim (Bool-cases (validate_vote env.crypto v)) [
  | inl good ↦
      let saved = record_vote e v in
      let (lfb, found, h1) = >>=-eq-some (get_last_finalized_block saved) _ (rw good at h) in
      let (validators, selected, h2) = >>=-eq-some (get_next_validator_set env lfb.hash) _ h1 in
      let (decided, chain, state) =
        handle_vote_end env saved e' v.epoch (current_epoch_votes saved v.epoch)
          (leb saved.state.epoch v.epoch
            && has_majority validators (current_epoch_votes saved v.epoch))
          end h2 in
      inr (good, lfb, validators, found, selected, decided, chain, state)
  | inr bad ↦ let (same, kept) = some_pair_inj (rw bad at h) in inl (bad, sym same, sym kept)
]
