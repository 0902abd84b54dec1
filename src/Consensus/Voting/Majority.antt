-- ===== src/Consensus/Voting/Majority.antt =====
-- consensus/engine.go `handleVote`: an epoch ends by a majority of distinct voters.
use theta_protocol_subchain.Prelude.{
  ℕ, ◌+◌, ◌-◌, ◌*◌, ◌^◌, ◌≤◌, ◌<◌, ◌≡◌, refl, sym, ap, ◌∙◌, ◌⊎◌, inl, inr, Bool, true, false, none,
  some, List, [], ◌∷◌, ◌++◌, arith, leb, if◌then◌else◌, leb→le, Bool-cases, and_parts, All,
}
use theta_protocol_subchain.Prelude.Sorting.{sort_by, IsDistinct, sort_by-IsDistinct}
use mathlib.Core.Path.{subst}
use mathlib.Core.List.{append-nil, append_assoc}
use theta_protocol_subchain.Core.Validator.{ValidatorSet, total_stake}
use theta_protocol_subchain.Core.Vote.{
  Vote, vote_id, VoteSet, new_vote_set, add_vote, sorted_votes, unique_voter,
}
use theta_protocol_subchain.Core.Vote.Latest.{put_fresh, IsDistinct-split, unique_voter-IsDistinct}
use theta_protocol_subchain.Core.Certificate.{has_majority}
use theta_protocol_subchain.Core.Certificate.Quorum.{stake_where, has_voted, has_majority_lem}
use theta_protocol_subchain.Core.Block.{ExtendedBlock}
use theta_protocol_subchain.Consensus.Managers.{uint64}
use theta_protocol_subchain.Consensus.State.{State, set_epoch, add_epoch_vote}
use theta_protocol_subchain.Consensus.Engine.{
  Env, Engine, get_last_finalized_block, get_next_validator_set,
}
use theta_protocol_subchain.Consensus.Voting.{
  record_vote, votes_since, current_epoch_votes, handle_vote,
}
use theta_protocol_subchain.Consensus.Voting.Epochs.{handle_vote_lem}

IsDistinct-drop :
    (ws : List Vote) (v : Vote) (vs : List Vote)
    → IsDistinct vote_id (ws ++ v ∷ vs)
    → IsDistinct vote_id (ws ++ vs)
IsDistinct-drop [] v vs h = h.1
IsDistinct-drop (w ∷ ws) v vs h = (All-drop ws v vs h.0, IsDistinct-drop ws v vs h.1)
  where
    All-drop :
        (us : List Vote) (x : Vote) (xs : List Vote)
        → All (λ u. ¬ (w.id ≡ u.id)) (us ++ x ∷ xs)
        → All (λ u. ¬ (w.id ≡ u.id)) (us ++ xs)
    All-drop [] x xs a = a.1
    All-drop (u ∷ us) x xs a = (a.0, All-drop us x xs a.1)

-- One round of the loop, whether or not the vote is kept.
add_vote_if-IsDistinct :
    (kept : Bool) (ret : VoteSet) (v : Vote) (vs : List Vote)
    → IsDistinct vote_id (ret.votes ++ v ∷ vs)
    → IsDistinct vote_id ((if kept then add_vote ret v else ret).votes ++ vs)
unfolding add_vote
add_vote_if-IsDistinct true ret v vs h =
    subst (λ ws. IsDistinct vote_id (ws ++ vs))
      (sym (put_fresh v ret.votes (IsDistinct-split ret.votes v vs h)))
      (rw (append_assoc ret.votes (v ∷ []) vs) h)
add_vote_if-IsDistinct false ret v vs h = IsDistinct-drop ret.votes v vs h

votes_since-IsDistinct :
    (epoch : ℕ) (ret : VoteSet) (vs : List Vote)
    → IsDistinct vote_id (ret.votes ++ vs)
    → IsDistinct vote_id (votes_since epoch ret vs).votes
unfolding votes_since
votes_since-IsDistinct epoch ret [] h = rw (append-nil ret.votes) at h
votes_since-IsDistinct epoch ret (v ∷ vs) h =
    votes_since-IsDistinct epoch (if leb epoch v.epoch then add_vote ret v else ret) vs
      (add_vote_if-IsDistinct (leb epoch v.epoch) ret v vs h)

current_epoch_votes_of :
    (e : Engine) (epoch : ℕ) (s : VoteSet)
    → e.state.epoch_votes ≡ some s
    → current_epoch_votes e epoch
      ≡ votes_since epoch (record { votes = [] }) (sort_by vote_id s.votes)
unfolding current_epoch_votes sorted_votes new_vote_set
current_epoch_votes_of e epoch s h = rw h

-- The epoch votes that a record leaves are by distinct voters.
current_epoch_votes-IsDistinct :
    (e : Engine) (v : Vote) (epoch : ℕ)
    → IsDistinct vote_id (current_epoch_votes (record_vote e v) epoch).votes
current_epoch_votes-IsDistinct e v epoch =
    let before : VoteSet = elim e.state.epoch_votes [ none ↦ new_vote_set | some votes ↦ votes ] in
    let s = unique_voter (add_vote before v) in
    let stored : (record_vote e v).state.epoch_votes ≡ some s =
      unfold record_vote add_epoch_vote in refl in
    subst (λ (w : VoteSet). IsDistinct vote_id w.votes)
      (sym (current_epoch_votes_of (record_vote e v) epoch s stored))
      (votes_since-IsDistinct epoch (record { votes = [] }) (sort_by vote_id s.votes)
        (sort_by-IsDistinct vote_id s.votes (unique_voter-IsDistinct (add_vote before v))))

epoch-record_vote : (e : Engine) (v : Vote) → (record_vote e v).state.epoch ≡ e.state.epoch
unfolding record_vote
epoch-record_vote e v = refl

epoch-set_epoch : (s : State) (epoch : ℕ) → (set_epoch s epoch).epoch ≡ epoch
unfolding set_epoch
epoch-set_epoch s epoch = refl

-- If a vote of an epoch below 2 ^ 64 - 1 ends the epoch, the engine moves up to the epoch after
-- the vote's, and more than two thirds of the stake of the validators of the block after the last
-- finalized one belong to voters of votes of the vote's epoch or a later one, no stake being
-- counted twice. If the epoch does not end, it stays the same.
pub handle_vote_epoch :
    (env : Env) (e e' : Engine) (v : Vote) (end : Bool)
    → v.epoch < 2 ^ 64 - 1
    → handle_vote env e v ≡ some (e', end)
    → ((end ≡ false) × (e'.state.epoch ≡ e.state.epoch))
      ⊎ ((end ≡ true)
          × (e.state.epoch < e'.state.epoch)
          × (e'.state.epoch ≡ v.epoch + 1)
          × (lfb : ExtendedBlock) × (validators : ValidatorSet) × (get_last_finalized_block
                (record_vote e v)
              ≡ some lfb)
          × (get_next_validator_set env lfb.hash ≡ some validators)
          × (total_stake validators * 2
              < stake_where
                  (has_voted (sorted_votes (current_epoch_votes (record_vote e v) v.epoch)))
                  validators.validators
                * 3))
handle_vote_epoch env e e' v end small h = elim (handle_vote_lem env e e' v end h) [
  | inl (_, same, stays) ↦ inl (stays, ap (λ (x : Engine). x.state.epoch) same)
  | inr (_, lfb, validators, found, selected, decided, _, state) ↦ elim (Bool-cases end) [
    | inl ends ↦
        let saved = record_vote e v in
        let votes = current_epoch_votes saved v.epoch in
        let (late, majority) =
          and_parts (leb saved.state.epoch v.epoch) (has_majority validators votes)
            (sym decided ∙ ends) in
        let moved : e'.state.epoch ≡ v.epoch + 1 =
          ap (λ (s : State). s.epoch) (rw ends at state)
          ∙ epoch-set_epoch saved.state (uint64 (v.epoch + 1))
          ∙ omega arith in
        let later : saved.state.epoch ≤ v.epoch = leb→le saved.state.epoch v.epoch late in
        let same = epoch-record_vote e v in
        inr (
          ends,
          omega arith,
          moved,
          lfb,
          validators,
          found,
          selected,
          has_majority_lem validators votes (current_epoch_votes-IsDistinct e v v.epoch) majority,
        )
    | inr stays ↦
        inl (stays, ap (λ (s : State). s.epoch) (rw stays at state) ∙ epoch-record_vote e v)
  ]
]
