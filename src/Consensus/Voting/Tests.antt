-- ===== src/Consensus/Voting/Tests.antt =====
-- consensus/engine.go: the votes of a node, and a vote that ends an epoch.
use theta_protocol_subchain.Prelude.{
  ℕ, ◌+◌, ◌-◌, ◌*◌, ◌<◌, ◌≡◌, refl, ◌⊎◌, inl, inr, arith, true, false, Option, none, some, [], ◌∷◌,
}
use theta_protocol_subchain.Prelude.Dict.{lookup, insert}
use theta_protocol_subchain.Samples.{vote_of, block_2, block_3, toy_env, toy_engine}
use theta_protocol_subchain.Core.Validator.{ValidatorSet, total_stake}
use theta_protocol_subchain.Core.Vote.{Vote, validate_vote, sorted_votes}
use theta_protocol_subchain.Core.Certificate.Quorum.{stake_where, has_voted}
use theta_protocol_subchain.Core.Block.{ExtendedBlock, is_valid}
use theta_protocol_subchain.Chain.Store.{find_block}
use theta_protocol_subchain.Consensus.Engine.{
  Engine, get_last_finalized_block, get_next_validator_set,
}
use theta_protocol_subchain.Consensus.Voting.{
  next_vote, record_vote, current_epoch_votes, handle_vote,
}
use theta_protocol_subchain.Consensus.Voting.Safety.{Voted, start, cast, Voted-no_equivocation}
use theta_protocol_subchain.Consensus.Voting.Majority.{handle_vote_epoch}

-- The engine of a step that succeeds.
abbrev engine_of_pair : {A : Type 0} → Option (Engine × A) → Engine
engine_of_pair none = toy_engine
engine_of_pair (some r) = r.0

abbrev vote_of_pair : Option (Engine × Vote) → Vote
vote_of_pair none = vote_of 0 0 0
vote_of_pair (some r) = r.1

-- The vote of 30 after those of 10 and 20.
abbrev ended_engine : Engine
unfolding handle_vote lookup insert is_valid validate_vote
ended_engine = engine_of_pair (handle_vote toy_env toy_engine (vote_of 30 3 3))

epoch_ends : handle_vote toy_env toy_engine (vote_of 30 3 3) ≡ some (ended_engine, true)
unfolding handle_vote ended_engine lookup insert is_valid validate_vote
epoch_ends = refl

next_is_four : ended_engine.state.epoch ≡ 4
unfolding ended_engine
next_is_four = refl

handle_vote_epoch_example :
    ((true ≡ false) × (ended_engine.state.epoch ≡ toy_engine.state.epoch))
    ⊎ ((true ≡ true)
        × (toy_engine.state.epoch < ended_engine.state.epoch)
        × (ended_engine.state.epoch ≡ 3 + 1)
        × (lfb : ExtendedBlock) × (validators : ValidatorSet) × (get_last_finalized_block
              (record_vote toy_engine (vote_of 30 3 3))
            ≡ some lfb)
        × (get_next_validator_set toy_env lfb.hash ≡ some validators)
        × (total_stake validators * 2
            < stake_where
                (has_voted
                  (sorted_votes (current_epoch_votes (record_vote toy_engine (vote_of 30 3 3)) 3)))
                validators.validators
              * 3))
handle_vote_epoch_example =
    handle_vote_epoch toy_env toy_engine ended_engine (vote_of 30 3 3) true (omega arith) epoch_ends

-- A first vote, for the third block.
abbrev voted_engine : Engine
unfolding next_vote lookup
voted_engine = engine_of_pair (next_vote toy_env toy_engine block_3)

abbrev first_vote : Vote
unfolding next_vote lookup
first_vote = vote_of_pair (next_vote toy_env toy_engine block_3)

first_run : next_vote toy_env toy_engine block_3 ≡ some (voted_engine, first_vote)
unfolding next_vote lookup voted_engine first_vote
first_run = refl

-- The next epoch, in which the tip is the second block.
abbrev next_engine : Engine
unfolding voted_engine
next_engine = record voted_engine { state = record (voted_engine.state) { epoch = 4 } }

abbrev second_vote : Vote
unfolding next_vote lookup next_engine
second_vote = vote_of_pair (next_vote toy_env next_engine block_2)

second_run : next_vote toy_env next_engine block_2 ≡ some (next_engine, second_vote)
unfolding next_vote lookup next_engine second_vote
second_run = refl

abbrev toy_height : ℕ → ℕ
toy_height h = h - 1

toy_chain_is_regular :
    (h : ℕ) (b : ExtendedBlock)
    → find_block toy_engine.chain h ≡ some b
    → (b.hash ≡ h) × (b.height ≡ toy_height h)
unfolding find_block lookup
toy_chain_is_regular h b e = ground arith

two_votes : Voted toy_env toy_height next_engine.state.last_vote (second_vote ∷ first_vote ∷ [])
unfolding next_engine voted_engine find_block lookup
two_votes =
    cast
      (cast (start refl) toy_engine voted_engine block_3 first_vote refl toy_chain_is_regular refl
        first_run refl)
      next_engine next_engine block_2 second_vote refl toy_chain_is_regular refl second_run refl

Voted-no_equivocation_example : second_vote.block ≡ first_vote.block
unfolding second_vote first_vote
Voted-no_equivocation_example =
    Voted-no_equivocation toy_env toy_height next_engine.state.last_vote
      (second_vote ∷ first_vote ∷ []) two_votes second_vote first_vote (inl refl) (inr (inl refl))
      refl (ground arith)
