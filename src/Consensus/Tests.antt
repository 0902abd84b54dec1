-- ===== src/Consensus/Tests.antt =====
-- The package `consensus` on the sample chain: one node's votes, finalization, and the rules on blocks.
use theta_protocol_subchain.Prelude.{
  ◌+◌, ◌/◌, ◌≤◌, ◌<◌, ◌≡◌, refl, ◌↔◌, ◌⊎◌, arith, Option, none, some, [], ◌∷◌, In,
}
use theta_protocol_subchain.Samples.{staked, four_validators, toy_env, toy_engine}
use theta_protocol_subchain.Core.Validator.{Validator, ValidatorSet, total_stake, size}
use theta_protocol_subchain.Core.Validator.Sets.{IsOrdered}
use theta_protocol_subchain.Consensus.Managers.{
  filter_validators, scaling_factor_of, get_rotating_proposer,
}
use theta_protocol_subchain.Consensus.Proposer.{sum_shares, IsBounded, get_rotating_proposer_lem}
use theta_protocol_subchain.Consensus.Filter.{filter_validators_lem}
use theta_protocol_subchain.Consensus.Engine.{Engine}

-- The engine of a step that succeeds.
abbrev engine_of : Option Engine → Engine
engine_of none = toy_engine
engine_of (some e) = e

abbrev engine_of_pair : {A : Type 0} → Option (Engine × A) → Engine
engine_of_pair none = toy_engine
engine_of_pair (some r) = r.0

toy-IsBounded : IsBounded toy_env.rand
toy-IsBounded epoch n pos = pos

four_are_staked : 0 < total_stake four_validators
unfolding total_stake
four_are_staked = omega arith

get_rotating_proposer_lem_example :
    let d = scaling_factor_of 4294967295 four_validators in
    let bound = total_stake four_validators / d in
    let drawn = toy_env.rand.int63n 3 bound in
    (((drawn < sum_shares d four_validators.validators)
        × (v : Validator) × (get_rotating_proposer toy_env.rand 1 4294967295 four_validators 3
            ≡ some v)
        × In v four_validators.validators
        × (0 < v.stake))
      ⊎ ((sum_shares d four_validators.validators ≤ drawn)
          × (get_rotating_proposer toy_env.rand 1 4294967295 four_validators 3 ≡ none)))
    × (drawn < bound)
    × (sum_shares d four_validators.validators ≤ bound)
    × (bound < sum_shares d four_validators.validators + size four_validators)
get_rotating_proposer_lem_example =
    get_rotating_proposer_lem toy_env.rand 1 4294967295 four_validators 3 toy-IsBounded
      (omega arith) (omega arith) four_are_staked

-- A validator without a stake among others.
abbrev unsorted_validators : ValidatorSet
unsorted_validators = record {
  dynasty = 1;
  validators = staked 30 5 ∷ staked 20 0 ∷ staked 10 7 ∷ [];
}

unsorted_filtered :
    (filter_validators unsorted_validators).validators ≡ staked 10 7 ∷ staked 30 5 ∷ []
unfolding filter_validators
unsorted_filtered = refl

filter_validators_lem_example :
    IsOrdered (filter_validators four_validators)
    × (total_stake (filter_validators four_validators) ≡ total_stake four_validators)
    × ((w : Validator)
        → In w (filter_validators four_validators).validators
          ↔ (In w four_validators.validators × (0 < w.stake)))
filter_validators_lem_example = filter_validators_lem four_validators
