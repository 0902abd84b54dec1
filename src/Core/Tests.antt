-- ===== src/Core/Tests.antt =====
-- The package `core` on small inputs: four validators, two blocks, and votes for them.
use theta_protocol_subchain.Prelude.{
  ◌*◌, ◌<◌, ◌≤◌, ◌≡◌, refl, arith, ◌&&◌, true, false, none, some, [], ◌∷◌, ◌++◌, All, In,
}
use theta_protocol_subchain.Prelude.Sorting.{IsDistinct}
use mathlib.Core.List.{Perm}
use mathlib.Core.List.Perm
use theta_protocol_subchain.Core.Validator.{id, add_validators, get_validator, total_stake}
use theta_protocol_subchain.Core.Validator.Sets.{IsOrdered, add_validators-perm}
use theta_protocol_subchain.Core.Vote.{Vote, vote_id, unique_voter, validate_vote}
use theta_protocol_subchain.Core.Vote.Latest.{unique_voter_lem}
use theta_protocol_subchain.Core.Certificate.{is_valid, has_majority}
use theta_protocol_subchain.Core.Certificate.Quorum.{
  stake_where, has_signed, valid_certificates_overlap,
}
use theta_protocol_subchain.Samples.{
  toy_crypto, staked, four_validators, vote_of, votes_for_seven, votes_for_eight, repeated_votes,
}

size_of_latest : (unique_voter repeated_votes).votes ≡ vote_of 10 7 3 ∷ vote_of 20 7 3 ∷ []
unfolding unique_voter
size_of_latest = refl

-- `HasMajority` counts the votes that it is given, two of one voter twice.
double_vote_counts_twice :
    (has_majority four_validators repeated_votes ≡ true)
    × (has_majority four_validators (unique_voter repeated_votes) ≡ false)
unfolding has_majority unique_voter
double_vote_counts_twice = (refl, refl)

seven_has_majority : has_majority four_validators votes_for_seven ≡ true
unfolding has_majority
seven_has_majority = refl

eight_has_majority : has_majority four_validators votes_for_eight ≡ true
unfolding has_majority
eight_has_majority = refl

seven_is_certified :
    is_valid toy_crypto (record { votes = some votes_for_seven; block_hash = 7 }) four_validators
    ≡ true
unfolding is_valid
seven_is_certified = refl

eight_is_certified :
    is_valid toy_crypto (record { votes = some votes_for_eight; block_hash = 8 }) four_validators
    ≡ true
unfolding is_valid
eight_is_certified = refl

valid_certificates_overlap_example :
    total_stake four_validators
    < stake_where
        (λ i.
          has_signed toy_crypto 7 votes_for_seven.votes i
          && has_signed toy_crypto 8 votes_for_eight.votes i)
        four_validators.validators
      * 3
valid_certificates_overlap_example =
    valid_certificates_overlap toy_crypto four_validators 7 8 votes_for_seven votes_for_eight
      seven_is_certified eight_is_certified

seven-IsDistinct : IsDistinct vote_id votes_for_seven.votes
seven-IsDistinct = ground arith

eight-IsDistinct : IsDistinct vote_id votes_for_eight.votes
eight-IsDistinct = ground arith

unique_voter_lem_example :
    IsDistinct vote_id (unique_voter repeated_votes).votes
    × All (λ v. In v repeated_votes.votes) (unique_voter repeated_votes).votes
    × All
        (λ w.
          (v : Vote) × In v (unique_voter repeated_votes).votes
          × (v.id ≡ w.id)
          × (w.epoch ≤ v.epoch))
        repeated_votes.votes
unique_voter_lem_example = unique_voter_lem repeated_votes

ten_is_valid : validate_vote toy_crypto (vote_of 10 7 3) ≡ true
unfolding validate_vote
ten_is_valid = refl

four_are-IsOrdered : IsOrdered four_validators
four_are-IsOrdered = ground arith

none_at_25 : get_validator four_validators 25 ≡ none
unfolding get_validator
none_at_25 = refl

two_are-IsDistinct : IsDistinct id (four_validators.validators ++ staked 50 1 ∷ staked 5 2 ∷ [])
two_are-IsDistinct = ground arith

two_swapped : Perm (staked 50 1 ∷ staked 5 2 ∷ []) (staked 5 2 ∷ staked 50 1 ∷ [])
two_swapped = Perm.swap (staked 5 2) (staked 50 1) []

add_validators-perm_example :
    add_validators four_validators (staked 50 1 ∷ staked 5 2 ∷ [])
    ≡ add_validators four_validators (staked 5 2 ∷ staked 50 1 ∷ [])
add_validators-perm_example =
    add_validators-perm four_validators four_are-IsOrdered two_are-IsDistinct two_swapped
