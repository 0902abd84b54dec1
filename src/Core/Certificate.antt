-- ===== src/Core/Certificate.antt =====
-- core/validator.go `HasMajorityVotes`, `HasMajority`; core/vote.go `Proposal`, `CommitCertificate`.
pub mod Quorum
use theta_protocol_subchain.Prelude.{
  ℕ, ◌+◌, ◌*◌, Bool, true, false, not, Option, none, some, List, [], ◌∷◌, ltb, ◌==◌, if◌then◌else◌,
}
use theta_protocol_subchain.Core.Validator.{Validator, ValidatorSet, get_validator, total_stake}
use theta_protocol_subchain.Core.Validator as Val
use theta_protocol_subchain.Core.Vote.{
  Crypto, Vote, VoteSet, validate_vote, is_empty, sorted_votes, unique_voter,
}
use theta_protocol_subchain.Core.Vote as Vot

-- What one vote adds to `votedStake`.
unfoldable pub stake_of_voter : ValidatorSet → ℕ → ℕ
unfolding get_validator
stake_of_voter s i = elim (get_validator s i) [ none ↦ 0 | some v ↦ v.stake ]

-- The loop of `HasMajorityVotes`.
unfoldable pub voted_stake : ValidatorSet → ℕ → List Vote → ℕ
unfolding stake_of_voter
voted_stake s acc [] = acc
voted_stake s acc (v ∷ vs) = voted_stake s (acc + stake_of_voter s v.id) vs

unfoldable pub has_majority_votes : ValidatorSet → List Vote → Bool
unfolding voted_stake total_stake
has_majority_votes s votes = ltb (total_stake s * 2) (voted_stake s 0 votes * 3)

unfoldable pub has_majority : ValidatorSet → VoteSet → Bool
unfolding has_majority_votes sorted_votes
has_majority s votes = has_majority_votes s (sorted_votes votes)

-- `Votes` may be nil.
pub record CommitCertificate : Type 0 where
  pub votes : Option VoteSet
  pub block_hash : ℕ

-- The loop of `IsValid`.
unfoldable pub all_votes_for : Crypto → ℕ → List Vote → Bool
unfolding validate_vote
all_votes_for c hash [] = true
all_votes_for c hash (v ∷ vs) =
    let rest = all_votes_for c hash vs in
    if v.block == hash then (if validate_vote c v then rest else false) else false

-- The steps of `IsValid` after the nil test.
unfoldable pub is_valid_votes : Crypto → ValidatorSet → ℕ → VoteSet → Bool
unfolding unique_voter is_empty all_votes_for has_majority Vot.size Val.size
is_valid_votes c validators hash votes =
    let filtered = unique_voter votes in
    if is_empty votes
    then false
    else if not (Vot.size filtered == Vot.size votes)
    then false
    else if ltb (Val.size validators) (Vot.size filtered)
    then false
    else if all_votes_for c hash (sorted_votes filtered)
    then has_majority validators filtered
    else false

unfoldable pub is_valid : Crypto → CommitCertificate → ValidatorSet → Bool
unfolding is_valid_votes
is_valid c cc validators = elim cc.votes [
  | none ↦ false
  | some votes ↦ is_valid_votes c validators cc.block_hash votes
]

unfoldable pub copy_certificate : CommitCertificate → CommitCertificate
unfolding Vot.copy
copy_certificate cc = record {
  votes = elim cc.votes [ none ↦ none | some votes ↦ some (Vot.copy votes) ];
  block_hash = cc.block_hash;
}
