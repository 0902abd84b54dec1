-- ===== src/Core/Vote.antt =====
-- core/vote.go: votes and vote sets. A hash is a number, 0 for the empty one, and so is an address.
-- The map of a vote set is the list of its entries in the order in which the runtime ranges over
-- them, which Go leaves open: a theorem about every vote set holds for every such order. The key
-- strings spell the voter, the block and the epoch, so two keys agree when these do.
pub mod Latest
pub mod Signing
use theta_protocol_subchain.Prelude.{
  ℕ, Bool, true, false, ◌&&◌, Option, none, some, List, [], ◌∷◌, leb, ◌==◌, if◌then◌else◌, length,
  is_some,
}
use theta_protocol_subchain.Prelude.Sorting.{sort_by}
use theta_protocol_subchain.Core.Validator.{ValidatorSet, get_validator}

-- The package `crypto` and the RLP encoding, as `Validate` uses them.
pub record Crypto : Type 0 where
  pub encode_vote : ℕ → ℕ → ℕ → ℕ → ℕ → List ℕ
  pub is_empty_signature : List ℕ → Bool
  pub verify : List ℕ → List ℕ → ℕ → Bool

pub record Vote : Type 0 where
  pub block : ℕ
  pub height : ℕ
  pub mainchain_height : ℕ
  pub epoch : ℕ
  pub id : ℕ
  pub signature : Option (List ℕ)

abbrev pub vote_id : Vote → ℕ
vote_id v = v.id

-- The fields of `vv` that the literal leaves out are zero.
unfoldable pub sign_bytes : Crypto → Vote → List ℕ
sign_bytes c v = c.encode_vote v.block 0 0 v.epoch v.id

unfoldable pub set_signature : Vote → Option (List ℕ) → Vote
set_signature v sig = record v { signature = sig }

-- `Validate` is `true` where the result is OK.
unfoldable pub validate_vote : Crypto → Vote → Bool
unfolding sign_bytes
validate_vote c v =
    if v.block == 0
    then false
    else (if v.id == 0 then false else elim v.signature [
      | none ↦ false
      | some sig ↦ if c.is_empty_signature sig then false else c.verify sig (sign_bytes c v) v.id
    ])

pub record VoteSet : Type 0 where
  pub votes : List Vote

unfoldable pub new_vote_set : VoteSet
new_vote_set = record { votes = [] }

-- Whether two votes have the key of `AddVote`.
unfoldable pub same_key : Vote → Vote → Bool
same_key v w = v.id == w.id && (v.block == w.block && v.epoch == w.epoch)

-- Whether two votes have the key of `UniqueVoter`.
unfoldable pub same_voter : Vote → Vote → Bool
same_voter v w = v.id == w.id

-- Whether two votes have the key of `UniqueVoterAndBlock`.
unfoldable pub same_voter_and_block : Vote → Vote → Bool
same_voter_and_block v w = v.id == w.id && v.block == w.block

-- An assignment to the entry of a map whose key is that of the vote.
unfoldable pub put : (Vote → Vote → Bool) → Vote → List Vote → List Vote
put same v [] = v ∷ []
put same v (w ∷ ws) = if same v w then v ∷ ws else w ∷ put same v ws

-- A lookup in such a map.
unfoldable pub find : (Vote → Vote → Bool) → Vote → List Vote → Option Vote
find same v [] = none
find same v (w ∷ ws) = if same v w then some w else find same v ws

unfoldable pub add_vote : VoteSet → Vote → VoteSet
unfolding put same_key
add_vote s v = record { votes = put same_key v s.votes }

-- The loops that add the votes of a slice one by one.
unfoldable pub add_votes : VoteSet → List Vote → VoteSet
unfolding add_vote
add_votes s [] = s
add_votes s (v ∷ vs) = add_votes (add_vote s v) vs

unfoldable pub size : VoteSet → ℕ
size s = length s.votes

unfoldable pub is_empty : VoteSet → Bool
unfolding size
is_empty s = size s == 0

unfoldable pub sorted_votes : VoteSet → List Vote
unfolding sort_by
sorted_votes s = sort_by vote_id s.votes

unfoldable pub copy : VoteSet → VoteSet
unfolding add_votes sorted_votes new_vote_set
copy s = add_votes new_vote_set (sorted_votes s)

-- The loop of the set's `Validate`.
unfoldable pub validate_votes : Crypto → List Vote → Bool
unfolding validate_vote
validate_votes c [] = true
validate_votes c (v ∷ vs) =
    let rest = validate_votes c vs in if validate_vote c v then rest else false

unfoldable pub validate_vote_set : Crypto → VoteSet → Bool
unfolding validate_votes
validate_vote_set c s = validate_votes c s.votes

unfoldable pub merge : VoteSet → VoteSet → VoteSet
unfolding add_votes sorted_votes new_vote_set
merge s another = add_votes (add_votes new_vote_set (sorted_votes s)) (sorted_votes another)

-- Whether the loop skips the vote: an entry of its key is at least as new.
unfoldable pub is_stale : (Vote → Vote → Bool) → List Vote → Vote → Bool
unfolding find
is_stale same latest v = elim (find same v latest) [
  | none ↦ false
  | some prev ↦ leb v.epoch prev.epoch
]

-- The first loop of `UniqueVoter` and `UniqueVoterAndBlock`, over the entries of the map.
unfoldable pub latest_votes : (Vote → Vote → Bool) → List Vote → List Vote → List Vote
unfolding is_stale put
latest_votes same latest [] = latest
latest_votes same latest (v ∷ vs) =
    latest_votes same (if is_stale same latest v then latest else put same v latest) vs

unfoldable pub unique_voter_and_block : VoteSet → VoteSet
unfolding latest_votes add_votes new_vote_set same_voter_and_block
unique_voter_and_block s = add_votes new_vote_set (latest_votes same_voter_and_block [] s.votes)

unfoldable pub unique_voter : VoteSet → VoteSet
unfolding latest_votes add_votes new_vote_set same_voter
unique_voter s = add_votes new_vote_set (latest_votes same_voter [] s.votes)

-- The loop of `FilterByValidators`.
unfoldable pub add_validator_votes : ValidatorSet → VoteSet → List Vote → VoteSet
unfolding add_vote get_validator
add_validator_votes validators ret [] = ret
add_validator_votes validators ret (v ∷ vs) =
    add_validator_votes validators
      (if is_some (get_validator validators v.id) then add_vote ret v else ret) vs

unfoldable pub filter_by_validators : VoteSet → ValidatorSet → VoteSet
unfolding add_validator_votes new_vote_set
filter_by_validators s validators = add_validator_votes validators new_vote_set s.votes
