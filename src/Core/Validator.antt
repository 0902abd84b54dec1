-- ===== src/Core/Validator.antt =====
-- core/validator.go: validators and validator sets. An address is the number that its bytes spell,
-- so that `bytes.Compare` on two addresses is the order of the numbers; a stake is a natural number,
-- since the RLP encoding of a `*big.Int` admits no negative one.
pub mod Sets
use theta_protocol_subchain.Prelude.{
  ℕ, ◌+◌, Bool, true, false, Option, none, some, List, [], ◌∷◌, ◌++◌, ◌==◌, if◌then◌else◌, length,
}
use theta_protocol_subchain.Prelude.Sorting.{sort_by}

pub record Validator : Type 0 where
  pub address : ℕ
  pub stake : ℕ

pub record ValidatorSet : Type 0 where
  pub dynasty : ℕ
  pub validators : List Validator

-- The constructor over an address already read from its hex form.
unfoldable pub new_validator : ℕ → ℕ → Validator
new_validator address stake = record { address = address; stake = stake }

abbrev pub id : Validator → ℕ
id v = v.address

unfoldable pub equal_validator : Validator → Validator → Bool
equal_validator v x =
    if v.address == x.address then (if v.stake == x.stake then true else false) else false

unfoldable pub new_validator_set : ℕ → ValidatorSet
new_validator_set dynasty = record { dynasty = dynasty; validators = [] }

unfoldable pub size : ValidatorSet → ℕ
size s = length s.validators

-- The loop of `Equals` over two slices of one length.
unfoldable pub equal_all : List Validator → List Validator → Bool
unfolding equal_validator
equal_all [] _ = true
equal_all (v ∷ vs) [] = true
equal_all (v ∷ vs) (w ∷ ws) =
    let rest = equal_all vs ws in if equal_validator v w then rest else false

unfoldable pub equals : ValidatorSet → ValidatorSet → Bool
unfolding equal_all
equals s t =
    if s.dynasty == t.dynasty
    then (if length s.validators == length t.validators
        then equal_all s.validators t.validators
        else false)
    else false

-- The loop of `GetValidator`; `none` is ErrValidatorNotFound.
unfoldable pub find_validator : ℕ → List Validator → Option Validator
find_validator i [] = none
find_validator i (v ∷ vs) = if v.address == i then some v else find_validator i vs

unfoldable pub get_validator : ValidatorSet → ℕ → Option Validator
unfolding find_validator
get_validator s i = find_validator i s.validators

-- `sort.Sort` is an insertion sort here. It is not stable in general: where a set has two validators of
-- one address, their order is that of this sort.
unfoldable pub add_validator : ValidatorSet → Validator → ValidatorSet
unfolding sort_by
add_validator s v = record s { validators = sort_by id (s.validators ++ v ∷ []) }

-- The loop of `Copy`, and of every caller that builds a set one validator at a time.
unfoldable pub add_validators : ValidatorSet → List Validator → ValidatorSet
unfolding add_validator
add_validators s [] = s
add_validators s (v ∷ vs) = add_validators (add_validator s v) vs

unfoldable pub copy : ValidatorSet → ValidatorSet
unfolding add_validators new_validator_set
copy s = add_validators (new_validator_set s.dynasty) s.validators

-- The loop of `TotalStake`.
unfoldable pub sum_stake : ℕ → List Validator → ℕ
sum_stake ret [] = ret
sum_stake ret (v ∷ vs) = sum_stake (ret + v.stake) vs

unfoldable pub total_stake : ValidatorSet → ℕ
unfolding sum_stake
total_stake s = sum_stake 0 s.validators
