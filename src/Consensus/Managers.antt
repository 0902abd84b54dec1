-- ===== src/Consensus/Managers.antt =====
-- consensus/validator.go: the validator set of a block, and the choice of the proposer. A panic is
-- `none`.
use theta_protocol_subchain.Prelude.{
  ℕ, zero, suc, ◌+◌, ◌-◌, ◌/◌, ◌%◌, ◌^◌, Bool, Option, none, some, List, [], ◌∷◌, ltb, leb, ◌==◌,
  if◌then◌else◌, ◌>>=◌,
}
use theta_protocol_subchain.Core.Validator.{
  Validator, ValidatorSet, new_validator, new_validator_set, add_validator, size, total_stake,
}

-- The validators at the first index, or the panic on an empty set.
unfoldable pub get_fixed_proposer : ValidatorSet → Option Validator
get_fixed_proposer s = elim s.validators [ [] ↦ none | v ∷ vs ↦ some v ]

-- The loop of `FilterValidators`.
unfoldable pub filter_from : ValidatorSet → List Validator → ValidatorSet
unfolding add_validator new_validator
filter_from s [] = s
filter_from s (v ∷ vs) =
    filter_from (if v.stake == 0 then s else add_validator s (new_validator v.address v.stake)) vs

unfoldable pub filter_validators : ValidatorSet → ValidatorSet
unfolding filter_from new_validator_set
filter_validators vs = filter_from (new_validator_set vs.dynasty) vs.validators

-- `GetFinalizedValidatorSet` of the ledger; `none` is an error or a nil set, on which the caller
-- panics.
unfoldable pub select_validators_for_block :
    (ℕ → Bool → Option ValidatorSet) → ℕ → Bool → Option ValidatorSet
unfolding filter_validators
select_validators_for_block finalized_set hash is_next = elim (finalized_set hash is_next) [
  | none ↦ none
  | some vs ↦ some (filter_validators vs)
]

-- `x.Uint64()` keeps the low 64 bits.
abbrev pub uint64 : ℕ → ℕ
uint64 n = n % 2 ^ 64

unfoldable pub scale_down : ℕ → ℕ → Option ℕ
scale_down x scaling_factor =
    if scaling_factor == 0 then none else some (uint64 (x / scaling_factor))

-- The generator of `math/rand` seeded by an epoch: `Int63n`, and the n-th draw of `Uint64`.
pub record Rand : Type 0 where
  pub int63n : ℕ → ℕ → ℕ
  pub next_uint64 : ℕ → ℕ → ℕ

-- The rejection loop of `randUint64`, on fuel.
unfoldable pub draw_below : Rand → ℕ → ℕ → ℕ → ℕ → Option ℕ
draw_below rnd epoch max i zero = none
draw_below rnd epoch max i (suc fuel) =
    let r = rnd.next_uint64 epoch i in
    let rest = draw_below rnd epoch max (i + 1) fuel in if ltb r max then some r else rest

-- `Int63n` panics unless its bound is positive.
unfoldable pub rand_uint64 : Rand → ℕ → ℕ → ℕ → Option ℕ
unfolding draw_below
rand_uint64 rnd fuel epoch max =
    if leb max (2 ^ 63 - 1)
    then (if max == 0 then none else some (rnd.int63n epoch max))
    else draw_below rnd epoch max 0 fuel

-- The loop over the validators; its end is the panic.
unfoldable pub pick : ℕ → ℕ → ℕ → List Validator → Option Validator
unfolding scale_down
pick scaling_factor r curr [] = none
pick scaling_factor r curr (v ∷ vs) = elim (scale_down v.stake scaling_factor) [
  | none ↦ none
  | some share ↦
      let next = uint64 (curr + share) in
      let rest = pick scaling_factor r next vs in if ltb r next then some v else rest
]

-- `big_max_uint32` is `common.BigMaxUint32`.
unfoldable pub scaling_factor_of : ℕ → ValidatorSet → ℕ
unfolding total_stake
scaling_factor_of big_max_uint32 s = total_stake s / big_max_uint32 + 1

unfoldable pub get_rotating_proposer : Rand → ℕ → ℕ → ValidatorSet → ℕ → Option Validator
unfolding scaling_factor_of scale_down rand_uint64 pick size total_stake
get_rotating_proposer rnd fuel big_max_uint32 s epoch = if size s == 0 then none else do
  let scaling_factor = scaling_factor_of big_max_uint32 s
  scaled_total_stake ← scale_down (total_stake s) scaling_factor
  r ← rand_uint64 rnd fuel epoch scaled_total_stake
  pick scaling_factor r 0 s.validators
