-- ===== src/Consensus/Filter.antt =====
-- consensus/validator.go `FilterValidators`: what it keeps.
use theta_protocol_subchain.Prelude.{
  ◌+◌, ◌<◌, ◌≡◌, ◌∙◌, ◌↔◌, ◌⊎◌, inl, inr, List, [], ◌∷◌, arith, ◌==◌, if◌then◌else◌, ==→eq,
  Bool-cases, In,
}
use theta_protocol_subchain.Prelude.Sorting.{
  insert_by, In-insert_by, In-insert_by_self, In-insert_by_old,
}
use theta_protocol_subchain.Core.Validator.{
  Validator, id, ValidatorSet, new_validator, new_validator_set, add_validator, total_stake,
  sum_stake,
}
use theta_protocol_subchain.Core.Validator.Sets.{
  IsOrdered, add_validator-IsOrdered, validators-add_validator, sum_stake_from, sum_stake-insert_by,
}
use theta_protocol_subchain.Consensus.Managers.{filter_from, filter_validators}

abbrev add_if_staked : ValidatorSet → Validator → ValidatorSet
add_if_staked s v = if v.stake == 0 then s else add_validator s (new_validator v.address v.stake)

add_if_staked-IsOrdered :
    (s : ValidatorSet) (v : Validator) → IsOrdered s → IsOrdered (add_if_staked s v)
add_if_staked-IsOrdered s v h = elim (Bool-cases (v.stake == 0)) [
  | inl zero_ ↦ rw zero_ h
  | inr staked ↦ rw staked (add_validator-IsOrdered s (new_validator v.address v.stake))
]

validators-add_if_staked :
    (s : ValidatorSet) (v : Validator)
    → IsOrdered s
    → (add_if_staked s v).validators
      ≡ (if v.stake == 0 then s.validators else insert_by id v s.validators)
unfolding new_validator
validators-add_if_staked s v h = ground (arith, validators-add_validator s v h)

total_stake-filter_from :
    (s : ValidatorSet) (vs : List Validator)
    → IsOrdered s
    → total_stake (filter_from s vs) ≡ total_stake s + sum_stake 0 vs
unfolding filter_from sum_stake total_stake
total_stake-filter_from s [] h = omega arith
total_stake-filter_from s (v ∷ vs) h = ground (
  arith,
  total_stake-filter_from (add_if_staked s v) vs (add_if_staked-IsOrdered s v h),
  validators-add_if_staked s v h,
  sum_stake-insert_by v s.validators,
  sum_stake_from (0 + v.stake) vs,
)

In-add_if_staked :
    (s : ValidatorSet) (v w : Validator)
    → IsOrdered s
    → In w (add_if_staked s v).validators ↔ (In w s.validators ⊎ ((w ≡ v) × (0 < w.stake)))
In-add_if_staked s v w h = elim (Bool-cases (v.stake == 0)) [
  | inl zero_ ↦
      rw (validators-add_if_staked s v h, zero_)
        (
          λ i. inl i,
          elim [
            | inl i ↦ i
            | inr (e, pos) ↦
                let unstaked : w.stake ≡ 0 = rw e (==→eq _ _ zero_) in absurd (omega arith)
          ],
        )
  | inr staked ↦
      rw (validators-add_if_staked s v h, staked)
        (
          λ i. elim (In-insert_by id w v s.validators i) [
            | inl e ↦ inr (e, rw e (ground arith))
            | inr old ↦ inl old
          ],
          elim [
            | inl i ↦ In-insert_by_old id w v s.validators i
            | inr (e, _) ↦ rw e (In-insert_by_self id v s.validators)
          ],
        )
]

-- A validator is in the result exactly if it was there before, or was added with a stake.
In-filter_from :
    (s : ValidatorSet) (vs : List Validator) (w : Validator)
    → IsOrdered s
    → In w (filter_from s vs).validators ↔ (In w s.validators ⊎ (In w vs × (0 < w.stake)))
unfolding filter_from
In-filter_from s [] w h = (λ i. inl i, elim [ inl i ↦ i | inr none_ ↦ absurd none_.0 ])
In-filter_from s (v ∷ vs) w h =
    let (to, from_) = In-filter_from (add_if_staked s v) vs w (add_if_staked-IsOrdered s v h) in
    let (one, one') = In-add_if_staked s v w h in
    (
      λ i. elim (to i) [
        | inl early ↦ elim (one early) [ inl old ↦ inl old | inr (e, pos) ↦ inr (inl e, pos) ]
        | inr (later, pos) ↦ inr (inr later, pos)
      ],
      elim [
        | inl old ↦ from_ (inl (one' (inl old)))
        | inr (inl e, pos) ↦ from_ (inl (one' (inr (e, pos))))
        | inr (inr later, pos) ↦ from_ (inr (later, pos))
      ],
    )

filter_from-IsOrdered :
    (s : ValidatorSet) (vs : List Validator) → IsOrdered s → IsOrdered (filter_from s vs)
unfolding filter_from
filter_from-IsOrdered s [] h = h
filter_from-IsOrdered s (v ∷ vs) h =
    filter_from-IsOrdered (add_if_staked s v) vs (add_if_staked-IsOrdered s v h)

-- `FilterValidators` gives an ordered set of the validators with a positive stake and no others,
-- with the total stake of the set that it was given.
pub filter_validators_lem :
    (vs : ValidatorSet)
    → IsOrdered (filter_validators vs)
      × (total_stake (filter_validators vs) ≡ total_stake vs)
      × ((w : Validator)
          → In w (filter_validators vs).validators ↔ (In w vs.validators × (0 < w.stake)))
unfolding filter_validators new_validator_set
filter_validators_lem vs =
    let empty : ValidatorSet = record { dynasty = vs.dynasty; validators = [] } in
    (
      filter_from-IsOrdered empty vs.validators tt,
      total_stake-filter_from empty vs.validators tt ∙ unfold total_stake sum_stake in omega arith,
      λ w.
          let (to, from_) = In-filter_from empty vs.validators w tt in
          (λ i. elim (to i) [ inl none_ ↦ absurd none_ | inr r ↦ r ], λ r. from_ (inr r)),
    )
