-- ===== src/Core/Validator/Sets.antt =====
-- core/validator.go: what `AddValidator`, `Copy`, `Equals`, `GetValidator` and `TotalStake` do.
use theta_protocol_subchain.Prelude.{
  ℕ, ◌+◌, ◌≡◌, refl, sym, ap, ◌∙◌, ◌↔◌, true, none, some, List, [], ◌∷◌, ◌++◌, arith, ◌==◌,
  if◌then◌else◌, length,
}
use theta_protocol_subchain.Prelude.Sorting.{
  insert_by, sort_from, IsSorted, IsDistinct, sort_by-IsSorted, sort_by_sorted, sort_by-concat,
}
use mathlib.Core.List.{append-nil, append_assoc}
use mathlib.Core.List.{Perm}
use mathlib.Core.Logic.{∥∥₁_elim}
use theta_protocol_subchain.Prelude.Sorting.Shuffle.{sort_from-Permᴰ, IsSorted-prefix}
use theta_protocol_subchain.Core.Validator.{
  Validator, id, ValidatorSet, equal_validator, equal_all, equals, find_validator, get_validator,
  add_validator, add_validators, new_validator_set, copy, sum_stake, total_stake,
}

equal_validator_iff : (v w : Validator) → equal_validator v w ≡ true → v ≡ w
unfolding equal_validator
equal_validator_iff v w h = ground arith

equal_validator_refl : (v : Validator) → equal_validator v v ≡ true
unfolding equal_validator
equal_validator_refl v = ground arith

equal_all_sound :
    (vs ws : List Validator) → length vs ≡ length ws → equal_all vs ws ≡ true → vs ≡ ws
unfolding equal_all
equal_all_sound [] [] l h = refl
equal_all_sound [] (w ∷ ws) l h = absurd (omega arith)
equal_all_sound (v ∷ vs) [] l h = absurd (omega arith)
equal_all_sound (v ∷ vs) (w ∷ ws) l h =
    ground (arith, equal_validator_iff v w, equal_all_sound vs ws (omega arith))

equal_all_refl : (vs : List Validator) → equal_all vs vs ≡ true
unfolding equal_all
equal_all_refl [] = refl
equal_all_refl (v ∷ vs) = rw (equal_validator_refl v, equal_all_refl vs)

-- `Equals` holds of exactly the pairs of equal sets: of one dynasty, and with the same validators
-- in the same order.
equals_iff : (s t : ValidatorSet) → (equals s t ≡ true) ↔ (s ≡ t)
unfolding equals
equals_iff s t = (
  λ h. ground (arith, equal_all_sound s.validators t.validators),
  λ e. rw e (ground (arith, equal_all_refl t.validators)),
)

-- A set that only `AddValidator` has built.
abbrev pub IsOrdered : ValidatorSet → Type 0
IsOrdered s = IsSorted id s.validators

pub add_validator-IsOrdered : (s : ValidatorSet) (v : Validator) → IsOrdered (add_validator s v)
unfolding add_validator
add_validator-IsOrdered s v = sort_by-IsSorted id (s.validators ++ v ∷ [])

pub validators-add_validator :
    (s : ValidatorSet) (v : Validator)
    → IsOrdered s
    → (add_validator s v).validators ≡ insert_by id v s.validators
unfolding add_validator
validators-add_validator s v h =
    sort_by-concat id s.validators v ∙ ap (insert_by id v) (sort_by_sorted id s.validators h)

find_validator-insert_by :
    (i : ℕ) (v : Validator) (ws : List Validator)
    → find_validator v.address ws ≡ none
    → find_validator i (insert_by id v ws)
      ≡ (if v.address == i then some v else find_validator i ws)
unfolding find_validator insert_by
find_validator-insert_by i v [] h = refl
find_validator-insert_by i v (w ∷ ws) h = ground (arith, find_validator-insert_by i v ws)

pub sum_stake_from : (acc : ℕ) (vs : List Validator) → sum_stake acc vs ≡ acc + sum_stake 0 vs
unfolding sum_stake
sum_stake_from acc [] = omega arith
sum_stake_from acc (v ∷ vs) =
    omega (arith, sum_stake_from (acc + v.stake) vs, sum_stake_from (0 + v.stake) vs)

pub sum_stake-insert_by :
    (v : Validator) (ws : List Validator)
    → sum_stake 0 (insert_by id v ws) ≡ sum_stake 0 ws + v.stake
unfolding sum_stake insert_by
sum_stake-insert_by v [] = omega arith
sum_stake-insert_by v (w ∷ ws) = ground (
  arith,
  sum_stake-insert_by v ws,
  sum_stake_from (0 + w.stake) (insert_by id v ws),
  sum_stake_from (0 + w.stake) ws,
  sum_stake_from (0 + v.stake) (w ∷ ws),
  sum_stake_from (0 + v.stake + w.stake) ws,
)

-- Adding a validator of a new address to an ordered set: the set stays ordered and of its
-- dynasty, `GetValidator` finds the new validator at its address and what it found before at
-- every other, and the total stake grows by the new stake.
add_validator_lem :
    (s : ValidatorSet) (v : Validator)
    → IsOrdered s
    → get_validator s v.address ≡ none
    → IsOrdered (add_validator s v)
      × ((add_validator s v).dynasty ≡ s.dynasty)
      × ((i : ℕ)
          → get_validator (add_validator s v) i
            ≡ (if v.address == i then some v else get_validator s i))
      × (total_stake (add_validator s v) ≡ total_stake s + v.stake)
unfolding get_validator total_stake
add_validator_lem s v h new =
    let list = validators-add_validator s v h in
    (
      add_validator-IsOrdered s v,
      unfold add_validator in refl,
      λ i. ap (find_validator i) list ∙ find_validator-insert_by i v s.validators new,
      ap (sum_stake 0) list ∙ sum_stake-insert_by v s.validators,
    )

add_validators_ordered :
    (s : ValidatorSet) (vs : List Validator)
    → IsSorted id (s.validators ++ vs)
    → add_validators s vs ≡ record s { validators = s.validators ++ vs }
unfolding add_validators add_validator
add_validators_ordered s [] h =
    ap (λ ws. record s { validators = ws }) (sym (append-nil s.validators))
add_validators_ordered s (v ∷ vs) h =
    let regroup = append_assoc s.validators (v ∷ []) vs in
    let sorted : IsSorted id ((s.validators ++ v ∷ []) ++ vs) = rw regroup h in
    ap (λ ws. add_validators (record s { validators = ws }) vs)
      (sort_by_sorted id (s.validators ++ v ∷ [])
        (IsSorted-prefix id (s.validators ++ v ∷ []) vs sorted))
    ∙ add_validators_ordered (record s { validators = s.validators ++ v ∷ [] }) vs sorted
    ∙ ap (λ ws. record s { validators = ws }) regroup

-- `Copy` gives a set equal to an ordered one.
copy_lem : (s : ValidatorSet) → IsOrdered s → copy s ≡ s
unfolding copy new_validator_set
copy_lem s h =
    add_validators_ordered (record { dynasty = s.dynasty; validators = [] }) s.validators h

-- Adding one by one sorts what is added into the set.
add_validators_sorts :
    (s : ValidatorSet) (vs : List Validator)
    → IsOrdered s
    → add_validators s vs ≡ record s { validators = sort_from id s.validators vs }
unfolding add_validators add_validator sort_from
add_validators_sorts s [] h = refl
add_validators_sorts s (v ∷ vs) h =
    let t = add_validator s v in
    add_validators_sorts t vs (add_validator-IsOrdered s v)
    ∙ ap (λ ws. record s { validators = sort_from id ws vs }) (validators-add_validator s v h)

IsDistinct-suffix : (us vs : List Validator) → IsDistinct id (us ++ vs) → IsDistinct id vs
IsDistinct-suffix [] vs d = d
IsDistinct-suffix (u ∷ us) vs d = IsDistinct-suffix us vs d.1

ValidatorSet-set : IsSet ValidatorSet
ValidatorSet-set = hlevel

-- Validators of addresses that are distinct and not in an ordered set of distinct addresses make
-- the same set in whatever order they are added to it.
pub add_validators-perm :
    (s : ValidatorSet) {vs ws : List Validator}
    → IsOrdered s
    → IsDistinct id (s.validators ++ vs)
    → Perm vs ws
    → add_validators s vs ≡ add_validators s ws
add_validators-perm s {vs} {ws} h d p = ∥∥₁_elim p (ValidatorSet-set _ _) λ q.
    add_validators_sorts s vs h
    ∙ ap (λ us. record s { validators = us })
        (sort_from-Permᴰ id s.validators q (IsDistinct-suffix s.validators vs d))
    ∙ sym (add_validators_sorts s ws h)
