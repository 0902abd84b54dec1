-- ===== src/Consensus/Proposer.antt =====
-- consensus/validator.go `getProposerFromValidators`: when the draw of a proposer succeeds.
use theta_protocol_subchain.Prelude.{
  ◌∙◌, ℕ, ◌+◌, ◌-◌, ◌*◌, ◌/◌, ◌^◌, ◌≤◌, ◌<◌, ◌≡◌, refl, ◌⊎◌, inl, inr, none, some, List, [], ◌∷◌,
  arith, length, In,
}
use native.Mathlib.Nat.{div-add-mod, mod-lt}
use native.Mathlib.Decide.{dec_lt}
use theta_protocol_subchain.Core.Validator.{Validator, ValidatorSet, size, total_stake, sum_stake}
use theta_protocol_subchain.Core.Validator.Sets.{sum_stake_from}
use theta_protocol_subchain.Consensus.Managers.{
  uint64, scale_down, Rand, rand_uint64, pick, scaling_factor_of, get_rotating_proposer,
}

-- The parts of the scaled total that the validators can be drawn for.
pub sum_shares : ℕ → List Validator → ℕ
sum_shares d [] = 0
sum_shares d (v ∷ vs) = v.stake / d + sum_shares d vs

-- Division by a positive number, as bounds on products.
div-lt : (x d m : ℕ) → 0 < d → x < d * m → x / d < m
div-lt x d m h lt = grind (arith, div-add-mod, mod-lt)

div-mul-le : (x d : ℕ) → d * (x / d) ≤ x
div-mul-le x d = grind (arith, div-add-mod)

lt-mul-div : (x d : ℕ) → 0 < d → x < d * (x / d) + d
lt-mul-div x d h = grind (arith, div-add-mod, mod-lt)

le-div : (q x d : ℕ) → 0 < d → d * q ≤ x → q ≤ x / d
le-div q x d h le = grind (arith, div-add-mod, mod-lt)

-- A sum of two quotients falls short of the quotient of the sum by one at most.
div-sum : (a b d : ℕ) → 0 < d → (a / d + b / d ≤ (a + b) / d) × ((a + b) / d < a / d + b / d + 2)
div-sum a b d h = (
  le-div (a / d + b / d) (a + b) d h (omega (arith, div-mul-le a d, div-mul-le b d)),
  div-lt (a + b) d (a / d + b / d + 2) h (omega (arith, lt-mul-div a d h, lt-mul-div b d h)),
)

sum_shares_bounds :
    (d : ℕ) (vs : List Validator)
    → 0 < d
    → (sum_shares d vs ≤ sum_stake 0 vs / d)
      × (sum_stake 0 vs / d ≤ sum_shares d vs + (length vs - 1))
unfolding sum_shares sum_stake
sum_shares_bounds d [] h = (omega arith, omega arith)
sum_shares_bounds d (v ∷ []) h =
    let plain : 0 + v.stake ≡ v.stake = omega arith in rw plain (omega arith, omega arith)
sum_shares_bounds d (v ∷ w ∷ vs) h =
    let plain : 0 + v.stake ≡ v.stake = omega arith in
    let (low, high) = sum_shares_bounds d (w ∷ vs) h in
    let (low', high') = div-sum v.stake (sum_stake 0 (w ∷ vs)) d h in
    rw (plain, sum_stake_from v.stake (w ∷ vs)) (omega arith, omega arith)

pick_inside :
    (d r curr : ℕ) (vs : List Validator)
    → 0 < d
    → curr ≤ r
    → r < curr + sum_shares d vs
    → curr + sum_shares d vs < 2 ^ 64
    → (v : Validator) × (pick d r curr vs ≡ some v) × In v vs × (0 < v.stake)
unfolding pick scale_down sum_shares
pick_inside d r curr [] h le lt bound = absurd (omega arith)
pick_inside d r curr (v ∷ vs) h le lt bound =
    let next : uint64 (curr + uint64 (v.stake / d)) ≡ curr + v.stake / d = omega arith in
    elim (dec_lt r (curr + v.stake / d)) [
      | yes here ↦ (v, ground (arith, next), inl refl, grind (arith, div-mul-le v.stake d))
      | no later ↦
          let (w, e, i, pos) =
            pick_inside d r (curr + v.stake / d) vs h (omega arith) (omega arith) (omega arith) in
          (w, ground (arith, next, e), inr i, pos)
    ]

pick_outside :
    (d r curr : ℕ) (vs : List Validator)
    → 0 < d
    → curr + sum_shares d vs ≤ r
    → curr + sum_shares d vs < 2 ^ 64
    → pick d r curr vs ≡ none
unfolding pick scale_down sum_shares
pick_outside d r curr [] h le bound = refl
pick_outside d r curr (v ∷ vs) h le bound =
    let next : uint64 (curr + uint64 (v.stake / d)) ≡ curr + v.stake / d = omega arith in
    ground (arith, next, pick_outside d r (curr + v.stake / d) vs h)

-- The scaled total is positive and below the scale.
scaled_total_bounds :
    (m total : ℕ)
    → 1 < m
    → 0 < total
    → (0 < total / (total / m + 1)) × (total / (total / m + 1) < m)
scaled_total_bounds m total large pos =
    let over = lt-mul-div total m (omega arith) in
    (
      le-div 1 total (total / m + 1) (omega arith) (grind (arith, div-mul-le total m)),
      div-lt total (total / m + 1) m (omega arith) (grind arith),
    )

nonempty : (s : ValidatorSet) → 0 < total_stake s → 0 < length s.validators
unfolding total_stake
nonempty s pos = go s.validators pos
  where
    go : (vs : List Validator) → 0 < sum_stake 0 vs → 0 < length vs
    go [] h = unfold sum_stake in omega arith
    go (v ∷ vs) h = omega arith

-- What `math/rand` documents of `Int63n`.
abbrev pub IsBounded : Rand → Type 0
IsBounded rnd = (epoch n : ℕ) → 0 < n → rnd.int63n epoch n < n

get_rotating_proposer-eq-pick :
    (rnd : Rand) (fuel m : ℕ) (s : ValidatorSet) (epoch : ℕ)
    → 0 < length s.validators
    → 0 < total_stake s / scaling_factor_of m s
    → total_stake s / scaling_factor_of m s < 2 ^ 63
    → get_rotating_proposer rnd fuel m s epoch
      ≡ pick
          (scaling_factor_of m s)
          (rnd.int63n epoch (total_stake s / scaling_factor_of m s))
          0
          s.validators
unfolding get_rotating_proposer scaling_factor_of size rand_uint64 scale_down
get_rotating_proposer-eq-pick rnd fuel m s epoch some_ pos small =
    let d = total_stake s / m + 1 in
    let kept : uint64 (total_stake s / d) ≡ total_stake s / d = omega arith in ground (arith, kept)

-- The draw of a proposer by a validator set of positive total stake, at a scale between 2 and 2 ^
-- 63, for a generator whose `Int63n` stays below its bound: if the drawn number is below the sum
-- of the scaled stakes, a validator of the set with a positive stake is returned, and otherwise
-- the node panics. The scaled stakes sum up to at most the bound of the draw, and fall short of
-- it by less than the number of validators.
pub get_rotating_proposer_lem :
    (rnd : Rand) (fuel m : ℕ) (s : ValidatorSet) (epoch : ℕ)
    → IsBounded rnd
    → 1 < m
    → m < 2 ^ 63
    → 0 < total_stake s
    → let d = scaling_factor_of m s in
      let bound = total_stake s / d in
      let drawn = rnd.int63n epoch bound in
      (((drawn < sum_shares d s.validators)
          × (v : Validator) × (get_rotating_proposer rnd fuel m s epoch ≡ some v)
          × In v s.validators
          × (0 < v.stake))
        ⊎ ((sum_shares d s.validators ≤ drawn) × (get_rotating_proposer rnd fuel m s epoch ≡ none)))
      × (drawn < bound)
      × (sum_shares d s.validators ≤ bound)
      × (bound < sum_shares d s.validators + size s)
unfolding scaling_factor_of size total_stake
get_rotating_proposer_lem rnd fuel m s epoch bounded large small pos =
    let d = scaling_factor_of m s in
    let bound = total_stake s / d in
    let (pos_bound, low_bound) = scaled_total_bounds m (total_stake s) large pos in
    let (low, high) = sum_shares_bounds d s.validators (omega arith) in
    let some_ = nonempty s pos in
    let run = get_rotating_proposer-eq-pick rnd fuel m s epoch some_ pos_bound (omega arith) in
    (
      elim (dec_lt (rnd.int63n epoch bound) (sum_shares d s.validators)) [
        | yes in_range ↦
            let (v, e, listed, staked) =
              pick_inside d _ 0 s.validators (omega arith) (omega arith) (omega arith)
                (omega arith) in
            inl (in_range, v, run ∙ e, listed, staked)
        | no out_of_range ↦ inr (
          omega arith,
          rw run (pick_outside d _ 0 s.validators (omega arith) (omega arith) (omega arith)),
        )
      ],
      bounded epoch _ pos_bound,
      low,
      omega arith,
    )
