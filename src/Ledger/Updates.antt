-- ===== src/Ledger/Updates.antt =====
-- ledger/execution/tx_validator_set_update.go: what a validator set update does that is carried out.
use theta_protocol_subchain.Prelude.{
  ℕ, ◌<◌, ◌≡◌, refl, sym, ap, true, false, some, List, [], ◌∷◌, inl, inr, arith, Bool-cases,
  Option-cases, leb,
}
use theta_protocol_subchain.Prelude.Dict.{Dict, lookup, insert, lookup-insert_same}
use theta_protocol_subchain.Core.Validator.{
  Validator, ValidatorSet, new_validator_set, add_validators, add_validator, equals,
}
use theta_protocol_subchain.Ledger.Result.{ok}
use theta_protocol_subchain.Ledger.Types.{SubchainValidatorSetUpdateTx, StoreView}
use theta_protocol_subchain.Ledger.Execution.{
  Executor, process_validator_set_update, make_accounts, get_dynasty, update_validator_set,
}
use theta_protocol_subchain.Ledger.Frames.{Frames-make_accounts}

dynasty-add_validators :
    (s : ValidatorSet) (vs : List Validator) → (add_validators s vs).dynasty ≡ s.dynasty
unfolding add_validators add_validator
dynasty-add_validators s [] = refl
dynasty-add_validators s (v ∷ vs) = dynasty-add_validators (add_validator s v) vs

lookup-dynasty :
    (s : ValidatorSet) (k : ℕ) (d : Dict ValidatorSet)
    → s.dynasty ≡ k
    → lookup k (insert s.dynasty s d) ≡ some s
lookup-dynasty s k d h = rw (← h) (lookup-insert_same s.dynasty s d)

leb-false : (a b : ℕ) → leb a b ≡ false → b < a
leb-false a b h = ground arith

module _ {C : Type 0} where
  abbrev pub update_of : SubchainValidatorSetUpdateTx C → ValidatorSet
  update_of tx = add_validators (new_validator_set tx.dynasty) tx.validators

  -- What an update that is carried out came to.
  pub record Updated (ex : Executor C) (view after : StoreView C)
      (tx : SubchainValidatorSetUpdateTx C) : Type 0 where
    pub current : ℕ
    pub witnessed : ValidatorSet
    pub first : view.validator_set_processed ≡ false
    pub was : get_dynasty view ≡ some current
    pub newer : current < tx.dynasty
    pub seen : ex.witnessed_set tx.dynasty ≡ some witnessed
    pub agrees : equals (update_of tx) witnessed ≡ true
    pub is : get_dynasty after ≡ some tx.dynasty
    pub stored : after.store.validator_set ≡ some (update_of tx)
    by_dynasty : lookup tx.dynasty after.store.validator_sets ≡ some (update_of tx)
    pub marked : after.validator_set_processed ≡ true

  -- A validator set update that is carried out is the first of its block, its dynasty is larger
  -- than the current one, the witness of the main chain has a set for that dynasty that equals
  -- the update's, and the update's set is then the current one, is stored under its dynasty, and
  -- the view is marked.
  pub process_validator_set_update-Updated :
      (ex : Executor C) (view after : StoreView C) (tx : SubchainValidatorSetUpdateTx C)
      → process_validator_set_update ex view tx ≡ (after, ok tt)
      → Updated ex view after tx
  unfolding process_validator_set_update get_dynasty update_validator_set new_validator_set
  process_validator_set_update-Updated ex view after tx h =
      let made = make_accounts ex.rules view tx.validators in
      elim (Bool-cases view.validator_set_processed) [
        | inl e ↦ absurd (cc (rw (e, process_validator_set_update) at h))
        | inr e ↦ elim (Option-cases (get_dynasty made)) [
          | inl d ↦ absurd (cc (rw (d, e, process_validator_set_update) at h))
          | inr (current, d) ↦ elim (Bool-cases (leb tx.dynasty current)) [
            | inl old ↦ absurd (cc (rw (d, old, e, process_validator_set_update) at h))
            | inr newer ↦ elim (Option-cases (ex.witnessed_set tx.dynasty)) [
              | inl w ↦ absurd (cc (rw (d, newer, w, e, process_validator_set_update) at h))
              | inr (witnessed, w) ↦ elim (Bool-cases (equals (update_of tx) witnessed)) [
                | inr differ ↦
                    absurd (cc (rw (d, newer, w, differ, e, process_validator_set_update) at h))
                | inl agree ↦
                    let same =
                      ap (λ p. p.0)
                        (rw (d, newer, w, agree, e, process_validator_set_update) at h) in
                    let stored : after.store.validator_set ≡ some (update_of tx) =
                      sym (ap (λ v. v.store.validator_set) same) in
                    record {
                      current = current;
                      witnessed = witnessed;
                      first = e;
                      was =
                          rw
                            (
                              get_dynasty,
                              ← (Frames-make_accounts ex.rules view tx.validators).same_set,
                            )
                            d;
                      newer = leb-false tx.dynasty current newer;
                      seen = w;
                      agrees = agree;
                      is =
                          rw
                            (
                              get_dynasty,
                              stored,
                              dynasty-add_validators (new_validator_set tx.dynasty) tx.validators,
                            )
                            refl;
                      stored = stored;
                      by_dynasty = rw (← ap (λ v. v.store.validator_sets) same) (
                          lookup-dynasty (update_of tx) tx.dynasty _
                            (dynasty-add_validators (new_validator_set tx.dynasty) tx.validators));
                      marked = sym (ap (λ v. v.validator_set_processed) same);
                    }
              ]
            ]
          ]
        ]
      ]
