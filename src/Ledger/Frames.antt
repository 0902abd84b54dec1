-- ===== src/Ledger/Frames.antt =====
-- ledger/execution: what leaves the validators of the state alone.
use theta_protocol_subchain.Consensus.Managers.{uint64}
use mathlib.Core.Path.{subst}
use theta_protocol_subchain.Ledger.Charging.{charged, paid}
use theta_protocol_subchain.Prelude.{
  ℕ, ◌+◌, ◌≡◌, ◌∙◌, refl, ap, Bool, true, false, some, List, [], ◌∷◌, inl, inr, Bool-cases,
  Option-cases, leb,
}
use theta_protocol_subchain.Prelude.Dict.{Dict, lookup, insert}
use theta_protocol_subchain.Core.Validator.{Validator}
use theta_protocol_subchain.Ledger.Result.{ok, Result-cases, ◌>>=◌}
use theta_protocol_subchain.Ledger.Types.{
  Account, TxInput, TxOutput, SendTx, Tx, coinbase, validator_set_update, send, smart_contract,
  deposit_stake, withdraw_stake, stake_reward_distribution, slash, other, Rules, StoreView,
}
use theta_protocol_subchain.Ledger.Inputs.{
  get_account, set_account, get_inputs, get_or_make_outputs, adjust_by_inputs, adjust_by_outputs,
}
use theta_protocol_subchain.Ledger.Send.{process_send}
use theta_protocol_subchain.Ledger.Execution.{
  Executor, process, process_by_type, process_coinbase, is_tx_type_supported, make_accounts,
}

module _ {C : Type 0} where
  -- The validators of the state, and whether the block has changed them, are the same.
  pub record Frames (view after : StoreView C) : Type 0 where
    pub same_set : after.store.validator_set ≡ view.store.validator_set
    pub same_flag : after.validator_set_processed ≡ view.validator_set_processed

  Frames-refl : (view : StoreView C) → Frames view view
  Frames-refl view = record { same_set = refl; same_flag = refl }

  Frames-trans : (u v w : StoreView C) → Frames u v → Frames v w → Frames u w
  Frames-trans u v w a b = record {
    same_set = b.same_set ∙ a.same_set;
    same_flag = b.same_flag ∙ a.same_flag;
  }

  Frames-set_account :
      (view : StoreView C) (k : ℕ) (acc : Account C) → Frames view (set_account view k acc)
  unfolding set_account
  Frames-set_account view k acc = record { same_set = refl; same_flag = refl }

  pub Frames-make_accounts :
      (r : Rules C) (view : StoreView C) (vs : List Validator)
      → Frames view (make_accounts r view vs)
  unfolding make_accounts
  Frames-make_accounts r view [] = Frames-refl view
  Frames-make_accounts r view (v ∷ vs) = elim (Option-cases (get_account view v.address)) [
    | inr (acc, e) ↦ rw (e, make_accounts) (Frames-make_accounts r view vs)
    | inl e ↦
        let made = record (r.new_account v.address) { last_updated_block_height = view.height } in
        rw (e, make_accounts)
          (Frames-trans view (set_account view v.address made) _
            (Frames-set_account view v.address made)
            (Frames-make_accounts r (set_account view v.address made) vs))
  ]

  Frames-adjust_by_inputs :
      (r : Rules C) (view after : StoreView C) (d d' : Dict (Account C)) (ins : List (TxInput C))
      → adjust_by_inputs r view d ins ≡ some (after, d')
      → Frames view after
  unfolding adjust_by_inputs
  Frames-adjust_by_inputs r view after d d' [] h =
      let same : view ≡ after = cc in subst (Frames view) same (Frames-refl view)
  Frames-adjust_by_inputs r view after d d' (i ∷ ins) h = elim (Option-cases (lookup i.address d)) [
    | inl e ↦ absurd (cc (rw (e, adjust_by_inputs) at h))
    | inr (acc, e) ↦ elim (Bool-cases (r.money.is_gte acc.balance i.coins)) [
      | inr g ↦ absurd (cc (rw (e, g, adjust_by_inputs) at h))
      | inl g ↦
          Frames-trans view (set_account view i.address (charged r acc i)) after
            (Frames-set_account view i.address (charged r acc i))
            (Frames-adjust_by_inputs r (set_account view i.address (charged r acc i)) after
              (insert i.address (charged r acc i) d) d' ins (rw (e, g, adjust_by_inputs) at h))
    ]
  ]

  Frames-adjust_by_outputs :
      (r : Rules C) (view after : StoreView C) (d : Dict (Account C)) (outs : List (TxOutput C))
      → adjust_by_outputs r view d outs ≡ some after
      → Frames view after
  unfolding adjust_by_outputs
  Frames-adjust_by_outputs r view after d [] h =
      let same : view ≡ after = cc in subst (Frames view) same (Frames-refl view)
  Frames-adjust_by_outputs r view after d (o ∷ outs) h = elim (Option-cases (lookup o.address d)) [
    | inl e ↦ absurd (cc (rw (e, adjust_by_outputs) at h))
    | inr (acc, e) ↦
        Frames-trans view (set_account view o.address (paid r acc o)) after
          (Frames-set_account view o.address (paid r acc o))
          (Frames-adjust_by_outputs r (set_account view o.address (paid r acc o)) after
            (insert o.address (paid r acc o) d) outs (rw (e, adjust_by_outputs) at h))
  ]

  Frames-process_send :
      (r : Rules C) (view after : StoreView C) (tx : SendTx C)
      → process_send r view tx ≡ (after, ok tt)
      → Frames view after
  unfolding process_send
  Frames-process_send r view after tx h =
      let found =
        (get_inputs r view tx.inputs >>= λ ins. get_or_make_outputs r view ins tx.outputs) in
      elim (Result-cases found) [
        | inr (inl e) ↦ absurd (cc (rw (e, process_send) at h))
        | inr (inr (inl e)) ↦ absurd (cc (rw (e, process_send) at h))
        | inr (inr (inr e)) ↦ absurd (cc (rw (e, process_send) at h))
        | inl (accounts, e) ↦ elim (Option-cases (adjust_by_inputs r view accounts tx.inputs)) [
          | inl f ↦ absurd (cc (rw (e, f, process_send) at h))
          | inr ((between, remaining), f) ↦
              elim (Option-cases (adjust_by_outputs r between remaining tx.outputs)) [
                | inl g ↦ absurd (cc (rw (e, f, g, process_send) at h))
                | inr (last, g) ↦
                    let same : last ≡ after = ap (λ p. p.0) (rw (e, f, g, process_send) at h) in
                    subst (Frames view) same (
                      Frames-trans view between last
                        (Frames-adjust_by_inputs r view between accounts remaining tx.inputs f)
                        (Frames-adjust_by_outputs r between last remaining tx.outputs g))
              ]
        ]
      ]

  -- A smart contract that is carried out leaves the validators alone.
  abbrev pub ContractsFrame : Executor C → Type 0
  ContractsFrame ex = (view : StoreView C) (n : ℕ) → Frames view (ex.process_contract view n).0

  unfoldable pub is_update : Tx C → Bool
  is_update (validator_set_update _) = true
  is_update (coinbase _) = false
  is_update (send _) = false
  is_update (smart_contract _) = false
  is_update (deposit_stake _) = false
  is_update (withdraw_stake _) = false
  is_update stake_reward_distribution = false
  is_update slash = false
  is_update other = false

  pub Frames-process :
      (ex : Executor C) (view after : StoreView C) (tx : Tx C)
      → ContractsFrame ex
      → is_update tx ≡ false
      → process ex view tx ≡ (after, ok tt)
      → Frames view after
  unfolding process process_by_type is_tx_type_supported is_update process_coinbase
  Frames-process ex view after (coinbase tx) frames plain h =
      elim (Bool-cases view.coinbase_processed) [
        | inl e ↦ absurd (cc (rw (e, process_coinbase) at h))
        | inr e ↦
            let same = ap (λ p. p.0) (rw (e, process_coinbase) at h) in
            subst (Frames view) same (record { same_set = refl; same_flag = refl })
      ]
  Frames-process ex view after (validator_set_update _) frames plain h = absurd (cc plain)
  Frames-process ex view after (send tx) frames plain h =
      Frames-process_send ex.rules view after tx h
  Frames-process ex view after (smart_contract n) frames plain h =
      elim (Bool-cases (leb ex.rules.height_enable_smart_contract (uint64 (view.height + 1)))) [
        | inr e ↦ absurd (cc (rw (e, process, is_tx_type_supported) at h))
        | inl e ↦
            subst (Frames view) (ap (λ p. p.0) (rw (e, process, is_tx_type_supported) at h))
              (frames view n)
      ]
  Frames-process ex view after (deposit_stake b) frames plain h = absurd (cc h)
  Frames-process ex view after (withdraw_stake b) frames plain h = absurd (cc h)
  Frames-process ex view after stake_reward_distribution frames plain h =
      elim (Bool-cases (leb ex.rules.height_enable_theta3 (uint64 (view.height + 1)))) [
        | inr e ↦ absurd (cc (rw (e, process, is_tx_type_supported) at h))
        | inl e ↦ absurd (cc (rw (e, process, is_tx_type_supported) at h))
      ]
  Frames-process ex view after slash frames plain h = absurd (cc h)
  Frames-process ex view after other frames plain h = absurd (cc h)
