-- ===== src/Ledger/Ordinary.antt =====
-- ledger/execution: transactions that either are executed or leave the view as it was.
use theta_protocol_subchain.Consensus.Managers.{uint64}
use theta_protocol_subchain.Prelude.{
  ℕ, ◌+◌, ◌≡◌, ◌≢◌, refl, Bool, true, false, List, [], ◌∷◌, ◌==◌, inl, inr, Bool-cases,
  Option-cases, leb, not, ◌&&◌, ◌||◌, length,
}
use theta_protocol_subchain.Prelude.Dict.{Dict, lookup, insert}
use theta_protocol_subchain.Ledger.Result.{
  Result, ok, error, undecided, panic, guard, ◌>>=◌, ◌>>◌, Result-cases,
}
use theta_protocol_subchain.Ledger.Types.{
  Account, TxInput, TxOutput, SendTx, CoinbaseTx, Tx, coinbase, validator_set_update, send,
  smart_contract, deposit_stake, withdraw_stake, stake_reward_distribution, slash, other, Rules,
  StoreView,
}
use theta_protocol_subchain.Ledger.Inputs.{
  find_account, get_inputs, add_inputs, get_or_make_outputs, get_or_make_account,
  validate_input_advanced, validate_inputs_advanced, validate_inputs_basic, validate_outputs_basic,
  sanity_check_for_send_tx_fee, sum_outputs,
}
use theta_protocol_subchain.Ledger.Send.{sanity_check_send, has_theta, has_contract}
use theta_protocol_subchain.Ledger.Execution.{
  Executor, get_validator_set, is_a_validator, process_tx, process, sanity_check,
  sanity_check_by_type, process_by_type, sanity_check_coinbase, process_coinbase,
  is_tx_type_supported,
}
use theta_protocol_subchain.Ledger.Funds.{Laws}
use theta_protocol_subchain.Ledger.Conservation.{process_send-conserves}

>>=-decided :
    {A B : Type 0} (m : Result A) (f : A → Result B)
    → m ≢ undecided
    → ((a : A) → f a ≢ undecided)
    → (m >>= f) ≢ undecided
>>=-decided (ok a) f hm hf = hf a
>>=-decided error f hm hf = λ h. cc
>>=-decided undecided f hm hf = absurd (hm refl)
>>=-decided panic f hm hf = λ h. cc

guard-decided : (b : Bool) → guard b ≢ undecided
guard-decided true h = cc
guard-decided false h = cc

guarded : {B : Type 0} (b : Bool) (k : Result B) → k ≢ undecided → (guard b >> k) ≢ undecided
guarded b k h = >>=-decided (guard b) (λ _. k) (guard-decided b) (λ _. h)

module _ {C : Type 0} (r : Rules C) where
  add_inputs-decided :
      (view : StoreView C) (d : Dict (Account C)) (ins : List (TxInput C))
      → add_inputs r view d ins ≢ undecided
  unfolding add_inputs
  add_inputs-decided view d [] h = cc
  add_inputs-decided view d (i ∷ ins) h = elim (Option-cases (lookup i.address d)) [
    | inr (a, e) ↦ cc (rw (e, add_inputs) at h)
    | inl e ↦ elim (Option-cases (find_account r view i.address)) [
      | inl f ↦ cc (rw (e, f, add_inputs) at h)
      | inr (acc, f) ↦
          add_inputs-decided view (insert i.address acc d) ins (rw (e, f, add_inputs) at h)
    ]
  ]

  get_or_make_outputs-decided :
      (view : StoreView C) (d : Dict (Account C)) (outs : List (TxOutput C))
      → get_or_make_outputs r view d outs ≢ undecided
  unfolding get_or_make_outputs
  get_or_make_outputs-decided view d [] h = cc
  get_or_make_outputs-decided view d (o ∷ outs) h = elim (Option-cases (lookup o.address d)) [
    | inr (a, e) ↦ cc (rw (e, get_or_make_outputs) at h)
    | inl e ↦
        get_or_make_outputs-decided view (insert o.address (get_or_make_account r view o.address) d)
          outs (rw (e, get_or_make_outputs) at h)
  ]

  validate_inputs_advanced-decided :
      (d : Dict (Account C)) (sign_bytes : List ℕ) (ins : List (TxInput C)) (h : ℕ) (total : C)
      → validate_inputs_advanced r d sign_bytes ins h total ≢ undecided
  unfolding validate_inputs_advanced
  validate_inputs_advanced-decided d sign_bytes [] h total e = cc
  validate_inputs_advanced-decided d sign_bytes (i ∷ ins) h total e =
      elim (Option-cases (lookup i.address d)) [
        | inl f ↦ cc (rw (f, validate_inputs_advanced) at e)
        | inr (acc, f) ↦ elim (Bool-cases (validate_input_advanced r acc sign_bytes i h)) [
          | inr g ↦ cc (rw (f, g, validate_inputs_advanced) at e)
          | inl g ↦
              validate_inputs_advanced-decided d sign_bytes ins h (r.money.plus total i.coins)
                (rw (f, g, validate_inputs_advanced) at e)
        ]
      ]

  sanity_check_send-decided :
      (view : StoreView C) (tx : SendTx C) → sanity_check_send r view tx ≢ undecided
  unfolding sanity_check_send get_inputs
  sanity_check_send-decided view tx =
      let affected = length tx.inputs + length tx.outputs in
      guarded (validate_inputs_basic r tx.inputs) _ (
        guarded (validate_outputs_basic r tx.outputs) _ (
          guarded (not (length tx.inputs == 0 || length tx.outputs == 0)) _ (
            guarded (leb affected r.max_accounts_affected_per_tx) _ (
              >>=-decided (add_inputs r view [] tx.inputs) _ (add_inputs-decided view [] tx.inputs)
                λ ins. guarded (not (has_theta r tx.inputs)) _ (
                  >>=-decided (get_or_make_outputs r view ins tx.outputs) _
                    (get_or_make_outputs-decided view ins tx.outputs)
                    λ accounts.
                      guarded
                        (not (
                          leb r.height_enable_smart_contract (uint64 (view.height + 1))
                          && has_contract r accounts))
                        _
                        (>>=-decided
                          (validate_inputs_advanced r accounts (r.send_sign_bytes tx) tx.inputs
                            (uint64 (view.height + 1)) r.money.no_coins)
                          _
                          (validate_inputs_advanced-decided accounts (r.send_sign_bytes tx)
                            tx.inputs (uint64 (view.height + 1)) r.money.no_coins)
                          λ in_total.
                            guarded
                              (sanity_check_for_send_tx_fee r tx.fee affected
                                (uint64 (view.height + 1)))
                              _
                              (guard-decided (
                                r.money.is_equal in_total (
                                  r.money.plus (sum_outputs r r.money.no_coins tx.outputs)
                                    tx.fee)))))))))

module _ {C : Type 0} where
  get_validator_set-decided : (ex : Executor C) → get_validator_set ex ≢ undecided
  unfolding get_validator_set
  get_validator_set-decided ex h = elim (Option-cases ex.current_parent) [
    | inl e ↦ cc (rw (e, get_validator_set) at h)
    | inr (parent, e) ↦ elim (Option-cases (ex.next_validator_set parent)) [
      | inl f ↦ cc (rw (e, f, get_validator_set) at h)
      | inr (vs, f) ↦ cc (rw (e, f, get_validator_set) at h)
    ]
  ]

  sanity_check_coinbase-decided :
      (ex : Executor C) (h : ℕ) (view : StoreView C) (tx : CoinbaseTx C)
      → sanity_check_coinbase ex h view tx ≢ undecided
  unfolding sanity_check_coinbase
  sanity_check_coinbase-decided ex h view tx =
      >>=-decided (get_validator_set ex) _ (get_validator_set-decided ex) λ vs.
        guarded (ex.rules.validate_input_basic tx.proposer) _ (
          guarded (not view.coinbase_processed) _ (
            guarded (is_a_validator tx.proposer.address vs) _ (
              guarded
                (ex.rules.verify tx.proposer.signature (ex.rules.coinbase_sign_bytes tx)
                  (get_or_make_account ex.rules view tx.proposer.address).address)
                _ (guard-decided (tx.block_height == h)))))

  unfoldable pub is_ordinary : Tx C → Bool
  is_ordinary (coinbase _) = true
  is_ordinary (validator_set_update _) = false
  is_ordinary (send _) = true
  is_ordinary (smart_contract _) = false
  is_ordinary (deposit_stake _) = true
  is_ordinary (withdraw_stake _) = true
  is_ordinary stake_reward_distribution = true
  is_ordinary slash = true
  is_ordinary other = true

  -- What is reported as an error has changed nothing, and nothing is undecided.
  abbrev pub Reverts : StoreView C → StoreView C × Result (Unit {0}) → Type 0
  Reverts view out = (out.1 ≢ undecided) × (out.1 ≡ error → out.0 ≡ view)

  process_tx_as :
      (ex : Executor C) (h : ℕ) (view : StoreView C) (tx : Tx C)
      → sanity_check ex h view tx ≢ undecided
      → (sanity_check ex h view tx ≡ ok tt → Reverts view (process ex view tx))
      → Reverts view (process_tx ex h view tx)
  unfolding process_tx
  process_tx_as ex h view tx decided run = elim (Result-cases (sanity_check ex h view tx)) [
    | inl (u, e) ↦ rw (e, process_tx) (run e)
    | inr (inl e) ↦ rw (e, process_tx) ((λ z. cc), λ _. refl)
    | inr (inr (inl e)) ↦ absurd (decided e)
    | inr (inr (inr e)) ↦ rw (e, process_tx) ((λ z. cc), λ z. absurd (cc z))
  ]

  process_coinbase-Reverts :
      (view : StoreView C) (tx : CoinbaseTx C) → Reverts view (process_coinbase view tx)
  unfolding process_coinbase
  process_coinbase-Reverts view tx = elim (Bool-cases view.coinbase_processed) [
    | inl e ↦ rw (process_coinbase, e) ((λ z. cc), λ _. refl)
    | inr e ↦ rw (process_coinbase, e) ((λ z. cc), λ z. absurd (cc z))
  ]

  pub process_tx-Reverts :
      (ex : Executor C) (h : ℕ) (view : StoreView C) (tx : Tx C)
      → Laws ex.rules
      → ex.skip_sanity_check ≡ false
      → is_ordinary tx ≡ true
      → Reverts view (process_tx ex h view tx)
  unfolding is_ordinary sanity_check sanity_check_by_type is_tx_type_supported process
      process_by_type
  process_tx-Reverts ex h view (coinbase tx) laws checks plain =
      process_tx_as ex h view (coinbase tx)
        (rw (sanity_check, checks) (sanity_check_coinbase-decided ex h view tx))
        λ _. process_coinbase-Reverts view tx
  process_tx-Reverts ex h view (validator_set_update _) laws checks plain = absurd (cc plain)
  process_tx-Reverts ex h view (send tx) laws checks plain =
      process_tx_as ex h view (send tx)
        (rw (sanity_check, checks) (sanity_check_send-decided ex.rules view tx))
        λ e.
          let (after, runs, _) =
            process_send-conserves ex.rules laws view tx (rw (sanity_check, checks) at e) in
          rw runs ((λ z. cc), λ z. absurd (cc z))
  process_tx-Reverts ex h view (smart_contract _) laws checks plain = absurd (cc plain)
  process_tx-Reverts ex h view (deposit_stake b) laws checks plain =
      process_tx_as ex h view (deposit_stake b) (rw (sanity_check, checks) λ z. cc)
        λ _. ((λ z. cc), λ _. refl)
  process_tx-Reverts ex h view (withdraw_stake b) laws checks plain =
      process_tx_as ex h view (withdraw_stake b) (rw (sanity_check, checks) λ z. cc)
        λ _. ((λ z. cc), λ _. refl)
  process_tx-Reverts ex h view stake_reward_distribution laws checks plain =
      elim (Bool-cases (leb ex.rules.height_enable_theta3 (uint64 (view.height + 1)))) [
        | inl e ↦
            process_tx_as ex h view stake_reward_distribution
              (rw (sanity_check, checks, is_tx_type_supported, e) λ z. cc)
              λ _. rw (process, is_tx_type_supported, e) ((λ z. cc), λ _. refl)
        | inr e ↦
            process_tx_as ex h view stake_reward_distribution
              (rw (sanity_check, checks, is_tx_type_supported, e) λ z. cc)
              λ _. rw (process, is_tx_type_supported, e) ((λ z. cc), λ _. refl)
      ]
  process_tx-Reverts ex h view slash laws checks plain =
      process_tx_as ex h view slash (rw (sanity_check, checks) λ z. cc) λ _. ((λ z. cc), λ _. refl)
  process_tx-Reverts ex h view other laws checks plain =
      process_tx_as ex h view other (rw (sanity_check, checks) λ z. cc) λ _. ((λ z. cc), λ _. refl)
