-- ===== src/Ledger/Send.antt =====
-- ledger/execution/tx_send.go: the send transaction.
use theta_protocol_subchain.Consensus.Managers.{uint64}
use theta_protocol_subchain.Prelude.{
  ◌+◌, Bool, false, not, ◌&&◌, ◌||◌, none, some, List, [], ◌∷◌, leb, ◌==◌, length,
}
use theta_protocol_subchain.Prelude.Dict.{Dict}
use theta_protocol_subchain.Ledger.Result.{Result, ok, error, undecided, panic, guard, ◌>>=◌, ◌>>◌}
use theta_protocol_subchain.Ledger.Types.{Account, TxInput, SendTx, StoreView, Rules}
use theta_protocol_subchain.Ledger.Inputs.{
  get_inputs, get_or_make_outputs, validate_inputs_basic, validate_outputs_basic,
  validate_inputs_advanced, sum_outputs, adjust_by_inputs, adjust_by_outputs,
  sanity_check_for_send_tx_fee,
}

module _ {C : Type 0} (r : Rules C) where
  -- Whether an account of the list is a smart contract.
  unfoldable pub has_contract : Dict (Account C) → Bool
  has_contract [] = false
  has_contract ((k, acc) ∷ d) = r.is_a_smart_contract acc || has_contract d

  -- Whether an input has the native coin of the main chain.
  unfoldable pub has_theta : List (TxInput C) → Bool
  has_theta [] = false
  has_theta (i ∷ ins) = not (r.money.theta_wei (r.money.no_nil i.coins) == 0) || has_theta ins

  unfoldable pub sanity_check_send : StoreView C → SendTx C → Result (Unit {0})
  unfolding validate_inputs_basic validate_outputs_basic get_inputs has_theta get_or_make_outputs
      has_contract validate_inputs_advanced sanity_check_for_send_tx_fee sum_outputs
  sanity_check_send view tx = do
    let affected = length tx.inputs + length tx.outputs
    let block_height = uint64 (view.height + 1)
    guard (validate_inputs_basic r tx.inputs)
    guard (validate_outputs_basic r tx.outputs)
    guard (not (length tx.inputs == 0 || length tx.outputs == 0))
    guard (leb affected r.max_accounts_affected_per_tx)
    ins ← get_inputs r view tx.inputs
    guard (not (has_theta tx.inputs))
    accounts ← get_or_make_outputs r view ins tx.outputs
    guard (not (leb r.height_enable_smart_contract block_height && has_contract accounts))
    in_total ←
        validate_inputs_advanced r accounts (r.send_sign_bytes tx) tx.inputs block_height
          r.money.no_coins
    guard (sanity_check_for_send_tx_fee r tx.fee affected block_height)
    guard (
        r.money.is_equal in_total (r.money.plus (sum_outputs r r.money.no_coins tx.outputs) tx.fee))

  -- The view after the call, and how it ended.
  unfoldable pub process_send : StoreView C → SendTx C → StoreView C × Result (Unit {0})
  unfolding get_inputs get_or_make_outputs adjust_by_inputs adjust_by_outputs
  process_send view tx =
      let found =
        (get_inputs r view tx.inputs >>= λ ins. get_or_make_outputs r view ins tx.outputs) in
      elim found [
        | error ↦ (view, error)
        | undecided ↦ (view, undecided)
        | panic ↦ (view, panic)
        | ok accounts ↦ elim (adjust_by_inputs r view accounts tx.inputs) [
          | none ↦ (view, panic)
          | some (charged, accounts') ↦ elim (adjust_by_outputs r charged accounts' tx.outputs) [
            | none ↦ (charged, panic)
            | some paid ↦ (paid, ok tt)
          ]
        ]
      ]
