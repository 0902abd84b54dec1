-- ===== src/Ledger/Execution.antt =====
-- ledger/execution: the executors of the coinbase transaction (tx_coinbase.go) and of the validator
-- set update (tx_validator_set_update.go), and the dispatch of executor.go.
use theta_protocol_subchain.Consensus.Managers.{uint64}
use theta_protocol_subchain.Prelude.{
  ℕ, ◌+◌, Bool, true, not, Option, none, some, List, [], ◌∷◌, leb, ◌==◌, if◌then◌else◌, any,
}
use theta_protocol_subchain.Prelude.Dict.{insert}
use theta_protocol_subchain.Core.Validator.{
  Validator, ValidatorSet, new_validator_set, add_validators, equals,
}
use theta_protocol_subchain.Ledger.Result.{Result, ok, error, undecided, panic, guard, ◌>>=◌, ◌>>◌}
use theta_protocol_subchain.Ledger.Types.{
  CoinbaseTx, SubchainValidatorSetUpdateTx, Tx, coinbase, validator_set_update, send,
  smart_contract, deposit_stake, withdraw_stake, stake_reward_distribution, slash, other, StoreView,
  Rules,
}
use theta_protocol_subchain.Ledger.Inputs.{get_account, set_account, get_or_make_account}
use theta_protocol_subchain.Ledger.Send.{sanity_check_send, process_send}

-- An executor with the parent of the block that the ledger processes (`none` is no block). `GetNextValidatorSet` of the validator
-- manager panics as `none`; the witness of the main chain gives `none` for an error; the executor of
-- smart contracts is given by its two methods.
pub record Executor (C : Type 0) : Type 0 where
  pub rules : Rules C
  pub next_validator_set : ℕ → Option ValidatorSet
  pub witnessed_set : ℕ → Option ValidatorSet
  pub sanity_check_contract : StoreView C → ℕ → Result (Unit {0})
  pub process_contract : StoreView C → ℕ → StoreView C × Result (Unit {0})
  pub skip_sanity_check : Bool
  pub current_parent : Option ℕ

unfoldable pub is_a_validator : ℕ → ValidatorSet → Bool
unfolding any
is_a_validator address vs = any (λ v. address == v.address) vs.validators

module _ {C : Type 0} where
  unfoldable pub get_validator_set : Executor C → Result ValidatorSet
  get_validator_set ex = elim ex.current_parent [
    | none ↦ panic
    | some parent ↦ elim (ex.next_validator_set parent) [ none ↦ panic | some vs ↦ ok vs ]
  ]

  unfoldable pub sanity_check_coinbase :
      Executor C → ℕ → StoreView C → CoinbaseTx C → Result (Unit {0})
  unfolding get_validator_set is_a_validator get_or_make_account
  sanity_check_coinbase ex state_height view tx = do
    vs ← get_validator_set ex
    guard (ex.rules.validate_input_basic tx.proposer)
    guard (not view.coinbase_processed)
    guard (is_a_validator tx.proposer.address vs)
    let account = get_or_make_account ex.rules view tx.proposer.address
    guard (ex.rules.verify tx.proposer.signature (ex.rules.coinbase_sign_bytes tx) account.address)
    guard (tx.block_height == state_height)

  unfoldable pub process_coinbase : StoreView C → CoinbaseTx C → StoreView C × Result (Unit {0})
  process_coinbase view tx =
      if view.coinbase_processed
      then (view, error)
      else (record view { coinbase_processed = true }, ok tt)

  unfoldable pub sanity_check_validator_set_update :
      Executor C → StoreView C → SubchainValidatorSetUpdateTx C → Result (Unit {0})
  unfolding get_validator_set is_a_validator get_or_make_account
  sanity_check_validator_set_update ex view tx = do
    vs ← get_validator_set ex
    guard (ex.rules.validate_input_basic tx.proposer)
    guard (not view.validator_set_processed)
    guard (is_a_validator tx.proposer.address vs)
    let account = get_or_make_account ex.rules view tx.proposer.address
    guard (ex.rules.verify tx.proposer.signature (ex.rules.update_sign_bytes tx) account.address)

  -- The accounts that `process` makes for validators without one.
  unfoldable pub make_accounts : Rules C → StoreView C → List Validator → StoreView C
  unfolding get_account set_account
  make_accounts r view [] = view
  make_accounts r view (v ∷ vs) = elim (get_account view v.address) [
    | some _ ↦ make_accounts r view vs
    | none ↦
        make_accounts r
          (set_account view v.address
            (record (r.new_account v.address) { last_updated_block_height = view.height }))
          vs
  ]

  -- `none` is a view without a validator set.
  unfoldable pub get_dynasty : StoreView C → Option ℕ
  get_dynasty view = elim view.store.validator_set [ none ↦ none | some vs ↦ some vs.dynasty ]

  unfoldable pub update_validator_set : StoreView C → ValidatorSet → StoreView C
  unfolding insert
  update_validator_set view vs = record view {
    store = record view.store {
      validator_set = some vs;
      validator_sets = insert vs.dynasty vs view.store.validator_sets;
    };
  }

  unfoldable pub process_validator_set_update :
      Executor C → StoreView C → SubchainValidatorSetUpdateTx C → StoreView C × Result (Unit {0})
  unfolding make_accounts get_dynasty update_validator_set add_validators new_validator_set equals
  process_validator_set_update ex view tx =
      let new_set = add_validators (new_validator_set tx.dynasty) tx.validators in
      let made = make_accounts ex.rules view tx.validators in
      if view.validator_set_processed then (view, error) else elim (get_dynasty made) [
        | none ↦ (made, panic)
        | some current ↦
            if leb tx.dynasty current then (made, error) else elim (ex.witnessed_set tx.dynasty) [
              | none ↦ (made, undecided)
              | some witnessed ↦
                  if equals new_set witnessed
                  then (
                    record (update_validator_set made new_set) { validator_set_processed = true },
                    ok tt,
                  )
                  else (made, error)
            ]
      ]

  unfoldable pub is_tx_type_supported : Rules C → StoreView C → Tx C → Bool
  is_tx_type_supported r view (smart_contract _) =
      leb r.height_enable_smart_contract (uint64 (view.height + 1))
  is_tx_type_supported r view stake_reward_distribution =
      leb r.height_enable_theta3 (uint64 (view.height + 1))
  is_tx_type_supported r view (coinbase _) = true
  is_tx_type_supported r view (validator_set_update _) = true
  is_tx_type_supported r view (send _) = true
  is_tx_type_supported r view (deposit_stake _) = true
  is_tx_type_supported r view (withdraw_stake _) = true
  is_tx_type_supported r view slash = true
  is_tx_type_supported r view other = true

  -- `getTxExecutor`, and the check of the executor that it gives; the unknown types have none.
  unfoldable pub sanity_check_by_type : Executor C → ℕ → StoreView C → Tx C → Result (Unit {0})
  unfolding sanity_check_coinbase sanity_check_validator_set_update sanity_check_send
  sanity_check_by_type ex state_height view (coinbase tx) =
      sanity_check_coinbase ex state_height view tx
  sanity_check_by_type ex state_height view (validator_set_update tx) =
      sanity_check_validator_set_update ex view tx
  sanity_check_by_type ex state_height view (send tx) = sanity_check_send ex.rules view tx
  sanity_check_by_type ex state_height view (smart_contract c) = ex.sanity_check_contract view c
  sanity_check_by_type ex state_height view (deposit_stake _) = error
  sanity_check_by_type ex state_height view (withdraw_stake _) = error
  sanity_check_by_type ex state_height view stake_reward_distribution = error
  sanity_check_by_type ex state_height view slash = error
  sanity_check_by_type ex state_height view other = error

  unfoldable pub process_by_type : Executor C → StoreView C → Tx C → StoreView C × Result (Unit {0})
  unfolding process_coinbase process_validator_set_update process_send
  process_by_type ex view (coinbase tx) = process_coinbase view tx
  process_by_type ex view (validator_set_update tx) = process_validator_set_update ex view tx
  process_by_type ex view (send tx) = process_send ex.rules view tx
  process_by_type ex view (smart_contract c) = ex.process_contract view c
  process_by_type ex view (deposit_stake _) = (view, error)
  process_by_type ex view (withdraw_stake _) = (view, error)
  process_by_type ex view stake_reward_distribution = (view, error)
  process_by_type ex view slash = (view, error)
  process_by_type ex view other = (view, error)

  unfoldable pub sanity_check : Executor C → ℕ → StoreView C → Tx C → Result (Unit {0})
  unfolding is_tx_type_supported sanity_check_by_type
  sanity_check ex state_height view tx =
      if ex.skip_sanity_check
      then ok tt
      else if not (is_tx_type_supported ex.rules view tx)
      then error
      else sanity_check_by_type ex state_height view tx

  unfoldable pub process : Executor C → StoreView C → Tx C → StoreView C × Result (Unit {0})
  unfolding is_tx_type_supported process_by_type
  process ex view tx =
      if not (is_tx_type_supported ex.rules view tx)
      then (view, error)
      else process_by_type ex view tx

  -- `processTx` on the selected view.
  unfoldable pub process_tx : Executor C → ℕ → StoreView C → Tx C → StoreView C × Result (Unit {0})
  unfolding sanity_check process
  process_tx ex state_height view tx = elim (sanity_check ex state_height view tx) [
    | ok _ ↦ process ex view tx
    | error ↦ (view, error)
    | undecided ↦ (view, undecided)
    | panic ↦ (view, panic)
  ]
