-- ===== src/Ledger/Screening.antt =====
-- ledger/ledger.go: what `ScreenTx` does with a validator set update.
use theta_protocol_subchain.Prelude.{ℕ, ◌≡◌, refl, false, none, some, List}
use theta_protocol_subchain.Ledger.Result.{panic}
use theta_protocol_subchain.Ledger.Types.{
  SubchainValidatorSetUpdateTx, validator_set_update, StoreView,
}
use theta_protocol_subchain.Ledger.Execution.{
  get_validator_set, sanity_check_validator_set_update, is_tx_type_supported, sanity_check_by_type,
  sanity_check, process_tx,
}
use theta_protocol_subchain.Ledger.State.{LedgerState}
use theta_protocol_subchain.Ledger.Blocks.{Context, should_skip_check_tx, screen_tx}

module _ {C : Type 0} where
  -- `ScreenTx` panics on every validator set update while no block is processed, whoever sent it,
  -- unless checks are skipped.
  pub screen_tx-validator_set_update :
      (c : Context C) (s : LedgerState C) (raw : List ℕ) (view : StoreView C)
      (tx : SubchainValidatorSetUpdateTx C)
      → c.executor.skip_sanity_check ≡ false
      → c.executor.current_parent ≡ none
      → s.screened ≡ some view
      → c.tx_from_bytes raw ≡ some (validator_set_update tx)
      → (screen_tx c s raw).1 ≡ panic
  unfolding screen_tx should_skip_check_tx process_tx sanity_check is_tx_type_supported
      sanity_check_by_type sanity_check_validator_set_update get_validator_set
  screen_tx-validator_set_update c s raw view tx checks idle screened parsed =
      rw
        (
          parsed, screen_tx, screened, process_tx, sanity_check, checks,
          sanity_check_validator_set_update, get_validator_set, idle,
        )
        refl
