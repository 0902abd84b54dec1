-- ===== src/Ledger/Blocks.antt =====
-- ledger/ledger.go: the screening of a transaction, and the application of a block's transactions.
use theta_protocol_subchain.Prelude.{
  ℕ, Bool, true, false, Option, none, some, List, [], ◌∷◌, ◌==◌, if◌then◌else◌,
}
use theta_protocol_subchain.Core.Validator.{Validator}
use theta_protocol_subchain.Core.Block.{Block}
use theta_protocol_subchain.Chain.Store.{Chain, find_block}
use theta_protocol_subchain.Ledger.Result.{Result, ok, error, undecided, panic}
use theta_protocol_subchain.Ledger.Types.{
  Tx, coinbase, validator_set_update, send, smart_contract, deposit_stake, withdraw_stake,
  stake_reward_distribution, slash, other, StoreView,
}
use theta_protocol_subchain.Ledger.Execution.{Executor, process_tx}
use theta_protocol_subchain.Ledger.State.{Tries, LedgerState, reset_state, commit}

-- What the ledger uses: the tries, the executor, the bytes of transactions, the proposer by
-- `GetNextProposer` (`none` is its panic), the height of the main chain (`none` is an error), the
-- coins of an input that names none, and the signatures of the node's key (`none` is an error).
pub record Context (C : Type 0) : Type 0 where
  pub tries : Tries C
  pub executor : Executor C
  pub chain : Chain
  pub tx_from_bytes : List ℕ → Option (Tx C)
  pub tx_to_bytes : Tx C → Option (List ℕ)
  pub next_proposer : ℕ → ℕ → Option Validator
  pub mainchain_block_height : Option ℕ
  pub nil_coins : C
  pub sign : List ℕ → Option (List ℕ)

module _ {C : Type 0} (c : Context C) where
  -- The executor while the ledger processes a block.
  abbrev pub executor_at : Block → Executor C
  executor_at block = record (c.executor) { current_parent = some block.parent }

  unfoldable pub should_skip_check_tx : Tx C → Bool
  should_skip_check_tx (coinbase _) = true
  should_skip_check_tx (validator_set_update _) = false
  should_skip_check_tx (send _) = false
  should_skip_check_tx (smart_contract _) = false
  should_skip_check_tx (deposit_stake _) = false
  should_skip_check_tx (withdraw_stake _) = false
  should_skip_check_tx stake_reward_distribution = false
  should_skip_check_tx slash = true
  should_skip_check_tx other = false

  -- `ScreenTx`, without the transaction's information for the mempool: the state after it, and its
  -- result. A view that is nil panics.
  unfoldable pub screen_tx : LedgerState C → List ℕ → LedgerState C × Result (Unit {0})
  unfolding should_skip_check_tx process_tx
  screen_tx s raw = elim (c.tx_from_bytes raw) [
    | none ↦ (s, error)
    | some tx ↦ if should_skip_check_tx tx then (s, error) else elim s.screened [
      | none ↦ (s, panic)
      | some view ↦
          let (after, res) = process_tx c.executor s.delivered.height view tx in
          (record s { screened = some after }, res)
    ]
  ]

  -- The test of `ApplyBlockTxs` for a change of validators.
  unfoldable pub updates_validators : Tx C → Bool
  updates_validators (deposit_stake for_validator) = for_validator
  updates_validators (withdraw_stake for_validator) = for_validator
  updates_validators (coinbase _) = false
  updates_validators (validator_set_update _) = false
  updates_validators (send _) = false
  updates_validators (smart_contract _) = false
  updates_validators stake_reward_distribution = false
  updates_validators slash = false
  updates_validators other = false

  -- The loop of `ApplyBlockTxs`: the view after it, and whether the validators change.
  unfoldable pub execute_txs :
      Executor C → ℕ → StoreView C → List (List ℕ) → Bool → StoreView C × Result Bool
  unfolding process_tx updates_validators
  execute_txs ex state_height view [] has_update = (view, ok has_update)
  execute_txs ex state_height view (raw ∷ raws) has_update = elim (c.tx_from_bytes raw) [
    | none ↦ (view, error)
    | some tx ↦
        let outcome = process_tx ex state_height view tx in
        let now = if updates_validators tx then true else has_update in
        let rest = execute_txs ex state_height outcome.0 raws now in
        elim outcome.1 [
          | ok _ ↦ rest
          | error ↦ (outcome.0, error)
          | undecided ↦ (outcome.0, undecided)
          | panic ↦ (outcome.0, panic)
        ]
  ]

  -- `ApplyBlockTxs`, whose OK says whether the validators change. The result of the inner reset is
  -- not looked at.
  unfoldable pub apply_block_txs : LedgerState C → Block → LedgerState C × Result Bool
  unfolding find_block execute_txs reset_state commit
  apply_block_txs s block = elim (find_block c.chain block.parent) [
    | none ↦ (s, panic)
    | some parent ↦
        let outcome =
          execute_txs (executor_at block) s.delivered.height s.delivered block.txs false in
        let at = record s { delivered = outcome.0 } in
        let back = (reset_state c.tries at parent.block).0 in
        elim outcome.1 [
          | error ↦ (back, error)
          | undecided ↦ (back, undecided)
          | panic ↦ (at, panic)
          | ok has_update ↦
              if c.tries.root outcome.0.store == block.state_hash
              then elim (commit c.tries at) [
                | none ↦ (at, panic)
                | some (committed, _) ↦ (committed, ok has_update)
              ]
              else (back, error)
        ]
  ]
