-- ===== src/Ledger/Proposing.antt =====
-- ledger/ledger.go: the transactions that a proposer puts into a block.
use theta_protocol_subchain.Consensus.Proposing.{calculate_dynasty}
use theta_protocol_subchain.Prelude.{
  ℕ, ◌+◌, Bool, not, Option, none, some, List, [], ◌∷◌, ◌++◌, leb, if◌then◌else◌,
}
use theta_protocol_subchain.Core.Validator.{Validator, ValidatorSet}
use theta_protocol_subchain.Core.Block.{Block}
use theta_protocol_subchain.Consensus.Managers.{uint64}
use theta_protocol_subchain.Ledger.Result.{Result, ok, error, undecided, panic}
use theta_protocol_subchain.Ledger.Types.{
  CoinbaseTx, SubchainValidatorSetUpdateTx, coinbase, validator_set_update, StoreView,
}
use theta_protocol_subchain.Ledger.Inputs.{get_account}
use theta_protocol_subchain.Ledger.Execution.{Executor, process_tx, get_dynasty}
use theta_protocol_subchain.Ledger.State.{LedgerState}
use theta_protocol_subchain.Ledger.Blocks.{Context, executor_at}

module _ {C : Type 0} (c : Context C) where
  -- The loop of `ProposeBlockTxs` over the candidates, with the ones that it keeps; `none` is a panic.
  unfoldable pub check_txs :
      Executor C → ℕ → StoreView C → List (List ℕ) → Option (StoreView C × List (List ℕ))
  unfolding process_tx
  check_txs ex state_height view [] = some (view, [])
  check_txs ex state_height view (raw ∷ raws) = elim (c.tx_from_bytes raw) [
    | none ↦ check_txs ex state_height view raws
    | some tx ↦
        let outcome = process_tx ex state_height view tx in
        let rest = check_txs ex state_height outcome.0 raws in
        let kept : Option (StoreView C × List (List ℕ)) = elim rest [
          | none ↦ none
          | some r ↦ some (r.0, raw ∷ r.1)
        ] in
        elim outcome.1 [ ok _ ↦ kept | error ↦ rest | undecided ↦ kept | panic ↦ none ]
  ]

  -- The coinbase transaction, or nothing when it cannot be signed or encoded.
  unfoldable pub add_coinbase_tx : ℕ → Validator → List (List ℕ)
  add_coinbase_tx state_height proposer =
      let unsigned : CoinbaseTx C = record {
        proposer = record {
          address = proposer.address;
          coins = c.nil_coins;
          sequence = 0;
          signature = [];
        };
        block_height = state_height;
      } in
      elim (c.sign (c.executor.rules.coinbase_sign_bytes unsigned)) [
        | none ↦ []
        | some signature ↦
            elim (c.tx_to_bytes (
              coinbase (record unsigned {
                proposer = record unsigned.proposer { signature = signature };
              }))) [ none ↦ [] | some raw ↦ raw ∷ [] ]
      ]

  -- The dynasty that the main chain has entered, with its validators.
  unfoldable pub get_new_dynasty_and_validator_set :
      StoreView C → Result (Option (ℕ × ValidatorSet))
  unfolding get_dynasty calculate_dynasty
  get_new_dynasty_and_validator_set view = elim c.mainchain_block_height [
    | none ↦ ok none
    | some height ↦
        let dynasty = calculate_dynasty height in
        elim (c.executor.witnessed_set dynasty) [
          | none ↦ ok none
          | some witnessed ↦ elim (get_dynasty view) [
            | none ↦ panic
            | some current ↦ if leb dynasty current then ok none else ok (some (dynasty, witnessed))
          ]
        ]
  ]

  -- `none` ends the process.
  unfoldable pub add_validator_set_update_tx :
      StoreView C → Validator → ℕ → ValidatorSet → Option (List (List ℕ))
  unfolding get_account
  add_validator_set_update_tx view proposer dynasty vs = elim (get_account view proposer.address) [
    | none ↦ none
    | some account ↦
        let unsigned : SubchainValidatorSetUpdateTx C = record {
          proposer = record {
            address = proposer.address;
            coins = c.nil_coins;
            sequence = uint64 (account.sequence + 1);
            signature = [];
          };
          dynasty = dynasty;
          validators = vs.validators;
        } in
        elim (c.sign (c.executor.rules.update_sign_bytes unsigned)) [
          | none ↦ none
          | some signature ↦
              elim (c.tx_to_bytes (
                validator_set_update (record unsigned {
                  proposer = record unsigned.proposer { signature = signature };
                }))) [ none ↦ none | some raw ↦ some (raw ∷ []) ]
        ]
  ]

  unfoldable pub add_special_transactions : ℕ → Block → StoreView C → Bool → Option (List (List ℕ))
  unfolding add_coinbase_tx get_new_dynasty_and_validator_set add_validator_set_update_tx
  add_special_transactions state_height block view majority =
      elim (c.next_proposer block.parent block.epoch) [
        | none ↦ none
        | some proposer ↦ elim (c.executor.next_validator_set block.parent) [
          | none ↦ none
          | some _ ↦
              let first = add_coinbase_tx state_height proposer in
              elim (get_new_dynasty_and_validator_set view) [
                | error ↦ none
                | undecided ↦ none
                | panic ↦ none
                | ok none ↦ some first
                | ok (some (dynasty, vs)) ↦
                    if not majority
                    then some first
                    else elim (add_validator_set_update_tx view proposer dynasty vs) [
                      | none ↦ none
                      | some more ↦ some (first ++ more)
                    ]
              ]
        ]
      ]

  -- `ProposeBlockTxs`, on the transactions reaped from the mempool: the state after it, the root and
  -- the block's transactions, or `none` for a panic.
  unfoldable pub propose_block_txs :
      LedgerState C → Block → Bool → List (List ℕ) → Option (LedgerState C × ℕ × List (List ℕ))
  unfolding add_special_transactions check_txs
  propose_block_txs s block majority reaped = elim s.checked [
    | none ↦ none
    | some view ↦ elim (add_special_transactions s.delivered.height block view majority) [
      | none ↦ none
      | some special ↦
          elim (check_txs (executor_at c block) s.delivered.height view (special ++ reaped)) [
            | none ↦ none
            | some (after, raws) ↦
                some (record s { checked = some after }, c.tries.root after.store, raws)
          ]
    ]
  ]
