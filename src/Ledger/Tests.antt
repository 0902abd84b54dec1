-- ===== src/Ledger/Tests.antt =====
-- The ledger of the samples: the transactions and the blocks at work.
use theta_protocol_subchain.Prelude.{true}
use theta_protocol_subchain.Ledger.Ordinary.{is_ordinary}
use theta_protocol_subchain.Ledger.Agreement.{IsOrdinary, apply_block_txs-propose_block_txs}
use theta_protocol_subchain.Ledger.Proposing.{add_special_transactions, propose_block_txs}
use mathlib.Core.Path.{subst}
use theta_protocol_subchain.Prelude.{[], ◌∷◌}
use theta_protocol_subchain.Prelude.{inl}
use theta_protocol_subchain.Prelude.{List}
use theta_protocol_subchain.Prelude.{ℕ}
use theta_protocol_subchain.Prelude.{some}
use theta_protocol_subchain.Ledger.Screening.{screen_tx-validator_set_update}
use theta_protocol_subchain.Ledger.Applying.{apply_block_txs-ok, apply_block_txs-fails, at_block}
use theta_protocol_subchain.Ledger.Dynasty.{execute_txs-dynasty, updates_in}
use theta_protocol_subchain.Ledger.Frames.{ContractsFrame}
use theta_protocol_subchain.Ledger.Updates.{Updated, process_validator_set_update-Updated}
use theta_protocol_subchain.Ledger.Replay.{process_send-no_replay}
use theta_protocol_subchain.Ledger.Conservation.{process_send-conserves}
use theta_protocol_subchain.Ledger.Execution.{get_dynasty, process_validator_set_update}
use theta_protocol_subchain.Ledger.Blocks.{executor_at, screen_tx, execute_txs, apply_block_txs}
use theta_protocol_subchain.Ledger.State.{LedgerState, copy, increment_height}
use theta_protocol_subchain.Ledger.Types.{StoreView, coinbase, send}
use theta_protocol_subchain.Chain.Store.{find_block}
use theta_protocol_subchain.Core.Block.{Block}
use theta_protocol_subchain.Prelude.Dict.{lookup}
use theta_protocol_subchain.Prelude.{◌≡◌, refl, arith, ◌+◌, ◌≢◌, ◌≤◌, ◌==◌, false}
use theta_protocol_subchain.Ledger.Result.{ok, error, panic}
use theta_protocol_subchain.Ledger.Samples.{
  toy_rules, toy_send, toy_view, toy_executor, toy_context, toy_state, toy_update, toy_parent,
  toy_store, toy_root, block_with, toy_coinbase,
}
use theta_protocol_subchain.Ledger.Send.{sanity_check_send, process_send}
use theta_protocol_subchain.Ledger.Funds.{Laws, value, total_funds, sum_by}

toy_laws : Laws toy_rules
unfolding value
toy_laws = record {
  value-no_coins = refl;
  value-plus = λ a b. refl;
  value-minus = λ a b h. ground arith;
  value-is_equal = λ a b h. ground arith;
  funds-new_account = λ i. refl;
  balance-update_to_height = λ acc h. refl;
  sequence-update_to_height = λ acc h. refl;
}

send-passes : sanity_check_send toy_rules toy_view toy_send ≡ ok tt
unfolding sanity_check_send
send-passes = refl

process_send-conserves_example :
    (after : StoreView ℕ) × (process_send toy_rules toy_view toy_send ≡ (after, ok tt))
    × (total_funds toy_rules after + 10 ≡ 105)
unfolding value total_funds sum_by
process_send-conserves_example =
    process_send-conserves toy_rules toy_laws toy_view toy_send send-passes

abbrev after_send : StoreView ℕ
unfolding process_send
after_send = (process_send toy_rules toy_view toy_send).0

send-runs : process_send toy_rules toy_view toy_send ≡ (after_send, ok tt)
unfolding process_send after_send
send-runs = refl

process_send-no_replay_example : sanity_check_send toy_rules after_send toy_send ≢ ok tt
process_send-no_replay_example =
    process_send-no_replay toy_rules toy_laws toy_view after_send toy_send send-passes send-runs

abbrev after_update : StoreView ℕ
unfolding process_validator_set_update
after_update = (process_validator_set_update toy_executor toy_view toy_update).0

update-runs : process_validator_set_update toy_executor toy_view toy_update ≡ (after_update, ok tt)
unfolding process_validator_set_update after_update
update-runs = refl

process_validator_set_update-Updated_example : Updated toy_executor toy_view after_update toy_update
process_validator_set_update-Updated_example =
    process_validator_set_update-Updated toy_executor toy_view after_update toy_update update-runs

-- A block with the coinbase transaction, the update and the transfer.
abbrev full_txs : List (List ℕ)
full_txs = (2 ∷ []) ∷ (3 ∷ []) ∷ (1 ∷ []) ∷ []

abbrev full_view : StoreView ℕ
unfolding execute_txs
full_view =
    (execute_txs toy_context (executor_at toy_context (block_with [] 0)) 2 toy_view full_txs
      false).0

full-runs :
    execute_txs toy_context (executor_at toy_context (block_with [] 0)) 2 toy_view full_txs false
    ≡ (full_view, ok false)
unfolding execute_txs full_view
full-runs = refl

toy-ContractsFrame : ContractsFrame (executor_at toy_context (block_with [] 0))
toy-ContractsFrame view n = record { same_set = refl; same_flag = refl }

toy_dynasty : get_dynasty toy_view ≡ some 1
unfolding get_dynasty
toy_dynasty = refl

execute_txs-dynasty_example :
    (d' : ℕ) × (get_dynasty full_view ≡ some d')
    × (1 + 1 ≤ d')
    × (1 + 0 ≤ 1)
    × (updates_in toy_context full_txs ≡ 0
        → full_view.store.validator_set ≡ toy_view.store.validator_set)
unfolding updates_in
execute_txs-dynasty_example =
    execute_txs-dynasty toy_context (executor_at toy_context (block_with [] 0)) 2 toy_view full_view
      full_txs false false 1 toy-ContractsFrame toy_dynasty full-runs

abbrev full_block : Block
full_block = block_with full_txs (toy_root full_view.store)

abbrev full_state : LedgerState ℕ
unfolding apply_block_txs
full_state = (apply_block_txs toy_context toy_state full_block).0

full-applied : apply_block_txs toy_context toy_state full_block ≡ (full_state, ok false)
unfolding apply_block_txs full_state full_view sum_by
full-applied = refl

apply_block_txs-ok_example :
    (after : StoreView ℕ) × (execute_txs toy_context
        (executor_at toy_context full_block)
        2
        toy_view
        full_txs
        false
      ≡ (after, ok false))
    × (false ≡ false)
    × (toy_root after.store ≡ full_block.state_hash)
    × (full_state.delivered ≡ increment_height after)
    × (lookup full_block.state_hash full_state.db ≡ some after.store)
    × (full_state.checked ≡ copy toy_context.tries full_state.delivered)
    × (full_state.screened ≡ copy toy_context.tries full_state.delivered)
apply_block_txs-ok_example =
    apply_block_txs-ok toy_context toy_state full_state full_block false full-applied

-- The transfer twice.
abbrev bad_block : Block
bad_block = block_with ((2 ∷ []) ∷ (1 ∷ []) ∷ (1 ∷ []) ∷ []) 0

abbrev bad_state : LedgerState ℕ
unfolding apply_block_txs
bad_state = (apply_block_txs toy_context toy_state bad_block).0

bad_refused : apply_block_txs toy_context toy_state bad_block ≡ (bad_state, error)
unfolding apply_block_txs bad_state
bad_refused = refl

parent-found : find_block toy_context.chain bad_block.parent ≡ some toy_parent
unfolding find_block lookup
parent-found = refl

parent-kept : lookup toy_parent.state_hash toy_state.db ≡ some toy_store
unfolding lookup sum_by
parent-kept = refl

parent-real : (toy_parent.state_hash == 0) ≡ false
unfolding sum_by
parent-real = refl

apply_block_txs-fails_example : bad_state ≡ at_block toy_state toy_parent.block toy_store
apply_block_txs-fails_example =
    apply_block_txs-fails toy_context toy_state bad_state bad_block toy_parent toy_store error
      (λ t. refl) parent-found parent-real parent-kept bad_refused (inl refl)

screen_tx-validator_set_update_example : (screen_tx toy_context toy_state (3 ∷ [])).1 ≡ panic
screen_tx-validator_set_update_example =
    screen_tx-validator_set_update toy_context toy_state (3 ∷ []) toy_view toy_update refl refl refl
      refl

-- The coinbase transaction, what cannot be parsed, and the transfer twice.
abbrev candidates : List (List ℕ)
candidates = [] ∷ (1 ∷ []) ∷ (1 ∷ []) ∷ []

abbrev draft : Block
draft = block_with [] 0

special-added : add_special_transactions toy_context 2 draft toy_view true ≡ some ((2 ∷ []) ∷ [])
unfolding add_special_transactions
special-added = refl

abbrev proposed_txs : List (List ℕ)
proposed_txs = (2 ∷ []) ∷ (1 ∷ []) ∷ []

abbrev proposed_view : StoreView ℕ
unfolding execute_txs
proposed_view =
    (execute_txs toy_context (executor_at toy_context draft) 2 toy_view proposed_txs false).0

abbrev proposed_state : LedgerState ℕ
proposed_state = record toy_state { checked = some proposed_view }

proposed_now :
    propose_block_txs toy_context toy_state draft true candidates
    ≡ some (proposed_state, toy_root proposed_view.store, proposed_txs)
unfolding propose_block_txs proposed_view sum_by
proposed_now = refl

IsOrdinary-coinbase : IsOrdinary toy_context (2 ∷ [])
unfolding is_ordinary
IsOrdinary-coinbase tx e =
    let same : coinbase toy_coinbase ≡ tx = cc in subst (λ t. is_ordinary t ≡ true) same refl

IsOrdinary-send : IsOrdinary toy_context (1 ∷ [])
unfolding is_ordinary
IsOrdinary-send tx e =
    let same : send toy_send ≡ tx = cc in subst (λ t. is_ordinary t ≡ true) same refl

apply_block_txs-propose_block_txs_example :
    (after : StoreView ℕ) × (s'' : LedgerState ℕ) × (proposed_state.checked ≡ some after)
    × (apply_block_txs toy_context toy_state
          (block_with proposed_txs (toy_root proposed_view.store))
        ≡ (s'', ok false))
    × (s''.delivered ≡ increment_height after)
apply_block_txs-propose_block_txs_example =
    apply_block_txs-propose_block_txs toy_context toy_state proposed_state draft
      (block_with proposed_txs (toy_root proposed_view.store)) true (toy_root proposed_view.store)
      ((2 ∷ []) ∷ []) candidates proposed_txs toy_parent toy_laws refl (λ t. refl) refl
      special-added
      (IsOrdinary-coinbase, ((λ tx e. absurd (cc e)), (IsOrdinary-send, (IsOrdinary-send, tt))))
      proposed_now parent-found refl refl refl
