-- ===== src/Ledger/Applying.antt =====
-- `ApplyBlockTxs` of ledger/ledger.go: what holds of the state after a block.
use theta_protocol_subchain.Prelude.{true, ◌≢◌, ap, sym}
use theta_protocol_subchain.Prelude.{some}
use theta_protocol_subchain.Chain.Store.{find_block}
use theta_protocol_subchain.Prelude.Dict.{lookup, lookup-insert_same}
use theta_protocol_subchain.Ledger.State.{
  Tries, LedgerState, reset_state, commit, copy, new_store_view, increment_height,
}
use theta_protocol_subchain.Core.Block.{Block, ExtendedBlock}
use theta_protocol_subchain.Ledger.Blocks.{apply_block_txs, executor_at}
use theta_protocol_subchain.Prelude.{
  ℕ, ◌≡◌, ◌⊎◌, refl, Bool, false, List, [], ◌∷◌, inl, inr, Option-cases, ==→eq, Bool-cases, ◌==◌,
}
use theta_protocol_subchain.Ledger.Result.{
  Result, ok, error, undecided, panic, Result-cases, pair_eta,
}
use theta_protocol_subchain.Ledger.Types.{
  Tx, coinbase, validator_set_update, send, smart_contract, deposit_stake, withdraw_stake,
  stake_reward_distribution, slash, other, StoreView, Store,
}
use theta_protocol_subchain.Ledger.Execution.{
  Executor, process_tx, process, sanity_check, process_by_type, is_tx_type_supported,
}
use theta_protocol_subchain.Ledger.Blocks.{Context, execute_txs, updates_validators}

failed :
    (res : Result Bool)
    → (res ≡ error) ⊎ (res ≡ undecided)
    → (res ≢ panic) × ((b : Bool) → res ≢ ok b)
failed res (inl e) = (λ h. cc, λ b h. cc)
failed res (inr e) = (λ h. cc, λ b h. cc)

module _ {C : Type 0} where
  -- A transaction is executed only when its check passes.
  pub process_tx-runs :
      (ex : Executor C) (h : ℕ) (view after : StoreView C) (tx : Tx C)
      → process_tx ex h view tx ≡ (after, ok tt)
      → (sanity_check ex h view tx ≡ ok tt) × (process ex view tx ≡ (after, ok tt))
  unfolding process_tx
  process_tx-runs ex h view after tx done = elim (Result-cases (sanity_check ex h view tx)) [
    | inl (u, e) ↦ (e, rw (e, process_tx) at done)
    | inr (inl e) ↦ absurd (cc (rw (e, process_tx) at done))
    | inr (inr (inl e)) ↦ absurd (cc (rw (e, process_tx) at done))
    | inr (inr (inr e)) ↦ absurd (cc (rw (e, process_tx) at done))
  ]

  -- A transaction that is executed is not one that `ApplyBlockTxs` takes for a change of validators.
  pub process-updates_validators :
      (c : Context C) (ex : Executor C) (view after : StoreView C) (tx : Tx C)
      → process ex view tx ≡ (after, ok tt)
      → updates_validators c tx ≡ false
  unfolding process process_by_type is_tx_type_supported updates_validators
  process-updates_validators c ex view after (coinbase _) done = refl
  process-updates_validators c ex view after (validator_set_update _) done = refl
  process-updates_validators c ex view after (send _) done = refl
  process-updates_validators c ex view after (smart_contract _) done = refl
  process-updates_validators c ex view after (deposit_stake b) done = absurd (cc done)
  process-updates_validators c ex view after (withdraw_stake b) done = absurd (cc done)
  process-updates_validators c ex view after stake_reward_distribution done = refl
  process-updates_validators c ex view after slash done = refl
  process-updates_validators c ex view after other done = refl

  execute_txs-no_update :
      (c : Context C) (ex : Executor C) (h : ℕ) (view after : StoreView C) (raws : List (List ℕ))
      (has : Bool)
      → execute_txs c ex h view raws false ≡ (after, ok has)
      → has ≡ false
  unfolding execute_txs
  execute_txs-no_update c ex h view after [] has done = cc
  execute_txs-no_update c ex h view after (raw ∷ raws) has done =
      elim (Option-cases (c.tx_from_bytes raw)) [
        | inl e ↦ absurd (cc (rw (e, execute_txs) at done))
        | inr (tx, e) ↦ elim (Result-cases (process_tx ex h view tx).1) [
          | inl (u, fine) ↦
              execute_txs-no_update c ex h (process_tx ex h view tx).0 after raws has (
                rw
                  (
                    e,
                    fine,
                    process-updates_validators c ex view (process_tx ex h view tx).0 tx
                        (process_tx-runs ex h view (process_tx ex h view tx).0 tx
                          (pair_eta _ fine)).1,
                    execute_txs,
                  )
                  at done)
          | inr (inl bad) ↦ absurd (cc (rw (e, bad, execute_txs) at done))
          | inr (inr (inl bad)) ↦ absurd (cc (rw (e, bad, execute_txs) at done))
          | inr (inr (inr bad)) ↦ absurd (cc (rw (e, bad, execute_txs) at done))
        ]
      ]

  -- The view of a stored state, before any transaction.
  abbrev pub view_of : Block → Store C → StoreView C
  view_of block store = record {
    height = block.height;
    coinbase_processed = false;
    validator_set_processed = false;
    store = store;
  }

  -- The state with its views at a block.
  abbrev pub at_block : LedgerState C → Block → Store C → LedgerState C
  at_block s block store = record s {
    parent_block = block;
    delivered = view_of block store;
    checked = some (view_of block store);
    screened = some (view_of block store);
  }

  copy-view_of :
      (t : Tries C) (block : Block) (store : Store C)
      → ((u : Store C) → t.copy_trie u ≡ some u)
      → copy t (view_of block store) ≡ some (view_of block store)
  unfolding copy
  copy-view_of t block store copies = rw (copies store, copy) refl

  reset_state-at_block :
      (t : Tries C) (s : LedgerState C) (block : Block) (store : Store C)
      → ((u : Store C) → t.copy_trie u ≡ some u)
      → (block.state_hash == 0) ≡ false
      → lookup block.state_hash s.db ≡ some store
      → reset_state t s block ≡ (at_block s block store, true)
  unfolding reset_state new_store_view
  reset_state-at_block t s block store copies real kept =
      rw
        (
          reset_state,
          new_store_view,
          real,
          kept,
          copy-view_of t block store copies,
          copy-view_of t block store copies,
        )
        refl

  -- Where `ApplyBlockTxs` returns OK, every transaction of the block was executed and the root of
  -- the view is the block's; the result never says that the validators change; the delivered view
  -- is that view one height up, its store can be read under the root, and the two other views are
  -- copies of it.
  pub apply_block_txs-ok :
      (c : Context C) (s s' : LedgerState C) (block : Block) (has : Bool)
      → apply_block_txs c s block ≡ (s', ok has)
      → (after : StoreView C) × (execute_txs c
            (executor_at c block)
            s.delivered.height
            s.delivered
            block.txs
            false
          ≡ (after, ok has))
        × (has ≡ false)
        × (c.tries.root after.store ≡ block.state_hash)
        × (s'.delivered ≡ increment_height after)
        × (lookup block.state_hash s'.db ≡ some after.store)
        × (s'.checked ≡ copy c.tries s'.delivered)
        × (s'.screened ≡ copy c.tries s'.delivered)
  unfolding apply_block_txs commit
  apply_block_txs-ok c s s' block has done = elim (Option-cases (find_block c.chain block.parent)) [
    | inl e ↦ absurd (cc (rw (e, apply_block_txs) at done))
    | inr (parent, e) ↦
        let out =
          execute_txs c (executor_at c block) s.delivered.height s.delivered block.txs false in
        elim (Result-cases out.1) [
          | inr (inl bad) ↦ absurd (cc (rw (e, bad, apply_block_txs) at done))
          | inr (inr (inl bad)) ↦ absurd (cc (rw (e, bad, apply_block_txs) at done))
          | inr (inr (inr bad)) ↦ absurd (cc (rw (e, bad, apply_block_txs) at done))
          | inl (b, fine) ↦ elim (Bool-cases (c.tries.root out.0.store == block.state_hash)) [
            | inr wrong ↦ absurd (cc (rw (e, fine, wrong, apply_block_txs) at done))
            | inl right ↦ elim (Option-cases (copy c.tries (increment_height out.0))) [
              | inl no_copy ↦
                  absurd (cc (rw (e, fine, right, apply_block_txs, commit, no_copy) at done))
              | inr (fresh, copied) ↦
                  let shown = rw (e, fine, right, apply_block_txs, commit, copied) at done in
                  let same = ap (λ p. p.0) shown in
                  let same_has : ok b ≡ ok has = ap (λ p. p.1) shown in
                  let hash : c.tries.root out.0.store ≡ block.state_hash = ==→eq _ _ right in
                  (
                    out.0,
                    cc (pair_eta out fine, same_has),
                    execute_txs-no_update c (executor_at c block) s.delivered.height s.delivered
                        out.0 block.txs has (cc (pair_eta out fine, same_has)),
                    hash,
                    sym (ap (λ x. x.delivered) same),
                    (rw (← ap (λ x. x.db) same, ← hash)
                        (lookup-insert_same (c.tries.root out.0.store) out.0.store s.db)),
                    cc (ap (λ x. x.checked) same, ap (λ x. x.delivered) same, copied),
                    cc (ap (λ x. x.screened) same, ap (λ x. x.delivered) same, copied),
                  )
            ]
          ]
        ]
  ]

  -- Where `ApplyBlockTxs` returns an error or is undecided, the state stands at the parent block
  -- with the views of its state, and is otherwise as before, if the parent is stored, its root is
  -- not the empty one and is in the database, and tries can be copied.
  pub apply_block_txs-fails :
      (c : Context C) (s s' : LedgerState C) (block : Block) (parent : ExtendedBlock)
      (store : Store C) (res : Result Bool)
      → ((t : Store C) → c.tries.copy_trie t ≡ some t)
      → find_block c.chain block.parent ≡ some parent
      → (parent.state_hash == 0) ≡ false
      → lookup parent.state_hash s.db ≡ some store
      → apply_block_txs c s block ≡ (s', res)
      → (res ≡ error) ⊎ (res ≡ undecided)
      → s' ≡ at_block s parent.block store
  unfolding apply_block_txs
  apply_block_txs-fails c s s' block parent store res copies found real kept done bad =
      let out =
        execute_txs c (executor_at c block) s.delivered.height s.delivered block.txs false in
      let back =
        reset_state-at_block c.tries (record s { delivered = out.0 }) parent.block store copies real
          kept in
      elim (Result-cases out.1) [
        | inr (inl e) ↦ cc (rw (found, e, apply_block_txs, back) at done)
        | inr (inr (inl e)) ↦ cc (rw (found, e, apply_block_txs, back) at done)
        | inr (inr (inr e)) ↦
            absurd ((failed res bad).0 (cc (rw (found, e, apply_block_txs) at done)))
        | inl (b, e) ↦ elim (Bool-cases (c.tries.root out.0.store == block.state_hash)) [
          | inr wrong ↦ cc (rw (found, e, wrong, apply_block_txs, back) at done)
          | inl right ↦ elim (Option-cases (copy c.tries (increment_height out.0))) [
            | inl none_made ↦ absurd (
                (failed res bad).0
                  (cc (rw (found, e, right, apply_block_txs, commit, none_made) at done)))
            | inr (fresh, copied) ↦ absurd (
                (failed res bad).1 b
                  (cc (rw (found, e, right, apply_block_txs, commit, copied) at done)))
          ]
        ]
      ]
