-- ===== src/Ledger/State.antt =====
-- ledger/state: the views of a state (storeview.go) and the ledger's state (state.go).
use theta_protocol_subchain.Prelude.{
  ℕ, ◌+◌, Bool, true, false, Option, none, some, List, [], ◌∷◌, ◌++◌, ◌==◌, if◌then◌else◌,
}
use theta_protocol_subchain.Prelude.Dict.{Dict, lookup, insert}
use theta_protocol_subchain.Core.Block.{Block}
use theta_protocol_subchain.Consensus.Managers.{uint64}
use theta_protocol_subchain.Ledger.Types.{Store, StoreView}

-- The state tries: their root, the one under the empty root (the number 0), and `Copy`, where `none`
-- is an error.
pub record Tries (C : Type 0) : Type 0 where
  pub root : Store C → ℕ
  pub empty : Store C
  pub copy_trie : Store C → Option (Store C)

-- The state with its database of tries by root, and the tags that it has set.
pub record LedgerState (C : Type 0) : Type 0 where
  pub db : Dict (Store C)
  pub tags : List (ℕ × ℕ)
  pub parent_block : Block
  pub finalized : StoreView C
  pub delivered : StoreView C
  pub checked : Option (StoreView C)
  pub screened : Option (StoreView C)

module _ {C : Type 0} where
  unfoldable pub increment_height : StoreView C → StoreView C
  increment_height view = record view { height = uint64 (view.height + 1) }

module _ {C : Type 0} (t : Tries C) where
  unfoldable pub new_store_view : ℕ → ℕ → Dict (Store C) → Option (StoreView C)
  unfolding lookup
  new_store_view height root db =
      let view : Store C → StoreView C = λ store. record {
        height = height;
        coinbase_processed = false;
        validator_set_processed = false;
        store = store;
      } in
      if root == 0
      then some (view t.empty)
      else elim (lookup root db) [ none ↦ none | some store ↦ some (view store) ]

  unfoldable pub copy : StoreView C → Option (StoreView C)
  copy view = elim (t.copy_trie view.store) [
    | none ↦ none
    | some store ↦ some (record {
      height = view.height;
      coinbase_processed = false;
      validator_set_processed = false;
      store = store;
    })
  ]

  -- The state after the call, and whether the result is OK.
  unfoldable pub reset_state : LedgerState C → Block → LedgerState C × Bool
  unfolding new_store_view copy
  reset_state s block = elim (new_store_view block.height block.state_hash s.db) [
    | none ↦ (record s { parent_block = block }, false)
    | some view ↦
        let at = record s { parent_block = block; delivered = view } in
        elim (copy view) [
          | none ↦ (record at { checked = none }, false)
          | some checked ↦ elim (copy view) [
            | none ↦ (record at { checked = some checked; screened = none }, false)
            | some screened ↦ (record at { checked = some checked; screened = some screened }, true)
          ]
        ]
  ]

  unfoldable pub finalize : LedgerState C → ℕ → ℕ → LedgerState C × Bool
  unfolding new_store_view
  finalize s height root = elim (new_store_view height root s.db) [
    | none ↦ (s, false)
    | some view ↦ (record s { finalized = view }, true)
  ]

  -- `none` is the panic on a copy that failed.
  unfoldable pub commit : LedgerState C → Option (LedgerState C × ℕ)
  unfolding insert increment_height copy
  commit s =
      let hash = t.root s.delivered.store in
      let view = increment_height s.delivered in
      elim (copy view) [
        | none ↦ none
        | some fresh ↦ some (
          record s {
            db = insert hash s.delivered.store s.db;
            tags = s.tags ++ (view.height, hash) ∷ [];
            delivered = view;
            checked = some fresh;
            screened = some fresh;
          },
          hash,
        )
      ]
