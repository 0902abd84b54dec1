-- ===== src/Ledger/Agreement.antt =====
-- ledger/ledger.go: `ApplyBlockTxs` accepts what `ProposeBlockTxs` has put together.
use theta_protocol_subchain.Ledger.Proposing.{
  add_special_transactions, propose_block_txs, check_txs,
}
use mathlib.Core.Path.{subst}
use theta_protocol_subchain.Prelude.Dict.{insert}
use theta_protocol_subchain.Prelude.{
  ℕ, ◌≡◌, ◌∙◌, refl, sym, ap, Bool, true, false, Option, some, List, [], ◌∷◌, ◌++◌, ◌==◌, inl, inr,
  arith, Option-cases, All, some_pair_inj,
}
use theta_protocol_subchain.Core.Block.{Block, ExtendedBlock}
use theta_protocol_subchain.Chain.Store.{find_block}
use theta_protocol_subchain.Ledger.Result.{ok, Result-cases, pair_eta}
use theta_protocol_subchain.Ledger.Types.{Tx, Store, StoreView}
use theta_protocol_subchain.Ledger.Execution.{Executor, process_tx}
use theta_protocol_subchain.Ledger.State.{LedgerState, copy, commit, increment_height}
use theta_protocol_subchain.Ledger.Blocks.{Context, executor_at, execute_txs, apply_block_txs}
use theta_protocol_subchain.Ledger.Applying.{process_tx-runs, process-updates_validators}
use theta_protocol_subchain.Ledger.Funds.{Laws}
use theta_protocol_subchain.Ledger.Ordinary.{is_ordinary, process_tx-Reverts}

some_triple_inj :
    {X Y Z : Type 0} {x x' : X} {y y' : Y} {z z' : Z}
    → ◌≡◌ {A = Option (X × Y × Z)} (some (x, y, z)) (some (x', y', z'))
    → (x ≡ x') × (y ≡ y') × (z ≡ z')
some_triple_inj h = (cc, cc, cc)

eq→== : (a b : ℕ) → a ≡ b → (a == b) ≡ true
eq→== a b h = ground arith

module _ {C : Type 0} (c : Context C) where
  -- The bytes of a transaction of an ordinary type, or of none.
  abbrev pub IsOrdinary : List ℕ → Type 0
  IsOrdinary raw = (tx : Tx C) → c.tx_from_bytes raw ≡ some tx → is_ordinary tx ≡ true

  -- A copy of a view: its flags are lowered.
  abbrev view_at : StoreView C → StoreView C
  view_at view = record view { coinbase_processed = false; validator_set_processed = false }

  execute_txs-check_txs :
      (ex : Executor C) (h : ℕ) (view after : StoreView C) (raws kept : List (List ℕ))
      → Laws ex.rules
      → ex.skip_sanity_check ≡ false
      → All IsOrdinary raws
      → check_txs c ex h view raws ≡ some (after, kept)
      → execute_txs c ex h view kept false ≡ (after, ok false)
  unfolding check_txs execute_txs
  execute_txs-check_txs ex h view after [] kept laws checks plain e =
      let (same, none_kept) = some_pair_inj e in rw (← none_kept, same) refl
  execute_txs-check_txs ex h view after (raw ∷ raws) kept laws checks (p, plain) e =
      elim (Option-cases (c.tx_from_bytes raw)) [
        | inl f ↦
            execute_txs-check_txs ex h view after raws kept laws checks plain
              (rw (f, check_txs) at e)
        | inr (tx, f) ↦
            let out = process_tx ex h view tx in
            let (decided, reverts) = process_tx-Reverts ex h view tx laws checks (p tx f) in
            elim (Result-cases out.1) [
              | inr (inl g) ↦
                  execute_txs-check_txs ex h view after raws kept laws checks plain
                    (rw (f, g, reverts g, check_txs) at e)
              | inr (inr (inl g)) ↦ absurd (decided g)
              | inr (inr (inr g)) ↦ absurd (cc (rw (f, g, check_txs) at e))
              | inl (u, g) ↦ elim (Option-cases (check_txs c ex h out.0 raws)) [
                | inl none_left ↦ absurd (cc (rw (f, g, none_left, check_txs) at e))
                | inr ((last, more), rest) ↦
                    let (same, kept_is) = some_pair_inj (rw (f, g, rest, check_txs) at e) in
                    let still =
                      process-updates_validators c ex view out.0 tx
                        (process_tx-runs ex h view out.0 tx (pair_eta out g)).1 in
                    rw (← kept_is, f, g, still, execute_txs)
                      (execute_txs-check_txs ex h out.0 after raws more laws checks plain
                        (rw same at rest))
              ]
            ]
      ]

  -- If `ProposeBlockTxs` returns on a state whose checked view is its delivered view, and all its
  -- candidates, the special transactions among them, are of other types than validator set
  -- updates and smart contracts or cannot be parsed, then `ApplyBlockTxs` on that state accepts a
  -- block with the same parent, its transactions and its root, and delivers the view that the
  -- proposer checked, one height up. Hypotheses: the laws of coins and accounts, checks are not
  -- skipped, tries can be copied, and the parent is stored.
  pub apply_block_txs-propose_block_txs :
      (s s' : LedgerState C) (draft block : Block) (majority : Bool) (root : ℕ)
      (special reaped raws : List (List ℕ)) (parent : ExtendedBlock)
      → Laws c.executor.rules
      → c.executor.skip_sanity_check ≡ false
      → ((t : Store C) → c.tries.copy_trie t ≡ some t)
      → s.checked ≡ some s.delivered
      → add_special_transactions c s.delivered.height draft s.delivered majority ≡ some special
      → All IsOrdinary (special ++ reaped)
      → propose_block_txs c s draft majority reaped ≡ some (s', root, raws)
      → find_block c.chain draft.parent ≡ some parent
      → block.parent ≡ draft.parent
      → block.txs ≡ raws
      → block.state_hash ≡ root
      → (after : StoreView C) × (s'' : LedgerState C) × (s'.checked ≡ some after)
        × (apply_block_txs c s block ≡ (s'', ok false))
        × (s''.delivered ≡ increment_height after)
  unfolding propose_block_txs apply_block_txs commit copy increment_height
  apply_block_txs-propose_block_txs s s' draft block majority root special reaped raws parent laws
        checks copies fresh specials plain proposed found same_parent same_txs same_root =
      elim (Option-cases
        (check_txs c (executor_at c draft) s.delivered.height s.delivered (special ++ reaped))) [
          | inl e ↦ absurd (cc (rw (fresh, specials, e, propose_block_txs) at proposed))
          | inr ((after, kept), e) ↦
              let (state_is, root_is, kept_is) =
                some_triple_inj (rw (fresh, specials, e, propose_block_txs) at proposed) in
              let parent_found : find_block c.chain block.parent ≡ some parent =
                rw same_parent found in
              let runs : execute_txs c (executor_at c block) s.delivered.height s.delivered
                    block.txs false
                  ≡ (after, ok false) =
                rw (same_parent, same_txs, ← kept_is)
                  (execute_txs-check_txs (executor_at c draft) s.delivered.height s.delivered after
                    (special ++ reaped) kept laws checks plain e) in
              let committed : StoreView C → LedgerState C = λ v. record s {
                db = insert (c.tries.root v.store) v.store s.db;
                tags = s.tags ++ ((increment_height v).height, c.tries.root v.store) ∷ [];
                delivered = increment_height v;
                checked = some (view_at (increment_height v));
                screened = some (view_at (increment_height v));
              } in
              let out =
                (execute_txs c (executor_at c block) s.delivered.height s.delivered block.txs
                  false).0 in
              let copied : copy c.tries (increment_height out)
                  ≡ some (view_at (increment_height out)) =
                rw (copies out.store, copy) refl in
              let right : (c.tries.root out.store == block.state_hash) ≡ true =
                eq→== _ _ (ap (λ p. c.tries.root p.0.store) runs ∙ root_is ∙ sym same_root) in
              (
                after,
                committed after,
                sym (ap (λ x. x.checked) state_is),
                subst (λ v. apply_block_txs c s block ≡ (committed v, ok false))
                    (ap (λ p. p.0) runs)
                    (rw (parent_found, ap (λ p. p.1) runs, right, copied, apply_block_txs, commit)
                      refl),
                refl,
              )
        ]
