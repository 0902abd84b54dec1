-- ===== src/Ledger/Dynasty.antt =====
-- The validator set in the state, ledger/execution/tx_validator_set_update.go: which transactions
-- change it, and to what.
use theta_protocol_subchain.Ledger.Updates.{Updated, process_validator_set_update-Updated}
use mathlib.Core.Path.{subst}
use theta_protocol_subchain.Prelude.{
  ℕ, ◌+◌, ◌≤◌, ◌≡◌, ◌∙◌, sym, ap, Bool, true, false, none, some, List, [], ◌∷◌, inl, inr, arith,
  Bool-cases, Option-cases,
}
use theta_protocol_subchain.Ledger.Result.{ok, Result-cases, pair_eta}
use theta_protocol_subchain.Ledger.Types.{
  SubchainValidatorSetUpdateTx, Tx, validator_set_update, StoreView,
}
use theta_protocol_subchain.Ledger.Execution.{
  Executor, process_tx, process, process_by_type, is_tx_type_supported, get_dynasty,
}
use theta_protocol_subchain.Ledger.Blocks.{Context, execute_txs}
use theta_protocol_subchain.Ledger.Applying.{process_tx-runs}
use theta_protocol_subchain.Ledger.Frames.{Frames, Frames-process, ContractsFrame, is_update}

abbrev pub flag : Bool → ℕ
flag true = 1
flag false = 0

flag_at_most : (b : Bool) → flag b ≤ 1
flag_at_most true = omega arith
flag_at_most false = omega arith

module _ {C : Type 0} where
  -- The transactions of a block that set the validators.
  unfoldable pub updates_in : Context C → List (List ℕ) → ℕ
  unfolding is_update
  updates_in c [] = 0
  updates_in c (raw ∷ raws) = elim (c.tx_from_bytes raw) [
    | none ↦ updates_in c raws
    | some tx ↦ flag (is_update tx) + updates_in c raws
  ]

  process_validator_set_update-by_tx :
      (ex : Executor C) (h : ℕ) (view after : StoreView C) (tx : Tx C)
      → is_update tx ≡ true
      → process_tx ex h view tx ≡ (after, ok tt)
      → (u : SubchainValidatorSetUpdateTx C) × Updated ex view after u
  unfolding process process_by_type is_tx_type_supported is_update
  process_validator_set_update-by_tx ex h view after (validator_set_update u) e done = (
    u,
    process_validator_set_update-Updated ex view after u
        (process_tx-runs ex h view after (validator_set_update u) done).1,
  )
  process_validator_set_update-by_tx ex h view after _ e done = absurd (cc e)

  same_dynasty :
      (view after : StoreView C)
      → Frames view after
      → (d : ℕ) → get_dynasty view ≡ some d
      → get_dynasty after ≡ some d
  unfolding get_dynasty
  same_dynasty view after f d e = rw (get_dynasty, f.same_set) e

  process_tx-dynasty :
      (ex : Executor C) (h : ℕ) (view after : StoreView C) (tx : Tx C) (d : ℕ)
      → ContractsFrame ex
      → get_dynasty view ≡ some d
      → process_tx ex h view tx ≡ (after, ok tt)
      → (d' : ℕ) × (get_dynasty after ≡ some d')
        × (d + flag (is_update tx) ≤ d')
        × (flag (is_update tx) + flag view.validator_set_processed
            ≤ flag after.validator_set_processed)
        × (flag (is_update tx) ≡ 0 → after.store.validator_set ≡ view.store.validator_set)
  process_tx-dynasty ex h view after tx d frames e done = elim (Bool-cases (is_update tx)) [
    | inl update ↦
        let (u, upd) = process_validator_set_update-by_tx ex h view after tx update done in
        let same : some d ≡ some upd.current = sym e ∙ upd.was in
        let d_is : d ≡ upd.current = cc in
        (
          u.dynasty,
          upd.is,
          rw update omega (arith, upd.newer, d_is),
          rw (update, upd.first, upd.marked) omega arith,
          λ z. absurd (cc (rw update at z)),
        )
    | inr plain ↦
        let f =
          Frames-process ex view after tx frames plain
            (process_tx-runs ex h view after tx done).1 in
        (
          d,
          same_dynasty view after f d e,
          rw plain omega arith,
          rw (plain, f.same_flag) omega arith,
          λ _. f.same_set,
        )
  ]

  -- When all transactions of a block are executed on a view with a dynasty, the view after them
  -- has a dynasty that is larger by at least the number of validator set updates among them,
  -- there is at most one of these, and none if the view was marked before; without one, the
  -- validator set is the same. The hypothesis is that smart contracts keep the validators and the
  -- mark.
  pub execute_txs-dynasty :
      (c : Context C) (ex : Executor C) (h : ℕ) (view after : StoreView C) (raws : List (List ℕ))
      (has0 has : Bool) (d : ℕ)
      → ContractsFrame ex
      → get_dynasty view ≡ some d
      → execute_txs c ex h view raws has0 ≡ (after, ok has)
      → (d' : ℕ) × (get_dynasty after ≡ some d')
        × (d + updates_in c raws ≤ d')
        × (updates_in c raws + flag view.validator_set_processed ≤ 1)
        × (updates_in c raws ≡ 0 → after.store.validator_set ≡ view.store.validator_set)
  unfolding execute_txs updates_in
  execute_txs-dynasty c ex h view after [] has0 has d frames e done =
      let same : view ≡ after = ap (λ p. p.0) done in
      (
        d,
        subst (λ v. get_dynasty v ≡ some d) same e,
        omega arith,
        ground arith,
        λ _. ap (λ v. v.store.validator_set) (sym same),
      )
  execute_txs-dynasty c ex h view after (raw ∷ raws) has0 has d frames e done =
      elim (Option-cases (c.tx_from_bytes raw)) [
        | inl e1 ↦ absurd (cc (rw (e1, execute_txs) at done))
        | inr (tx, e1) ↦ elim (Result-cases (process_tx ex h view tx).1) [
          | inr (inl bad) ↦ absurd (cc (rw (e1, bad, execute_txs) at done))
          | inr (inr (inl bad)) ↦ absurd (cc (rw (e1, bad, execute_txs) at done))
          | inr (inr (inr bad)) ↦ absurd (cc (rw (e1, bad, execute_txs) at done))
          | inl (u, fine) ↦
              let mid = (process_tx ex h view tx).0 in
              let (d1, e2, up, flags, kept) =
                process_tx-dynasty ex h view mid tx d frames e (pair_eta _ fine) in
              let (d2, e3, up', flags', kept') =
                execute_txs-dynasty c ex h mid after raws _ has d1 frames e2
                  (rw (e1, fine, execute_txs) at done) in
              (
                d2,
                e3,
                rw (e1, updates_in) omega (arith, up, up'),
                rw (e1, updates_in) omega (arith, flags, flags'),
                λ z.
                    let none_more = rw (e1, updates_in) at z in
                    kept' (omega (arith, none_more)) ∙ kept (omega (arith, none_more)),
              )
        ]
      ]
