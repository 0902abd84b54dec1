-- ===== src/Ledger/Replay.antt =====
-- The sequence numbers of ledger/execution/tx_send.go: what they are after a send transaction.
use theta_protocol_subchain.Ledger.Conservation.{
  Checked, sanity_check_send-Checked, process_send-Carried,
}
use mathlib.Core.Path.{subst}
use theta_protocol_subchain.Prelude.{
  ℕ, ◌+◌, ◌≡◌, ◌≢◌, false, some, List, [], ◌∷◌, ◌==◌, ◌∙◌, sym, arith, inl, inr, All, Bool-cases,
  ==→eq, Option-cases, ap, List-cases,
}
use theta_protocol_subchain.Prelude.Dict.{
  Dict, lookup, insert, lookup-insert_same, lookup-insert_other,
}
use theta_protocol_subchain.Ledger.Result.{ok}
use theta_protocol_subchain.Ledger.Types.{Account, TxInput, TxOutput, SendTx, StoreView, Rules}
use theta_protocol_subchain.Ledger.Inputs.{
  set_account, find_account, adjust_by_inputs, adjust_by_outputs,
}
use theta_protocol_subchain.Ledger.Send.{sanity_check_send, process_send}
use theta_protocol_subchain.Ledger.Funds.{Laws}
use theta_protocol_subchain.Ledger.Charging.{IsDistinct, charged, paid}
use theta_protocol_subchain.Ledger.Loading.{Extends, IsNew, IsLoaded, find_account_lem}
use theta_protocol_subchain.Ledger.Transfers.{InSequence, sanity_check_send-Passed}
use theta_protocol_subchain.Consensus.Managers.{uint64}

module _ {C : Type 0} (r : Rules C) where
  open r use {money}

  lookup-set_account_other :
      (view : StoreView C) (j k : ℕ) (acc : Account C)
      → (k == j) ≡ false
      → lookup k (set_account view j acc).store.accounts ≡ lookup k view.store.accounts
  unfolding set_account
  lookup-set_account_other view j k acc h =
      lookup-insert_other j k acc view.store.accounts (ground arith)

  lookup-adjust_by_inputs :
      (k : ℕ) (view after : StoreView C) (d d' : Dict (Account C)) (ins : List (TxInput C))
      → All (λ i. (k == i.address) ≡ false) ins
      → adjust_by_inputs r view d ins ≡ some (after, d')
      → lookup k after.store.accounts ≡ lookup k view.store.accounts
  unfolding adjust_by_inputs
  lookup-adjust_by_inputs k view after d d' [] others h =
      let same : view ≡ after = cc in ap (λ v. lookup k v.store.accounts) (sym same)
  lookup-adjust_by_inputs k view after d d' (i ∷ ins) (other, others) h =
      elim (Option-cases (lookup i.address d)) [
        | inl e ↦ absurd (cc (rw (e, adjust_by_inputs) at h))
        | inr (acc, e) ↦ elim (Bool-cases (money.is_gte acc.balance i.coins)) [
          | inr g ↦ absurd (cc (rw (e, g, adjust_by_inputs) at h))
          | inl g ↦
              lookup-adjust_by_inputs k (set_account view i.address (charged r acc i)) after
                (insert i.address (charged r acc i) d) d' ins others
                (rw (e, g, adjust_by_inputs) at h)
              ∙ lookup-set_account_other view i.address k (charged r acc i) other
        ]
      ]

  lookup-adjust_by_outputs :
      (k : ℕ) (view after : StoreView C) (d : Dict (Account C)) (outs : List (TxOutput C))
      → All (λ o. (k == o.address) ≡ false) outs
      → adjust_by_outputs r view d outs ≡ some after
      → lookup k after.store.accounts ≡ lookup k view.store.accounts
  unfolding adjust_by_outputs
  lookup-adjust_by_outputs k view after d [] others h =
      let same : view ≡ after = cc in ap (λ v. lookup k v.store.accounts) (sym same)
  lookup-adjust_by_outputs k view after d (o ∷ outs) (other, others) h =
      elim (Option-cases (lookup o.address d)) [
        | inl e ↦ absurd (cc (rw (e, adjust_by_outputs) at h))
        | inr (acc, e) ↦
            lookup-adjust_by_outputs k (set_account view o.address (paid r acc o)) after
              (insert o.address (paid r acc o) d) outs others (rw (e, adjust_by_outputs) at h)
            ∙ lookup-set_account_other view o.address k (paid r acc o) other
      ]

  -- The account of the first input as the whole transaction leaves it.
  first_charged :
      (view after : StoreView C) (d d' : Dict (Account C)) (i : TxInput C) (ins : List (TxInput C))
      (acc : Account C)
      → All (λ j. (i.address == j.address) ≡ false) ins
      → lookup i.address d ≡ some acc
      → adjust_by_inputs r view d (i ∷ ins) ≡ some (after, d')
      → lookup i.address after.store.accounts ≡ some (charged r acc i)
  unfolding adjust_by_inputs set_account
  first_charged view after d d' i ins acc others e h =
      elim (Bool-cases (money.is_gte acc.balance i.coins)) [
        | inr g ↦ absurd (cc (rw (e, g, adjust_by_inputs) at h))
        | inl g ↦
            lookup-adjust_by_inputs i.address (set_account view i.address (charged r acc i)) after
              (insert i.address (charged r acc i) d) d' ins others
              (rw (e, g, adjust_by_inputs) at h)
            ∙ lookup-insert_same i.address (charged r acc i) view.store.accounts
      ]

  outputs_differ :
      (k : ℕ) (acc : Account C) (d : Dict (Account C)) (outs : List (TxOutput C))
      → lookup k d ≡ some acc
      → All (λ o. IsNew d o.address) outs
      → All (λ o. (k == o.address) ≡ false) outs
  outputs_differ k acc d [] e h = tt
  outputs_differ k acc d (o ∷ outs) e (new, news) = (
    elim (Bool-cases (k == o.address)) [
      | inl same ↦ absurd (cc (new, e, ==→eq k o.address same))
      | inr other ↦ other
    ],
    outputs_differ k acc d outs e news,
  )

  uint64-next : (n m : ℕ) → uint64 (n + 1) ≡ m → uint64 (m + 1) ≢ m
  uint64-next n m h e = omega arith

  module _ (laws : Laws r) where
    -- The next sequence number of a loaded account is that of the stored account.
    stored_sequence :
        (view : StoreView C) (k : ℕ) (acc stored : Account C)
        → find_account r view k ≡ some acc
        → lookup k view.store.accounts ≡ some stored
        → acc.sequence ≡ stored.sequence
    stored_sequence view k acc stored found e =
        let (a, e', same) = find_account_lem r laws view k acc found in
        cc (e', same, laws.sequence-update_to_height a view.height)

    -- A check that passes ties the first input to the sequence number of its stored account.
    first_in_sequence :
        (view : StoreView C) (tx : SendTx C) (c : Checked r laws view tx) (i : TxInput C)
        (ins : List (TxInput C))
        → tx.inputs ≡ i ∷ ins
        → (stored : Account C) → lookup i.address view.store.accounts ≡ some stored
        → uint64 (stored.sequence + 1) ≡ i.sequence
    unfolding Extends
    first_in_sequence view tx c i ins shape stored e =
        let ((acc, found, there), _) =
          subst (All (IsLoaded r laws view c.passed.loaded)) shape c.loads in
        let ((acc', there', next), _) =
          subst (All (InSequence r c.passed.accounts)) shape c.in_sequence in
        let same : acc ≡ acc' = cc (c.extends i.address acc there) in
        let stored_next : acc.sequence ≡ stored.sequence =
          stored_sequence view i.address acc stored found e in
        cc

    no_inputs :
        (view : StoreView C) (tx : SendTx C) → sanity_check_send r view tx ≡ ok tt → tx.inputs ≢ []
    no_inputs view tx h e =
        let full = (sanity_check_send-Passed r view tx h).nonempty in cc (rw e at full)

    -- Once a send transaction that passes `sanityCheck` is carried out, it does not pass again on
    -- the view that it leaves, the sequence numbers being of 64 bits. The hypotheses on coins and
    -- accounts are those of conservation.
    pub process_send-no_replay :
        (view after : StoreView C) (tx : SendTx C)
        → sanity_check_send r view tx ≡ ok tt
        → process_send r view tx ≡ (after, ok tt)
        → sanity_check_send r after tx ≢ ok tt
    process_send-no_replay view after tx h done again = elim (List-cases tx.inputs) [
      | inl e ↦ absurd (no_inputs view tx h e)
      | inr (i, ins, shape) ↦
          let c = sanity_check_send-Checked r laws view tx h in
          let run = process_send-Carried r laws view tx c in
          let ((acc, found, there), _) =
            subst (All (IsLoaded r laws view c.passed.loaded)) shape c.loads in
          let ((acc', there', next), _) =
            subst (All (InSequence r c.passed.accounts)) shape c.in_sequence in
          let left : lookup i.address run.after.store.accounts ≡ some (charged r acc' i) =
            lookup-adjust_by_outputs i.address run.between run.after run.remaining tx.outputs
              (outputs_differ i.address acc c.passed.loaded tx.outputs there c.new_outputs) run.pays
            ∙ first_charged view run.between c.passed.accounts run.remaining i ins acc'
                (subst IsDistinct shape c.distinct).0 there'
                (subst
                  (λ xs.
                    adjust_by_inputs r view c.passed.accounts xs
                    ≡ some (run.between, run.remaining))
                  shape run.charges) in
          let same : run.after ≡ after = cc (run.runs) in
          uint64-next acc'.sequence i.sequence next (
            ap (λ n. uint64 (n + 1)) (sym next)
            ∙ first_in_sequence after tx (sanity_check_send-Checked r laws after tx again) i ins
                shape (charged r acc' i)
                (subst (λ v. lookup i.address v.store.accounts ≡ some (charged r acc' i)) same
                  left))
    ]
