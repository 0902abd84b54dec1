-- ===== src/Ledger/Transfers.antt =====
-- The send transaction of ledger/execution/tx_send.go: what a passed sanity check says of it, and
-- where the funds go.
use theta_protocol_subchain.Prelude.{
  ℕ, ◌+◌, ◌≡◌, true, some, List, [], ◌∷◌, ◌==◌, arith, inl, inr, All, Bool-cases, ==→eq,
  Option-cases, length, not, ◌||◌, ◌&&◌, leb, ap,
}
use theta_protocol_subchain.Prelude.Dict.{Dict, lookup}
use theta_protocol_subchain.Ledger.Result.{ok, >>=-eq-ok, guard-eq-ok, guard-is_ok}
use theta_protocol_subchain.Ledger.Types.{Account, TxInput, TxOutput, SendTx, StoreView, Rules}
use theta_protocol_subchain.Ledger.Inputs.{
  get_inputs, get_or_make_outputs, validate_input_advanced, validate_inputs_advanced, sum_outputs,
  validate_inputs_basic, validate_outputs_basic, sanity_check_for_send_tx_fee,
}
use theta_protocol_subchain.Ledger.Send.{sanity_check_send, has_theta, has_contract}
use theta_protocol_subchain.Ledger.Funds.{Laws, value, sum_inputs, sum_outs}
use theta_protocol_subchain.Ledger.Charging.{Payable}
use theta_protocol_subchain.Consensus.Managers.{uint64}

module _ {C : Type 0} (r : Rules C) where
  open r use {money}

  -- What `sanityCheck` computed on its way to a pass.
  pub record Passed (view : StoreView C) (tx : SendTx C) : Type 0 where
    pub loaded : Dict (Account C)
    pub accounts : Dict (Account C)
    pub in_total : C
    pub nonempty : not (length tx.inputs == 0 || length tx.outputs == 0) ≡ true
    pub inputs_loaded : get_inputs r view tx.inputs ≡ ok loaded
    pub outputs_loaded : get_or_make_outputs r view loaded tx.outputs ≡ ok accounts
    pub inputs_valid :
        validate_inputs_advanced r accounts
          (r.send_sign_bytes tx)
          tx.inputs
          (uint64 (view.height + 1))
          money.no_coins
        ≡ ok in_total
    pub balanced :
        money.is_equal in_total (money.plus (sum_outputs r money.no_coins tx.outputs) tx.fee) ≡ true

  pub sanity_check_send-Passed :
      (view : StoreView C) (tx : SendTx C) → sanity_check_send r view tx ≡ ok tt → Passed view tx
  unfolding sanity_check_send
  sanity_check_send-Passed view tx h0 =
      let (_, h1) = guard-eq-ok (validate_inputs_basic r tx.inputs) _ h0 in
      let (_, h2) = guard-eq-ok (validate_outputs_basic r tx.outputs) _ h1 in
      let (nonempty, h3) =
        guard-eq-ok (not (length tx.inputs == 0 || length tx.outputs == 0)) _ h2 in
      let (_, h4) =
        guard-eq-ok (leb (length tx.inputs + length tx.outputs) r.max_accounts_affected_per_tx) _
          h3 in
      let (loaded, inputs_loaded, h5) = >>=-eq-ok (get_inputs r view tx.inputs) _ h4 in
      let (_, h6) = guard-eq-ok (not (has_theta r tx.inputs)) _ h5 in
      let (accounts, outputs_loaded, h7) =
        >>=-eq-ok (get_or_make_outputs r view loaded tx.outputs) _ h6 in
      let (_, h8) =
        guard-eq-ok
          (not (
            leb r.height_enable_smart_contract (uint64 (view.height + 1))
            && has_contract r accounts))
          _ h7 in
      let (in_total, inputs_valid, h9) =
        >>=-eq-ok
          (validate_inputs_advanced r accounts (r.send_sign_bytes tx) tx.inputs
            (uint64 (view.height + 1)) money.no_coins)
          _ h8 in
      let (_, h10) =
        guard-eq-ok
          (sanity_check_for_send_tx_fee r tx.fee (length tx.inputs + length tx.outputs)
            (uint64 (view.height + 1)))
          _ h9 in
      record {
        loaded = loaded;
        accounts = accounts;
        in_total = in_total;
        nonempty = nonempty;
        inputs_loaded = inputs_loaded;
        outputs_loaded = outputs_loaded;
        inputs_valid = inputs_valid;
        balanced = guard-is_ok _ h10;
      }

  -- The account of an input expects its sequence number next.
  abbrev pub InSequence : Dict (Account C) → TxInput C → Type 0
  InSequence d i =
      (acc : Account C) × (lookup i.address d ≡ some acc) × (uint64 (acc.sequence + 1) ≡ i.sequence)

  validate_input_advanced-true :
      (acc : Account C) (sign_bytes : List ℕ) (i : TxInput C) (h : ℕ)
      → validate_input_advanced r acc sign_bytes i h ≡ true
      → (uint64 (acc.sequence + 1) ≡ i.sequence) × (money.is_gte acc.balance i.coins ≡ true)
  unfolding validate_input_advanced
  validate_input_advanced-true acc sign_bytes i h e =
      elim (Bool-cases (uint64 (acc.sequence + 1) == i.sequence)) [
        | inr bad ↦ absurd (cc (rw (bad, validate_input_advanced) at e))
        | inl good ↦ elim (Bool-cases (money.is_gte acc.balance i.coins)) [
          | inr bad ↦ absurd (cc (rw (good, bad, validate_input_advanced) at e))
          | inl enough ↦ (==→eq _ _ good, enough)
        ]
      ]

  module _ (laws : Laws r) where
    pub validate_inputs_advanced-ok :
        (d : Dict (Account C)) (sign_bytes : List ℕ) (ins : List (TxInput C)) (h : ℕ)
        (total out : C)
        → validate_inputs_advanced r d sign_bytes ins h total ≡ ok out
        → (value r out ≡ value r total + sum_inputs r ins)
          × All (Payable money.is_gte d) ins
          × All (InSequence d) ins
    unfolding validate_inputs_advanced sum_inputs
    validate_inputs_advanced-ok d sign_bytes [] h total out e =
        let same : total ≡ out = cc in (omega (arith, ap (value r) same), tt, tt)
    validate_inputs_advanced-ok d sign_bytes (i ∷ ins) h total out e =
        elim (Option-cases (lookup i.address d)) [
          | inl none_there ↦ absurd (cc (rw (none_there, validate_inputs_advanced) at e))
          | inr (acc, there) ↦ elim (Bool-cases (validate_input_advanced r acc sign_bytes i h)) [
            | inr bad ↦ absurd (cc (rw (there, bad, validate_inputs_advanced) at e))
            | inl good ↦
                let (in_seq, gte) = validate_input_advanced-true acc sign_bytes i h good in
                let (sums, payable, seqs) =
                  validate_inputs_advanced-ok d sign_bytes ins h (money.plus total i.coins) out
                    (rw (there, good, validate_inputs_advanced) at e) in
                (
                  omega (arith, sums, laws.value-plus total i.coins),
                  ((acc, there, gte), payable),
                  ((acc, there, in_seq), seqs),
                )
          ]
        ]

    pub value-sum_outputs :
        (total : C) (outs : List (TxOutput C))
        → value r (sum_outputs r total outs) ≡ value r total + sum_outs r outs
    unfolding sum_outputs sum_outs
    value-sum_outputs total [] = omega arith
    value-sum_outputs total (o ∷ outs) =
        omega
          (arith, value-sum_outputs (money.plus total o.coins) outs, laws.value-plus total o.coins)
