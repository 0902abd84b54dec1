-- ===== src/Ledger/Conservation.antt =====
-- ledger/execution/tx_send.go: where the funds go.
use theta_protocol_subchain.Ledger.Charging.{Holds}
use theta_protocol_subchain.Ledger.Inputs.{adjust_by_outputs}
use theta_protocol_subchain.Ledger.Charging.{IsDistinct}
use theta_protocol_subchain.Ledger.Inputs.{adjust_by_inputs}
use theta_protocol_subchain.Ledger.Funds.{Agrees}
use theta_protocol_subchain.Prelude.{◌+◌, ◌≡◌, refl, some, [], arith, All}
use theta_protocol_subchain.Prelude.Dict.{Dict}
use theta_protocol_subchain.Ledger.Result.{ok}
use theta_protocol_subchain.Ledger.Types.{Account, SendTx, StoreView, Rules}
use theta_protocol_subchain.Ledger.Inputs.{get_inputs, sum_outputs}
use theta_protocol_subchain.Ledger.Send.{sanity_check_send, process_send}
use theta_protocol_subchain.Ledger.Funds.{
  Laws, value, sum_inputs, sum_outs, total_funds, nothing_Agrees,
}
use theta_protocol_subchain.Ledger.Charging.{
  Payable, adjust_by_inputs-charges, adjust_by_outputs-pays,
}
use theta_protocol_subchain.Ledger.Loading.{
  add_inputs_lem, get_or_make_outputs_lem, Extends, IsNew, IsLoaded,
}
use theta_protocol_subchain.Ledger.Transfers.{
  Passed, InSequence, sanity_check_send-Passed, validate_inputs_advanced-ok, value-sum_outputs,
}

module _ {C : Type 0} (r : Rules C) (laws : Laws r) where
  open r use {money}

  -- What follows of the accounts that `sanityCheck` loaded.
  pub record Checked (view : StoreView C) (tx : SendTx C) : Type 0 where
    pub passed : Passed r view tx
    pub agrees : Agrees r view passed.accounts
    pub distinct : IsDistinct tx.inputs
    pub loads : All (IsLoaded r laws view passed.loaded) tx.inputs
    pub extends : Extends passed.loaded passed.accounts
    pub new_outputs : All (λ o. IsNew passed.loaded o.address) tx.outputs
    pub holds : All (Holds passed.accounts) tx.outputs
    pub payable : All (Payable money.is_gte passed.accounts) tx.inputs
    pub in_sequence : All (InSequence r passed.accounts) tx.inputs
    pub sums : value r passed.in_total ≡ value r money.no_coins + sum_inputs r tx.inputs

  pub sanity_check_send-Checked :
      (view : StoreView C) (tx : SendTx C) → sanity_check_send r view tx ≡ ok tt → Checked view tx
  unfolding get_inputs
  sanity_check_send-Checked view tx h =
      let passed = sanity_check_send-Passed r view tx h in
      let (ag, _, _, distinct, loads) =
        add_inputs_lem r laws view [] passed.loaded tx.inputs passed.inputs_loaded
          (nothing_Agrees r view) in
      let (agrees, extends, new_outputs, holds) =
        get_or_make_outputs_lem r laws view passed.loaded passed.accounts tx.outputs
          passed.outputs_loaded ag in
      let (sums, payable, in_sequence) =
        validate_inputs_advanced-ok r laws passed.accounts _ tx.inputs _ _ _ passed.inputs_valid in
      record {
        passed = passed;
        agrees = agrees;
        distinct = distinct;
        loads = loads;
        extends = extends;
        new_outputs = new_outputs;
        holds = holds;
        payable = payable;
        in_sequence = in_sequence;
        sums = sums;
      }

  -- How `process` goes on from there: the view once the inputs are charged, and at the end.
  pub record Carried (view : StoreView C) (tx : SendTx C) (c : Checked view tx) : Type 0 where
    pub between : StoreView C
    pub remaining : Dict (Account C)
    pub after : StoreView C
    pub charges : adjust_by_inputs r view c.passed.accounts tx.inputs ≡ some (between, remaining)
    pub pays : adjust_by_outputs r between remaining tx.outputs ≡ some after
    pub runs : process_send r view tx ≡ (after, ok tt)
    pub less : total_funds r between + sum_inputs r tx.inputs ≡ total_funds r view
    pub more : total_funds r after ≡ total_funds r between + sum_outs r tx.outputs

  pub process_send-Carried :
      (view : StoreView C) (tx : SendTx C) (c : Checked view tx) → Carried view tx c
  unfolding process_send
  process_send-Carried view tx c =
      let (between, remaining, charges, agrees, less, holds) =
        adjust_by_inputs-charges r laws view c.passed.accounts tx.inputs tx.outputs c.agrees
          c.payable c.distinct c.holds in
      let (after, pays, more) =
        adjust_by_outputs-pays r laws between remaining tx.outputs agrees holds in
      record {
        between = between;
        remaining = remaining;
        after = after;
        charges = charges;
        pays = pays;
        runs =
            rw (c.passed.inputs_loaded, c.passed.outputs_loaded, charges, pays, process_send) refl;
        less = less;
        more = more;
      }

  -- A send transaction that passes `sanityCheck` is carried out by `process`, and the TFuel of
  -- all accounts after it and the fee add up to that before. The hypotheses say what the coins'
  -- methods do to amounts, and that a new account is empty and bringing an account to a height
  -- keeps its balance and sequence number.
  pub process_send-conserves :
      (view : StoreView C) (tx : SendTx C)
      → sanity_check_send r view tx ≡ ok tt
      → (after : StoreView C) × (process_send r view tx ≡ (after, ok tt))
        × (total_funds r after + value r tx.fee ≡ total_funds r view)
  process_send-conserves view tx h =
      let c = sanity_check_send-Checked view tx h in
      let run = process_send-Carried view tx c in
      (
        run.after,
        run.runs,
        omega (
          arith,
          run.less,
          run.more,
          c.sums,
          laws.value-is_equal _ _ c.passed.balanced,
          laws.value-plus (sum_outputs r money.no_coins tx.outputs) tx.fee,
          value-sum_outputs r laws money.no_coins tx.outputs,
          laws.value-no_coins,
        ),
      )
