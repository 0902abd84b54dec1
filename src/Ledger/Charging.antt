-- ===== src/Ledger/Charging.antt =====
-- `adjustByInputs` and `adjustByOutputs` of ledger/execution/executils.go: what they charge and pay.
use theta_protocol_subchain.Prelude.{Bool}
use theta_protocol_subchain.Consensus.Managers.{uint64}
use theta_protocol_subchain.Prelude.{
  ℕ, ◌+◌, ◌≡◌, refl, true, false, some, List, [], ◌∷◌, ◌==◌, arith, inl, inr, All, Bool-cases,
}
use theta_protocol_subchain.Prelude.Dict.{Dict, lookup, insert, lookup-insert, lookup-insert_other}
use theta_protocol_subchain.Ledger.Types.{Account, TxInput, TxOutput, StoreView, Rules}
use theta_protocol_subchain.Ledger.Inputs.{set_account, adjust_by_inputs, adjust_by_outputs}
use theta_protocol_subchain.Ledger.Funds.{
  Laws, worth, funds, value, sum_inputs, sum_outs, total_funds, Agrees, Agrees-set_account,
  total_funds-set_account,
}

module _ {C : Type 0} where
  -- The account of an input is loaded and has the coins.
  abbrev pub Payable : (C → C → Bool) → Dict (Account C) → TxInput C → Type 0
  Payable is_gte accounts i =
      (acc : Account C) × (lookup i.address accounts ≡ some acc)
      × (is_gte acc.balance i.coins ≡ true)

  -- No two inputs name one account.
  abbrev pub IsDistinct : List (TxInput C) → Type 0
  IsDistinct [] = Unit
  IsDistinct (i ∷ ins) = All (λ j. (i.address == j.address) ≡ false) ins × IsDistinct ins

  abbrev pub Holds : Dict (Account C) → TxOutput C → Type 0
  Holds accounts o = (acc : Account C) × (lookup o.address accounts ≡ some acc)

  Payable-insert :
      (is_gte : C → C → Bool) (k : ℕ) (acc : Account C) (d : Dict (Account C))
      (ins : List (TxInput C))
      → All (λ j. (k == j.address) ≡ false) ins
      → All (Payable is_gte d) ins
      → All (Payable is_gte (insert k acc d)) ins
  Payable-insert is_gte k acc d [] other h = tt
  Payable-insert is_gte k acc d (i ∷ ins) (o, os) ((a, e, g), h) = (
    (a, rw (lookup-insert_other k i.address acc d o) e, g),
    Payable-insert is_gte k acc d ins os h,
  )

  Holds-insert :
      (k : ℕ) (acc : Account C) (d : Dict (Account C)) (outs : List (TxOutput C))
      → All (Holds d) outs
      → All (Holds (insert k acc d)) outs
  Holds-insert k acc d [] h = tt
  Holds-insert k acc d (o ∷ outs) ((a, e), h) = (
    elim (Bool-cases (k == o.address)) [
      | inl same ↦ (acc, rw (lookup-insert k o.address acc d, same) refl)
      | inr other ↦ (a, rw (lookup-insert_other k o.address acc d other) e)
    ],
    Holds-insert k acc d outs h,
  )

module _ {C : Type 0} (r : Rules C) where
  open r use {money}
  open money use {minus, plus, is_gte}

  abbrev pub charged : Account C → TxInput C → Account C
  charged acc i = record acc {
    balance = minus acc.balance i.coins;
    sequence = uint64 (acc.sequence + 1);
  }

  abbrev pub paid : Account C → TxOutput C → Account C
  paid acc o = record acc { balance = plus acc.balance o.coins }

  module _ (laws : Laws r) where
    total_funds-charged :
        (view : StoreView C) (i : TxInput C) (acc : Account C)
        → worth (funds r) (lookup i.address view.store.accounts) ≡ funds r acc
        → is_gte acc.balance i.coins ≡ true
        → total_funds r (set_account view i.address (charged acc i)) + value r i.coins
          ≡ total_funds r view
    unfolding value
    total_funds-charged view i acc e g = omega (
      arith,
      total_funds-set_account r view i.address (charged acc i),
      laws.value-minus acc.balance i.coins g,
    )

    -- Distinct inputs that can pay are all charged, and nothing else changes in the total.
    pub adjust_by_inputs-charges :
        (view : StoreView C) (accounts : Dict (Account C)) (ins : List (TxInput C))
        (outs : List (TxOutput C))
        → Agrees r view accounts
        → All (Payable is_gte accounts) ins
        → IsDistinct ins
        → All (Holds accounts) outs
        → (after : StoreView C) × (accounts' : Dict (Account C)) × (adjust_by_inputs r view accounts
              ins
            ≡ some (after, accounts'))
          × Agrees r after accounts'
          × (total_funds r after + sum_inputs r ins ≡ total_funds r view)
          × All (Holds accounts') outs
    unfolding adjust_by_inputs sum_inputs Agrees value
    adjust_by_inputs-charges view accounts [] outs ag p d hs =
        (view, accounts, refl, ag, omega arith, hs)
    adjust_by_inputs-charges view accounts (i ∷ ins) outs ag ((acc, e, g), p) (fresh, d) hs =
        let (after, accounts', ok, ag', total, hs') =
          adjust_by_inputs-charges (set_account view i.address (charged acc i))
            (insert i.address (charged acc i) accounts) ins outs
            (Agrees-set_account r view accounts i.address (charged acc i) ag)
            (Payable-insert is_gte i.address (charged acc i) accounts ins fresh p) d
            (Holds-insert i.address (charged acc i) accounts outs hs) in
        (
          after,
          accounts',
          rw (e, g, adjust_by_inputs) ok,
          ag',
          omega (arith, total, total_funds-charged view i acc (rw (ag i.address acc e) refl) g),
          hs',
        )

    pub adjust_by_outputs-pays :
        (view : StoreView C) (accounts : Dict (Account C)) (outs : List (TxOutput C))
        → Agrees r view accounts
        → All (Holds accounts) outs
        → (after : StoreView C) × (adjust_by_outputs r view accounts outs ≡ some after)
          × (total_funds r after ≡ total_funds r view + sum_outs r outs)
    unfolding adjust_by_outputs sum_outs Agrees value
    adjust_by_outputs-pays view accounts [] ag hs = (view, refl, omega arith)
    adjust_by_outputs-pays view accounts (o ∷ outs) ag ((acc, e), hs) =
        let (after, ok, total) =
          adjust_by_outputs-pays (set_account view o.address (paid acc o))
            (insert o.address (paid acc o) accounts) outs
            (Agrees-set_account r view accounts o.address (paid acc o) ag)
            (Holds-insert o.address (paid acc o) accounts outs hs) in
        (
          after,
          rw (e, adjust_by_outputs) ok,
          omega (
            arith,
            total,
            total_funds-set_account r view o.address (paid acc o),
            ag o.address acc e,
            laws.value-plus acc.balance o.coins,
          ),
        )
