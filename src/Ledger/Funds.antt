-- ===== src/Ledger/Funds.antt =====
-- The funds of the accounts: what they add up to, and what an account written to the view changes.
use theta_protocol_subchain.Prelude.{Bool-cases, inl, inr}
use theta_protocol_subchain.Prelude.{
  ℕ, ◌+◌, ◌≡◌, true, Option, none, some, List, [], ◌∷◌, ◌==◌, arith,
}
use theta_protocol_subchain.Prelude.Dict.{Dict, lookup, insert, lookup-insert}
use theta_protocol_subchain.Ledger.Types.{Account, TxInput, TxOutput, StoreView, Rules}
use theta_protocol_subchain.Ledger.Inputs.{set_account}

module _ {V : Type 0} (w : V → ℕ) where
  abbrev pub worth : Option V → ℕ
  worth none = 0
  worth (some v) = w v

  unfoldable pub sum_by : Dict V → ℕ
  sum_by [] = 0
  sum_by ((k, v) ∷ d) = w v + sum_by d

  sum_by-insert :
      (k : ℕ) (v : V) (d : Dict V) → sum_by (insert k v d) + worth (lookup k d) ≡ sum_by d + w v
  unfolding sum_by insert lookup
  sum_by-insert k v [] = omega arith
  sum_by-insert k v ((j, u) ∷ d) = ground (arith, sum_by-insert k v d)

module _ {C : Type 0} (r : Rules C) where
  open r use {money}
  open money use {tfuel_wei, no_nil, no_coins, plus, minus, is_gte, is_equal}

  -- The TFuel of some coins.
  unfoldable pub value : C → ℕ
  value c = tfuel_wei (no_nil c)

  abbrev pub funds : Account C → ℕ
  unfolding value
  funds acc = value acc.balance

  -- The TFuel in all the accounts of a view.
  unfoldable pub total_funds : StoreView C → ℕ
  unfolding sum_by
  total_funds view = sum_by funds view.store.accounts

  unfoldable pub sum_inputs : List (TxInput C) → ℕ
  unfolding value
  sum_inputs [] = 0
  sum_inputs (i ∷ ins) = value i.coins + sum_inputs ins

  unfoldable pub sum_outs : List (TxOutput C) → ℕ
  unfolding value
  sum_outs [] = 0
  sum_outs (o ∷ outs) = value o.coins + sum_outs outs

  -- What the methods of coins and accounts do to amounts of TFuel and to sequence numbers.
  pub record Laws : Type 0 where
    pub value-no_coins : value no_coins ≡ 0
    pub value-plus : (a b : C) → value (plus a b) ≡ value a + value b
    pub value-minus : (a b : C) → is_gte a b ≡ true → value (minus a b) + value b ≡ value a
    pub value-is_equal : (a b : C) → is_equal a b ≡ true → value a ≡ value b
    pub funds-new_account : (i : ℕ) → value (r.new_account i).balance ≡ 0
    pub balance-update_to_height :
        (acc : Account C) (h : ℕ) → (r.update_to_height acc h).balance ≡ acc.balance
    pub sequence-update_to_height :
        (acc : Account C) (h : ℕ) → (r.update_to_height acc h).sequence ≡ acc.sequence

  -- The accounts that a transaction loaded hold the funds that the view has under their keys.
  unfoldable pub Agrees : StoreView C → Dict (Account C) → Type 0
  Agrees view accounts =
      (k : ℕ) (acc : Account C)
      → lookup k accounts ≡ some acc
      → worth funds (lookup k view.store.accounts) ≡ funds acc

  pub total_funds-set_account :
      (view : StoreView C) (k : ℕ) (acc : Account C)
      → total_funds (set_account view k acc) + worth funds (lookup k view.store.accounts)
        ≡ total_funds view + funds acc
  unfolding total_funds set_account
  total_funds-set_account view k acc = sum_by-insert funds k acc view.store.accounts

  pub Agrees-set_account :
      (view : StoreView C) (accounts : Dict (Account C)) (k : ℕ) (acc : Account C)
      → Agrees view accounts
      → Agrees (set_account view k acc) (insert k acc accounts)
  unfolding Agrees set_account
  Agrees-set_account view accounts k acc h j a e = elim (Bool-cases (k == j)) [
    | inl same ↦
        cc (lookup-insert k j acc accounts, lookup-insert k j acc view.store.accounts, same, e)
    | inr other ↦
        rw (lookup-insert k j acc view.store.accounts, other)
          (h j a (rw (lookup-insert k j acc accounts, other) at e))
  ]

  pub nothing_Agrees : (view : StoreView C) → Agrees view []
  unfolding Agrees lookup
  nothing_Agrees view k acc h = cc
