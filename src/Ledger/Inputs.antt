-- ===== src/Ledger/Inputs.antt =====
-- ledger/execution/executils.go, and the accounts of ledger/state/storeview.go.
use theta_protocol_subchain.Prelude.{
  ℕ, ◌+◌, Bool, true, false, not, ◌&&◌, ◌||◌, Option, none, some, List, [], ◌∷◌, leb, ◌==◌,
  if◌then◌else◌,
}
use theta_protocol_subchain.Prelude.Dict.{Dict, lookup, insert}
use theta_protocol_subchain.Ledger.Result.{Result, ok, error, panic}
use theta_protocol_subchain.Ledger.Types.{Account, TxInput, TxOutput, StoreView, Rules}
use theta_protocol_subchain.Consensus.Managers.{uint64}

module _ {C : Type 0} where
  unfoldable pub get_account : StoreView C → ℕ → Option (Account C)
  unfolding lookup
  get_account view address = lookup address view.store.accounts

  unfoldable pub set_account : StoreView C → ℕ → Account C → StoreView C
  unfolding insert
  set_account view address acc = record view {
    store = record view.store { accounts = insert address acc view.store.accounts };
  }

module _ {C : Type 0} (r : Rules C) where
  open r use {money}
  open money use {theta_wei, tfuel_wei, no_nil, no_coins, plus, minus, is_gte, is_equal}

  -- `getOrMakeAccountImpl` without and with the permission to make an account.
  unfoldable pub find_account : StoreView C → ℕ → Option (Account C)
  unfolding get_account
  find_account view address = elim (get_account view address) [
    | none ↦ none
    | some acc ↦ some (r.update_to_height acc view.height)
  ]

  unfoldable pub get_or_make_account : StoreView C → ℕ → Account C
  unfolding get_account
  get_or_make_account view address = elim (get_account view address) [
    | none ↦
        r.update_to_height
          (record (r.new_account address) { last_updated_block_height = view.height }) view.height
    | some acc ↦ r.update_to_height acc view.height
  ]

  -- The loop of `getInputs`, on the accounts found so far.
  unfoldable pub add_inputs :
      StoreView C → Dict (Account C) → List (TxInput C) → Result (Dict (Account C))
  unfolding find_account lookup insert
  add_inputs view accounts [] = ok accounts
  add_inputs view accounts (i ∷ ins) = elim (lookup i.address accounts) [
    | some _ ↦ error
    | none ↦ elim (find_account view i.address) [
      | none ↦ error
      | some acc ↦ add_inputs view (insert i.address acc accounts) ins
    ]
  ]

  unfoldable pub get_inputs : StoreView C → List (TxInput C) → Result (Dict (Account C))
  unfolding add_inputs
  get_inputs view ins = add_inputs view [] ins

  unfoldable pub get_or_make_outputs :
      StoreView C → Dict (Account C) → List (TxOutput C) → Result (Dict (Account C))
  unfolding get_or_make_account lookup insert
  get_or_make_outputs view accounts [] = ok accounts
  get_or_make_outputs view accounts (o ∷ outs) = elim (lookup o.address accounts) [
    | some _ ↦ error
    | none ↦
        get_or_make_outputs view (insert o.address (get_or_make_account view o.address) accounts)
          outs
  ]

  unfoldable pub validate_inputs_basic : List (TxInput C) → Bool
  validate_inputs_basic [] = true
  validate_inputs_basic (i ∷ ins) =
      let rest = validate_inputs_basic ins in
      if not (r.validate_input_basic i)
      then false
      else if not (theta_wei (no_nil i.coins) == 0)
      then false
      else rest

  unfoldable pub validate_outputs_basic : List (TxOutput C) → Bool
  validate_outputs_basic [] = true
  validate_outputs_basic (o ∷ outs) =
      let rest = validate_outputs_basic outs in if r.validate_output_basic o then rest else false

  unfoldable pub validate_input_advanced : Account C → List ℕ → TxInput C → ℕ → Bool
  validate_input_advanced acc sign_bytes i block_height =
      let plain = r.verify i.signature sign_bytes acc.address in
      let wrapped = r.verify i.signature (r.change_ethereum_tx_wrapper sign_bytes) acc.address in
      if not (uint64 (acc.sequence + 1) == i.sequence)
      then false
      else if not (is_gte acc.balance i.coins)
      then false
      else if leb r.height_tx_wrapper_extension block_height
      then plain || wrapped
      else plain

  -- The loop of `validateInputsAdvanced`, on the total so far.
  unfoldable pub validate_inputs_advanced :
      Dict (Account C) → List ℕ → List (TxInput C) → ℕ → C → Result C
  unfolding lookup validate_input_advanced
  validate_inputs_advanced accounts sign_bytes [] block_height total = ok total
  validate_inputs_advanced accounts sign_bytes (i ∷ ins) block_height total =
      elim (lookup i.address accounts) [
        | none ↦ panic
        | some acc ↦ elim (validate_input_advanced acc sign_bytes i block_height) [
          | false ↦ error
          | true ↦
              validate_inputs_advanced accounts sign_bytes ins block_height (plus total i.coins)
        ]
      ]

  unfoldable pub sum_outputs : C → List (TxOutput C) → C
  sum_outputs total [] = total
  sum_outputs total (o ∷ outs) = sum_outputs (plus total o.coins) outs

  -- Accounts and view after the loop of `adjustByInputs`; the accounts are shared with the caller.
  unfoldable pub adjust_by_inputs :
      StoreView C → Dict (Account C) → List (TxInput C) → Option (StoreView C × Dict (Account C))
  unfolding lookup insert set_account
  adjust_by_inputs view accounts [] = some (view, accounts)
  adjust_by_inputs view accounts (i ∷ ins) = elim (lookup i.address accounts) [
    | none ↦ none
    | some acc ↦ elim (is_gte acc.balance i.coins) [
      | false ↦ none
      | true ↦
          let charged = record acc {
            balance = minus acc.balance i.coins;
            sequence = uint64 (acc.sequence + 1);
          } in
          adjust_by_inputs (set_account view i.address charged) (insert i.address charged accounts)
            ins
    ]
  ]

  unfoldable pub adjust_by_outputs :
      StoreView C → Dict (Account C) → List (TxOutput C) → Option (StoreView C)
  unfolding lookup insert set_account
  adjust_by_outputs view accounts [] = some view
  adjust_by_outputs view accounts (o ∷ outs) = elim (lookup o.address accounts) [
    | none ↦ none
    | some acc ↦
        let paid = record acc { balance = plus acc.balance o.coins } in
        adjust_by_outputs (set_account view o.address paid) (insert o.address paid accounts) outs
  ]

  unfoldable pub sanity_check_for_send_tx_fee : C → ℕ → ℕ → Bool
  sanity_check_for_send_tx_fee fee accounts_affected block_height =
      theta_wei (no_nil fee) == 0
      && leb (r.send_tx_minimum_fee accounts_affected block_height) (tfuel_wei (no_nil fee))
