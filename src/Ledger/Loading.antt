-- ===== src/Ledger/Loading.antt =====
-- `getInputs` and `getOrMakeOutputs` of ledger/execution/executils.go: what the loaded accounts are.
use mathlib.Core.Path.{subst}
use theta_protocol_subchain.Prelude.{
  ℕ, ◌≡◌, refl, false, none, some, List, [], ◌∷◌, ◌==◌, inl, inr, All, Bool-cases, ==→eq,
  Option-cases, sym,
}
use theta_protocol_subchain.Prelude.Dict.{
  Dict, lookup, insert, lookup-insert, lookup-insert_same, lookup-insert_other,
}
use theta_protocol_subchain.Ledger.Result.{ok}
use theta_protocol_subchain.Ledger.Types.{Account, TxInput, TxOutput, StoreView, Rules}
use theta_protocol_subchain.Ledger.Inputs.{
  get_account, find_account, get_or_make_account, add_inputs, get_or_make_outputs,
}
use theta_protocol_subchain.Ledger.Funds.{Laws, worth, funds, value, Agrees}
use theta_protocol_subchain.Ledger.Charging.{IsDistinct, Holds}

module _ {C : Type 0} where
  -- What is loaded stays loaded, as it is.
  unfoldable pub Extends : Dict (Account C) → Dict (Account C) → Type 0
  Extends d d' = (k : ℕ) (acc : Account C) → lookup k d ≡ some acc → lookup k d' ≡ some acc

  abbrev pub IsNew : Dict (Account C) → ℕ → Type 0
  IsNew d k = lookup k d ≡ none

  Extends-insert :
      (d d' : Dict (Account C)) (k : ℕ) (acc : Account C)
      → IsNew d k
      → Extends (insert k acc d) d'
      → Extends d d'
  unfolding Extends
  Extends-insert d d' k acc new h j a e = elim (Bool-cases (k == j)) [
    | inl same ↦ absurd (cc (new, e, ==→eq k j same))
    | inr other ↦ h j a (rw (lookup-insert_other k j acc d other) e)
  ]

  IsNew-insert :
      (d : Dict (Account C)) (k j : ℕ) (acc : Account C)
      → IsNew (insert k acc d) j
      → ((k == j) ≡ false) × IsNew d j
  IsNew-insert d k j acc h = elim (Bool-cases (k == j)) [
    | inl same ↦ absurd (cc (h, lookup-insert k j acc d, same))
    | inr other ↦ (other, cc (h, lookup-insert_other k j acc d other))
  ]

  All-IsNew-insert :
      {X : Type 0} (d : Dict (Account C)) (key : X → ℕ) (k : ℕ) (acc : Account C) (xs : List X)
      → All (λ x. IsNew (insert k acc d) (key x)) xs
      → All (λ x. (k == key x) ≡ false) xs × All (λ x. IsNew d (key x)) xs
  All-IsNew-insert d key k acc [] h = (tt, tt)
  All-IsNew-insert d key k acc (x ∷ xs) (h, hs) =
      let (other, new) = IsNew-insert d k (key x) acc h in
      let (others, news) = All-IsNew-insert d key k acc xs hs in ((other, others), (new, news))

module _ {C : Type 0} (r : Rules C) (laws : Laws r) (view : StoreView C) where
  Agrees-insert :
      (d : Dict (Account C)) (k : ℕ) (acc : Account C)
      → worth (funds r) (lookup k view.store.accounts) ≡ funds r acc
      → Agrees r view d
      → Agrees r view (insert k acc d)
  unfolding Agrees
  Agrees-insert d k acc same_funds h j a e = elim (Bool-cases (k == j)) [
    | inl same ↦ cc (lookup-insert k j acc d, same, e, ==→eq k j same, same_funds)
    | inr other ↦ h j a (rw (lookup-insert_other k j acc d other) at e)
  ]

  -- An account that is found is the stored one, brought to the height.
  pub find_account_lem :
      (k : ℕ) (acc : Account C)
      → find_account r view k ≡ some acc
      → (a : Account C) × (lookup k view.store.accounts ≡ some a)
        × (acc ≡ r.update_to_height a view.height)
  unfolding find_account get_account
  find_account_lem k acc h = elim (Option-cases (lookup k view.store.accounts)) [
    | inl e ↦ absurd (cc (rw (e, find_account, get_account) at h))
    | inr (a, e) ↦ (a, e, cc (rw (e, find_account, get_account) at h))
  ]

  find_account-funds :
      (k : ℕ) (acc : Account C)
      → find_account r view k ≡ some acc
      → worth (funds r) (lookup k view.store.accounts) ≡ funds r acc
  unfolding value
  find_account-funds k acc h =
      let (a, e, same) = find_account_lem k acc h in
      cc (e, same, laws.balance-update_to_height a view.height)

  get_or_make_account-funds :
      (k : ℕ)
      → worth (funds r) (lookup k view.store.accounts) ≡ funds r (get_or_make_account r view k)
  unfolding get_or_make_account get_account value
  get_or_make_account-funds k = elim (Option-cases (lookup k view.store.accounts)) [
    | inl e ↦
        rw
          (
            e,
            get_or_make_account,
            get_account,
            laws.balance-update_to_height
                (record (r.new_account k) { last_updated_block_height = view.height }) view.height,
          )
          (sym (laws.funds-new_account k))
    | inr (a, e) ↦
        rw (e, get_or_make_account, get_account, laws.balance-update_to_height a view.height) refl
  ]

  abbrev pub IsLoaded : Dict (Account C) → TxInput C → Type 0
  IsLoaded d i =
      (acc : Account C) × (find_account r view i.address ≡ some acc)
      × (lookup i.address d ≡ some acc)

  pub add_inputs_lem :
      (d d' : Dict (Account C)) (ins : List (TxInput C))
      → add_inputs r view d ins ≡ ok d'
      → Agrees r view d
      → Agrees r view d'
        × Extends d d'
        × All (λ i. IsNew d i.address) ins
        × IsDistinct ins
        × All (IsLoaded d') ins
  unfolding add_inputs Extends
  add_inputs_lem d d' [] h ag =
      let same : d ≡ d' = cc in (subst (Agrees r view) same ag, λ k acc e. cc, tt, tt, tt)
  add_inputs_lem d d' (i ∷ ins) h ag = elim (Option-cases (lookup i.address d)) [
    | inr (a, e) ↦ absurd (cc (rw (e, add_inputs) at h))
    | inl new ↦ elim (Option-cases (find_account r view i.address)) [
      | inl e ↦ absurd (cc (rw (new, e, add_inputs) at h))
      | inr (acc, e) ↦
          let (ag', ext, news, distinct, loaded) =
            add_inputs_lem (insert i.address acc d) d' ins (rw (new, e, add_inputs) at h)
              (Agrees-insert d i.address acc (find_account-funds i.address acc e) ag) in
          let (others, fresh) = All-IsNew-insert d (λ j. j.address) i.address acc ins news in
          (
            ag',
            Extends-insert d d' i.address acc new ext,
            (new, fresh),
            (others, distinct),
            ((acc, e, ext i.address acc (lookup-insert_same i.address acc d)), loaded),
          )
    ]
  ]

  pub get_or_make_outputs_lem :
      (d d' : Dict (Account C)) (outs : List (TxOutput C))
      → get_or_make_outputs r view d outs ≡ ok d'
      → Agrees r view d
      → Agrees r view d' × Extends d d' × All (λ o. IsNew d o.address) outs × All (Holds d') outs
  unfolding get_or_make_outputs Extends
  get_or_make_outputs_lem d d' [] h ag =
      let same : d ≡ d' = cc in (subst (Agrees r view) same ag, λ k acc e. cc, tt, tt)
  get_or_make_outputs_lem d d' (o ∷ outs) h ag = elim (Option-cases (lookup o.address d)) [
    | inr (a, e) ↦ absurd (cc (rw (e, get_or_make_outputs) at h))
    | inl new ↦
        let acc = get_or_make_account r view o.address in
        let (ag', ext, news, holds) =
          get_or_make_outputs_lem (insert o.address acc d) d' outs
            (rw (new, get_or_make_outputs) at h)
            (Agrees-insert d o.address acc (get_or_make_account-funds o.address) ag) in
        (
          ag',
          Extends-insert d d' o.address acc new ext,
          (new, (All-IsNew-insert d (λ o. o.address) o.address acc outs news).1),
          ((acc, ext o.address acc (lookup-insert_same o.address acc d)), holds),
        )
  ]
