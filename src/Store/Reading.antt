-- ===== src/Store/Reading.antt =====
-- store/rollingdb/rollingdb.go: the layers together read as one map.
use theta_protocol_subchain.Prelude.{Option-cases}
use theta_protocol_subchain.Prelude.{
  ℕ, ◌≡◌, ◌∙◌, refl, sym, ap, none, some, List, [], ◌∷◌, ◌++◌, ◌==◌, if◌then◌else◌, inl, inr, arith,
  Bool-cases,
}
use theta_protocol_subchain.Store.KeyValue.{KeyValueStore}
use theta_protocol_subchain.Store.Rolling.{
  DbLayer, RollingDb, reverse, add_layer, all_layers, get_from, get_rolling, put_rolling, delete_in,
  delete_all, delete_rolling,
}

pub append_assoc : {A : Type 0} (xs ys zs : List A) → ((xs ++ ys) ++ zs) ≡ (xs ++ (ys ++ zs))
append_assoc [] ys zs = refl
append_assoc (x ∷ xs) ys zs = ap (λ r. x ∷ r) (append_assoc xs ys zs)

reverse-snoc : {A : Type 0} (xs : List A) (x : A) → reverse (xs ++ x ∷ []) ≡ x ∷ reverse xs
unfolding reverse
reverse-snoc [] x = refl
reverse-snoc (y ∷ ys) x = ap (λ r. r ++ y ∷ []) (reverse-snoc ys x)

module _ {V : Type 0} (kv : KeyValueStore V) where
  open kv use {create, get, has, put, delete}

  delete_all-append :
      (k : ℕ) (xs ys : List (DbLayer kv))
      → delete_all kv k (xs ++ ys) ≡ delete_all kv k xs ++ delete_all kv k ys
  unfolding delete_all
  delete_all-append k [] ys = refl
  delete_all-append k (x ∷ xs) ys = ap (λ r. delete_in kv k x ∷ r) (delete_all-append k xs ys)

  reverse-delete_all :
      (k : ℕ) (ls : List (DbLayer kv)) → reverse (delete_all kv k ls) ≡ delete_all kv k (reverse ls)
  unfolding delete_all reverse
  reverse-delete_all k [] = refl
  reverse-delete_all k (l ∷ ls) =
      ap (λ r. r ++ delete_in kv k l ∷ []) (reverse-delete_all k ls)
      ∙ sym (delete_all-append k (reverse ls) (l ∷ []))

  get_from-delete_all :
      (k j : ℕ) (ls : List (DbLayer kv))
      → get_from kv (delete_all kv k ls) j ≡ (if k == j then none else get_from kv ls j)
  unfolding get_from delete_all
  get_from-delete_all k j [] = ground arith
  get_from-delete_all k j (l ∷ ls) = elim (Bool-cases (k == j)) [
    | inl same ↦ rw (kv.get-delete l.db k j, same, get_from-delete_all k j ls, same) refl
    | inr other ↦ elim (Option-cases (get l.db j)) [
      | inl e ↦
          rw (kv.get-delete l.db k j, other, e, get_from) (rw other at (get_from-delete_all k j ls))
      | inr (v, e) ↦ rw (kv.get-delete l.db k j, other, e, get_from) refl
    ]
  ]

  pub get_rolling-put_rolling :
      (rdb : RollingDb kv) (k j : ℕ) (v : V)
      → get_rolling kv (put_rolling kv rdb k v) j
        ≡ (if k == j then some v else get_rolling kv rdb j)
  unfolding get_rolling put_rolling all_layers get_from
  get_rolling-put_rolling rdb k j v = elim (Bool-cases (k == j)) [
    | inl same ↦ rw (kv.get-put rdb.active_layer.db k j v, same) refl
    | inr other ↦ rw (kv.get-put rdb.active_layer.db k j v, other) refl
  ]

  pub get_rolling-delete_rolling :
      (rdb : RollingDb kv) (k j : ℕ)
      → get_rolling kv (delete_rolling kv rdb k) j ≡ (if k == j then none else get_rolling kv rdb j)
  unfolding get_rolling delete_rolling all_layers delete_all
  get_rolling-delete_rolling rdb k j =
      ap (λ ls. get_from kv (delete_in kv k rdb.active_layer ∷ ls) j)
        (ap (λ ls. ls ++ delete_in kv k rdb.root_layer ∷ []) (reverse-delete_all k rdb.layers)
          ∙ sym (delete_all-append k (reverse rdb.layers) (rdb.root_layer ∷ [])))
      ∙ get_from-delete_all k j (all_layers kv rdb)

  pub get_rolling-add_layer :
      (rdb : RollingDb kv) (j : ℕ) → get_rolling kv (add_layer kv rdb) j ≡ get_rolling kv rdb j
  unfolding get_rolling add_layer all_layers get_from
  get_rolling-add_layer rdb j = rw (kv.get-create j) (
      ap (λ ls. get_from kv (ls ++ rdb.root_layer ∷ []) j)
        (reverse-snoc rdb.layers rdb.active_layer))

  pub get_rolling-active :
      (rdb : RollingDb kv) (active : DbLayer kv) (j : ℕ)
      → get active.db j ≡ get rdb.active_layer.db j
      → get_rolling kv (record rdb { active_layer = active }) j ≡ get_rolling kv rdb j
  unfolding get_rolling all_layers get_from
  get_rolling-active rdb active j same = rw (same) refl
