-- ===== src/Store/Refinement.antt =====
-- store/rollingdb: a run of operations on the layers, against one map.
use theta_protocol_subchain.Store.Reading.{
  get_rolling-put_rolling, get_rolling-delete_rolling, get_rolling-add_layer, get_rolling-active,
}
use theta_protocol_subchain.Store.Rolling.{
  get_rolling, add_layer, no_tag, is_rolling_height, has_rolling, all_layers, has_from,
}
use theta_protocol_subchain.Prelude.{
  ℕ, ◌≡◌, refl, true, false, Option, none, some, List, [], ◌∷◌, ltb, ◌==◌, if◌then◌else◌, any, inl,
  inr, arith, Bool-cases, ◌++◌, ◌∙◌, All, ap,
}
use theta_protocol_subchain.Store.KeyValue.{KeyValueStore}
use theta_protocol_subchain.Store.Rolling.{
  LayerTag, Settings, DbLayer, RollingDb, load_tag, add_tag, tag_state, put_rolling, delete_rolling,
}

-- What a client does with the database.
pub data Operation (V : Type 0) : Type 0 where
  put_key : ℕ → V → Operation V
  delete_key : ℕ → Operation V
  tag_root : ℕ → ℕ → Operation V

-- The map that the operations describe: tags do not change it.
unfoldable pub spec : {V : Type 0} → List (Operation V) → (ℕ → Option V) → ℕ → Option V
spec [] m j = m j
spec (put_key k v ∷ ops) m j = spec ops (λ i. if k == i then some v else m i) j
spec (delete_key k ∷ ops) m j = spec ops (λ i. if k == i then none else m i) j
spec (tag_root _ _ ∷ ops) m j = spec ops m j

-- An operation of a client does not write a tag's key.
abbrev pub Avoids : {V : Type 0} → ℕ → Operation V → Type 0
Avoids key (put_key k v) = (k == key) ≡ false
Avoids key (delete_key k) = (k == key) ≡ false
Avoids key (tag_root _ _) = Unit

pub ==-refl : (a : ℕ) → (a == a) ≡ true
==-refl a = ground arith

module _ {V : Type 0} (kv : KeyValueStore V) (settings : Settings V) where
  open kv use {create, get, has, put, delete}

  unfoldable pub step : RollingDb kv → Operation V → Option (RollingDb kv)
  unfolding put_rolling delete_rolling tag_state
  step rdb (put_key k v) = some (put_rolling kv rdb k v)
  step rdb (delete_key k) = some (delete_rolling kv rdb k)
  step rdb (tag_root height state_root) = tag_state kv settings rdb height state_root

  unfoldable pub run : RollingDb kv → List (Operation V) → Option (RollingDb kv)
  unfolding step
  run rdb [] = some rdb
  run rdb (op ∷ ops) = elim (step rdb op) [ none ↦ none | some next ↦ run next ops ]

  -- The tag of the active layer can be decoded.
  abbrev pub IsReadable : DbLayer kv → Type 0
  IsReadable l = (t : LayerTag) × (load_tag kv settings l ≡ some t)

  -- Off the tag's key, the layer is the same; and its tag can be decoded.
  abbrev pub Tagged : DbLayer kv → DbLayer kv → Type 0
  Tagged l l' =
      IsReadable l' × ((j : ℕ) → (settings.layer_tag_key == j) ≡ false → get l'.db j ≡ get l.db j)

  load_tag-of :
      (l : DbLayer kv) (db : kv.Db) (t : LayerTag)
      → get db settings.layer_tag_key ≡ get l.db settings.layer_tag_key
      → IsReadable l
      → IsReadable (record l { tag = t; db = db })
  unfolding load_tag
  load_tag-of l db t same (u, e) = (u, rw (same, load_tag) e)

  abbrev pub with_tag : DbLayer kv → LayerTag → DbLayer kv
  with_tag l t = record l { tag = t; db = put l.db settings.layer_tag_key (settings.encode_tag t) }

  stored_tag :
      ((t : LayerTag) → settings.decode_tag (settings.encode_tag t) ≡ some t)
      → (l : DbLayer kv) (t : LayerTag)
      → Tagged l
          (record l { tag = t; db = put l.db settings.layer_tag_key (settings.encode_tag t) })
  unfolding load_tag
  stored_tag codec l t =
      let key = settings.layer_tag_key in
      (
        (t, rw (load_tag, kv.get-put l.db key key (settings.encode_tag t), ==-refl key) (codec t)),
        λ j other. rw (kv.get-put l.db key j (settings.encode_tag t), other) refl,
      )

  add_tag-Tagged :
      ((t : LayerTag) → settings.decode_tag (settings.encode_tag t) ≡ some t)
      → (l : DbLayer kv) (height root : ℕ) → IsReadable l
      → (l' : DbLayer kv) × (add_tag kv settings l height root ≡ some l') × Tagged l l'
  unfolding add_tag
  add_tag-Tagged codec l height root (old, e) = elim (Bool-cases (ltb height old.height)) [
    | inl below ↦ (
      record l { tag = old },
      rw (e, below, add_tag) refl,
      (load_tag-of l l.db old refl (old, e), λ j _. refl),
    )
    | inr not_below ↦ elim (Bool-cases (height == old.height)) [
      | inl same ↦ elim (Bool-cases (any (λ r. r == root) old.state_roots)) [
        | inl known ↦ (
          record l { tag = old },
          rw (e, not_below, same, known, add_tag) refl,
          (load_tag-of l l.db old refl (old, e), λ j _. refl),
        )
        | inr new ↦ (
          with_tag l (record old { state_roots = old.state_roots ++ root ∷ [] }),
          rw (e, not_below, same, new, add_tag) refl,
          stored_tag codec l _,
        )
      ]
      | inr above ↦ (
        with_tag l (record { height = height; state_roots = root ∷ [] }),
        rw (e, not_below, above, add_tag) refl,
        stored_tag codec l _,
      )
    ]
  ]

  -- What a step keeps, and how it changes what is read.
  step-refines :
      ((t : LayerTag) → settings.decode_tag (settings.encode_tag t) ≡ some t)
      → (rdb : RollingDb kv) (op : Operation V) → IsReadable rdb.active_layer
      → Avoids settings.layer_tag_key op
      → (next : RollingDb kv) × (step rdb op ≡ some next)
        × IsReadable next.active_layer
        × ((j : ℕ)
            → (settings.layer_tag_key == j) ≡ false
            → get_rolling kv next j ≡ spec (op ∷ []) (get_rolling kv rdb) j)
  unfolding step spec tag_state put_rolling delete_rolling add_layer
  step-refines codec rdb (put_key k v) readable avoids = (
    put_rolling kv rdb k v,
    refl,
    load_tag-of rdb.active_layer (put rdb.active_layer.db k v) rdb.active_layer.tag
        (rw (kv.get-put rdb.active_layer.db k settings.layer_tag_key v, avoids) refl) readable,
    λ j _. get_rolling-put_rolling kv rdb k j v,
  )
  step-refines codec rdb (delete_key k) readable avoids = (
    delete_rolling kv rdb k,
    refl,
    load_tag-of rdb.active_layer (delete rdb.active_layer.db k) rdb.active_layer.tag
        (rw (kv.get-delete rdb.active_layer.db k settings.layer_tag_key, avoids) refl) readable,
    λ j _. get_rolling-delete_rolling kv rdb k j,
  )
  step-refines codec rdb (tag_root height root) readable avoids =
      let (active, tagged, (readable', same)) =
        add_tag-Tagged codec rdb.active_layer height root readable in
      let now = record rdb { active_layer = active } in
      elim (Bool-cases (is_rolling_height kv settings height)) [
        | inr stays ↦ (
          now,
          rw (tagged, stays, tag_state) refl,
          readable',
          λ j other. get_rolling-active kv rdb active j (same j other),
        )
        | inl rolls ↦ (
          add_layer kv now,
          rw (tagged, rolls, tag_state) refl,
          (no_tag, rw (load_tag, kv.get-create settings.layer_tag_key) refl),
          λ j other.
              get_rolling-add_layer kv now j ∙ get_rolling-active kv rdb active j (same j other),
        )
      ]

  spec-cong :
      (ops : List (Operation V)) (m n : ℕ → Option V) (key j : ℕ)
      → ((i : ℕ) → (key == i) ≡ false → m i ≡ n i)
      → (key == j) ≡ false
      → spec ops m j ≡ spec ops n j
  unfolding spec
  spec-cong [] m n key j h other = h j other
  spec-cong (put_key k v ∷ ops) m n key j h other =
      spec-cong ops _ _ key j (λ i o. ap (λ r. if k == i then some v else r) (h i o)) other
  spec-cong (delete_key k ∷ ops) m n key j h other =
      spec-cong ops _ _ key j (λ i o. ap (λ r. if k == i then none else r) (h i o)) other
  spec-cong (tag_root _ _ ∷ ops) m n key j h other = spec-cong ops m n key j h other

  spec-cons :
      (op : Operation V) (ops : List (Operation V)) (m : ℕ → Option V) (j : ℕ)
      → spec ops (spec (op ∷ []) m) j ≡ spec (op ∷ ops) m j
  unfolding spec
  spec-cons (put_key k v) ops m j = refl
  spec-cons (delete_key k) ops m j = refl
  spec-cons (tag_root _ _) ops m j = refl

  -- A run of puts, deletes and tags on the layers, new layers included, ends without a panic, and
  -- every key but the tag's then reads as if the operations were done on one map. The hypotheses:
  -- a tag is decoded from its encoding, the tag of the active layer can be decoded, and the
  -- operations leave the tag's key alone.
  pub run-refines :
      ((t : LayerTag) → settings.decode_tag (settings.encode_tag t) ≡ some t)
      → (rdb : RollingDb kv) (ops : List (Operation V)) → IsReadable rdb.active_layer
      → All (Avoids settings.layer_tag_key) ops
      → (last : RollingDb kv) × (run rdb ops ≡ some last)
        × ((j : ℕ)
            → (settings.layer_tag_key == j) ≡ false
            → get_rolling kv last j ≡ spec ops (get_rolling kv rdb) j)
  unfolding run spec
  run-refines codec rdb [] readable avoids = (rdb, refl, λ j _. refl)
  run-refines codec rdb (op ∷ ops) readable (avoid, avoids) =
      let (next, stepped, readable', same) = step-refines codec rdb op readable avoid in
      let (last, ran, reads) = run-refines codec next ops readable' avoids in
      (
        last,
        rw (stepped, run) ran,
        λ j other.
            reads j other
            ∙ spec-cong ops (get_rolling kv next) (spec (op ∷ []) (get_rolling kv rdb))
                settings.layer_tag_key j same other
            ∙ spec-cons op ops (get_rolling kv rdb) j,
      )

  -- `Has` reports that a key is missing when the active layer does not have it, though `Get`
  -- reads it from an older layer.
  pub has_rolling-active :
      (rdb : RollingDb kv) (k : ℕ) (v : V)
      → get rdb.active_layer.db k ≡ none
      → get_rolling kv rdb k ≡ some v
      → has_rolling kv rdb k ≡ some false
  unfolding has_rolling all_layers has_from
  has_rolling-active rdb k v missing there = rw (kv.has-get rdb.active_layer.db k, missing) refl
