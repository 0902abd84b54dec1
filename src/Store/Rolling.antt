-- ===== src/Store/Rolling.antt =====
-- store/rollingdb: the layers (layer.go) and the database over them (rollingdb.go), with rolling and
-- pruning enabled, so that the active layer is not the root.
use theta_protocol_subchain.Prelude.{
  ℕ, ◌+◌, ◌%◌, Bool, Option, none, some, List, [], ◌∷◌, ◌++◌, ltb, ◌==◌, if◌then◌else◌, any, ◌&&◌,
  ◌^◌,
}
use theta_protocol_subchain.Store.KeyValue.{KeyValueStore}

pub record LayerTag : Type 0 where
  pub height : ℕ
  pub state_roots : List ℕ

-- The key and the RLP encoding of a layer's tag, the interval of rolling, the number of blocks whose
-- states are retained, and the copy of a state: from what the database reads, the root, and the
-- pairs that are written.
pub record Settings (V : Type 0) : Type 0 where
  pub layer_tag_key : ℕ
  pub encode_tag : LayerTag → V
  pub decode_tag : V → Option LayerTag
  pub rolling_interval : ℕ
  pub retained_blocks : ℕ
  pub copy_state : (ℕ → Option V) → ℕ → List (ℕ × V)

pub record DbLayer {V : Type 0} (kv : KeyValueStore V) : Type 0 where
  pub name : ℕ
  pub tag : LayerTag
  pub db : kv.Db

pub record RollingDb {V : Type 0} (kv : KeyValueStore V) : Type 0 where
  pub root_layer : DbLayer kv
  pub layers : List (DbLayer kv)
  pub active_layer : DbLayer kv

abbrev pub no_tag : LayerTag
no_tag = record { height = 0; state_roots = [] }

-- The list from its last element to its first.
unfoldable pub reverse : {A : Type 0} → List A → List A
reverse [] = []
reverse (x ∷ xs) = reverse xs ++ x ∷ []

module _ {V : Type 0} (kv : KeyValueStore V) where
  open kv use {create, get, has, put, delete}

  -- A new layer's database is empty.
  unfoldable pub add_layer : RollingDb kv → RollingDb kv
  add_layer rdb = record rdb {
    layers = rdb.layers ++ rdb.active_layer ∷ [];
    active_layer = record { name = rdb.active_layer.name + 1; tag = no_tag; db = create };
  }

  -- From new to old.
  unfoldable pub all_layers : RollingDb kv → List (DbLayer kv)
  unfolding reverse
  all_layers rdb = rdb.active_layer ∷ (reverse rdb.layers ++ rdb.root_layer ∷ [])

  -- The loop of `Get`: the first layer with the key.
  unfoldable pub get_from : List (DbLayer kv) → ℕ → Option V
  get_from [] k = none
  get_from (l ∷ ls) k = elim (get l.db k) [ none ↦ get_from ls k | some v ↦ some v ]

  unfoldable pub get_rolling : RollingDb kv → ℕ → Option V
  unfolding all_layers get_from
  get_rolling rdb k = get_from (all_layers rdb) k

  -- The loop of `Has`: the first layer that answers without an error.
  unfoldable pub has_from : List (DbLayer kv) → ℕ → Option Bool
  has_from [] k = none
  has_from (l ∷ ls) k = elim (has l.db k) [ none ↦ has_from ls k | some b ↦ some b ]

  unfoldable pub has_rolling : RollingDb kv → ℕ → Option Bool
  unfolding all_layers has_from
  has_rolling rdb k = has_from (all_layers rdb) k

  unfoldable pub put_rolling : RollingDb kv → ℕ → V → RollingDb kv
  put_rolling rdb k v = record rdb {
    active_layer = record (rdb.active_layer) { db = put rdb.active_layer.db k v };
  }

  abbrev pub delete_in : ℕ → DbLayer kv → DbLayer kv
  delete_in k l = record l { db = delete l.db k }

  unfoldable pub delete_all : ℕ → List (DbLayer kv) → List (DbLayer kv)
  delete_all k [] = []
  delete_all k (l ∷ ls) = delete_in k l ∷ delete_all k ls

  unfoldable pub delete_rolling : RollingDb kv → ℕ → RollingDb kv
  unfolding delete_all
  delete_rolling rdb k = record {
    root_layer = delete_in k rdb.root_layer;
    layers = delete_all k rdb.layers;
    active_layer = delete_in k rdb.active_layer;
  }

  -- The writes of a batch of the active layer.
  unfoldable pub write_batch : RollingDb kv → List (ℕ × V) → RollingDb kv
  unfolding put_rolling
  write_batch rdb [] = rdb
  write_batch rdb ((k, v) ∷ writes) = write_batch (put_rolling rdb k v) writes

module _ {V : Type 0} (kv : KeyValueStore V) (settings : Settings V) where
  open kv use {get, put}

  -- The tag that the layer's database holds; `none` is the panic on bytes that cannot be decoded.
  unfoldable pub load_tag : DbLayer kv → Option LayerTag
  load_tag l = elim (get l.db settings.layer_tag_key) [
    | none ↦ some no_tag
    | some raw ↦ settings.decode_tag raw
  ]

  -- `load_tag` sets the tag of the layer also where `addTag` then stores nothing.
  unfoldable pub add_tag : DbLayer kv → ℕ → ℕ → Option (DbLayer kv)
  unfolding load_tag
  add_tag l height state_root = elim (load_tag l) [
    | none ↦ none
    | some old ↦
        let loaded = record l { tag = old } in
        let store : LayerTag → DbLayer kv =
          λ t. record l { tag = t; db = put l.db settings.layer_tag_key (settings.encode_tag t) } in
        if ltb height old.height
        then some loaded
        else if height == old.height
        then (if any (λ root. root == state_root) old.state_roots
            then some loaded
            else some (store (record old { state_roots = old.state_roots ++ state_root ∷ [] })))
        else some (store (record { height = height; state_roots = state_root ∷ [] }))
  ]

  -- The remainder of a height that is negative as an `int` is not positive.
  unfoldable pub is_rolling_height : ℕ → Bool
  is_rolling_height height = ltb height (2 ^ 63) && height % settings.rolling_interval == 50

  -- `Tag`, without the compaction that it starts.
  unfoldable pub tag_state : RollingDb kv → ℕ → ℕ → Option (RollingDb kv)
  unfolding add_tag add_layer is_rolling_height
  tag_state rdb height state_root = elim (add_tag rdb.active_layer height state_root) [
    | none ↦ none
    | some active ↦
        let tagged = record rdb { active_layer = active } in
        some (if is_rolling_height height then add_layer kv tagged else tagged)
  ]
