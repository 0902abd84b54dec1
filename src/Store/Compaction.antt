-- ===== src/Store/Compaction.antt =====
-- store/rollingdb/rollingdb.go: the compaction, which drops old layers.
use mathlib.Core.Path.{subst}
use theta_protocol_subchain.Store.Refinement.{==-refl}
use theta_protocol_subchain.Prelude.{
  ℕ, ◌+◌, ◌-◌, ◌%◌, ◌^◌, ◌<◌, not, ltb→lt, In-append, any-In, All, arith, Option, none, some, List,
  [], ◌∷◌, ltb, leb, ◌==◌, if◌then◌else◌, any, filter, In, ◌≡◌, ◌⊎◌, inl, inr, ap, sym, refl,
  Bool-cases, Option-cases, ==→eq, true,
}
use theta_protocol_subchain.Core.Block.{ExtendedBlock, is_finalized}
use theta_protocol_subchain.Store.KeyValue.{KeyValueStore}
use theta_protocol_subchain.Store.Rolling.{
  Settings, DbLayer, RollingDb, reverse, is_rolling_height, get_rolling, write_batch, all_layers,
  get_from, put_rolling,
}

module _ {V : Type 0} (kv : KeyValueStore V) (settings : Settings V) where
  -- The search for a layer to cut off, from the newest on; the heights are subtracted in 64 bits.
  unfoldable pub find_source : ℕ → List (DbLayer kv) → Option (DbLayer kv)
  find_source height [] = none
  find_source height (l ∷ ls) =
      let rest = find_source height ls in
      if ltb ((settings.retained_blocks + 10) % 2 ^ 64) ((height + 2 ^ 64 - l.tag.height) % 2 ^ 64)
      then some l
      else rest

  -- The layers that are not cut off.
  unfoldable pub remaining_layers : ℕ → List (DbLayer kv) → List (DbLayer kv)
  unfolding filter
  remaining_layers name ls = filter (λ l. not (leb l.name name)) ls

  -- The first finalized block at the height of the source.
  unfoldable pub first_finalized : List ExtendedBlock → Option ExtendedBlock
  unfolding is_finalized
  first_finalized [] = none
  first_finalized (b ∷ bs) = if is_finalized b.status then some b else first_finalized bs

  -- `compact`, on the blocks of the chain by height.
  unfoldable pub compact : (ℕ → List ExtendedBlock) → RollingDb kv → ℕ → RollingDb kv
  unfolding find_source first_finalized write_batch remaining_layers is_rolling_height reverse
      get_rolling
  compact blocks_by_height rdb height = elim (find_source height (reverse rdb.layers)) [
    | none ↦ rdb
    | some source ↦
        if not (is_rolling_height kv settings source.tag.height)
        then rdb
        else elim (first_finalized (blocks_by_height source.tag.height)) [
          | none ↦ rdb
          | some block ↦
              if any (λ root. root == block.state_hash) source.tag.state_roots
              then (let copied =
                    write_batch kv rdb
                      (settings.copy_state (get_rolling kv rdb) block.state_hash) in
                  record copied { layers = remaining_layers source.name copied.layers })
              else rdb
        ]
  ]

  -- What the active layer has is read.
  get_rolling-of_active :
      (rdb : RollingDb kv) (k : ℕ) (v : V)
      → kv.get rdb.active_layer.db k ≡ some v
      → get_rolling kv rdb k ≡ some v
  unfolding get_rolling all_layers get_from
  get_rolling-of_active rdb k v h = rw (h) refl

  Fixed : ℕ → V → List (ℕ × V) → Type 0
  Fixed k v writes = (w : V) → In (k, w) writes → w ≡ v

  active-put_rolling :
      (rdb : RollingDb kv) (j k : ℕ) (w v : V) (rest : List (ℕ × V))
      → Fixed k v ((j, w) ∷ rest)
      → kv.get rdb.active_layer.db k ≡ some v
      → kv.get (put_rolling kv rdb j w).active_layer.db k ≡ some v
  unfolding put_rolling Fixed
  active-put_rolling rdb j k w v rest fixed h = elim (Bool-cases (j == k)) [
    | inr other ↦ rw (kv.get-put rdb.active_layer.db j k w, other) h
    | inl same ↦
        rw (kv.get-put rdb.active_layer.db j k w, same)
          (ap (λ x. some x) (fixed w (inl (ap (λ x. (x, w)) (sym (==→eq j k same))))))
  ]

  put_same :
      (rdb : RollingDb kv) (j k : ℕ) (w v : V)
      → j ≡ k
      → w ≡ v
      → kv.get (put_rolling kv rdb j w).active_layer.db k ≡ some v
  unfolding put_rolling
  put_same rdb j k w v same same_value =
      rw (kv.get-put rdb.active_layer.db j k w, same, ==-refl k, same_value) refl

  first_finalized-is_finalized :
      (bs : List ExtendedBlock) (block : ExtendedBlock)
      → first_finalized bs ≡ some block
      → In block bs × (is_finalized block.status ≡ true)
  unfolding first_finalized
  first_finalized-is_finalized [] block h = cc
  first_finalized-is_finalized (b ∷ bs) block h = elim (Bool-cases (is_finalized b.status)) [
    | inl e ↦ let same : b ≡ block = cc (rw (e, first_finalized) at h) in (inl (sym same), cc)
    | inr e ↦
        let (i, final) = first_finalized-is_finalized bs block (rw (e, first_finalized) at h) in
        (inr i, final)
  ]

  -- The layer is so far below the height, on 64 bits, that it may be cut off.
  abbrev pub IsOld : ℕ → DbLayer kv → Type 0
  IsOld height l =
      (settings.retained_blocks + 10) % 2 ^ 64 < (height + 2 ^ 64 - l.tag.height) % 2 ^ 64

  find_source-IsOld :
      (height : ℕ) (ls : List (DbLayer kv)) (l : DbLayer kv)
      → find_source height ls ≡ some l
      → In l ls × IsOld height l
  unfolding find_source
  find_source-IsOld height [] l h = cc
  find_source-IsOld height (x ∷ ls) l h =
      elim (Bool-cases (
        ltb ((settings.retained_blocks + 10) % 2 ^ 64)
          ((height + 2 ^ 64 - x.tag.height) % 2 ^ 64))) [
            | inl e ↦
                let same : x ≡ l = cc (rw (e, find_source) at h) in
                (inl (sym same), subst (IsOld height) same (ltb→lt _ _ e))
            | inr e ↦
                let (i, old) = find_source-IsOld height ls l (rw (e, find_source) at h) in
                (inr i, old)
          ]

  In-reverse : (ls : List (DbLayer kv)) (l : DbLayer kv) → In l (reverse ls) → In l ls
  unfolding reverse
  In-reverse [] l i = i
  In-reverse (x ∷ ls) l i = elim (In-append l (reverse ls) (x ∷ []) i) [
    | inl later ↦ inr (In-reverse ls l later)
    | inr (inl here) ↦ inl here
    | inr (inr nowhere) ↦ absurd nowhere
  ]

  remaining_layers-newer :
      (name : ℕ) (ls : List (DbLayer kv)) → All (λ l. name < l.name) (remaining_layers name ls)
  unfolding remaining_layers filter
  remaining_layers-newer name [] = tt
  remaining_layers-newer name (l ∷ ls) = elim (Bool-cases (leb l.name name)) [
    | inl old ↦ rw (old, filter) (remaining_layers-newer name ls)
    | inr new ↦
        let above : name < l.name = ground (arith, new) in
        rw (new, filter) (above, remaining_layers-newer name ls)
  ]

  -- A compaction may keep the state of the block: it is a finalized one of the chain, at the height at
  -- which an old layer was tagged, and the layer has the block's root.
  pub record IsCompacted (blocks_by_height : ℕ → List ExtendedBlock) (rdb : RollingDb kv)
      (height : ℕ) (block : ExtendedBlock) : Type 0 where
    pub source : DbLayer kv
    pub is_layer : In source rdb.layers
    pub is_old : IsOld height source
    pub is_block : In block (blocks_by_height source.tag.height)
    pub is_final : is_finalized block.status ≡ true
    pub has_root : In block.state_hash source.tag.state_roots
    pub are_newer : All (λ l. source.name < l.name) (compact blocks_by_height rdb height).layers

  active-write_batch :
      (rdb : RollingDb kv) (k : ℕ) (v : V) (writes : List (ℕ × V))
      → Fixed k v writes
      → (kv.get rdb.active_layer.db k ≡ some v) ⊎ In (k, v) writes
      → kv.get (write_batch kv rdb writes).active_layer.db k ≡ some v
  unfolding write_batch Fixed
  active-write_batch rdb k v [] fixed (inl h) = h
  active-write_batch rdb k v [] fixed (inr i) = absurd i
  active-write_batch rdb k v ((j, w) ∷ writes) fixed (inl h) =
      active-write_batch (put_rolling kv rdb j w) k v writes (λ x i. fixed x (inr i))
        (inl (active-put_rolling rdb j k w v writes fixed h))
  active-write_batch rdb k v ((j, w) ∷ writes) fixed (inr (inr i)) =
      active-write_batch (put_rolling kv rdb j w) k v writes (λ x i'. fixed x (inr i')) (inr i)
  active-write_batch rdb k v ((j, w) ∷ writes) fixed (inr (inl e)) =
      active-write_batch (put_rolling kv rdb j w) k v writes (λ x i. fixed x (inr i))
        (inl (put_same rdb j k w v (ap (λ p. p.0) (sym e)) (ap (λ p. p.1) (sym e))))

  active-copied :
      (rdb : RollingDb kv) (k : ℕ) (v : V) (writes : List (ℕ × V))
      → ((j : ℕ) (w : V) → In (j, w) writes → get_rolling kv rdb j ≡ some w)
      → In (k, v) writes ⊎ (kv.get rdb.active_layer.db k ≡ some v)
      → kv.get (write_batch kv rdb writes).active_layer.db k ≡ some v
  unfolding Fixed
  active-copied rdb k v writes sound (inl i) =
      active-write_batch rdb k v writes (λ w j. cc (sound k v i, sound k w j)) (inr i)
  active-copied rdb k v writes sound (inr a) =
      active-write_batch rdb k v writes (λ w j. cc (get_rolling-of_active rdb k v a, sound k w j))
        (inl a)

  compacted :
      (blocks_by_height : ℕ → List ExtendedBlock) (rdb : RollingDb kv) (height : ℕ)
      (source : DbLayer kv) (block : ExtendedBlock)
      → find_source height (reverse rdb.layers) ≡ some source
      → is_rolling_height kv settings source.tag.height ≡ true
      → first_finalized (blocks_by_height source.tag.height) ≡ some block
      → any (λ root. root == block.state_hash) source.tag.state_roots ≡ true
      → IsCompacted blocks_by_height rdb height block
  unfolding compact
  compacted blocks_by_height rdb height source block e f g h =
      let (i, old) = find_source-IsOld height (reverse rdb.layers) source e in
      let (j, final) = first_finalized-is_finalized (blocks_by_height source.tag.height) block g in
      record {
        source = source;
        is_layer = In-reverse rdb.layers source i;
        is_old = old;
        is_block = j;
        is_final = final;
        has_root =
            (let (root, there, same) =
                any-In (λ root. root == block.state_hash) source.tag.state_roots h in
              subst (λ x. In x source.tag.state_roots) (==→eq root block.state_hash same) there);
        are_newer =
            rw (e, f, g, h, compact)
              (remaining_layers-newer source.name
                (write_batch kv rdb
                  (settings.copy_state (get_rolling kv rdb) block.state_hash)).layers);
      }

  -- A compaction changes nothing, or there are a layer that is older than the retained blocks and
  -- ten more, on 64 bits, and a finalized block of the chain at the height of that layer's tag,
  -- whose state root the tag has: then every pair of the copied state of that block, and every
  -- pair of the active layer, is read afterwards, and only layers with larger names than that
  -- layer's are left. The hypothesis is that what is copied is what the database reads.
  pub compact-keeps :
      (blocks_by_height : ℕ → List ExtendedBlock) (rdb : RollingDb kv) (height : ℕ)
      → ((root k : ℕ) (v : V)
          → In (k, v) (settings.copy_state (get_rolling kv rdb) root)
          → get_rolling kv rdb k ≡ some v)
      → (compact blocks_by_height rdb height ≡ rdb)
        ⊎ ((block : ExtendedBlock) × IsCompacted blocks_by_height rdb height block
            × ((k : ℕ) (v : V)
                → In (k, v) (settings.copy_state (get_rolling kv rdb) block.state_hash)
                  ⊎ (kv.get rdb.active_layer.db k ≡ some v)
                → get_rolling kv (compact blocks_by_height rdb height) k ≡ some v))
  unfolding compact
  compact-keeps blocks_by_height rdb height sound =
      elim (Option-cases (find_source height (reverse rdb.layers))) [
        | inl e ↦ inl (rw (e, compact) refl)
        | inr (source, e) ↦ elim (Bool-cases (is_rolling_height kv settings source.tag.height)) [
          | inr f ↦ inl (rw (e, f, compact) refl)
          | inl f ↦ elim (Option-cases (first_finalized (blocks_by_height source.tag.height))) [
            | inl g ↦ inl (rw (e, f, g, compact) refl)
            | inr (block, g) ↦
                elim (Bool-cases (any (λ root. root == block.state_hash) source.tag.state_roots)) [
                  | inr h ↦ inl (rw (e, f, g, h, compact) refl)
                  | inl h ↦ inr (
                    block,
                    compacted blocks_by_height rdb height source block e f g h,
                    λ k v i.
                        let writes = settings.copy_state (get_rolling kv rdb) block.state_hash in
                        let copied = write_batch kv rdb writes in
                        let cut = record copied {
                          layers = remaining_layers source.name copied.layers;
                        } in
                        let is : compact blocks_by_height rdb height ≡ cut =
                          rw (e, f, g, h, compact) refl in
                        subst (λ x. get_rolling kv x k ≡ some v) (sym is)
                          (get_rolling-of_active cut k v
                            (active-copied rdb k v writes (λ j w. sound block.state_hash j w) i)),
                  )
                ]
          ]
        ]
      ]
