-- ===== src/Store/Tests.antt =====
-- A database of three layers over the association lists.
use theta_protocol_subchain.Prelude.Dict.{lookup, insert}
use theta_protocol_subchain.Prelude.{
  ℕ, ◌≡◌, refl, ◌⊎◌, inl, inr, false, Option, none, some, List, [], ◌∷◌, ◌==◌, In, ap, filter, any,
  sym,
}
use theta_protocol_subchain.Samples.{stored}
use theta_protocol_subchain.Core.Block.{ExtendedBlock, directly_finalized}
use theta_protocol_subchain.Store.KeyValue.{in_memory}
use theta_protocol_subchain.Store.Rolling.{
  LayerTag, Settings, DbLayer, RollingDb, no_tag, load_tag, get_rolling, has_rolling,
}
use theta_protocol_subchain.Store.Refinement.{
  Operation, put_key, delete_key, tag_root, spec, run, run-refines, has_rolling-active,
}
use theta_protocol_subchain.Store.Compaction.{compact, IsCompacted, compact-keeps}

-- A tag is its height before its roots.
abbrev toy_decode : List ℕ → Option LayerTag
toy_decode [] = none
toy_decode (h ∷ roots) = some (record { height = h; state_roots = roots })

abbrev one_pair : ℕ → Option (List ℕ) → List (ℕ × List ℕ)
one_pair root none = []
one_pair root (some v) = (root, v) ∷ []

abbrev toy_copy : (ℕ → Option (List ℕ)) → ℕ → List (ℕ × List ℕ)
toy_copy read root = one_pair root (read root)

abbrev toy_settings : Settings (List ℕ)
toy_settings = record {
  layer_tag_key = 0;
  encode_tag = λ t. t.height ∷ t.state_roots;
  decode_tag = toy_decode;
  rolling_interval = 100;
  retained_blocks = 100;
  copy_state = toy_copy;
}

abbrev layer : ℕ → LayerTag → List (ℕ × List ℕ) → DbLayer (in_memory (List ℕ))
layer name tag db = record { name = name; tag = tag; db = db }

-- The key 7 is a state root in the old layer, and the key 8 is in the root layer.
abbrev three_layers : RollingDb (in_memory (List ℕ))
three_layers = record {
  root_layer = layer 0 no_tag ((8, 80 ∷ []) ∷ []);
  layers =
      layer 1 (record { height = 50; state_roots = 7 ∷ [] }) ((0, 50 ∷ 7 ∷ []) ∷ (7, 70 ∷ []) ∷ [])
      ∷ [];
  active_layer = layer 2 no_tag [];
}

toy_codec : (t : LayerTag) → toy_decode (t.height ∷ t.state_roots) ≡ some t
toy_codec t = refl

toy_readable : load_tag (in_memory (List ℕ)) toy_settings three_layers.active_layer ≡ some no_tag
unfolding load_tag lookup
toy_readable = refl

abbrev toy_operations : List (Operation (List ℕ))
toy_operations = put_key 9 (90 ∷ []) ∷ tag_root 150 9 ∷ delete_key 8 ∷ put_key 7 (71 ∷ []) ∷ []

run-refines_example :
    (last : RollingDb (in_memory (List ℕ))) × (run
        (in_memory (List ℕ))
        toy_settings
        three_layers
        toy_operations
      ≡ some last)
    × ((j : ℕ)
        → (0 == j) ≡ false
        → get_rolling (in_memory (List ℕ)) last j
          ≡ spec toy_operations (get_rolling (in_memory (List ℕ)) three_layers) j)
run-refines_example =
    run-refines (in_memory (List ℕ)) toy_settings toy_codec three_layers toy_operations
      (no_tag, toy_readable) (refl, (tt, (refl, (refl, tt))))

old_key : get_rolling (in_memory (List ℕ)) three_layers 7 ≡ some (70 ∷ [])
unfolding get_rolling lookup
old_key = refl

has_rolling-active_example : has_rolling (in_memory (List ℕ)) three_layers 7 ≡ some false
unfolding lookup
has_rolling-active_example =
    has_rolling-active (in_memory (List ℕ)) toy_settings three_layers 7 (70 ∷ []) refl old_key

-- The block of the height 50 left the state 7.
abbrev block_50 : ExtendedBlock
block_50 =
    let b = stored 50 50 1 [] directly_finalized in
    record b { block = record b.block { header = record b.block.header { state_hash = 7 } } }

one_pair-In :
    (root k : ℕ) (v : List ℕ) (o : Option (List ℕ))
    → In (k, v) (one_pair root o)
    → (k ≡ root) × (o ≡ some v)
one_pair-In root k v none i = absurd i
one_pair-In root k v (some w) (inr never) = absurd never
one_pair-In root k v (some w) (inl e) = (ap (λ p. p.0) e, ap (λ p. some p.1) (sym e))

toy_copy_sound :
    (root k : ℕ) (v : List ℕ)
    → In (k, v) (toy_copy (get_rolling (in_memory (List ℕ)) three_layers) root)
    → get_rolling (in_memory (List ℕ)) three_layers k ≡ some v
toy_copy_sound root k v i =
    let (same, there) =
      one_pair-In root k v (get_rolling (in_memory (List ℕ)) three_layers root) i in
    rw same there

compact-keeps_example :
    (compact (in_memory (List ℕ)) toy_settings (λ h. block_50 ∷ []) three_layers 270 ≡ three_layers)
    ⊎ ((block : ExtendedBlock) × IsCompacted
          (in_memory (List ℕ))
          toy_settings
          (λ h. block_50 ∷ [])
          three_layers
          270
          block
        × ((k : ℕ) (v : List ℕ)
            → In (k, v) (toy_copy (get_rolling (in_memory (List ℕ)) three_layers) block.state_hash)
              ⊎ (◌≡◌ {A = Option (List ℕ)} none (some v))
            → get_rolling
                (in_memory (List ℕ))
                (compact (in_memory (List ℕ)) toy_settings (λ h. block_50 ∷ []) three_layers 270)
                k
              ≡ some v))
unfolding lookup
compact-keeps_example =
    compact-keeps (in_memory (List ℕ)) toy_settings (λ h. block_50 ∷ []) three_layers 270
      toy_copy_sound

-- The compaction drops the old layer, and the state is still read.
compacted :
    (compact (in_memory (List ℕ)) toy_settings (λ h. block_50 ∷ []) three_layers 270).layers ≡ []
unfolding compact lookup insert filter any
compacted = refl
