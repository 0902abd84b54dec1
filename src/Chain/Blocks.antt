-- ===== src/Chain/Blocks.antt =====
-- blockchain/chain.go: how blocks enter the chain, and how their states change.
use theta_protocol_subchain.Prelude.{
  ℕ, zero, suc, ◌+◌, ◌%◌, ◌^◌, Bool, true, false, not, ◌&&◌, Option, none, some, List, [], ◌∷◌,
  ◌++◌, ◌==◌, if◌then◌else◌, is_some, length,
}
use theta_protocol_subchain.Core.Block.{
  Block, ExtendedBlock, BlockStatus, pending, valid, invalid, committed, directly_finalized,
  indirectly_finalized, is_finalized, is_disposed,
}
use theta_protocol_subchain.Chain.Store.{
  TxHashes, Chain, find_block, save_block, add_block_by_height_index, find_blocks_by_height,
  add_txs_to_index,
}

-- What `addBlock` returns: the new block, or an error, with the stored block where there is one.
pub data AddResult : Type 0 where
  added : ExtendedBlock → AddResult
  already_added : ExtendedBlock → AddResult
  chain_id_mismatch : AddResult

-- The update of the parent in `addBlock`.
unfoldable pub link_parent : Chain → Block → Bool → Chain
unfolding find_block save_block
link_parent ch block is_snapshot_root =
    if not (block.parent == 0) && not is_snapshot_root
    then elim (find_block ch block.parent) [
      | none ↦ ch
      | some pb ↦ save_block ch (record pb { children = pb.children ++ block.hash ∷ [] })
    ]
    else ch

-- The loop of `addBlock` over the blocks of the next height.
unfoldable pub collect_children : ℕ → List ExtendedBlock → List ℕ
collect_children hash [] = []
collect_children hash (eb ∷ ebs) =
    let rest = collect_children hash ebs in if eb.parent == hash then eb.hash ∷ rest else rest

unfoldable pub add_block_as : TxHashes → Chain → Block → Bool → Chain × AddResult
unfolding find_block save_block link_parent collect_children find_blocks_by_height
    add_block_by_height_index add_txs_to_index
add_block_as t ch block is_snapshot_root =
    if not (block.chain_id == ch.chain_id)
    then (ch, chain_id_mismatch)
    else elim (find_block ch block.hash) [
      | some val ↦ (ch, already_added val)
      | none ↦
          let linked = link_parent ch block is_snapshot_root in
          let eb : ExtendedBlock = record {
            block = block;
            children =
                collect_children block.hash
                  (find_blocks_by_height linked ((block.height + 1) % 2 ^ 64));
            status = pending;
            has_validator_update = false;
          } in
          let saved = save_block linked eb in
          let indexed = add_block_by_height_index saved eb.height eb.hash in
          (add_txs_to_index t indexed eb false, added eb)
    ]

unfoldable pub add_block : TxHashes → Chain → Block → Chain × AddResult
unfolding add_block_as
add_block t ch block = add_block_as t ch block false

unfoldable pub add_snapshot_root : TxHashes → Chain → Block → Chain × AddResult
unfolding add_block_as
add_snapshot_root t ch block = add_block_as t ch block true

unfoldable pub fix_block_index : TxHashes → Chain → ExtendedBlock → Chain
unfolding add_block_by_height_index add_txs_to_index
fix_block_index t ch eb =
    add_txs_to_index t (add_block_by_height_index ch eb.height eb.hash) eb false

-- The loop of `FixMissingChildren`.
unfoldable pub present_children : Chain → List ℕ → List ℕ
unfolding find_block
present_children ch [] = []
present_children ch (h ∷ hs) =
    let rest = present_children ch hs in if is_some (find_block ch h) then h ∷ rest else rest

unfoldable pub fix_missing_children : Chain → ExtendedBlock → Chain
unfolding present_children save_block
fix_missing_children ch eb =
    save_block ch (record eb { children = present_children ch eb.children })

-- A change to a stored block; `none` is the panic on a block that is not there.
unfoldable pub mark_block : Chain → ℕ → (ExtendedBlock → ExtendedBlock) → Option Chain
unfolding find_block save_block
mark_block ch hash change = elim (find_block ch hash) [
  | none ↦ none
  | some eb ↦ some (save_block ch (change eb))
]

abbrev pub with_status : BlockStatus → ExtendedBlock → ExtendedBlock
with_status s eb = record eb { status = s }

unfoldable pub mark_block_valid : Chain → ℕ → Option Chain
unfolding mark_block
mark_block_valid ch hash = mark_block ch hash (with_status valid)

unfoldable pub mark_block_invalid : Chain → ℕ → Option Chain
unfolding mark_block
mark_block_invalid ch hash = mark_block ch hash (with_status invalid)

unfoldable pub mark_block_has_validator_update : Chain → ℕ → Option Chain
unfolding mark_block
mark_block_has_validator_update ch hash =
    mark_block ch hash (λ eb. record eb { has_validator_update = true })

unfoldable pub commit_block : Chain → ℕ → Option Chain
unfolding mark_block
commit_block ch hash = mark_block ch hash (with_status committed)

-- The loop of `FinalizePreviousBlocks`. The result is `none` if the fuel runs out; the Boolean is
-- `false` for the error on a disposed branch.
unfoldable pub finalize_from : TxHashes → ℕ → BlockStatus → Chain → ℕ → Option (Chain × Bool)
unfolding find_block save_block add_txs_to_index
finalize_from t zero status ch hash = none
finalize_from t (suc fuel) status ch hash = elim (hash == 0) [
  | true ↦ some (ch, true)
  | false ↦ elim (find_block ch hash) [
    | none ↦ some (ch, true)
    | some eb ↦ elim (is_finalized eb.status) [
      | true ↦ some (ch, true)
      | false ↦ elim (is_disposed eb.status) [
        | true ↦ some (ch, false)
        | false ↦
            let marked = with_status status eb in
            finalize_from t fuel indirectly_finalized
              (add_txs_to_index t (save_block ch marked) marked true) eb.parent
      ]
    ]
  ]
]

-- One more round than there are blocks.
unfoldable pub finalize_previous_blocks : TxHashes → Chain → ℕ → Option (Chain × Bool)
unfolding finalize_from
finalize_previous_blocks t ch hash =
    finalize_from t (suc (length ch.blocks)) directly_finalized ch hash

unfoldable pub is_orphan : Chain → Block → Bool
unfolding find_block
is_orphan ch block = not (is_some (find_block ch block.parent))

abbrev pub max_distance : ℕ
max_distance = 2000

-- The loop of `IsDescendant`, by the rounds left.
unfoldable pub is_descendant_within : ℕ → Chain → ℕ → ℕ → Bool
unfolding find_block
is_descendant_within zero ch ascendant hash = false
is_descendant_within (suc rounds) ch ascendant hash = elim (hash == ascendant) [
  | true ↦ true
  | false ↦ elim (find_block ch hash) [
    | none ↦ false
    | some eb ↦ is_descendant_within rounds ch ascendant eb.parent
  ]
]

unfoldable pub is_descendant : Chain → ℕ → ℕ → Bool
unfolding is_descendant_within
is_descendant ch ascendant descendant = is_descendant_within max_distance ch ascendant descendant
