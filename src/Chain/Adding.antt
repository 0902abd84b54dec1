-- ===== src/Chain/Adding.antt =====
-- blockchain/chain.go `addBlock`: what it stores.
use theta_protocol_subchain.Prelude.{
  ℕ, ◌+◌, ◌%◌, ◌^◌, ◌≡◌, refl, sym, ap, ◌∙◌, ◌≢◌, ◌⊎◌, inl, inr, Bool, true, false, Option, none,
  some, List, [], ◌∷◌, ◌++◌, arith, ◌==◌, if◌then◌else◌, ==→eq, Bool-cases, Option-cases, if_true,
  if_false, some_inj,
}
use theta_protocol_subchain.Chain.Rounds.{IsKeyed, find_block-save_block, blocks-add_txs_to_index}
use theta_protocol_subchain.Prelude.Dict.{lookup, Dict}
use theta_protocol_subchain.Core.Block.{Block, ExtendedBlock, pending}
use theta_protocol_subchain.Chain.Store.{
  TxHashes, Chain, find_block, save_block, add_block_by_height_index, find_blocks_by_height,
  insert_eth_tx_hash, add_tx_to_index, add_txs_from, add_txs_to_index,
}
use theta_protocol_subchain.Chain.Blocks.{
  AddResult, added, already_added, chain_id_mismatch, link_parent, collect_children, add_block_as,
}

chain_id-add_txs_from :
    (t : TxHashes) (force : Bool) (b : Block) (ch : Chain) (idx : ℕ) (txs : List (List ℕ))
    → (add_txs_from t force b ch idx txs).chain_id ≡ ch.chain_id
unfolding add_txs_from
chain_id-add_txs_from t force b ch idx [] = refl
chain_id-add_txs_from t force b ch idx (tx ∷ txs) =
    chain_id-add_txs_from t force b (add_tx_to_index t force b ch idx tx) (idx + 1) txs ∙ one
  where
    one : (add_tx_to_index t force b ch idx tx).chain_id ≡ ch.chain_id
    one = unfold add_tx_to_index insert_eth_tx_hash in ground arith

blocks-add_block_by_height_index :
    (ch : Chain) (height hash : ℕ)
    → ((add_block_by_height_index ch height hash).blocks ≡ ch.blocks)
      × ((add_block_by_height_index ch height hash).chain_id ≡ ch.chain_id)
unfolding add_block_by_height_index
blocks-add_block_by_height_index ch height hash = ground arith

chain_id-link_parent :
    (ch : Chain) (block : Block) (root : Bool) → (link_parent ch block root).chain_id ≡ ch.chain_id
unfolding link_parent save_block
chain_id-link_parent ch block root = ground arith

-- The chain and the block of a successful call.
new_block : Chain → Block → Bool → ExtendedBlock
new_block ch block root = record {
  block = block;
  children =
      collect_children block.hash
        (find_blocks_by_height (link_parent ch block root) ((block.height + 1) % 2 ^ 64));
  status = pending;
  has_validator_update = false;
}

indexed_chain : TxHashes → Chain → Block → Bool → Chain
indexed_chain t ch block root =
    let eb = new_block ch block root in
    add_txs_to_index t
      (add_block_by_height_index (save_block (link_parent ch block root) eb) eb.height eb.hash) eb
      false

add_block_as_cases :
    (t : TxHashes) (ch : Chain) (block : Block) (root : Bool)
    → ((¬ (block.chain_id ≡ ch.chain_id))
        × ◌≡◌ {A = Chain × AddResult} (add_block_as t ch block root) (ch, chain_id_mismatch))
      ⊎ ((eb : ExtendedBlock) × (block.chain_id ≡ ch.chain_id)
          × (find_block ch block.hash ≡ some eb)
          × ◌≡◌ {A = Chain × AddResult} (add_block_as t ch block root) (ch, already_added eb))
      ⊎ ((block.chain_id ≡ ch.chain_id)
          × (find_block ch block.hash ≡ none)
          × ◌≡◌ {A = Chain × AddResult}
              (add_block_as t ch block root)
              (indexed_chain t ch block root, added (new_block ch block root)))
unfolding add_block_as indexed_chain new_block
add_block_as_cases t ch block root = elim (Bool-cases (block.chain_id == ch.chain_id)) [
  | inr other ↦ inl (ground arith, ground arith)
  | inl same ↦ elim (Option-cases (find_block ch block.hash)) [
    | inr (eb, found) ↦ inr (inl (eb, ==→eq _ _ same, found, rw (same, found) refl))
    | inl missing ↦ inr (inr (==→eq _ _ same, missing, rw (same, missing) refl))
  ]
]

blocks-indexed_chain :
    (t : TxHashes) (ch : Chain) (block : Block) (root : Bool)
    → (indexed_chain t ch block root).blocks
      ≡ (save_block (link_parent ch block root) (new_block ch block root)).blocks
unfolding indexed_chain
blocks-indexed_chain t ch block root =
    let eb = new_block ch block root in
    let saved = save_block (link_parent ch block root) eb in
    blocks-add_txs_to_index t (add_block_by_height_index saved eb.height eb.hash) eb false
    ∙ (blocks-add_block_by_height_index saved eb.height eb.hash).0

chain_id-indexed_chain :
    (t : TxHashes) (ch : Chain) (block : Block) (root : Bool)
    → (indexed_chain t ch block root).chain_id ≡ ch.chain_id
unfolding indexed_chain add_txs_to_index save_block
chain_id-indexed_chain t ch block root =
    let eb = new_block ch block root in
    let saved = save_block (link_parent ch block root) eb in
    chain_id-add_txs_from t false eb.block (add_block_by_height_index saved eb.height eb.hash) 0
      eb.block.txs
    ∙ (blocks-add_block_by_height_index saved eb.height eb.hash).1
    ∙ chain_id-link_parent ch block root

find_block-indexed_chain :
    (t : TxHashes) (ch : Chain) (block : Block) (root : Bool) (h : ℕ)
    → find_block (indexed_chain t ch block root) h ≡ (
        if block.hash == h
        then some (new_block ch block root)
        else find_block (link_parent ch block root) h)
unfolding new_block find_block
find_block-indexed_chain t ch block root h =
    ap (λ (d : Dict ExtendedBlock). lookup h d) (blocks-indexed_chain t ch block root)
    ∙ find_block-save_block (link_parent ch block root) (new_block ch block root) h

==_refl : (n : ℕ) → (n == n) ≡ true
==_refl n = ground arith

-- What a stored block may look like after another one was added: as before, or with that one as one more child.
abbrev pub Linked : Block → Bool → ExtendedBlock → ExtendedBlock → Type 0
Linked block root eb eb' =
    ((root ≡ true) ⊎ (block.parent ≢ eb.hash) ⊎ (block.parent ≡ 0)) × (eb' ≡ eb)
    ⊎ (root ≡ false)
      × (block.parent ≡ eb.hash)
      × (block.parent ≢ 0)
      × (eb' ≡ record eb { children = eb.children ++ block.hash ∷ [] })

-- The update of the parent of a block that is not a snapshot root and has a parent.
linked_parent : Block → ExtendedBlock → ExtendedBlock
linked_parent block pb = record pb { children = pb.children ++ block.hash ∷ [] }

link_parent_cases :
    (ch : Chain) (block : Block) (root : Bool)
    → root ≡ false
    → (block.parent == 0) ≡ false
    → ((find_block ch block.parent ≡ none) × (link_parent ch block root ≡ ch))
      ⊎ ((pb : ExtendedBlock) × (find_block ch block.parent ≡ some pb)
          × (link_parent ch block root ≡ save_block ch (linked_parent block pb)))
unfolding link_parent linked_parent
link_parent_cases ch block root plain given = elim (Option-cases (find_block ch block.parent)) [
  | inl missing ↦ inl (missing, rw (plain, given, missing) refl)
  | inr (pb, found) ↦ inr (pb, found, rw (plain, given, found) refl)
]

find_block-link_parent :
    (ch : Chain) (block : Block) (root : Bool) (h : ℕ) (eb : ExtendedBlock)
    → IsKeyed ch
    → find_block ch h ≡ some eb
    → (eb' : ExtendedBlock) × (find_block (link_parent ch block root) h ≡ some eb')
      × Linked block root eb eb'
unfolding link_parent linked_parent
find_block-link_parent ch block root h eb keyed e = elim (Bool-cases root) [
  | inl snapshot ↦ (eb, ground arith, inl (inl snapshot, refl))
  | inr plain ↦ elim (Bool-cases (block.parent == 0)) [
    | inl none_ ↦ (eb, ground arith, inl (inr (inr (==→eq _ _ none_)), refl))
    | inr given ↦ elim (Bool-cases (block.parent == eb.hash)) [
      | inr other ↦ (
        eb,
        elim (link_parent_cases ch block root plain given) [
          | inl (_, same) ↦ rw same e
          | inr (pb, found, same) ↦ rw same (
              ground (
                arith,
                find_block-save_block ch (linked_parent block pb) h,
                keyed h eb e,
                keyed block.parent pb found,
              ))
        ],
        inl (inr (inl (ground arith)), refl),
      )
      | inl child ↦ (
        record eb { children = eb.children ++ block.hash ∷ [] },
        elim (link_parent_cases ch block root plain given) [
          | inl (missing, same) ↦ absurd (cc (missing, e, keyed h eb e, ==→eq _ _ child))
          | inr (pb, found, same) ↦ rw same (
              ground (
                arith,
                find_block-save_block ch (linked_parent block pb) h,
                keyed h eb e,
                keyed block.parent pb found,
              ))
        ],
        inr (plain, ==→eq _ _ child, ground arith, refl),
      )
    ]
  ]
]

added_inv :
    (t : TxHashes) (ch ch' : Chain) (block : Block) (root : Bool) (eb : ExtendedBlock)
    → ◌≡◌ {A = Chain × AddResult} (add_block_as t ch block root) (ch', added eb)
    → (block.chain_id ≡ ch.chain_id)
      × (find_block ch block.hash ≡ none)
      × (ch' ≡ indexed_chain t ch block root)
      × (eb ≡ new_block ch block root)
added_inv t ch ch' block root eb ran = elim (add_block_as_cases t ch block root) [
  | inl (_, e) ↦ absurd (cc (ran, e))
  | inr (inl (_, _, _, e)) ↦ absurd (cc (ran, e))
  | inr (inr (same, missing, e)) ↦ (same, missing, cc (ran, e), cc (ran, e))
]

-- How the block at a hash is before and after a block was added: it is that block, none, or the one
-- from before, with one more child if it is the parent.
abbrev pub IsKept : Block → Bool → ℕ → Option ExtendedBlock → Option ExtendedBlock → Type 0
IsKept block root h before after =
    (block.hash ≡ h)
    ⊎ ((before ≡ none) × (after ≡ none))
    ⊎ ((old : ExtendedBlock) × (new : ExtendedBlock) × (before ≡ some old)
        × (after ≡ some new)
        × Linked block root old new)

find_block-link_parent-none :
    (ch : Chain) (block : Block) (root : Bool) (h : ℕ)
    → IsKeyed ch
    → find_block ch h ≡ none
    → find_block (link_parent ch block root) h ≡ none
unfolding link_parent linked_parent
find_block-link_parent-none ch block root h keyed gone = elim (Bool-cases root) [
  | inl snapshot ↦ ground arith
  | inr plain ↦ elim (Bool-cases (block.parent == 0)) [
    | inl none_ ↦ ground arith
    | inr given ↦ elim (link_parent_cases ch block root plain given) [
      | inl (_, same) ↦ rw same gone
      | inr (pb, found, same) ↦ elim (Bool-cases (pb.hash == h)) [
        | inl here ↦
            let at : block.parent ≡ pb.hash = sym (keyed block.parent pb found) in
            absurd (cc (gone, found, at, ==→eq pb.hash h here))
        | inr other ↦
            rw same
              (find_block-save_block ch (linked_parent block pb) h ∙ if_false _ _ other ∙ gone)
      ]
    ]
  ]
]

-- On a chain whose blocks stand at their own hashes, an added block is stored, pending, under its
-- hash as it is returned. At any other hash no block is lost or appears, and only the parent of
-- the added block changes, by having it as one more child, unless the block is a snapshot root.
pub add_block_as_added :
    (t : TxHashes) (ch ch' : Chain) (block : Block) (root : Bool) (eb : ExtendedBlock)
    → ◌≡◌ {A = Chain × AddResult} (add_block_as t ch block root) (ch', added eb)
    → IsKeyed ch
    → (eb.block ≡ block)
      × (eb.status ≡ pending)
      × (find_block ch' block.hash ≡ some eb)
      × ((h : ℕ) → IsKept block root h (find_block ch h) (find_block ch' h))
add_block_as_added t ch ch' block root eb ran keyed =
    let (same, missing, chain, block_) = added_inv t ch ch' block root eb ran in
    let here : find_block (indexed_chain t ch block root) block.hash
        ≡ some (new_block ch block root) =
      find_block-indexed_chain t ch block root block.hash ∙ if_true _ _ (==_refl block.hash) in
    rw (chain, block_)
      (
        unfold new_block in refl,
        unfold new_block in refl,
        here,
        λ h. elim (Bool-cases (block.hash == h)) [
          | inl it ↦ inl (==→eq block.hash h it)
          | inr fresh ↦
              let later = find_block-indexed_chain t ch block root h ∙ if_false _ _ fresh in
              elim (Option-cases (find_block ch h)) [
                | inl gone ↦
                    inr (inl (gone, later ∙ find_block-link_parent-none ch block root h keyed gone))
                | inr (old, found) ↦
                    let (new, kept, linked) =
                      find_block-link_parent ch block root h old keyed found in
                    inr (inr (old, new, found, later ∙ kept, linked))
              ]
        ],
      )

-- Adding a block a second time changes nothing, and returns the block that the first call stored.
add_block_as_twice :
    (t : TxHashes) (ch ch' : Chain) (block : Block) (root root' : Bool) (eb : ExtendedBlock)
    → ◌≡◌ {A = Chain × AddResult} (add_block_as t ch block root) (ch', added eb)
    → ◌≡◌ {A = Chain × AddResult} (add_block_as t ch' block root') (ch', already_added eb)
add_block_as_twice t ch ch' block root root' eb ran =
    let (same, missing, chain, block_) = added_inv t ch ch' block root eb ran in
    let here : find_block ch' block.hash ≡ some eb =
      rw (chain, block_)
        (find_block-indexed_chain t ch block root block.hash ∙ if_true _ _ (==_refl block.hash)) in
    elim (add_block_as_cases t ch' block root') [
      | inl (other, e) ↦ absurd (
          other (
            same
            ∙ sym (ap (λ (c : Chain). c.chain_id) chain ∙ chain_id-indexed_chain t ch block root)))
      | inr (inl (w, _, stored, e)) ↦
          e ∙ ap (λ (x : ExtendedBlock). (ch', already_added x)) (some_inj (sym stored ∙ here))
      | inr (inr (_, gone, e)) ↦ absurd (cc (gone, here))
    ]
