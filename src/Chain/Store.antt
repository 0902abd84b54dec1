-- ===== src/Chain/Store.antt =====
-- The store of blockchain/chain.go, and its indices in blockchain/vote.go and blockchain/tx.go. Writes
-- succeed, and reads fail only on a missing key.
use theta_protocol_subchain.Prelude.{
  ℕ, ◌+◌, Bool, true, false, not, ◌&&◌, Option, none, some, List, [], ◌∷◌, ◌++◌, ◌==◌,
  if◌then◌else◌, is_some,
}
use theta_protocol_subchain.Prelude.Dict.{Dict, lookup, insert, erase}
use theta_protocol_subchain.Core.Vote.{Vote, VoteSet, new_vote_set, add_vote}
use theta_protocol_subchain.Core.Block.{Block, ExtendedBlock}

pub record TxIndexEntry : Type 0 where
  pub block_hash : ℕ
  pub block_height : ℕ
  pub index : ℕ

-- `crypto.Keccak256Hash`, and `CalcEthTxHash`, which fails on all but some smart contract calls.
pub record TxHashes : Type 0 where
  pub keccak256_hash : List ℕ → ℕ
  pub calc_eth_tx_hash : Block → List ℕ → Option ℕ

-- The store by the kind of its keys: blocks by hash, hashes by height ("bh/"), vote sets by block
-- hash ("vt/"), index entries by transaction hash ("tx/").
pub record Chain : Type 0 where
  pub chain_id : ℕ
  pub root : ℕ
  pub blocks : Dict ExtendedBlock
  pub heights : Dict (List ℕ)
  pub votes : Dict VoteSet
  pub txs : Dict TxIndexEntry

unfoldable pub find_block : Chain → ℕ → Option ExtendedBlock
find_block ch hash = lookup hash ch.blocks

unfoldable pub save_block : Chain → ExtendedBlock → Chain
save_block ch eb = record ch { blocks = insert eb.hash eb ch.blocks }

unfoldable pub contains_hash : ℕ → List ℕ → Bool
contains_hash h [] = false
contains_hash h (b ∷ bs) = if h == b then true else contains_hash h bs

-- The entry of a height, empty if there is none.
unfoldable pub blocks_at : Chain → ℕ → List ℕ
blocks_at ch height = elim (lookup height ch.heights) [ none ↦ [] | some hashes ↦ hashes ]

unfoldable pub add_block_by_height_index : Chain → ℕ → ℕ → Chain
unfolding contains_hash blocks_at
add_block_by_height_index ch height hash =
    let hashes = blocks_at ch height in
    if contains_hash hash hashes
    then ch
    else record ch { heights = insert height (hashes ++ hash ∷ []) ch.heights }

-- The loop of `findBlocksByHeight`.
unfoldable pub find_all : Chain → List ℕ → List ExtendedBlock
unfolding find_block
find_all ch [] = []
find_all ch (h ∷ hs) =
    let rest = find_all ch hs in elim (find_block ch h) [ none ↦ rest | some b ↦ b ∷ rest ]

unfoldable pub find_blocks_by_height : Chain → ℕ → List ExtendedBlock
unfolding find_all blocks_at
find_blocks_by_height ch height = find_all ch (blocks_at ch height)

unfoldable pub insert_eth_tx_hash : TxHashes → Chain → Block → List ℕ → TxIndexEntry → Chain
insert_eth_tx_hash t ch block tx entry = elim (t.calc_eth_tx_hash block tx) [
  | none ↦ ch
  | some hash ↦ record ch { txs = insert hash entry ch.txs }
]

-- One round of `AddTxsToIndex`.
unfoldable pub add_tx_to_index : TxHashes → Bool → Block → Chain → ℕ → List ℕ → Chain
unfolding insert_eth_tx_hash
add_tx_to_index t force block ch idx tx =
    let entry : TxIndexEntry = record {
      block_hash = block.hash;
      block_height = block.height;
      index = idx;
    } in
    let hash = t.keccak256_hash tx in
    if not force && is_some (lookup hash ch.txs)
    then ch
    else insert_eth_tx_hash t (record ch { txs = insert hash entry ch.txs }) block tx entry

unfoldable pub add_txs_from : TxHashes → Bool → Block → Chain → ℕ → List (List ℕ) → Chain
unfolding add_tx_to_index
add_txs_from t force block ch idx [] = ch
add_txs_from t force block ch idx (tx ∷ rest) =
    add_txs_from t force block (add_tx_to_index t force block ch idx tx) (idx + 1) rest

unfoldable pub add_txs_to_index : TxHashes → Chain → ExtendedBlock → Bool → Chain
unfolding add_txs_from
add_txs_to_index t ch eb force = add_txs_from t force eb.block ch 0 eb.block.txs

unfoldable pub add_vote_to_index : Chain → Vote → Chain
unfolding add_vote new_vote_set
add_vote_to_index ch vote =
    if vote.block == 0
    then ch
    else let before : VoteSet = elim (lookup vote.block ch.votes) [
      | none ↦ new_vote_set
      | some s ↦ s
    ] in
      record ch { votes = insert vote.block (add_vote before vote) ch.votes }

unfoldable pub find_votes_by_hash : Chain → ℕ → VoteSet
unfolding new_vote_set
find_votes_by_hash ch hash = elim (lookup hash ch.votes) [ none ↦ new_vote_set | some s ↦ s ]

unfoldable pub remove_votes_by_hash : Chain → ℕ → Chain
remove_votes_by_hash ch hash = record ch { votes = erase hash ch.votes }
