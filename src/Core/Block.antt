-- ===== src/Core/Block.antt =====
-- core/block.go: headers, blocks, their validation, and the status of a block in the chain. The RLP
-- codecs and the JSON forms are not modelled.
use theta_protocol_subchain.Core.Vote.{VoteSet}
use theta_protocol_subchain.Prelude.{
  ℕ, Bool, true, false, not, Option, none, some, List, [], ◌++◌, ◌==◌, if◌then◌else◌, is_some,
}
use theta_protocol_subchain.Core.Certificate.{CommitCertificate}

-- The header without its bloom filter. `hash` is what `Hash` returns: the cached hash. `timestamp` may be nil, and so may `signature`.
pub record BlockHeader : Type 0 where
  pub hash : ℕ
  pub chain_id : ℕ
  pub epoch : ℕ
  pub height : ℕ
  pub parent : ℕ
  pub hcc : CommitCertificate
  pub tx_hash : ℕ
  pub receipt_hash : ℕ
  pub state_hash : ℕ
  pub timestamp : Option ℕ
  pub proposer : ℕ
  pub signature : Option (List ℕ)

pub record Block : Type 0 where
  pub header : BlockHeader
  pub open header use *
  pub txs : List (List ℕ)

-- The RLP encoding of a header, the root of a trie of items, and the package `crypto`.
pub record HeaderCrypto : Type 0 where
  pub encode_header : BlockHeader → List ℕ
  pub calculate_root_hash : List (List ℕ) → ℕ
  pub is_empty_signature : List ℕ → Bool
  pub verify : List ℕ → List ℕ → ℕ → Bool

unfoldable pub update_tx_hash : HeaderCrypto → Block → Block
update_tx_hash c b = record b {
  header = record (b.header) {
    tx_hash = c.calculate_root_hash b.txs;
    receipt_hash = c.calculate_root_hash [];
  };
}

unfoldable pub add_txs : HeaderCrypto → Block → List (List ℕ) → Block
unfolding update_tx_hash
add_txs c b txs = update_tx_hash c (record b { txs = b.txs ++ txs })

-- The signature is taken out for the time of the encoding, which leaves the cached hash out.
unfoldable pub sign_bytes : HeaderCrypto → BlockHeader → List ℕ
sign_bytes c h = c.encode_header (record h { hash = 0; signature = none })

unfoldable pub set_signature : BlockHeader → Option (List ℕ) → BlockHeader
set_signature h sig = record h { signature = sig }

-- The tests of `Validate` on the signature.
unfoldable pub check_signature : HeaderCrypto → BlockHeader → Bool
unfolding sign_bytes
check_signature c h = elim h.signature [
  | none ↦ false
  | some sig ↦ if c.is_empty_signature sig then false else c.verify sig (sign_bytes c h) h.proposer
]

-- `Validate` of a header is `true` where the result is OK.
unfoldable pub validate_header : HeaderCrypto → ℕ → BlockHeader → Bool
unfolding check_signature
validate_header c chain_id h =
    if not (chain_id == h.chain_id)
    then false
    else if h.parent == 0
    then false
    else if h.hcc.block_hash == 0
    then false
    else if not (is_some h.timestamp)
    then false
    else if h.proposer == 0
    then false
    else check_signature c h

unfoldable pub validate_block : HeaderCrypto → ℕ → Block → Bool
unfolding validate_header
validate_block c chain_id b =
    if validate_header c chain_id b.header then b.tx_hash == c.calculate_root_hash b.txs else false

pub data BlockStatus : Type 0 where
  pending valid invalid committed directly_finalized indirectly_finalized trusted disposed :
      BlockStatus

unfoldable pub is_pending : BlockStatus → Bool
is_pending pending = true
is_pending _ = false

unfoldable pub is_committed : BlockStatus → Bool
is_committed committed = true
is_committed _ = false

unfoldable pub is_finalized : BlockStatus → Bool
is_finalized directly_finalized = true
is_finalized indirectly_finalized = true
is_finalized trusted = true
is_finalized _ = false

unfoldable pub is_directly_finalized : BlockStatus → Bool
is_directly_finalized directly_finalized = true
is_directly_finalized _ = false

unfoldable pub is_indirectly_finalized : BlockStatus → Bool
is_indirectly_finalized indirectly_finalized = true
is_indirectly_finalized _ = false

unfoldable pub is_trusted : BlockStatus → Bool
is_trusted trusted = true
is_trusted _ = false

unfoldable pub is_invalid : BlockStatus → Bool
is_invalid invalid = true
is_invalid disposed = true
is_invalid _ = false

unfoldable pub is_valid : BlockStatus → Bool
is_valid pending = false
is_valid invalid = false
is_valid disposed = false
is_valid _ = true

unfoldable pub is_disposed : BlockStatus → Bool
is_disposed disposed = true
is_disposed _ = false

pub record ExtendedBlock : Type 0 where
  pub block : Block
  pub open block use *
  pub children : List ℕ
  pub status : BlockStatus
  pub has_validator_update : Bool

-- core/vote.go `Proposal`; both pointers may be nil.
pub record Proposal : Type 0 where
  pub block : Option Block
  pub proposer_id : ℕ
  pub votes : Option VoteSet
