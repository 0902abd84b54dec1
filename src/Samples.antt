-- ===== src/Samples.antt =====
-- Validators, votes, blocks and a chain on which the tests run.
use theta_protocol_subchain.Consensus.Engine.{Env, Engine, applied}
use theta_protocol_subchain.Consensus.State.{State, no_vote, no_proposal}
use theta_protocol_subchain.Prelude.{ℕ, Bool, true, false, none, some, List, [], ◌∷◌, ◌==◌}
use theta_protocol_subchain.Core.Validator.{Validator, ValidatorSet}
use theta_protocol_subchain.Core.Vote.{Crypto, Vote, VoteSet}
use theta_protocol_subchain.Core.Block.{
  BlockHeader, Block, ExtendedBlock, BlockStatus, valid, committed, directly_finalized, pending,
}
use theta_protocol_subchain.Chain.Store.{TxHashes, Chain}

-- A signature that is the address of the signer and what was signed.
abbrev pub verify_first : List ℕ → List ℕ → ℕ → Bool
verify_first [] _ _ = false
verify_first (signer ∷ signed) _ i = signer == i

abbrev pub no_bytes : List ℕ → Bool
no_bytes [] = true
no_bytes (_ ∷ _) = false

abbrev pub toy_crypto : Crypto
toy_crypto = record {
  encode_vote =
      λ block height mainchain_height epoch i. block ∷ height ∷ mainchain_height ∷ epoch ∷ i ∷ [];
  is_empty_signature = no_bytes;
  verify = verify_first;
}

abbrev pub staked : ℕ → ℕ → Validator
staked address stake = record { address = address; stake = stake }

abbrev pub four_validators : ValidatorSet
four_validators = record {
  dynasty = 1;
  validators = staked 10 100 ∷ staked 20 100 ∷ staked 30 100 ∷ staked 40 100 ∷ [];
}

abbrev pub vote_of : ℕ → ℕ → ℕ → Vote
vote_of i block epoch = record {
  block = block;
  height = 5;
  mainchain_height = 7;
  epoch = epoch;
  id = i;
  signature = some (i ∷ []);
}

abbrev pub votes_for_seven : VoteSet
votes_for_seven = record { votes = vote_of 30 7 3 ∷ vote_of 10 7 3 ∷ vote_of 20 7 3 ∷ [] }

abbrev pub votes_for_eight : VoteSet
votes_for_eight = record { votes = vote_of 20 8 4 ∷ vote_of 40 8 4 ∷ vote_of 10 8 4 ∷ [] }

-- Two votes of one voter, the older one last.
abbrev pub repeated_votes : VoteSet
repeated_votes = record { votes = vote_of 10 7 3 ∷ vote_of 20 7 3 ∷ vote_of 10 8 2 ∷ [] }

abbrev pub toy_hashes : TxHashes
toy_hashes = record { keccak256_hash = λ tx. 1000; calc_eth_tx_hash = λ block tx. none }

abbrev pub header_of : ℕ → ℕ → ℕ → BlockHeader
header_of hash height parent = record {
  hash = hash;
  chain_id = 1;
  epoch = height;
  height = height;
  parent = parent;
  hcc = record { votes = some (record { votes = [] }); block_hash = parent };
  tx_hash = 0;
  receipt_hash = 0;
  state_hash = 0;
  timestamp = some height;
  proposer = 10;
  signature = none;
}

abbrev pub block_of : ℕ → ℕ → ℕ → Block
block_of hash height parent = record {
  header = header_of hash height parent;
  txs = (hash ∷ []) ∷ [];
}

abbrev pub stored : ℕ → ℕ → ℕ → List ℕ → BlockStatus → ExtendedBlock
stored hash height parent children status = record {
  block = block_of hash height parent;
  children = children;
  status = status;
  has_validator_update = false;
}

abbrev pub block_1 : ExtendedBlock
block_1 = stored 1 0 9 (2 ∷ []) directly_finalized

abbrev pub block_2 : ExtendedBlock
block_2 = stored 2 1 1 (3 ∷ []) committed

abbrev pub block_3 : ExtendedBlock
block_3 = stored 3 2 2 [] valid

abbrev pub three_blocks : Chain
three_blocks = record {
  chain_id = 1;
  root = 1;
  blocks = (1, block_1) ∷ (2, block_2) ∷ (3, block_3) ∷ [];
  heights = (0, 1 ∷ []) ∷ (1, 2 ∷ []) ∷ (2, 3 ∷ []) ∷ [];
  votes = [];
  txs = [];
}

abbrev pub fourth : Block
fourth = block_of 4 3 3

abbrev pub new_fourth : ExtendedBlock
new_fourth = stored 4 3 3 [] pending

-- A node with the address 10, whose random generator draws 0.
abbrev pub toy_env : Env
toy_env = record {
  crypto = toy_crypto;
  hashes = toy_hashes;
  address = 10;
  sign = λ bytes. 10 ∷ bytes;
  rand = record { int63n = λ epoch n. 0; next_uint64 = λ epoch i. 0 };
  rand_fuel = 1;
  big_max_uint32 = 4294967295;
  finalized_validator_set = λ hash is_next. some four_validators;
  reset_state = λ block. true;
  apply_block_txs = λ parent block. applied false;
  mainchain_height = some 7;
  now = 10;
  capacity = 1;
  tip_fuel = 10;
}

abbrev pub fresh_state : State
fresh_state = record {
  root = 1;
  highest_cc_block = 2;
  last_finalized_block = 1;
  last_proposal = no_proposal;
  last_vote = no_vote;
  epoch = 3;
  stub = some (record {
    root = 1;
    highest_cc_block = 2;
    last_finalized_block = 1;
    last_proposal = no_proposal;
    last_vote = no_vote;
    epoch = 3;
  });
  epoch_votes = some (record { votes = vote_of 10 3 3 ∷ vote_of 20 3 3 ∷ [] });
}

abbrev pub votes_for_three : VoteSet
votes_for_three = record { votes = vote_of 30 3 3 ∷ vote_of 10 3 3 ∷ vote_of 20 3 3 ∷ [] }

-- The second block is the highest certified one, and the third has its votes.
abbrev pub toy_engine : Engine
toy_engine = record {
  chain = record three_blocks { votes = (3, votes_for_three) ∷ [] };
  state = fresh_state;
  has_synced = true;
  stopped = false;
  vote_timer_ready = true;
  block_processed = false;
  finalized_blocks = [];
  sent = [];
  proposed = [];
  outgoing = [];
}
