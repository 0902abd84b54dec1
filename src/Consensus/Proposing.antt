-- ===== src/Consensus/Proposing.antt =====
-- consensus/engine.go: the proposal of a block. A panic or a fatal log is `none`.
pub mod Soundness
pub mod Restarting
mod Tests
use theta_protocol_subchain.Prelude.{
  ℕ, ◌+◌, ◌/◌, ◌^◌, Bool, true, false, ◌&&◌, Option, none, some, List, [], ◌∷◌, ◌++◌, ltb, leb,
  ◌==◌, if◌then◌else◌, ◌>>=◌,
}
use theta_protocol_subchain.Core.Validator.{ValidatorSet}
use theta_protocol_subchain.Core.Vote.{
  Vote, VoteSet, new_vote_set, add_vote, sorted_votes, merge, unique_voter, unique_voter_and_block,
  filter_by_validators,
}
use theta_protocol_subchain.Core.Certificate.{has_majority}
use theta_protocol_subchain.Core.Block.{
  Block, BlockHeader, HeaderCrypto, ExtendedBlock, Proposal, add_txs, sign_bytes, set_signature,
}
use theta_protocol_subchain.Chain.Store.{find_block, find_votes_by_hash}
use theta_protocol_subchain.Chain.Blocks.{added, already_added, chain_id_mismatch, add_block}
use theta_protocol_subchain.Consensus.Managers.{uint64}
use theta_protocol_subchain.Consensus.Engine.{
  Env, Engine, block_message, get_highest_cc_block, get_validator_set, get_next_validator_set,
  get_tip_to_extend, should_propose_by_id,
}

-- What a proposal needs beside the engine's environment: the encoding and the hash of a header, and
-- `ProposeBlockTxs` of the ledger, which answers the new root and the transactions, or `none` for a
-- result that is an error or undecided.
pub record Proposing : Type 0 where
  pub header_crypto : HeaderCrypto
  pub hash_header : BlockHeader → ℕ
  pub propose_block_txs : Block → Bool → Option (ℕ × List (List ℕ))

unfoldable pub should_propose : Env → ExtendedBlock → ℕ → Option Bool
unfolding should_propose_by_id
should_propose env tip epoch =
    let in_turn = should_propose_by_id env tip.hash epoch env.address in
    if leb epoch tip.epoch then some false else in_turn

-- common/utils.go, with the dynasty's length of common/consts.go.
unfoldable pub calculate_dynasty : ℕ → ℕ
calculate_dynasty mainchain_height = mainchain_height / 10000

-- The test on a vote's dynasty: its height goes through int64, where the upper half is negative.
unfoldable pub reaches_dynasty : ℕ → Vote → Bool
unfolding calculate_dynasty
reaches_dynasty witnessed v =
    ltb v.mainchain_height (2 ^ 63) && leb witnessed (calculate_dynasty v.mainchain_height)

-- The loops that collect the votes that pass a test.
unfoldable pub collect_votes : (Vote → Bool) → VoteSet → List Vote → VoteSet
unfolding add_vote
collect_votes test ret [] = ret
collect_votes test ret (v ∷ vs) = collect_votes test (if test v then add_vote ret v else ret) vs

unfoldable pub validator_majority_in_the_same_dynasty : Env → Engine → ExtendedBlock → Option Bool
unfolding get_next_validator_set collect_votes new_vote_set sorted_votes has_majority
    calculate_dynasty reaches_dynasty
validator_majority_in_the_same_dynasty env e tip = elim e.state.epoch_votes [
  | none ↦ some true
  | some epoch_votes ↦ do
    validators ← get_next_validator_set env tip.hash
    let higher =
        collect_votes (λ v. leb (uint64 (tip.height + 1)) v.height) new_vote_set
          (sorted_votes epoch_votes)
    let kept_up : Bool = elim env.mainchain_height [
      | none ↦ false
      | some mainchain_height ↦ has_majority validators (
          collect_votes (reaches_dynasty (calculate_dynasty mainchain_height)) new_vote_set
            (sorted_votes epoch_votes))
    ]
    some (if has_majority validators higher then false else kept_up)
]

-- The header of a new block before its transactions, its hash not yet computed.
unfoldable pub new_header :
    Env → Engine → ExtendedBlock → ExtendedBlock → ℕ → ValidatorSet → BlockHeader
unfolding find_votes_by_hash unique_voter filter_by_validators
new_header env e tip hcc parent_time hcc_validators = record {
  hash = 0;
  chain_id = e.chain.chain_id;
  epoch = e.state.epoch;
  height = uint64 (tip.height + 1);
  parent = tip.hash;
  hcc = record {
    votes =
        some (
          filter_by_validators (unique_voter (find_votes_by_hash e.chain hcc.hash)) hcc_validators);
    block_hash = hcc.hash;
  };
  tx_hash = 0;
  receipt_hash = 0;
  state_hash = 0;
  timestamp = some (if ltb env.now (parent_time + 1) then parent_time + 1 else env.now);
  proposer = env.address;
  signature = none;
}

-- The steps after the ledger has chosen the transactions.
unfoldable pub seal_block : Env → Proposing → Block → ℕ → List (List ℕ) → Block
unfolding add_txs sign_bytes set_signature
seal_block env p block root txs =
    let filled = add_txs p.header_crypto block txs in
    let rooted = record (filled.header) { state_hash = root } in
    let signed = set_signature rooted (some (env.sign (sign_bytes p.header_crypto rooted))) in
    record filled { header = record signed { hash = p.hash_header signed } }

-- The votes that go with the proposal. Where the epoch votes are missing, none of them do.
unfoldable pub proposal_votes : Engine → ExtendedBlock → ValidatorSet → VoteSet
unfolding find_votes_by_hash merge unique_voter_and_block filter_by_validators new_vote_set
proposal_votes e last_cc validators =
    let epoch_votes : VoteSet = elim e.state.epoch_votes [
      | none ↦ new_vote_set
      | some votes ↦ votes
    ] in
    filter_by_validators
      (unique_voter_and_block (merge (find_votes_by_hash e.chain last_cc.hash) epoch_votes))
      validators

-- The inner `none` is the error.
unfoldable pub create_proposal : Env → Proposing → Engine → Bool → Option (Option Proposal)
unfolding get_tip_to_extend find_block get_highest_cc_block get_validator_set new_header seal_block
    proposal_votes
create_proposal env p e same_dynasty = do
  tip ← get_tip_to_extend env e
  parent_block ← find_block e.chain tip.hash
  parent_time ← parent_block.timestamp
  hcc ← get_highest_cc_block e
  validators ← get_validator_set env hcc.hash
  let block : Block = record { header = new_header env e tip hcc parent_time validators; txs = [] }
  let made : Option Proposal = elim (p.propose_block_txs block same_dynasty) [
    | none ↦ none
    | some r ↦ some (record {
      block = some (seal_block env p block r.0 r.1);
      proposer_id = env.address;
      votes = some (proposal_votes e hcc validators);
    })
  ]
  if env.reset_state tip.block then some made else none

-- The broadcast, and the message to the own queue. A repeated proposal has a block.
unfoldable pub send_proposal : Engine → Proposal → Option Engine
send_proposal e proposal = elim proposal.block [
  | none ↦ none
  | some block ↦ some (record e {
    proposed = e.proposed ++ proposal ∷ [];
    outgoing = e.outgoing ++ block_message block ∷ [];
  })
]

-- A new proposal: it is remembered in the field of the state alone, and its block enters the chain.
unfoldable pub make_proposal : Env → Engine → Proposal → Option Engine
unfolding add_block send_proposal
make_proposal env e proposal = elim proposal.block [
  | none ↦ none
  | some block ↦
      let (ch, result) = add_block env.hashes e.chain block in
      let remembered = record e {
        chain = ch;
        state = record (e.state) { last_proposal = proposal };
      } in
      elim result [
        | added _ ↦ send_proposal remembered proposal
        | already_added _ ↦ none
        | chain_id_mismatch ↦ none
      ]
]

-- Whether the last proposal has a block of this epoch.
unfoldable pub is_repeated : ℕ → Proposal → Bool
is_repeated epoch last = elim last.block [ none ↦ false | some block ↦ epoch == block.epoch ]

unfoldable pub propose : Env → Proposing → Engine → Option Engine
unfolding get_tip_to_extend should_propose validator_majority_in_the_same_dynasty is_repeated
    create_proposal make_proposal send_proposal
propose env p e = do
  tip ← get_tip_to_extend env e
  should ← should_propose env tip e.state.epoch
  let last = e.state.last_proposal
  let created : Bool → Option Engine = λ (same_dynasty : Bool). do
    made ← create_proposal env p e same_dynasty
    elim made [ none ↦ some e | some proposal ↦ make_proposal env e proposal ]
  let decided = do
    same_dynasty ← validator_majority_in_the_same_dynasty env e tip
    if is_repeated e.state.epoch last then send_proposal e last else created same_dynasty
  if should then decided else some e
