-- ===== src/Consensus/Proposing/Tests.antt =====
-- consensus/engine.go `createProposal` on the sample chain.
use theta_protocol_subchain.Prelude.{
  ℕ, suc, ◌+◌, ◌≡◌, refl, ◌≢◌, true, Option, none, some, In, ◌⊎◌, [], ◌∷◌, arith, length,
}
use theta_protocol_subchain.Prelude.Dict.{lookup, insert}
use theta_protocol_subchain.Samples.{no_bytes, verify_first, block_2, block_3, toy_env, toy_engine}
use theta_protocol_subchain.Core.Block.{Block, Proposal, validate_block, is_valid}
use theta_protocol_subchain.Consensus.Managers.{uint64}
use theta_protocol_subchain.Consensus.Engine.{Engine, get_tip_to_extend, get_highest_cc_block}
use theta_protocol_subchain.Consensus.Proposing.{Proposing, create_proposal, propose}
use theta_protocol_subchain.Consensus.Proposing.Restarting.{propose-restart}
use theta_protocol_subchain.Consensus.State.{restart}
use theta_protocol_subchain.Consensus.Proposing.Soundness.{IsSigner, create_proposal-validates}

abbrev toy_proposing : Proposing
toy_proposing = record {
  header_crypto = record {
    encode_header = λ h. h.parent ∷ h.height ∷ [];
    calculate_root_hash = λ items. length items;
    is_empty_signature = no_bytes;
    verify = verify_first;
  };
  hash_header = λ h. h.height + 100;
  propose_block_txs = λ block same. some (77, (1 ∷ []) ∷ []);
}

abbrev proposal_of : Option (Option Proposal) → Proposal
proposal_of (some (some p)) = p
proposal_of _ = toy_engine.state.last_proposal

abbrev toy_proposal : Proposal
unfolding create_proposal lookup is_valid
toy_proposal = proposal_of (create_proposal toy_env toy_proposing toy_engine true)

proposal_run : create_proposal toy_env toy_proposing toy_engine true ≡ some (some toy_proposal)
unfolding create_proposal lookup is_valid toy_proposal
proposal_run = refl

tip_is_third : get_tip_to_extend toy_env toy_engine ≡ some block_3
unfolding get_tip_to_extend lookup is_valid
tip_is_third = refl

second_is_certified : get_highest_cc_block toy_engine ≡ some block_2
unfolding get_highest_cc_block lookup
second_is_certified = refl

toy-IsSigner : IsSigner toy_env toy_proposing
toy-IsSigner m = (refl, refl)

nonzero : (n : ℕ) → suc n ≢ 0
nonzero n = omega arith

create_proposal-validates_example :
    (b : Block) × (toy_proposal.block ≡ some b)
    × (validate_block toy_proposing.header_crypto toy_engine.chain.chain_id b ≡ true)
    × (b.parent ≡ block_3.hash)
    × (b.height ≡ uint64 (block_3.height + 1))
    × (b.epoch ≡ toy_engine.state.epoch)
    × (b.hcc.block_hash ≡ block_2.hash)
create_proposal-validates_example =
    create_proposal-validates toy_env toy_proposing toy_engine true toy_proposal block_3 block_2
      toy-IsSigner (nonzero 9) (nonzero 2) (nonzero 1) tip_is_third second_is_certified proposal_run

abbrev engine_after : Option Engine → Engine
engine_after none = toy_engine
engine_after (some e) = e

abbrev proposed_engine : Engine
unfolding propose lookup is_valid insert
proposed_engine = engine_after (propose toy_env toy_proposing toy_engine)

propose_run : propose toy_env toy_proposing toy_engine ≡ some proposed_engine
unfolding propose lookup is_valid insert proposed_engine
propose_run = refl

propose-restart_example :
    ((proposed_engine.state.last_proposal ≡ toy_engine.state.last_proposal)
      ⊎ In proposed_engine.state.last_proposal proposed_engine.proposed)
    × (restart (λ stub. stub) proposed_engine.state 0 ≡ restart (λ stub. stub) toy_engine.state 0)
propose-restart_example =
    propose-restart toy_env toy_proposing toy_engine proposed_engine (λ stub. stub) 0 propose_run

-- The engine has a new proposal, which a restart forgets.
one_is_proposed : length proposed_engine.proposed ≡ 1
unfolding propose lookup is_valid insert proposed_engine
one_is_proposed = refl
