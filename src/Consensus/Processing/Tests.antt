-- ===== src/Consensus/Processing/Tests.antt =====
-- consensus/engine.go `validateBlock` on a block whose certificate has three of four votes.
use theta_protocol_subchain.Prelude.{◌↔◌, ◌≡◌, refl, true, false, some, [], ◌∷◌}
use theta_protocol_subchain.Prelude.Dict.{lookup}
use theta_protocol_subchain.Samples.{
  header_of, block_1, block_2, block_3, three_blocks, toy_env, votes_for_three, toy_engine,
}
use theta_protocol_subchain.Core.Block.{Block, ExtendedBlock, pending, is_valid, is_finalized}
use theta_protocol_subchain.Consensus.Engine.{Engine, get_last_finalized_block}
use theta_protocol_subchain.Consensus.Processing.{validate_block}
use theta_protocol_subchain.Consensus.Processing.Validation.{
  FollowsParent, IsCertified, ConfirmsChanges, IsProposed, validate_block_iff,
}

abbrev fourth : Block
fourth = record {
  header = record (header_of 4 3 3) {
    hcc = record { votes = some votes_for_three; block_hash = 3 };
  };
  txs = [];
}

abbrev pending_fourth : ExtendedBlock
pending_fourth = record {
  block = fourth;
  children = [];
  status = pending;
  has_validator_update = false;
}

abbrev four_engine : Engine
four_engine = record toy_engine {
  chain = record three_blocks {
    blocks = (1, block_1) ∷ (2, block_2) ∷ (3, block_3) ∷ (4, pending_fourth) ∷ [];
  };
}

fourth_passes : validate_block toy_env four_engine fourth block_3 ≡ some true
unfolding validate_block lookup is_valid is_finalized
fourth_passes = refl

validate_block_iff_example : (validate_block toy_env four_engine fourth block_3 ≡ some true) ↔ (
    (lfb : ExtendedBlock) × (get_last_finalized_block four_engine ≡ some lfb)
    × FollowsParent lfb block_3 fourth
    × IsCertified toy_env four_engine fourth
    × ConfirmsChanges four_engine.chain fourth block_3
    × IsProposed toy_env fourth)
validate_block_iff_example = validate_block_iff toy_env four_engine fourth block_3
