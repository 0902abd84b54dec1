-- ===== src/Consensus/Commit/Tests.antt =====
-- consensus/engine.go: a certified block is committed, and its parent finalized.
use theta_protocol_subchain.Prelude.{◌≡◌, refl, ◌⊎◌, Bool, true, false, Option, none, some}
use theta_protocol_subchain.Prelude.Dict.{lookup, insert}
use theta_protocol_subchain.Samples.{block_2, block_3, toy_env, toy_engine}
use theta_protocol_subchain.Core.Block.{
  ExtendedBlock, is_invalid, is_pending, is_trusted, is_finalized, is_disposed, is_committed,
  is_directly_finalized, is_indirectly_finalized,
}
use theta_protocol_subchain.Chain.Store.{find_block}
use theta_protocol_subchain.Consensus.Engine.{Engine}
use theta_protocol_subchain.Consensus.Commit.{finalize_block, process_cc_block, check_cc}
use theta_protocol_subchain.Consensus.Commit.Rules.{
  RaisesHighest, FinalizesParent, process_cc_block_lem, IsCertified, check_cc_lem,
}

abbrev engine_of : Option Engine → Engine
engine_of none = toy_engine
engine_of (some e) = e

abbrev engine_of_pair : Option (Engine × Bool) → Engine
engine_of_pair none = toy_engine
engine_of_pair (some r) = r.0

abbrev finalized_engine : Engine
unfolding finalize_block lookup insert is_finalized is_disposed
finalized_engine = engine_of_pair (finalize_block toy_env toy_engine block_2)

finalized_run : finalize_block toy_env toy_engine block_2 ≡ some (finalized_engine, true)
unfolding finalize_block finalized_engine lookup insert is_finalized is_disposed
finalized_run = refl

abbrev committed_engine : Engine
unfolding process_cc_block lookup insert is_finalized is_disposed
committed_engine = engine_of (process_cc_block toy_env toy_engine block_3)

committed_run : process_cc_block toy_env toy_engine block_3 ≡ some committed_engine
unfolding process_cc_block committed_engine lookup insert is_finalized is_disposed
committed_run = refl

third_is_highest :
    (committed_engine.state.highest_cc_block ≡ 3)
    × (committed_engine.state.last_finalized_block ≡ 2)
unfolding committed_engine
third_is_highest = (refl, refl)

process_cc_block_lem_example :
    ((committed_engine.state.highest_cc_block ≡ toy_engine.state.highest_cc_block)
      ⊎ RaisesHighest toy_engine committed_engine block_3)
    × ((committed_engine.state.last_finalized_block ≡ toy_engine.state.last_finalized_block)
        ⊎ FinalizesParent toy_engine committed_engine block_3)
process_cc_block_lem_example =
    process_cc_block_lem toy_env toy_engine committed_engine block_3 committed_run

checked_run : check_cc toy_env toy_engine 3 ≡ some committed_engine
unfolding check_cc committed_engine lookup insert is_finalized is_disposed is_invalid is_pending
    is_committed is_directly_finalized is_indirectly_finalized is_trusted
checked_run = refl

check_cc_lem_example :
    (committed_engine ≡ toy_engine)
    ⊎ ((b : ExtendedBlock) × (find_block toy_engine.chain 3 ≡ some b)
        × (is_invalid b.status ≡ false)
        × (is_pending b.status ≡ false)
        × ((is_trusted b.status ≡ true) ⊎ IsCertified toy_env toy_engine 3)
        × (process_cc_block toy_env toy_engine b ≡ some committed_engine)
        × ((committed_engine.state.highest_cc_block ≡ toy_engine.state.highest_cc_block)
            ⊎ RaisesHighest toy_engine committed_engine b)
        × ((committed_engine.state.last_finalized_block ≡ toy_engine.state.last_finalized_block)
            ⊎ FinalizesParent toy_engine committed_engine b))
check_cc_lem_example = check_cc_lem toy_env toy_engine committed_engine 3 checked_run
