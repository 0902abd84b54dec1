-- ===== src/Chain/Tests.antt =====
-- The package `blockchain` on a chain of three blocks, of which the first is finalized.
use theta_protocol_subchain.Prelude.Dict.{lookup, insert}
use theta_protocol_subchain.Core.Block.{is_disposed}
use theta_protocol_subchain.Prelude.{ℕ, ◌≡◌, refl, arith, Bool, true, false, none, some}
use theta_protocol_subchain.Core.Block.{ExtendedBlock, indirectly_finalized, pending, is_finalized}
use theta_protocol_subchain.Chain.Store.{Chain, find_block}
use theta_protocol_subchain.Chain.Blocks.{
  AddResult, added, add_block_as, finalize_previous_blocks, is_descendant, with_status,
}
use theta_protocol_subchain.Chain.Rounds.{IsKeyed}
use theta_protocol_subchain.Chain.Finality.{
  Kept, IsClosed, finalize_previous_blocks_total, finalize_previous_blocks-Kept,
  finalize_previous_blocks-IsClosed,
}
use theta_protocol_subchain.Chain.Adding.{IsKept, add_block_as_added}
use theta_protocol_subchain.Samples.{toy_hashes, block_2, block_3, three_blocks, fourth, new_fourth}

three_are-IsKeyed : IsKeyed three_blocks
unfolding find_block lookup
three_are-IsKeyed h eb e = ground arith

three_are-IsClosed : IsClosed three_blocks
unfolding find_block lookup is_finalized
three_are-IsClosed h eb pb e final parent = ground arith

no_block_at_0 : find_block three_blocks 0 ≡ none
unfolding find_block lookup
no_block_at_0 = refl

third_is_stored : find_block three_blocks 3 ≡ some block_3
unfolding find_block lookup
third_is_stored = refl

first_is_ascendant : is_descendant three_blocks 1 3 ≡ true
unfolding is_descendant lookup
first_is_ascendant = refl

-- The chain after the third block has been finalized.
abbrev finalized_chain : Chain
unfolding finalize_previous_blocks lookup insert is_finalized is_disposed
finalized_chain = elim (finalize_previous_blocks toy_hashes three_blocks 3) [
  | none ↦ three_blocks
  | some r ↦ r.0
]

finalized_run : finalize_previous_blocks toy_hashes three_blocks 3 ≡ some (finalized_chain, true)
unfolding finalize_previous_blocks finalized_chain lookup insert is_finalized is_disposed
finalized_run = refl

second_is_indirect : find_block finalized_chain 2 ≡ some (with_status indirectly_finalized block_2)
unfolding find_block lookup finalized_chain
second_is_indirect = refl

finalize_previous_blocks_total_example :
    (r : Chain × Bool) × (finalize_previous_blocks toy_hashes three_blocks 3 ≡ some r)
finalize_previous_blocks_total_example =
    finalize_previous_blocks_total toy_hashes three_blocks 3 three_are-IsKeyed

finalize_previous_blocks-Kept_example :
    (eb' : ExtendedBlock) × (find_block finalized_chain 3 ≡ some eb') × Kept block_3 eb'
finalize_previous_blocks-Kept_example =
    finalize_previous_blocks-Kept toy_hashes three_blocks 3 finalized_chain true three_are-IsKeyed
      finalized_run 3 block_3 third_is_stored

finalize_previous_blocks-IsClosed_example :
    IsClosed finalized_chain
    × (eb' : ExtendedBlock) × (find_block finalized_chain 3 ≡ some eb')
    × (is_finalized eb'.status ≡ true)
finalize_previous_blocks-IsClosed_example =
    finalize_previous_blocks-IsClosed toy_hashes three_blocks 3 block_3 finalized_chain
      three_are-IsKeyed no_block_at_0 third_is_stored three_are-IsClosed finalized_run

abbrev four_blocks : Chain
unfolding add_block_as lookup insert
four_blocks = (add_block_as toy_hashes three_blocks fourth false).0

fourth_is_added :
    ◌≡◌ {A = Chain × AddResult}
      (add_block_as toy_hashes three_blocks fourth false)
      (four_blocks, added new_fourth)
unfolding add_block_as four_blocks lookup insert
fourth_is_added = refl

add_block_as_added_example :
    (new_fourth.block ≡ fourth)
    × (new_fourth.status ≡ pending)
    × (find_block four_blocks 4 ≡ some new_fourth)
    × ((h : ℕ) → IsKept fourth false h (find_block three_blocks h) (find_block four_blocks h))
add_block_as_added_example =
    add_block_as_added toy_hashes three_blocks four_blocks fourth false new_fourth fourth_is_added
      three_are-IsKeyed
