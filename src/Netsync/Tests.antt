-- ===== src/Netsync/Tests.antt =====
-- An inventory of the sample chain, and the pass over a chain with two downloaded blocks.
use theta_protocol_subchain.Prelude.{ℕ, suc, ◌≡◌, refl, ◌==◌, some, List, [], ◌∷◌, ◌++◌, In, any}
use theta_protocol_subchain.Prelude.Dict.{lookup}
use theta_protocol_subchain.Samples.{block_1, block_2, block_3, three_blocks}
use theta_protocol_subchain.Core.Block.{ExtendedBlock, pending}
use theta_protocol_subchain.Chain.Store.{Chain}
use theta_protocol_subchain.Netsync.Ready.{BlockCache, pass_ready_blocks}
use theta_protocol_subchain.Netsync.Ready.Passing.{highest_key, IsPassable, pass_ready_blocks_lem}
use theta_protocol_subchain.Netsync.Inventory.{build_inventory_request}
use theta_protocol_subchain.Netsync.Inventory.Starts.{
  IsNamed, lowest_named, build_inventory_request_lem,
}

three_hashes : build_inventory_request three_blocks block_3 block_1 ≡ some (3 ∷ 2 ∷ 1 ∷ [])
unfolding build_inventory_request lookup
three_hashes = refl

build_inventory_request_lem_example :
    (starts : List ℕ) × (build_inventory_request three_blocks block_3 block_1
      ≡ some (starts ++ 1 ∷ []))
    × ((x : ℕ) → In x starts → IsNamed three_blocks 0 2 x)
    × ((x : ℕ) → IsNamed three_blocks (lowest_named block_3 block_1) 2 x → In x starts)
build_inventory_request_lem_example = build_inventory_request_lem three_blocks block_3 block_1

-- A cache without a limit.
abbrev all_seen : BlockCache (List ℕ)
all_seen = record {
  contains = λ seen hash. any (λ x. x == hash) seen;
  add = λ seen hash. hash ∷ seen;
}

abbrev new_block_2 : ExtendedBlock
new_block_2 = record block_2 { status = pending }

abbrev new_block_3 : ExtendedBlock
new_block_3 = record block_3 { status = pending }

abbrev downloaded : Chain
downloaded = record three_blocks {
  blocks = (1, block_1) ∷ (2, new_block_2) ∷ (3, new_block_3) ∷ [];
}

-- The second block waits until the first one is valid.
one_is_ready : pass_ready_blocks all_seen downloaded 3 block_1 [] ≡ some (2 ∷ [], new_block_2 ∷ [])
unfolding pass_ready_blocks lookup
one_is_ready = refl

pass_ready_blocks_lem_example :
    (r : List ℕ × List ExtendedBlock) × (pass_ready_blocks all_seen downloaded
        (suc (highest_key downloaded.heights))
        block_1
        []
      ≡ some r)
    × ((b : ExtendedBlock) → In b r.1 → IsPassable downloaded block_1 b)
pass_ready_blocks_lem_example = pass_ready_blocks_lem all_seen downloaded block_1 []
