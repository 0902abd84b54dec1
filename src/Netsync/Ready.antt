-- ===== src/Netsync/Ready.antt =====
-- netsync/request.go: one pass over the downloaded blocks, that hands the ready ones to the engine. The
-- LRU cache is a parameter, and so is the chain, which stays the same during the pass. Heights are below
-- 2 ^ 64 - 1, so that the next one does not wrap.
pub mod Passing
use theta_protocol_subchain.Prelude.{
  ℕ, suc, zero, ◌+◌, Bool, true, false, ◌&&◌, Option, none, some, List, [], ◌∷◌, ◌++◌, ◌==◌,
  if◌then◌else◌, any,
}
use theta_protocol_subchain.Core.Block.{ExtendedBlock, is_pending, is_valid}
use theta_protocol_subchain.Chain.Store.{Chain, find_blocks_by_height}

pub record BlockCache (C : Type 0) : Type 0 where
  pub contains : C → ℕ → Bool
  pub add : C → ℕ → C

-- Whether one of the blocks is the valid parent of the block.
unfoldable pub has_parent : List ExtendedBlock → ExtendedBlock → Bool
unfolding any is_valid
has_parent parents block =
    any (λ parent. parent.hash == block.parent && is_valid parent.status) parents

module _ {C : Type 0} (lru : BlockCache C) where
  -- The blocks of one height: the cache after them, and those that are passed down.
  unfoldable pub pass_blocks : List ExtendedBlock → List ExtendedBlock → C → C × List ExtendedBlock
  unfolding has_parent is_pending
  pass_blocks parents [] cache = (cache, [])
  pass_blocks parents (b ∷ bs) cache =
      let skipped = pass_blocks parents bs cache in
      let rest = pass_blocks parents bs (lru.add cache b.hash) in
      if lru.contains cache b.hash
      then skipped
      else if has_parent parents b
      then (rest.0, if is_pending b.status then b ∷ rest.1 else rest.1)
      else skipped

  -- The heights one after the other, on fuel, up to the first one without blocks.
  unfoldable pub pass_heights :
      Chain → ℕ → ℕ → List ExtendedBlock → C → Option (C × List ExtendedBlock)
  unfolding pass_blocks find_blocks_by_height
  pass_heights ch zero height parents cache = none
  pass_heights ch (suc fuel) height parents cache = elim (find_blocks_by_height ch height) [
    | [] ↦ some (cache, [])
    | b ∷ bs ↦
        let passed = pass_blocks parents (b ∷ bs) cache in
        elim (pass_heights ch fuel (height + 1) (b ∷ bs) passed.0) [
          | none ↦ none
          | some rest ↦ some (rest.0, passed.1 ++ rest.1)
        ]
  ]

  unfoldable pub pass_ready_blocks : Chain → ℕ → ExtendedBlock → C → Option (C × List ExtendedBlock)
  unfolding pass_heights
  pass_ready_blocks ch fuel lfb cache = pass_heights ch fuel (lfb.height + 1) (lfb ∷ []) cache
