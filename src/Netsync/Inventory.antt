-- ===== src/Netsync/Inventory.antt =====
-- netsync/request.go: the hashes from which the node asks for an inventory of blocks. The tip is the
-- one of the fast sync or of the consensus engine.
pub mod Rounds
pub mod Starts
use theta_protocol_subchain.Prelude.{
  ℕ, suc, zero, ◌-◌, ◌*◌, ◌^◌, Bool, true, false, not, ◌||◌, Option, none, some, List, [], ◌∷◌,
  ◌++◌, ltb, leb, if◌then◌else◌,
}
use theta_protocol_subchain.Core.Block.{BlockStatus, pending, invalid, ExtendedBlock}
use theta_protocol_subchain.Chain.Store.{Chain, find_blocks_by_height}

unfoldable pub is_announced : BlockStatus → Bool
is_announced pending = false
is_announced invalid = false
is_announced _ = true

unfoldable pub hashes_of : List ExtendedBlock → List ℕ
unfolding is_announced
hashes_of [] = []
hashes_of (b ∷ bs) =
    let rest = hashes_of bs in if is_announced b.status then b.hash ∷ rest else rest

-- The step of a round.
unfoldable pub next_step : ℕ → ℕ → ℕ → ℕ
next_step tip index step = if leb 10 (tip - index) then step * 2 else step

module _ (ch : Chain) (tip lfb : ℕ) where
  -- The loop, on fuel; `none` stands for its end. A step of 2 ^ 63 is negative as an int.
  unfoldable pub collect_starts : ℕ → ℕ → ℕ → Option (List ℕ)
  unfolding next_step hashes_of find_blocks_by_height
  collect_starts zero step index = none
  collect_starts (suc fuel) step index =
      let stride = next_step tip index step in
      let rest = collect_starts fuel stride (index - stride) in
      if not (ltb lfb index)
      then some []
      else if ltb index stride || leb (2 ^ 63) stride
      then some []
      else elim rest [
        | none ↦ none
        | some starts ↦ some (hashes_of (find_blocks_by_height ch index) ++ starts)
      ]

abbrev pub max_rounds : ℕ
max_rounds = 74

unfoldable pub with_last : ℕ → Option (List ℕ) → Option (List ℕ)
with_last hash none = none
with_last hash (some starts) = some (starts ++ hash ∷ [])

unfoldable pub build_inventory_request : Chain → ExtendedBlock → ExtendedBlock → Option (List ℕ)
unfolding collect_starts with_last
build_inventory_request ch tip lfb =
    with_last lfb.hash (collect_starts ch tip.height lfb.height max_rounds 1 tip.height)
