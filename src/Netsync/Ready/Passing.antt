-- ===== src/Netsync/Ready/Passing.antt =====
-- netsync/request.go: the pass over the downloaded blocks ends, and what it hands on.
use theta_protocol_subchain.Prelude.{
  ℕ, suc, zero, ◌+◌, ◌-◌, ◌<◌, ◌≡◌, inl, inr, refl, sym, subst, ◌∙◌, true, false, ◌&&◌, Option,
  none, some, List, [], ◌∷◌, ◌++◌, ◌==◌, ltb, if◌then◌else◌, arith, Bool-cases, List-cases, In,
  In-append, any-In,
}
use theta_protocol_subchain.Prelude.Dict.{Dict, lookup}
use theta_protocol_subchain.Core.Block.{ExtendedBlock, is_pending, is_valid}
use theta_protocol_subchain.Chain.Store.{Chain, blocks_at, find_all, find_blocks_by_height}
use theta_protocol_subchain.Netsync.Ready.{
  BlockCache, has_parent, pass_blocks, pass_heights, pass_ready_blocks,
}

-- The largest key of a dictionary.
pub highest_key : {V : Type 0} → Dict V → ℕ
highest_key [] = 0
highest_key ((k, _) ∷ d) = let rest = highest_key d in if ltb rest k then k else rest

lookup-above :
    {V : Type 0} (d : Dict V) (k : ℕ) → highest_key d < k → ◌≡◌ {A = Option V} (lookup k d) none
unfolding highest_key lookup
lookup-above [] k above = refl
lookup-above ((j, v) ∷ d) k above =
    let higher : highest_key d < k = ground arith in ground (arith, lookup-above d k higher)

find_blocks_by_height-above :
    (ch : Chain) (h : ℕ) → highest_key ch.heights < h → find_blocks_by_height ch h ≡ []
unfolding find_blocks_by_height blocks_at find_all
find_blocks_by_height-above ch h above =
    rw (lookup-above ch.heights h above, find_blocks_by_height, blocks_at) refl

-- The block is pending, and has a valid parent among the blocks.
pub record IsReady (parents : List ExtendedBlock) (b : ExtendedBlock) : Type 0 where
  pub is_new : is_pending b.status ≡ true
  pub parent : ExtendedBlock
  pub stands : In parent parents
  pub has_hash : parent.hash ≡ b.parent
  pub parent_is_valid : is_valid parent.status ≡ true

has_parent-IsReady :
    (parents : List ExtendedBlock) (b : ExtendedBlock)
    → has_parent parents b ≡ true
    → is_pending b.status ≡ true
    → IsReady parents b
unfolding has_parent
has_parent-IsReady parents b found new =
    let (p, i, both) =
      any-In (λ (p : ExtendedBlock). p.hash == b.parent && is_valid p.status) parents found in
    record {
      is_new = new;
      parent = p;
      stands = i;
      has_hash = ground (arith, both);
      parent_is_valid = ground (arith, both);
    }

In-later :
    {parents : List ExtendedBlock} (b x : ExtendedBlock) (bs : List ExtendedBlock)
    → In b bs × IsReady parents b
    → In b (x ∷ bs) × IsReady parents b
In-later b x bs (i, ready) = (inr i, ready)

-- The blocks of the height below, or the last finalized one.
abbrev pub parents_at : Chain → ExtendedBlock → ℕ → List ExtendedBlock
parents_at ch lfb h = if h == lfb.height + 1 then lfb ∷ [] else find_blocks_by_height ch (h - 1)

-- The block stands at a height above the last finalized one, and is ready with the blocks below.
abbrev pub IsPassable : Chain → ExtendedBlock → ExtendedBlock → Type 0
IsPassable ch lfb b =
    (h : ℕ) × (lfb.height < h) × In b (find_blocks_by_height ch h) × IsReady (parents_at ch lfb h) b

module _ {C : Type 0} (lru : BlockCache C) where
  pass_blocks-IsReady :
      (parents bs : List ExtendedBlock) (cache : C) (b : ExtendedBlock)
      → In b (pass_blocks lru parents bs cache).1
      → In b bs × IsReady parents b
  unfolding pass_blocks
  pass_blocks-IsReady parents [] cache b i = absurd i
  pass_blocks-IsReady parents (x ∷ bs) cache b i = elim (Bool-cases (lru.contains cache x.hash)) [
    | inl known ↦
        In-later b x bs (pass_blocks-IsReady parents bs cache b (rw (known, pass_blocks) at i))
    | inr new ↦ elim (Bool-cases (has_parent parents x)) [
      | inr orphan ↦
          In-later b x bs
            (pass_blocks-IsReady parents bs cache b (rw (new, orphan, pass_blocks) at i))
      | inl found ↦ elim (Bool-cases (is_pending x.status)) [
        | inr old ↦ In-later b x bs (
            pass_blocks-IsReady parents bs (lru.add cache x.hash) b
              (rw (new, found, old, pass_blocks) at i))
        | inl waiting ↦
            let i' : In b (x ∷ (pass_blocks lru parents bs (lru.add cache x.hash)).1) =
              rw (new, found, waiting, pass_blocks) at i in
            elim i' [
              | inl same ↦ (inl same, rw same (has_parent-IsReady parents x found waiting))
              | inr later ↦
                  In-later b x bs (pass_blocks-IsReady parents bs (lru.add cache x.hash) b later)
            ]
      ]
    ]
  ]

  module _ (ch : Chain) (lfb : ExtendedBlock) where
    next_parents :
        (height : ℕ)
        → lfb.height < height
        → parents_at ch lfb (height + 1) ≡ find_blocks_by_height ch height
    next_parents height above =
        let other : (height + 1 == lfb.height + 1) ≡ false = ground arith in
        let same : height + 1 - 1 ≡ height = omega arith in rw (other, same) refl

    pass_heights_lem :
        (fuel height : ℕ) (cache : C)
        → highest_key ch.heights < height + fuel
        → lfb.height < height
        → (r : C × List ExtendedBlock) × (pass_heights lru ch
              (suc fuel)
              height
              (parents_at ch lfb height)
              cache
            ≡ some r)
          × ((b : ExtendedBlock) → In b r.1 → IsPassable ch lfb b)
    unfolding pass_heights
    pass_heights_lem zero height cache enough above =
        let empty = find_blocks_by_height-above ch height (omega (arith, enough)) in
        ((cache, []), rw (empty, pass_heights) refl, λ b i. absurd i)
    pass_heights_lem (suc fuel) height cache enough above =
        elim (List-cases (find_blocks_by_height ch height)) [
          | inl empty ↦ ((cache, []), rw (empty, pass_heights) refl, λ b i. absurd i)
          | inr (x, xs, here) ↦
              let parents = parents_at ch lfb height in
              let passed = pass_blocks lru parents (x ∷ xs) cache in
              let (rest, done, passable) =
                pass_heights_lem fuel (height + 1) passed.0 (omega (arith, enough))
                  (omega (arith, above)) in
              let done' : pass_heights lru ch (suc fuel) (height + 1) (x ∷ xs) passed.0
                  ≡ some rest =
                subst (λ ps. pass_heights lru ch (suc fuel) (height + 1) ps passed.0 ≡ some rest)
                  (next_parents height above ∙ here) done in
              (
                (rest.0, passed.1 ++ rest.1),
                rw (here, done', pass_heights) refl,
                λ b i. elim (In-append b passed.1 rest.1 i) [
                  | inr later ↦ passable b later
                  | inl now ↦
                      let (j, ready) = pass_blocks-IsReady parents (x ∷ xs) cache b now in
                      (height, above, subst (In b) (sym here) j, ready)
                ],
              )
        ]

-- A pass of `passReadyBlocks` over the heights of a chain that stays as it is ends within one
-- height more than the highest that has an entry. Every block that it passes down is a pending
-- one that is stored above the last finalized block, and its parent is a valid block among the
-- stored ones of the height below, or is the last finalized block.
pub pass_ready_blocks_lem :
    {C : Type 0} (lru : BlockCache C) (ch : Chain) (lfb : ExtendedBlock) (cache : C)
    → (r : C × List ExtendedBlock) × (pass_ready_blocks lru ch
          (suc (highest_key ch.heights))
          lfb
          cache
        ≡ some r)
      × ((b : ExtendedBlock) → In b r.1 → IsPassable ch lfb b)
unfolding pass_ready_blocks
pass_ready_blocks_lem lru ch lfb cache =
    let first : parents_at ch lfb (lfb.height + 1) ≡ lfb ∷ [] = ground arith in
    let (r, done, passable) =
      pass_heights_lem lru ch lfb (highest_key ch.heights) (lfb.height + 1) cache (omega arith)
        (omega arith) in
    (
      r,
      subst
          (λ ps.
            pass_heights lru ch (suc (highest_key ch.heights)) (lfb.height + 1) ps cache ≡ some r)
          first done,
      passable,
    )
