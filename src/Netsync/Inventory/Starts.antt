-- ===== src/Netsync/Inventory/Starts.antt =====
-- netsync/request.go: which blocks `buildInventoryRequest` names.
use theta_protocol_subchain.Prelude.{
  ℕ, suc, zero, ◌+◌, ◌-◌, ◌≤◌, ◌<◌, ◌≡◌, inl, inr, refl, sym, ap, subst, ltb→lt, true, some, List,
  [], ◌∷◌, ◌++◌, ltb, if◌then◌else◌, arith, Bool-cases, ◌∙◌, ◌==◌, ==→eq, In, In-append,
  In-append_left, In-append_right, some_inj,
}
use theta_protocol_subchain.Core.Block.{ExtendedBlock}
use theta_protocol_subchain.Chain.Store.{Chain, find_blocks_by_height}
use theta_protocol_subchain.Netsync.Inventory.{
  is_announced, hashes_of, next_step, collect_starts, with_last, build_inventory_request,
}
use theta_protocol_subchain.Netsync.Inventory.Rounds.{
  ends, goes_on, rounds, collect_starts-Round, collect_starts_total,
}

In-hashes_of :
    (x : ℕ) (bs : List ExtendedBlock)
    → In x (hashes_of bs)
    → (b : ExtendedBlock) × In b bs × (is_announced b.status ≡ true) × (x ≡ b.hash)
unfolding hashes_of
In-hashes_of x [] i = absurd i
In-hashes_of x (b ∷ bs) i = elim (Bool-cases (is_announced b.status)) [
  | inl announced ↦
      let i' : In x (b.hash ∷ hashes_of bs) = rw (announced, hashes_of) at i in
      elim i' [
        | inl here ↦ (b, inl refl, announced, here)
        | inr there ↦ let (a, j, shown, same) = In-hashes_of x bs there in (a, inr j, shown, same)
      ]
  | inr hidden ↦
      let i' : In x (hashes_of bs) = rw (hidden, hashes_of) at i in
      let (a, j, shown, same) = In-hashes_of x bs i' in (a, inr j, shown, same)
]

hashes_of-In :
    (b : ExtendedBlock) (bs : List ExtendedBlock)
    → In b bs
    → is_announced b.status ≡ true
    → In b.hash (hashes_of bs)
unfolding hashes_of
hashes_of-In b [] i announced = absurd i
hashes_of-In b (a ∷ bs) (inl same) announced = rw (← same, announced) (inl refl)
hashes_of-In b (a ∷ bs) (inr i) announced = elim (Bool-cases (is_announced a.status)) [
  | inl announced' ↦ rw announced' (inr (hashes_of-In b bs i announced))
  | inr hidden ↦ rw hidden (hashes_of-In b bs i announced)
]

-- A block between two heights that is neither pending nor found invalid has the hash.
abbrev pub IsNamed : Chain → ℕ → ℕ → ℕ → Type 0
IsNamed ch low high x =
    (h : ℕ) × (b : ExtendedBlock) × (low < h)
    × (h ≤ high)
    × In b (find_blocks_by_height ch h)
    × (is_announced b.status ≡ true)
    × (x ≡ b.hash)

module _ (ch : Chain) (tip lfb : ℕ) where
  collect_starts-IsNamed :
      (fuel step index : ℕ) (starts : List ℕ) (x : ℕ)
      → collect_starts ch tip lfb fuel step index ≡ some starts
      → In x starts
      → IsNamed ch lfb index x
  unfolding collect_starts
  collect_starts-IsNamed zero step index starts x done i = cc
  collect_starts-IsNamed (suc fuel) step index starts x done i =
      elim (collect_starts-Round ch tip lfb fuel step index) [
        | ends _ empty ↦
            let none_ : starts ≡ [] = some_inj (sym done ∙ empty) in absurd (rw none_ at i)
        | goes_on high fits _ _ back ↦
            let (rest, more, is) = back starts done in
            elim (In-append x (hashes_of (find_blocks_by_height ch index)) rest (rw is at i)) [
              | inl here ↦
                  let (b, j, announced, same) =
                    In-hashes_of x (find_blocks_by_height ch index) here in
                  (index, b, high, omega arith, j, announced, same)
              | inr there ↦
                  let (h, b, low, le, j, announced, same) =
                    collect_starts-IsNamed fuel (next_step tip index step)
                      (index - next_step tip index step) rest x more there in
                  (h, b, low, omega (arith, le), j, announced, same)
            ]
      ]

  collect_starts-names :
      (fuel index h : ℕ) (b : ExtendedBlock) (starts : List ℕ)
      → collect_starts ch tip lfb fuel 1 index ≡ some starts
      → lfb < h
      → h ≤ index
      → tip < h + 10
      → In b (find_blocks_by_height ch h)
      → is_announced b.status ≡ true
      → In b.hash starts
  unfolding collect_starts next_step
  collect_starts-names zero index h b starts done low le near i announced = cc
  collect_starts-names (suc fuel) index h b starts done low le near i announced =
      let one : next_step tip index 1 ≡ 1 = ground (arith, le, near) in
      elim (collect_starts-Round ch tip lfb fuel 1 index) [
        | ends over _ ↦
            absurd
              (over (omega (arith, low, le)) (omega (arith, one, low, le)) (omega (arith, one)))
        | goes_on high fits _ _ back ↦
            let (rest, more, is) = back starts done in
            let here = hashes_of (find_blocks_by_height ch index) in
            elim (Bool-cases (h == index)) [
              | inl same ↦
                  let e : h ≡ index = ==→eq h index same in
                  let i' : In b (find_blocks_by_height ch index) = rw e at i in
                  rw is (
                    In-append_left b.hash here rest
                      (hashes_of-In b (find_blocks_by_height ch index) i' announced))
              | inr other ↦ rw is (
                  In-append_right b.hash here rest (
                    collect_starts-names fuel (index - 1) h b rest (rw one at more) low
                      (ground (arith, le, other)) near i announced))
            ]
      ]

-- The last finalized height, but no more than ten below the tip.
abbrev pub lowest_named : ExtendedBlock → ExtendedBlock → ℕ
lowest_named tip lfb = if ltb (lfb.height + 10) tip.height then tip.height - 10 else lfb.height

lowest_named-low :
    (tip lfb : ExtendedBlock) (h : ℕ)
    → lowest_named tip lfb < h
    → (lfb.height < h) × (tip.height < h + 10)
lowest_named-low tip lfb h low = elim (Bool-cases (ltb (lfb.height + 10) tip.height)) [
  | inl far ↦
      let low' : tip.height - 10 < h = rw far at low in
      let far' : lfb.height + 10 < tip.height = ltb→lt (lfb.height + 10) tip.height far in
      (omega (arith, low', far'), omega (arith, low'))
  | inr near ↦ let low' : lfb.height < h = rw near at low in (low', ground (arith, near, low'))
]

build_inventory_request-collected :
    (ch : Chain) (tip lfb : ExtendedBlock) (starts : List ℕ)
    → collect_starts ch tip.height lfb.height 74 1 tip.height ≡ some starts
    → build_inventory_request ch tip lfb ≡ some (starts ++ lfb.hash ∷ [])
unfolding build_inventory_request with_last
build_inventory_request-collected ch tip lfb starts done = ap (with_last lfb.hash) done

-- The loop of `buildInventoryRequest` ends after at most 74 rounds, whatever the heights of the
-- tip and the last finalized block are below 2 ^ 64, and the request ends with the hash of the
-- latter. Every other start is the hash of a stored block above the last finalized height and not
-- above the tip, that is neither pending nor found invalid, and all such blocks at the heights
-- less than ten below the tip are among them.
pub build_inventory_request_lem :
    (ch : Chain) (tip lfb : ExtendedBlock)
    → (starts : List ℕ) × (build_inventory_request ch tip lfb ≡ some (starts ++ lfb.hash ∷ []))
      × ((x : ℕ) → In x starts → IsNamed ch lfb.height tip.height x)
      × ((x : ℕ) → IsNamed ch (lowest_named tip lfb) tip.height x → In x starts)
unfolding rounds
build_inventory_request_lem ch tip lfb =
    let (starts, done) =
      collect_starts_total ch tip.height lfb.height 10 tip.height (omega arith) in
    (
      starts,
      build_inventory_request-collected ch tip lfb starts done,
      λ x i. collect_starts-IsNamed ch tip.height lfb.height 74 1 tip.height starts x done i,
      λ x named.
          let (h, b, low, le, i, announced, same) = named in
          let (above, near) = lowest_named-low tip lfb h low in
          subst (λ y. In y starts) (sym same)
            (collect_starts-names ch tip.height lfb.height 74 tip.height h b starts done above le
              near i announced),
    )
