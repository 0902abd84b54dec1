-- ===== src/Netsync/Inventory/Rounds.antt =====
-- netsync/request.go: the loop of `buildInventoryRequest` ends.
use theta_protocol_subchain.Prelude.{
  ℕ, suc, zero, ◌+◌, ◌-◌, ◌*◌, ◌^◌, ◌≤◌, ◌<◌, ◌≡◌, inl, inr, refl, sym, some, List, [], ◌++◌, ltb,
  leb, ◌||◌, arith, Bool-cases, Option-cases, some_inj,
}
use theta_protocol_subchain.Chain.Store.{Chain, find_blocks_by_height}
use theta_protocol_subchain.Netsync.Inventory.{hashes_of, next_step, collect_starts}

-- So many doublings of the step make it too large.
Doubles : ℕ → ℕ → Type 0
Doubles zero step = 2 ^ 63 ≤ step
Doubles (suc fuel) step = Doubles fuel (step * 2)

-- The rounds that are enough `k` heights before the step begins to double.
unfoldable pub rounds : ℕ → ℕ
rounds zero = 64
rounds (suc k) = suc (rounds k)

module _ (ch : Chain) (tip lfb : ℕ) where
  -- A round ends the loop, or adds the blocks of its height and goes on.
  pub data Round (fuel step index : ℕ) : Type 0 where
    ends :
        (lfb < index → (next_step tip index step ≤ index) → next_step tip index step < 2 ^ 63 → ⊥)
        → collect_starts ch tip lfb (suc fuel) step index ≡ some []
        → Round fuel step index
    goes_on :
        lfb < index
        → next_step tip index step ≤ index
        → next_step tip index step < 2 ^ 63
        → ((stride : ℕ) (starts : List ℕ)
            → next_step tip index step ≡ stride
            → collect_starts ch tip lfb fuel stride (index - stride) ≡ some starts
            → collect_starts ch tip lfb (suc fuel) step index
              ≡ some (hashes_of (find_blocks_by_height ch index) ++ starts))
        → ((starts : List ℕ)
            → collect_starts ch tip lfb (suc fuel) step index ≡ some starts
            → (rest : List ℕ) × (collect_starts ch tip lfb fuel
                  (next_step tip index step)
                  (index - next_step tip index step)
                ≡ some rest)
              × (starts ≡ hashes_of (find_blocks_by_height ch index) ++ rest))
        → Round fuel step index

  pub collect_starts-Round : (fuel step index : ℕ) → Round fuel step index
  unfolding collect_starts
  collect_starts-Round fuel step index = elim (Bool-cases (ltb lfb index)) [
    | inr low ↦ ends (λ h. ground arith) (rw low refl)
    | inl high ↦
        let stride = next_step tip index step in
        elim (Bool-cases (ltb index stride || leb (2 ^ 63) stride)) [
          | inl over ↦ ends (λ h h' h''. ground (arith, over)) (rw (high, over) refl)
          | inr within ↦
              goes_on (ground arith) (ground (arith, within)) (ground (arith, within))
                (λ stride' starts same done.
                  let done' : collect_starts ch tip lfb fuel stride (index - stride) ≡ some starts =
                    rw same done in
                  rw (high, within, done') refl)
                (λ starts done.
                  elim (Option-cases (collect_starts ch tip lfb fuel stride (index - stride))) [
                    | inl out ↦ cc (rw (high, within, out, collect_starts) at done)
                    | inr (rest, more) ↦ (
                      rest,
                      more,
                      sym (some_inj (rw (high, within, more, collect_starts) at done)),
                    )
                  ])
        ]
  ]

  -- Ten heights and more below the tip the step doubles in every round.
  collect_starts-doubling :
      (fuel step index : ℕ)
      → Doubles fuel (step * 2)
      → index + 10 ≤ tip
      → (starts : List ℕ) × (collect_starts ch tip lfb (suc fuel) step index ≡ some starts)
  unfolding next_step Doubles
  collect_starts-doubling zero step index enough far = elim (collect_starts-Round 0 step index) [
    | ends _ done ↦ ([], done)
    | goes_on _ _ small _ _ ↦
        let doubled : next_step tip index step ≡ step * 2 = ground arith in
        absurd (omega (arith, small, enough, doubled))
  ]
  collect_starts-doubling (suc fuel) step index enough far =
      elim (collect_starts-Round (suc fuel) step index) [
        | ends _ done ↦ ([], done)
        | goes_on _ _ _ more _ ↦
            let doubled : next_step tip index step ≡ step * 2 = ground arith in
            let (starts, done) =
              collect_starts-doubling fuel (step * 2) (index - step * 2) enough
                (omega (arith, far)) in
            (
              hashes_of (find_blocks_by_height ch index) ++ starts,
              more (step * 2) starts doubled done,
            )
      ]

  pub collect_starts_total :
      (k index : ℕ)
      → index + 10 ≡ tip + k
      → (starts : List ℕ) × (collect_starts ch tip lfb (rounds k) 1 index ≡ some starts)
  unfolding next_step rounds Doubles
  collect_starts_total zero index near =
      collect_starts-doubling 63 1 index (omega arith) (omega (arith, near))
  collect_starts_total (suc k) index near = elim (collect_starts-Round (rounds k) 1 index) [
    | ends _ done ↦ ([], done)
    | goes_on high fits small more _ ↦
        let one : next_step tip index 1 ≡ 1 = ground (arith, near) in
        let (starts, done) = collect_starts_total k (index - 1) (omega (arith, high, near)) in
        (hashes_of (find_blocks_by_height ch index) ++ starts, more 1 starts one done)
  ]
