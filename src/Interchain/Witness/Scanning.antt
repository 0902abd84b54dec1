-- ===== src/Interchain/Witness/Scanning.antt =====
-- interchain/witness/metachain_witness.go: the scan of a chain over many rounds.
use theta_protocol_subchain.Prelude.{
  ℕ, ◌+◌, ◌≡◌, ◌∙◌, inl, inr, sym, ap, Bool, false, some, List, [], ◌∷◌, ◌++◌, ◌==◌, arith,
  Bool-cases, Option-cases, In, In-append_left, In-append_right, some_inj, some_pair_inj,
}
use theta_protocol_subchain.Prelude.Dict.{lookup}
use theta_protocol_subchain.Prelude.Int.{ℤ, pos, ltb_ℤ, ◌≤ℤ◌, suc-le_of_ltb_ℤ, le_of_ltb_ℤ}
use theta_protocol_subchain.Interchain.Witness.{
  WitnessConfig, Query, World, MetachainWitness, chain_id, update, run_updates,
}
use theta_protocol_subchain.Interchain.Witness.Updates.{Round, update-Round}

-- The block is in the range of a query to the chain.
abbrev pub Covers : Bool → ℕ → Query → Type 0
Covers b h q = (q.on_main ≡ b) × (q.from_block ≤ℤ pos h) × (pos h ≤ℤ q.to_block)

module _ (c : WitnessConfig) (distinct : (c.mainchain_id == c.subchain_id) ≡ false) (b : Bool) where
  Round-Covers :
      (w : World) (mw mw' : MetachainWitness) (qs : List Query) (last next : ℤ) (h : ℕ)
      → (r : Round c w b last mw mw' qs) → lookup (chain_id c b) mw'.last_queryed ≡ some next
      → last ≤ℤ pos h
      → pos (h + 1) ≤ℤ next
      → Covers b h r.query
  Round-Covers w mw mw' qs last next h r is low high =
      let same : next ≡ r.next = some_inj (sym is ∙ r.next_is) in
      let from_low : r.query.from_block ≤ℤ pos h = elim r.from_where [
        | inl there ↦ rw there low
        | inr (_, zero_start) ↦ rw zero_start (omega arith)
      ] in
      elim r.moved [
        | inl to_end ↦
            let e : next ≡ r.query.to_block = same ∙ to_end in
            let high' : pos (h + 1) ≤ℤ r.query.to_block = rw e at high in
            (r.side, from_low, omega (arith, high'))
        | inr (_, stays) ↦
            let e : next ≡ last = same ∙ stays in
            let high' : pos (h + 1) ≤ℤ last = rw e at high in absurd (omega (arith, high'))
      ]

  -- The first round of a run, and the others.
  pub record Rest (w : World) (ws : List World) (mw mw' : MetachainWitness) (log : List Query)
      : Type 0 where
    pub mid : MetachainWitness
    pub first_log : List Query
    pub rest_log : List Query
    pub first : update c w mw ≡ some (mid, first_log)
    pub rest : run_updates c ws mid ≡ some (mw', rest_log)
    pub log_is : log ≡ first_log ++ rest_log

  pub run_updates-Rest :
      (w : World) (ws : List World) (mw mw' : MetachainWitness) (log : List Query)
      → run_updates c (w ∷ ws) mw ≡ some (mw', log)
      → Rest w ws mw mw' log
  unfolding run_updates
  run_updates-Rest w ws mw mw' log done = elim (Option-cases (update c w mw)) [
    | inl panic ↦ cc (rw (panic, run_updates) at done)
    | inr ((mid, qs), first) ↦ elim (Option-cases (run_updates c ws mid)) [
      | inl panic ↦ cc (rw (first, panic, run_updates) at done)
      | inr ((last, more), rest) ↦
          let (same, all) = some_pair_inj (sym (rw (first, rest, run_updates) at done)) in
          record {
            mid = mid;
            first_log = qs;
            rest_log = more;
            first = first;
            rest = rw same rest;
            log_is = all;
          }
    ]
  ]

  -- Where a run of rounds of `update` does not panic, the two chain IDs differ, and the last
  -- height queried on a chain goes from one number to another, every height from the first up to
  -- but without the second is in the range of a query to that chain that was sent in the run,
  -- whatever errors there are in between.
  pub run_updates-Covers :
      (ws : List World) (mw mw' : MetachainWitness) (log : List Query) (last next : ℤ) (h : ℕ)
      → lookup (chain_id c b) mw.last_queryed ≡ some last
      → run_updates c ws mw ≡ some (mw', log)
      → lookup (chain_id c b) mw'.last_queryed ≡ some next
      → last ≤ℤ pos h
      → pos (h + 1) ≤ℤ next
      → (q : Query) × In q log × Covers b h q
  unfolding run_updates
  run_updates-Covers [] mw mw' log last next h old done is low high =
      let same = (some_pair_inj done).0 in
      let e : last ≡ next =
        some_inj (
          sym old
          ∙ ap (λ (s : MetachainWitness). lookup (chain_id c b) s.last_queryed) same
          ∙ is) in
      let high' : pos (h + 1) ≤ℤ last = rw (← e) at high in absurd (omega (arith, high'))
  run_updates-Covers (w ∷ ws) mw mw' log last next h old done is low high =
      let rest = run_updates-Rest w ws mw mw' log done in
      let r = update-Round c w distinct b mw rest.mid rest.first_log last old rest.first in
      elim (Bool-cases (ltb_ℤ (pos h) r.next)) [
        | inl before ↦
            let covered =
              Round-Covers w mw rest.mid rest.first_log last r.next h r r.next_is low
                (suc-le_of_ltb_ℤ h r.next before) in
            (
              r.query,
              rw rest.log_is (In-append_left r.query rest.first_log rest.rest_log r.sent),
              covered,
            )
        | inr after ↦
            let (q, there, covered) =
              run_updates-Covers ws rest.mid mw' rest.rest_log r.next next h r.next_is rest.rest is
                (le_of_ltb_ℤ (pos h) r.next after) high in
            (q, rw rest.log_is (In-append_right q rest.first_log rest.rest_log there), covered)
      ]
