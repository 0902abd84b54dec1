-- ===== src/Interchain/Witness/Rounds.antt =====
-- interchain/witness/metachain_witness.go: what a round does to the scan of one of the two chains.
use theta_protocol_subchain.Prelude.{
  ℕ, ◌≡◌, ◌∙◌, ◌⊎◌, inl, inr, refl, sym, subst, Bool, true, false, some, ◌==◌, Bool-cases,
  Option-cases, some_pair_inj,
}
use theta_protocol_subchain.Prelude.Dict.{lookup, lookup-insert_same, lookup-insert_other}
use theta_protocol_subchain.Prelude.Int.{ℤ, pos}
use theta_protocol_subchain.Interchain.Cache.{Entries, insert_list}
use theta_protocol_subchain.Interchain.Witness.Heights.{get_block_scan_starting_height}
use theta_protocol_subchain.Interchain.Witness.{
  WitnessConfig, Query, World, MetachainWitness, chain_id, known_height, calculate_to_block,
  set_last_queryed_height, find_from_block, events_of, query_range,
  collect_inter_chain_message_events_on_chain,
}

module _ (c : WitnessConfig) (w : World) (b : Bool) where
  set_last-same :
      (height : ℤ) (mw : MetachainWitness) (last : ℤ)
      → lookup (chain_id c b) mw.last_queryed ≡ some last
      → (l : ℤ) × (lookup
            (chain_id c b)
            (set_last_queryed_height w (chain_id c b) height mw).last_queryed
          ≡ some l)
        × ((l ≡ height) ⊎ ((w.cannot_write_height (chain_id c b) height ≡ true) × (l ≡ last)))
  unfolding set_last_queryed_height
  set_last-same height mw last old =
      elim (Bool-cases (w.cannot_write_height (chain_id c b) height)) [
        | inl stuck ↦ (last, rw stuck old, inr (stuck, refl))
        | inr free ↦
            (height, rw free (lookup-insert_same (chain_id c b) height mw.last_queryed), inl refl)
      ]

  set_last-other :
      (height : ℤ) (mw : MetachainWitness) (j : ℕ)
      → (chain_id c b == j) ≡ false
      → lookup j (set_last_queryed_height w (chain_id c b) height mw).last_queryed
        ≡ lookup j mw.last_queryed
  unfolding set_last_queryed_height
  set_last-other height mw j other =
      elim (Bool-cases (w.cannot_write_height (chain_id c b) height)) [
        | inl stuck ↦ rw stuck refl
        | inr free ↦ rw free (lookup-insert_other (chain_id c b) j height mw.last_queryed other)
      ]

  set_last-heights :
      (height : ℤ) (mw : MetachainWitness) (side : Bool)
      → known_height c side (set_last_queryed_height w (chain_id c b) height mw)
        ≡ known_height c side mw
  unfolding set_last_queryed_height
  set_last-heights height mw true =
      elim (Bool-cases (w.cannot_write_height (chain_id c b) height)) [
        | inl stuck ↦ rw stuck refl
        | inr free ↦ rw free refl
      ]
  set_last-heights height mw false =
      elim (Bool-cases (w.cannot_write_height (chain_id c b) height)) [
        | inl stuck ↦ rw stuck refl
        | inr free ↦ rw free refl
      ]

  stored-heights :
      (mw : MetachainWitness) (cache : Entries) (side : Bool)
      → known_height c side (record mw { inter_chain_event_cache = cache }) ≡ known_height c side mw
  stored-heights mw cache true = refl
  stored-heights mw cache false = refl

  -- A query of a range that does not panic.
  pub record Ranged (from_block to_block : ℤ) (mw mw' : MetachainWitness) (q : Query) : Type 0 where
    pub side : q.on_main ≡ b
    pub from_is : q.from_block ≡ from_block
    pub to_is : q.to_block ≡ to_block
    pub last_same :
        (last : ℤ)
        → lookup (chain_id c b) mw.last_queryed ≡ some last
        → (l : ℤ) × (lookup (chain_id c b) mw'.last_queryed ≡ some l)
          × ((l ≡ to_block) ⊎ ((w.cannot_write_height (chain_id c b) to_block ≡ true) × (l ≡ last)))
    pub others :
        (j : ℕ) → (chain_id c b == j) ≡ false → lookup j mw'.last_queryed ≡ lookup j mw.last_queryed
    pub heights : (s : Bool) → known_height c s mw' ≡ known_height c s mw

  query_range-Ranged :
      (from_block to_block : ℤ) (mw mw' : MetachainWitness) (q : Query)
      → query_range c w b from_block to_block mw ≡ some (mw', q)
      → Ranged from_block to_block mw mw' q
  unfolding query_range
  query_range-Ranged from_block to_block mw mw' q done =
      let inserted =
        insert_list w.cache_faults (events_of (w.logs b from_block to_block))
          mw.inter_chain_event_cache in
      let stored = record mw { inter_chain_event_cache = inserted.0 } in
      elim (Bool-cases inserted.1) [
        | inl taken ↦
            let (same, same_query) = some_pair_inj (sym (rw (taken, query_range) at done)) in
            rw (same, same_query)
              (record {
                side = refl;
                from_is = refl;
                to_is = refl;
                last_same = λ last old. set_last-same to_block stored last old;
                others = λ j other. set_last-other to_block stored j other;
                heights = λ s. set_last-heights to_block stored s ∙ stored-heights mw inserted.0 s;
              })
        | inr refused ↦ cc (rw (refused, query_range) at done)
      ]

  -- The height that a round queries from.
  find_from_block-from :
      (mw : MetachainWitness) (last : ℤ)
      → lookup (chain_id c b) mw.last_queryed ≡ some last
      → (f : ℤ) × (find_from_block c w b mw ≡ some (mw, f))
        × ((f ≡ last) ⊎ ((w.cannot_read_height (chain_id c b) ≡ true) × (f ≡ pos 0)))
  unfolding find_from_block
  find_from_block-from mw last old = elim (Bool-cases (w.cannot_read_height (chain_id c b))) [
    | inl stuck ↦ (pos 0, rw stuck refl, inr (stuck, refl))
    | inr free ↦ (last, rw (free, old, find_from_block) refl, inl refl)
  ]

  -- A scan that has begun.
  pub record Scanned (last : ℤ) (mw mw' : MetachainWitness) (q : Query) : Type 0 where
    pub ranged :
        Ranged q.from_block (calculate_to_block q.from_block (known_height c b mw)) mw mw' q
    pub from_where :
        (q.from_block ≡ last)
        ⊎ ((w.cannot_read_height (chain_id c b) ≡ true) × (q.from_block ≡ pos 0))

  pub collect-Scanned :
      (mw mw' : MetachainWitness) (q : Query) (last : ℤ)
      → lookup (chain_id c b) mw.last_queryed ≡ some last
      → collect_inter_chain_message_events_on_chain c w b mw ≡ some (mw', q)
      → Scanned last mw mw' q
  unfolding collect_inter_chain_message_events_on_chain
  collect-Scanned mw mw' q last old done =
      let (f, found_from, why) = find_from_block-from mw last old in
      let ranged =
        query_range-Ranged f (calculate_to_block f (known_height c b mw)) mw mw' q
          (rw (found_from, collect_inter_chain_message_events_on_chain) at done) in
      record {
        ranged =
            subst (λ (g : ℤ). Ranged g (calculate_to_block g (known_height c b mw)) mw mw' q)
              (sym ranged.from_is) ranged;
        from_where = rw ranged.from_is why;
      }

  -- What a scan leaves alone, begun or not.
  pub record Elsewhere (mw mw' : MetachainWitness) (q : Query) : Type 0 where
    pub side : q.on_main ≡ b
    pub others :
        (j : ℕ) → (chain_id c b == j) ≡ false → lookup j mw'.last_queryed ≡ lookup j mw.last_queryed
    pub heights : (s : Bool) → known_height c s mw' ≡ known_height c s mw

  find_from_block-Elsewhere :
      (mw mw' : MetachainWitness) (f : ℤ)
      → find_from_block c w b mw ≡ some (mw', f)
      → ((j : ℕ)
          → (chain_id c b == j) ≡ false
          → lookup j mw'.last_queryed ≡ lookup j mw.last_queryed)
        × ((s : Bool) → known_height c s mw' ≡ known_height c s mw)
  unfolding find_from_block
  find_from_block-Elsewhere mw mw' f done =
      let start = get_block_scan_starting_height c.mainchain_id c.subchain_id w.main w.sub b in
      elim (Bool-cases (w.cannot_read_height (chain_id c b))) [
        | inl stuck ↦
            let same = (some_pair_inj (sym (rw (stuck, find_from_block) at done))).0 in
            rw same (λ j other. refl, λ s. refl)
        | inr free ↦ elim (Option-cases (lookup (chain_id c b) mw.last_queryed)) [
          | inr (last, old) ↦
              let same = (some_pair_inj (sym (rw (free, old, find_from_block) at done))).0 in
              rw same (λ j other. refl, λ s. refl)
          | inl new ↦ elim (Option-cases start) [
            | inl panic ↦ cc (rw (free, new, panic, find_from_block) at done)
            | inr (height, begun) ↦
                let same =
                  (some_pair_inj (sym (rw (free, new, begun, find_from_block) at done))).0 in
                rw same (
                  λ j other. set_last-other (pos height) mw j other,
                  λ s. set_last-heights (pos height) mw s,
                )
          ]
        ]
      ]

  pub collect-Elsewhere :
      (mw mw' : MetachainWitness) (q : Query)
      → collect_inter_chain_message_events_on_chain c w b mw ≡ some (mw', q)
      → Elsewhere mw mw' q
  unfolding collect_inter_chain_message_events_on_chain
  collect-Elsewhere mw mw' q done = elim (Option-cases (find_from_block c w b mw)) [
    | inl panic ↦ cc (rw (panic, collect_inter_chain_message_events_on_chain) at done)
    | inr ((begun, f), found_from) ↦
        let ranged =
          query_range-Ranged f (calculate_to_block f (known_height c b mw)) begun mw' q
            (rw (found_from, collect_inter_chain_message_events_on_chain) at done) in
        let (others, heights) = find_from_block-Elsewhere mw begun f found_from in
        record {
          side = ranged.side;
          others = λ j other. ranged.others j other ∙ others j other;
          heights = λ s. ranged.heights s ∙ heights s;
        }
  ]
