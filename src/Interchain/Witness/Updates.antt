-- ===== src/Interchain/Witness/Updates.antt =====
-- interchain/witness/metachain_witness.go: the scan of one chain in a round of `update`.
use theta_protocol_subchain.Prelude.{
  ℕ, ◌+◌, ◌*◌, ◌≡◌, length, ◌∙◌, ◌⊎◌, inl, inr, refl, sym, ap, subst, Bool, true, false, Option,
  some, List, [], ◌∷◌, ◌==◌, ltb, arith, Bool-cases, Option-cases, In, some_pair_inj, none,
}
use theta_protocol_subchain.Prelude.Dict.{lookup}
use theta_protocol_subchain.Prelude.Int.{ℤ, pos}
use theta_protocol_subchain.Consensus.Proposing.{calculate_dynasty}
use theta_protocol_subchain.Interchain.Witness.Heights.{Chain}
use theta_protocol_subchain.Interchain.Witness.{
  WitnessConfig, Query, World, MetachainWitness, chain_id, known_height, calculate_to_block,
  update_validator_set_cache, collect_inter_chain_message_events_on_chain,
  update_mainchain_block_height, update_subchain_block_height, update_dynasty, update,
}
use theta_protocol_subchain.Interchain.Witness.Rounds.{collect-Scanned, collect-Elsewhere}

abbrev pub chain_of : World → Bool → Chain
chain_of w true = w.main
chain_of w false = w.sub

-- The height is the answer, or the old one where there is no answer.
abbrev pub Refreshed : Option ℕ → Option ℕ → Option ℕ → Type 0
Refreshed old answer height =
    ((answer ≡ none) × (height ≡ old)) ⊎ ((n : ℕ) × (answer ≡ some n) × (height ≡ some n))

module _ (c : WitnessConfig) (w : World) where
  abbrev pub SameScan : MetachainWitness → MetachainWitness → Type 0
  SameScan mw mw' =
      (mw'.last_queryed ≡ mw.last_queryed)
      × (mw'.mainchain_block_height ≡ mw.mainchain_block_height)
      × (mw'.subchain_block_height ≡ mw.subchain_block_height)

  validators-SameScan :
      (dynasty : ℕ) (mw : MetachainWitness)
      → SameScan mw (update_validator_set_cache w dynasty mw).0
  unfolding update_validator_set_cache
  validators-SameScan dynasty mw = elim (Option-cases (w.validators_at (dynasty * 10000 + 1))) [
    | inl failed ↦ rw (failed, update_validator_set_cache) (refl, refl, refl)
    | inr ((addresses, stakes), found) ↦ elim (Bool-cases (length addresses == length stakes)) [
      | inl fit ↦ rw (found, fit, update_validator_set_cache) (refl, refl, refl)
      | inr unfit ↦ rw (found, unfit, update_validator_set_cache) (refl, refl, refl)
    ]
  ]

  pub update_dynasty-SameScan :
      (height : ℕ) (mw : MetachainWitness) → SameScan mw (update_dynasty c w height mw)
  unfolding update_dynasty
  update_dynasty-SameScan height mw =
      elim (Bool-cases (ltb mw.witnessed_dynasty (calculate_dynasty height))) [
        | inl newer ↦ rw (newer, update_dynasty) (validators-SameScan (calculate_dynasty height) mw)
        | inr old ↦ rw (old, update_dynasty) (refl, refl, refl)
      ]

  -- The scans of a round that does not panic.
  record Parts (mw mw' : MetachainWitness) (qs : List Query) : Type 0 where
    height : ℕ
    known : (update_mainchain_block_height c w mw).mainchain_block_height ≡ some height
    mid : MetachainWitness
    on_main : Query
    first :
        collect_inter_chain_message_events_on_chain c w true
          (update_dynasty c w height (update_mainchain_block_height c w mw))
        ≡ some (mid, on_main)
    last : MetachainWitness
    on_sub : Query
    second : collect_inter_chain_message_events_on_chain c w false mid ≡ some (last, on_sub)
    end_is : mw' ≡ update_subchain_block_height c w last
    queries : qs ≡ on_main ∷ on_sub ∷ []

  update-Parts :
      (mw mw' : MetachainWitness) (qs : List Query)
      → update c w mw ≡ some (mw', qs)
      → Parts mw mw' qs
  unfolding update
  update-Parts mw mw' qs done =
      let started = update_mainchain_block_height c w mw in
      elim (Option-cases started.mainchain_block_height) [
        | inl unknown ↦ cc (rw (unknown, update) at done)
        | inr (height, known) ↦
            let begun = update_dynasty c w height started in
            elim (Option-cases (collect_inter_chain_message_events_on_chain c w true begun)) [
              | inl panic ↦ cc (rw (known, panic, update) at done)
              | inr ((mid, q), first) ↦
                  elim (Option-cases (collect_inter_chain_message_events_on_chain c w false mid)) [
                    | inl panic ↦ cc (rw (known, first, panic, update) at done)
                    | inr ((last, r), second) ↦
                        let (same, all) =
                          some_pair_inj (sym (rw (known, first, second, update) at done)) in
                        record {
                          height = height;
                          known = known;
                          mid = mid;
                          on_main = q;
                          first = first;
                          last = last;
                          on_sub = r;
                          second = second;
                          end_is = same;
                          queries = all;
                        }
                  ]
            ]
      ]

  -- The scan of a chain in a round, where it stands at `last` before it.
  pub record Round (b : Bool) (last : ℤ) (mw mw' : MetachainWitness) (qs : List Query)
      : Type 0 where
    pub query : Query
    pub sent : In query qs
    pub side : query.on_main ≡ b
    pub only : (q : Query) → In q qs → q.on_main ≡ b → q ≡ query
    pub known : Option ℕ
    pub known_is :
        (known ≡ known_height c b mw)
        ⊎ Refreshed (known_height c b mw) (chain_of w b).block_number known
    pub known_after :
        Refreshed (known_height c b mw) (chain_of w b).block_number (known_height c b mw')
    pub from_where :
        (query.from_block ≡ last)
        ⊎ ((w.cannot_read_height (chain_id c b) ≡ true) × (query.from_block ≡ pos 0))
    pub to_is : query.to_block ≡ calculate_to_block query.from_block known
    pub next : ℤ
    pub next_is : lookup (chain_id c b) mw'.last_queryed ≡ some next
    pub moved :
        (next ≡ query.to_block)
        ⊎ ((w.cannot_write_height (chain_id c b) query.to_block ≡ true) × (next ≡ last))

  pub mainchain_block_height_lem :
      (mw : MetachainWitness)
      → let mw' = update_mainchain_block_height c w mw in
        (mw'.last_queryed ≡ mw.last_queryed)
        × (mw'.subchain_block_height ≡ mw.subchain_block_height)
        × Refreshed mw.mainchain_block_height w.main.block_number mw'.mainchain_block_height
  unfolding update_mainchain_block_height
  mainchain_block_height_lem mw = elim (Option-cases w.main.block_number) [
    | inl failed ↦ rw (failed, update_mainchain_block_height) (refl, refl, inl (refl, refl))
    | inr (n, known) ↦ rw (known, update_mainchain_block_height) (refl, refl, inr (n, refl, refl))
  ]

  pub subchain_block_height_lem :
      (mw : MetachainWitness)
      → let mw' = update_subchain_block_height c w mw in
        (mw'.last_queryed ≡ mw.last_queryed)
        × (mw'.mainchain_block_height ≡ mw.mainchain_block_height)
        × Refreshed mw.subchain_block_height w.sub.block_number mw'.subchain_block_height
  unfolding update_subchain_block_height
  subchain_block_height_lem mw = elim (Option-cases w.sub.block_number) [
    | inl failed ↦ rw (failed, update_subchain_block_height) (refl, refl, inl (refl, refl))
    | inr (n, known) ↦ rw (known, update_subchain_block_height) (refl, refl, inr (n, refl, refl))
  ]

  Refreshed-eq :
      {old answer height height' : Option ℕ}
      → height' ≡ height
      → Refreshed old answer height
      → Refreshed old answer height'
  Refreshed-eq same (inl (failed, kept)) = inl (failed, same ∙ kept)
  Refreshed-eq same (inr (n, answered, is)) = inr (n, answered, same ∙ is)

  module _ (distinct : (c.mainchain_id == c.subchain_id) ≡ false) where
    distinct' : (c.subchain_id == c.mainchain_id) ≡ false
    distinct' = ground arith

    main-Round :
        (mw mw' : MetachainWitness) (qs : List Query) (last : ℤ)
        → lookup c.mainchain_id mw.last_queryed ≡ some last
        → Parts mw mw' qs
        → Round true last mw mw' qs
    main-Round mw mw' qs last old p =
        let (kept, _, fresh) = mainchain_block_height_lem mw in
        let (kept', same_main, _) =
          update_dynasty-SameScan p.height (update_mainchain_block_height c w mw) in
        let begun = update_dynasty c w p.height (update_mainchain_block_height c w mw) in
        let there : lookup c.mainchain_id begun.last_queryed ≡ some last =
          ap (lookup c.mainchain_id) (kept' ∙ kept) ∙ old in
        let scanned = collect-Scanned c w true begun p.mid p.on_main last there p.first in
        let other = collect-Elsewhere c w false p.mid p.last p.on_sub p.second in
        let (kept'', same_main', _) = subchain_block_height_lem p.last in
        let (next, next_is, moved) = scanned.ranged.last_same last there in
        record {
          query = p.on_main;
          sent = rw p.queries (inl refl);
          side = scanned.ranged.side;
          only = λ q i on. elim (rw p.queries at i) [
            | inl first ↦ first
            | inr (inl second) ↦ cc (other.side)
            | inr (inr nowhere) ↦ absurd nowhere
          ];
          known = begun.mainchain_block_height;
          known_is = inr (Refreshed-eq same_main fresh);
          known_after =
              Refreshed-eq
                (ap (λ (s : MetachainWitness). s.mainchain_block_height) p.end_is
                  ∙ same_main'
                  ∙ other.heights true
                  ∙ scanned.ranged.heights true
                  ∙ same_main)
                fresh;
          from_where = scanned.from_where;
          to_is = scanned.ranged.to_is;
          next = next;
          next_is =
              ap (λ (s : MetachainWitness). lookup c.mainchain_id s.last_queryed) p.end_is
              ∙ ap (lookup c.mainchain_id) kept''
              ∙ other.others c.mainchain_id distinct'
              ∙ next_is;
          moved = rw scanned.ranged.to_is moved;
        }

    sub-Round :
        (mw mw' : MetachainWitness) (qs : List Query) (last : ℤ)
        → lookup c.subchain_id mw.last_queryed ≡ some last
        → Parts mw mw' qs
        → Round false last mw mw' qs
    sub-Round mw mw' qs last old p =
        let (kept, same_sub, _) = mainchain_block_height_lem mw in
        let (kept', _, same_sub') =
          update_dynasty-SameScan p.height (update_mainchain_block_height c w mw) in
        let begun = update_dynasty c w p.height (update_mainchain_block_height c w mw) in
        let other = collect-Elsewhere c w true begun p.mid p.on_main p.first in
        let there : lookup c.subchain_id p.mid.last_queryed ≡ some last =
          other.others c.subchain_id distinct ∙ ap (lookup c.subchain_id) (kept' ∙ kept) ∙ old in
        let scanned = collect-Scanned c w false p.mid p.last p.on_sub last there p.second in
        let (kept'', _, fresh) = subchain_block_height_lem p.last in
        let (next, next_is, moved) = scanned.ranged.last_same last there in
        let before : p.mid.subchain_block_height ≡ mw.subchain_block_height =
          other.heights false ∙ same_sub' ∙ same_sub in
        let after : p.last.subchain_block_height ≡ mw.subchain_block_height =
          scanned.ranged.heights false ∙ before in
        record {
          query = p.on_sub;
          sent = rw p.queries (inr (inl refl));
          side = scanned.ranged.side;
          only = λ q i on. elim (rw p.queries at i) [
            | inl first ↦ cc (other.side)
            | inr (inl second) ↦ second
            | inr (inr nowhere) ↦ absurd nowhere
          ];
          known = p.mid.subchain_block_height;
          known_is = inl before;
          known_after =
              Refreshed-eq (ap (λ (s : MetachainWitness). s.subchain_block_height) p.end_is) (
                subst
                  (λ (old : Option ℕ).
                    Refreshed old w.sub.block_number
                      (update_subchain_block_height c w p.last).subchain_block_height)
                  after fresh);
          from_where = scanned.from_where;
          to_is = scanned.ranged.to_is;
          next = next;
          next_is =
              ap (λ (s : MetachainWitness). lookup c.subchain_id s.last_queryed) p.end_is
              ∙ ap (lookup c.subchain_id) kept''
              ∙ next_is;
          moved = rw scanned.ranged.to_is moved;
        }

    pub update-Round :
        (b : Bool) (mw mw' : MetachainWitness) (qs : List Query) (last : ℤ)
        → lookup (chain_id c b) mw.last_queryed ≡ some last
        → update c w mw ≡ some (mw', qs)
        → Round b last mw mw' qs
    update-Round true mw mw' qs last old done =
        main-Round mw mw' qs last old (update-Parts mw mw' qs done)
    update-Round false mw mw' qs last old done =
        sub-Round mw mw' qs last old (update-Parts mw mw' qs done)
