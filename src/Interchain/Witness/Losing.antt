-- ===== src/Interchain/Witness/Losing.antt =====
-- interchain/witness/metachain_witness.go: a range that has been queried is not queried again, whatever
-- came of the query.
use theta_protocol_subchain.Prelude.{
  ℕ, ◌+◌, ◌≤◌, ◌≡◌, inl, inr, sym, ap, ◌∙◌, some_inj, Bool, true, false, none, some, List, [], ◌∷◌,
  ◌==◌, arith, Bool-cases, Option-cases, In, All,
}
use theta_protocol_subchain.Prelude.Dict.{lookup}
use theta_protocol_subchain.Prelude.Int.{
  ℤ, pos, pos_part, neg_part, ltb_ℤ, ◌≤ℤ◌, ◌+ℤ◌, ◌-ℤ◌, +ℤ_parts, -ℤ_parts,
}
use theta_protocol_subchain.Interchain.Witness.{
  WitnessConfig, Query, World, MetachainWitness, chain_id, known_height, calculate_to_block, update,
  run_updates,
}
use theta_protocol_subchain.Interchain.Witness.Updates.{chain_of, Round, update-Round}
use theta_protocol_subchain.Interchain.Witness.Bounds.{AtLeast, IsAbove, run_updates-from}

ltb_ℤ→parts : (z : ℤ) → ltb_ℤ (pos 300) z ≡ true → 300 + neg_part z + 1 ≤ pos_part z
ltb_ℤ→parts z h = ground arith

-- The numbers that a chain answers in a run do not fall; a round without an answer is passed over.
abbrev pub Rising : Bool → ℕ → List World → Type 0
Rising b k [] = Unit
Rising b k (w ∷ ws) = elim (chain_of w b).block_number [
  | none ↦ Rising b k ws
  | some n ↦ (k ≤ n) × Rising b n ws
]

Rising-AtLeast :
    (b : Bool) (c : WitnessConfig) (m : ℤ) (k : ℕ) (ws : List World)
    → AtLeast m (some k)
    → Rising b k ws
    → All (λ w. w.cannot_read_height (chain_id c b) ≡ false) ws
    → All (IsAbove c b m) ws
Rising-AtLeast b c m k [] low up can = tt
Rising-AtLeast b c m k (w ∷ ws) low up can = elim (Option-cases (chain_of w b).block_number) [
  | inl silent ↦
      let up' : Rising b k ws = rw (silent, Rising) at up in
      (record { readable = can.0; above = rw silent tt }, Rising-AtLeast b c m k ws low up' can.1)
  | inr (n, answered) ↦
      let up' : (k ≤ n) × Rising b n ws = rw (answered, Rising) at up in
      let higher : AtLeast m (some n) = omega (arith, low, up'.0) in
      (
        record { readable = can.0; above = rw answered higher },
        Rising-AtLeast b c m n ws higher up'.1 can.1,
      )
]

-- The bound of a query that was sent: the height that it was computed from is above its end.
calculate_to_block-below :
    (f : ℤ) (k : ℕ)
    → pos_part (calculate_to_block f (some k)) + 1 ≤ k + neg_part (calculate_to_block f (some k))
unfolding calculate_to_block
calculate_to_block-below f k = elim (Bool-cases (ltb_ℤ (pos 300) (pos k -ℤ f))) [
  | inl far ↦
      let over = ltb_ℤ→parts (pos k -ℤ f) far in
      rw far (omega (arith, +ℤ_parts f (pos 300), -ℤ_parts (pos k) f, over))
  | inr near ↦ rw near (omega (arith, -ℤ_parts (pos k) (pos 2)))
]

module _ (c : WitnessConfig) (distinct : (c.mainchain_id == c.subchain_id) ≡ false) (b : Bool) where
  -- The height that a round queried with, and the one that is known after it.
  Round-heights :
      (k : ℕ) (w : World) (ws : List World) (mw mid : MetachainWitness) (qs : List Query) (last : ℤ)
      → known_height c b mw ≡ some k
      → Rising b k (w ∷ ws)
      → (r : Round c w b last mw mid qs)
      → (x : ℕ) × (y : ℕ) × (r.known ≡ some x)
        × (known_height c b mid ≡ some y)
        × (x ≤ y)
        × Rising b y ws
  Round-heights k w ws mw mid qs last known up r = elim r.known_after [
    | inl (silent, kept) ↦
        let up' : Rising b k ws = rw (silent, Rising) at up in
        elim r.known_is [
          | inl same ↦ (k, k, same ∙ known, kept ∙ known, omega arith, up')
          | inr (inl (_, same)) ↦ (k, k, same ∙ known, kept ∙ known, omega arith, up')
          | inr (inr (n, answered, _)) ↦ cc (sym silent ∙ answered)
        ]
    | inr (n, answered, now) ↦
        let up' : (k ≤ n) × Rising b n ws = rw (answered, Rising) at up in
        elim r.known_is [
          | inl same ↦ (k, n, same ∙ known, now, up'.0, up'.1)
          | inr (inl (silent, _)) ↦ cc (sym silent ∙ answered)
          | inr (inr (n', answered', same)) ↦
              let e : n' ≡ n = some_inj (sym answered' ∙ answered) in
              (n', n, same, now, omega (arith, e), up'.1)
        ]
  ]

  -- No query of the rounds after a round starts more than one block below the end of the query
  -- that the round sent, whatever came of that query: the events of a failed one are not asked
  -- for again. The hypotheses: the end of the query could be written and later heights can be
  -- read, the numbers that the chain answers do not fall, the rounds do not panic, and the two
  -- chain IDs differ.
  pub run_updates-later :
      (w : World) (ws : List World) (mw mid mw' : MetachainWitness) (qs log : List Query) (last : ℤ)
      (k : ℕ) (q q' : Query)
      → lookup (chain_id c b) mw.last_queryed ≡ some last
      → known_height c b mw ≡ some k
      → Rising b k (w ∷ ws)
      → All (λ w. w.cannot_read_height (chain_id c b) ≡ false) ws
      → update c w mw ≡ some (mid, qs)
      → run_updates c ws mid ≡ some (mw', log)
      → In q qs
      → q.on_main ≡ b
      → w.cannot_write_height (chain_id c b) q.to_block ≡ false
      → In q' log
      → q'.on_main ≡ b
      → q.to_block ≤ℤ q'.from_block +ℤ pos 1
  run_updates-later w ws mw mid mw' qs log last k q q' old known up can first rest i on writable i'
        on' =
      let r = update-Round c w distinct b mw mid qs last old first in
      let same : q ≡ r.query = r.only q i on in
      let (x, y, used, after, le, rising) = Round-heights k w ws mw mid qs last known up r in
      let ends : q.to_block ≡ calculate_to_block r.query.from_block (some x) =
        ap (λ (s : Query). s.to_block) same
        ∙ r.to_is
        ∙ ap (calculate_to_block r.query.from_block) used in
      let moved : r.next ≡ q.to_block = elim r.moved [
        | inl to_end ↦ to_end ∙ ap (λ (s : Query). s.to_block) (sym same)
        | inr (stuck, _) ↦ cc (ap (λ (s : Query). s.to_block) same)
      ] in
      let below : pos_part q.to_block + 1 ≤ x + neg_part q.to_block =
        rw ends (calculate_to_block-below r.query.from_block x) in
      let m = q.to_block -ℤ pos 1 in
      let bound : AtLeast m (some y) = omega (arith, -ℤ_parts q.to_block (pos 1), below, le) in
      let there : m ≤ℤ r.next = rw moved (omega (arith, -ℤ_parts q.to_block (pos 1))) in
      let later =
        run_updates-from c distinct b m ws mid mw' log r.next q' r.next_is rest
          (Rising-AtLeast b c m y ws bound rising can) (rw after bound) there i' on' in
      omega (arith, later, -ℤ_parts q.to_block (pos 1), +ℤ_parts q'.from_block (pos 1))
