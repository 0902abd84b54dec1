-- ===== src/Interchain/Witness/Bounds.antt =====
-- interchain/witness/metachain_witness.go: no query starts below a bound that the chain's height has passed.
use theta_protocol_subchain.Prelude.{
  ℕ, ◌+◌, ◌≤◌, ◌≡◌, inl, inr, sym, Bool, false, Option, none, some, List, [], ◌∷◌, ◌==◌, arith,
  Bool-cases, In, In-append, some_pair_inj, All, ◌⊎◌,
}
use theta_protocol_subchain.Prelude.Dict.{lookup}
use theta_protocol_subchain.Prelude.Int.{
  ℤ, pos, pos_part, neg_part, ltb_ℤ, ◌≤ℤ◌, ◌-ℤ◌, +ℤ_parts, -ℤ_parts,
}
use theta_protocol_subchain.Interchain.Witness.{
  WitnessConfig, Query, World, MetachainWitness, chain_id, known_height, calculate_to_block,
  run_updates,
}
use theta_protocol_subchain.Interchain.Witness.Updates.{Refreshed, chain_of, Round, update-Round}
use theta_protocol_subchain.Interchain.Witness.Scanning.{run_updates-Rest}

-- The height is known, or not, and two blocks above the bound if it is.
abbrev pub AtLeast : ℤ → Option ℕ → Type 0
AtLeast m none = Unit
AtLeast m (some h) = pos_part m + 2 ≤ h + neg_part m

-- The height is known, and two blocks above the bound.
abbrev pub Knows : ℕ → Option ℕ → Type 0
Knows m none = ⊥
Knows m (some h) = m + 2 ≤ h

calculate_to_block-low :
    (m f : ℤ) (known : Option ℕ) → m ≤ℤ f → AtLeast m known → m ≤ℤ calculate_to_block f known
unfolding calculate_to_block
calculate_to_block-low m f none low _ = low
calculate_to_block-low m f (some h) low high = elim (Bool-cases (ltb_ℤ (pos 300) (pos h -ℤ f))) [
  | inl far ↦ rw far (omega (arith, +ℤ_parts f (pos 300)))
  | inr near ↦ rw near (omega (arith, -ℤ_parts (pos h) (pos 2)))
]

-- A round goes 300 blocks ahead, unless it comes within two blocks of the height.
pub calculate_to_block-ahead :
    (m n : ℕ) (f : ℤ) (known : Option ℕ)
    → Knows m known
    → n + neg_part f ≤ pos_part f + 300
    → n ≤ m
    → pos n ≤ℤ calculate_to_block f known
unfolding calculate_to_block
calculate_to_block-ahead m n f none high _ _ = absurd high
calculate_to_block-ahead m n f (some h) high near le =
    elim (Bool-cases (ltb_ℤ (pos 300) (pos h -ℤ f))) [
      | inl far ↦ rw far (omega (arith, +ℤ_parts f (pos 300)))
      | inr close ↦ rw close (omega (arith, -ℤ_parts (pos h) (pos 2)))
    ]

Refreshed-AtLeast :
    (m : ℤ) (old answer height : Option ℕ)
    → Refreshed old answer height
    → AtLeast m old
    → AtLeast m answer
    → AtLeast m height
Refreshed-AtLeast m old answer height (inl (_, kept)) low high = rw kept low
Refreshed-AtLeast m old answer height (inr (n, answered, is)) low high = rw is (rw answered at high)

-- The height of a query is the old one or the refreshed one.
known-AtLeast :
    (m : ℤ) (old answer height : Option ℕ)
    → (height ≡ old) ⊎ Refreshed old answer height
    → AtLeast m old
    → AtLeast m answer
    → AtLeast m height
known-AtLeast m old answer height (inl kept) low high = rw kept low
known-AtLeast m old answer height (inr fresh) low high =
    Refreshed-AtLeast m old answer height fresh low high

pub Refreshed-Knows :
    (m : ℕ) (old answer height : Option ℕ)
    → Refreshed old answer height
    → Knows m old
    → AtLeast (pos m) answer
    → Knows m height
Refreshed-Knows m old answer height (inl (_, kept)) low high = rw kept low
Refreshed-Knows m old answer height (inr (n, answered, is)) low high =
    let le : AtLeast (pos m) (some n) = rw answered at high in rw is (omega (arith, le))

pub known-Knows :
    (m : ℕ) {old answer height : Option ℕ}
    → (height ≡ old) ⊎ Refreshed old answer height
    → Knows m old
    → AtLeast (pos m) answer
    → Knows m height
known-Knows m (inl kept) low high = rw kept low
known-Knows m (inr fresh) low high = Refreshed-Knows m _ _ _ fresh low high

module _ (c : WitnessConfig) (b : Bool) where
  -- The chain's height is read and answered, never below the bound, or the answer fails.
  pub record IsAbove (m : ℤ) (w : World) : Type 0 where
    pub readable : w.cannot_read_height (chain_id c b) ≡ false
    pub above : AtLeast m (chain_of w b).block_number

module _ (c : WitnessConfig) (distinct : (c.mainchain_id == c.subchain_id) ≡ false) (b : Bool) where
  Round-from :
      (m : ℤ) (w : World) (mw mw' : MetachainWitness) (qs : List Query) (last : ℤ)
      → (r : Round c w b last mw mw' qs) → IsAbove c b m w
      → m ≤ℤ last
      → r.query.from_block ≡ last
  Round-from m w mw mw' qs last r up low = elim r.from_where [
    | inl there ↦ there
    | inr (stuck, _) ↦ cc (up.readable)
  ]

  Round-next :
      (m : ℤ) (w : World) (mw mw' : MetachainWitness) (qs : List Query) (last : ℤ)
      → (r : Round c w b last mw mw' qs) → IsAbove c b m w
      → AtLeast m (known_height c b mw)
      → m ≤ℤ last
      → m ≤ℤ r.next
  Round-next m w mw mw' qs last r up known low =
      let from_low : m ≤ℤ r.query.from_block = rw (Round-from m w mw mw' qs last r up low) low in
      let fresh =
        known-AtLeast m (known_height c b mw) (chain_of w b).block_number r.known r.known_is known
          up.above in
      elim r.moved [
        | inl to_end ↦
            rw (to_end, r.to_is)
              (calculate_to_block-low m r.query.from_block r.known from_low fresh)
        | inr (_, stays) ↦ rw stays low
      ]

  pub run_updates-from :
      (m : ℤ) (ws : List World) (mw mw' : MetachainWitness) (log : List Query) (last : ℤ)
      (q : Query)
      → lookup (chain_id c b) mw.last_queryed ≡ some last
      → run_updates c ws mw ≡ some (mw', log)
      → All (IsAbove c b m) ws
      → AtLeast m (known_height c b mw)
      → m ≤ℤ last
      → In q log
      → q.on_main ≡ b
      → m ≤ℤ q.from_block
  unfolding run_updates
  run_updates-from m [] mw mw' log last q old done up known low i on =
      absurd (rw (sym (some_pair_inj done).1) at i)
  run_updates-from m (w ∷ ws) mw mw' log last q old done up known low i on =
      let rest = run_updates-Rest c distinct b w ws mw mw' log done in
      let r = update-Round c w distinct b mw rest.mid rest.first_log last old rest.first in
      elim (In-append q rest.first_log rest.rest_log (rw rest.log_is at i)) [
        | inl now ↦
            rw (r.only q now on, Round-from m w mw rest.mid rest.first_log last r up.0 low) low
        | inr later ↦
            run_updates-from m ws rest.mid mw' rest.rest_log r.next q r.next_is rest.rest up.1
              (Refreshed-AtLeast m (known_height c b mw) (chain_of w b).block_number
                (known_height c b rest.mid) r.known_after known up.0.above)
              (Round-next m w mw rest.mid rest.first_log last r up.0 known low) later on
      ]
