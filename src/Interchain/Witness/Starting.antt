-- ===== src/Interchain/Witness/Starting.antt =====
-- interchain/witness/metachain_witness.go: the height from which a new node scans a chain.
use theta_protocol_subchain.Prelude.{
  ℕ, ◌+◌, ◌-◌, ◌^◌, ◌≤◌, ◌≡◌, ◌⊎◌, inl, inr, refl, Bool, true, false, none, some, List, [], ◌∷◌,
  ltb, if◌then◌else◌, arith, Option-cases, In, some_inj,
}
use theta_protocol_subchain.Interchain.Denom.{CrossChainTokenType, tnt1155}
use theta_protocol_subchain.Interchain.Events.{InterChainMessageEventType}
use theta_protocol_subchain.Interchain.Witness.Heights.{
  Chain, TokenBank, event_height, lowest_height, scanned_types, get_block_scan_starting_height,
}

pub starting_height_total :
    (main_id sub_id : ℕ) (main sub : Chain) (b : Bool)
    → (h : ℕ) × (get_block_scan_starting_height main_id sub_id main sub b ≡ some h)
unfolding get_block_scan_starting_height
starting_height_total main_id sub_id main sub true =
    elim (Option-cases (get_block_scan_starting_height main_id sub_id main sub true)) [
      | inl e ↦ cc e
      | inr found ↦ found
    ]
starting_height_total main_id sub_id main sub false =
    elim (Option-cases (get_block_scan_starting_height main_id sub_id main sub false)) [
      | inl e ↦ cc e
      | inr found ↦ found
    ]

module _ (main_id sub_id : ℕ) (main sub : Chain) (b : Bool) where
  lowest_height_lem :
      (kinds : List InterChainMessageEventType) (lowest r : ℕ)
      → lowest_height main_id sub_id main sub b lowest kinds ≡ some r
      → (r ≤ lowest)
        × ((kind : InterChainMessageEventType)
            → In kind kinds
            → (h : ℕ) × (event_height main_id sub_id main sub b kind ≡ some h) × (r ≤ h))
  unfolding lowest_height
  lowest_height_lem [] lowest r done =
      (let e = some_inj done in omega (arith, e), λ kind i. absurd i)
  lowest_height_lem (kind ∷ kinds) lowest r done =
      elim (Option-cases (event_height main_id sub_id main sub b kind)) [
        | inl panic ↦ cc (rw (panic, lowest_height) at done)
        | inr (h, found) ↦
            let next : ℕ = if ltb h lowest then h else lowest in
            let (below, others) =
              lowest_height_lem kinds next r (rw (found, lowest_height) at done) in
            let le : next ≤ lowest = ground arith in
            let le' : next ≤ h = ground arith in
            (
              omega (arith, below, le),
              λ kind' i. elim i [
                | inl here ↦ (h, rw here found, omega (arith, below, le'))
                | inr there ↦ others kind' there
              ],
            )
      ]

  -- The scan of a chain without a last queried height starts at 0, or at least five blocks below
  -- the height of every scanned type of events.
  pub get_block_scan_starting_height_lem :
      (kind : InterChainMessageEventType)
      → In kind (scanned_types main_id sub_id main sub)
      → (start : ℕ) × (h : ℕ) × (get_block_scan_starting_height main_id sub_id main sub b
          ≡ some start)
        × (event_height main_id sub_id main sub b kind ≡ some h)
        × ((start ≡ 0) ⊎ (start + 5 ≤ h))
  unfolding get_block_scan_starting_height
  get_block_scan_starting_height_lem kind i =
      let kinds = scanned_types main_id sub_id main sub in
      elim (Option-cases (lowest_height main_id sub_id main sub b (2 ^ 64 - 1) kinds)) [
        | inl panic ↦
            let (start, begun) = starting_height_total main_id sub_id main sub b in
            cc (rw (panic, get_block_scan_starting_height) at begun)
        | inr (lowest, found) ↦
            let (h, height, le) = (lowest_height_lem kinds (2 ^ 64 - 1) lowest found).1 kind i in
            let start : ℕ = if ltb 5 lowest then lowest - 5 else 0 in
            (start, h, rw (found, get_block_scan_starting_height) refl, height, ground (arith, le))
      ]

-- The banks that answer nothing about the locks of TNT1155.
silent : TokenBank → TokenBank
silent bank = record bank {
  max_processed_token_lock_nonce = λ chain. none;
  token_lock_event_height = λ chain nonce. none;
}

pub forget_locks : (CrossChainTokenType → TokenBank) → CrossChainTokenType → TokenBank
forget_locks bank tnt1155 = silent (bank tnt1155)
forget_locks bank token = bank token

abbrev pub without_tnt1155_locks : Chain → Chain
without_tnt1155_locks chain = record chain { bank = forget_locks chain.bank }

-- The starting height of the scan is the same if the banks of TNT1155 on both chains answer
-- nothing about locks, although other types count.
get_block_scan_starting_height-tnt1155 :
    (main_id sub_id : ℕ) (main sub : Chain) (b : Bool)
    → get_block_scan_starting_height main_id sub_id main sub b
      ≡ get_block_scan_starting_height main_id sub_id
          (without_tnt1155_locks main)
          (without_tnt1155_locks sub)
          b
unfolding get_block_scan_starting_height forget_locks silent
get_block_scan_starting_height-tnt1155 main_id sub_id main sub true = refl
get_block_scan_starting_height-tnt1155 main_id sub_id main sub false = refl
