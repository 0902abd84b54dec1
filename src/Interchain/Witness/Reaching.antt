-- ===== src/Interchain/Witness/Reaching.antt =====
-- interchain/witness/metachain_witness.go: the scan goes on, and comes near the height of the chain.
use theta_protocol_subchain.Prelude.{
  ℕ, ◌+◌, ◌*◌, ◌≤◌, ◌≡◌, ◌∙◌, inl, inr, refl, ap, Bool, true, false, Option, some, List, [], ◌∷◌,
  ◌++◌, ◌==◌, ltb, if◌then◌else◌, arith, Bool-cases, Option-cases, All, length,
}
use theta_protocol_subchain.Prelude.Dict.{lookup}
use theta_protocol_subchain.Prelude.Text.{Text}
use theta_protocol_subchain.Prelude.Int.{ℤ, pos, negsuc, ◌≤ℤ◌}
use theta_protocol_subchain.Interchain.Events.{InterChainMessageEvent}
use theta_protocol_subchain.Interchain.Cache.{
  Entries, Faults, put, insert_event, insert_list, key_of,
}
use theta_protocol_subchain.Interchain.Witness.{
  WitnessConfig, Query, World, MetachainWitness, chain_id, known_height, calculate_to_block,
  events_of, set_last_queryed_height, find_from_block, query_range,
  collect_inter_chain_message_events_on_chain, update_mainchain_block_height, update_dynasty,
  update_subchain_block_height, update, run_updates,
}
use theta_protocol_subchain.Interchain.Witness.Starting.{starting_height_total}
use theta_protocol_subchain.Interchain.Witness.Rounds.{collect-Elsewhere}
use theta_protocol_subchain.Interchain.Witness.Updates.{
  Refreshed, chain_of, Round, update-Round, mainchain_block_height_lem, subchain_block_height_lem,
  update_dynasty-SameScan,
}
use theta_protocol_subchain.Interchain.Witness.Bounds.{
  AtLeast, Knows, Refreshed-Knows, known-Knows, calculate_to_block-ahead,
}

insert_list_total :
    (faults : Faults) (es : List InterChainMessageEvent) (d : Entries)
    → ((k : Text) → faults.cannot_write k ≡ false)
    → (insert_list faults es d).1 ≡ true
unfolding insert_list insert_event
insert_list_total faults [] d ok = refl
insert_list_total faults (e ∷ es) d ok =
    rw (ok (key_of e), insert_event) (insert_list_total faults es (put (key_of e) e d) ok)

Refreshed-some :
    (k : ℕ) {answer height old : Option ℕ}
    → Refreshed old answer height
    → old ≡ some k
    → (n : ℕ) × (height ≡ some n)
Refreshed-some k (inl (_, kept)) known = (k, kept ∙ known)
Refreshed-some k (inr (n, _, now)) known = (n, now)

module _ (c : WitnessConfig) (w : World)
    (ok : (k : Text) → w.cache_faults.cannot_write k ≡ false) where
  find_from_block_total :
      (b : Bool) (mw : MetachainWitness)
      → (r : MetachainWitness × ℤ) × (find_from_block c w b mw ≡ some r)
  unfolding find_from_block
  find_from_block_total b mw = elim (Bool-cases (w.cannot_read_height (chain_id c b))) [
    | inl stuck ↦ ((mw, pos 0), rw stuck refl)
    | inr free ↦ elim (Option-cases (lookup (chain_id c b) mw.last_queryed)) [
      | inr (last, old) ↦ ((mw, last), rw (free, old, find_from_block) refl)
      | inl new ↦
          let (start, begun) = starting_height_total c.mainchain_id c.subchain_id w.main w.sub b in
          (
            (set_last_queryed_height w (chain_id c b) (pos start) mw, pos start),
            rw (free, new, begun, find_from_block) refl,
          )
    ]
  ]

  collect_total :
      (b : Bool) (mw : MetachainWitness)
      → (r : MetachainWitness × Query) × (collect_inter_chain_message_events_on_chain c w b mw
          ≡ some r)
  unfolding collect_inter_chain_message_events_on_chain query_range
  collect_total b mw =
      let ((started, f), begun) = find_from_block_total b mw in
      let to_block = calculate_to_block f (known_height c b mw) in
      let taken =
        insert_list_total w.cache_faults (events_of (w.logs b f to_block))
          started.inter_chain_event_cache ok in
      elim (Option-cases (collect_inter_chain_message_events_on_chain c w b mw)) [
        | inl panic ↦
            cc
              (rw (begun, taken, collect_inter_chain_message_events_on_chain, query_range) at panic)
        | inr done ↦ done
      ]

  update_total :
      (mw : MetachainWitness) (k : ℕ)
      → mw.mainchain_block_height ≡ some k
      → (r : MetachainWitness × List Query) × (n : ℕ) × (update c w mw ≡ some r)
        × (r.0.mainchain_block_height ≡ some n)
  unfolding update
  update_total mw k known =
      let started = update_mainchain_block_height c w mw in
      let (_, _, fresh) = mainchain_block_height_lem c w mw in
      let (n, now) = Refreshed-some k fresh known in
      let begun = update_dynasty c w n started in
      let ((mid, q), first) = collect_total true begun in
      let ((last, r), second) = collect_total false mid in
      let e1 = (collect-Elsewhere c w true begun mid q first).heights true in
      let e2 = (collect-Elsewhere c w false mid last r second).heights true in
      let (_, same_main, _) = subchain_block_height_lem c w last in
      let (_, same_main', _) = update_dynasty-SameScan c w n started in
      (
        (update_subchain_block_height c w last, q ∷ r ∷ []),
        n,
        rw (now, first, second, update) refl,
        same_main ∙ e2 ∙ e1 ∙ same_main' ∙ now,
      )

-- A number that is no less than a natural one is a natural one.
nonnegative : (n : ℕ) (z : ℤ) → pos n ≤ℤ z → (t : ℕ) × (z ≡ pos t)
nonnegative n (pos t) h = (t, refl)
nonnegative n (negsuc t) h = absurd (omega arith)

module _ (c : WitnessConfig) (distinct : (c.mainchain_id == c.subchain_id) ≡ false) (b : Bool) where
  -- A round in which the databases work, and the chain answers a height two above the bound, or none.
  pub record IsHealthy (m : ℕ) (w : World) : Type 0 where
    pub cache_works : (k : Text) → w.cache_faults.cannot_write k ≡ false
    pub readable : w.cannot_read_height (chain_id c b) ≡ false
    pub writable : (h : ℕ) → w.cannot_write_height (chain_id c b) (pos h) ≡ false
    pub high : AtLeast (pos m) (chain_of w b).block_number

  -- A round moves the scan up to `n'`, if that is no more than 300 blocks ahead.
  Round-ahead :
      (m n n' : ℕ) (w : World) (mw mw' : MetachainWitness) (qs : List Query) (last : ℤ)
      → (r : Round c w b last mw mw' qs) → IsHealthy m w
      → Knows m (known_height c b mw)
      → pos n ≤ℤ last
      → n' ≤ n + 300
      → n' ≤ m
      → pos n' ≤ℤ r.next
  Round-ahead m n n' w mw mw' qs last r up known low near le =
      let from_is : r.query.from_block ≡ last = elim r.from_where [
        | inl there ↦ there
        | inr (stuck, _) ↦ cc (up.readable)
      ] in
      let fresh = known-Knows m r.known_is known up.high in
      let ahead : pos n' ≤ℤ r.query.to_block =
        rw (r.to_is, from_is)
          (calculate_to_block-ahead m n' last r.known fresh (omega (arith, low)) le) in
      let (t, e) = nonnegative n' r.query.to_block ahead in
      elim r.moved [
        | inl to_end ↦ rw to_end ahead
        | inr (stuck, _) ↦ cc (ap (w.cannot_write_height (chain_id c b)) e, up.writable t)
      ]

  -- Rounds in which the cache and the heights can be written and the last height can be read, and
  -- in which the chain answers with a number at least two above a height or not at all, bring the
  -- last height queried up to that height, if there are enough of them for 300 blocks in each.
  -- The known height of the chain is assumed to be two above it from the start, some height of
  -- the main chain to be known, and the two chain IDs to differ.
  pub run_updates-reaches :
      (m n : ℕ) (ws : List World) (mw : MetachainWitness) (last : ℤ) (k : ℕ)
      → lookup (chain_id c b) mw.last_queryed ≡ some last
      → mw.mainchain_block_height ≡ some k
      → Knows m (known_height c b mw)
      → pos n ≤ℤ last
      → All (IsHealthy m) ws
      → n ≤ m
      → m ≤ n + 300 * length ws
      → (r : MetachainWitness × List Query) × (next : ℤ) × (run_updates c ws mw ≡ some r)
        × (lookup (chain_id c b) r.0.last_queryed ≡ some next)
        × (pos m ≤ℤ next)
  unfolding run_updates
  run_updates-reaches m n [] mw last k old main_known known low up le enough =
      ((mw, []), last, refl, old, omega (arith, low))
  run_updates-reaches m n (w ∷ ws) mw last k old main_known known low up le enough =
      let (made, k', first, main_known') = update_total c w up.0.cache_works mw k main_known in
      let r = update-Round c w distinct b mw made.0 made.1 last old first in
      let n' : ℕ = if ltb (n + 300) m then n + 300 else m in
      let near : n' ≤ n + 300 = ground arith in
      let le' : n' ≤ m = ground arith in
      let ahead = Round-ahead m n n' w mw made.0 made.1 last r up.0 known low near le' in
      let known' =
        Refreshed-Knows m (known_height c b mw) (chain_of w b).block_number
          (known_height c b made.0) r.known_after known up.0.high in
      let (rest, next, done, is, reached) =
        run_updates-reaches m n' ws made.0 r.next k' r.next_is main_known' known' ahead up.1 le'
          (ground arith) in
      ((rest.0, made.1 ++ rest.1), next, rw (first, done, run_updates) refl, is, reached)
