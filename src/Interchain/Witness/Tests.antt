-- ===== src/Interchain/Witness/Tests.antt =====
-- Rounds of a witness of the chains 366 and 3661.
use theta_protocol_subchain.Prelude.{
  ℕ, ◌+◌, ◌≡◌, ◌≤◌, ◌⊎◌, inl, inr, refl, true, false, Bool, some, List, [], ◌∷◌, arith, In,
}
use theta_protocol_subchain.Prelude.Dict.{lookup}
use theta_protocol_subchain.Prelude.Int.{ℤ, pos, ◌≤ℤ◌, ◌+ℤ◌, ◌-ℤ◌}
use theta_protocol_subchain.Prelude.Text.{print_decimal}
use theta_protocol_subchain.Interchain.Denom.{tnt20}
use theta_protocol_subchain.Interchain.Events.{token_lock}
use theta_protocol_subchain.Interchain.Cache.{key_of}
use theta_protocol_subchain.Interchain.Samples.{
  world_at, chain_at, two_chains, watching, lock_event,
}
use theta_protocol_subchain.Interchain.Witness.Heights.{
  event_height, get_block_scan_starting_height,
}
use theta_protocol_subchain.Interchain.Witness.{World, Query, MetachainWitness, update, run_updates}
use theta_protocol_subchain.Interchain.Witness.Scanning.{Covers, run_updates-Covers}
use theta_protocol_subchain.Interchain.Witness.Losing.{run_updates-later}
use theta_protocol_subchain.Interchain.Witness.Reaching.{IsHealthy, run_updates-reaches}
use theta_protocol_subchain.Interchain.Witness.Starting.{get_block_scan_starting_height_lem}

abbrev rounds : List World
rounds = world_at 1100 70 ∷ world_at 1200 80 ∷ []

abbrev query_of : Bool → ℕ → ℕ → Query
query_of on_main from_block to_block = record {
  on_main = on_main;
  from_block = pos from_block;
  to_block = pos to_block;
  answered = true;
}

-- The witness with the heights of the chains, and up to where it has queried them.
abbrev scanned : ℕ → ℕ → ℕ → ℕ → MetachainWitness
scanned main sub last_main last_sub = record {
  mainchain_block_height = some main;
  subchain_block_height = some sub;
  witnessed_dynasty = 5;
  validator_set_cache = [];
  last_queryed = (366, pos last_main) ∷ (3661, pos last_sub) ∷ [];
  inter_chain_event_cache = (key_of lock_event, lock_event) ∷ [];
}

abbrev first_log : List Query
first_log = query_of true 100 400 ∷ query_of false 50 58 ∷ []

abbrev second_log : List Query
second_log = query_of true 400 700 ∷ query_of false 58 68 ∷ []

abbrev both_logs : List Query
both_logs =
    query_of true 100 400 ∷ query_of false 50 58 ∷ query_of true 400 700 ∷ query_of false 58 68 ∷ []

updated_once :
    update two_chains (world_at 1100 70) watching ≡ some (scanned 1100 70 400 58, first_log)
unfolding update key_of print_decimal ◌-ℤ◌ ◌+ℤ◌
updated_once = refl

updated_twice :
    run_updates two_chains (world_at 1200 80 ∷ []) (scanned 1100 70 400 58)
    ≡ some (scanned 1200 80 700 68, second_log)
unfolding run_updates key_of print_decimal ◌-ℤ◌ ◌+ℤ◌
updated_twice = refl

updated_both : run_updates two_chains rounds watching ≡ some (scanned 1200 80 700 68, both_logs)
unfolding run_updates key_of print_decimal ◌-ℤ◌ ◌+ℤ◌
updated_both = refl

run_updates-Covers_example : (q : Query) × In q both_logs × Covers true 500 q
unfolding lookup
run_updates-Covers_example =
    run_updates-Covers two_chains refl true rounds watching (scanned 1200 80 700 68) both_logs
      (pos 100) (pos 700) 500 refl updated_both refl (omega arith) (omega arith)

run_updates-later_example : pos 400 ≤ℤ pos 400 +ℤ pos 1
unfolding lookup
run_updates-later_example =
    run_updates-later two_chains refl true (world_at 1100 70) (world_at 1200 80 ∷ []) watching
      (scanned 1100 70 400 58) (scanned 1200 80 700 68) first_log second_log (pos 100) 1000
      (query_of true 100 400) (query_of true 400 700) refl refl (omega arith, (omega arith, tt))
      (refl, tt) updated_once updated_twice (inl refl) refl refl (inl refl) refl

world_at-IsHealthy :
    (main sub : ℕ) → 702 ≤ main → IsHealthy two_chains refl true 700 (world_at main sub)
world_at-IsHealthy main sub high = record {
  cache_works = λ k. refl;
  readable = refl;
  writable = λ h. refl;
  high = omega (arith, high);
}

run_updates-reaches_example :
    (r : MetachainWitness × List Query) × (next : ℤ) × (run_updates two_chains rounds watching
      ≡ some r)
    × (lookup 366 r.0.last_queryed ≡ some next)
    × (pos 700 ≤ℤ next)
unfolding lookup
run_updates-reaches_example =
    run_updates-reaches two_chains refl true 700 100 rounds watching (pos 100) 1000 refl refl
      (omega arith) (omega arith)
      (world_at-IsHealthy 1100 70 (omega arith), (world_at-IsHealthy 1200 80 (omega arith), tt))
      (omega arith) (omega arith)

get_block_scan_starting_height_lem_example :
    (start : ℕ) × (h : ℕ) × (get_block_scan_starting_height 366 3661
        (chain_at 900)
        (chain_at 60)
        true
      ≡ some start)
    × (event_height 366 3661 (chain_at 900) (chain_at 60) true (token_lock tnt20) ≡ some h)
    × ((start ≡ 0) ⊎ (start + 5 ≤ h))
get_block_scan_starting_height_lem_example =
    get_block_scan_starting_height_lem 366 3661 (chain_at 900) (chain_at 60) true (token_lock tnt20)
      (inr (inl refl))
