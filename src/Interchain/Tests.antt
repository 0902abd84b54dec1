-- ===== src/Interchain/Tests.antt =====
-- A lock of TFuel that is submitted twice, four seconds and more apart.
use theta_protocol_subchain.Prelude.{
  ◌+◌, ◌<◌, ◌≡◌, ◌⊎◌, inl, refl, true, none, some, List, [], ◌∷◌, arith,
}
use theta_protocol_subchain.Prelude.Dict.{lookup}
use theta_protocol_subchain.Prelude.Int.{pos}
use theta_protocol_subchain.Prelude.Text.{Text, codes, to_lower}
use theta_protocol_subchain.Interchain.Samples.{
  lock_event, locked, bridge, turn_at, waiting, sent_at,
}
use theta_protocol_subchain.Interchain.Denom.{
  tfuel, tnt1155, denom, validate_denom, known_type, extract_originated_chain_id_from_denom,
  extract_cross_chain_token_type_from_denom,
}
use theta_protocol_subchain.Interchain.Denom.RoundTrip.{denom_lem}
use theta_protocol_subchain.Interchain.Events.{voucher_mint, event_id, parse_token_locked}
use theta_protocol_subchain.Interchain.Cache.{find, key_of, inter_chain_event_index_key}
use theta_protocol_subchain.Interchain.Orchestrator.{
  Orchestrator, Submission, get_retry_threshold, build_tx_opts,
  get_target_chain_corresponding_event_type,
}
use theta_protocol_subchain.Interchain.Processing.{Turn, process_next_event, process_turns}
use theta_protocol_subchain.Interchain.Next.{key_at}
use theta_protocol_subchain.Interchain.Turns.{SendsNext, process_next_event_lem}
use theta_protocol_subchain.Interchain.Minting.{IsMint, process_next_event-submits}
use theta_protocol_subchain.Interchain.Retrying.{process_turns-apart}

denom_lem_example :
    (validate_denom (λ s. true) (denom tnt1155 366 (codes "0xAB")) ≡ true)
    × (extract_originated_chain_id_from_denom (denom tnt1155 366 (codes "0xAB")) ≡ some (pos 366))
    × (extract_cross_chain_token_type_from_denom (denom tnt1155 366 (codes "0xAB"))
        ≡ known_type tnt1155)
unfolding denom to_lower
denom_lem_example = denom_lem (λ s. true) 366 (codes "0xAB") tnt1155 (omega arith, refl)

abbrev two_turns : List Turn
two_turns = turn_at 1000 ∷ turn_at 5000000000 ∷ []

abbrev times_after : Orchestrator
times_after = record { cache = waiting.cache; event_processed_time = (11, 5000000000) ∷ [] }

submitted_twice :
    process_turns bridge two_turns waiting
    ≡ some (times_after, sent_at 1000 ∷ sent_at 5000000000 ∷ [])
unfolding process_turns denom key_of
submitted_twice = refl

process_turns-apart_example : 1000 + get_retry_threshold bridge 3661 < 5000000000
unfolding denom key_of
process_turns-apart_example =
    process_turns-apart bridge two_turns waiting times_after
      (sent_at 1000 ∷ sent_at 5000000000 ∷ []) submitted_twice (sent_at 1000) (sent_at 5000000000)
      (inl (refl, inl refl)) refl refl

process_next_event_lem_example :
    (oc' : Orchestrator) × (subs : List Submission) × (process_next_event bridge
        (turn_at 1000)
        waiting
      ≡ some (oc', subs))
    × ((j : Text)
        → (find j oc'.cache ≡ find j waiting.cache)
          ⊎ ((j ≡ key_at (turn_at 1000) 0) × (find j oc'.cache ≡ none)))
    × SendsNext bridge (turn_at 1000) waiting (voucher_mint tfuel) subs
unfolding get_target_chain_corresponding_event_type
process_next_event_lem_example =
    process_next_event_lem bridge (turn_at 1000) waiting (voucher_mint tfuel) refl

process_next_event-submits_example :
    (oc' : Orchestrator) × (s : Submission) × (process_next_event bridge (turn_at 1000) waiting
      ≡ some (oc', s ∷ []))
    × IsMint bridge (turn_at 1000) waiting tfuel lock_event (sent_at 1000).opts locked 12 s
    × (lookup (event_id bridge.keccak lock_event) oc'.event_processed_time ≡ some 1000)
unfolding lookup key_of denom find inter_chain_event_index_key event_id build_tx_opts
    parse_token_locked get_retry_threshold
process_next_event-submits_example =
    process_next_event-submits bridge (turn_at 1000) waiting tfuel lock_event (sent_at 1000).opts
      locked 12 refl refl refl refl (omega arith) refl refl refl refl
