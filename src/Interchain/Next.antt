-- ===== src/Interchain/Next.antt =====
-- interchain/orchestrator/orchestrator.go: `processNextEvent` on its own.
use theta_protocol_subchain.Prelude.{
  ℕ, ◌+◌, ◌≡◌, ◌∙◌, ◌⊎◌, inl, inr, refl, sym, ap, true, false, none, some, List, [], arith,
  Bool-cases, Option-cases, some_pair_inj,
}
use theta_protocol_subchain.Prelude.Text.{Text, equal_text}
use theta_protocol_subchain.Prelude.Text.Words.{equal_text_iff}
use theta_protocol_subchain.Interchain.Events.{InterChainMessageEventType, InterChainMessageEvent}
use theta_protocol_subchain.Interchain.Cache.{
  Faults, Entries, inter_chain_event_index_key, find, find-drop, get_event, exists_event,
  delete_event,
}
use theta_protocol_subchain.Interchain.Cache.Keys.{inter_chain_event_index_key_inj}
use theta_protocol_subchain.Interchain.Orchestrator.{
  Config, Orchestrator, Submission, clean_up_inter_chain_event_cache,
  get_target_chain_corresponding_event_type,
}
use theta_protocol_subchain.Interchain.Processing.{
  Turn, unread_event, try_event, process_next_event,
}
use theta_protocol_subchain.Interchain.Trying.{Tried, try_event-Tried}

module _ (faults : Faults) (source : ℕ) (kind : InterChainMessageEventType) (nonce : ℕ) where
  delete_event-keeps :
      (d : Entries) (j : Text)
      → (find j (delete_event faults source kind nonce d).0 ≡ find j d)
        ⊎ ((j ≡ inter_chain_event_index_key source kind nonce)
            × (find j (delete_event faults source kind nonce d).0 ≡ none))
  unfolding delete_event
  delete_event-keeps d j =
      let k = inter_chain_event_index_key source kind nonce in
      elim (Bool-cases (faults.cannot_write k)) [
        | inl stuck ↦ inl (rw stuck refl)
        | inr free ↦ rw free (elim (Bool-cases (equal_text k j)) [
          | inl same ↦ inr (sym ((equal_text_iff k j).0 same), rw (find-drop k j d, same) refl)
          | inr other ↦ inl (rw (find-drop k j d, other) refl)
        ])
      ]

-- The key of the event with a nonce among those of a turn.
abbrev pub key_at : Turn → ℕ → Text
key_at t n = inter_chain_event_index_key t.source t.kind n

module _ (c : Config) (t : Turn) (oc : Orchestrator) where
  abbrev pub cleaned : Orchestrator
  cleaned = clean_up_inter_chain_event_cache c t.outside t.source t.kind t.max_processed oc

  cleaned_lem :
      (cleaned ≡ oc)
      ⊎ (cleaned ≡ record oc {
        cache = (delete_event t.outside.faults t.source t.kind t.max_processed oc.cache).0;
      })
  unfolding clean_up_inter_chain_event_cache
  cleaned_lem =
      elim (Option-cases (exists_event t.outside.faults t.source t.kind t.max_processed oc.cache)) [
        | inl unknown ↦ inl (rw (unknown, clean_up_inter_chain_event_cache) refl)
        | inr (true, here) ↦ inr (rw (here, clean_up_inter_chain_event_cache) refl)
        | inr (false, gone) ↦ inl (rw (gone, clean_up_inter_chain_event_cache) refl)
      ]

  pub cleaned-cache :
      (j : Text)
      → (find j cleaned.cache ≡ find j oc.cache)
        ⊎ ((j ≡ key_at t t.max_processed) × (find j cleaned.cache ≡ none))
  cleaned-cache j = elim cleaned_lem [
    | inl same ↦ inl (ap (λ (s : Orchestrator). find j s.cache) same)
    | inr less ↦
        rw (ap (λ (s : Orchestrator). find j s.cache) less)
          (delete_event-keeps t.outside.faults t.source t.kind t.max_processed oc.cache j)
  ]

  pub cleaned-times : cleaned.event_processed_time ≡ oc.event_processed_time
  cleaned-times = elim cleaned_lem [
    | inl same ↦ ap (λ (s : Orchestrator). s.event_processed_time) same
    | inr less ↦ ap (λ (s : Orchestrator). s.event_processed_time) less
  ]

  pub cleaned-next :
      find (key_at t (t.max_processed + 1)) cleaned.cache
      ≡ find (key_at t (t.max_processed + 1)) oc.cache
  cleaned-next = elim (cleaned-cache (key_at t (t.max_processed + 1))) [
    | inl same ↦ same
    | inr (same_key, _) ↦
        let parts =
          inter_chain_event_index_key_inj t.source t.source (t.max_processed + 1) t.max_processed
            t.kind t.kind same_key in
        absurd (omega arith)
  ]

  -- The outcomes of a turn on the state that is left by the removal of the processed event.
  pub data Processed (kind : InterChainMessageEventType) (oc' : Orchestrator)
      (subs : List Submission) : Type 0 where
    no_event : oc' ≡ cleaned → subs ≡ [] → Processed kind oc' subs
    unread : Tried c t.outside t.target unread_event cleaned kind oc' subs → Processed kind oc' subs
    next :
        (e : InterChainMessageEvent)
        → find (key_at t (t.max_processed + 1)) oc.cache ≡ some e
        → Tried c t.outside t.target e cleaned kind oc' subs
        → Processed kind oc' subs

  pub process_next_event-Processed :
      (kind : InterChainMessageEventType)
      → get_target_chain_corresponding_event_type t.kind ≡ some kind
      → (oc' : Orchestrator) × (subs : List Submission) × (process_next_event c t oc
          ≡ some (oc', subs))
        × Processed kind oc' subs
  unfolding process_next_event get_event
  process_next_event-Processed kind known =
      let k = key_at t (t.max_processed + 1) in
      elim (Bool-cases (t.outside.faults.cannot_read k)) [
        | inl stuck ↦
            let (oc', subs, done, tried) =
              try_event-Tried c t.outside t.target unread_event cleaned t.kind kind known in
            (oc', subs, rw (stuck, process_next_event, get_event) done, unread tried)
        | inr free ↦ elim (Option-cases (find k oc.cache)) [
          | inl gone ↦
              let missing : find k cleaned.cache ≡ none = cleaned-next ∙ gone in
              (
                cleaned,
                [],
                rw (free, missing, process_next_event, get_event) refl,
                no_event refl refl,
              )
          | inr (e, here) ↦
              let there : find k cleaned.cache ≡ some e = cleaned-next ∙ here in
              let (oc', subs, done, tried) =
                try_event-Tried c t.outside t.target e cleaned t.kind kind known in
              (oc', subs, rw (free, there, process_next_event, get_event) done, next e here tried)
        ]
      ]

  -- The log on a type with no counterpart ends the process, if there is an event.
  pub process_next_event-fatal :
      (oc' : Orchestrator) (subs : List Submission)
      → get_target_chain_corresponding_event_type t.kind ≡ none
      → process_next_event c t oc ≡ some (oc', subs)
      → (oc' ≡ cleaned) × (subs ≡ [])
  unfolding process_next_event get_event try_event
  process_next_event-fatal oc' subs fatal done =
      let k = key_at t (t.max_processed + 1) in
      elim (Bool-cases (t.outside.faults.cannot_read k)) [
        | inl stuck ↦ cc (rw (stuck, process_next_event, get_event, try_event, fatal) at done)
        | inr free ↦ elim (Option-cases (find k cleaned.cache)) [
          | inl gone ↦ some_pair_inj (sym (rw (free, gone, process_next_event, get_event) at done))
          | inr (e, here) ↦
              cc (rw (free, here, process_next_event, get_event, try_event, fatal) at done)
        ]
      ]
