-- ===== src/Interchain/Trying.antt =====
-- interchain/orchestrator/orchestrator.go: the outcomes of a turn of one type of events.
use theta_protocol_subchain.Prelude.{
  ℕ, ◌<◌, ◌≡◌, inl, inr, refl, true, false, some, List, [], ◌∷◌, ltb, if◌then◌else◌, Bool-cases,
  ltb→lt,
}
use theta_protocol_subchain.Interchain.Denom.{tfuel, tnt20, tnt721, tnt1155}
use theta_protocol_subchain.Interchain.Events.{
  InterChainMessageEventType, unknown, token_lock, voucher_mint, token_unlock, voucher_burn,
  InterChainMessageEvent, parse_token_locked, parse_voucher_burned,
}
use theta_protocol_subchain.Interchain.Orchestrator.{
  Config, Outside, Orchestrator, Submission, ContractCall,
  get_target_chain_corresponding_event_type, get_retry_threshold,
  time_elapsed_since_event_processed, update_event_processed_time,
}
use theta_protocol_subchain.Interchain.Processing.{unread_event, try_event}
use theta_protocol_subchain.Interchain.Submitting.{Answers, IsSent, call_target_contract-sends}

module _ (c : Config) (o : Outside) (target : ℕ) (e : InterChainMessageEvent)
    (oc : Orchestrator) where
  -- The event was not submitted within the threshold.
  abbrev pub IsDue : Type 0
  IsDue = get_retry_threshold c target < time_elapsed_since_event_processed c o.now oc e

  pub data Tried (kind : InterChainMessageEventType) (oc' : Orchestrator) (subs : List Submission)
      : Type 0 where
    waits : oc' ≡ oc → subs ≡ [] → Tried kind oc' subs
    skips : IsDue → oc' ≡ update_event_processed_time c o.now e oc → subs ≡ [] → Tried kind oc' subs
    sends :
        IsDue
        → (s : Submission) → IsSent c o target e kind s
        → oc' ≡ (if s.accepted then update_event_processed_time c o.now e oc else oc)
        → subs ≡ s ∷ []
        → Tried kind oc' subs

  pub try_event-Tried :
      (source_kind kind : InterChainMessageEventType)
      → get_target_chain_corresponding_event_type source_kind ≡ some kind
      → (oc' : Orchestrator) × (subs : List Submission) × (try_event c o target source_kind e oc
          ≡ some (oc', subs))
        × Tried kind oc' subs
  unfolding try_event
  try_event-Tried source_kind kind known =
      let threshold = get_retry_threshold c target in
      let elapsed = time_elapsed_since_event_processed c o.now oc e in
      elim (Bool-cases (ltb threshold elapsed)) [
        | inl due ↦ elim (call_target_contract-sends c o target e kind) [
          | inl (true, done) ↦ (
            update_event_processed_time c o.now e oc,
            [],
            rw (known, done, due, try_event) refl,
            skips (ltb→lt threshold elapsed due) refl refl,
          )
          | inl (false, done) ↦ (oc, [], rw (known, done, due, try_event) refl, waits refl refl)
          | inr (s, done, sent) ↦ (
            if s.accepted then update_event_processed_time c o.now e oc else oc,
            s ∷ [],
            rw (known, done, due, try_event) refl,
            sends (ltb→lt threshold elapsed due) s sent refl refl,
          )
        ]
        | inr early ↦ (oc, [], rw (known, early, try_event) refl, waits refl refl)
      ]

-- An event that could not be read is never answered.
pub Answers-unread_event :
    (c : Config) (o : Outside) (target : ℕ) (kind : InterChainMessageEventType)
    (call : ContractCall)
    → Answers c o target unread_event kind call
    → ⊥
unfolding parse_token_locked parse_voucher_burned
Answers-unread_event c o target unknown call h = h
Answers-unread_event c o target (token_lock token) call h = h
Answers-unread_event c o target (voucher_mint tfuel) call h = cc (h.2)
Answers-unread_event c o target (voucher_mint tnt20) call h = cc (h.2)
Answers-unread_event c o target (voucher_mint tnt721) call h = cc (h.2)
Answers-unread_event c o target (voucher_mint tnt1155) call h = cc (h.2)
Answers-unread_event c o target (token_unlock tfuel) call h = cc (h.2)
Answers-unread_event c o target (token_unlock tnt20) call h = cc (h.2)
Answers-unread_event c o target (token_unlock tnt721) call h = cc (h.2)
Answers-unread_event c o target (token_unlock tnt1155) call h = cc (h.2)
Answers-unread_event c o target (voucher_burn token) call h = h
