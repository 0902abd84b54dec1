-- ===== src/Interchain/Turns.antt =====
-- interchain/orchestrator/orchestrator.go: what one turn does to the cache, what it sends, and when it
-- is certain to send something.
use theta_protocol_subchain.Prelude.{
  ℕ, ◌+◌, ◌^◌, ◌-◌, ◌<◌, ◌≡◌, ◌∙◌, ◌⊎◌, inl, inr, refl, ap, true, false, none, some, List, [], ◌∷◌,
  if◌then◌else◌, ltb, Bool-cases, lt→ltb, ◌==◌,
}
use theta_protocol_subchain.Prelude.Dict.{lookup}
use theta_protocol_subchain.Prelude.Text.{Text}
use theta_protocol_subchain.Interchain.Denom.{CrossChainTokenType}
use theta_protocol_subchain.Interchain.Events.{
  InterChainMessageEventType, token_lock, voucher_mint, InterChainMessageEvent, EventData, event_id,
  parse_token_locked,
}
use theta_protocol_subchain.Interchain.Cache.{find, get_event}
use theta_protocol_subchain.Interchain.Orchestrator.{
  Config, Orchestrator, Submission, TransactOpts, get_target_chain_corresponding_event_type,
  get_retry_threshold, build_tx_opts, mint_call, mint_vouchers, submit, dispatch,
  call_target_contract, time_elapsed_since_event_processed, update_event_processed_time,
}
use theta_protocol_subchain.Interchain.Processing.{
  Turn, unread_event, try_event, process_next_event,
}
use theta_protocol_subchain.Interchain.Submitting.{IsSent}
use theta_protocol_subchain.Interchain.Trying.{
  IsDue, Tried, waits, skips, sends, Answers-unread_event,
}
use theta_protocol_subchain.Interchain.Next.{
  key_at, cleaned, cleaned-cache, cleaned-times, cleaned-next, Processed, no_event, unread, next,
  process_next_event-Processed,
}

module _ (c : Config) (t : Turn) (oc : Orchestrator) where
  IsDue-cleaned :
      (e : InterChainMessageEvent)
      → IsDue c t.outside t.target e (cleaned c t oc)
      → IsDue c t.outside t.target e oc
  unfolding time_elapsed_since_event_processed
  IsDue-cleaned e due = rw (time_elapsed_since_event_processed, ← cleaned-times c t oc) due

  never_submitted-due :
      (e : InterChainMessageEvent)
      → lookup (event_id c.keccak e) oc.event_processed_time ≡ none
      → get_retry_threshold c t.target < 2 ^ 63 - 1
      → ltb
          (get_retry_threshold c t.target)
          (time_elapsed_since_event_processed c t.outside.now (cleaned c t oc) e)
        ≡ true
  unfolding time_elapsed_since_event_processed
  never_submitted-due e fresh short =
      rw (cleaned-times c t oc, fresh, time_elapsed_since_event_processed)
        (lt→ltb (get_retry_threshold c t.target) (2 ^ 63 - 1) short)

  -- What a turn may have sent for the event that comes next.
  abbrev pub SendsNext : InterChainMessageEventType → List Submission → Type 0
  SendsNext kind subs =
      (subs ≡ [])
      ⊎ ((e : InterChainMessageEvent) × (s : Submission) × (subs ≡ s ∷ [])
          × (find (key_at t (t.max_processed + 1)) oc.cache ≡ some e)
          × IsDue c t.outside t.target e oc
          × IsSent c t.outside t.target e kind s)

  Tried-cache :
      (e : InterChainMessageEvent) (kind : InterChainMessageEventType) (oc' : Orchestrator)
      (subs : List Submission)
      → Tried c t.outside t.target e (cleaned c t oc) kind oc' subs
      → oc'.cache ≡ (cleaned c t oc).cache
  unfolding update_event_processed_time
  Tried-cache e kind oc' subs (waits same _) = ap (λ (s : Orchestrator). s.cache) same
  Tried-cache e kind oc' subs (skips _ same _) = ap (λ (s : Orchestrator). s.cache) same
  Tried-cache e kind oc' subs (sends _ s _ same _) = elim (Bool-cases s.accepted) [
    | inl accepted ↦ rw (same, accepted) refl
    | inr refused ↦ rw (same, refused) refl
  ]

  Processed-cache :
      (kind : InterChainMessageEventType) (oc' : Orchestrator) (subs : List Submission)
      → Processed c t oc kind oc' subs
      → oc'.cache ≡ (cleaned c t oc).cache
  Processed-cache kind oc' subs (no_event same _) = ap (λ (s : Orchestrator). s.cache) same
  Processed-cache kind oc' subs (unread tried) = Tried-cache unread_event kind oc' subs tried
  Processed-cache kind oc' subs (next e _ tried) = Tried-cache e kind oc' subs tried

  Processed-SendsNext :
      (kind : InterChainMessageEventType) (oc' : Orchestrator) (subs : List Submission)
      → Processed c t oc kind oc' subs
      → SendsNext kind subs
  Processed-SendsNext kind oc' subs (no_event _ empty) = inl empty
  Processed-SendsNext kind oc' subs (unread (waits _ empty)) = inl empty
  Processed-SendsNext kind oc' subs (unread (skips _ _ empty)) = inl empty
  Processed-SendsNext kind oc' subs (unread (sends _ s sent _ _)) =
      absurd (Answers-unread_event c t.outside t.target kind s.call sent.answers)
  Processed-SendsNext kind oc' subs (next e here (waits _ empty)) = inl empty
  Processed-SendsNext kind oc' subs (next e here (skips _ _ empty)) = inl empty
  Processed-SendsNext kind oc' subs (next e here (sends due s sent _ one)) =
      inr (e, s, one, here, IsDue-cleaned e due, sent)

  -- A call of `processNextEvent` for a type with a counterpart returns. The cache has the entries
  -- that it had, but for that of the last processed nonce, which may be gone. No contract call is
  -- sent, or one: for the cached event of the next nonce, if more than the retry threshold has
  -- passed since its last accepted call, to the target chain, with what the event's data says for
  -- it and under the current dynasty.
  pub process_next_event_lem :
      (kind : InterChainMessageEventType)
      → get_target_chain_corresponding_event_type t.kind ≡ some kind
      → (oc' : Orchestrator) × (subs : List Submission) × (process_next_event c t oc
          ≡ some (oc', subs))
        × ((j : Text)
            → (find j oc'.cache ≡ find j oc.cache)
              ⊎ ((j ≡ key_at t t.max_processed) × (find j oc'.cache ≡ none)))
        × SendsNext kind subs
  process_next_event_lem kind known =
      let (oc', subs, done, processed) = process_next_event-Processed c t oc kind known in
      (
        oc',
        subs,
        done,
        λ j. rw (Processed-cache kind oc' subs processed) (cleaned-cache c t oc j),
        Processed-SendsNext kind oc' subs processed,
      )

module _ (c : Config) (t : Turn) (oc : Orchestrator) (token : CrossChainTokenType)
    (e : InterChainMessageEvent) (opts : TransactOpts) (se : EventData) (dynasty : ℕ) where
  call_target_contract-mints :
      build_tx_opts c t.outside t.target ≡ some opts
      → parse_token_locked c.decoder token e ≡ some se
      → (t.target == se.target_chain_id) ≡ true
      → t.outside.dynasty ≡ some dynasty
      → call_target_contract c t.outside t.target (voucher_mint token) e
        ≡ submit c t.outside t.target opts e (mint_call c token se dynasty)
  unfolding call_target_contract dispatch mint_vouchers
  call_target_contract-mints built parsed same known =
      rw (built, call_target_contract, dispatch) (rw (parsed, same, known, mint_vouchers) refl)

  -- What the processing of a lock comes to.
  pub process_next_event-mint :
      t.kind ≡ token_lock token
      → find (key_at t (t.max_processed + 1)) oc.cache ≡ some e
      → t.outside.faults.cannot_read (key_at t (t.max_processed + 1)) ≡ false
      → lookup (event_id c.keccak e) oc.event_processed_time ≡ none
      → get_retry_threshold c t.target < 2 ^ 63 - 1
      → build_tx_opts c t.outside t.target ≡ some opts
      → parse_token_locked c.decoder token e ≡ some se
      → (t.target == se.target_chain_id) ≡ true
      → t.outside.dynasty ≡ some dynasty
      → (let sent = submit c t.outside t.target opts e (mint_call c token se dynasty) in
          process_next_event c t oc
          ≡ some (
            if sent.0
                then update_event_processed_time c t.outside.now e (cleaned c t oc)
                else cleaned c t oc,
            sent.1,
          ))
  unfolding process_next_event try_event get_event
  process_next_event-mint of_kind here readable fresh short built parsed same known =
      let counterpart : get_target_chain_corresponding_event_type t.kind
          ≡ some (voucher_mint token) =
        ap get_target_chain_corresponding_event_type of_kind in
      let there : find (key_at t (t.max_processed + 1)) (cleaned c t oc).cache ≡ some e =
        cleaned-next c t oc ∙ here in
      let due : ltb (get_retry_threshold c t.target)
            (time_elapsed_since_event_processed c t.outside.now (cleaned c t oc) e)
          ≡ true =
        never_submitted-due c t oc e fresh short in
      let mints = call_target_contract-mints built parsed same known in
      rw (readable, there, process_next_event, get_event, try_event)
        (rw (counterpart, due, mints, try_event) refl)
