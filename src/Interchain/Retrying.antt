-- ===== src/Interchain/Retrying.antt =====
-- interchain/orchestrator/orchestrator.go: how far apart in time the calls for one event are.
use theta_protocol_subchain.Prelude.{
  ℕ, ◌+◌, ◌-◌, ◌≤◌, ◌<◌, ◌≡◌, ◌∙◌, inl, inr, refl, sym, subst, true, some, List, [], ◌∷◌, ◌++◌,
  ◌==◌, if◌then◌else◌, arith, Bool-cases, Option-cases, In, Before, In-append, Before-append, ==→eq,
  some_pair_inj,
}
use theta_protocol_subchain.Prelude.Dict.{Dict, lookup, lookup-insert, lookup-insert_same}
use theta_protocol_subchain.Interchain.Events.{
  InterChainMessageEventType, InterChainMessageEvent, event_id,
}
use theta_protocol_subchain.Interchain.Orchestrator.{
  Config, Outside, Orchestrator, Submission, get_target_chain_corresponding_event_type,
  get_retry_threshold, time_elapsed_since_event_processed, update_event_processed_time,
}
use theta_protocol_subchain.Interchain.Processing.{
  Turn, unread_event, process_next_event, process_turns,
}
use theta_protocol_subchain.Interchain.Submitting.{IsSent}
use theta_protocol_subchain.Interchain.Trying.{IsDue, Tried, waits, skips, sends}
use theta_protocol_subchain.Interchain.Next.{
  Processed, no_event, unread, next, cleaned, cleaned-times, process_next_event-Processed,
  process_next_event-fatal,
}

module _ (c : Config) where
  abbrev pub id_of : Submission → ℕ
  id_of s = event_id c.keccak s.event

  -- What a run of turns does to the times, and how its calls lie in time.
  record KeepsTime (old new : Dict ℕ) (subs : List Submission) : Type 0 where
    late :
        (s : Submission) (p : ℕ)
        → In s subs
        → lookup (id_of s) old ≡ some p
        → p + get_retry_threshold c s.target < s.at
    stamped :
        (s : Submission)
        → In s subs
        → s.accepted ≡ true
        → (q : ℕ) × (lookup (id_of s) new ≡ some q) × (s.at ≤ q)
    grows : (i p : ℕ) → lookup i old ≡ some p → (q : ℕ) × (lookup i new ≡ some q) × (p ≤ q)
    apart :
        (s s' : Submission)
        → Before s s' subs
        → s.accepted ≡ true
        → id_of s ≡ id_of s'
        → s.at + get_retry_threshold c s'.target < s'.at

  KeepsTime-none : (times : Dict ℕ) → KeepsTime times times []
  KeepsTime-none times = record {
    late = λ s p i. absurd i;
    stamped = λ s i. absurd i;
    grows = λ i p known. (p, known, omega arith);
    apart = λ s s' i. absurd i;
  }

  KeepsTime-append :
      {old mid new : Dict ℕ} (xs ys : List Submission)
      → KeepsTime old mid xs
      → KeepsTime mid new ys
      → KeepsTime old new (xs ++ ys)
  KeepsTime-append xs ys h k = record {
    late = λ s p i known. elim (In-append s xs ys i) [
      | inl here ↦ h.late s p here known
      | inr there ↦
          let (q, at_mid, le) = h.grows (id_of s) p known in
          omega (arith, k.late s q there at_mid, le)
    ];
    stamped = λ s i accepted. elim (In-append s xs ys i) [
      | inl here ↦
          let (q, at_mid, le) = h.stamped s here accepted in
          let (r, at_new, le') = k.grows (id_of s) q at_mid in (r, at_new, omega (arith, le, le'))
      | inr there ↦ k.stamped s there accepted
    ];
    grows = λ i p known.
        let (q, at_mid, le) = h.grows i p known in
        let (r, at_new, le') = k.grows i q at_mid in (r, at_new, omega (arith, le, le'));
    apart = λ s s' order accepted same. elim (Before-append s s' xs ys order) [
      | inl both ↦ h.apart s s' both accepted same
      | inr (inl (first, second)) ↦
          let (q, at_mid, le) = h.stamped s first accepted in
          omega (arith, k.late s' q second (rw (← same) at_mid), le)
      | inr (inr both) ↦ k.apart s s' both accepted same
    ];
  }

  module _ (o : Outside) (target : ℕ) (e : InterChainMessageEvent) (oc : Orchestrator) where
    IsDue-late :
        (p : ℕ)
        → IsDue c o target e oc
        → lookup (event_id c.keccak e) oc.event_processed_time ≡ some p
        → p + get_retry_threshold c target < o.now
    unfolding time_elapsed_since_event_processed
    IsDue-late p due known =
        let gap : get_retry_threshold c target < o.now - p =
          rw (known, time_elapsed_since_event_processed) at due in
        omega arith

    update-stamps :
        lookup (event_id c.keccak e) (update_event_processed_time c o.now e oc).event_processed_time
        ≡ some o.now
    unfolding update_event_processed_time
    update-stamps = lookup-insert_same (event_id c.keccak e) o.now oc.event_processed_time

    update-grows :
        IsDue c o target e oc
        → (i p : ℕ) → lookup i oc.event_processed_time ≡ some p
        → (q : ℕ) × (lookup i (update_event_processed_time c o.now e oc).event_processed_time
            ≡ some q)
          × (p ≤ q)
    unfolding update_event_processed_time
    update-grows due i p known = elim (Bool-cases (event_id c.keccak e == i)) [
      | inl same ↦
          let here = ==→eq (event_id c.keccak e) i same in
          (
            o.now,
            rw (lookup-insert (event_id c.keccak e) i o.now oc.event_processed_time, same) refl,
            omega (arith, IsDue-late p due (rw here known)),
          )
      | inr other ↦ (
        p,
        rw (lookup-insert (event_id c.keccak e) i o.now oc.event_processed_time, other) known,
        omega arith,
      )
    ]

    sent-KeepsTime :
        (kind : InterChainMessageEventType)
        → IsDue c o target e oc
        → (s : Submission) → IsSent c o target e kind s
        → KeepsTime oc.event_processed_time
            (if s.accepted
              then update_event_processed_time c o.now e oc
              else oc).event_processed_time
            (s ∷ [])
    sent-KeepsTime kind due s sent = record {
      late = λ s1 p i known. elim i [
        | inl e1 ↦
            let k : lookup (event_id c.keccak e) oc.event_processed_time ≡ some p =
              cc (sent.event_is) in
            let t1 : s1.target ≡ target = cc (sent.target_is) in
            let a1 : s1.at ≡ o.now = cc (sent.at_is) in rw (t1, a1) (IsDue-late p due k)
        | inr nowhere ↦ absurd nowhere
      ];
      stamped = λ s1 i accepted. elim i [
        | inl e1 ↦
            let yes_accepted : s.accepted ≡ true = cc in
            let here : id_of s1 ≡ event_id c.keccak e = cc (sent.event_is) in
            let a1 : s1.at ≡ o.now = cc (sent.at_is) in
            (o.now, rw (yes_accepted, here) (update-stamps), omega (arith, a1))
        | inr nowhere ↦ absurd nowhere
      ];
      grows = λ i p known. elim (Bool-cases s.accepted) [
        | inl accepted ↦ rw accepted (update-grows due i p known)
        | inr refused ↦ (p, rw refused known, omega arith)
      ];
      apart = λ s1 s2 order. elim order [
        | inl (_, nowhere) ↦ absurd nowhere
        | inr nowhere ↦ absurd nowhere
      ];
    }

    Tried-KeepsTime :
        (kind : InterChainMessageEventType) (oc' : Orchestrator) (subs : List Submission)
        → Tried c o target e oc kind oc' subs
        → KeepsTime oc.event_processed_time oc'.event_processed_time subs
    unfolding update_event_processed_time
    Tried-KeepsTime kind oc' subs (waits kept empty) =
        rw (kept, empty) (KeepsTime-none oc.event_processed_time)
    Tried-KeepsTime kind oc' subs (skips due kept empty) =
        rw (kept, empty)
          (record {
            late = λ s p i. absurd i;
            stamped = λ s i. absurd i;
            grows = update-grows due;
            apart = λ s s' i. absurd i;
          })
    Tried-KeepsTime kind oc' subs (sends due s sent kept one) =
        rw (kept, one) (sent-KeepsTime kind due s sent)

  module _ (t : Turn) (oc : Orchestrator) where
    from_cleaned :
        (new : Dict ℕ) (subs : List Submission)
        → KeepsTime (cleaned c t oc).event_processed_time new subs
        → KeepsTime oc.event_processed_time new subs
    from_cleaned new subs = subst (λ old. KeepsTime old new subs) (cleaned-times c t oc)

    Processed-KeepsTime :
        (kind : InterChainMessageEventType) (oc' : Orchestrator) (subs : List Submission)
        → Processed c t oc kind oc' subs
        → KeepsTime oc.event_processed_time oc'.event_processed_time subs
    Processed-KeepsTime kind oc' subs (no_event same empty) =
        from_cleaned oc'.event_processed_time subs
          (rw (same, empty) (KeepsTime-none (cleaned c t oc).event_processed_time))
    Processed-KeepsTime kind oc' subs (unread tried) =
        from_cleaned oc'.event_processed_time subs
          (Tried-KeepsTime t.outside t.target unread_event (cleaned c t oc) kind oc' subs tried)
    Processed-KeepsTime kind oc' subs (next e here tried) =
        from_cleaned oc'.event_processed_time subs
          (Tried-KeepsTime t.outside t.target e (cleaned c t oc) kind oc' subs tried)

    process_next_event-KeepsTime :
        (oc' : Orchestrator) (subs : List Submission)
        → process_next_event c t oc ≡ some (oc', subs)
        → KeepsTime oc.event_processed_time oc'.event_processed_time subs
    process_next_event-KeepsTime oc' subs done =
        elim (Option-cases (get_target_chain_corresponding_event_type t.kind)) [
          | inl fatal ↦
              let (same, empty) = process_next_event-fatal c t oc oc' subs fatal done in
              from_cleaned oc'.event_processed_time subs
                (rw (same, empty) (KeepsTime-none (cleaned c t oc).event_processed_time))
          | inr (kind, known) ↦
              let (last, sent, done', processed) = process_next_event-Processed c t oc kind known in
              let (same_last, same_subs) = some_pair_inj (sym done ∙ done') in
              rw (same_last, same_subs) (Processed-KeepsTime kind last sent processed)
        ]

  process_turns-KeepsTime :
      (ts : List Turn) (oc oc' : Orchestrator) (subs : List Submission)
      → process_turns c ts oc ≡ some (oc', subs)
      → KeepsTime oc.event_processed_time oc'.event_processed_time subs
  unfolding process_turns
  process_turns-KeepsTime [] oc oc' subs done =
      let (same, empty) = some_pair_inj (sym done) in
      rw (same, empty) (KeepsTime-none oc.event_processed_time)
  process_turns-KeepsTime (t ∷ ts) oc oc' subs done =
      elim (Option-cases (process_next_event c t oc)) [
        | inl fatal ↦ cc (rw (fatal, process_turns) at done)
        | inr ((mid, xs), first) ↦ elim (Option-cases (process_turns c ts mid)) [
          | inl fatal ↦ cc (rw (first, fatal, process_turns) at done)
          | inr ((last, ys), rest) ↦
              let (same, all_subs) =
                some_pair_inj (sym (rw (first, rest, process_turns) at done)) in
              rw (same, all_subs)
                (KeepsTime-append xs ys (process_next_event-KeepsTime t oc mid xs first)
                  (process_turns-KeepsTime ts mid last ys rest))
        ]
      ]

  -- In whatever sequence of calls of `processNextEvent`, as long as no fatal log ends it: if a
  -- contract call for an event was accepted, every later call with the same event ID is sent more
  -- than the retry threshold of its target chain after it.
  pub process_turns-apart :
      (ts : List Turn) (oc oc' : Orchestrator) (subs : List Submission)
      → process_turns c ts oc ≡ some (oc', subs)
      → (s s' : Submission) → Before s s' subs
      → s.accepted ≡ true
      → id_of s ≡ id_of s'
      → s.at + get_retry_threshold c s'.target < s'.at
  process_turns-apart ts oc oc' subs done s s' order accepted same =
      (process_turns-KeepsTime ts oc oc' subs done).apart s s' order accepted same
