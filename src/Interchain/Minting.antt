-- ===== src/Interchain/Minting.antt =====
-- interchain/orchestrator/orchestrator.go: the call that mints the vouchers of a lock, read from its end.
use theta_protocol_subchain.Prelude.{
  ℕ, ◌+◌, ◌-◌, ◌^◌, ◌<◌, ◌≡◌, ◌∙◌, refl, ap, Bool, true, false, Option, none, some, [], ◌∷◌, ◌==◌,
  if◌then◌else◌,
}
use theta_protocol_subchain.Prelude.Dict.{lookup, lookup-insert_same}
use theta_protocol_subchain.Prelude.Text.{Text}
use theta_protocol_subchain.Interchain.Denom.{CrossChainTokenType, tfuel, tnt20, tnt721, tnt1155}
use theta_protocol_subchain.Interchain.Events.{
  token_lock, InterChainMessageEvent, EventData, event_id, parse_token_locked,
}
use theta_protocol_subchain.Interchain.Cache.{find}
use theta_protocol_subchain.Interchain.Orchestrator.{
  Config, Orchestrator, Submission, TransactOpts, ContractCall, mint_tfuel, mint_tnt20, mint_tnt721,
  mint_tnt1155, get_retry_threshold, update_event_processed_time, build_tx_opts, mint_call, submit,
}
use theta_protocol_subchain.Interchain.Processing.{Turn, process_next_event}
use theta_protocol_subchain.Interchain.Next.{key_at, cleaned, cleaned-times}
use theta_protocol_subchain.Interchain.Turns.{process_next_event-mint}

-- What a bank is asked to mint: of which token, for whom, and how much or which one.
pub record Terms : Type 0 where
  pub token : CrossChainTokenType
  pub denom : Text
  pub receiver : ℕ
  pub amount : Option ℕ
  pub token_id : Option ℕ
  pub dynasty : ℕ
  pub lock_nonce : ℕ

-- The terms of a call, read from its arguments by their places in the methods of the banks; a call that
-- unlocks has none.
unfoldable pub terms : ContractCall → Option Terms
terms (mint_tfuel denom receiver amount dynasty nonce) = some (record {
  token = tfuel;
  denom = denom;
  receiver = receiver;
  amount = some amount;
  token_id = none;
  dynasty = dynasty;
  lock_nonce = nonce;
})
terms (mint_tnt20 denom name symbol decimals receiver amount dynasty nonce) = some (record {
  token = tnt20;
  denom = denom;
  receiver = receiver;
  amount = some amount;
  token_id = none;
  dynasty = dynasty;
  lock_nonce = nonce;
})
terms (mint_tnt721 denom name symbol receiver token_id token_uri dynasty nonce) = some (record {
  token = tnt721;
  denom = denom;
  receiver = receiver;
  amount = none;
  token_id = some token_id;
  dynasty = dynasty;
  lock_nonce = nonce;
})
terms (mint_tnt1155 denom receiver token_id amount token_uri dynasty nonce) = some (record {
  token = tnt1155;
  denom = denom;
  receiver = receiver;
  amount = some amount;
  token_id = some token_id;
  dynasty = dynasty;
  lock_nonce = nonce;
})
terms _ = none

-- Whether an amount of the token is locked, and whether the token has numbered pieces.
abbrev pub has_amount : CrossChainTokenType → Bool
has_amount tnt721 = false
has_amount _ = true

abbrev pub has_token_id : CrossChainTokenType → Bool
has_token_id tnt721 = true
has_token_id tnt1155 = true
has_token_id _ = false

-- The vouchers for what was locked.
abbrev pub locked_terms : CrossChainTokenType → EventData → ℕ → Terms
locked_terms kind se current = record {
  token = kind;
  denom = se.denom;
  receiver = se.receiver;
  amount = if has_amount kind then some se.amount else none;
  token_id = if has_token_id kind then some se.token_id else none;
  dynasty = current;
  lock_nonce = se.nonce;
}

terms-mint_call :
    (c : Config) (token : CrossChainTokenType) (se : EventData) (dynasty : ℕ)
    → terms (mint_call c token se dynasty) ≡ some (locked_terms token se dynasty)
unfolding terms mint_call
terms-mint_call c tfuel se dynasty = refl
terms-mint_call c tnt20 se dynasty = refl
terms-mint_call c tnt721 se dynasty = refl
terms-mint_call c tnt1155 se dynasty = refl

module _ (c : Config) (t : Turn) (oc : Orchestrator) (token : CrossChainTokenType)
    (e : InterChainMessageEvent) (opts : TransactOpts) (se : EventData) (dynasty : ℕ) where
  -- The call of a lock: for this event and chain, at this time, with the vouchers for what was locked.
  pub record IsMint (s : Submission) : Type 0 where
    pub event_is : s.event ≡ e
    pub target_is : s.target ≡ t.target
    pub at_is : s.at ≡ t.outside.now
    pub opts_are : s.opts ≡ opts
    pub terms_are : terms s.call ≡ some (locked_terms token se dynasty)

  times_after :
      (accepted : Bool)
      → lookup (event_id c.keccak e) oc.event_processed_time ≡ none
      → lookup
          (event_id c.keccak e)
          (if accepted
            then update_event_processed_time c t.outside.now e (cleaned c t oc)
            else cleaned c t oc).event_processed_time
        ≡ (if accepted then some t.outside.now else none)
  unfolding update_event_processed_time
  times_after true fresh =
      lookup-insert_same (event_id c.keccak e) t.outside.now (cleaned c t oc).event_processed_time
  times_after false fresh = ap (lookup (event_id c.keccak e)) (cleaned-times c t oc) ∙ fresh

  -- If the lock of a token with the next nonce is in the cache and can be read, no call for it
  -- was accepted so far, its data is for this target chain, the ledger knows a dynasty, and the
  -- options of a transaction can be built, then `processNextEvent` sends one call, for the event
  -- and to the target chain, that mints for the receiver the amount or the piece that was locked
  -- of that token and denomination, under the dynasty and the nonce of the lock; the time of the
  -- call is noted if it is accepted, and only then. The retry threshold is assumed to be below
  -- the largest duration.
  pub process_next_event-submits :
      t.kind ≡ token_lock token
      → find (key_at t (t.max_processed + 1)) oc.cache ≡ some e
      → t.outside.faults.cannot_read (key_at t (t.max_processed + 1)) ≡ false
      → lookup (event_id c.keccak e) oc.event_processed_time ≡ none
      → get_retry_threshold c t.target < 2 ^ 63 - 1
      → build_tx_opts c t.outside t.target ≡ some opts
      → parse_token_locked c.decoder token e ≡ some se
      → (t.target == se.target_chain_id) ≡ true
      → t.outside.dynasty ≡ some dynasty
      → (oc' : Orchestrator) × (s : Submission) × (process_next_event c t oc ≡ some (oc', s ∷ []))
        × IsMint s
        × (lookup (event_id c.keccak e) oc'.event_processed_time
            ≡ (if t.outside.accepts s.call then some t.outside.now else none))
  unfolding submit
  process_next_event-submits of_kind here readable fresh short built parsed same known =
      let call = mint_call c token se dynasty in
      let s : Submission = record {
        event = e;
        target = t.target;
        opts = opts;
        call = call;
        at = t.outside.now;
        accepted = t.outside.accepts call;
      } in
      (
        if t.outside.accepts call
            then update_event_processed_time c t.outside.now e (cleaned c t oc)
            else cleaned c t oc,
        s,
        process_next_event-mint c t oc token e opts se dynasty of_kind here readable fresh short
            built parsed same known,
        record {
          event_is = refl;
          target_is = refl;
          at_is = refl;
          opts_are = refl;
          terms_are = terms-mint_call c token se dynasty;
        },
        times_after (t.outside.accepts call) fresh,
      )
