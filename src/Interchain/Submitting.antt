-- ===== src/Interchain/Submitting.antt =====
-- interchain/orchestrator/orchestrator.go: what is sent to the target chain, and for which event.
use theta_protocol_subchain.Prelude.{
  ℕ, ◌≡◌, ◌⊎◌, inl, inr, refl, Bool, true, false, some, List, [], ◌∷◌, ◌==◌, Bool-cases,
  Option-cases, ==→eq,
}
use theta_protocol_subchain.Interchain.Denom.{CrossChainTokenType}
use theta_protocol_subchain.Interchain.Events.{
  InterChainMessageEventType, unknown, token_lock, voucher_mint, token_unlock, voucher_burn,
  InterChainMessageEvent, EventData, parse_token_locked, parse_voucher_burned,
}
use theta_protocol_subchain.Interchain.Orchestrator.{
  Config, Outside, Submission, TransactOpts, ContractCall, submit, mint_call, unlock_call,
  mint_vouchers, unlock_tokens, dispatch, call_target_contract, build_tx_opts,
}

module _ (c : Config) (o : Outside) (target : ℕ) (e : InterChainMessageEvent) where
  -- The call that belongs to an event: it mints vouchers for what the event says to be locked, for this
  -- target chain, or unlocks what it says to be burned, under the current dynasty.
  abbrev pub Answers : InterChainMessageEventType → ContractCall → Type 0
  Answers (voucher_mint token) call =
      (se : EventData) × (dynasty : ℕ) × (parse_token_locked c.decoder token e ≡ some se)
      × (target ≡ se.target_chain_id)
      × (o.dynasty ≡ some dynasty)
      × (call ≡ mint_call c token se dynasty)
  Answers (token_unlock token) call =
      (se : EventData) × (dynasty : ℕ) × (parse_voucher_burned c.decoder token e ≡ some se)
      × (o.dynasty ≡ some dynasty)
      × (call ≡ unlock_call c token e.source_chain_id se dynasty)
  Answers _ call = ⊥

  pub record IsSent (kind : InterChainMessageEventType) (s : Submission) : Type 0 where
    pub event_is : s.event ≡ e
    pub target_is : s.target ≡ target
    pub at_is : s.at ≡ o.now
    pub accepted_is : s.accepted ≡ o.accepts s.call
    pub opts_are : build_tx_opts c o target ≡ some s.opts
    pub answers : Answers kind s.call

  -- Nothing was sent, or one call that belongs to the event, and then it is known whether it succeeded.
  abbrev pub SendsAtMostOne : InterChainMessageEventType → Bool × List Submission → Type 0
  SendsAtMostOne kind outcome =
      ((ok : Bool) × (outcome ≡ (ok, [])))
      ⊎ ((s : Submission) × (outcome ≡ (s.accepted, s ∷ [])) × IsSent kind s)

  submission : TransactOpts → ContractCall → Submission
  submission opts call = record {
    event = e;
    target = target;
    opts = opts;
    call = call;
    at = o.now;
    accepted = o.accepts call;
  }

  mint_vouchers-sends :
      (token : CrossChainTokenType) (opts : TransactOpts)
      → build_tx_opts c o target ≡ some opts
      → SendsAtMostOne (voucher_mint token) (mint_vouchers c o token target opts e)
  unfolding mint_vouchers submit submission
  mint_vouchers-sends token opts built =
      elim (Option-cases (parse_token_locked c.decoder token e)) [
        | inl none_parsed ↦ inl (false, rw (none_parsed, mint_vouchers) refl)
        | inr (se, parsed) ↦ elim (Bool-cases (target == se.target_chain_id)) [
          | inl same ↦ elim (Option-cases o.dynasty) [
            | inl no_dynasty ↦ inl (false, rw (parsed, same, no_dynasty, mint_vouchers) refl)
            | inr (dynasty, known) ↦ inr (
              submission opts (mint_call c token se dynasty),
              rw (parsed, same, known, mint_vouchers) refl,
              record {
                event_is = refl;
                target_is = refl;
                at_is = refl;
                accepted_is = refl;
                opts_are = built;
                answers = (se, dynasty, parsed, ==→eq target se.target_chain_id same, known, refl);
              },
            )
          ]
          | inr other ↦ inl (true, rw (parsed, other, mint_vouchers) refl)
        ]
      ]

  unlock_tokens-sends :
      (token : CrossChainTokenType) (opts : TransactOpts)
      → build_tx_opts c o target ≡ some opts
      → SendsAtMostOne (token_unlock token) (unlock_tokens c o token target opts e)
  unfolding unlock_tokens submit submission
  unlock_tokens-sends token opts built =
      elim (Option-cases (parse_voucher_burned c.decoder token e)) [
        | inl none_parsed ↦ inl (false, rw (none_parsed, unlock_tokens) refl)
        | inr (se, parsed) ↦ elim (Option-cases o.dynasty) [
          | inl no_dynasty ↦ inl (false, rw (parsed, no_dynasty, unlock_tokens) refl)
          | inr (dynasty, known) ↦ inr (
            submission opts (unlock_call c token e.source_chain_id se dynasty),
            rw (parsed, known, unlock_tokens) refl,
            record {
              event_is = refl;
              target_is = refl;
              at_is = refl;
              accepted_is = refl;
              opts_are = built;
              answers = (se, dynasty, parsed, known, refl);
            },
          )
        ]
      ]

  dispatch-sends :
      (kind : InterChainMessageEventType) (opts : TransactOpts)
      → build_tx_opts c o target ≡ some opts
      → SendsAtMostOne kind (dispatch c o target kind opts e)
  unfolding dispatch
  dispatch-sends unknown opts built = inl (true, refl)
  dispatch-sends (token_lock token) opts built = inl (true, refl)
  dispatch-sends (voucher_mint token) opts built = mint_vouchers-sends token opts built
  dispatch-sends (token_unlock token) opts built = unlock_tokens-sends token opts built
  dispatch-sends (voucher_burn token) opts built = inl (true, refl)

  pub call_target_contract-sends :
      (kind : InterChainMessageEventType)
      → SendsAtMostOne kind (call_target_contract c o target kind e)
  unfolding call_target_contract
  call_target_contract-sends kind = elim (Option-cases (build_tx_opts c o target)) [
    | inl failed ↦ inl (false, rw (failed, call_target_contract) refl)
    | inr (opts, built) ↦ rw (built, call_target_contract) (dispatch-sends kind opts built)
  ]
