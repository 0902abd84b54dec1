-- ===== src/Consensus/Proposing/Restarting.antt =====
-- consensus/engine.go `propose`: what a restart keeps of a proposal.
use theta_protocol_subchain.Prelude.{
  ℕ, ◌≡◌, refl, sym, ap, subst, ◌∙◌, ◌⊎◌, inl, inr, Option, none, some, [], ◌∷◌, Bool-cases,
  Option-cases, In, In-append_right, some_inj, >>=-eq-some, if_true, if_false,
}
use theta_protocol_subchain.Core.Block.{Proposal}
use theta_protocol_subchain.Chain.Blocks.{
  AddResult, added, already_added, chain_id_mismatch, add_block,
}
use theta_protocol_subchain.Consensus.State.{StateStub, State, restart, restart-database}
use theta_protocol_subchain.Consensus.Engine.{Env, Engine, get_tip_to_extend}
use theta_protocol_subchain.Consensus.Proposing.{
  Proposing, send_proposal, make_proposal, is_repeated, create_proposal, propose, should_propose,
  validator_majority_in_the_same_dynasty,
}

-- The database is as before, and the proposal too, unless a new one is remembered that is sent.
record Remembers (e e' : Engine) : Type 0 where
  same_stub : e'.state.stub ≡ e.state.stub
  same_votes : e'.state.epoch_votes ≡ e.state.epoch_votes
  same_root : e'.state.root ≡ e.state.root
  proposal_is :
      (e'.state.last_proposal ≡ e.state.last_proposal) ⊎ In e'.state.last_proposal e'.proposed

send_proposal_lem :
    (e e' : Engine) (proposal : Proposal)
    → send_proposal e proposal ≡ some e'
    → (e'.state ≡ e.state) × In proposal e'.proposed
unfolding send_proposal
send_proposal_lem e e' proposal h = elim (Option-cases proposal.block) [
  | inl none_ ↦ cc (rw (none_, send_proposal) at h)
  | inr (block, given) ↦
      let same = some_inj (rw (given, send_proposal) at h) in
      rw (← same) (refl, In-append_right proposal e.proposed (proposal ∷ []) (inl refl))
]

after_adding :
    (result : AddResult) (remembered e' : Engine) (proposal : Proposal)
    → ◌≡◌ {A = Option Engine}
        (elim result [
          | added _ ↦ send_proposal remembered proposal
          | already_added _ ↦ none
          | chain_id_mismatch ↦ none
        ])
        (some e')
    → send_proposal remembered proposal ≡ some e'
after_adding (added b) remembered e' proposal h = h
after_adding (already_added b) remembered e' proposal h = absurd (cc (h))
after_adding chain_id_mismatch remembered e' proposal h = absurd (cc (h))

Remembers-state : (e e' : Engine) → e'.state ≡ e.state → Remembers e e'
Remembers-state e e' same = record {
  same_stub = ap (λ (s : State). s.stub) same;
  same_votes = ap (λ (s : State). s.epoch_votes) same;
  same_root = ap (λ (s : State). s.root) same;
  proposal_is = inl (ap (λ (s : State). s.last_proposal) same);
}

make_proposal-Remembers :
    (env : Env) (e e' : Engine) (proposal : Proposal)
    → make_proposal env e proposal ≡ some e'
    → Remembers e e'
unfolding make_proposal
make_proposal-Remembers env e e' proposal h = elim (Option-cases proposal.block) [
  | inl none_ ↦ cc (rw (none_, make_proposal) at h)
  | inr (block, given) ↦
      let made = add_block env.hashes e.chain block in
      let remembered : Engine = record e {
        chain = made.0;
        state = record (e.state) { last_proposal = proposal };
      } in
      let h1 = after_adding made.1 remembered e' proposal (rw (given, make_proposal) at h) in
      let (same, sent) = send_proposal_lem remembered e' proposal h1 in
      record {
        same_stub = ap (λ (s : State). s.stub) same;
        same_votes = ap (λ (s : State). s.epoch_votes) same;
        same_root = ap (λ (s : State). s.root) same;
        proposal_is =
            inr
              (subst (λ q. In q e'.proposed) (sym (ap (λ (s : State). s.last_proposal) same)) sent);
      }
]

after_creating :
    (env : Env) (e e' : Engine) (made : Option Proposal)
    → ◌≡◌ {A = Option Engine}
        (elim made [ none ↦ some e | some proposal ↦ make_proposal env e proposal ])
        (some e')
    → Remembers e e'
after_creating env e e' none h =
    Remembers-state e e' (ap (λ (x : Engine). x.state) (sym (some_inj h)))
after_creating env e e' (some proposal) h = make_proposal-Remembers env e e' proposal h

propose-Remembers :
    (env : Env) (p : Proposing) (e e' : Engine) → propose env p e ≡ some e' → Remembers e e'
unfolding propose
propose-Remembers env p e e' h =
    let (tip, found, h1) = >>=-eq-some (get_tip_to_extend env e) _ h in
    let (should, decided, h2) = >>=-eq-some (should_propose env tip e.state.epoch) _ h1 in
    elim (Bool-cases should) [
      | inr idle ↦
          Remembers-state e e'
            (ap (λ (x : Engine). x.state) (sym (some_inj (sym (if_false _ _ idle) ∙ h2))))
      | inl turn ↦
          let (same_dynasty, counted, h3) =
            >>=-eq-some (validator_majority_in_the_same_dynasty env e tip) _
              (sym (if_true _ _ turn) ∙ h2) in
          elim (Bool-cases (is_repeated e.state.epoch e.state.last_proposal)) [
            | inl again ↦
                Remembers-state e e'
                  (send_proposal_lem e e' e.state.last_proposal (sym (if_true _ _ again) ∙ h3)).0
            | inr fresh ↦
                let (made, created, h4) =
                  >>=-eq-some (create_proposal env p e same_dynasty) _
                    (sym (if_false _ _ fresh) ∙ h3) in
                after_creating env e e' made h4
          ]
    ]

-- A call of `propose` that returns leaves the last proposal as it was, or remembers one that it
-- has sent; but a process that restarts after the call begins with the state with which it would
-- have begun before it, whatever is read of a stub that was written: a new proposal is lost.
pub propose-restart :
    (env : Env) (p : Proposing) (e e' : Engine) (recode : StateStub → StateStub) (root_epoch : ℕ)
    → propose env p e ≡ some e'
    → ((e'.state.last_proposal ≡ e.state.last_proposal) ⊎ In e'.state.last_proposal e'.proposed)
      × (restart recode e'.state root_epoch ≡ restart recode e.state root_epoch)
propose-restart env p e e' recode root_epoch h =
    let r = propose-Remembers env p e e' h in
    (
      r.proposal_is,
      restart-database recode e.state e'.state root_epoch r.same_stub r.same_votes r.same_root,
    )
