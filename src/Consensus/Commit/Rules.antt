-- ===== src/Consensus/Commit/Rules.antt =====
-- consensus/engine.go `checkCC`, `processCCBlock`: what is committed and finalized.
use theta_protocol_subchain.Prelude.{
  ℕ, ◌*◌, ◌<◌, ◌≡◌, refl, sym, ap, ◌∙◌, ◌⊎◌, inl, inr, Bool, true, false, ◌||◌, Option, none, some,
  arith, ltb, leb, ◌==◌, if◌then◌else◌, ==→eq, Bool-cases, some_inj, >>=-eq-some, ◌>>=◌, if_true,
  if_false,
}
use theta_protocol_subchain.Core.Block.{
  ExtendedBlock, is_trusted, is_committed, is_invalid, is_pending, is_directly_finalized,
  is_indirectly_finalized,
}
use theta_protocol_subchain.Chain.Store.{find_block, find_votes_by_hash}
use theta_protocol_subchain.Consensus.State.{State}
use theta_protocol_subchain.Consensus.Engine.{Env, Engine, get_highest_cc_block, get_validator_set}
use theta_protocol_subchain.Core.Validator.{ValidatorSet, total_stake}
use theta_protocol_subchain.Core.Certificate.Quorum.{
  stake_where, has_voted, has_majority-unique_voter,
}
use theta_protocol_subchain.Consensus.Commit.{
  finalize_block, raise_highest_cc, process_cc_block, has_certificate, check_cc_block, check_cc,
}
use theta_protocol_subchain.Consensus.Commit.Finalize.{lfb-raise_highest_cc, finalize_block_moves}

-- Where the highest certified block may have moved to, in a call of `processCCBlock`.
unfoldable pub RaisesHighest : Engine → Engine → ExtendedBlock → Type 0
unfolding get_highest_cc_block
RaisesHighest e e' b =
    (hcc : ExtendedBlock) × (get_highest_cc_block e ≡ some hcc)
    × (hcc.height < b.height)
    × (e'.state.highest_cc_block ≡ b.hash)

-- Where the last finalized block may have moved to: the stored parent of the block, which the block's
-- own certificate certifies.
unfoldable pub FinalizesParent : Engine → Engine → ExtendedBlock → Type 0
unfolding find_block
FinalizesParent e e' b =
    (b.parent ≡ b.hcc.block_hash)
    × (parent : ExtendedBlock) × (find_block e.chain b.parent ≡ some parent)
    × (e'.state.last_finalized_block ≡ parent.hash)

-- The branch of `processCCBlock` for a block whose certificate is for its parent.
finalize_parent_moves :
    (env : Env) (e e' : Engine) (b hcc : ExtendedBlock) (o : Option ExtendedBlock)
    → find_block e.chain b.parent ≡ o
    → b.parent ≡ b.hcc.block_hash
    → get_highest_cc_block e ≡ some hcc
    → hcc.height < b.height
    → ◌≡◌ {A = Option Engine}
        (elim o [
          | none ↦ some e
          | some parent ↦ do
            (e', ok) ← finalize_block env e parent
            if ok then raise_highest_cc e' b else some e'
        ])
        (some e')
    → ((e'.state.highest_cc_block ≡ e.state.highest_cc_block) ⊎ RaisesHighest e e' b)
      × ((e'.state.last_finalized_block ≡ e.state.last_finalized_block) ⊎ FinalizesParent e e' b)
unfolding RaisesHighest FinalizesParent
finalize_parent_moves env e e' b hcc none stored linked found above h =
    let same = some_inj h in
    (
      inl (ap (λ (x : Engine). x.state.highest_cc_block) (sym same)),
      inl (ap (λ (x : Engine). x.state.last_finalized_block) (sym same)),
    )
finalize_parent_moves env e e' b hcc (some parent) stored linked found above h =
    let ((mid, ok), ran, h1) = >>=-eq-some (finalize_block env e parent) _ h in
    let (top, lfb) = finalize_block_moves env e mid parent ok ran in
    elim (Bool-cases ok) [
      | inl good ↦
          let (lfb2, top2) = lfb-raise_highest_cc mid e' b (sym (if_true _ _ good) ∙ h1) in
          (
            inr (hcc, found, above, top2),
            elim lfb [
              | inl kept ↦ inl (lfb2 ∙ kept)
              | inr moved ↦ inr (linked, parent, stored, lfb2 ∙ moved)
            ],
          )
      | inr bad ↦
          let same = ap (λ (x : Engine). x.state) (sym (some_inj (sym (if_false _ _ bad) ∙ h1))) in
          (
            inl (ap (λ (s : State). s.highest_cc_block) same ∙ top),
            elim lfb [
              | inl kept ↦ inl (ap (λ (s : State). s.last_finalized_block) same ∙ kept)
              | inr moved ↦
                  inr (
                    linked,
                    parent,
                    stored,
                    ap (λ (s : State). s.last_finalized_block) same ∙ moved,
                  )
            ],
          )
    ]

-- A call of `processCCBlock` leaves the highest certified block or moves it up to the block,
-- which is then higher than the one before; it leaves the last finalized block or moves it to the
-- stored parent of the block, and only where the block's own certificate is for that parent.
pub process_cc_block_lem :
    (env : Env) (e e' : Engine) (b : ExtendedBlock)
    → process_cc_block env e b ≡ some e'
    → ((e'.state.highest_cc_block ≡ e.state.highest_cc_block) ⊎ RaisesHighest e e' b)
      × ((e'.state.last_finalized_block ≡ e.state.last_finalized_block) ⊎ FinalizesParent e e' b)
unfolding process_cc_block RaisesHighest FinalizesParent
process_cc_block_lem env e e' b h =
    let (hcc, found, h1) = >>=-eq-some (get_highest_cc_block e) _ h in
    elim (Bool-cases (leb b.height hcc.height)) [
      | inl low ↦
          let same = some_inj (sym (if_true _ _ low) ∙ h1) in
          (
            inl (ap (λ (x : Engine). x.state.highest_cc_block) (sym same)),
            inl (ap (λ (x : Engine). x.state.last_finalized_block) (sym same)),
          )
      | inr high ↦
          let h2 = sym (if_false _ _ high) ∙ h1 in
          let above : hcc.height < b.height = ground arith in
          elim (Bool-cases (b.parent == b.hcc.block_hash)) [
            | inr gap ↦
                let (lfb, top) = lfb-raise_highest_cc e e' b (sym (if_false _ _ gap) ∙ h2) in
                (inr (hcc, found, above, top), inl lfb)
            | inl linked ↦
                let h3 = sym (if_true _ _ linked) ∙ h2 in
                finalize_parent_moves env e e' b hcc (find_block e.chain b.parent) refl
                  (==→eq _ _ linked) found above h3
          ]
    ]

check_cc_block_lem :
    (env : Env) (e e' : Engine) (hash : ℕ) (b : ExtendedBlock)
    → check_cc_block env e hash b ≡ some e'
    → (e' ≡ e)
      ⊎ ((is_invalid b.status ≡ false)
          × (is_pending b.status ≡ false)
          × ((is_trusted b.status ≡ true) ⊎ (has_certificate env e hash ≡ some true))
          × (process_cc_block env e b ≡ some e'))
unfolding check_cc_block
check_cc_block_lem env e e' hash b h = elim (Bool-cases (is_invalid b.status)) [
  | inl bad ↦ inl (sym (some_inj (sym (if_true _ _ bad) ∙ h)))
  | inr valid ↦
      let h1 = sym (if_false _ _ valid) ∙ h in
      elim (Bool-cases (is_pending b.status)) [
        | inl bad ↦ inl (sym (some_inj (sym (if_true _ _ bad) ∙ h1)))
        | inr seen ↦
            let h2 = sym (if_false _ _ seen) ∙ h1 in
            elim (Bool-cases (
              is_committed b.status
              || is_directly_finalized b.status
              || is_indirectly_finalized b.status)) [
                | inl done ↦ inl (sym (some_inj (sym (if_true _ _ done) ∙ h2)))
                | inr early ↦
                    let h3 = sym (if_false _ _ early) ∙ h2 in
                    elim (Bool-cases (is_trusted b.status)) [
                      | inl trusted ↦ inr (valid, seen, inl trusted, sym (if_true _ _ trusted) ∙ h3)
                      | inr fresh ↦
                          let (hcc, _, h4) =
                            >>=-eq-some (get_highest_cc_block e) _
                              (sym (if_false _ _ fresh) ∙ h3) in
                          elim (Bool-cases (ltb b.height hcc.height)) [
                            | inl low ↦ inl (sym (some_inj (sym (if_true _ _ low) ∙ h4)))
                            | inr high ↦
                                let (certified, counted, h5) =
                                  >>=-eq-some (has_certificate env e hash) _
                                    (sym (if_false _ _ high) ∙ h4) in
                                elim (Bool-cases certified) [
                                  | inl reached ↦ inr (
                                    valid,
                                    seen,
                                    inr (counted ∙ ap (λ (c : Bool). some c) reached),
                                    sym (if_true _ _ reached) ∙ h5,
                                  )
                                  | inr short ↦ inl (sym (some_inj (sym (if_false _ _ short) ∙ h5)))
                                ]
                          ]
                    ]
              ]
      ]
]

stored_or_same :
    {P : ExtendedBlock → Type 0} (e e' : Engine) (f : ExtendedBlock → Option Engine)
    (o : Option ExtendedBlock)
    → ((b : ExtendedBlock) → f b ≡ some e' → (e' ≡ e) ⊎ P b)
    → ◌≡◌ {A = Option Engine} (elim o [ none ↦ some e | some b ↦ f b ]) (some e')
    → (e' ≡ e) ⊎ ((b : ExtendedBlock) × (o ≡ some b) × P b)
stored_or_same e e' f none g h = inl (sym (some_inj h))
stored_or_same e e' f (some b) g h = elim (g b h) [ inl same ↦ inl same | inr p ↦ inr (b, refl, p) ]

-- Validators with more than two thirds of the stake have voted for the block in the stored votes.
abbrev pub IsCertified : Env → Engine → ℕ → Type 0
IsCertified env e hash =
    (vs : ValidatorSet) × (get_validator_set env hash ≡ some vs)
    × (total_stake vs * 2
        < stake_where (has_voted (find_votes_by_hash e.chain hash).votes) vs.validators * 3)

has_certificate-IsCertified :
    (env : Env) (e : Engine) (hash : ℕ)
    → has_certificate env e hash ≡ some true
    → IsCertified env e hash
unfolding has_certificate
has_certificate-IsCertified env e hash h =
    let (vs, selected, counted) = >>=-eq-some (get_validator_set env hash) _ h in
    (
      vs,
      selected,
      has_majority-unique_voter vs (find_votes_by_hash e.chain hash) (some_inj counted),
    )

-- A call of `checkCC` changes nothing, or is the call of `processCCBlock` for the stored block
-- with the hash, and then the block's status is neither invalid nor pending, and the block is
-- trusted or validators with more than two thirds of the stake of the validators for it have
-- votes among those that are stored under its hash, each validator counted once; the highest
-- certified block then stays or moves up to that block, and the last finalized one stays or moves
-- to its stored parent, which its own certificate is for.
pub check_cc_lem :
    (env : Env) (e e' : Engine) (hash : ℕ)
    → check_cc env e hash ≡ some e'
    → (e' ≡ e)
      ⊎ ((b : ExtendedBlock) × (find_block e.chain hash ≡ some b)
          × (is_invalid b.status ≡ false)
          × (is_pending b.status ≡ false)
          × ((is_trusted b.status ≡ true) ⊎ IsCertified env e hash)
          × (process_cc_block env e b ≡ some e')
          × ((e'.state.highest_cc_block ≡ e.state.highest_cc_block) ⊎ RaisesHighest e e' b)
          × ((e'.state.last_finalized_block ≡ e.state.last_finalized_block)
              ⊎ FinalizesParent e e' b))
unfolding check_cc check_cc_block
check_cc_lem env e e' hash h = elim (Bool-cases (hash == 0)) [
  | inl nil ↦ inl (sym (some_inj (sym (if_true _ _ nil) ∙ h)))
  | inr given ↦
      elim (stored_or_same e e' (check_cc_block env e hash) (find_block e.chain hash)
        (check_cc_block_lem env e e' hash) (sym (if_false _ _ given) ∙ h)) [
          | inl same ↦ inl same
          | inr (b, found, (valid, seen, certified, ran)) ↦ inr (
            b,
            found,
            valid,
            seen,
            elim certified [
              | inl trusted ↦ inl trusted
              | inr counted ↦ inr (has_certificate-IsCertified env e hash counted)
            ],
            ran,
            (process_cc_block_lem env e e' b ran).0,
            (process_cc_block_lem env e e' b ran).1,
          )
        ]
]
