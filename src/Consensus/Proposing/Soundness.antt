-- ===== src/Consensus/Proposing/Soundness.antt =====
-- consensus/engine.go `createProposal`, against core/block.go `Validate`.
use theta_protocol_subchain.Prelude.{some_inj, ◌∙◌, ap, sym}
use mathlib.Core.Path.{subst}
use theta_protocol_subchain.Prelude.{
  ℕ, ◌+◌, ◌≡◌, refl, sym, ap, ◌∙◌, ◌≢◌, Bool, true, false, Option, none, some, List, [], arith,
  if◌then◌else◌, some_inj, >>=-eq-some,
}
use mathlib.Core.Path.{subst}
use theta_protocol_subchain.Core.Validator.{ValidatorSet}
use theta_protocol_subchain.Core.Block.{Block, BlockHeader, ExtendedBlock, Proposal, validate_block}
use theta_protocol_subchain.Chain.Store.{find_block}
use theta_protocol_subchain.Consensus.Managers.{uint64}
use theta_protocol_subchain.Consensus.Engine.{
  Env, Engine, get_highest_cc_block, get_validator_set, get_tip_to_extend,
}
use theta_protocol_subchain.Consensus.Proposing.{
  Proposing, new_header, seal_block, proposal_votes, create_proposal,
}

-- What the node's key and the verification of signatures have to do with each other.
abbrev pub IsSigner : Env → Proposing → Type 0
IsSigner env p =
    (m : List ℕ)
    → (p.header_crypto.is_empty_signature (env.sign m) ≡ false)
      × (p.header_crypto.verify (env.sign m) m env.address ≡ true)

seal_block_validates :
    (env : Env) (p : Proposing) (e : Engine) (tip hcc : ExtendedBlock) (time root : ℕ)
    (vs : ValidatorSet) (txs : List (List ℕ))
    → IsSigner env p
    → env.address ≢ 0
    → tip.hash ≢ 0
    → hcc.hash ≢ 0
    → validate_block p.header_crypto e.chain.chain_id
        (seal_block env p (record { header = new_header env e tip hcc time vs; txs = [] }) root txs)
      ≡ true
unfolding validate_block seal_block new_header
seal_block_validates env p e tip hcc time root vs txs signer addressed tip_given hcc_given =
    let rooted : BlockHeader = record (new_header env e tip hcc time vs) {
      tx_hash = p.header_crypto.calculate_root_hash txs;
      receipt_hash = p.header_crypto.calculate_root_hash [];
      state_hash = root;
    } in
    let (full, verified) = signer (p.header_crypto.encode_header rooted) in
    ground (arith, full, verified)

after_reset :
    (c : Bool) (made : Option Proposal) (proposal : Proposal)
    → (if c then some made else none) ≡ some (some proposal)
    → made ≡ some proposal
after_reset true made proposal h = some_inj h
after_reset false made proposal h = absurd (cc (h))

-- The block of a proposal that the ledger has answered.
answered :
    (env : Env) (p : Proposing) (e : Engine) (block : Block) (hcc : ExtendedBlock)
    (vs : ValidatorSet) (proposal : Proposal) (o : Option (ℕ × List (List ℕ)))
    → ◌≡◌ {A = Option Proposal}
        (elim o [
          | none ↦ none
          | some r ↦ some (record {
            block = some (seal_block env p block r.0 r.1);
            proposer_id = env.address;
            votes = some (proposal_votes e hcc vs);
          })
        ])
        (some proposal)
    → (root : ℕ) × (txs : List (List ℕ)) × (proposal.block ≡ some (seal_block env p block root txs))
answered env p e block hcc vs proposal none h = absurd (cc (h))
answered env p e block hcc vs proposal (some (root, txs)) h =
    (root, txs, ap (λ (x : Proposal). x.block) (sym (some_inj h)))

sealed_position :
    (env : Env) (p : Proposing) (e : Engine) (tip hcc : ExtendedBlock) (time root : ℕ)
    (vs : ValidatorSet) (txs : List (List ℕ))
    → let b =
        seal_block env p
          (record { header = new_header env e tip hcc time vs; txs = [] })
          root
          txs in
      (b.parent ≡ tip.hash)
      × (b.height ≡ uint64 (tip.height + 1))
      × (b.epoch ≡ e.state.epoch)
      × (b.hcc.block_hash ≡ hcc.hash)
unfolding seal_block new_header
sealed_position env p e tip hcc time root vs txs = (refl, refl, refl, refl)

-- A block that `createProposal` makes passes the `Validate` of blocks for the engine's chain,
-- extends the tip by one (on uint64) in the current epoch, and carries the highest certified
-- block, if the node has an address, its signatures are not empty and verify, and neither the tip
-- nor the highest certified block has the empty hash.
pub create_proposal-validates :
    (env : Env) (p : Proposing) (e : Engine) (same : Bool) (proposal : Proposal)
    (tip hcc : ExtendedBlock)
    → IsSigner env p
    → env.address ≢ 0
    → tip.hash ≢ 0
    → hcc.hash ≢ 0
    → get_tip_to_extend env e ≡ some tip
    → get_highest_cc_block e ≡ some hcc
    → create_proposal env p e same ≡ some (some proposal)
    → (b : Block) × (proposal.block ≡ some b)
      × (validate_block p.header_crypto e.chain.chain_id b ≡ true)
      × (b.parent ≡ tip.hash)
      × (b.height ≡ uint64 (tip.height + 1))
      × (b.epoch ≡ e.state.epoch)
      × (b.hcc.block_hash ≡ hcc.hash)
unfolding create_proposal
create_proposal-validates env p e same proposal tip hcc signer addressed tip_given hcc_given at_tip
      at_hcc h =
    let (tip', tipped, h1) = >>=-eq-some (get_tip_to_extend env e) _ h in
    let (parent, stored, h2) = >>=-eq-some (find_block e.chain tip'.hash) _ h1 in
    let (time, timed, h3) = >>=-eq-some (parent.timestamp) _ h2 in
    let (hcc', certified, h4) = >>=-eq-some (get_highest_cc_block e) _ h3 in
    let (vs, selected, h5) = >>=-eq-some (get_validator_set env hcc'.hash) _ h4 in
    let (root, txs, made) =
      answered env p e (record { header = new_header env e tip' hcc' time vs; txs = [] }) hcc' vs
        proposal
        (p.propose_block_txs (record { header = new_header env e tip' hcc' time vs; txs = [] })
          same)
        (after_reset (env.reset_state tip'.block) _ proposal h5) in
    let same_tip : tip' ≡ tip = some_inj (sym tipped ∙ at_tip) in
    let same_hcc : hcc' ≡ hcc = some_inj (sym certified ∙ at_hcc) in
    let (parent_, height, epoch, certified_) = sealed_position env p e tip' hcc' time root vs txs in
    (
      seal_block env p (record { header = new_header env e tip' hcc' time vs; txs = [] }) root txs,
      made,
      seal_block_validates env p e tip' hcc' time root vs txs signer addressed
          (subst (λ (x : ExtendedBlock). x.hash ≢ 0) (sym same_tip) tip_given)
          (subst (λ (x : ExtendedBlock). x.hash ≢ 0) (sym same_hcc) hcc_given),
      parent_ ∙ ap (λ (x : ExtendedBlock). x.hash) same_tip,
      height ∙ ap (λ (x : ExtendedBlock). uint64 (x.height + 1)) same_tip,
      epoch,
      certified_ ∙ ap (λ (x : ExtendedBlock). x.hash) same_hcc,
    )
