-- ===== src/Consensus/Commit/Finalize.antt =====
-- consensus/engine.go `finalizeBlock`: what a call changes.
use theta_protocol_subchain.Prelude.{
  ◌≡◌, sym, ap, ◌∙◌, ◌⊎◌, inl, inr, Bool, true, false, Option, some, arith, ◌==◌, if◌then◌else◌,
  Bool-cases, some_inj, some_pair_inj, >>=-eq-some, if_true, if_false,
}
use theta_protocol_subchain.Core.Block.{Block, ExtendedBlock}
use theta_protocol_subchain.Chain.Store.{Chain, add_txs_to_index}
use theta_protocol_subchain.Chain.Blocks.{finalize_previous_blocks, commit_block}
use theta_protocol_subchain.Consensus.State.{State, set_highest_cc_block, set_last_finalized_block}
use theta_protocol_subchain.Consensus.Engine.{
  Env, Engine, get_last_finalized_block, check_sync_status,
}
use theta_protocol_subchain.Consensus.Commit.{notify_finalized, finalize_block, raise_highest_cc}
use theta_protocol_subchain.Chain.Rounds.{blocks-add_txs_to_index}
use theta_protocol_subchain.Consensus.Voting.Epochs.{check_sync_status-keeps}

notify_finalized-keeps :
    (env : Env) (e : Engine) (b : Block)
    → ((notify_finalized env e b).state ≡ e.state) × ((notify_finalized env e b).chain ≡ e.chain)
unfolding notify_finalized
notify_finalized-keeps env e b = ground arith

-- The end of `finalizeBlock`, by whether the blocks before could be finalized.
finalize_block_end :
    (env : Env) (synced e' : Engine) (ch : Chain) (b : ExtendedBlock) (done ok : Bool)
    → ◌≡◌ {A = Option (Engine × Bool)}
        (some (
          if done
          then (
            notify_finalized env
                (record synced { chain = add_txs_to_index env.hashes ch b true })
                b.block,
            true,
          )
          else (record synced { chain = ch }, false)))
        (some (e', ok))
    → (e'.state ≡ synced.state) × (ok ≡ done) × (e'.chain.blocks ≡ ch.blocks)
finalize_block_end env synced e' ch b false ok h =
    let (same, okay) = some_pair_inj h in
    (
      ap (λ (x : Engine). x.state) (sym same),
      sym okay,
      ap (λ (x : Engine). x.chain.blocks) (sym same),
    )
finalize_block_end env synced e' ch b true ok h =
    let (same, okay) = some_pair_inj h in
    let indexed = record synced { chain = add_txs_to_index env.hashes ch b true } in
    let (states, chains) = notify_finalized-keeps env indexed b.block in
    (
      ap (λ (x : Engine). x.state) (sym same) ∙ states,
      sym okay,
      ap (λ (x : Engine). x.chain.blocks) (sym same)
          ∙ ap (λ (c : Chain). c.blocks) chains
          ∙ blocks-add_txs_to_index env.hashes ch b true,
    )

-- A call of `finalizeBlock` changes nothing and returns no error, or it changes nothing of the
-- consensus state but the last finalized block, which becomes the block, and leaves the stored
-- blocks, and the error or its absence, as `FinalizePreviousBlocks` gives them on the chain.
finalize_block_lem :
    (env : Env) (e e' : Engine) (b : ExtendedBlock) (ok : Bool)
    → finalize_block env e b ≡ some (e', ok)
    → ((e' ≡ e) × (ok ≡ true))
      ⊎ ((e'.state ≡ set_last_finalized_block e.state b.hash)
          × (ch : Chain) × (finalize_previous_blocks env.hashes e.chain b.hash ≡ some (ch, ok))
          × (e'.chain.blocks ≡ ch.blocks))
unfolding finalize_block
finalize_block_lem env e e' b ok h = elim (Bool-cases e.stopped) [
  | inl stopped ↦
      let (same, okay) = some_pair_inj (sym (if_true _ _ stopped) ∙ h) in inl (sym same, sym okay)
  | inr running ↦
      let (lfb, found, h1) =
        >>=-eq-some (get_last_finalized_block e) _ (sym (if_false _ _ running) ∙ h) in
      elim (Bool-cases (b.hash == lfb.hash)) [
        | inl again ↦
            let (same, okay) = some_pair_inj (sym (if_true _ _ again) ∙ h1) in
            inl (sym same, sym okay)
        | inr other ↦
            let finalized = record e { state = set_last_finalized_block e.state b.hash } in
            let (synced, checked, h2) =
              >>=-eq-some (check_sync_status env finalized) _ (sym (if_false _ _ other) ∙ h1) in
            let ((ch, done), marked, h3) =
              >>=-eq-some (finalize_previous_blocks env.hashes synced.chain b.hash) _ h2 in
            let (states, okay, blocks) = finalize_block_end env synced e' ch b done ok h3 in
            let (chain, state, _) = check_sync_status-keeps env finalized synced checked in
            let same = ap (λ (c : Chain). finalize_previous_blocks env.hashes c b.hash) chain in
            inr (
              states ∙ state,
              ch,
              sym same ∙ marked ∙ ap (λ (o : Bool). some (ch, o)) (sym okay),
              blocks,
            )
      ]
]

raise_highest_cc_lem :
    (e e' : Engine) (b : ExtendedBlock)
    → raise_highest_cc e b ≡ some e'
    → (e'.state ≡ set_highest_cc_block e.state b.hash)
      × (commit_block e.chain b.hash ≡ some e'.chain)
unfolding raise_highest_cc
raise_highest_cc_lem e e' b h =
    let (ch, committed, done) = >>=-eq-some (commit_block e.chain b.hash) _ h in
    let same = some_inj done in (ap (λ (x : Engine). x.state) (sym same), rw (← same) committed)

pub lfb-raise_highest_cc :
    (e e' : Engine) (b : ExtendedBlock)
    → raise_highest_cc e b ≡ some e'
    → (e'.state.last_finalized_block ≡ e.state.last_finalized_block)
      × (e'.state.highest_cc_block ≡ b.hash)
unfolding set_highest_cc_block
lfb-raise_highest_cc e e' b h =
    let (state, _) = raise_highest_cc_lem e e' b h in
    (ap (λ (s : State). s.last_finalized_block) state, ap (λ (s : State). s.highest_cc_block) state)

pub finalize_block_moves :
    (env : Env) (e e' : Engine) (b : ExtendedBlock) (ok : Bool)
    → finalize_block env e b ≡ some (e', ok)
    → (e'.state.highest_cc_block ≡ e.state.highest_cc_block)
      × ((e'.state.last_finalized_block ≡ e.state.last_finalized_block)
          ⊎ (e'.state.last_finalized_block ≡ b.hash))
unfolding set_last_finalized_block
finalize_block_moves env e e' b ok h = elim (finalize_block_lem env e e' b ok h) [
  | inl (same, _) ↦ (
    ap (λ (x : Engine). x.state.highest_cc_block) same,
    inl (ap (λ (x : Engine). x.state.last_finalized_block) same),
  )
  | inr (state, _, _, _) ↦ (
    ap (λ (s : State). s.highest_cc_block) state,
    inr (ap (λ (s : State). s.last_finalized_block) state),
  )
]
