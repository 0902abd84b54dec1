-- ===== src/Consensus/Processing/Validation.antt =====
-- consensus/engine.go `validateBlock`: what holds of a block that passes.
use theta_protocol_subchain.Prelude.{
  ℕ, ◌+◌, ◌<◌, ◌≡◌, refl, sym, ap, ◌∙◌, ◌⊎◌, ◌↔◌, inl, inr, Bool, true, false, not, ◌&&◌, Option,
  none, some, arith, ltb, leb, ◌==◌, if◌then◌else◌, ==→eq, Bool-cases, if_false, and_parts,
  some_inj, >>=-eq-some, ◌>>=◌,
}
use theta_protocol_subchain.Core.Certificate.{CommitCertificate}
use theta_protocol_subchain.Core.Certificate as Cert
use theta_protocol_subchain.Core.Block.{Block, ExtendedBlock, is_valid, is_finalized}
use theta_protocol_subchain.Chain.Store.{Chain, find_block}
use theta_protocol_subchain.Chain.Blocks.{is_descendant}
use theta_protocol_subchain.Consensus.Managers.{uint64}
use theta_protocol_subchain.Consensus.Engine.{
  Env, Engine, get_last_finalized_block, get_validator_set, get_next_proposer, should_propose_by_id,
}
use theta_protocol_subchain.Core.Validator.{Validator, ValidatorSet}
use theta_protocol_subchain.Consensus.Processing.{
  validate_position, validate_hcc, validate_confirmations, validate_block,
}

-- A test that rejects, and one that is needed.
passes_unless :
    (c : Bool) (x : Option Bool)
    → (if c then some false else x) ≡ some true
    → (c ≡ false) × (x ≡ some true)
passes_unless true x h = absurd (cc (h))
passes_unless false x h = (refl, h)

passes_if :
    (c : Bool) (x : Option Bool)
    → (if c then x else some false) ≡ some true
    → (c ≡ true) × (x ≡ some true)
passes_if true x h = (refl, h)
passes_if false x h = absurd (cc (h))

-- The place of a block after the last finalized block and its parent.
unfoldable pub FollowsParent : ExtendedBlock → ExtendedBlock → Block → Type 0
FollowsParent lfb parent block =
    (lfb.height < block.height)
    × (uint64 (parent.height + 1) ≡ block.height)
    × (parent.epoch < block.epoch)
    × (is_valid parent.status ≡ true)
    × (before : ℕ) × (time : ℕ) × (parent.timestamp ≡ some before)
    × (block.timestamp ≡ some time)
    × (before < time)

-- The certified block is stored, an ancestor, and finalized or certified by the certificate.
unfoldable pub IsCertified : Env → Engine → Block → Type 0
IsCertified env e block =
    (is_descendant e.chain block.hcc.block_hash block.hash ≡ true)
    × (hb : ExtendedBlock) × (find_block e.chain block.hcc.block_hash ≡ some hb)
    × ((is_finalized hb.status ≡ true)
        ⊎ ((vs : ValidatorSet) × (get_validator_set env block.hcc.block_hash ≡ some vs)
            × (Cert.is_valid env.crypto block.hcc vs ≡ true)))

validate_position_lem :
    (lfb parent : ExtendedBlock) (block : Block)
    → validate_position lfb block parent ≡ some true
    → FollowsParent lfb parent block
unfolding validate_position FollowsParent
validate_position_lem lfb parent block h =
    let (above, h1) = passes_unless (leb block.height lfb.height) _ h in
    let (next, h2) = passes_if (uint64 (parent.height + 1) == block.height) _ h1 in
    let (before, known, h3) = >>=-eq-some (parent.timestamp) _ h2 in
    let (time, given, h4) = >>=-eq-some (block.timestamp) _ h3 in
    let (later, h5) = passes_unless (ltb time (before + 1)) _ h4 in
    let (epoch, h6) = passes_unless (leb block.epoch parent.epoch) _ h5 in
    let valid : is_valid parent.status ≡ true = ground arith in
    (ground arith, ==→eq _ _ next, ground arith, valid, before, time, known, given, ground arith)

certificate_passes :
    (env : Env) (e : Engine) (block : Block) (o : Option ExtendedBlock)
    → ◌≡◌ {A = Option Bool}
        (elim o [
          | none ↦ some false
          | some hcc_block ↦
              let checked = do
                validators ← get_validator_set env block.hcc.block_hash
                some (Cert.is_valid env.crypto block.hcc validators)
              in if is_finalized hcc_block.status then some true else checked
        ])
        (some true)
    → (hb : ExtendedBlock) × (o ≡ some hb)
      × ((is_finalized hb.status ≡ true)
          ⊎ ((vs : ValidatorSet) × (get_validator_set env block.hcc.block_hash ≡ some vs)
              × (Cert.is_valid env.crypto block.hcc vs ≡ true)))
certificate_passes env e block none h = absurd (cc (h))
certificate_passes env e block (some hb) h = (
  hb,
  refl,
  elim (Bool-cases (is_finalized hb.status)) [
    | inl final ↦ inl final
    | inr unsure ↦
        let (vs, selected, valid) =
          >>=-eq-some (get_validator_set env block.hcc.block_hash) _
            (sym (if_false _ _ unsure) ∙ h) in
        inr (vs, selected, some_inj valid)
  ],
)

validate_hcc_lem :
    (env : Env) (e : Engine) (block : Block)
    → validate_hcc env e block ≡ some true
    → IsCertified env e block
unfolding validate_hcc IsCertified
validate_hcc_lem env e block h =
    let (ancestor, h1) = passes_if (is_descendant e.chain block.hcc.block_hash block.hash) _ h in
    let (hb, stored, certified) =
      certificate_passes env e block (find_block e.chain block.hcc.block_hash) h1 in
    (ancestor, hb, stored, certified)

-- After a change of the validators in the parent, or in the stored grandparent, the certificate is for the parent.
unfoldable pub ConfirmsChanges : Chain → Block → ExtendedBlock → Type 0
ConfirmsChanges ch block parent =
    ((parent.has_validator_update ≡ false) ⊎ (block.hcc.block_hash ≡ block.parent))
    × ((parent.parent ≡ 0)
        ⊎ ((grandparent : ExtendedBlock) × (find_block ch parent.parent ≡ some grandparent)
            × ((grandparent.has_validator_update ≡ false) ⊎ (block.hcc.block_hash ≡ block.parent))))

-- The proposer is the one that is drawn for the epoch, which is not 0.
unfoldable pub IsProposed : Env → Block → Type 0
IsProposed env block =
    (0 < block.epoch)
    × (proposer : Validator) × (get_next_proposer env block.parent block.epoch ≡ some proposer)
    × (proposer.address ≡ block.proposer)

by_grandparent_lem :
    (o : Option ExtendedBlock) (hash parent : ℕ)
    → (elim o [ none ↦ false | some g ↦ if g.has_validator_update then hash == parent else true ])
      ≡ true
    → (g : ExtendedBlock) × (o ≡ some g) × ((g.has_validator_update ≡ false) ⊎ (hash ≡ parent))
by_grandparent_lem none hash parent h = absurd (cc (h))
by_grandparent_lem (some g) hash parent h = elim (Bool-cases g.has_validator_update) [
  | inr still ↦ (g, refl, inl still)
  | inl changed ↦ (g, refl, inr (==→eq hash parent (rw changed at h)))
]

validate_confirmations-true :
    (ch : Chain) (block : Block) (parent : ExtendedBlock)
    → validate_confirmations ch block parent ≡ true
    → ConfirmsChanges ch block parent
unfolding validate_confirmations ConfirmsChanges
validate_confirmations-true ch block parent h =
    let direct = block.hcc.block_hash == block.parent in
    elim (Bool-cases (parent.has_validator_update && not direct)) [
      | inl skipped ↦ absurd (cc (rw (skipped, validate_confirmations) at h))
      | inr kept ↦
          let by_parent : (parent.has_validator_update ≡ false)
              ⊎ (block.hcc.block_hash ≡ block.parent) =
            ground (arith, kept) in
          elim (Bool-cases (parent.parent == 0)) [
            | inl root ↦ (by_parent, inl (==→eq parent.parent 0 root))
            | inr given ↦ (
              by_parent,
              inr (
                  by_grandparent_lem (find_block ch parent.parent) block.hcc.block_hash block.parent
                    (rw (kept, given, validate_confirmations) at h)),
            )
          ]
    ]

ConfirmsChanges-passes :
    (ch : Chain) (block : Block) (parent : ExtendedBlock)
    → ConfirmsChanges ch block parent
    → validate_confirmations ch block parent ≡ true
unfolding validate_confirmations ConfirmsChanges
ConfirmsChanges-passes ch block parent (by_parent, inl root) = ground (arith, by_parent, root)
ConfirmsChanges-passes ch block parent (by_parent, inr (g, stored, by_grandparent)) =
    rw stored (ground (arith, by_parent, by_grandparent))

should_propose_by_id-true :
    (env : Env) (block : Block)
    → should_propose_by_id env block.parent block.epoch block.proposer ≡ some true
    → IsProposed env block
unfolding should_propose_by_id IsProposed
should_propose_by_id-true env block h =
    let (later, h1) = passes_unless (block.epoch == 0) _ h in
    let (proposer, drawn, same) =
      >>=-eq-some (get_next_proposer env block.parent block.epoch) _ h1 in
    (ground (arith, later), proposer, drawn, ==→eq _ _ (some_inj same))

IsProposed-passes :
    (env : Env) (block : Block)
    → IsProposed env block
    → should_propose_by_id env block.parent block.epoch block.proposer ≡ some true
unfolding should_propose_by_id IsProposed
IsProposed-passes env block (later, proposer, drawn, same) =
    let e : (block.epoch == 0) ≡ false = ground arith in
    let e' : (proposer.address == block.proposer) ≡ true = ground arith in
    rw (e, drawn, should_propose_by_id) (ap (λ b. some b) e')

FollowsParent-passes :
    (lfb parent : ExtendedBlock) (block : Block)
    → FollowsParent lfb parent block
    → validate_position lfb block parent ≡ some true
unfolding validate_position FollowsParent
FollowsParent-passes lfb parent block
      (above, next, epoch, valid, before, time, known, given, later) =
    let t1 : leb block.height lfb.height ≡ false = ground (arith, above) in
    let t2 : (uint64 (parent.height + 1) == block.height) ≡ true = ground (arith, next) in
    let t3 : ltb time (before + 1) ≡ false = ground (arith, later) in
    let t4 : leb block.epoch parent.epoch ≡ false = ground (arith, epoch) in
    rw (t1, t2, known, given, validate_position) (rw (t3, t4, valid) refl)

certificate-passes :
    (env : Env) (block : Block) (hb : ExtendedBlock)
    → ((is_finalized hb.status ≡ true)
        ⊎ ((vs : ValidatorSet) × (get_validator_set env block.hcc.block_hash ≡ some vs)
            × (Cert.is_valid env.crypto block.hcc vs ≡ true)))
    → (if is_finalized hb.status then some true else (do
      validators ← get_validator_set env block.hcc.block_hash
      some (Cert.is_valid env.crypto block.hcc validators)))
      ≡ some true
certificate-passes env block hb (inl final) = rw final refl
certificate-passes env block hb (inr (vs, selected, valid)) =
    elim (Bool-cases (is_finalized hb.status)) [
      | inl final ↦ rw final refl
      | inr unsure ↦ rw (unsure, selected, valid) refl
    ]

IsCertified-passes :
    (env : Env) (e : Engine) (block : Block)
    → IsCertified env e block
    → validate_hcc env e block ≡ some true
unfolding validate_hcc IsCertified
IsCertified-passes env e block (ancestor, hb, stored, certified) =
    rw (ancestor, stored, validate_hcc) (certificate-passes env block hb certified)

-- `validateBlock` accepts exactly the blocks that come after the last finalized block; stand one
-- above their parent (on uint64), which is a valid block with a smaller epoch and an earlier
-- time; whose certificate is for a stored ancestor that is finalized or that the certificate
-- certifies under that block's validators; whose certificate is for the parent if the parent
-- changes the validators, or if the grandparent does, which is stored unless the parent has none;
-- and whose proposer is the one that is drawn for their epoch, not 0.
pub validate_block_iff :
    (env : Env) (e : Engine) (block : Block) (parent : ExtendedBlock)
    → (validate_block env e block parent ≡ some true) ↔ (
        (lfb : ExtendedBlock) × (get_last_finalized_block e ≡ some lfb)
        × FollowsParent lfb parent block
        × IsCertified env e block
        × ConfirmsChanges e.chain block parent
        × IsProposed env block)
unfolding validate_block
validate_block_iff env e block parent = (
  λ h.
      let (lfb, found, h1) = >>=-eq-some (get_last_finalized_block e) _ h in
      let (placed, position, h2) = >>=-eq-some (validate_position lfb block parent) _ h1 in
      let (in_place, h3) = passes_if placed _ h2 in
      let (certified, checked, h4) = >>=-eq-some (validate_hcc env e block) _ h3 in
      let (both, proposer) =
        passes_if (certified && validate_confirmations e.chain block parent) _ h4 in
      let (good, confirmed) =
        and_parts certified (validate_confirmations e.chain block parent) both in
      (
        lfb,
        found,
        validate_position_lem lfb parent block (position ∙ ap (λ (b : Bool). some b) in_place),
        validate_hcc_lem env e block (checked ∙ ap (λ (b : Bool). some b) good),
        validate_confirmations-true e.chain block parent confirmed,
        should_propose_by_id-true env block proposer,
      ),
  λ r.
      let (lfb, found, follows, certified, confirmed, proposed) = r in
      rw
        (
          found,
          FollowsParent-passes lfb parent block follows,
          IsCertified-passes env e block certified,
          ConfirmsChanges-passes e.chain block parent confirmed,
        )
        (IsProposed-passes env block proposed),
)
