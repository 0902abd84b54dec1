-- ===== src/Consensus/Voting/Safety.antt =====
-- consensus/engine.go `vote`: a node does not contradict its votes.
use theta_protocol_subchain.Prelude.{
  ℕ, ◌≤◌, ◌<◌, ◌≡◌, refl, sym, ap, ◌∙◌, ◌≢◌, ◌⊎◌, inl, inr, true, false, some, List, [], ◌∷◌, arith,
  Bool-cases, Option-cases, some_pair_inj, All, In, All-In,
}
use mathlib.Core.Path.{subst}
use theta_protocol_subchain.Core.Vote.{Vote}
use theta_protocol_subchain.Core.Block.{Block, ExtendedBlock}
use theta_protocol_subchain.Chain.Store.{find_block}
use theta_protocol_subchain.Consensus.Engine.{Env, Engine, get_highest_cc_block}
use theta_protocol_subchain.Consensus.State.{State, set_last_vote}
use theta_protocol_subchain.Consensus.Voting.{create_vote, should_repeat_vote, next_vote}

create_vote_lem :
    (env : Env) (e : Engine) (b : Block)
    → ((create_vote env e b).block ≡ b.hash) × ((create_vote env e b).height ≡ b.height)
unfolding create_vote
create_vote_lem env e b = (refl, refl)

should_repeat_vote-eq_true :
    (last : Vote) (tip : ExtendedBlock) (hcc : ℕ)
    → should_repeat_vote last tip hcc ≡ true
    → last.height ≢ 0
unfolding should_repeat_vote
should_repeat_vote-eq_true last tip hcc h = ground arith

should_repeat_vote-eq_false :
    (last : Vote) (tip : ExtendedBlock) (hcc : ℕ)
    → should_repeat_vote last tip hcc ≡ false
    → (last.height ≡ 0) ⊎ ((last.height < tip.height) × (tip.hcc.block_hash ≡ hcc))
unfolding should_repeat_vote
should_repeat_vote-eq_false last tip hcc h = ground arith

last_vote-set_last_vote : (s : State) (v : Vote) → (set_last_vote s v).last_vote ≡ v
unfolding set_last_vote
last_vote-set_last_vote s v = refl

-- A repeated vote leaves the engine and is for the block of the last vote, which has a height
-- other than 0. A new one is for the tip, is remembered, and goes up from the last vote, whose
-- height 0 stands for none; unless there was none, the tip extends the local highest certified
-- block.
next_vote_lem :
    (env : Env) (e e' : Engine) (tip : ExtendedBlock) (v : Vote)
    → next_vote env e tip ≡ some (e', v)
    → ((e' ≡ e)
        × (e.state.last_vote.height ≢ 0)
        × (b : ExtendedBlock) × (find_block e.chain e.state.last_vote.block ≡ some b)
        × (v.block ≡ b.hash)
        × (v.height ≡ b.height))
      ⊎ ((e'.state.last_vote ≡ v)
          × (v.block ≡ tip.hash)
          × (v.height ≡ tip.height)
          × ((e.state.last_vote.height ≡ 0)
              ⊎ ((e.state.last_vote.height < tip.height)
                  × (hcc : ExtendedBlock) × (get_highest_cc_block e ≡ some hcc)
                  × (tip.hcc.block_hash ≡ hcc.hash))))
unfolding next_vote
next_vote_lem env e e' tip v h = elim (Option-cases (get_highest_cc_block e)) [
  | inl missing ↦ absurd (cc (rw missing at h))
  | inr (hcc, found) ↦ elim (Bool-cases (should_repeat_vote e.state.last_vote tip hcc.hash)) [
    | inl repeat ↦ elim (Option-cases (find_block e.chain e.state.last_vote.block)) [
      | inl gone ↦ absurd (cc (rw (found, repeat, gone) at h))
      | inr (b, stored) ↦
          let (same, cast) = some_pair_inj (rw (found, repeat, stored) at h) in
          let (block, height) = create_vote_lem env e b.block in
          inl (
            sym same,
            should_repeat_vote-eq_true e.state.last_vote tip hcc.hash repeat,
            b,
            stored,
            ap (λ (w : Vote). w.block) (sym cast) ∙ block,
            ap (λ (w : Vote). w.height) (sym cast) ∙ height,
          )
    ]
    | inr fresh ↦
        let (same, cast) = some_pair_inj (rw (found, fresh) at h) in
        let (block, height) = create_vote_lem env e tip.block in
        let rule : (e.state.last_vote.height ≡ 0)
            ⊎ ((e.state.last_vote.height < tip.height)
                × (hcc : ExtendedBlock) × (get_highest_cc_block e ≡ some hcc)
                × (tip.hcc.block_hash ≡ hcc.hash)) =
          elim (should_repeat_vote-eq_false e.state.last_vote tip hcc.hash fresh) [
            | inl first ↦ inl first
            | inr (up, extends) ↦ inr (up, hcc, found, extends)
          ] in
        inr (
          ap (λ (x : Engine). x.state.last_vote) (sym same)
              ∙ last_vote-set_last_vote e.state (create_vote env e tip.block)
              ∙ cast,
          ap (λ (w : Vote). w.block) (sym cast) ∙ block,
          ap (λ (w : Vote). w.height) (sym cast) ∙ height,
          rule,
        )
  ]
]

-- The votes that a node has cast, the newest first, with its last vote at the end. Between two
-- votes anything may change but the last vote. `height_of` gives the height of the block of a hash.
pub data Voted (env : Env) (height_of : ℕ → ℕ) : Vote → List Vote → Type 0 where
  start : {last : Vote} → last.height ≡ 0 → Voted env height_of last []
  cast :
      {before last : Vote} {vs : List Vote}
      → Voted env height_of before vs
      → (e e' : Engine) (tip : ExtendedBlock) (v : Vote) → e.state.last_vote ≡ before
      → ((h : ℕ) (b : ExtendedBlock)
          → find_block e.chain h ≡ some b
          → (b.hash ≡ h) × (b.height ≡ height_of h))
      → find_block e.chain tip.hash ≡ some tip
      → next_vote env e tip ≡ some (e', v)
      → last ≡ e'.state.last_vote
      → Voted env height_of last (v ∷ vs)

-- What the last vote says of an earlier one.
abbrev Bounds : Vote → Vote → Type 0
Bounds last w =
    (w.height ≤ last.height) × (w.height ≡ last.height → last.height ≢ 0 → w.block ≡ last.block)

abbrev Agrees : Vote → Vote → Type 0
Agrees v w = v.height ≡ w.height → v.height ≢ 0 → v.block ≡ w.block

-- What holds of each vote against the older ones.
abbrev IsConsistent : List Vote → Type 0
IsConsistent [] = Unit
IsConsistent (v ∷ vs) = All (Agrees v) vs × IsConsistent vs

-- How a vote stands to the last vote before it and the one after it.
abbrev Follows : Vote → Vote → Vote → Type 0
Follows before last v =
    (v.height ≡ last.height)
    × (v.block ≡ last.block)
    × (((last.height ≡ before.height) × (last.block ≡ before.block))
        ⊎ ((before.height ≡ 0) ⊎ (before.height < last.height)))

Bounds-self : (last v : Vote) → v.height ≡ last.height → v.block ≡ last.block → Bounds last v
Bounds-self last v h b = (omega arith, λ _ _. b)

Bounds-step : (before last v w : Vote) → Follows before last v → Bounds before w → Bounds last w
Bounds-step before last v w f b = ground (arith, b.1)

Agrees-step : (before last v w : Vote) → Follows before last v → Bounds before w → Agrees v w
Agrees-step before last v w f b = ground (arith, b.1)

Bounds-All :
    (before last v : Vote) (ws : List Vote)
    → Follows before last v
    → All (Bounds before) ws
    → All (Bounds last) ws
Bounds-All before last v [] f b = tt
Bounds-All before last v (w ∷ ws) f b =
    (Bounds-step before last v w f b.0, Bounds-All before last v ws f b.1)

Agrees-All :
    (before last v : Vote) (ws : List Vote)
    → Follows before last v
    → All (Bounds before) ws
    → All (Agrees v) ws
Agrees-All before last v [] f b = tt
Agrees-All before last v (w ∷ ws) f b =
    (Agrees-step before last v w f b.0, Agrees-All before last v ws f b.1)

-- The height that the last vote remembers is that of its block.
abbrev IsAt : (ℕ → ℕ) → Vote → Type 0
IsAt height_of last = last.height ≢ 0 → last.height ≡ height_of last.block

next_vote-Follows :
    (env : Env) (height_of : ℕ → ℕ) (e e' : Engine) (tip : ExtendedBlock) (v : Vote)
    → IsAt height_of e.state.last_vote
    → ((h : ℕ) (b : ExtendedBlock)
        → find_block e.chain h ≡ some b
        → (b.hash ≡ h) × (b.height ≡ height_of h))
    → find_block e.chain tip.hash ≡ some tip
    → next_vote env e tip ≡ some (e', v)
    → Follows e.state.last_vote e'.state.last_vote v × IsAt height_of e'.state.last_vote
next_vote-Follows env height_of e e' tip v at stored known h =
    elim (next_vote_lem env e e' tip v h) [
      | inl (same, nonzero, b, found, block, height) ↦ rw same (
        (
          height ∙ (stored _ b found).1 ∙ sym (at nonzero),
          block ∙ (stored _ b found).0,
          inl (refl, refl),
        ),
        at,
      )
      | inr (last, block, height, rule) ↦ rw last (
        (
          refl,
          refl,
          inr (elim rule [ inl first ↦ inl first | inr (up, _, _, _) ↦ inr (rw height up) ]),
        ),
        λ _. height ∙ (stored tip.hash tip known).1 ∙ ap height_of (sym block),
      )
    ]

Voted-IsConsistent :
    {env : Env} {height_of : ℕ → ℕ} {last : Vote} {vs : List Vote}
    → Voted env height_of last vs
    → IsAt height_of last × All (Bounds last) vs × IsConsistent vs
Voted-IsConsistent (start zero_) = (λ nonzero. absurd (nonzero zero_), tt, tt)
Voted-IsConsistent {env} {height_of} {last}
      (cast {before = before} {vs = vs} past e e' tip v e_before stored known h e_last) =
    let (at, bounds, consistent) = Voted-IsConsistent past in
    let (follows, at') =
      next_vote-Follows env height_of e e' tip v (rw e_before at) stored known h in
    let follows' : Follows before last v = rw (e_last, ← e_before) follows in
    (
      rw e_last at',
      (Bounds-self last v follows'.0 follows'.1, Bounds-All before last v vs follows' bounds),
      (Agrees-All before last v vs follows' bounds, consistent),
    )

IsConsistent-In :
    (vs : List Vote) (v w : Vote)
    → IsConsistent vs
    → In v vs
    → In w vs
    → v.height ≡ w.height
    → v.height ≢ 0
    → v.block ≡ w.block
IsConsistent-In [] v w c i j same nonzero = absurd i
IsConsistent-In (u ∷ us) v w c (inl e) (inl f) same nonzero = cc
IsConsistent-In (u ∷ us) v w c (inl e) (inr j) same nonzero =
    subst (λ x. Agrees x w) (sym e) (All-In _ w us c.0 j) same nonzero
IsConsistent-In (u ∷ us) v w c (inr i) (inl f) same nonzero =
    sym (subst (λ x. Agrees x v) (sym f) (All-In _ v us c.0 i) (sym same) (λ z. nonzero (same ∙ z)))
IsConsistent-In (u ∷ us) v w c (inr i) (inr j) same nonzero =
    IsConsistent-In us v w c.1 i j same nonzero

-- A node never votes for two blocks of one height other than 0, whatever tips it is given, and
-- whatever happens between its votes to all but its last vote, on chains where a block stands at
-- its own hash and a hash always stands for blocks of one height.
pub Voted-no_equivocation :
    (env : Env) (height_of : ℕ → ℕ) (last : Vote) (vs : List Vote)
    → Voted env height_of last vs
    → (v w : Vote) → In v vs
    → In w vs
    → v.height ≡ w.height
    → v.height ≢ 0
    → v.block ≡ w.block
Voted-no_equivocation env height_of last vs voted v w i j same nonzero =
    IsConsistent-In vs v w (Voted-IsConsistent voted).2 i j same nonzero
