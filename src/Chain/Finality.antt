-- ===== src/Chain/Finality.antt =====
-- blockchain/chain.go `FinalizePreviousBlocks`: it ends, and what it does to the stored blocks.
use theta_protocol_subchain.Prelude.{
  ℕ, zero, suc, ◌<◌, ◌≡◌, refl, sym, ◌≢◌, ◌⊎◌, inl, inr, Bool, true, false, none, some, arith, ◌==◌,
  ==→eq, Bool-cases, length,
}
use mathlib.Core.Path.{subst}
use theta_protocol_subchain.Core.Block.{
  ExtendedBlock, BlockStatus, directly_finalized, indirectly_finalized, is_finalized,
}
use theta_protocol_subchain.Chain.Store.{TxHashes, Chain, find_block}
use theta_protocol_subchain.Chain.Blocks.{with_status, finalize_from, finalize_previous_blocks}
use theta_protocol_subchain.Chain.Rounds.{
  IsKeyed, unfinalized, unfinalized-le, advance, find_block-advance, advance-IsKeyed,
  unfinalized-advance, outcome, finalize_from_lem, outcome-go_on, outcome-halt, Outcome-cases,
  Finalizes, stop, round, finalize_from-Finalizes, direct-is_finalized, indirect-is_finalized,
}

finalize_from_total :
    (t : TxHashes) (fuel : ℕ) (status : BlockStatus) (ch : Chain) (hash : ℕ)
    → IsKeyed ch
    → is_finalized status ≡ true
    → unfinalized ch.blocks < fuel
    → (r : Chain × Bool) × (finalize_from t fuel status ch hash ≡ some r)
finalize_from_total t zero status ch hash keyed final enough = absurd (omega arith)
finalize_from_total t (suc fuel) status ch hash keyed final enough =
    elim (Outcome-cases (outcome ch hash)) [
      | inl (b, e) ↦ ((ch, b), rw (finalize_from_lem t fuel status ch hash, e))
      | inr (eb, e) ↦
          let (found, open_, nonzero) = outcome-go_on ch hash eb e in
          let fewer = unfinalized-advance t status ch hash eb keyed found open_ final in
          rw (finalize_from_lem t fuel status ch hash, e)
            (finalize_from_total t fuel indirectly_finalized (advance t status ch eb) eb.parent
              (advance-IsKeyed t status ch eb keyed) (unfold is_finalized in refl) (omega arith))
    ]

-- The loop of `FinalizePreviousBlocks` ends on every chain whose blocks stand at their own
-- hashes, cycles of parents included, after at most one round more than there are blocks.
pub finalize_previous_blocks_total :
    (t : TxHashes) (ch : Chain) (hash : ℕ)
    → IsKeyed ch
    → (r : Chain × Bool) × (finalize_previous_blocks t ch hash ≡ some r)
unfolding finalize_previous_blocks
finalize_previous_blocks_total t ch hash keyed =
    finalize_from_total t (suc (length ch.blocks)) directly_finalized ch hash keyed
      (unfold is_finalized in refl) (omega (arith, unfinalized-le ch.blocks))

-- What the loop does to one stored block: nothing, or a final status where there was none.
abbrev pub Kept : ExtendedBlock → ExtendedBlock → Type 0
Kept eb eb' =
    (eb' ≡ eb)
    ⊎ ((is_finalized eb.status ≡ false)
        × (is_finalized eb'.status ≡ true)
        × (eb' ≡ with_status eb'.status eb))

-- Every stored block stays, changed in that way only.
abbrev KeepsBlocks : Chain → Chain → Type 0
KeepsBlocks ch ch' =
    (h : ℕ) (eb : ExtendedBlock)
    → find_block ch h ≡ some eb
    → (eb' : ExtendedBlock) × (find_block ch' h ≡ some eb') × Kept eb eb'

Kept-trans : (a b c : ExtendedBlock) → Kept a b → Kept b c → Kept a c
Kept-trans a b c p (inl e) = subst (λ x. Kept a x) (sym e) p
Kept-trans a b c (inl e) (inr q) = subst (λ x. Kept x c) e (inr q)
Kept-trans a b c (inr p) (inr q) = cc (p.1, q.0)

KeepsBlocks-trans : (a b c : Chain) → KeepsBlocks a b → KeepsBlocks b c → KeepsBlocks a c
KeepsBlocks-trans a b c p q h eb e =
    let (eb', e', kept) = p h eb e in
    let (eb'', e'', kept') = q h eb' e' in (eb'', e'', Kept-trans eb eb' eb'' kept kept')

advance-KeepsBlocks :
    (t : TxHashes) (status : BlockStatus) (ch : Chain) (hash : ℕ) (eb : ExtendedBlock)
    → IsKeyed ch
    → find_block ch hash ≡ some eb
    → is_finalized eb.status ≡ false
    → is_finalized status ≡ true
    → KeepsBlocks ch (advance t status ch eb)
advance-KeepsBlocks t status ch hash eb keyed found open_ final h w e =
    elim (Bool-cases (eb.hash == h)) [
      | inl same ↦
          let w_is_eb : w ≡ eb = cc (e, found, ==→eq _ _ same, keyed hash eb found) in
          (
            with_status status eb,
            rw (find_block-advance t status ch eb h, same),
            inr (rw w_is_eb (open_, final, refl)),
          )
      | inr other ↦ (w, rw (find_block-advance t status ch eb h, other) e, inl refl)
    ]

Finalizes-KeepsBlocks :
    {t : TxHashes} {ch' : Chain} {ok : Bool} {status : BlockStatus} {ch : Chain} {hash : ℕ}
    → IsKeyed ch
    → is_finalized status ≡ true
    → Finalizes t ch' ok status ch hash
    → KeepsBlocks ch ch'
Finalizes-KeepsBlocks {ch = ch} keyed final (stop o e) =
    subst (KeepsBlocks ch) e (λ h eb found. (eb, found, inl refl))
Finalizes-KeepsBlocks {t} {ch'} {ok} {status} {ch} {hash} keyed final (round eb o rest) =
    let (found, open_, nonzero) = outcome-go_on ch hash eb o in
    KeepsBlocks-trans ch (advance t status ch eb) ch'
      (advance-KeepsBlocks t status ch hash eb keyed found open_ final)
      (Finalizes-KeepsBlocks (advance-IsKeyed t status ch eb keyed) indirect-is_finalized rest)

-- `FinalizePreviousBlocks` removes no block and changes nothing of a stored block but its status,
-- and that only from one that is not final to one that is: what is finalized stays as it is. This
-- holds whether or not the call returns an error, on a chain whose blocks stand at their own
-- hashes.
pub finalize_previous_blocks-Kept :
    (t : TxHashes) (ch : Chain) (hash : ℕ) (ch' : Chain) (ok : Bool)
    → IsKeyed ch
    → finalize_previous_blocks t ch hash ≡ some (ch', ok)
    → (h : ℕ) (eb : ExtendedBlock) → find_block ch h ≡ some eb
    → (eb' : ExtendedBlock) × (find_block ch' h ≡ some eb') × Kept eb eb'
unfolding finalize_previous_blocks
finalize_previous_blocks-Kept t ch hash ch' ok keyed e =
    Finalizes-KeepsBlocks keyed direct-is_finalized
      (finalize_from-Finalizes t (suc (length ch.blocks)) directly_finalized ch hash ch' ok e)

-- The parent of a finalized block is finalized, if it is stored; the parent `cur` is left out.
abbrev IsClosedBut : ℕ → Chain → Type 0
IsClosedBut cur ch =
    (h : ℕ) (eb pb : ExtendedBlock)
    → find_block ch h ≡ some eb
    → is_finalized eb.status ≡ true
    → eb.parent ≢ cur
    → find_block ch eb.parent ≡ some pb
    → is_finalized pb.status ≡ true

abbrev pub IsClosed : Chain → Type 0
IsClosed ch =
    (h : ℕ) (eb pb : ExtendedBlock)
    → find_block ch h ≡ some eb
    → is_finalized eb.status ≡ true
    → find_block ch eb.parent ≡ some pb
    → is_finalized pb.status ≡ true

advance-IsClosedBut :
    (t : TxHashes) (status : BlockStatus) (ch : Chain) (hash : ℕ) (eb : ExtendedBlock)
    → IsKeyed ch
    → is_finalized status ≡ true
    → find_block ch hash ≡ some eb
    → IsClosedBut hash ch
    → IsClosedBut eb.parent (advance t status ch eb)
advance-IsClosedBut t status ch hash eb keyed final found closed h w pb e done other parent =
    ground (
      arith,
      find_block-advance t status ch eb h,
      find_block-advance t status ch eb w.parent,
      keyed hash eb found,
      closed h w pb,
    )

Finalizes-IsClosed :
    {t : TxHashes} {ch' : Chain} {status : BlockStatus} {ch : Chain} {hash : ℕ}
    → IsKeyed ch
    → find_block ch 0 ≡ none
    → is_finalized status ≡ true
    → IsClosedBut hash ch
    → Finalizes t ch' true status ch hash
    → IsClosed ch'
Finalizes-IsClosed {ch = ch} {hash = hash} keyed no_empty final closed (stop o same) =
    subst IsClosed same λ h eb pb e done parent. elim (Bool-cases (eb.parent == hash)) [
      | inl at_end ↦ ground (arith, outcome-halt ch hash pb o)
      | inr before ↦ closed h eb pb e done (ground arith) parent
    ]
Finalizes-IsClosed {t} {ch'} {status} {ch} {hash} keyed no_empty final closed (round eb o rest) =
    let (found, open_, nonzero) = outcome-go_on ch hash eb o in
    Finalizes-IsClosed (advance-IsKeyed t status ch eb keyed)
      (ground (arith, find_block-advance t status ch eb 0, keyed hash eb found))
      indirect-is_finalized (advance-IsClosedBut t status ch hash eb keyed final found closed) rest

Finalizes-reached :
    {t : TxHashes} {ch' : Chain} {status : BlockStatus} {ch : Chain} {hash : ℕ} {eb : ExtendedBlock}
    → IsKeyed ch
    → is_finalized status ≡ true
    → hash ≢ 0
    → find_block ch hash ≡ some eb
    → Finalizes t ch' true status ch hash
    → (eb' : ExtendedBlock) × (find_block ch' hash ≡ some eb') × (is_finalized eb'.status ≡ true)
Finalizes-reached {ch = ch} {hash = hash} {eb = eb} keyed final nonzero e (stop o same) =
    (eb, rw (← same) e, outcome-halt ch hash eb o nonzero e)
Finalizes-reached {t} {ch'} {status} {ch} {hash} {eb} keyed final nonzero e (round w o rest) =
    let (found, open_, _) = outcome-go_on ch hash w o in
    let marked : find_block (advance t status ch w) hash ≡ some (with_status status w) =
      ground (arith, find_block-advance t status ch w hash, keyed hash w found) in
    let (eb', e', kept) =
      Finalizes-KeepsBlocks (advance-IsKeyed t status ch w keyed) indirect-is_finalized rest hash
        (with_status status w) marked in
    (eb', e', elim kept [ inl same ↦ rw same final | inr changed ↦ changed.1 ])

-- A call of `FinalizePreviousBlocks` that returns no error, on a stored block of a chain where no
-- block has the empty hash and every block stands at its own, finalizes that block; and if the
-- parent of every finalized block was finalized or not stored, this is so afterwards: every
-- stored ancestor is final.
pub finalize_previous_blocks-IsClosed :
    (t : TxHashes) (ch : Chain) (hash : ℕ) (eb : ExtendedBlock) (ch' : Chain)
    → IsKeyed ch
    → find_block ch 0 ≡ none
    → find_block ch hash ≡ some eb
    → IsClosed ch
    → finalize_previous_blocks t ch hash ≡ some (ch', true)
    → IsClosed ch'
      × (eb' : ExtendedBlock) × (find_block ch' hash ≡ some eb')
      × (is_finalized eb'.status ≡ true)
unfolding finalize_previous_blocks
finalize_previous_blocks-IsClosed t ch hash eb ch' keyed no_empty found closed e =
    let run =
      finalize_from-Finalizes t (suc (length ch.blocks)) directly_finalized ch hash ch' true e in
    let final = direct-is_finalized in
    let reached = Finalizes-reached keyed final (λ zero_. cc) found run in
    (
      Finalizes-IsClosed keyed no_empty final (λ h w pb f d other. closed h w pb f d) run,
      reached.0,
      reached.1,
      reached.2,
    )
