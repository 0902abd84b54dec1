-- ===== src/Chain/Rounds.antt =====
-- blockchain/chain.go `FinalizePreviousBlocks`: one round of its loop.
use theta_protocol_subchain.Prelude.{Option}
use theta_protocol_subchain.Core.Block.{indirectly_finalized}
use theta_protocol_subchain.Chain.Blocks.{finalize_from}
use theta_protocol_subchain.Core.Block.{is_disposed}
use theta_protocol_subchain.Prelude.{
  ℕ, zero, suc, ◌+◌, ◌≤◌, ◌≡◌, refl, sym, ap, ◌∙◌, ◌≢◌, ◌⊎◌, inl, inr, Bool, true, false, none,
  some, List, [], ◌∷◌, arith, ◌==◌, if◌then◌else◌, length,
}
use mathlib.Core.Path.{subst}
use theta_protocol_subchain.Prelude.Dict.{Dict, lookup, insert, lookup-insert}
use theta_protocol_subchain.Core.Block.{
  directly_finalized, ExtendedBlock, BlockStatus, is_finalized,
}
use theta_protocol_subchain.Chain.Store.{
  TxHashes, Chain, find_block, save_block, insert_eth_tx_hash, add_tx_to_index, add_txs_from,
  add_txs_to_index,
}
use theta_protocol_subchain.Chain.Blocks.{with_status}
use theta_protocol_subchain.Core.Block.{Block}

-- The indices of transactions are apart from the blocks.
blocks-add_txs_from :
    (t : TxHashes) (force : Bool) (b : Block) (ch : Chain) (idx : ℕ) (txs : List (List ℕ))
    → (add_txs_from t force b ch idx txs).blocks ≡ ch.blocks
unfolding add_txs_from
blocks-add_txs_from t force b ch idx [] = refl
blocks-add_txs_from t force b ch idx (tx ∷ txs) =
    blocks-add_txs_from t force b (add_tx_to_index t force b ch idx tx) (idx + 1) txs ∙ one
  where
    one : (add_tx_to_index t force b ch idx tx).blocks ≡ ch.blocks
    one = unfold add_tx_to_index insert_eth_tx_hash in ground arith

pub blocks-add_txs_to_index :
    (t : TxHashes) (ch : Chain) (eb : ExtendedBlock) (force : Bool)
    → (add_txs_to_index t ch eb force).blocks ≡ ch.blocks
unfolding add_txs_to_index
blocks-add_txs_to_index t ch eb force = blocks-add_txs_from t force eb.block ch 0 eb.block.txs

pub find_block-save_block :
    (ch : Chain) (eb : ExtendedBlock) (h : ℕ)
    → find_block (save_block ch eb) h ≡ (if eb.hash == h then some eb else find_block ch h)
unfolding find_block save_block
find_block-save_block ch eb h = lookup-insert eb.hash h eb ch.blocks

-- Every block stands at its own hash.
abbrev pub IsKeyed : Chain → Type 0
IsKeyed ch = (h : ℕ) (eb : ExtendedBlock) → find_block ch h ≡ some eb → eb.hash ≡ h

-- The blocks that are not finalized.
unfoldable pub unfinalized : Dict ExtendedBlock → ℕ
unfinalized [] = 0
unfinalized ((k, eb) ∷ d) = (if is_finalized eb.status then 0 else 1) + unfinalized d

pub unfinalized-le : (d : Dict ExtendedBlock) → unfinalized d ≤ length d
unfolding unfinalized
unfinalized-le [] = omega arith
unfinalized-le ((k, eb) ∷ d) = ground (arith, unfinalized-le d)

unfinalized-insert :
    (k : ℕ) (eb eb' : ExtendedBlock) (d : Dict ExtendedBlock)
    → lookup k d ≡ some eb
    → is_finalized eb.status ≡ false
    → is_finalized eb'.status ≡ true
    → unfinalized (insert k eb' d) + 1 ≡ unfinalized d
unfolding unfinalized lookup insert
unfinalized-insert k eb eb' [] e open_ done = cc
unfinalized-insert k eb eb' ((j, w) ∷ d) e open_ done =
    ground (arith, unfinalized-insert k eb eb' d)

-- The chain after one round of the loop.
unfoldable pub advance : TxHashes → BlockStatus → Chain → ExtendedBlock → Chain
advance t status ch eb =
    add_txs_to_index t (save_block ch (with_status status eb)) (with_status status eb) true

blocks-advance :
    (t : TxHashes) (status : BlockStatus) (ch : Chain) (eb : ExtendedBlock)
    → (advance t status ch eb).blocks ≡ insert eb.hash (with_status status eb) ch.blocks
unfolding advance save_block
blocks-advance t status ch eb = blocks-add_txs_to_index t _ (with_status status eb) true

pub find_block-advance :
    (t : TxHashes) (status : BlockStatus) (ch : Chain) (eb : ExtendedBlock) (h : ℕ)
    → find_block (advance t status ch eb) h
      ≡ (if eb.hash == h then some (with_status status eb) else find_block ch h)
unfolding find_block
find_block-advance t status ch eb h =
    ap (lookup h) (blocks-advance t status ch eb)
    ∙ lookup-insert eb.hash h (with_status status eb) ch.blocks

pub advance-IsKeyed :
    (t : TxHashes) (status : BlockStatus) (ch : Chain) (eb : ExtendedBlock)
    → IsKeyed ch
    → IsKeyed (advance t status ch eb)
advance-IsKeyed t status ch eb keyed h w e =
    ground (arith, find_block-advance t status ch eb h, keyed h w)

-- A round that finds an unfinalized block leaves one fewer.
pub unfinalized-advance :
    (t : TxHashes) (status : BlockStatus) (ch : Chain) (h : ℕ) (eb : ExtendedBlock)
    → IsKeyed ch
    → find_block ch h ≡ some eb
    → is_finalized eb.status ≡ false
    → is_finalized status ≡ true
    → unfinalized (advance t status ch eb).blocks + 1 ≡ unfinalized ch.blocks
unfolding find_block
unfinalized-advance t status ch h eb keyed e open_ done =
    let here = subst (λ k. lookup k ch.blocks ≡ some eb) (sym (keyed h eb e)) e in
    ap (λ d. unfinalized d + 1) (blocks-advance t status ch eb)
    ∙ unfinalized-insert eb.hash eb (with_status status eb) ch.blocks here open_ done

-- How a round ends: the loop returns, with or without the error, or goes on from a block.
pub data Outcome : Type 0 where
  halt : Bool → Outcome
  go_on : ExtendedBlock → Outcome

unfoldable pub outcome : Chain → ℕ → Outcome
outcome ch hash = if hash == 0 then halt true else elim (find_block ch hash) [
  | none ↦ halt true
  | some eb ↦
      if is_finalized eb.status
      then halt true
      else if is_disposed eb.status
      then halt false
      else go_on eb
]

pub finalize_from_lem :
    (t : TxHashes) (fuel : ℕ) (status : BlockStatus) (ch : Chain) (hash : ℕ)
    → finalize_from t (suc fuel) status ch hash ≡ elim (outcome ch hash) [
      | halt b ↦ some (ch, b)
      | go_on eb ↦ finalize_from t fuel indirectly_finalized (advance t status ch eb) eb.parent
    ]
unfolding finalize_from outcome advance
finalize_from_lem t fuel status ch hash = ground arith

pub outcome-go_on :
    (ch : Chain) (hash : ℕ) (eb : ExtendedBlock)
    → outcome ch hash ≡ go_on eb
    → (find_block ch hash ≡ some eb) × (is_finalized eb.status ≡ false) × (hash ≢ 0)
unfolding outcome
outcome-go_on ch hash eb h = ground arith

pub outcome-halt :
    (ch : Chain) (hash : ℕ) (eb : ExtendedBlock)
    → outcome ch hash ≡ halt true
    → hash ≢ 0
    → find_block ch hash ≡ some eb
    → is_finalized eb.status ≡ true
unfolding outcome
outcome-halt ch hash eb h nonzero e = ground arith

pub Outcome-cases :
    (o : Outcome) → ((b : Bool) × (o ≡ halt b)) ⊎ ((eb : ExtendedBlock) × (o ≡ go_on eb))
Outcome-cases (halt b) = inl (b, refl)
Outcome-cases (go_on eb) = inr (eb, refl)

-- A run of the loop from a status, a chain and a hash, to the chain and the Boolean of its end.
pub data Finalizes (t : TxHashes) (ch' : Chain) (ok : Bool) : BlockStatus → Chain → ℕ → Type 0 where
  stop :
      {status : BlockStatus} {ch : Chain} {hash : ℕ}
      → outcome ch hash ≡ halt ok
      → ch ≡ ch'
      → Finalizes t ch' ok status ch hash
  round :
      {status : BlockStatus} {ch : Chain} {hash : ℕ} (eb : ExtendedBlock)
      → outcome ch hash ≡ go_on eb
      → Finalizes t ch' ok indirectly_finalized (advance t status ch eb) eb.parent
      → Finalizes t ch' ok status ch hash

pub finalize_from-Finalizes :
    (t : TxHashes) (fuel : ℕ) (status : BlockStatus) (ch : Chain) (hash : ℕ) (ch' : Chain)
    (ok : Bool)
    → finalize_from t fuel status ch hash ≡ some (ch', ok)
    → Finalizes t ch' ok status ch hash
finalize_from-Finalizes t zero status ch hash ch' ok e = absurd (unfold finalize_from in cc)
finalize_from-Finalizes t (suc fuel) status ch hash ch' ok e =
    let step = sym (finalize_from_lem t fuel status ch hash) ∙ e in
    elim (Outcome-cases (outcome ch hash)) [
      | inl (b, o) ↦
          let end : ◌≡◌ {A = Option (Chain × Bool)} (some (ch, b)) (some (ch', ok)) =
            rw o at step in
          stop (rw o (cc)) (cc)
      | inr (eb, o) ↦ round eb o (
          finalize_from-Finalizes t fuel indirectly_finalized (advance t status ch eb) eb.parent ch'
            ok (rw o at step))
    ]

pub direct-is_finalized : is_finalized directly_finalized ≡ true
unfolding is_finalized
direct-is_finalized = refl

pub indirect-is_finalized : is_finalized indirectly_finalized ≡ true
unfolding is_finalized
indirect-is_finalized = refl
