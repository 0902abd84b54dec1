-- ===== src/Mempool/Calls.antt =====
-- mempool/tx_bookkeeper.go: sequences of calls of the bookkeeper.
use theta_protocol_subchain.Prelude.{
  ℕ, ◌<◌, ◌≡◌, ◌∙◌, refl, sym, ap, true, false, not, Option, none, some, is_some, List, [], ◌∷◌,
  ◌==◌, inl, inr, arith, Bool-cases, Option-cases, ==→eq,
}
use theta_protocol_subchain.Prelude.Dict.{lookup, lookup-insert, lookup-insert_same}
use theta_protocol_subchain.Mempool.Bookkeeper.{
  TransactionBookkeeper, create_transaction_bookkeeper, reset, remove_outdated_txs, has_seen,
  get_status, push_record, record_tx, mark_abandoned, tx_status_abandoned, tx_status_pending,
}
use theta_protocol_subchain.Mempool.Seen.{
  contains, IsConsistent, remove_outdated_txs-IsConsistent, make_room-IsRoomy, push_record-Matches,
  push_record-length,
}

-- The calls, with their time, and the answers that they give.
pub data Call : Type 0 where
  call_has_seen call_get_status call_record : ℕ → ℕ → Call
  call_mark_abandoned : ℕ → Call
  call_reset : Call

unfoldable pub answer : TransactionBookkeeper → Call → Option TransactionBookkeeper
unfolding has_seen get_status record_tx mark_abandoned reset
answer tb (call_has_seen now h) = some (has_seen now tb h).0
answer tb (call_get_status now h) = some (get_status now tb h).0
answer tb (call_record now h) = elim (record_tx now tb h) [ none ↦ none | some r ↦ some r.0 ]
answer tb (call_mark_abandoned h) = some (mark_abandoned tb h)
answer tb call_reset = some (reset tb)

unfoldable pub answer_all : TransactionBookkeeper → List Call → Option TransactionBookkeeper
unfolding answer
answer_all tb [] = some tb
answer_all tb (call ∷ calls) = elim (answer tb call) [
  | none ↦ none
  | some next ↦ answer_all next calls
]

pub record_tx_lem :
    (now : ℕ) (tb : TransactionBookkeeper) (h : ℕ)
    → IsConsistent tb
    → (tb' : TransactionBookkeeper) × (record_tx now tb h ≡ some (tb', not (has_seen now tb h).1))
      × IsConsistent tb'
      × (is_some (lookup h tb'.tx_map) ≡ true)
unfolding record_tx has_seen
record_tx_lem now tb h c =
    let kept = remove_outdated_txs now tb in
    let ck = remove_outdated_txs-IsConsistent now tb c in
    elim (Option-cases (lookup h kept.tx_map)) [
      | inr (r, e) ↦ (kept, rw (e, record_tx) refl, ck, rw e refl)
      | inl e ↦
          let (roomy, made, matching, room, same_max, still) = make_room-IsRoomy kept ck in
          let new : contains h kept.tx_list ≡ false = sym (ck.matching.0 h) ∙ ap is_some e in
          (
            push_record now roomy h,
            rw (e, made, record_tx) refl,
            record {
              matching = push_record-Matches now roomy h matching (still h new);
              bounded = omega (arith, room, same_max, push_record-length now roomy h);
              roomy = omega (arith, same_max, ck.roomy);
            },
            ap is_some (
                lookup-insert_same h
                  (record { hash = h; status = tx_status_pending; created_at = now }) roomy.tx_map),
          )
    ]

mark_abandoned-IsConsistent :
    (tb : TransactionBookkeeper) (h : ℕ) → IsConsistent tb → IsConsistent (mark_abandoned tb h)
unfolding mark_abandoned
mark_abandoned-IsConsistent tb h c = elim (Option-cases (lookup h tb.tx_map)) [
  | inl e ↦ rw (e, mark_abandoned) c
  | inr (r, e) ↦
      rw (e, mark_abandoned)
        (record {
          matching = (
            λ j. elim (Bool-cases (h == j)) [
              | inl here ↦
                  rw (lookup-insert h j (record r { status = tx_status_abandoned }) tb.tx_map, here)
                    (sym (ap is_some e)
                      ∙ c.matching.0 h
                      ∙ ap (λ i. contains i tb.tx_list) (==→eq h j here))
              | inr there ↦
                  rw
                    (lookup-insert h j (record r { status = tx_status_abandoned }) tb.tx_map, there)
                    (c.matching.0 j)
            ],
            c.matching.1,
          );
          bounded = c.bounded;
          roomy = c.roomy;
        })
]

reset-IsConsistent : (tb : TransactionBookkeeper) → IsConsistent tb → IsConsistent (reset tb)
unfolding reset lookup contains
reset-IsConsistent tb c = record {
  matching = ((λ h. refl), tt);
  bounded = omega arith;
  roomy = c.roomy;
}

create-IsConsistent : (n : ℕ) → 0 < n → IsConsistent (create_transaction_bookkeeper n)
unfolding create_transaction_bookkeeper lookup contains
create-IsConsistent n pos = record {
  matching = ((λ h. refl), tt);
  bounded = omega arith;
  roomy = pos;
}

answer-IsConsistent :
    (tb : TransactionBookkeeper) (call : Call)
    → IsConsistent tb
    → (next : TransactionBookkeeper) × (answer tb call ≡ some next) × IsConsistent next
unfolding answer has_seen get_status
answer-IsConsistent tb (call_has_seen now h) c =
    (remove_outdated_txs now tb, refl, remove_outdated_txs-IsConsistent now tb c)
answer-IsConsistent tb (call_get_status now h) c =
    let kept = remove_outdated_txs now tb in
    elim (Option-cases (lookup h kept.tx_map)) [
      | inl e ↦ (kept, rw (answer, get_status, e) refl, remove_outdated_txs-IsConsistent now tb c)
      | inr (r, e) ↦
          (kept, rw (answer, get_status, e) refl, remove_outdated_txs-IsConsistent now tb c)
    ]
answer-IsConsistent tb (call_record now h) c =
    let (tb', recorded, c', _) = record_tx_lem now tb h c in (tb', rw (answer, recorded) refl, c')
answer-IsConsistent tb (call_mark_abandoned h) c =
    (mark_abandoned tb h, refl, mark_abandoned-IsConsistent tb h c)
answer-IsConsistent tb call_reset c = (reset tb, refl, reset-IsConsistent tb c)

all_answered :
    (tb : TransactionBookkeeper) (calls : List Call)
    → IsConsistent tb
    → (last : TransactionBookkeeper) × (answer_all tb calls ≡ some last) × IsConsistent last
unfolding answer_all
all_answered tb [] c = (tb, refl, c)
all_answered tb (call ∷ calls) c =
    let (next, answered, c') = answer-IsConsistent tb call c in
    let (last, rest, c'') = all_answered next calls c' in
    (last, rw (answered, answer_all) rest, c'')

-- No sequence of calls of a new bookkeeper with room for some transaction panics, and after it
-- the map has records for just the transactions of the FIFO list, which has each once and no more
-- than the bookkeeper has room for. The method `remove`, which nothing calls, is not among the
-- calls.
pub answer_all-IsConsistent :
    (n : ℕ) (calls : List Call)
    → 0 < n
    → (last : TransactionBookkeeper) × (answer_all (create_transaction_bookkeeper n) calls
        ≡ some last)
      × IsConsistent last
answer_all-IsConsistent n calls pos =
    all_answered (create_transaction_bookkeeper n) calls (create-IsConsistent n pos)
