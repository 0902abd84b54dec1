-- ===== src/Mempool/Tests.antt =====
-- A bookkeeper with room for two transactions.
use theta_protocol_subchain.Prelude.{◌≡◌, arith, some, List, [], ◌∷◌}
use theta_protocol_subchain.Mempool.Bookkeeper.{
  TransactionBookkeeper, create_transaction_bookkeeper,
}
use theta_protocol_subchain.Mempool.Seen.{IsConsistent}
use theta_protocol_subchain.Mempool.Calls.{
  Call, call_record, call_has_seen, call_mark_abandoned, answer_all, answer_all-IsConsistent,
}

-- Three transactions, one of them twice, and a minute later a question.
abbrev six_calls : List Call
six_calls =
    call_record 1 7
    ∷ call_record 2 7
    ∷ call_mark_abandoned 7
    ∷ call_record 3 8
    ∷ call_record 4 9
    ∷ call_has_seen 60000000004 8
    ∷ []

answer_all-IsConsistent_example :
    (last : TransactionBookkeeper) × (answer_all (create_transaction_bookkeeper 2) six_calls
      ≡ some last)
    × IsConsistent last
answer_all-IsConsistent_example = answer_all-IsConsistent 2 six_calls (omega arith)
