-- ===== src/Mempool/Bookkeeper.antt =====
-- mempool/tx_bookkeeper.go. A time is its number of nanoseconds. Of the records that the FIFO list
-- shares with the map, it is the hash and the time of creation, which never change, that are read
-- through the list.
use theta_protocol_subchain.Prelude.{
  ℕ, ◌-◌, Bool, true, false, Option, none, some, is_some, List, [], ◌∷◌, ◌++◌, ltb, leb,
  if◌then◌else◌, length,
}
use theta_protocol_subchain.Prelude.Dict.{Dict, lookup, insert, erase}

pub data TxStatus : Type 0 where
  tx_status_pending tx_status_abandoned : TxStatus

pub record TxRecord : Type 0 where
  pub hash : ℕ
  pub status : TxStatus
  pub created_at : ℕ

pub record TransactionBookkeeper : Type 0 where
  pub tx_map : Dict TxRecord
  pub tx_list : List (ℕ × ℕ)
  pub max_num_txs : ℕ

-- One minute.
abbrev pub max_tx_life : ℕ
max_tx_life = 60000000000

-- `time.Since` is 0 or less for a time to come.
unfoldable pub is_outdated : ℕ → ℕ → Bool
is_outdated now created_at = ltb max_tx_life (now - created_at)

unfoldable pub create_transaction_bookkeeper : ℕ → TransactionBookkeeper
create_transaction_bookkeeper max_num_txs = record {
  tx_map = [];
  tx_list = [];
  max_num_txs = max_num_txs;
}

unfoldable pub reset : TransactionBookkeeper → TransactionBookkeeper
reset tb = record tb { tx_map = []; tx_list = [] }

-- The loop of `removeOutdatedTxsUnsafe`.
unfoldable pub drop_outdated : ℕ → Dict TxRecord → List (ℕ × ℕ) → Dict TxRecord × List (ℕ × ℕ)
unfolding is_outdated erase
drop_outdated now m [] = (m, [])
drop_outdated now m ((h, created_at) ∷ l) =
    let rest = drop_outdated now (erase h m) l in
    if is_outdated now created_at then rest else (m, (h, created_at) ∷ l)

unfoldable pub remove_outdated_txs : ℕ → TransactionBookkeeper → TransactionBookkeeper
unfolding drop_outdated
remove_outdated_txs now tb =
    let left = drop_outdated now tb.tx_map tb.tx_list in
    record tb { tx_map = left.0; tx_list = left.1 }

unfoldable pub has_seen : ℕ → TransactionBookkeeper → ℕ → TransactionBookkeeper × Bool
unfolding remove_outdated_txs lookup
has_seen now tb h = let kept = remove_outdated_txs now tb in (kept, is_some (lookup h kept.tx_map))

unfoldable pub get_status : ℕ → TransactionBookkeeper → ℕ → TransactionBookkeeper × TxStatus × Bool
unfolding remove_outdated_txs lookup
get_status now tb h =
    let kept = remove_outdated_txs now tb in
    elim (lookup h kept.tx_map) [
      | none ↦ (kept, tx_status_abandoned, false)
      | some r ↦ (kept, r.status, true)
    ]

unfoldable pub push_record : ℕ → TransactionBookkeeper → ℕ → TransactionBookkeeper
unfolding insert
push_record now tb h = record tb {
  tx_map = insert h (record { hash = h; status = tx_status_pending; created_at = now }) tb.tx_map;
  tx_list = tb.tx_list ++ (h, now) ∷ [];
}

-- The removal of the oldest transaction where there is no room; `none` is the panic on an empty list.
unfoldable pub make_room : TransactionBookkeeper → Option TransactionBookkeeper
unfolding erase
make_room tb =
    if leb tb.max_num_txs (length tb.tx_list)
    then elim tb.tx_list [
      | [] ↦ none
      | e ∷ l ↦ some (record tb { tx_map = erase e.0 tb.tx_map; tx_list = l })
    ]
    else some tb

unfoldable pub record_tx : ℕ → TransactionBookkeeper → ℕ → Option (TransactionBookkeeper × Bool)
unfolding remove_outdated_txs lookup make_room push_record
record_tx now tb h =
    let kept = remove_outdated_txs now tb in
    elim (lookup h kept.tx_map) [
      | some _ ↦ some (kept, false)
      | none ↦ elim (make_room kept) [
        | none ↦ none
        | some roomy ↦ some (push_record now roomy h, true)
      ]
    ]

unfoldable pub mark_abandoned : TransactionBookkeeper → ℕ → TransactionBookkeeper
unfolding lookup insert
mark_abandoned tb h = elim (lookup h tb.tx_map) [
  | none ↦ tb
  | some r ↦ record tb { tx_map = insert h (record r { status = tx_status_abandoned }) tb.tx_map }
]
