-- ===== src/Mempool/Seen.antt =====
-- mempool/tx_bookkeeper.go: the map and the list speak of the same transactions.
use mathlib.Core.Path.{subst}
use theta_protocol_subchain.Prelude.{
  ℕ, ◌≤◌, ◌<◌, ◌≡◌, refl, sym, ap, Bool, true, false, ◌||◌, some, is_some, List, [], ◌∷◌, ◌++◌, leb,
  ◌==◌, if◌then◌else◌, length, inl, inr, arith, Bool-cases, ==→eq, List-cases, leb→le,
  length-append, ◌+◌,
}
use theta_protocol_subchain.Prelude.Dict.{Dict, lookup, erase, lookup-insert, lookup-erase}
use theta_protocol_subchain.Mempool.Bookkeeper.{
  TxRecord, TransactionBookkeeper, tx_status_pending, is_outdated, drop_outdated,
  remove_outdated_txs, push_record, make_room,
}

unfoldable pub contains : ℕ → List (ℕ × ℕ) → Bool
contains h [] = false
contains h (e ∷ l) = (e.0 == h) || contains h l

abbrev pub IsOnce : List (ℕ × ℕ) → Type 0
IsOnce [] = Unit
IsOnce (e ∷ l) = (contains e.0 l ≡ false) × IsOnce l

-- The map has a record for each transaction of the list, which has each once.
abbrev pub Matches : Dict TxRecord → List (ℕ × ℕ) → Type 0
Matches m l = ((h : ℕ) → is_some (lookup h m) ≡ contains h l) × IsOnce l

pub record IsConsistent (tb : TransactionBookkeeper) : Type 0 where
  pub matching : Matches tb.tx_map tb.tx_list
  pub bounded : length tb.tx_list ≤ tb.max_num_txs
  pub roomy : 0 < tb.max_num_txs

Matches-front :
    (m : Dict TxRecord) (e : ℕ × ℕ) (l : List (ℕ × ℕ)) → Matches m (e ∷ l) → Matches (erase e.0 m) l
unfolding contains
Matches-front m e l (same, (fresh, once)) = (
  λ h. elim (Bool-cases (e.0 == h)) [
    | inl here ↦ rw (lookup-erase e.0 h m, here) (sym (rw (==→eq e.0 h here) at fresh))
    | inr there ↦ rw (lookup-erase e.0 h m, there) (rw there at (same h))
  ],
  once,
)

Matches-drop_outdated :
    (now : ℕ) (m : Dict TxRecord) (l : List (ℕ × ℕ))
    → Matches m l
    → Matches (drop_outdated now m l).0 (drop_outdated now m l).1
      × (length (drop_outdated now m l).1 ≤ length l)
unfolding drop_outdated
Matches-drop_outdated now m [] h = (h, omega arith)
Matches-drop_outdated now m (e ∷ l) h = elim (Bool-cases (is_outdated now e.1)) [
  | inr stays ↦ rw (stays, drop_outdated) (h, omega arith)
  | inl old ↦
      let (kept, shorter) = Matches-drop_outdated now (erase e.0 m) l (Matches-front m e l h) in
      rw (old, drop_outdated) (kept, omega (arith, shorter))
]

pub remove_outdated_txs-IsConsistent :
    (now : ℕ) (tb : TransactionBookkeeper)
    → IsConsistent tb
    → IsConsistent (remove_outdated_txs now tb)
unfolding remove_outdated_txs
remove_outdated_txs-IsConsistent now tb c =
    let (kept, shorter) = Matches-drop_outdated now tb.tx_map tb.tx_list c.matching in
    record { matching = kept; bounded = omega (arith, shorter, c.bounded); roomy = c.roomy }

==-flip : (a b : ℕ) → (a == b) ≡ false → (b == a) ≡ false
==-flip a b h = ground arith

contains-snoc :
    (h k t : ℕ) (l : List (ℕ × ℕ))
    → contains h (l ++ (k, t) ∷ []) ≡ (if k == h then true else contains h l)
unfolding contains
contains-snoc h k t [] = ground arith
contains-snoc h k t (e ∷ l) = ground (arith, contains-snoc h k t l)

IsOnce-snoc :
    (k t : ℕ) (l : List (ℕ × ℕ)) → IsOnce l → contains k l ≡ false → IsOnce (l ++ (k, t) ∷ [])
unfolding contains
IsOnce-snoc k t [] once new = (refl, tt)
IsOnce-snoc k t (e ∷ l) (fresh, once) new = elim (Bool-cases (e.0 == k)) [
  | inl same ↦ absurd (cc (rw (same, contains) at new))
  | inr other ↦ (
    rw (contains-snoc e.0 k t l, ==-flip e.0 k other) fresh,
    IsOnce-snoc k t l once (rw (other, contains) at new),
  )
]

pub push_record-Matches :
    (now : ℕ) (tb : TransactionBookkeeper) (h : ℕ)
    → Matches tb.tx_map tb.tx_list
    → contains h tb.tx_list ≡ false
    → Matches (push_record now tb h).tx_map (push_record now tb h).tx_list
unfolding push_record
push_record-Matches now tb h (same, once) new = (
  λ j. elim (Bool-cases (h == j)) [
    | inl here ↦
        rw
          (
            contains-snoc j h now tb.tx_list,
            lookup-insert h j (record { hash = h; status = tx_status_pending; created_at = now })
                tb.tx_map,
            here,
          )
          refl
    | inr there ↦
        rw
          (
            contains-snoc j h now tb.tx_list,
            lookup-insert h j (record { hash = h; status = tx_status_pending; created_at = now })
                tb.tx_map,
            there,
          )
          (same j)
  ],
  IsOnce-snoc h now tb.tx_list once new,
)

no_room : (n : ℕ) (l : List (ℕ × ℕ)) → 0 < n → leb n (length l) ≡ true → l ≡ [] → ⊥
no_room n l pos full empty = omega (arith, leb→le n (length l) full, ap length empty)

contains-tail :
    (h : ℕ) (e : ℕ × ℕ) (l : List (ℕ × ℕ)) → contains h (e ∷ l) ≡ false → contains h l ≡ false
unfolding contains
contains-tail h e l new = ground arith

-- There is room for one more after the removal.
pub make_room-IsRoomy :
    (tb : TransactionBookkeeper)
    → IsConsistent tb
    → (tb' : TransactionBookkeeper) × (make_room tb ≡ some tb')
      × Matches tb'.tx_map tb'.tx_list
      × (length tb'.tx_list < tb.max_num_txs)
      × (tb'.max_num_txs ≡ tb.max_num_txs)
      × ((h : ℕ) → contains h tb.tx_list ≡ false → contains h tb'.tx_list ≡ false)
unfolding make_room
make_room-IsRoomy tb c = elim (Bool-cases (leb tb.max_num_txs (length tb.tx_list))) [
  | inr room ↦ (tb, rw (room, make_room) refl, c.matching, ground (arith, room), refl, λ h new. new)
  | inl full ↦ elim (List-cases tb.tx_list) [
    | inl empty ↦ absurd (no_room tb.max_num_txs tb.tx_list c.roomy full empty)
    | inr (e, l, shape) ↦
        let front = subst (λ xs. Matches tb.tx_map xs) shape c.matching in
        (
          record tb { tx_map = erase e.0 tb.tx_map; tx_list = l },
          rw (full, shape, make_room) refl,
          Matches-front tb.tx_map e l front,
          omega (arith, c.bounded, ap length shape),
          refl,
          λ h new. contains-tail h e l (rw shape at new),
        )
  ]
]

pub push_record-length :
    (now : ℕ) (tb : TransactionBookkeeper) (h : ℕ)
    → length (push_record now tb h).tx_list ≡ length tb.tx_list + 1
unfolding push_record
push_record-length now tb h = omega (arith, length-append tb.tx_list ((h, now) ∷ []))
