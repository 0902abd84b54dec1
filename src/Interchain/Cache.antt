-- ===== src/Interchain/Cache.antt =====
-- interchain/utils/inter_chain_event_cache.go: the cache of events over its database, an association
-- list. `Faults` says at which keys the database fails. An event is stored as it is read back by RLP.
pub mod Keys
use theta_protocol_subchain.Prelude.{
  ℕ, ◌≡◌, refl, Bool, true, false, Option, none, some, List, [], ◌∷◌, ◌++◌, arith, if◌then◌else◌,
}
use theta_protocol_subchain.Prelude.Text.{Text, codes, equal_text, print_decimal}
use theta_protocol_subchain.Prelude.Text.Words.{equal_text_iff}
use theta_protocol_subchain.Interchain.Events.{
  InterChainMessageEventType, InterChainMessageEvent, type_number,
}

unfoldable pub inter_chain_event_index_key : ℕ → InterChainMessageEventType → ℕ → Text
inter_chain_event_index_key source event_type nonce =
    codes "ice/"
    ++ (print_decimal source
        ++ b'/' ∷ (print_decimal (type_number event_type) ++ b'/' ∷ print_decimal nonce))

abbrev pub Entries : Type 0
Entries = List (Text × InterChainMessageEvent)

pub record Faults : Type 0 where
  pub cannot_read : Text → Bool
  pub cannot_write : Text → Bool

unfoldable pub find : Text → Entries → Option InterChainMessageEvent
unfolding equal_text
find k [] = none
find k ((j, e) ∷ d) = if equal_text j k then some e else find k d

unfoldable pub put : Text → InterChainMessageEvent → Entries → Entries
unfolding equal_text
put k e [] = (k, e) ∷ []
put k e ((j, x) ∷ d) = if equal_text j k then (k, e) ∷ d else (j, x) ∷ put k e d

unfoldable pub drop : Text → Entries → Entries
unfolding equal_text
drop k [] = []
drop k ((j, x) ∷ d) = if equal_text j k then drop k d else (j, x) ∷ drop k d

-- The answers of `Get`: the event, `ErrKeyNotFound`, or another error.
pub data Reading : Type 0 where
  found : InterChainMessageEvent → Reading
  key_not_found read_failed : Reading

unfoldable pub key_of : InterChainMessageEvent → Text
unfolding inter_chain_event_index_key
key_of e = inter_chain_event_index_key e.source_chain_id e.event_type e.nonce

module _ (faults : Faults) where
  -- The cache after the call, and whether there is no error.
  unfoldable pub insert_event : InterChainMessageEvent → Entries → Entries × Bool
  unfolding key_of put
  insert_event e d =
      if faults.cannot_write (key_of e) then (d, false) else (put (key_of e) e d, true)

  unfoldable pub insert_list : List InterChainMessageEvent → Entries → Entries × Bool
  unfolding insert_event
  insert_list [] d = (d, true)
  insert_list (e ∷ es) d =
      let inserted = insert_event e d in
      let rest = insert_list es inserted.0 in if inserted.1 then rest else inserted

  unfoldable pub delete_event : ℕ → InterChainMessageEventType → ℕ → Entries → Entries × Bool
  unfolding inter_chain_event_index_key drop
  delete_event source event_type nonce d =
      let k = inter_chain_event_index_key source event_type nonce in
      if faults.cannot_write k then (d, false) else (drop k d, true)

  unfoldable pub get_event : ℕ → InterChainMessageEventType → ℕ → Entries → Reading
  unfolding inter_chain_event_index_key find
  get_event source event_type nonce d =
      let k = inter_chain_event_index_key source event_type nonce in
      if faults.cannot_read k
      then read_failed
      else elim (find k d) [ none ↦ key_not_found | some e ↦ found e ]

  -- `none` is an error that is not `ErrKeyNotFound`.
  unfoldable pub exists_event : ℕ → InterChainMessageEventType → ℕ → Entries → Option Bool
  unfolding get_event
  exists_event source event_type nonce d = elim (get_event source event_type nonce d) [
    | found _ ↦ some true
    | key_not_found ↦ some false
    | read_failed ↦ none
  ]

pub find-put :
    (k j : Text) (e : InterChainMessageEvent) (d : Entries)
    → find j (put k e d) ≡ (if equal_text k j then some e else find j d)
unfolding find put
find-put k j e [] = refl
find-put k j e ((i, x) ∷ d) =
    ground (arith, equal_text_iff i k, equal_text_iff i j, equal_text_iff k j, find-put k j e d)

pub find-drop :
    (k j : Text) (d : Entries) → find j (drop k d) ≡ (if equal_text k j then none else find j d)
unfolding find drop
find-drop k j [] = ground arith
find-drop k j ((i, x) ∷ d) =
    ground (arith, equal_text_iff i k, equal_text_iff i j, equal_text_iff k j, find-drop k j d)
