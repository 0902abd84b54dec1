-- ===== src/Interchain/Cache/Keys.antt =====
-- interchain/utils/inter_chain_event_cache.go: a key belongs to one source chain, type and nonce.
use theta_protocol_subchain.Prelude.{ℕ, ◌≡◌, ◌∙◌, ap, sym, Option, some, List, [], ◌∷◌, ◌++◌, arith}
use theta_protocol_subchain.Prelude.Int.{ℤ, pos}
use theta_protocol_subchain.Prelude.Text.{Text, codes, split, print_decimal, parse_decimal}
use theta_protocol_subchain.Prelude.Text.Decimal.{parse_decimal-print}
use theta_protocol_subchain.Prelude.Text.Words.{
  split-append, split-print_decimal, split-print_decimal_last,
}
use theta_protocol_subchain.Interchain.Events.{
  InterChainMessageEventType, unknown, token_lock, voucher_mint, token_unlock, voucher_burn,
  type_number,
}
use theta_protocol_subchain.Interchain.Cache.{inter_chain_event_index_key}

print_decimal_inj : (m n : ℕ) → print_decimal m ≡ print_decimal n → m ≡ n
print_decimal_inj m n h =
    let e : ◌≡◌ {A = Option ℤ} (some (pos m)) (some (pos n)) =
      sym (parse_decimal-print m) ∙ ap parse_decimal h ∙ parse_decimal-print n in
    cc

split-key :
    (source nonce : ℕ) (event_type : InterChainMessageEventType)
    → split b'/' (inter_chain_event_index_key source event_type nonce)
      ≡ codes "ice"
        ∷ print_decimal source
        ∷ print_decimal (type_number event_type)
        ∷ print_decimal nonce
        ∷ []
unfolding inter_chain_event_index_key
split-key source nonce event_type =
    let kind = print_decimal (type_number event_type) in
    split-append b'/' (codes "ice")
      (print_decimal source ++ b'/' ∷ (kind ++ b'/' ∷ print_decimal nonce)) (omega arith)
    ∙ ap (λ (r : List Text). codes "ice" ∷ r)
        (split-print_decimal source (kind ++ b'/' ∷ print_decimal nonce)
          ∙ ap (λ (r : List Text). print_decimal source ∷ r)
              (split-print_decimal (type_number event_type) (print_decimal nonce)
                ∙ ap (λ (r : List Text). kind ∷ r) (split-print_decimal_last nonce)))

type_number_inj : (a b : InterChainMessageEventType) → type_number a ≡ type_number b → a ≡ b
type_number_inj unknown b h = ground arith
type_number_inj (token_lock t) b h = ground arith
type_number_inj (voucher_mint t) b h = ground arith
type_number_inj (token_unlock t) b h = ground arith
type_number_inj (voucher_burn t) b h = ground arith

pub inter_chain_event_index_key_inj :
    (source source' nonce nonce' : ℕ) (kind kind' : InterChainMessageEventType)
    → inter_chain_event_index_key source kind nonce
      ≡ inter_chain_event_index_key source' kind' nonce'
    → (source ≡ source') × (kind ≡ kind') × (nonce ≡ nonce')
inter_chain_event_index_key_inj source source' nonce nonce' kind kind' h =
    let parts =
      sym (split-key source nonce kind) ∙ ap (split b'/') h ∙ split-key source' nonce' kind' in
    (
      print_decimal_inj source source' (cc),
      type_number_inj kind kind' (print_decimal_inj (type_number kind) (type_number kind') (cc)),
      print_decimal_inj nonce nonce' (cc),
    )
