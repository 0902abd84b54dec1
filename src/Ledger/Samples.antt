-- ===== src/Ledger/Samples.antt =====
-- A ledger with two accounts, on which the tests of the ledger run.
use theta_protocol_subchain.Prelude.{
  ℕ, ◌+◌, ◌-◌, ◌*◌, true, false, Option, none, some, List, [], ◌∷◌, leb, ◌==◌, if◌then◌else◌,
}
use theta_protocol_subchain.Samples.{
  four_validators, staked, three_blocks, verify_first, block_of, stored,
}
use theta_protocol_subchain.Core.Validator.{ValidatorSet}
use theta_protocol_subchain.Core.Block.{Block, ExtendedBlock, valid}
use theta_protocol_subchain.Ledger.Result.{error}
use theta_protocol_subchain.Ledger.Types.{
  Money, Account, TxInput, SendTx, CoinbaseTx, SubchainValidatorSetUpdateTx, Tx, coinbase,
  validator_set_update, send, Store, StoreView, Rules,
}
use theta_protocol_subchain.Ledger.Funds.{sum_by}
use theta_protocol_subchain.Ledger.Execution.{Executor}
use theta_protocol_subchain.Ledger.State.{LedgerState}
use theta_protocol_subchain.Ledger.Blocks.{Context}

-- Coins that are TFuel alone.
abbrev pub tfuel : Money ℕ
tfuel = record {
  theta_wei = λ c. 0;
  tfuel_wei = λ c. c;
  no_nil = λ c. c;
  no_coins = 0;
  plus = λ a b. a + b;
  minus = λ a b. a - b;
  is_gte = λ a b. leb b a;
  is_equal = λ a b. a == b;
}

abbrev pub account : ℕ → ℕ → ℕ → Account ℕ
account address sequence balance = record {
  address = address;
  sequence = sequence;
  balance = balance;
  last_updated_block_height = 0;
  code_hash = 0;
}

abbrev pub toy_rules : Rules ℕ
toy_rules = record {
  money = tfuel;
  new_account = λ address. account address 0 0;
  update_to_height = λ acc h. record acc { last_updated_block_height = h };
  is_a_smart_contract = λ acc. false;
  validate_input_basic = λ i. true;
  validate_output_basic = λ o. true;
  max_accounts_affected_per_tx = 8;
  height_enable_smart_contract = 0;
  height_tx_wrapper_extension = 0;
  height_enable_theta3 = 0;
  send_tx_minimum_fee = λ accounts height. accounts;
  verify = verify_first;
  change_ethereum_tx_wrapper = λ bytes. bytes;
  send_sign_bytes = λ tx. [];
  coinbase_sign_bytes = λ tx. [];
  update_sign_bytes = λ tx. [];
}

abbrev pub input : ℕ → ℕ → ℕ → TxInput ℕ
input address coins sequence = record {
  address = address;
  coins = coins;
  sequence = sequence;
  signature = address ∷ [];
}

-- The account 10 pays 50 to the account 30, which is new, and a fee of 10.
abbrev pub toy_send : SendTx ℕ
toy_send = record {
  fee = 10;
  inputs = input 10 60 1 ∷ [];
  outputs = record { address = 30; coins = 50 } ∷ [];
}

abbrev pub toy_coinbase : CoinbaseTx ℕ
toy_coinbase = record { proposer = input 20 0 0; block_height = 2 }

-- The validators of the second dynasty.
abbrev pub next_validators : ValidatorSet
next_validators = record { dynasty = 2; validators = staked 10 100 ∷ staked 50 100 ∷ [] }

abbrev pub toy_update : SubchainValidatorSetUpdateTx ℕ
toy_update = record {
  proposer = input 20 0 1;
  dynasty = 2;
  validators = next_validators.validators;
}

abbrev pub toy_store : Store ℕ
toy_store = record {
  accounts = (10, account 10 0 100) ∷ (20, account 20 0 5) ∷ [];
  validator_set = some four_validators;
  validator_sets = (1, four_validators) ∷ [];
  rest = 0;
}

abbrev pub toy_view : StoreView ℕ
toy_view = record {
  height = 2;
  coinbase_processed = false;
  validator_set_processed = false;
  store = toy_store;
}

abbrev pub witnessed_second : ℕ → Option ValidatorSet
witnessed_second dynasty = if dynasty == 2 then some next_validators else none

abbrev pub toy_executor : Executor ℕ
toy_executor = record {
  rules = toy_rules;
  next_validator_set = λ hash. some four_validators;
  witnessed_set = witnessed_second;
  sanity_check_contract = λ view n. error;
  process_contract = λ view n. (view, error);
  skip_sanity_check = false;
  current_parent = none;
}

-- The root adds up the balances, each weighed by its address, and the dynasty.
abbrev pub toy_root : Store ℕ → ℕ
unfolding sum_by
toy_root store =
    1
    + sum_by (λ acc. acc.balance * acc.address) store.accounts
    + (elim store.validator_set [ none ↦ 0 | some vs ↦ vs.dynasty ])

abbrev pub toy_parse : List ℕ → Option (Tx ℕ)
toy_parse [] = none
toy_parse (k ∷ _) =
    if k == 1
    then some (send toy_send)
    else if k == 2
    then some (coinbase toy_coinbase)
    else if k == 3
    then some (validator_set_update toy_update)
    else none

abbrev pub toy_print : Tx ℕ → Option (List ℕ)
toy_print (send _) = some (1 ∷ [])
toy_print (coinbase _) = some (2 ∷ [])
toy_print (validator_set_update _) = some (3 ∷ [])
toy_print _ = none

abbrev pub with_root : ℕ → Block → Block
with_root root block = record block { header = record block.header { state_hash = root } }

-- The chain whose third block left the state above.
abbrev pub toy_parent : ExtendedBlock
toy_parent = record (stored 3 2 2 [] valid) {
  block = with_root (toy_root toy_store) (block_of 3 2 2);
}

abbrev pub toy_context : Context ℕ
toy_context = record {
  tries = record { root = toy_root; empty = toy_store; copy_trie = λ store. some store };
  executor = toy_executor;
  chain = record three_blocks { blocks = (3, toy_parent) ∷ [] };
  tx_from_bytes = toy_parse;
  tx_to_bytes = toy_print;
  next_proposer = λ hash epoch. some (staked 20 100);
  mainchain_block_height = some 15000;
  nil_coins = 0;
  sign = λ bytes. some (20 ∷ bytes);
}

abbrev pub toy_state : LedgerState ℕ
toy_state = record {
  db = (toy_root toy_store, toy_store) ∷ [];
  tags = [];
  parent_block = toy_parent.block;
  finalized = toy_view;
  delivered = toy_view;
  checked = some toy_view;
  screened = some toy_view;
}

-- A block on top with the given transactions and state.
abbrev pub block_with : List (List ℕ) → ℕ → Block
block_with txs root = record (with_root root (block_of 4 3 3)) { txs = txs }
