-- ===== src/Ledger/Types.antt =====
-- The transactions and the accounts of the package `ledger/types`, most of which lies outside the
-- repository: of its structs, the fields that the executors read; its methods are the parameters.
use theta_protocol_subchain.Prelude.{ℕ, Bool, Option, List}
use theta_protocol_subchain.Prelude.Dict.{Dict}
use theta_protocol_subchain.Core.Validator.{Validator, ValidatorSet}

-- `types.Coins`, as the parameter `C`, with its methods.
pub record Money (C : Type 0) : Type 0 where
  pub theta_wei : C → ℕ
  pub tfuel_wei : C → ℕ
  pub no_nil : C → C
  pub no_coins : C
  pub plus : C → C → C
  pub minus : C → C → C
  pub is_gte : C → C → Bool
  pub is_equal : C → C → Bool

pub record Account (C : Type 0) : Type 0 where
  pub address : ℕ
  pub sequence : ℕ
  pub balance : C
  pub last_updated_block_height : ℕ
  pub code_hash : ℕ

pub record TxInput (C : Type 0) : Type 0 where
  pub address : ℕ
  pub coins : C
  pub sequence : ℕ
  pub signature : List ℕ

pub record TxOutput (C : Type 0) : Type 0 where
  pub address : ℕ
  pub coins : C

pub record SendTx (C : Type 0) : Type 0 where
  pub fee : C
  pub inputs : List (TxInput C)
  pub outputs : List (TxOutput C)

pub record CoinbaseTx (C : Type 0) : Type 0 where
  pub proposer : TxInput C
  pub block_height : ℕ

pub record SubchainValidatorSetUpdateTx (C : Type 0) : Type 0 where
  pub proposer : TxInput C
  pub dynasty : ℕ
  pub validators : List Validator

-- The transactions that the code tells apart; the Boolean of the stake transactions says that the
-- purpose is that of a validator. The number stands for a smart contract's transaction.
pub data Tx (C : Type 0) : Type 0 where
  coinbase : CoinbaseTx C → Tx C
  validator_set_update : SubchainValidatorSetUpdateTx C → Tx C
  send : SendTx C → Tx C
  smart_contract : ℕ → Tx C
  deposit_stake : Bool → Tx C
  withdraw_stake : Bool → Tx C
  slash stake_reward_distribution other : Tx C

-- The contents of a state trie: the accounts, the current validator set, the sets by dynasty, and a
-- number for all the rest.
pub record Store (C : Type 0) : Type 0 where
  pub accounts : Dict (Account C)
  pub validator_set : Option ValidatorSet
  pub validator_sets : Dict ValidatorSet
  pub rest : ℕ

-- The view of a state: its height, the store, and the flags of the block that is processed.
pub record StoreView (C : Type 0) : Type 0 where
  pub height : ℕ
  pub coinbase_processed : Bool
  pub validator_set_processed : Bool
  pub store : Store C

-- What the executors call: the methods of accounts and of inputs, the bytes that are signed and
-- their verification, the fees and the heights of the main chain's package `common`.
pub record Rules (C : Type 0) : Type 0 where
  pub money : Money C
  pub new_account : ℕ → Account C
  pub update_to_height : Account C → ℕ → Account C
  pub is_a_smart_contract : Account C → Bool
  pub validate_input_basic : TxInput C → Bool
  pub validate_output_basic : TxOutput C → Bool
  pub max_accounts_affected_per_tx : ℕ
  pub height_enable_smart_contract : ℕ
  pub height_tx_wrapper_extension : ℕ
  pub height_enable_theta3 : ℕ
  pub send_tx_minimum_fee : ℕ → ℕ → ℕ
  pub verify : List ℕ → List ℕ → ℕ → Bool
  pub change_ethereum_tx_wrapper : List ℕ → List ℕ
  pub send_sign_bytes : SendTx C → List ℕ
  pub coinbase_sign_bytes : CoinbaseTx C → List ℕ
  pub update_sign_bytes : SubchainValidatorSetUpdateTx C → List ℕ
