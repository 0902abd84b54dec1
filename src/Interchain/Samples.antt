-- ===== src/Interchain/Samples.antt =====
-- A bridge between the chains 366 and 3661, and what goes over it.
use theta_protocol_subchain.Prelude.{ℕ, ◌*◌, true, false, none, some, [], ◌∷◌, length}
use theta_protocol_subchain.Prelude.Int.{pos}
use theta_protocol_subchain.Prelude.Text.{codes}
use theta_protocol_subchain.Interchain.Denom.{tfuel, denom}
use theta_protocol_subchain.Interchain.Events.{token_lock, InterChainMessageEvent, EventData}
use theta_protocol_subchain.Interchain.Cache.{Faults, key_of}
use theta_protocol_subchain.Interchain.Orchestrator.{
  Config, Outside, Orchestrator, Submission, mint_tfuel,
}
use theta_protocol_subchain.Interchain.Processing.{Turn}
use theta_protocol_subchain.Interchain.Witness.Heights.{TokenBank, Chain}
use theta_protocol_subchain.Interchain.Witness.{WitnessConfig, World, MetachainWitness}

-- A lock of five TFuel for the subchain.
abbrev pub locked : EventData
locked = record {
  denom = denom tfuel 366 [];
  target_chain_id = 3661;
  receiver = 7;
  amount = 5;
  token_id = 0;
  name = [];
  symbol = [];
  decimals = 18;
  token_uri = [];
  nonce = 1;
}

abbrev pub lock_event : InterChainMessageEvent
lock_event = record {
  event_type = token_lock tfuel;
  source_chain_id = 366;
  target_chain_id = 3661;
  sender = 6;
  receiver = 7;
  payload = codes "five";
  nonce = 1;
  block_height = 100;
}

abbrev pub bridge : Config
bridge = record {
  mainchain_id = 366;
  subchain_id = 3661;
  mainchain_block_interval = 6;
  subchain_block_interval = 1;
  keccak = λ s. length s;
  decoder = record { is_hex_address = λ s. true; unpack = λ kind payload. locked };
}

abbrev pub no_faults : Faults
no_faults = record { cannot_read = λ k. false; cannot_write = λ k. false }

abbrev pub outside_at : ℕ → Outside
outside_at now = record {
  now = now;
  faults = no_faults;
  dynasty = some 12;
  suggest_gas_price = some 4;
  pending_nonce = λ chain. some 9;
  has_transactor = λ chain. true;
  accepts = λ call. true;
}

abbrev pub turn_at : ℕ → Turn
turn_at now = record {
  source = 366;
  target = 3661;
  kind = token_lock tfuel;
  max_processed = 0;
  outside = outside_at now;
}

abbrev pub waiting : Orchestrator
waiting = record { cache = (key_of lock_event, lock_event) ∷ []; event_processed_time = [] }

abbrev pub sent_at : ℕ → Submission
sent_at now = record {
  event = lock_event;
  target = 3661;
  opts = record { chain_id = 3661; nonce = 9; gas_price = 0 };
  call = mint_tfuel (denom tfuel 366 []) 7 5 12 1;
  at = now;
  accepted = true;
}

abbrev pub quiet_bank : TokenBank
quiet_bank = record {
  max_processed_token_lock_nonce = λ chain. some 3;
  max_processed_voucher_burn_nonce = λ chain. none;
  token_lock_event_height = λ chain nonce. some (100 * nonce);
  voucher_burn_event_height = λ chain nonce. none;
}

abbrev pub chain_at : ℕ → Chain
chain_at height = record { bank = λ token. quiet_bank; block_number = some height }

-- The chains at two heights, with an event that every query gives.
abbrev pub world_at : ℕ → ℕ → World
world_at main sub = record {
  main = chain_at main;
  sub = chain_at sub;
  logs = λ on_main from_block to_block. some (lock_event ∷ []);
  validators_at = λ height. some (1 ∷ [], 10 ∷ []);
  cache_faults = no_faults;
  cannot_read_height = λ chain. false;
  cannot_write_height = λ chain height. false;
}

abbrev pub two_chains : WitnessConfig
two_chains = record { mainchain_id = 366; subchain_id = 3661 }

-- A witness that has come to the heights 100 and 50.
abbrev pub watching : MetachainWitness
watching = record {
  mainchain_block_height = some 1000;
  subchain_block_height = some 60;
  witnessed_dynasty = 5;
  validator_set_cache = [];
  last_queryed = (366, pos 100) ∷ (3661, pos 50) ∷ [];
  inter_chain_event_cache = [];
}
