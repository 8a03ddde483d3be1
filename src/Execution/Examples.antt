-- ===== src/Execution/Examples.antt =====
-- A block with one transfer, run by an interpreter that uses no gas of its own, and instances of the
-- theorems on the processor.
use akula.Prelude.{
  ℕ, ◌+◌, ◌*◌, ◌≤◌, ◌≡◌, ◌⊎◌, refl, ap, ◌==◌, if◌then◌else◌, true, false, none, some, List, [], ◌∷◌,
  arith,
}
use akula.Errors.{Result, ok, err}
use akula.HashMap
use akula.HashSet
use akula.State.Interface.{Reader}
use akula.State.Object.{default_account}
use akula.State.Delta.{IntraBlockState}
use akula.State.Monad.{pure, gets, modify, lift, unwrap, ◌>>=◌, pure-ok}
use akula.State.IntraBlock.{
  update_account, is_dead, new, get_object, get_or_create_object, ensure_object, get_balance,
  get_nonce, get_code_hash, add_to_balance, subtract_from_balance, set_nonce, access_account, touch,
}
use akula.State.IntraBlock.Contracts.{destruct_selfdestructs, destruct_touched_dead}
use akula.State.IntraBlock.Slots.{finalize_transaction, clear_journal_and_substate, commit_entries}
use akula.State.IntraBlock.Writes.{Write, write_to_db}
use akula.Models.Message.{
  MessageWithSender, Message, TxType, call, priority_fee_per_gas, effective_gas_price,
}
use akula.Models.Header.{PartialHeader}
use akula.Models.Revision.{
  Revision, frontier, homestead, tangerine, spurious, byzantium, constantinople, petersburg,
  istanbul, berlin, london, at_least,
}
use akula.Models.Block.{BlockBodyWithSenders}
use akula.Consensus.Transaction.{pre_validate_transaction}
use akula.Chain.IntrinsicGas.{intrinsic_gas}
use akula.Consensus.Ethash.{reward}
use akula.Execution.Processor.{
  Processor, Receipt, Execute, validate_transaction, execute_transaction,
}
use akula.Execution.Processor.Block.{execute_and_write_block, total_gas, join_blooms}
use akula.Execution.Processor.Validity.{MayRun, validate_transaction-MayRun}
use akula.Execution.Processor.Gas.{IsFrugal, execute_transaction-gas, g0_of}
use akula.Execution.Processor.BlockGas.{IsRising, execute_and_write_block-ok}

-- Address 7 has a balance.
abbrev genesis : Reader
genesis = record {
  read_account =
      λ a. ok (if a == 7 then some (record default_account { balance = 100_000 }) else none);
  read_code = λ h. ok [];
  read_storage = λ a k. ok 0;
}

abbrev rank : Revision → ℕ
rank frontier = 0
rank homestead = 1
rank tangerine = 2
rank spurious = 3
rank byzantium = 4
rank constantinople = 5
rank petersburg = 6
rank istanbul = 7
rank berlin = 8
rank london = 9

abbrev run_nothing : Execute
run_nothing txn gas = pure (record { success = true; gas_left = gas })

abbrev header : PartialHeader
header = record {
  parent_hash = 0;
  beneficiary = 9;
  state_root = 0;
  receipts_root = 1;
  logs_bloom = 0;
  difficulty = 131_072;
  number = 1;
  gas_limit = 100_000;
  gas_used = 21_000;
  timestamp = 1;
  extra_data = [];
  mix_hash = 0;
  nonce = 0;
  base_fee_per_gas = none;
}

abbrev processor : Processor
processor = record {
  db = genesis;
  rank = rank;
  execute = run_nothing;
  logs_bloom = λ l. 0;
  header = header;
  block_spec = record {
    revision = byzantium;
    active_transitions = [];
    params = record { chain_id = 1; network_id = 1; min_gas_limit = 5000 };
    system_contract_changes = HashMap.empty;
    balance_changes = HashMap.empty;
  };
}

abbrev transfer : MessageWithSender
transfer = record {
  message =
      Message.legacy none 1
        (record { nonce = 0; gas_limit = 30_000; action = call 8; value = 0; input = [] });
  sender = 7;
}

abbrev state_of : {A : Type 0} → Result (A × IntraBlockState) → IntraBlockState
state_of (ok (a, s)) = s
state_of (err e) = new

abbrev value_of : {A : Type 0} → A → Result (A × IntraBlockState) → A
value_of d (ok (a, s)) = a
value_of d (err e) = d

abbrev no_receipt : Receipt
no_receipt = record {
  tx_type = TxType.legacy;
  success = false;
  cumulative_gas_used = 0;
  bloom = 0;
  logs = [];
}

validated : Result (Unit {0} × IntraBlockState)
unfolding validate_transaction get_code_hash get_nonce get_balance get_object
    pre_validate_transaction HashMap.get HashMap.insert HashMap.empty HashSet.contains
    HashSet.insert HashSet.empty pure gets modify lift unwrap ◌>>=◌
validated = validate_transaction processor 0 transfer new

executed : Result (Receipt × IntraBlockState)
unfolding execute_transaction ensure_object update_account is_dead get_code_hash get_nonce
    get_balance get_object get_or_create_object add_to_balance subtract_from_balance set_nonce
    access_account touch destruct_selfdestructs destruct_touched_dead finalize_transaction
    clear_journal_and_substate commit_entries intrinsic_gas effective_gas_price priority_fee_per_gas
    HashMap.get HashMap.insert HashMap.remove HashMap.empty HashSet.contains HashSet.insert
    HashSet.empty HashSet.len pure gets modify lift unwrap ◌>>=◌
executed = execute_transaction processor 0 transfer new

uses_intrinsic_gas : (value_of no_receipt executed).cumulative_gas_used ≡ 21_000
unfolding executed
uses_intrinsic_gas = refl

validate_transaction-MayRun_example : MayRun processor 0 transfer new
unfolding validated
validate_transaction-MayRun_example =
    validate_transaction-MayRun processor 0 transfer new (state_of validated) refl

run_nothing-IsFrugal : IsFrugal processor
run_nothing-IsFrugal txn gas s t res h =
    omega
      (arith, ap (λ r. r.gas_left) (pure-ok (record { success = true; gas_left = gas }) res s t h))

execute_transaction-gas_example :
    (used : ℕ) × ((value_of no_receipt executed).cumulative_gas_used ≡ 0 + used)
    × (used ≤ 30_000)
    × (g0_of processor transfer ≤ 2 * used)
unfolding executed
execute_transaction-gas_example =
    execute_transaction-gas processor 0 transfer new (state_of executed)
      (value_of no_receipt executed) run_nothing-IsFrugal refl (omega arith)

abbrev body : BlockBodyWithSenders
body = record { transactions = transfer ∷ []; ommers = [] }

abbrev root_hash : List Receipt → ℕ
root_hash l = 1

abbrev take_all : List Write → Result (Unit {0})
take_all writes = ok tt

written : Result (List Receipt × IntraBlockState)
unfolding executed validated execute_and_write_block
written = execute_and_write_block processor root_hash (ok (reward 9 5 ∷ [])) take_all body new

execute_and_write_block-ok_example :
    let receipts = value_of [] written in
    (total_gas processor 0 receipts ≡ 21_000)
    × (21_000 ≤ 100_000)
    × IsRising 0 receipts
    × ((at_least rank byzantium byzantium ≡ false) ⊎ (root_hash receipts ≡ 1))
    × (join_blooms processor 0 receipts ≡ 0)
    × (take_all (write_to_db (state_of written) 1) ≡ ok tt)
unfolding written
execute_and_write_block-ok_example =
    execute_and_write_block-ok processor root_hash (ok (reward 9 5 ∷ [])) take_all body new
      (state_of written) (value_of [] written) run_nothing-IsFrugal refl (omega arith)
