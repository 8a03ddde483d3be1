-- ===== src/Execution/Evm/Examples.antt =====
-- A host whose code calls another contract once, and instances of the theorems on the host.
use akula.Prelude.{ℕ, zero, suc, ◌+◌, ◌≤◌, ◌≡◌, refl, arith, false, none, some, [], ◌∷◌, length}
use akula.Prelude.Words.{pos, as_u64}
use akula.Errors.{ok}
use akula.HashMap
use akula.State.Interface.{Reader}
use akula.State.Delta.{IntraBlockState}
use akula.State.IntraBlock
use akula.Models.Message.{MessageWithSender, Message, call}
use akula.Models.Header.{PartialHeader}
use akula.Models.Revision.{
  Revision, frontier, homestead, tangerine, spurious, byzantium, constantinople, petersburg,
  istanbul, berlin, london,
}
use akula.Execution.Processor.{Processor}
use akula.Execution.Processor.Gas.{IsFrugal}
use akula.Execution.Evm.{Evm, dispatch, execute, stack_limit}
use akula.Execution.Evm.Interpreter.{StatusCode, CallKind, EvmMessage, Call, Interrupt}
use akula.Execution.Evm.Gas.{Frugal, execute-IsFrugal}
use akula.Execution.Evm.Depth.{Nested, dispatch-stack_limit}
use akula.Execution.Evm.Refunds.{held, write_all, last_of, write_all-held}

abbrev rank : Revision → ℕ
rank frontier = 0
rank homestead = 1
rank tangerine = 2
rank spurious = 3
rank byzantium = 4
rank constantinople = 5
rank petersburg = 6
rank istanbul = 7
rank berlin = 8
rank london = 9

abbrev no_accounts : Reader
no_accounts = record {
  read_account = λ a. ok none;
  read_code = λ h. ok [];
  read_storage = λ a k. ok 0;
}

abbrev header : PartialHeader
header = record {
  parent_hash = 0;
  beneficiary = 9;
  state_root = 0;
  receipts_root = 1;
  logs_bloom = 0;
  difficulty = 131_072;
  number = 1;
  gas_limit = 100_000;
  gas_used = 21_000;
  timestamp = 1;
  extra_data = [];
  mix_hash = 0;
  nonce = 0;
  base_fee_per_gas = none;
}

abbrev transaction : MessageWithSender
transaction = record {
  message =
      Message.legacy none 1
        (record { nonce = 0; gas_limit = 30_000; action = call 8; value = 0; input = [] });
  sender = 7;
}

abbrev nested_message : ℕ → EvmMessage
nested_message depth = record {
  kind = CallKind.call;
  is_static = false;
  depth = depth;
  gas = pos 100;
  recipient = 20;
  code_address = 20;
  sender = 8;
  input_data = [];
  value = 0;
}

abbrev done : EvmMessage → Interrupt
done m = Interrupt.complete (record {
  status_code = StatusCode.success;
  gas_left = m.gas;
  output_data = [];
  create_address = none;
})

-- Code at depth 0 calls another contract, and that one writes a slot.
abbrev run_at : ℕ → EvmMessage → Interrupt
run_at zero m = Interrupt.call (Call.call (nested_message 1)) (λ res. done m)
run_at (suc depth) m = Interrupt.set_storage m.recipient 1 2 (λ status. done m)

abbrev evm : Evm
evm = record {
  db = no_accounts;
  chain = record { read_header = λ n h. ok none; read_body = λ n h. ok none };
  rank = rank;
  header = header;
  block_spec = record {
    revision = byzantium;
    active_transitions = [];
    params = record { chain_id = 1; network_id = 1; min_gas_limit = 5000 };
    system_contract_changes = HashMap.empty;
    balance_changes = HashMap.empty;
  };
  txn = transaction;
  interpret = λ m code. run_at m.depth m;
  keccak256 = λ bytes. length bytes;
  rlp_encode = λ a b. a ∷ b ∷ [];
  run = λ contract input. some input;
}

run_at-Frugal : (depth : ℕ) (m : EvmMessage) → Frugal (as_u64 m.gas) (run_at depth m)
run_at-Frugal zero m = λ res spared. omega arith
run_at-Frugal (suc depth) m = λ status. omega arith

abbrev processor : Processor
processor = record {
  db = no_accounts;
  rank = rank;
  execute = execute evm;
  logs_bloom = λ l. 0;
  header = header;
  block_spec = evm.block_spec;
}

execute-IsFrugal_example : IsFrugal processor
execute-IsFrugal_example = execute-IsFrugal evm (λ m code. run_at-Frugal m.depth m) processor refl

run_at-Nested : (depth : ℕ) (m : EvmMessage) → Nested depth (run_at depth m)
run_at-Nested zero m = (omega arith, omega arith, λ res. tt)
run_at-Nested (suc depth) m = λ status. tt

dispatch-stack_limit_example :
    dispatch evm (7 + stack_limit) (Call.call (nested_message 0)) IntraBlock.new
    ≡ dispatch evm stack_limit (Call.call (nested_message 0)) IntraBlock.new
dispatch-stack_limit_example =
    dispatch-stack_limit evm (λ m code. run_at-Nested m.depth m) 7 (Call.call (nested_message 0))
      IntraBlock.new refl

-- A slot is cleared, written again, and set to what it was.
write_all-held_example :
    (t : IntraBlockState) × (write_all rank istanbul 5 5 (0 ∷ 9 ∷ 5 ∷ []) IntraBlock.new
      ≡ ok (tt, t))
    × (0 + held rank istanbul 5 (last_of rank istanbul 5 (0 ∷ 9 ∷ 5 ∷ [])) ≤ t.refund)
write_all-held_example =
    write_all-held rank istanbul 5 5 0 (0 ∷ 9 ∷ 5 ∷ []) IntraBlock.new (omega arith) (omega arith)
