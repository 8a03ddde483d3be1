-- ===== src/Execution/Evm/Interpreter.antt =====
-- What src/execution/evm.rs uses of the crate evmodin: messages, outputs, and the interrupts by which
-- the interpreter asks its host. A run of the interpreter is the tree of its interrupts, each with the
-- rest of the run for every answer; it ends on every path, as gas does.
use akula.Prelude.{ℕ, Bool, List, Option}
use akula.Prelude.Words.{ℤ}
use akula.State.Delta.{Log}
use akula.State.IntraBlock.{AccessStatus}

-- `StatusCode`: those that the host names, and any other failure.
pub data StatusCode : Type 0 where
  success revert insufficient_balance invalid_instruction out_of_gas precompile_failure : StatusCode
  contract_validation_failure : StatusCode
  other : (number : ℕ) → StatusCode

-- `status_code == StatusCode::Success` and `status_code != StatusCode::Revert`
abbrev pub is_success : StatusCode → Bool
is_success StatusCode.success = Bool.true
is_success _ = Bool.false

abbrev pub is_revert : StatusCode → Bool
is_revert StatusCode.revert = Bool.true
is_revert _ = Bool.false

pub data CallKind : Type 0 where
  call delegate_call call_code : CallKind

abbrev pub is_call : CallKind → Bool
is_call CallKind.call = Bool.true
is_call _ = Bool.false

abbrev pub is_delegate_call : CallKind → Bool
is_delegate_call CallKind.delegate_call = Bool.true
is_delegate_call _ = Bool.false

-- `evmodin::Message`
pub record EvmMessage : Type 0 where
  pub kind : CallKind
  pub is_static : Bool
  pub depth : ℕ
  pub gas : ℤ
  pub recipient : ℕ
  pub code_address : ℕ
  pub sender : ℕ
  pub input_data : List ℕ
  pub value : ℕ

pub record CreateMessage : Type 0 where
  pub salt : Option ℕ
  pub gas : ℤ
  pub depth : ℕ
  pub initcode : List ℕ
  pub sender : ℕ
  pub endowment : ℕ

pub record Output : Type 0 where
  pub status_code : StatusCode
  pub gas_left : ℤ
  pub output_data : List ℕ
  pub create_address : Option ℕ

pub data Call : Type 0 where
  call : EvmMessage → Call
  create : CreateMessage → Call

pub data StorageStatus : Type 0 where
  unchanged modified modified_again added deleted : StorageStatus

pub record TxContext : Type 0 where
  pub tx_gas_price : ℕ
  pub tx_origin : ℕ
  pub block_coinbase : ℕ
  pub block_number : ℕ
  pub block_timestamp : ℕ
  pub block_gas_limit : ℕ
  pub block_difficulty : ℕ
  pub chain_id : ℕ
  pub block_base_fee : ℕ

-- `InterruptVariant`
pub data Interrupt : Type 0 where
  instruction_start : Interrupt
  account_exists : (address : ℕ) (resume : Bool → Interrupt) → Interrupt
  get_balance : (address : ℕ) (resume : ℕ → Interrupt) → Interrupt
  get_code_size : (address : ℕ) (resume : ℕ → Interrupt) → Interrupt
  get_storage : (address key : ℕ) (resume : ℕ → Interrupt) → Interrupt
  set_storage : (address key value : ℕ) (resume : StorageStatus → Interrupt) → Interrupt
  get_code_hash : (address : ℕ) (resume : ℕ → Interrupt) → Interrupt
  copy_code : (address offset max_size : ℕ) (resume : List ℕ → Interrupt) → Interrupt
  selfdestruct : (address beneficiary : ℕ) (resume : Interrupt) → Interrupt
  call : (request : Call) (resume : Output → Interrupt) → Interrupt
  get_tx_context : (resume : TxContext → Interrupt) → Interrupt
  get_block_hash : (block_number : ℕ) (resume : ℕ → Interrupt) → Interrupt
  emit_log : (log : Log) (resume : Interrupt) → Interrupt
  access_account : (address : ℕ) (resume : AccessStatus → Interrupt) → Interrupt
  access_storage : (address key : ℕ) (resume : AccessStatus → Interrupt) → Interrupt
  complete : (output : Output) → Interrupt
  failed : (status_code : StatusCode) → Interrupt

-- `AnalyzedCode::analyze(code).execute_resumable(false, msg, revision).resume(())`, where the revision
-- of the block is fixed.
abbrev pub Interpret : Type 0
Interpret = EvmMessage → List ℕ → Interrupt
