-- ===== src/Execution/Evm.antt =====
-- src/execution/evm.rs: the host of the interpreter, which answers its interrupts from the journaled
-- state and runs the calls and creations that it asks for. The tracer and the cache of code analyses,
-- which no result depends on, are left out. The interpreter, Keccak-256, the RLP of a pair and what the
-- precompiled contracts compute are parameters.
pub mod Host
pub mod Interpreter
pub mod Sstore
pub mod Gas
pub mod Depth
pub mod Refunds
mod Examples
use akula.Prelude.{
  ℕ, zero, suc, ◌+◌, ◌-◌, ◌%◌, ◌^◌, min, Bool, true, false, not, ◌&&◌, ◌||◌, Option, none, some,
  List, [], ◌∷◌, ◌++◌, length, take, drop, ltb, leb, ◌==◌, if◌then◌else◌, unwrap_or,
}
use akula.Prelude.Words.{ℤ, pos, as_i64, as_u64, le_ℤ, sub_ℤ, add64, sub64, mul64}
use akula.Prelude.Bytes.{to_be_bytes}
use akula.Errors.{Result, ok, err, database, panicked, ◌>>=◌ as and_then}
use akula.Errors
use akula.State.Interface.{Reader}
use akula.State.Delta.{IntraBlockState}
use akula.State.Object.{empty_hash}
use akula.State.Monad.{Method, ◌>>=◌, ◌>>◌, pure, gets, modify, lift}
use akula.State.IntraBlock
use akula.State.IntraBlock.{AccessStatus, warm}
use akula.State.IntraBlock.Contracts
use akula.State.IntraBlock.Slots
use akula.State.IntraBlock.Slots.{Snapshot}
use akula.Models.Message.{MessageWithSender, TransactionAction, effective_gas_price}
use akula.Models.Message
use akula.Models.Header.{PartialHeader, BlockHeader}
use akula.Models.Revision.{Revision, Rank, at_least, homestead, spurious, london}
use akula.Models.ChainSpec.{BlockExecutionSpec}
use akula.Consensus.Base.{ChainReader}
use akula.Chain.Fee.{g_code_deposit}
use akula.Chain.Param.{max_code_size}
use akula.Execution.Processor.{CallResult}
use akula.Execution.Precompiled.{Precompiled, contract_at, gas_of, number_of_precompiles}
use akula.Execution.Evm.Sstore.{set_storage}
use akula.Execution.Evm.Interpreter.{
  StatusCode, is_success, is_revert, CallKind, is_call, is_delegate_call, EvmMessage, CreateMessage,
  Output, Call, TxContext, Interrupt, Interpret,
}
unfoldable pub use Host.*

module _ (self : Evm) where
  -- What runs the calls and creations that the code asks for.
  module _ (inner : Call → Method Output) where
    -- The loop of `execute`.
    unfoldable pub resume_all : Interrupt → Method Output
    unfolding account_exists get_code_size get_code_hash copy_code selfdestruct access_account
        get_tx_context get_block_hash
    resume_all Interrupt.instruction_start = lift (err panicked)
    resume_all (Interrupt.account_exists address resume) = do
      exists ← account_exists self address
      resume_all (resume exists)
    resume_all (Interrupt.get_balance address resume) = do
      balance ← IntraBlock.get_balance self.db address
      resume_all (resume balance)
    resume_all (Interrupt.get_code_size address resume) = do
      code_size ← get_code_size self address
      resume_all (resume code_size)
    resume_all (Interrupt.get_storage address key resume) = do
      value ← Slots.get_current_storage self.db address key
      resume_all (resume value)
    resume_all (Interrupt.set_storage address key value resume) = do
      status ← set_storage self.rank self.block_spec.revision self.db address key value
      resume_all (resume status)
    resume_all (Interrupt.get_code_hash address resume) = do
      hash ← get_code_hash self address
      resume_all (resume hash)
    resume_all (Interrupt.copy_code address offset max_size resume) = do
      code ← copy_code self address offset max_size
      resume_all (resume code)
    resume_all (Interrupt.selfdestruct address beneficiary resume) = do
      selfdestruct self address beneficiary
      resume_all resume
    resume_all (Interrupt.call request resume) = do
      res ← inner request
      resume_all (resume (answer self request res))
    resume_all (Interrupt.get_tx_context resume) = do
      context ← get_tx_context self
      resume_all (resume context)
    resume_all (Interrupt.get_block_hash block_number resume) = do
      hash ← get_block_hash self block_number
      resume_all (resume hash)
    resume_all (Interrupt.emit_log log resume) = do IntraBlock.add_log log; resume_all resume
    resume_all (Interrupt.access_account address resume) = do
      status ← access_account self address
      resume_all (resume status)
    resume_all (Interrupt.access_storage address key resume) = do
      status ← IntraBlock.access_storage address key
      resume_all (resume status)
    resume_all (Interrupt.complete output) = pure output
    resume_all (Interrupt.failed status_code) = pure (with_status status_code (unused (pos 0)))

    -- `Evm::execute`, which runs code for a message.
    abbrev pub run_code : EvmMessage → List ℕ → Method Output
    run_code message code = resume_all (self.interpret message code)

    -- `create` behind the snapshot.
    unfoldable pub create_at : CreateMessage → ℕ → Method Output
    unfolding deploy resume_all
    create_at message contract_addr = do
      snapshot ← take_snapshot
      Contracts.create_contract self.db contract_addr
      if at self spurious then IntraBlock.set_nonce self.db contract_addr 1 else pure tt
      IntraBlock.subtract_from_balance self.db message.sender message.endowment
      IntraBlock.add_to_balance self.db contract_addr message.endowment
      res ← run_code (deploy_message self message contract_addr) message.initcode
      deployed ← if is_success res.status_code then deploy self contract_addr res else pure res
      settle snapshot (with_address self contract_addr deployed)

    unfoldable pub create : CreateMessage → Method Output
    unfolding create_at create_address create2_address
    create message = do
      balance ← IntraBlock.get_balance self.db message.sender
      if ltb balance message.endowment
          then pure (with_status StatusCode.insufficient_balance (unused message.gas))
          else (do
            nonce ← IntraBlock.get_nonce self.db message.sender
            IntraBlock.set_nonce self.db message.sender (add64 nonce 1)
            status ← IntraBlock.access_account (new_address self message nonce)
            taken_nonce ← IntraBlock.get_nonce self.db (new_address self message nonce)
            taken_hash ←
                if taken_nonce == 0
                then IntraBlock.get_code_hash self.db (new_address self message nonce)
                else pure empty_hash
            if not (taken_nonce == 0) || not (taken_hash == empty_hash)
                then pure (with_status StatusCode.invalid_instruction (unused (pos 0)))
                else create_at message (new_address self message nonce))

    -- `call` behind the snapshot, which a call of an account with no code leaves without its end.
    unfoldable pub call_at : EvmMessage → Option (List ℕ) → Method Output
    unfolding transfer run_precompiled resume_all
    call_at message code = do
      snapshot ← take_snapshot
      transfer self message
      if is_precompiled self message.code_address
          then (do res ← run_precompiled self message (unused message.gas); settle snapshot res)
          else if length (unwrap_or code []) == 0
          then pure (unused message.gas)
          else (do
            code_hash ← IntraBlock.get_code_hash self.db message.code_address
            res ← run_code message (unwrap_or code [])
            settle snapshot res)

    unfoldable pub call : EvmMessage → Method Output
    unfolding call_at is_void_call lacks_balance
    call message = do
      poor ← lacks_balance self message
      if poor then pure (with_status StatusCode.insufficient_balance (unused message.gas)) else (do
        code ←
            if is_precompiled self message.code_address
            then pure none
            else Contracts.get_code self.db message.code_address
        void ← is_void_call self message
        if void then pure (unused message.gas) else call_at message code)

  -- `call` and `create`, nested at self most `fuel` deep. Without fuel the stack overflows.
  unfoldable pub dispatch : ℕ → Call → Method Output
  unfolding call create
  dispatch zero request = lift (err panicked)
  dispatch (suc fuel) (Call.call message) = call (dispatch fuel) message
  dispatch (suc fuel) (Call.create message) = create (dispatch fuel) message

  abbrev pub request_of : MessageWithSender → TransactionAction → ℕ → Call
  request_of txn (TransactionAction.call to) gas = Call.call record {
    kind = CallKind.call;
    is_static = false;
    depth = 0;
    gas = as_i64 gas;
    recipient = to;
    code_address = to;
    sender = txn.sender;
    input_data = Message.input txn.message;
    value = Message.value txn.message;
  }
  request_of txn TransactionAction.create gas = Call.create record {
    salt = none;
    gas = as_i64 gas;
    depth = 0;
    initcode = Message.input txn.message;
    sender = txn.sender;
    endowment = Message.value txn.message;
  }

-- `execute`, with the transaction for which the host is made.
unfoldable pub execute : Evm → MessageWithSender → ℕ → Method CallResult
unfolding dispatch
execute evm txn gas = do
  res ←
      dispatch (record evm { txn = txn }) stack_limit
        (request_of evm txn (Message.action txn.message) gas)
  pure record { success = is_success res.status_code; gas_left = as_u64 res.gas_left }
