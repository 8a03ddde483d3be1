-- ===== src/Execution/Processor.antt =====
-- src/execution/processor.rs: a transaction is checked, paid for, run and settled. The interpreter, the
-- bloom of the logs, the order of the revisions and the database are parameters; the tracer and the
-- cache of code analyses, which no result depends on, are left out.
pub mod Block
pub mod Gas
pub mod BlockGas
pub mod Validity
use akula.Prelude.{
  ℕ, ◌+◌, ◌-◌, ◌*◌, ◌/◌, ◌%◌, ◌^◌, Bool, true, false, not, Option, none, some, List, [], ◌∷◌, min,
  ltb, leb, ◌==◌, if◌then◌else◌, unwrap_or,
}
use mathlib.Core.List.{reverse}
use akula.Prelude.Words.{u64_mod, add64, sub64, mul256}
use akula.HashMap
use akula.HashMap.{HashMap}
use akula.HashSet
use akula.Errors.{ValidationError, Error, Result, ok, err, validation, panicked}
use akula.Errors
use akula.State.Interface.{Reader}
use akula.State.Object.{empty_hash}
use akula.State.Delta.{IntraBlockState, Log}
use akula.State.Monad.{Method, ◌>>=◌, ◌>>◌, pure, gets, modify, lift}
use akula.State.IntraBlock.{
  access_account, access_storage, get_code_hash, get_nonce, get_balance, set_balance,
  add_to_balance, subtract_from_balance, set_nonce,
}
use akula.State.IntraBlock.Contracts.{destruct_selfdestructs, destruct_touched_dead}
use akula.State.IntraBlock.Slots.{finalize_transaction, clear_journal_and_substate}
use akula.Models.Message.{
  MessageWithSender, TxType, TransactionAction, AccessListItem, call, create, tx_type, action,
  nonce, gas_limit, value, access_list, max_fee_per_gas, priority_fee_per_gas, effective_gas_price,
}
use akula.Models.Header.{PartialHeader}
use akula.Models.Revision.{Revision, Rank, at_least, homestead, spurious, istanbul, london}
use akula.Models.ChainSpec.{BlockExecutionSpec}
use akula.Consensus.Transaction.{pre_validate_transaction}
use akula.Chain.Fee.{r_self_destruct}
use akula.Chain.Param.{max_refund_quotient_frontier, max_refund_quotient_london}
use akula.Chain.IntrinsicGas.{intrinsic_gas}

pub record Receipt : Type 0 where
  pub tx_type : TxType
  pub success : Bool
  pub cumulative_gas_used : ℕ
  pub bloom : ℕ
  pub logs : List Log

-- `CallResult` of src/execution/evm.rs: whether the status is a success, and the gas that is left.
pub record CallResult : Type 0 where
  pub success : Bool
  pub gas_left : ℕ

-- `evm::execute` with the transaction and the gas that it may use.
abbrev pub Execute : Type 0
Execute = MessageWithSender → ℕ → Method CallResult

-- `if test { return Err(error.into()); }`
abbrev pub bail_if : Bool → ValidationError → Method (Unit {0})
bail_if test e = lift (Errors.bail_if test e)

-- `Result::expect`
abbrev pub expect : Result (Unit {0}) → Method (Unit {0})
expect (ok u) = pure u
expect (err e) = lift (err panicked)

-- What a processor holds while it runs, without its state and the gas used so far.
pub record Processor : Type 0 where
  pub db : Reader
  pub rank : Rank
  pub execute : Execute
  pub logs_bloom : List Log → ℕ
  pub header : PartialHeader
  pub block_spec : BlockExecutionSpec

module _ (self : Processor) where
  abbrev pub available_gas : ℕ → ℕ
  available_gas cumulative_gas_used = sub64 self.header.gas_limit cumulative_gas_used

  abbrev pub base_fee : ℕ
  base_fee = unwrap_or self.header.base_fee_per_gas 0

  -- The products and sums of 512-bit words do not wrap.
  unfoldable pub validate_transaction : ℕ → MessageWithSender → Method (Unit {0})
  validate_transaction cumulative_gas_used tx =
      let m = tx.message in
      let v0 = gas_limit m * max_fee_per_gas m + value m in
      let available_gas = available_gas cumulative_gas_used in
      do
        expect (
            pre_validate_transaction m self.block_spec.params.chain_id self.header.base_fee_per_gas)
        code_hash ← get_code_hash self.db tx.sender
        bail_if (not (code_hash == empty_hash)) (ValidationError.sender_no_eoa tx.sender)
        expected_nonce ← get_nonce self.db tx.sender
        bail_if (not (expected_nonce == nonce m))
            (ValidationError.wrong_nonce tx.sender expected_nonce (nonce m))
        available_balance ← get_balance self.db tx.sender
        bail_if (ltb available_balance v0)
            (ValidationError.insufficient_funds tx.sender available_balance v0)
        bail_if (ltb available_gas (gas_limit m))
            (ValidationError.block_gas_limit_exceeded available_gas (gas_limit m))

  -- What `refund_gas` adds to the gas that is left.
  abbrev pub refund_of : IntraBlockState → ℕ → ℕ → ℕ
  refund_of s gas_limit gas_left =
      let rev = self.block_spec.revision in
      let is_london = at_least self.rank rev london in
      let refund =
        (if is_london
          then s.refund
          else add64 s.refund (r_self_destruct * HashSet.len s.self_destructs % u64_mod)) in
      let max_refund_quotient =
        (if is_london then max_refund_quotient_london else max_refund_quotient_frontier) in
      min refund (sub64 gas_limit gas_left / max_refund_quotient)

  unfoldable pub refund_gas : MessageWithSender → ℕ → Method ℕ
  refund_gas txn gas_left = do
    refund ← gets (λ s. refund_of s (gas_limit txn.message) gas_left)
    effective_gas_price ← lift (effective_gas_price txn.message base_fee)
    add_to_balance self.db txn.sender (mul256 (add64 gas_left refund) effective_gas_price)
    pure (add64 gas_left refund)

  -- The sender's nonce of a call; the interpreter raises that of a creation.
  unfoldable pub begin_call : MessageWithSender → TransactionAction → Method (Unit {0})
  begin_call txn (call to) = do
    status ← access_account to
    set_nonce self.db txn.sender (add64 (nonce txn.message) 1)
  begin_call txn create = pure tt

  unfoldable pub access_slots : ℕ → List ℕ → Method (Unit {0})
  access_slots address [] = pure tt
  access_slots address (key ∷ slots) = do
    status ← access_storage address key
    access_slots address slots

  unfoldable pub access_entries : List AccessListItem → Method (Unit {0})
  unfolding access_slots
  access_entries [] = pure tt
  access_entries (entry ∷ l) = do
    status ← access_account entry.address
    access_slots entry.address entry.slots
    access_entries l

  -- The gas for the interpreter, which counts it in a signed 64-bit word.
  abbrev pub execution_gas : MessageWithSender → Result ℕ
  execution_gas txn =
      let rev = self.block_spec.revision in
      let g0 =
        intrinsic_gas txn.message (at_least self.rank rev homestead)
          (at_least self.rank rev istanbul) in
      let gas = gas_limit txn.message - g0 in
      if ltb (gas_limit txn.message) g0
      then err (validation ValidationError.intrinsic_gas)
      else if ltb gas u64_mod
      then ok gas
      else err panicked

  -- Up to the call of the interpreter: what the sender pays in advance.
  unfoldable pub buy_gas : MessageWithSender → Method (Unit {0})
  unfolding begin_call access_entries
  buy_gas txn = do
    modify clear_journal_and_substate
    status ← access_account txn.sender
    effective_gas_price ← lift (effective_gas_price txn.message base_fee)
    subtract_from_balance self.db txn.sender (mul256 (gas_limit txn.message) effective_gas_price)
    begin_call txn (action txn.message)
    access_entries (access_list txn.message)

  -- From the refund to the commit of the transaction.
  unfoldable pub settle : MessageWithSender → CallResult → Method ℕ
  unfolding refund_gas
  settle txn vm_res = do
    gas_left ← refund_gas txn vm_res.gas_left
    priority_fee_per_gas ← lift (priority_fee_per_gas txn.message base_fee)
    add_to_balance self.db self.header.beneficiary
        (mul256 (sub64 (gas_limit txn.message) gas_left) priority_fee_per_gas)
    destruct_selfdestructs self.db
    if at_least self.rank self.block_spec.revision spurious
        then destruct_touched_dead self.db
        else pure tt
    modify finalize_transaction
    pure (sub64 (gas_limit txn.message) gas_left)

  -- The gas used so far is that of the receipt afterwards.
  unfoldable pub execute_transaction : ℕ → MessageWithSender → Method Receipt
  unfolding buy_gas settle
  execute_transaction cumulative_gas_used txn = do
    buy_gas txn
    gas ← lift (execution_gas txn)
    vm_res ← self.execute txn gas
    gas_used ← settle txn vm_res
    logs ← gets (λ s. reverse s.logs)
    pure record {
      tx_type = tx_type txn.message;
      success = vm_res.success;
      cumulative_gas_used = add64 cumulative_gas_used gas_used;
      bloom = self.logs_bloom logs;
      logs = logs;
    }
