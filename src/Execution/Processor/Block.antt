-- ===== src/Execution/Processor/Block.antt =====
-- src/execution/processor.rs: the execution of a block. The rewards of the engine, the root of the
-- receipts and the database that takes the writes are parameters. The text that an error's context adds is left
-- out.
use akula.Prelude.{ℕ, not, ◌&&◌, List, [], ◌∷◌, ◌==◌, suc}
use Prim.Native.Nat.{bit_or}
use akula.Prelude.Words.{sub64}
use akula.Errors.{ValidationError, Result}
use akula.State.Monad.{Method, ◌>>=◌, ◌>>◌, pure, gets, lift}
use akula.State.IntraBlock.Writes.{Write, write_to_db}
use akula.State.IntraBlock.{set_balance, add_to_balance}
use akula.Models.Message.{MessageWithSender}
use akula.Models.Block.{BlockBodyWithSenders}
use akula.Models.Revision.{byzantium, at_least}
use akula.Consensus.Ethash.{FinalizationChange, reward}
use akula.Execution.Processor.{
  Processor, Receipt, bail_if, validate_transaction, execute_transaction,
}

module _ (self : Processor) where
  unfoldable pub change_balances : List (ℕ × ℕ) → Method (Unit {0})
  change_balances [] = pure tt
  change_balances ((address, balance) ∷ l) = do
    set_balance self.db address balance
    change_balances l

  unfoldable pub execute_transactions : ℕ → List MessageWithSender → Method (List Receipt)
  execute_transactions cumulative_gas_used [] = pure []
  execute_transactions cumulative_gas_used (txn ∷ transactions) = do
    validate_transaction self cumulative_gas_used txn
    receipt ← execute_transaction self cumulative_gas_used txn
    receipts ← execute_transactions receipt.cumulative_gas_used transactions
    pure (receipt ∷ receipts)

  unfoldable pub apply_changes : List FinalizationChange → Method (Unit {0})
  apply_changes [] = pure tt
  apply_changes (reward address amount ∷ l) = do
    add_to_balance self.db address amount
    apply_changes l

  unfoldable pub execute_block_no_post_validation :
      (finalize : Result (List FinalizationChange)) → BlockBodyWithSenders → Method (List Receipt)
  unfolding change_balances execute_transactions apply_changes
  execute_block_no_post_validation finalize block = do
    change_balances self.block_spec.balance_changes.entries
    receipts ← execute_transactions 0 block.transactions
    changes ← lift finalize
    apply_changes changes
    pure receipts

  -- `receipts.last().map(|r| r.cumulative_gas_used).unwrap_or(0)`, from the gas of the last one before.
  abbrev pub total_gas : ℕ → List Receipt → ℕ
  total_gas last [] = last
  total_gas last (r ∷ receipts) = total_gas r.cumulative_gas_used receipts

  abbrev pub gas_of_each : ℕ → ℕ → List Receipt → List (ℕ × ℕ)
  gas_of_each i last_gas_used [] = []
  gas_of_each i last_gas_used (r ∷ receipts) =
      (i, sub64 r.cumulative_gas_used last_gas_used)
      ∷ gas_of_each (suc i) r.cumulative_gas_used receipts

  abbrev pub join_blooms : ℕ → List Receipt → ℕ
  join_blooms bloom [] = bloom
  join_blooms bloom (r ∷ receipts) = join_blooms (bit_or bloom r.bloom) receipts

  unfoldable pub execute_and_write_block :
      (root_hash : List Receipt → ℕ) (finalize : Result (List FinalizationChange))
      (store : List Write → Result (Unit {0}))
      → BlockBodyWithSenders
      → Method (List Receipt)
  unfolding execute_block_no_post_validation
  execute_and_write_block root_hash finalize store block = do
    receipts ← execute_block_no_post_validation finalize block
    bail_if (not (total_gas 0 receipts == self.header.gas_used)) (
        ValidationError.wrong_block_gas self.header.gas_used (total_gas 0 receipts)
          (gas_of_each 0 0 receipts))
    bail_if
        (at_least self.rank self.block_spec.revision byzantium
          && not (root_hash receipts == self.header.receipts_root))
        (ValidationError.wrong_receipts_root (root_hash receipts) self.header.receipts_root)
    bail_if (not (join_blooms 0 receipts == self.header.logs_bloom))
        (ValidationError.wrong_logs_bloom (join_blooms 0 receipts) self.header.logs_bloom)
    written ← gets (λ s. store (write_to_db s self.header.number))
    lift written
    pure receipts
