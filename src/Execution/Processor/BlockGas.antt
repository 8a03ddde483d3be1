-- ===== src/Execution/Processor/BlockGas.antt =====
-- The gas of a block, and the block that is written.
use akula.Prelude.{ℕ, ◌≤◌, ◌<◌, ◌≡◌, ◌∙◌, false, not, ◌&&◌, List, [], ◌∷◌, ◌==◌, ◌⊎◌, arith}
use akula.Prelude.Words.{u64_mod}
use akula.Errors.{Result, ok}
use akula.State.Delta.{IntraBlockState}
use akula.State.IntraBlock.Writes.{Write, write_to_db}
use akula.State.Monad.{◌>>=◌, gets, lift, bind-ok, pure-ok, lift-ok, pure-keeps, lift-keeps}
use akula.Models.Message.{MessageWithSender}
use akula.Models.Block.{BlockBodyWithSenders}
use akula.Models.Revision.{at_least, byzantium}
use akula.Consensus.Ethash.{FinalizationChange}
use akula.Execution.Processor.{Processor, Receipt, validate_transaction, execute_transaction}
use akula.Execution.Processor.Validity.{validate_transaction-MayRun, bail_if-then}
use akula.Execution.Processor.Gas.{IsFrugal, execute_transaction-gas}
use akula.Execution.Processor.Block.{
  execute_transactions, execute_block_no_post_validation, execute_and_write_block, total_gas,
  join_blooms, change_balances, apply_changes,
}

-- The gas used so far never falls from receipt to receipt.
abbrev pub IsRising : ℕ → List Receipt → Type 0
IsRising last [] = Unit
IsRising last (r ∷ receipts) =
    (last ≤ r.cumulative_gas_used) × IsRising r.cumulative_gas_used receipts

module _ (self : Processor) where
  execute_transactions-gas :
      (cumulative : ℕ) (l : List MessageWithSender) (s t : IntraBlockState)
      (receipts : List Receipt)
      → IsFrugal self
      → execute_transactions self cumulative l s ≡ ok (receipts, t)
      → cumulative ≤ self.header.gas_limit
      → self.header.gas_limit < u64_mod
      → IsRising cumulative receipts × (total_gas self cumulative receipts ≤ self.header.gas_limit)
  unfolding execute_transactions
  execute_transactions-gas cumulative [] s t receipts frugal h le small =
      let empty = pure-ok [] receipts s t h in rw (← empty) (tt, le)
  execute_transactions-gas cumulative (txn ∷ l) s t receipts frugal h le small =
      let (u1, s1, e1, h1) = bind-ok (validate_transaction self cumulative txn) _ s t receipts h in
      let (r, s2, e2, h2) = bind-ok (execute_transaction self cumulative txn) _ s1 t receipts h1 in
      let (rest, s3, e3, h3) =
        bind-ok (execute_transactions self r.cumulative_gas_used l) _ s2 t receipts h2 in
      let joined = pure-ok (r ∷ rest) receipts s3 t h3 in
      let valid = validate_transaction-MayRun self cumulative txn s s1 e1 in
      let room = valid.gas_fits in
      let (used, total, most, least) =
        execute_transaction-gas self cumulative txn s1 s2 r frugal e2 (omega arith) in
      let (rising, fits) =
        execute_transactions-gas r.cumulative_gas_used l s2 s3 rest frugal e3 (omega arith) small in
      rw (← joined) ((omega arith, rising), fits)

  execute_block-gas :
      (finalize : Result (List FinalizationChange)) (block : BlockBodyWithSenders)
      (s t : IntraBlockState) (receipts : List Receipt)
      → IsFrugal self
      → execute_block_no_post_validation self finalize block s ≡ ok (receipts, t)
      → self.header.gas_limit < u64_mod
      → IsRising 0 receipts × (total_gas self 0 receipts ≤ self.header.gas_limit)
  unfolding execute_block_no_post_validation
  execute_block-gas finalize block s t receipts frugal h small =
      let (u1, s1, e1, h1) =
        bind-ok (change_balances self self.block_spec.balance_changes.entries) _ s t receipts h in
      let (all, s2, e2, h2) =
        bind-ok (execute_transactions self 0 block.transactions) _ s1 t receipts h1 in
      let (changes, s3, e3, h3) = bind-ok (lift finalize) _ s2 t receipts h2 in
      let (u4, s4, e4, h4) = bind-ok (apply_changes self changes) _ s3 t receipts h3 in
      let same = pure-ok all receipts s4 t h4 in
      rw (← same)
        (execute_transactions-gas 0 block.transactions s1 s2 all frugal e2 (omega arith) small)

  -- With an interpreter that gives back no more gas than it got, and a gas limit of 64 bits, a block
  -- that is written has used the gas of its header, which is within its limit, the receipts'
  -- gas rises, their root is the header's from Byzantium on, the join of their blooms is the header's, and
  -- the database took the writes of the state that is left.
  pub execute_and_write_block-ok :
      (root_hash : List Receipt → ℕ) (finalize : Result (List FinalizationChange))
      (store : List Write → Result (Unit {0})) (block : BlockBodyWithSenders)
      (s t : IntraBlockState) (receipts : List Receipt)
      → IsFrugal self
      → execute_and_write_block self root_hash finalize store block s ≡ ok (receipts, t)
      → self.header.gas_limit < u64_mod
      → (total_gas self 0 receipts ≡ self.header.gas_used)
        × (self.header.gas_used ≤ self.header.gas_limit)
        × IsRising 0 receipts
        × ((at_least self.rank self.block_spec.revision byzantium ≡ false)
            ⊎ (root_hash receipts ≡ self.header.receipts_root))
        × (join_blooms self 0 receipts ≡ self.header.logs_bloom)
        × (store (write_to_db t self.header.number) ≡ ok tt)
  unfolding execute_and_write_block gets ◌>>=◌
  execute_and_write_block-ok root_hash finalize store block s t receipts frugal h small =
      let (all, s1, e1, h1) =
        bind-ok (execute_block_no_post_validation self finalize block) _ s t receipts h in
      let (used, h2) =
        bail_if-then (not (total_gas self 0 all == self.header.gas_used)) _ _ s1 t receipts h1 in
      let (root, h3) =
        bail_if-then
          (at_least self.rank self.block_spec.revision byzantium
            && not (root_hash all == self.header.receipts_root))
          _ _ s1 t receipts h2 in
      let (bloom, h4) =
        bail_if-then (not (join_blooms self 0 all == self.header.logs_bloom)) _ _ s1 t receipts
          h3 in
      let (u, s2, e5, h5) =
        bind-ok (lift (store (write_to_db s1 self.header.number))) _ s1 t receipts h4 in
      let same_state = lift-keeps _ u s1 s2 e5 ∙ pure-keeps all receipts s2 t h5 in
      let written = lift-ok (store (write_to_db s1 self.header.number)) u s1 s2 e5 in
      let (rising, fits) = execute_block-gas finalize block s s1 all frugal e1 small in
      rw (← pure-ok all receipts s2 t h5)
        (ground arith, ground arith, rising, ground arith, ground arith, rw (← same_state) written)
