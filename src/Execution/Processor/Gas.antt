-- ===== src/Execution/Processor/Gas.antt =====
-- The gas that a transaction and a block use.
use akula.Prelude.{ℕ, ◌+◌, ◌-◌, ◌*◌, ◌/◌, ◌≤◌, ◌<◌, ◌≡◌, sym, ap, ◌∙◌, if◌then◌else◌, arith}
use akula.Prelude.Words.{u64_mod, add64, sub64, mul256}
use mathlib.Core.List.{reverse}
use akula.Chain.IntrinsicGas.{intrinsic_gas}
use akula.Errors.{ok}
use akula.State.Delta.{IntraBlockState}
use akula.State.Monad.{◌>>=◌, gets, modify, lift, bind-ok, pure-ok, lift-ok}
use akula.State.IntraBlock.{add_to_balance}
use akula.State.IntraBlock.Contracts.{destruct_selfdestructs}
use akula.State.IntraBlock.Slots.{finalize_transaction}
use akula.Models.Message.{MessageWithSender, gas_limit, effective_gas_price, priority_fee_per_gas}
use akula.Models.Revision.{at_least, london, homestead, istanbul}
use akula.Execution.Processor.{
  Processor, Receipt, CallResult, execute_transaction, refund_of, refund_gas, buy_gas, settle,
  execution_gas, base_fee,
}

module _ (self : Processor) where
  -- What can be refunded of the gas used.
  abbrev pub refund_share : ℕ → ℕ
  refund_share gas_used =
      if at_least self.rank self.block_spec.revision london then gas_used / 5 else gas_used / 2

  refund_share-le : (x : ℕ) → refund_share x ≤ x / 2
  refund_share-le x = ground arith

  refund_of-bound :
      (s : IntraBlockState) (limit left : ℕ)
      → limit < u64_mod
      → left ≤ limit
      → refund_of self s limit left ≤ refund_share (limit - left)
  refund_of-bound s limit left small le = ground arith

  refund_gas-ok :
      (txn : MessageWithSender) (left : ℕ) (s t : IntraBlockState) (g : ℕ)
      → refund_gas self txn left s ≡ ok (g, t)
      → gas_limit txn.message < u64_mod
      → left ≤ gas_limit txn.message
      → (left ≤ g) × (g ≤ left + refund_share (gas_limit txn.message - left))
  unfolding refund_gas gets ◌>>=◌
  refund_gas-ok txn left s t g h small le =
      let limit = gas_limit txn.message in
      let refund = refund_of self s limit left in
      let (price, s1, e1, h1) =
        bind-ok (lift (effective_gas_price txn.message (base_fee self))) _ s t g h in
      let (u, s2, e2, h2) =
        bind-ok (add_to_balance self.db txn.sender (mul256 (add64 left refund) price)) _ s1 t g
          h1 in
      let total = pure-ok (add64 left refund) g s2 t h2 in
      let bound = refund_of-bound s limit left small le in
      let half = refund_share-le (limit - left) in (omega arith, omega arith)

  settle-ok :
      (txn : MessageWithSender) (res : CallResult) (s t : IntraBlockState) (used : ℕ)
      → settle self txn res s ≡ ok (used, t)
      → gas_limit txn.message < u64_mod
      → res.gas_left ≤ gas_limit txn.message
      → (used + res.gas_left ≤ gas_limit txn.message)
        × (gas_limit txn.message - res.gas_left
            ≤ used + refund_share (gas_limit txn.message - res.gas_left))
  unfolding settle
  settle-ok txn res s t used h small le =
      let limit = gas_limit txn.message in
      let (left, s1, e1, h1) = bind-ok (refund_gas self txn res.gas_left) _ s t used h in
      let (price, s2, e2, h2) =
        bind-ok (lift (priority_fee_per_gas txn.message (base_fee self))) _ s1 t used h1 in
      let (u3, s3, e3, h3) =
        bind-ok (add_to_balance self.db self.header.beneficiary (mul256 (sub64 limit left) price)) _
          s2 t used h2 in
      let (u4, s4, e4, h4) = bind-ok (destruct_selfdestructs self.db) _ s3 t used h3 in
      let (u5, s5, e5, h5) = bind-ok _ _ s4 t used h4 in
      let (u6, s6, e6, h6) = bind-ok (modify finalize_transaction) _ s5 t used h5 in
      let total = pure-ok (sub64 limit left) used s6 t h6 in
      let (more, less) = refund_gas-ok txn res.gas_left s s1 left e1 small le in
      let half = refund_share-le (limit - res.gas_left) in (omega arith, omega arith)

  -- The interpreter gives back no more gas than it was given.
  abbrev pub IsFrugal : Type 0
  IsFrugal =
      (txn : MessageWithSender) (gas : ℕ) (s t : IntraBlockState) (res : CallResult)
      → self.execute txn gas s ≡ ok (res, t)
      → res.gas_left ≤ gas

  abbrev pub g0_of : MessageWithSender → ℕ
  g0_of txn =
      let rev = self.block_spec.revision in
      intrinsic_gas txn.message (at_least self.rank rev homestead) (at_least self.rank rev istanbul)

  execution_gas-ok :
      (txn : MessageWithSender) (gas : ℕ)
      → execution_gas self txn ≡ ok gas
      → gas + g0_of txn ≡ gas_limit txn.message
  execution_gas-ok txn gas h = ground arith

  -- A transaction that is executed uses no more gas than its limit and, for an interpreter that gives
  -- back no more than it got, at least half of its intrinsic gas; the receipt adds what it used to the
  -- gas used before it, where that and the limit together fit 64 bits.
  pub execute_transaction-gas :
      (cumulative : ℕ) (txn : MessageWithSender) (s t : IntraBlockState) (receipt : Receipt)
      → IsFrugal
      → execute_transaction self cumulative txn s ≡ ok (receipt, t)
      → cumulative + gas_limit txn.message < u64_mod
      → (used : ℕ) × (receipt.cumulative_gas_used ≡ cumulative + used)
        × (used ≤ gas_limit txn.message)
        × (g0_of txn ≤ 2 * used)
  unfolding execute_transaction
  execute_transaction-gas cumulative txn s t receipt frugal h small =
      let limit = gas_limit txn.message in
      let (u1, s1, e1, h1) = bind-ok (buy_gas self txn) _ s t receipt h in
      let (gas, s2, e2, h2) = bind-ok (lift (execution_gas self txn)) _ s1 t receipt h1 in
      let (res, s3, e3, h3) = bind-ok (self.execute txn gas) _ s2 t receipt h2 in
      let (used, s4, e4, h4) = bind-ok (settle self txn res) _ s3 t receipt h3 in
      let (logs, s5, e5, h5) = bind-ok (gets (λ s. reverse s.logs)) _ s4 t receipt h4 in
      let bought = execution_gas-ok txn gas (lift-ok (execution_gas self txn) gas s1 s2 e2) in
      let left = frugal txn gas s2 s3 res e3 in
      let (most, least) = settle-ok txn res s3 s4 used e4 (omega arith) (omega arith) in
      let half = refund_share-le (limit - res.gas_left) in
      let total = ap (λ r. r.cumulative_gas_used) (pure-ok _ receipt s5 t h5) in
      (used, sym total ∙ omega arith, omega arith, omega arith)
