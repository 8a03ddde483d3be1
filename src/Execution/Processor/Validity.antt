-- ===== src/Execution/Processor/Validity.antt =====
-- What a transaction that passes `validate_transaction` has.
use akula.Prelude.{ℕ, ◌+◌, ◌*◌, ◌≤◌, ◌≡◌, refl, ap, ◌∙◌, Bool, true, false, not, ltb, ◌==◌, arith}
use akula.Errors.{ValidationError, Result, ok, err}
use akula.State.Object.{empty_hash}
use akula.State.Delta.{IntraBlockState}
use akula.State.Monad.{Method, ◌>>=◌, ◌>>◌, pure, lift, bind-ok}
use akula.State.IntraBlock.{get_code_hash, get_nonce, get_balance}
use akula.Models.Message.{
  MessageWithSender, chain_id, nonce, gas_limit, value, max_fee_per_gas, max_priority_fee_per_gas,
}
use akula.Consensus.Transaction.{
  pre_validate_transaction, pre_validate_transaction_lem, IsOnChain, Covers,
}
use akula.Execution.Processor.{Processor, bail_if, expect, available_gas, validate_transaction}

pub bail_if-then :
    {B : Type 0} (test : Bool) (e : ValidationError) (k : Method B) (s t : IntraBlockState) (b : B)
    → (bail_if test e >> k) s ≡ ok (b, t)
    → (test ≡ false) × (k s ≡ ok (b, t))
unfolding ◌>>=◌ lift
bail_if-then true e k s t b h = absurd (ground arith)
bail_if-then false e k s t b h = (refl, h)

bail_if-last :
    (test : Bool) (e : ValidationError) (s t : IntraBlockState)
    → bail_if test e s ≡ ok (tt, t)
    → (test ≡ false) × (s ≡ t)
unfolding lift
bail_if-last true e s t h = absurd (ground arith)
bail_if-last false e s t h = (refl, ground arith)

expect-then :
    {B : Type 0} (r : Result (Unit {0})) (k : Method B) (s t : IntraBlockState) (b : B)
    → (expect r >> k) s ≡ ok (b, t)
    → (r ≡ ok tt) × (k s ≡ ok (b, t))
unfolding ◌>>=◌ lift pure
expect-then (ok u) k s t b h = (refl, h)
expect-then (err e) k s t b h = absurd (ground arith)

-- The sender's nonce and balance as they are read, and what the transaction needs of them.
pub record MayRun (self : Processor) (cumulative : ℕ) (tx : MessageWithSender) (s : IntraBlockState)
    : Type 0 where
  pub on_chain : IsOnChain (chain_id tx.message) self.block_spec.params.chain_id
  pub covers_base : Covers (max_fee_per_gas tx.message) self.header.base_fee_per_gas
  pub tip_fits : max_priority_fee_per_gas tx.message ≤ max_fee_per_gas tx.message
  pub s1 : IntraBlockState
  pub no_code : get_code_hash self.db tx.sender s ≡ ok (empty_hash, s1)
  pub s2 : IntraBlockState
  pub next_nonce : get_nonce self.db tx.sender s1 ≡ ok (nonce tx.message, s2)
  pub balance : ℕ
  pub s3 : IntraBlockState
  pub has_balance : get_balance self.db tx.sender s2 ≡ ok (balance, s3)
  pub can_pay : gas_limit tx.message * max_fee_per_gas tx.message + value tx.message ≤ balance
  pub gas_fits : gas_limit tx.message ≤ available_gas self cumulative

-- A transaction that passes is on the chain and covers the base fee, its sender has no code, has the
-- transaction's nonce and can pay the value and all the gas at the highest price, and the block has
-- room for its gas.
pub validate_transaction-MayRun :
    (self : Processor) (cumulative : ℕ) (tx : MessageWithSender) (s t : IntraBlockState)
    → validate_transaction self cumulative tx s ≡ ok (tt, t)
    → MayRun self cumulative tx s
unfolding validate_transaction
validate_transaction-MayRun self cumulative tx s t h =
    let m = tx.message in
    let (pre, h1) =
      expect-then
        (pre_validate_transaction m self.block_spec.params.chain_id self.header.base_fee_per_gas) _
        s t tt h in
    let (code, s1, read_code, h2) = bind-ok (get_code_hash self.db tx.sender) _ s t tt h1 in
    let (no_code, h3) = bail_if-then (not (code == empty_hash)) _ _ s1 t tt h2 in
    let (n, s2, read_nonce, h4) = bind-ok (get_nonce self.db tx.sender) _ s1 t tt h3 in
    let (next, h5) = bail_if-then (not (n == nonce m)) _ _ s2 t tt h4 in
    let (balance, s3, read_balance, h6) = bind-ok (get_balance self.db tx.sender) _ s2 t tt h5 in
    let (pays, h7) =
      bail_if-then (ltb balance (gas_limit m * max_fee_per_gas m + value m)) _ _ s3 t tt h6 in
    let (room, same) = bail_if-last (ltb (available_gas self cumulative) (gas_limit m)) _ s3 t h7 in
    let (on_chain, covers, tip) = (pre_validate_transaction_lem m _ _).0 pre in
    record {
      on_chain = on_chain;
      covers_base = covers;
      tip_fits = tip;
      s1 = s1;
      no_code = read_code ∙ ap (λ c. ok (c, s1)) (ground arith);
      s2 = s2;
      next_nonce = read_nonce ∙ ap (λ c. ok (c, s2)) (ground arith);
      balance = balance;
      s3 = s3;
      has_balance = read_balance;
      can_pay = ground arith;
      gas_fits = ground arith;
    }
