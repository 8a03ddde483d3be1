-- ===== src/Consensus/Transaction.antt =====
-- src/consensus/mod.rs, `pre_validate_transaction`.
use akula.Prelude.{ℕ, ◌≤◌, ◌≡◌, ◌↔◌, Bool, false, not, Option, none, some, ltb, ◌==◌, arith}
use akula.Errors.{
  Result, ok, wrong_chain_id, max_fee_less_than_base, max_priority_fee_greater_than_max, bail_if,
  ◌>>◌,
}
use akula.Models.Message.{Message, chain_id, max_fee_per_gas, max_priority_fee_per_gas}

abbrev pub other_chain : Option ℕ → ℕ → Bool
other_chain none canonical_chain_id = false
other_chain (some chain_id) canonical_chain_id = not (chain_id == canonical_chain_id)

abbrev pub below_base : ℕ → Option ℕ → Bool
below_base max_fee none = false
below_base max_fee (some base_fee_per_gas) = ltb max_fee base_fee_per_gas

unfoldable pub pre_validate_transaction : Message → ℕ → Option ℕ → Result (Unit {0})
pre_validate_transaction txn canonical_chain_id base_fee_per_gas = do
  bail_if (other_chain (chain_id txn) canonical_chain_id) wrong_chain_id
  bail_if (below_base (max_fee_per_gas txn) base_fee_per_gas) max_fee_less_than_base
  bail_if (ltb (max_fee_per_gas txn) (max_priority_fee_per_gas txn))
      max_priority_fee_greater_than_max

abbrev pub IsOnChain : Option ℕ → ℕ → Type 0
IsOnChain none id = Unit
IsOnChain (some c) id = c ≡ id

abbrev pub Covers : ℕ → Option ℕ → Type 0
Covers max_fee none = Unit
Covers max_fee (some b) = b ≤ max_fee

other_chain_lem : (o : Option ℕ) (id : ℕ) → (other_chain o id ≡ false) ↔ IsOnChain o id
other_chain_lem none id = ground arith
other_chain_lem (some c) id = ground arith

below_base_lem : (fee : ℕ) (o : Option ℕ) → (below_base fee o ≡ false) ↔ Covers fee o
below_base_lem fee none = ground arith
below_base_lem fee (some b) = ground arith

-- A transaction passes exactly if it names no other chain, its fee cap covers the base fee, and its tip
-- is no more than the cap.
pub pre_validate_transaction_lem :
    (txn : Message) (id : ℕ) (base : Option ℕ)
    → (pre_validate_transaction txn id base ≡ ok tt) ↔ (
        IsOnChain (chain_id txn) id
        × Covers (max_fee_per_gas txn) base
        × (max_priority_fee_per_gas txn ≤ max_fee_per_gas txn))
unfolding pre_validate_transaction
pre_validate_transaction_lem txn id base =
    ground (arith, other_chain_lem (chain_id txn) id, below_base_lem (max_fee_per_gas txn) base)
