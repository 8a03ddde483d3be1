-- ===== src/Models/Message/Prices.antt =====
-- The price that a transaction pays for its gas.
use akula.Prelude.{ℕ, ◌-◌, ◌+◌, ◌≤◌, ◌<◌, ◌^◌, ◌≡◌, min, arith}
use akula.Errors.{ok}
use akula.Models.Message.{
  Message, max_fee_per_gas, max_priority_fee_per_gas, priority_fee_per_gas, effective_gas_price,
}

-- A transaction whose fee cap is a 256-bit word and no lower than the base fee is charged a price
-- between the base fee and its cap, at most its tip over the base fee, and the price is the base fee
-- and the miner's share together.
pub effective_gas_price_bounds :
    (m : Message) (base : ℕ)
    → max_fee_per_gas m < 2 ^ 256
    → base ≤ max_fee_per_gas m
    → (tip : ℕ) × (priority_fee_per_gas m base ≡ ok tip)
      × (effective_gas_price m base ≡ ok (base + tip))
      × (base + tip ≤ max_fee_per_gas m)
      × (tip ≤ max_priority_fee_per_gas m)
unfolding effective_gas_price
effective_gas_price_bounds m base small h = (
  min (max_priority_fee_per_gas m) (max_fee_per_gas m - base),
  ground arith,
  ground arith,
  omega arith,
  omega arith,
)
