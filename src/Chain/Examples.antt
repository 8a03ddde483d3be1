-- ===== src/Chain/Examples.antt =====
-- Instances of the theorems on the intrinsic gas.
use akula.Prelude.{◌≡◌, ◌<◌, true, [], ◌∷◌, arith, refl}
use akula.Prelude.Words.{u128_mod}
use akula.Models.Message.{Message, create}
use akula.Chain.IntrinsicGas.{intrinsic_gas, intrinsic_gas_lem, intrinsic_gas_bound, g0}

-- A creation with three bytes of input and two storage keys in its access list.
abbrev creation : Message
creation =
    Message.eip2930 1 10 (record { address = 9; slots = 1 ∷ 2 ∷ [] } ∷ []) (record {
      nonce = 0;
      gas_limit = 100_000;
      action = create;
      value = 0;
      input = 0 ∷ 1 ∷ 2 ∷ [];
    })

costs : intrinsic_gas creation true true ≡ 59_236
unfolding intrinsic_gas
costs = refl

intrinsic_gas_lem_example : intrinsic_gas creation true true ≡ g0 creation true true
intrinsic_gas_lem_example = intrinsic_gas_lem creation true true

intrinsic_gas_bound_example : intrinsic_gas creation true true < u128_mod
intrinsic_gas_bound_example =
    intrinsic_gas_bound creation true true (omega arith) (omega arith) (omega arith)
