-- ===== src/Execution/Precompiled.antt =====
-- src/execution/precompiled.rs: the gas of the precompiled contracts. What they compute comes from
-- third-party cryptography.
pub mod Expmod
pub mod Pricing
mod Examples
use akula.Prelude.{
  ℕ, ◌-◌, ◌/◌, Bool, Option, none, some, List, [], ◌∷◌, zero, suc, length, ltb, if◌then◌else◌,
}
use akula.Prelude.Words.{add64, mul64}
use akula.Prelude.Bytes.{from_be_bytes}
use akula.Models.Revision.{
  Revision, Rank, at_least, frontier, homestead, tangerine, spurious, byzantium, constantinople,
  petersburg, istanbul,
}
use akula.Execution.Precompiled.Expmod.{expmod_gas, slice}

abbrev pub num_of_frontier_contracts : ℕ
num_of_frontier_contracts = 4

abbrev pub num_of_byzantium_contracts : ℕ
num_of_byzantium_contracts = 8

abbrev pub num_of_istanbul_contracts : ℕ
num_of_istanbul_contracts = 9

abbrev words : List ℕ → ℕ
words input = add64 (length input) 31 / 32

unfoldable pub ecrecover_gas : List ℕ → Option ℕ
ecrecover_gas input = some 3_000

unfoldable pub sha256_gas : List ℕ → Option ℕ
sha256_gas input = some (add64 60 (mul64 12 (words input)))

unfoldable pub ripemd160_gas : List ℕ → Option ℕ
ripemd160_gas input = some (add64 600 (mul64 120 (words input)))

unfoldable pub id_gas : List ℕ → Option ℕ
id_gas input = some (add64 15 (mul64 3 (words input)))

abbrev snarkv_stride : ℕ
snarkv_stride = 192

unfoldable pub blake2_f_gas : List ℕ → Option ℕ
blake2_f_gas input = if ltb (length input) 4 then some 0 else some (from_be_bytes (slice 0 4 input))

module _ (rank : Rank) (rev : Revision) where
  unfoldable pub bn_add_gas : List ℕ → Option ℕ
  bn_add_gas input = some (if at_least rank rev istanbul then 150 else 500)

  unfoldable pub bn_mul_gas : List ℕ → Option ℕ
  bn_mul_gas input = some (if at_least rank rev istanbul then 6_000 else 40_000)

  unfoldable pub snarkv_gas : List ℕ → Option ℕ
  snarkv_gas input =
      let k = length input / snarkv_stride in
      some (
        if at_least rank rev istanbul
        then add64 (mul64 34_000 k) 45_000
        else add64 (mul64 80_000 k) 100_000)

-- The contract at an index of `CONTRACTS`; an index past the end panics.
pub data Precompiled : Type 0 where
  ecrecover sha256 ripemd160 id expmod bn_add bn_mul snarkv blake2_f : Precompiled

abbrev contracts : List Precompiled
contracts = ecrecover ∷ sha256 ∷ ripemd160 ∷ id ∷ expmod ∷ bn_add ∷ bn_mul ∷ snarkv ∷ blake2_f ∷ []

nth : List Precompiled → ℕ → Option Precompiled
nth [] n = none
nth (c ∷ rest) zero = some c
nth (c ∷ rest) (suc n) = nth rest n

unfoldable pub contract_at : ℕ → Option Precompiled
unfolding nth
contract_at n = nth contracts n

-- `contract.gas`
unfoldable pub gas_of : Rank → Revision → Precompiled → List ℕ → Option ℕ
unfolding ecrecover_gas sha256_gas ripemd160_gas id_gas bn_add_gas bn_mul_gas snarkv_gas
    blake2_f_gas
gas_of rank rev ecrecover input = ecrecover_gas input
gas_of rank rev sha256 input = sha256_gas input
gas_of rank rev ripemd160 input = ripemd160_gas input
gas_of rank rev id input = id_gas input
gas_of rank rev expmod input = expmod_gas rank rev input
gas_of rank rev bn_add input = bn_add_gas rank rev input
gas_of rank rev bn_mul input = bn_mul_gas rank rev input
gas_of rank rev snarkv input = snarkv_gas rank rev input
gas_of rank rev blake2_f input = blake2_f_gas input

-- `Evm::number_of_precompiles` of src/execution/evm.rs
unfoldable pub number_of_precompiles : Revision → ℕ
number_of_precompiles frontier = num_of_frontier_contracts
number_of_precompiles homestead = num_of_frontier_contracts
number_of_precompiles tangerine = num_of_frontier_contracts
number_of_precompiles spurious = num_of_frontier_contracts
number_of_precompiles byzantium = num_of_byzantium_contracts
number_of_precompiles constantinople = num_of_byzantium_contracts
number_of_precompiles petersburg = num_of_byzantium_contracts
number_of_precompiles _ = num_of_istanbul_contracts
