-- ===== src/Consensus/Base.antt =====
-- src/consensus/base.rs. The clock, the hash of the ommers and the root of the transactions are
-- parameters; the words are 64 bits (gas, times) and 256 bits (fees) wide and wrap.
use akula.Prelude.{
  ℕ, ◌+◌, ◌-◌, ◌*◌, ◌/◌, ◌%◌, ◌^◌, suc, zero, Bool, true, false, not, ◌&&◌, ◌||◌, Option, none,
  some, List, [], ◌∷◌, ◌++◌, length, max, ltb, leb, ◌==◌, if◌then◌else◌,
}
use akula.Prelude.Words.{u64_mod, add256, mul256}
use akula.Errors.{
  ValidationError, Error, Result, ok, err, validation, context, panicked, bail_if, ok_or, map_ok,
  ◌>>=◌, ◌>>◌,
}
use akula.Models.Header.{BlockHeader}
use akula.Models.Header.Equality.{same, same_fee}
use akula.Models.Block.{BlockBody}
use akula.Consensus.Transaction.{pre_validate_transaction}
use akula.Chain.Param.{elasticity_multiplier, initial_base_fee, base_fee_max_change_denominator}
pub mod Fee
pub mod Headers
pub mod Ommers
pub mod Blocks

pub record ConsensusEngineBase : Type 0 where
  pub chain_id : ℕ
  pub eip1559_block : Option ℕ

-- The readers of headers and bodies of the `State` trait.
pub record ChainReader : Type 0 where
  pub read_header : ℕ → ℕ → Result (Option BlockHeader)
  pub read_body : ℕ → ℕ → Result (Option BlockBody)

-- A division of 256-bit words; one by zero panics.
abbrev pub div256 : ℕ → ℕ → Result ℕ
div256 a b = if b == 0 then err panicked else ok (a / b)

-- `Option::unwrap`
abbrev pub unwrap {ℓ} : {A : Type ℓ} → Option A → Result A
unwrap o = ok_or o panicked

-- The two changes of the base fee.
unfoldable pub raised_fee : (fee target gas_used : ℕ) → Result (Option ℕ)
raised_fee fee target gas_used = do
  share ← div256 (mul256 fee (gas_used - target)) target
  ok (some (add256 fee (max 1 (share / base_fee_max_change_denominator))))

unfoldable pub lowered_fee : (fee target gas_used : ℕ) → Result (Option ℕ)
lowered_fee fee target gas_used = do
  share ← div256 (mul256 fee (target - gas_used)) target
  ok (some (fee - share / base_fee_max_change_denominator))

unfoldable pub fee_after : BlockHeader → Result (Option ℕ)
unfolding raised_fee lowered_fee
fee_after parent =
    let parent_gas_target = parent.gas_limit / elasticity_multiplier in
    do
      fee ← unwrap parent.base_fee_per_gas
      (if parent.gas_used == parent_gas_target
          then ok (some fee)
          else if ltb parent_gas_target parent.gas_used
          then raised_fee fee parent_gas_target parent.gas_used
          else lowered_fee fee parent_gas_target parent.gas_used)

unfoldable pub fee_from : Option ℕ → BlockHeader → BlockHeader → Result (Option ℕ)
unfolding fee_after
fee_from none header parent = ok none
fee_from (some fork_block) header parent =
    if leb fork_block header.number
    then if header.number == fork_block then ok (some initial_base_fee) else fee_after parent
    else ok none

unfoldable pub expected_base_fee_per_gas :
    ConsensusEngineBase → BlockHeader → BlockHeader → Result (Option ℕ)
unfolding fee_from
expected_base_fee_per_gas engine header parent = fee_from engine.eip1559_block header parent

-- The parent's gas limit, doubled at the block of EIP-1559.
abbrev pub limit_from : Option ℕ → ℕ → ℕ → ℕ
limit_from none number gas_limit = gas_limit
limit_from (some fork_block) number gas_limit =
    if fork_block == number then gas_limit * elasticity_multiplier % u64_mod else gas_limit

abbrev pub distance : ℕ → ℕ → ℕ
distance a b = if ltb b a then a - b else b - a

abbrev pub check_time : Result ℕ → ℕ → Result (Unit {0})
check_time clock timestamp = do
  now ← clock
  bail_if (ltb now timestamp) (ValidationError.future_block now timestamp)

unfoldable pub validate_block_header :
    ConsensusEngineBase → (clock : Result ℕ) → BlockHeader → BlockHeader → Bool → Result (Unit {0})
validate_block_header engine clock header parent with_future_timestamp_check =
    let parent_gas_limit = limit_from engine.eip1559_block header.number parent.gas_limit in
    do
      if with_future_timestamp_check then check_time clock header.timestamp else ok tt
      bail_if (ltb header.gas_limit header.gas_used)
          (ValidationError.gas_above_limit header.gas_used header.gas_limit)
      bail_if (ltb header.gas_limit 5000) ValidationError.invalid_gas_limit
      bail_if (ltb (2 ^ 63 - 1) header.gas_limit) ValidationError.invalid_gas_limit
      bail_if (ltb 32 (length header.extra_data)) ValidationError.extra_data_too_long
      bail_if (leb header.timestamp parent.timestamp)
          (ValidationError.invalid_timestamp parent.timestamp header.timestamp)
      bail_if (leb (parent_gas_limit / 1024) (distance header.gas_limit parent_gas_limit))
          ValidationError.invalid_gas_limit
      expected ← expected_base_fee_per_gas engine header parent
      bail_if (not (same_fee header.base_fee_per_gas expected))
          (ValidationError.wrong_base_fee expected header.base_fee_per_gas)

unfoldable pub get_parent_header : ChainReader → BlockHeader → Result (Option BlockHeader)
get_parent_header state header =
    if header.number == 0 then ok none else state.read_header (header.number - 1) header.parent_hash

abbrev pub same_parent : Option BlockHeader → BlockHeader → Bool
same_parent none mainline_parent = false
same_parent (some branch_parent) mainline_parent = same branch_parent mainline_parent

-- `is_kin` answers with the ommers that it has collected.
unfoldable pub is_kin :
    ChainReader
    → BlockHeader
    → BlockHeader
    → ℕ
    → ℕ
    → List BlockHeader
    → Result (Bool × List BlockHeader)
is_kin state branch mainline mainline_hash zero old_ommers = ok (false, old_ommers)
is_kin state branch mainline mainline_hash (suc n) old_ommers =
    if same branch mainline
    then ok (false, old_ommers)
    else state.read_body mainline.number mainline_hash >>= λ found. elim found [
      | none ↦ ok (false, old_ommers)
      | some body ↦ get_parent_header state mainline >>= λ mainline_parent.
          get_parent_header state branch >>= λ branch_parent. elim mainline_parent [
            | none ↦ ok (false, old_ommers ++ body.ommers)
            | some parent ↦
                if same_parent branch_parent parent
                then ok (true, old_ommers ++ body.ommers)
                else is_kin state branch parent mainline.parent_hash n (old_ommers ++ body.ommers)
          ]
    ]
