-- ===== src/Consensus/Ethash.antt =====
-- src/consensus/ethash/mod.rs. The light DAG and the boundary of a difficulty, which the crate `ethash`
-- computes, and the hash of a header without its seal are parameters.
use akula.Prelude.{
  ℕ, ◌+◌, ◌*◌, ◌/◌, ◌%◌, Bool, true, false, not, Option, none, some, List, [], ◌∷◌, ltb, ◌==◌,
  if◌then◌else◌,
}
use akula.Prelude.Words.{u128_mod, add64, sub64, mul256}
use akula.HashMap
use akula.BTreeMap.{BTreeMap}
use akula.Errors.{ValidationError, Result, ok, err, validation, bail_if, ok_or, ◌>>=◌, ◌>>◌}
use akula.Models.Header.{BlockHeader, PartialHeader}
use akula.Models.Revision.{Revision, Rank, at_least, constantinople, byzantium}
use akula.Models.ChainSpec.{DifficultyBomb, get_delay_to, switch_is_active}
use akula.Chain.Param.{block_reward_frontier, block_reward_byzantium, block_reward_constantinople}
use akula.Consensus.Base.{ConsensusEngineBase, ChainReader, get_parent_header}
use akula.Consensus.Base
use akula.Consensus.Difficulty.{BlockDifficultyBombData, canonical_difficulty}
pub mod Rewards
pub mod Headers

pub record Ethash : Type 0 where
  pub base : ConsensusEngineBase
  pub duration_limit : ℕ
  pub block_reward : BTreeMap ℕ
  pub homestead_formula : Option ℕ
  pub byzantium_formula : Option ℕ
  pub difficulty_bomb : Option DifficultyBomb
  pub skip_pow_verification : Bool

-- `EMPTY_LIST_HASH`
abbrev pub empty_list_hash : ℕ
empty_list_hash = 0x1dcc4de8dec75d7aab85b567b6ccd41ad312451b948a7413f0a142fd40d49347

-- `FinalizationChange`
pub data FinalizationChange : Type 0 where
  reward : (address amount : ℕ) → FinalizationChange

abbrev pub bomb_data : Option DifficultyBomb → ℕ → Option BlockDifficultyBombData
bomb_data none number = none
bomb_data (some b) number = some (record { delay_to = get_delay_to b number })

module _ (shl : ℕ → ℕ → ℕ) (engine : Ethash) (clock : Result ℕ) (state : ChainReader) where
  abbrev pub expected_difficulty : BlockHeader → BlockHeader → ℕ
  expected_difficulty header parent =
      canonical_difficulty shl header.number header.timestamp parent.difficulty parent.timestamp
        (not (parent.ommers_hash == empty_list_hash))
        (switch_is_active engine.byzantium_formula header.number)
        (switch_is_active engine.homestead_formula header.number)
        (bomb_data engine.difficulty_bomb header.number)

  unfoldable pub validate_block_header : BlockHeader → Bool → Result (Unit {0})
  validate_block_header header with_future_timestamp_check = do
    found ← get_parent_header state header
    parent ← ok_or found (validation ValidationError.unknown_parent)
    Base.validate_block_header engine.base clock header parent with_future_timestamp_check
    bail_if (not (expected_difficulty header parent == header.difficulty))
        ValidationError.wrong_difficulty

-- What `LightDAG::hashimoto` gives for a block number, a hash and a nonce: the mix and the final hash.
abbrev pub Hashimoto : Type 0
Hashimoto = ℕ → ℕ → ℕ → ℕ × ℕ

unfoldable pub validate_seal :
    Hashimoto
    → (truncated_hash : BlockHeader → ℕ) → (cross_boundary : ℕ → ℕ) → Ethash
    → BlockHeader
    → Result (Unit {0})
validate_seal hashimoto truncated_hash cross_boundary engine header =
    let found = hashimoto header.number (truncated_hash header) header.nonce in
    if engine.skip_pow_verification then ok tt else (do
      bail_if (not (found.0 == header.mix_hash)) ValidationError.invalid_seal
      bail_if (ltb (cross_boundary header.difficulty) found.1) ValidationError.invalid_seal)

abbrev pub base_reward : Rank → Revision → ℕ
base_reward rank revision =
    if at_least rank revision constantinople
    then block_reward_constantinople
    else if at_least rank revision byzantium
    then block_reward_byzantium
    else block_reward_frontier

-- The loop over the ommers, and the miner's reward behind it.
unfoldable pub reward_loop :
    (block_reward block_number beneficiary miner_reward : ℕ)
    → List BlockHeader
    → List FinalizationChange
reward_loop block_reward block_number beneficiary miner_reward [] =
    reward beneficiary miner_reward ∷ []
reward_loop block_reward block_number beneficiary miner_reward (ommer ∷ ommers) =
    reward ommer.beneficiary (mul256 (sub64 (add64 8 ommer.number) block_number) block_reward / 8)
    ∷ reward_loop block_reward block_number beneficiary
        ((miner_reward + block_reward / 32) % u128_mod) ommers

unfoldable pub finalize :
    Rank → PartialHeader → List BlockHeader → Revision → List FinalizationChange
unfolding reward_loop
finalize rank header ommers revision =
    let block_reward = base_reward rank revision in
    reward_loop block_reward header.number header.beneficiary block_reward ommers
