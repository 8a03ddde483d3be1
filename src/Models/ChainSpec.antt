-- ===== src/Models/ChainSpec.antt =====
-- src/models/chainspec.rs: the parameters of a chain and what they say of a block. The name, the genesis
-- block and the network parameters of a chain are left out: nothing here reads them.
use akula.Prelude.{
  ℕ, ◌-◌, ◌^◌, ◌≡◌, Bool, true, false, Option, none, some, List, [], ◌∷◌, ◌++◌, leb, ◌==◌,
  if◌then◌else◌, unwrap_or,
}
use akula.HashMap
use akula.HashMap.{HashMap}
use akula.HashSet
use akula.BTreeMap
use akula.BTreeMap.{BTreeMap}
use akula.Models.Revision.{
  Revision, frontier, homestead, tangerine, spurious, byzantium, constantinople, petersburg,
  istanbul, berlin, london, is_frontier,
}
pub mod Forks
pub mod Bomb

pub data ModExpVersion : Type 0 where
  mod_exp_198 mod_exp_2565 : ModExpVersion

pub data Precompile : Type 0 where
  ec_recover : (base word : ℕ) → Precompile
  sha_256 : (base word : ℕ) → Precompile
  ripemd_160 : (base word : ℕ) → Precompile
  identity : (base word : ℕ) → Precompile
  mod_exp : ModExpVersion → Precompile
  alt_bn_128_add : (price : ℕ) → Precompile
  alt_bn_128_mul : (price : ℕ) → Precompile
  alt_bn_128_pairing : (base pair : ℕ) → Precompile
  blake_2f : (gas_per_round : ℕ) → Precompile

pub data Contract : Type 0 where
  contract : (code : List ℕ) → Contract
  precompile : Precompile → Contract

pub record Upgrades : Type 0 where
  pub homestead : Option ℕ
  pub tangerine : Option ℕ
  pub spurious : Option ℕ
  pub byzantium : Option ℕ
  pub constantinople : Option ℕ
  pub petersburg : Option ℕ
  pub istanbul : Option ℕ
  pub berlin : Option ℕ
  pub london : Option ℕ

pub record Params : Type 0 where
  pub chain_id : ℕ
  pub network_id : ℕ
  pub min_gas_limit : ℕ

pub record DifficultyBomb : Type 0 where
  pub delays : BTreeMap ℕ

pub data SealVerificationParams : Type 0 where
  clique : (period epoch : ℕ) → SealVerificationParams
  ethash :
      (duration_limit : ℕ) (block_reward : BTreeMap ℕ)
      (homestead_formula byzantium_formula : Option ℕ) (difficulty_bomb : Option DifficultyBomb)
      (skip_pow_verification : Bool)
      → SealVerificationParams

pub record ConsensusParams : Type 0 where
  pub seal_verification : SealVerificationParams
  pub eip1559_block : Option ℕ

pub record ChainSpec : Type 0 where
  pub consensus : ConsensusParams
  pub upgrades : Upgrades
  pub params : Params
  pub contracts : BTreeMap (HashMap Contract)
  pub balances : BTreeMap (HashMap ℕ)

pub record BlockExecutionSpec : Type 0 where
  pub revision : Revision
  pub active_transitions : List Revision
  pub params : Params
  pub system_contract_changes : HashMap Contract
  pub balance_changes : HashMap ℕ

-- The array that the loop of `collect_block_spec` goes through.
abbrev pub latest_first : Upgrades → List (Option ℕ × Revision)
latest_first u =
    (u.london, london)
    ∷ (u.berlin, berlin)
    ∷ (u.istanbul, istanbul)
    ∷ (u.petersburg, petersburg)
    ∷ (u.constantinople, constantinople)
    ∷ (u.byzantium, byzantium)
    ∷ (u.spurious, spurious)
    ∷ (u.tangerine, tangerine)
    ∷ (u.homestead, homestead)
    ∷ []

-- The loop: the revision and the transitions when it ends. A set of revisions is a list here.
unfoldable pub revision_loop :
    ℕ → Revision → List Revision → List (Option ℕ × Revision) → Revision × List Revision
revision_loop block_number revision active [] = (revision, active)
revision_loop block_number revision active ((none, r) ∷ rest) =
    revision_loop block_number revision active rest
revision_loop block_number revision active ((some fork_block, r) ∷ rest) =
    let after = revision_loop block_number revision active rest in
    if leb fork_block block_number
    then (
      if is_frontier revision then r else revision,
      if block_number == fork_block then r ∷ active else active,
    )
    else after

insert_contracts : HashMap Contract → List (ℕ × Contract) → HashMap Contract
insert_contracts acc [] = acc
insert_contracts acc ((addr, code) ∷ rest) = insert_contracts (HashMap.insert acc addr code) rest

fold_contracts : ℕ → HashMap Contract → BTreeMap (HashMap Contract) → HashMap Contract
unfolding insert_contracts
fold_contracts block_number acc [] = acc
fold_contracts block_number acc ((bn, contracts) ∷ rest) =
    fold_contracts block_number
      (if leb bn block_number then insert_contracts acc contracts.entries else acc) rest

unfoldable pub collect_block_spec : ChainSpec → ℕ → BlockExecutionSpec
unfolding revision_loop fold_contracts
collect_block_spec spec block_number =
    let found = revision_loop block_number frontier [] (latest_first spec.upgrades) in
    record {
      revision = found.0;
      active_transitions = found.1;
      params = spec.params;
      system_contract_changes = fold_contracts block_number HashMap.empty spec.contracts;
      balance_changes = unwrap_or (BTreeMap.get spec.balances block_number) HashMap.empty;
    }

-- `Option::into_iter`
abbrev pub iter : Option ℕ → List ℕ
iter none = []
iter (some a) = a ∷ []

abbrev pub bomb_keys : Option DifficultyBomb → List ℕ
bomb_keys none = []
bomb_keys (some b) = BTreeMap.keys b.delays

-- `SealVerificationParams::gather_forks`
unfoldable pub gather_seal_forks : SealVerificationParams → List ℕ
gather_seal_forks (ethash limit block_reward homestead_formula byzantium_formula bomb skip) =
    BTreeMap.collect (
      BTreeMap.keys block_reward
      ++ iter homestead_formula
      ++ iter byzantium_formula
      ++ bomb_keys bomb)
gather_seal_forks (clique period epoch) = []

-- `ChainSpec::gather_forks`
unfoldable pub gather_forks : ChainSpec → List ℕ
gather_forks spec =
    let u = spec.upgrades in
    let forks = BTreeMap.collect (
      iter u.homestead
      ++ iter u.tangerine
      ++ iter u.spurious
      ++ iter u.byzantium
      ++ iter u.constantinople
      ++ iter u.petersburg
      ++ iter u.istanbul
      ++ iter u.berlin
      ++ iter u.london
      ++ iter spec.consensus.eip1559_block
      ++ gather_seal_forks spec.consensus.seal_verification
      ++ BTreeMap.keys spec.contracts
      ++ BTreeMap.keys spec.balances) in
    BTreeMap.remove 0 forks

-- `DifficultyBomb::get_delay_to`: the last delay that the filter keeps.
last_delay : ℕ → ℕ → BTreeMap ℕ → ℕ
last_delay block_number last [] = last
last_delay block_number last ((activation, delay_to) ∷ rest) =
    last_delay block_number (if leb activation block_number then delay_to else last) rest

unfoldable pub get_delay_to : DifficultyBomb → ℕ → ℕ
unfolding last_delay
get_delay_to bomb block_number = last_delay block_number 0 bomb.delays

unfoldable pub switch_is_active : Option ℕ → ℕ → Bool
switch_is_active switch block_number = leb (unwrap_or switch (2 ^ 64 - 1)) block_number
