-- ===== src/Consensus/Examples.antt =====
-- A block with an ommer on a chain of two headers, and instances of the theorems on the consensus.
use akula.Prelude.{
  ℕ, ◌+◌, ◌-◌, ◌*◌, ◌/◌, ◌^◌, ◌≤◌, ◌≡◌, ◌↔◌, refl, ◌==◌, ◌&&◌, if◌then◌else◌, true, false, none,
  some, List, [], ◌∷◌, ◌++◌, map, max, length, arith,
}
use akula.Errors.{Result, ok}
use akula.Models.Header.{BlockHeader, from_header}
use akula.Models.Header.Equality.{same}
use akula.Models.Message.{Message, call, chain_id, max_fee_per_gas, max_priority_fee_per_gas}
use akula.Models.Block.{Block, MessageWithSignature}
use akula.Models.Revision.{Revision, byzantium}
use akula.Consensus.Transaction.{
  pre_validate_transaction, pre_validate_transaction_lem, IsOnChain, Covers,
}
use akula.Consensus.Difficulty.{canonical_difficulty, min_difficulty}
use akula.Consensus.Difficulty.Formula.{canonical_difficulty_lem, base_difficulty, epsilon}
use akula.Consensus.Base.{
  ConsensusEngineBase, ChainReader, validate_block_header, get_parent_header, is_kin,
  expected_base_fee_per_gas,
}
use akula.Consensus.Base.Fee.{expected_base_fee_bounds, MovesTo}
use akula.Consensus.Base.Headers.{IsValid, validate_block_header_lem}
use akula.Consensus.Base.Ommers.{IsKin, is_kin-IsKin}
use akula.Consensus.Base.Blocks.{pre_validate_block}
use akula.Consensus.Base.Blocks.Passed.{IsPreValid, pre_validate_block-IsPreValid}
use akula.Consensus.Ethash.{
  Ethash, FinalizationChange, reward, finalize, base_reward, expected_difficulty, empty_list_hash,
}
use akula.Consensus.Ethash
use akula.Consensus.Ethash.Rewards.{finalize_lem, ommer_reward}
use akula.Consensus.Ethash.Headers.{validate_block_header-ok}

abbrev root : BlockHeader
root = record {
  parent_hash = 40;
  ommers_hash = empty_list_hash;
  beneficiary = 1;
  state_root = 0;
  transactions_root = 0;
  receipts_root = 0;
  logs_bloom = 0;
  difficulty = 131_072;
  number = 5;
  gas_limit = 10_000;
  gas_used = 0;
  timestamp = 100;
  extra_data = [];
  mix_hash = 0;
  nonce = 0;
  base_fee_per_gas = none;
}

-- Two children of the root, and a grandchild that names the second as an ommer.
abbrev parent : BlockHeader
parent = record root {
  parent_hash = 50;
  number = 6;
  beneficiary = 2;
  timestamp = 110;
  difficulty = 131_136;
}

abbrev ommer : BlockHeader
ommer = record parent { beneficiary = 3 }

abbrev transfer : Message
transfer =
    Message.legacy (some 1) 10
      (record { nonce = 0; gas_limit = 21_000; action = call 8; value = 5; input = [] })

abbrev transactions : List MessageWithSignature
transactions =
    record { message = transfer; signature = record { odd_y_parity = false; r = 1; s = 1 } } ∷ []

abbrev block : Block
block = record {
  header = record parent { parent_hash = 60; number = 7; ommers_hash = 1; transactions_root = 1 };
  transactions = transactions;
  ommers = ommer ∷ [];
}

abbrev reader : ChainReader
reader = record {
  read_header = λ n h.
      ok (if n == 5 && h == 50 then some root else if n == 6 && h == 60 then some parent else none);
  read_body = λ n h. ok (some (record { transactions = []; ommers = [] }));
}

abbrev engine : ConsensusEngineBase
engine = record { chain_id = 1; eip1559_block = none }

abbrev clock : Result ℕ
clock = ok 0

abbrev shift : ℕ → ℕ → ℕ
shift a n = a * 2 ^ n

abbrev rank : Revision → ℕ
rank r = 4

pre_validate_transaction_lem_example : (pre_validate_transaction transfer 1 (some 7) ≡ ok tt) ↔ (
    IsOnChain (chain_id transfer) 1
    × Covers (max_fee_per_gas transfer) (some 7)
    × (max_priority_fee_per_gas transfer ≤ max_fee_per_gas transfer))
pre_validate_transaction_lem_example = pre_validate_transaction_lem transfer 1 (some 7)

canonical_difficulty_lem_example :
    canonical_difficulty shift 13_636_066 1_637_194_138 11_578_490_198_380_085 1_637_194_129 false
      true true
      (some (record { delay_to = 9_700_000 }))
    ≡ max
        (base_difficulty true true false 11_578_490_198_380_085 (1_637_194_138 - 1_637_194_129)
          + epsilon 13_636_066 (some (record { delay_to = 9_700_000 })))
        min_difficulty
canonical_difficulty_lem_example =
    canonical_difficulty_lem shift (λ n lt. omega arith) 13_636_066 1_637_194_138
      11_578_490_198_380_085 1_637_194_129 false true true (some (record { delay_to = 9_700_000 }))
      (omega arith) (omega arith) (omega arith) (omega arith)

abbrev london_engine : ConsensusEngineBase
london_engine = record { chain_id = 1; eip1559_block = some 3 }

abbrev full : BlockHeader
full = record root { gas_used = 9_000; base_fee_per_gas = some 800 }

expected_base_fee_bounds_example :
    (next : ℕ) × (expected_base_fee_per_gas london_engine parent full ≡ ok (some next))
    × MovesTo 800 (10_000 / 2) 9_000 next
expected_base_fee_bounds_example =
    expected_base_fee_bounds london_engine parent full 3 800 refl (omega arith) refl (omega arith)
      (omega arith) (omega arith)

validate_block_header_lem_example :
    (validate_block_header engine clock parent root false ≡ ok tt) ↔ IsValid engine parent root
validate_block_header_lem_example = validate_block_header_lem engine clock parent root

is_kin-IsKin_example :
    (ommers : List BlockHeader) × ([] ≡ [] ++ ommers) × IsKin reader ommer 6 parent 60 ommers
unfolding is_kin same get_parent_header
is_kin-IsKin_example = is_kin-IsKin reader ommer 6 parent 60 [] [] refl

abbrev hash_of : List BlockHeader → ℕ
hash_of = length

abbrev root_of : List MessageWithSignature → ℕ
root_of = length

pre_validate_block-IsPreValid_example : IsPreValid engine reader hash_of root_of block
unfolding pre_validate_block is_kin same get_parent_header validate_block_header
    expected_base_fee_per_gas pre_validate_transaction
pre_validate_block-IsPreValid_example =
    pre_validate_block-IsPreValid engine clock reader hash_of root_of block refl

abbrev ethash : Ethash
ethash = record {
  base = engine;
  duration_limit = 13;
  block_reward = [];
  homestead_formula = some 0;
  byzantium_formula = none;
  difficulty_bomb = none;
  skip_pow_verification = true;
}

-- The parent was mined ten seconds after the root.
abbrev mined : BlockHeader
mined = record parent { difficulty = 131_072 }

validate_block_header-ok_example :
    (own : BlockHeader) × (get_parent_header reader mined ≡ ok (some own))
    × IsValid engine mined own
    × (131_072 ≡ expected_difficulty shift ethash clock reader mined own)
unfolding get_parent_header validate_block_header expected_base_fee_per_gas
    Ethash.validate_block_header canonical_difficulty akula.Models.ChainSpec.switch_is_active
validate_block_header-ok_example = validate_block_header-ok shift ethash clock reader mined refl

finalize_lem_example :
    let r = base_reward rank byzantium in
    finalize rank (from_header block.header) (ommer ∷ []) byzantium
    ≡ map (ommer_reward r 7) (ommer ∷ []) ++ reward 2 (r + 1 * (r / 32)) ∷ []
unfolding from_header
finalize_lem_example =
    finalize_lem rank (from_header block.header) (ommer ∷ []) byzantium (omega arith) (omega arith)
      (omega arith, omega arith, tt)
