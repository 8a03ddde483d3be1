-- ===== src/Blockchain/Examples.antt =====
-- A chain in memory with a genesis block and a block on it, and instances of the theorems.
use akula.Prelude.{ℕ, ◌+◌, ◌≡◌, refl, true, none, some, List, [], ◌∷◌}
use akula.Errors.{ok}
use akula.HashMap
use akula.State.Object.{default_account}
use akula.State.Monad.{pure, gets, lift, modify, ◌>>=◌}
use akula.State.IntraBlock
use akula.Execution.Processor.Block.{
  execute_and_write_block, execute_block_no_post_validation, change_balances, execute_transactions,
  apply_changes,
}
use akula.State.IntraBlock.Writes.{
  Write, begin_block, erase_storage, update_storage, update_account, write_to_db,
}
use akula.State.InMemory.{InMemoryState}
use akula.State.InMemory
use akula.State.InMemory.Unwinding.{Same}
use akula.Models.Header.{BlockHeader, from_header}
use akula.Models.Block.{Block}
use akula.Models.ChainSpec.{ChainSpec, ethash, collect_block_spec}
use akula.Blockchain.{
  Engine, Environment, BlockWithSenders, new, writes_of, insert_block, unwind_blocks,
}
use akula.Blockchain.Unwinding.{write_blocks, unwind_blocks-write_blocks}
use akula.Blockchain.ForkChoice.{Choice, insert_block-Choice}

abbrev no_fork : ChainSpec
no_fork = record {
  consensus = record { seal_verification = ethash 13 [] none none none true; eip1559_block = none };
  upgrades = record {
    homestead = none;
    tangerine = none;
    spurious = none;
    byzantium = none;
    constantinople = none;
    petersburg = none;
    istanbul = none;
    berlin = none;
    london = none;
  };
  params = record { chain_id = 1; network_id = 1; min_gas_limit = 5000 };
  contracts = [];
  balances = [];
}

abbrev header_at : ℕ → ℕ → BlockHeader
header_at number parent_hash = record {
  parent_hash = parent_hash;
  ommers_hash = 0;
  beneficiary = 9;
  state_root = 5;
  transactions_root = 0;
  receipts_root = 0;
  logs_bloom = 0;
  difficulty = 131_072;
  number = number;
  gas_limit = 100_000;
  gas_used = 0;
  timestamp = number;
  extra_data = [];
  mix_hash = 0;
  nonce = 0;
  base_fee_per_gas = none;
}

abbrev block_at : ℕ → ℕ → Block
block_at number parent_hash = record {
  header = header_at number parent_hash;
  transactions = [];
  ommers = [];
}

abbrev engine : Engine
engine = record {
  validate_block_header = λ state header check. ok tt;
  pre_validate_block = λ state block. ok tt;
  finalize = λ header ommers revision. ok [];
}

-- The hash of a block is its number and one; the root of any state is 5.
abbrev environment : Environment
environment = record {
  rank = λ revision. 0;
  execute = λ db header spec txn gas. pure (record { success = true; gas_left = gas });
  logs_bloom = λ logs. 0;
  root_hash = λ receipts. 0;
  hash = λ header. header.number + 1;
  recover_sender = λ tx. ok 7;
  state_root_hash = λ s. 5;
}

-- A block with an account, a slot of another one that was there, and a storage that is erased, and a
-- block that undoes a part of it.
abbrev genesis_state : InMemoryState
genesis_state = record InMemory.new {
  accounts = record { entries = (3, default_account) ∷ [] };
  storage = record {
    entries = (3, record { entries = (1, 11) ∷ [] }) ∷ (4, record { entries = (2, 22) ∷ [] }) ∷ [];
  };
}

abbrev first_writes : List Write
first_writes =
    erase_storage 4
    ∷ update_storage 3 1 11 12
    ∷ update_account 5 none (some default_account)
    ∷ update_account 3 (some default_account) none
    ∷ []

abbrev second_writes : List Write
second_writes = update_storage 3 1 12 0 ∷ update_account 5 (some default_account) none ∷ []

unwind_blocks-write_blocks_example :
    Same genesis_state
      (unwind_blocks 2 1 (write_blocks 1 (first_writes ∷ second_writes ∷ []) genesis_state))
unfolding InMemory.new InMemory.apply_all InMemory.read_account InMemory.read_storage HashMap.get
    HashMap.insert HashMap.remove HashMap.empty
unwind_blocks-write_blocks_example =
    unwind_blocks-write_blocks (first_writes ∷ second_writes ∷ []) 1 genesis_state
      (λ m le. (refl, refl)) ((refl, (refl, (refl, tt))), ((refl, (refl, tt)), tt))

abbrev child : BlockWithSenders
child = record {
  header = from_header (header_at 1 1);
  body = record { transactions = []; ommers = [] };
}

abbrev of_chain : InMemoryState
of_chain = (new 1 (block_at 0 0) InMemory.new).state

returns_ok :
    (insert_block engine environment no_fork
      (block_at 1 1)
      true
      (new 1 (block_at 0 0) InMemory.new)).1
    ≡ ok tt
unfolding new writes_of execute_and_write_block execute_block_no_post_validation change_balances
    execute_transactions apply_changes write_to_db collect_block_spec IntraBlock.new from_header
    InMemory.insert_block InMemory.canonize_block InMemory.new InMemory.reader InMemory.apply_all
    gets lift pure modify ◌>>=◌ HashMap.empty HashMap.insert HashMap.get insert_block
    InMemory.canonical_hash InMemory.read_header InMemory.current_canonical_block
    InMemory.total_difficulty InMemory.chain_reader
returns_ok = refl

insert_block-Choice_example :
    Choice
      (new 1 (block_at 0 0) InMemory.new).state
      (insert_block engine environment no_fork
        (block_at 1 1)
        true
        (new 1 (block_at 0 0) InMemory.new)).0.state
      1
      2
insert_block-Choice_example =
    insert_block-Choice engine environment no_fork (block_at 1 1) true
      (new 1 (block_at 0 0) InMemory.new) returns_ok

-- A slot that is erased and then written with the initial value 0, as that of a contract that is created
-- again: taking the block back does not restore it.
forgets_slot :
    InMemory.read_storage
      (InMemory.unwind_state_changes 1 (
        InMemory.apply_all
          (begin_block 1 ∷ erase_storage 4 ∷ update_storage 4 2 0 33 ∷ [])
          genesis_state))
      4
      2
    ≡ 0
unfolding InMemory.new InMemory.apply_all InMemory.read_storage InMemory.unwind_state_changes
    HashMap.get HashMap.insert HashMap.remove HashMap.empty
forgets_slot = refl
