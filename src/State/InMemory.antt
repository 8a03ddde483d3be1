-- ===== src/State/InMemory.antt =====
-- src/state/in_memory_state.rs: `InMemoryState`, with its change sets. The hashes of a trie are
-- parameters where they are used (`trie_root` is third-party code).
pub mod Reads
pub mod Updates
pub mod Erasing
pub mod Unwinding
use akula.Prelude.{
  ℕ, zero, suc, ◌+◌, ◌-◌, Bool, true, false, Option, none, some, is_some, List, [], ◌∷◌, ◌++◌, leb,
  ◌==◌, if◌then◌else◌, length, take, unwrap_or,
}
use akula.Prelude.Words.{add256, sub64}
use akula.Errors.{Result, ok}
use akula.HashMap
use akula.HashMap.{HashMap}
use akula.State.Object.{Account}
use akula.State.Interface.{Reader}
use akula.State.IntraBlock.Writes.{
  Write, begin_block, erase_storage, update_storage, update_account, update_code,
}
use akula.Models.Header.{BlockHeader}
use akula.Models.Block.{Block, BlockBody}
use akula.Consensus.Base.{ChainReader}

-- The value before a block of each account or slot that the block has changed.
abbrev pub AccountChanges : Type 0
AccountChanges = HashMap (Option Account)

abbrev pub StorageChanges : Type 0
StorageChanges = HashMap (HashMap ℕ)

pub record InMemoryState : Type 0 where
  pub accounts : HashMap Account
  pub code : HashMap (List ℕ)
  pub storage : HashMap (HashMap ℕ)
  pub headers : List (HashMap BlockHeader)
  pub bodies : List (HashMap BlockBody)
  pub difficulty : List (HashMap ℕ)
  pub canonical_hashes : List ℕ
  pub account_changes : HashMap AccountChanges
  pub storage_changes : HashMap StorageChanges
  pub block_number : ℕ

unfoldable pub new : InMemoryState
new = record {
  accounts = HashMap.empty;
  code = HashMap.empty;
  storage = HashMap.empty;
  headers = [];
  bodies = [];
  difficulty = [];
  canonical_hashes = [];
  account_changes = HashMap.empty;
  storage_changes = HashMap.empty;
  block_number = 0;
}

-- `entry(key).or_default()` of a map of maps
abbrev pub map_at : {V : Type 0} → HashMap (HashMap V) → ℕ → HashMap V
map_at m key = unwrap_or (HashMap.get m key) HashMap.empty

-- `vec.get(index)`
abbrev pub nth : {A : Type 0} → List A → ℕ → Option A
nth [] n = none
nth (x ∷ l) zero = some x
nth (x ∷ l) (suc n) = nth l n

-- `vec.resize_with(n + 1, Default::default)` if the vector is not longer than `n`, and then a change at
-- the index `n`.
unfoldable pub change_at : {A : Type 0} → A → (A → A) → List A → ℕ → List A
change_at default f [] zero = f default ∷ []
change_at default f [] (suc n) = default ∷ change_at default f [] n
change_at default f (x ∷ l) zero = f x ∷ l
change_at default f (x ∷ l) (suc n) = x ∷ change_at default f l n

-- The readers.
unfoldable pub read_account : InMemoryState → ℕ → Option Account
read_account s address = HashMap.get s.accounts address

unfoldable pub read_code : InMemoryState → ℕ → List ℕ
read_code s code_hash = unwrap_or (HashMap.get s.code code_hash) []

unfoldable pub read_storage : InMemoryState → ℕ → ℕ → ℕ
read_storage s address location = unwrap_or (HashMap.get (map_at s.storage address) location) 0

abbrev pub look_up : {V : Type 0} → List (HashMap V) → ℕ → ℕ → Option V
look_up maps block_number hash = elim (nth maps block_number) [
  | none ↦ none
  | some m ↦ HashMap.get m hash
]

unfoldable pub read_header : InMemoryState → ℕ → ℕ → Option BlockHeader
read_header s = look_up s.headers

unfoldable pub read_body : InMemoryState → ℕ → ℕ → Option BlockBody
read_body s = look_up s.bodies

unfoldable pub total_difficulty : InMemoryState → ℕ → ℕ → Option ℕ
total_difficulty s = look_up s.difficulty

unfoldable pub reader : InMemoryState → Reader
unfolding read_account read_code read_storage
reader s = record {
  read_account = λ a. ok (read_account s a);
  read_code = λ h. ok (read_code s h);
  read_storage = λ a k. ok (read_storage s a k);
}

unfoldable pub chain_reader : InMemoryState → ChainReader
unfolding read_header read_body
chain_reader s = record {
  read_header = λ n h. ok (read_header s n h);
  read_body = λ n h. ok (read_body s n h);
}

-- The changes of the block that is being written.
abbrev pub account_changes_of : InMemoryState → ℕ → AccountChanges
account_changes_of s block_number = map_at s.account_changes block_number

abbrev pub storage_changes_of : InMemoryState → ℕ → ℕ → HashMap ℕ
storage_changes_of s block_number address = map_at (map_at s.storage_changes block_number) address

abbrev put_account : ℕ → Option Account → HashMap Account → HashMap Account
put_account address none accounts = HashMap.remove accounts address
put_account address (some account) accounts = HashMap.insert accounts address account

abbrev put_slot : ℕ → ℕ → HashMap ℕ → HashMap ℕ
put_slot location value slots =
    if value == 0 then HashMap.remove slots location else HashMap.insert slots location value

-- The changes of a slot's address with new ones.
abbrev record_changes : InMemoryState → ℕ → HashMap ℕ → HashMap StorageChanges
record_changes s address changes =
    HashMap.insert s.storage_changes s.block_number
      (HashMap.insert (map_at s.storage_changes s.block_number) address changes)

-- The loop of `erase_storage`. The order in which it meets the slots is as good as any other.
unfoldable pub add_all : List (ℕ × ℕ) → HashMap ℕ → HashMap ℕ
add_all [] changes = changes
add_all ((slot, initial) ∷ rest) changes = HashMap.insert (add_all rest changes) slot initial

-- The writers.
unfoldable pub erase : ℕ → InMemoryState → InMemoryState
unfolding add_all
erase address s = elim (map_at s.storage address).entries [
  | [] ↦ record s { storage = HashMap.remove s.storage address }
  | slot ∷ slots ↦ record s {
    storage = HashMap.remove s.storage address;
    storage_changes =
        record_changes s address
          (add_all (slot ∷ slots) (storage_changes_of s s.block_number address));
  }
]

unfoldable pub apply : Write → InMemoryState → InMemoryState
unfolding erase
apply (begin_block block_number) s = record s { block_number = block_number }
apply (erase_storage address) s = erase address s
apply (update_account address initial current) s = record s {
  account_changes =
      HashMap.insert s.account_changes s.block_number
        (HashMap.insert (account_changes_of s s.block_number) address initial);
  accounts = put_account address current s.accounts;
}
apply (update_code code_hash code) s = record s { code = HashMap.insert s.code code_hash code }
apply (update_storage address location initial current) s = record s {
  storage_changes =
      record_changes s address
        (HashMap.insert (storage_changes_of s s.block_number address) location initial);
  storage = HashMap.insert s.storage address (put_slot location current (map_at s.storage address));
}

unfoldable pub apply_all : List Write → InMemoryState → InMemoryState
unfolding apply
apply_all [] s = s
apply_all (w ∷ rest) s = apply_all rest (apply w s)

-- The loops of `unwind_state_changes`.
unfoldable pub restore_accounts : List (ℕ × Option Account) → HashMap Account → HashMap Account
restore_accounts [] accounts = accounts
restore_accounts ((address, account) ∷ rest) accounts =
    put_account address account (restore_accounts rest accounts)

unfoldable pub restore_slots : List (ℕ × ℕ) → HashMap ℕ → HashMap ℕ
restore_slots [] slots = slots
restore_slots ((location, value) ∷ rest) slots = put_slot location value (restore_slots rest slots)

-- An address without a changed slot gets no entry.
abbrev restore_storage : ℕ → List (ℕ × ℕ) → HashMap (HashMap ℕ) → HashMap (HashMap ℕ)
restore_storage address [] storage = storage
restore_storage address (slot ∷ slots) storage =
    HashMap.insert storage address (restore_slots (slot ∷ slots) (map_at storage address))

unfoldable pub restore_storages : List (ℕ × HashMap ℕ) → HashMap (HashMap ℕ) → HashMap (HashMap ℕ)
unfolding restore_slots
restore_storages [] storage = storage
restore_storages ((address, changes) ∷ rest) storage =
    restore_storage address changes.entries (restore_storages rest storage)

unfoldable pub unwind_state_changes : ℕ → InMemoryState → InMemoryState
unfolding restore_accounts restore_storages
unwind_state_changes block_number s = record s {
  accounts = restore_accounts (account_changes_of s block_number).entries s.accounts;
  account_changes = HashMap.remove s.account_changes block_number;
  storage = restore_storages (map_at s.storage_changes block_number).entries s.storage;
  storage_changes = HashMap.remove s.storage_changes block_number;
}

-- The chain: the hash that is canonical at a number.
unfoldable pub canonical_hash : InMemoryState → ℕ → Option ℕ
canonical_hash s block_number = nth s.canonical_hashes block_number

unfoldable pub current_canonical_block : InMemoryState → ℕ
current_canonical_block s = sub64 (length s.canonical_hashes) 1

unfoldable pub canonize_block : ℕ → ℕ → InMemoryState → InMemoryState
unfolding change_at
canonize_block block_number block_hash s = record s {
  canonical_hashes = change_at 0 (λ h. block_hash) s.canonical_hashes block_number;
}

unfoldable pub decanonize_block : ℕ → InMemoryState → InMemoryState
decanonize_block block_number s = record s {
  canonical_hashes = take block_number s.canonical_hashes;
}

abbrev or_zero : ℕ → HashMap ℕ → HashMap ℕ
or_zero hash m = elim (HashMap.get m hash) [ none ↦ HashMap.insert m hash 0 | some d ↦ m ]

-- The total difficulty of the parent, with the default entry that the lookup leaves behind. The vector
-- is long enough by then.
unfoldable pub parent_difficulty : List (HashMap ℕ) → ℕ → ℕ → ℕ × List (HashMap ℕ)
unfolding change_at
parent_difficulty maps zero parent_hash = (0, maps)
parent_difficulty maps (suc n) parent_hash =
    (unwrap_or (look_up maps n parent_hash) 0, change_at HashMap.empty (or_zero parent_hash) maps n)

unfoldable pub insert_block : Block → ℕ → InMemoryState → InMemoryState
unfolding change_at parent_difficulty
insert_block block hash s =
    let n = block.header.number in
    let resized = change_at HashMap.empty (λ m. m) s.difficulty n in
    let parent = parent_difficulty resized n block.header.parent_hash in
    record s {
      headers = change_at HashMap.empty (λ m. HashMap.insert m hash block.header) s.headers n;
      bodies =
          change_at HashMap.empty
            (λ m.
              HashMap.insert m hash
                (record { transactions = block.transactions; ommers = block.ommers }))
            s.bodies n;
      difficulty =
          change_at HashMap.empty
            (λ m. HashMap.insert m hash (add256 parent.0 block.header.difficulty)) parent.1 n;
    }
