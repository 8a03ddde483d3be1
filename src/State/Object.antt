-- ===== src/State/Object.antt =====
-- src/state/object.rs, and `Account` and `EMPTY_HASH` of src/models.
use akula.Prelude.{ℕ, Option}
use akula.HashMap
use akula.HashMap.{HashMap}

-- `EMPTY_HASH`, the Keccak-256 hash of the empty string.
abbrev pub empty_hash : ℕ
empty_hash = 0xc5d2460186f7233c927e7db2dcc703c0e500b653ca82273b7bfad8045d85a470

pub record Account : Type 0 where
  pub nonce : ℕ
  pub balance : ℕ
  pub code_hash : ℕ

-- `Account::default()`
abbrev pub default_account : Account
default_account = record { nonce = 0; balance = 0; code_hash = empty_hash }

pub record Object : Type 0 where
  pub initial : Option Account
  pub current : Option Account

-- `initial` is the value at the start of the block, `original` at the start of the transaction.
pub record CommittedValue : Type 0 where
  pub initial : ℕ
  pub original : ℕ

pub record Storage : Type 0 where
  pub committed : HashMap CommittedValue
  pub current : HashMap ℕ

-- `Storage::default()`
abbrev pub default_storage : Storage
default_storage = record { committed = HashMap.empty; current = HashMap.empty }
