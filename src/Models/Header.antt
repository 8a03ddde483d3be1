-- ===== src/Models/Header.antt =====
-- src/models/header.rs. Hashes, addresses, blooms and the nonce are numbers; `extra_data` is a list of
-- bytes.
use akula.Prelude.{ℕ, Option, List}
pub mod Equality

pub record PartialHeader : Type 0 where
  pub parent_hash : ℕ
  pub beneficiary : ℕ
  pub state_root : ℕ
  pub receipts_root : ℕ
  pub logs_bloom : ℕ
  pub difficulty : ℕ
  pub number : ℕ
  pub gas_limit : ℕ
  pub gas_used : ℕ
  pub timestamp : ℕ
  pub extra_data : List ℕ
  pub mix_hash : ℕ
  pub nonce : ℕ
  pub base_fee_per_gas : Option ℕ

pub record BlockHeader : Type 0 where
  pub parent_hash : ℕ
  pub ommers_hash : ℕ
  pub beneficiary : ℕ
  pub state_root : ℕ
  pub transactions_root : ℕ
  pub receipts_root : ℕ
  pub logs_bloom : ℕ
  pub difficulty : ℕ
  pub number : ℕ
  pub gas_limit : ℕ
  pub gas_used : ℕ
  pub timestamp : ℕ
  pub extra_data : List ℕ
  pub mix_hash : ℕ
  pub nonce : ℕ
  pub base_fee_per_gas : Option ℕ

-- `BlockHeader::new`
unfoldable pub new : PartialHeader → ℕ → ℕ → BlockHeader
new h ommers_hash transactions_root = record {
  parent_hash = h.parent_hash;
  ommers_hash = ommers_hash;
  beneficiary = h.beneficiary;
  state_root = h.state_root;
  transactions_root = transactions_root;
  receipts_root = h.receipts_root;
  logs_bloom = h.logs_bloom;
  difficulty = h.difficulty;
  number = h.number;
  gas_limit = h.gas_limit;
  gas_used = h.gas_used;
  timestamp = h.timestamp;
  extra_data = h.extra_data;
  mix_hash = h.mix_hash;
  nonce = h.nonce;
  base_fee_per_gas = h.base_fee_per_gas;
}

-- `PartialHeader::from`
unfoldable pub from_header : BlockHeader → PartialHeader
from_header h = record {
  parent_hash = h.parent_hash;
  beneficiary = h.beneficiary;
  state_root = h.state_root;
  receipts_root = h.receipts_root;
  logs_bloom = h.logs_bloom;
  difficulty = h.difficulty;
  number = h.number;
  gas_limit = h.gas_limit;
  gas_used = h.gas_used;
  timestamp = h.timestamp;
  extra_data = h.extra_data;
  mix_hash = h.mix_hash;
  nonce = h.nonce;
  base_fee_per_gas = h.base_fee_per_gas;
}
