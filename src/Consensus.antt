-- ===== src/Consensus.antt =====
-- src/consensus: the validation of headers, blocks and transactions, and the rewards of a block.
pub mod Difficulty
pub mod Transaction
pub mod Base
pub mod Ethash
mod Examples
