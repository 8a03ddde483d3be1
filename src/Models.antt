-- ===== src/Models.antt =====
-- src/models: transactions, headers and the parameters of a chain.
pub mod Message
pub mod Header
pub mod YParity
pub mod Revision
pub mod ChainSpec
pub mod Block
mod Examples
