-- ===== src/Chain.antt =====
-- src/chain: the fees and parameters of the protocol, and the gas that a transaction costs before any
-- code of it runs.
pub mod Fee
pub mod Param
pub mod IntrinsicGas
mod Examples
