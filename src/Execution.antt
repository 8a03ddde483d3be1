-- ===== src/Execution.antt =====
-- src/execution: the processor of a block.
pub mod Precompiled
pub mod Evm
pub mod Processor
mod Examples
