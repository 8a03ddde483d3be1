-- ===== src/State.antt =====
-- src/state: accounts, their storage, and the journaled state of a block's execution.
pub mod Object
pub mod Delta
pub mod Interface
pub mod Monad
pub mod IntraBlock
pub mod InMemory
pub mod Examples
