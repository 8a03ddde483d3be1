-- ===== src/Lib.antt =====
-- Akula is an Ethereum node. This library models the parts of it that decide what a valid block is and
-- what its execution does to the state. Everything else of the node brings blocks to these parts and
-- keeps their results.
--
-- A block runs through the parts in this order. The consensus (src/consensus) checks it before its
-- execution, reading parents and ommers through the `State` trait (src/state/interface.rs). The
-- parameters of the chain (src/models/chainspec.rs) say which revision and which changes hold at its
-- number. The processor (src/execution/processor.rs) checks each transaction against the journaled
-- state (src/state/intra_block_state.rs), takes payment for its gas, of which the intrinsic part comes
-- from src/chain/intrinsic_gas.rs, hands it to the interpreter and settles the refund and the miner's
-- share. The host of the interpreter (src/execution/evm.rs) answers what the code asks for from the same
-- state, and runs the calls and creations in it; one that fails is undone through the journal
-- (src/state/delta.rs). In the end the engine's rewards are added and the state is written.
--
-- The chain in memory (src/consensus/blockchain.rs) puts these together: it executes blocks on the state
-- in memory (src/state/in_memory_state.rs), takes them back, and follows the heaviest chain.
--
-- Around this, staged synchronisation (src/stagedsync) runs the stages that bring the tables of the
-- database up to date and unwinds them; stages sort what they write through the collectors of src/etl,
-- and keep indices as bitmaps (src/bitmapdb). The trie (src/trie) is encoded into tables by nodes and
-- paths.
--
-- The files, with the code each is about:
-- - Prelude, with Prelude/Tests, Prelude/Lists, Prelude/Words, Prelude/Bytes and Prelude/Keys: names that
--   the other files share, Boolean tests, lists measured by native numbers, the operations of machine
--   words that wrap, words as bytes, and the order of byte strings.
-- - HashMap, HashSet, BTreeMap: the standard library's collections with numbers as keys, behind laws.
-- - Errors: `ValidationError` (src/consensus/mod.rs) and results. A panic is the error `panicked`.
-- - State: State/Object, State/Delta and State/Interface hold src/state/object.rs, delta.rs and the
--   readers of interface.rs. State/Monad is the type of a method of `IntraBlockState`, with the state
--   passed on explicitly. State/IntraBlock has accounts, logs, refunds and access lists,
--   State/IntraBlock/Contracts creation, destruction and code, State/IntraBlock/Slots storage,
--   snapshots and the end of a transaction, State/IntraBlock/Writes what goes to the database, and
--   State/IntraBlock/Accounts and State/IntraBlock/Values what an account and a slot are after a
--   write. State/IntraBlock/Rollback and its children are the proofs
--   about the journal: what each change is undone to (Objects, Sets, Storages, Creation), what each
--   operation restores (Steps, Lookups, Reads, Operations, Writers), how frames of operations with
--   nested reverted calls compose (Compose, Frames) and the snapshot itself (Snapshots).
-- - Models: Models/Message and Models/YParity (src/models/transaction.rs), Models/Header
--   (src/models/header.rs), Models/Block (src/models/block.rs), Models/Revision (the names of
--   `evmodin::Revision`) and Models/ChainSpec (src/models/chainspec.rs), with proofs in
--   Models/Message/Prices, Models/Header/Equality, Models/ChainSpec/Forks and Models/ChainSpec/Bomb.
-- - Chain: Chain/Fee and Chain/Param (src/chain/protocol_param.rs), Chain/IntrinsicGas
--   (src/chain/intrinsic_gas.rs).
-- - Consensus: Consensus/Transaction (`pre_validate_transaction`), Consensus/Base and
--   Consensus/Base/Blocks (src/consensus/base.rs), Consensus/Difficulty and Consensus/Ethash
--   (src/consensus/ethash), with proofs in their children.
-- - Execution: Execution/Processor and Execution/Processor/Block (src/execution/processor.rs), with
--   proofs in Execution/Processor/Validity, Execution/Processor/Gas and Execution/Processor/BlockGas.
--   Execution/Evm, with its parts in Execution/Evm/Host, is the host of the interpreter
--   (src/execution/evm.rs, with the addresses of src/execution/address.rs), Execution/Evm/Sstore its answer to a write of storage,
--   Execution/Evm/Interpreter what it uses of the crate evmodin; proofs are in Execution/Evm/Gas,
--   Execution/Evm/Depth and Execution/Evm/Refunds. Execution/Precompiled and its child Expmod hold the gas
--   of the precompiled contracts (src/execution/precompiled.rs), with proofs in
--   Execution/Precompiled/Pricing.
-- - Blockchain, with its parts in Blockchain/Blocks: the chain in memory
--   (src/consensus/blockchain.rs) over State/InMemory
--   (src/state/in_memory_state.rs). Proofs are in State/InMemory/Reads, Updates, Erasing and Unwinding (what
--   the change sets of a block keep), Blockchain/Unwinding (blocks that are taken back),
--   Blockchain/Rejection (blocks that fail), and Blockchain/Kept, Preparation and ForkChoice (the
--   canonical chain).
-- - StagedSync: the loop over the stages (src/stagedsync), with proofs in StagedSync/Unwinding.
-- - BitmapDb: bitmaps in chunks (src/bitmapdb/mod.rs), with proofs in BitmapDb/Chunking and
--   BitmapDb/Lookup.
-- - Trie: Trie/PrefixSet (src/trie/prefix_set.rs), Trie/Node (src/trie/node.rs), Trie/Nibbles (paths in
--   src/trie/hash_builder.rs) and Trie/Increment (`increment_key` in src/trie/intermediate_hashes.rs).
-- - Etl: Etl/DataProvider and Etl/Collector (src/etl/data_provider.rs, src/etl/collector.rs), with the
--   order of entries in Etl/Sorting, the heap and the runs in Etl/Merging, Etl/Anchors and Etl/Heads, the
--   merge in Etl/Merge, and the whole collector in Etl/Collected.
-- - The files named Examples have tests and instances of the theorems at concrete values.
--
-- Conventions. Addresses, hashes, blooms and words are numbers. A release build wraps, so arithmetic on
-- a word of w bits is written out modulo 2^w; where a theorem needs that nothing wraps, it bounds its
-- inputs. An asynchronous method is the function of its result. An error carries no state, since every
-- caller passes it on. A vector that grows at its end, such as the journal, is a list with its last
-- element first. Loops are structural recursion on the list that they go through; `is_kin` recurses on
-- its own count of generations, so that no fuel is needed. A run of the interpreter is the tree of what
-- it asks its host for, which ends on every path as gas does; the calls in it recurse on the depth of the
-- stack, `stack_limit`, which `dispatch-stack_limit` shows to be enough. The loops of `run`
-- (src/stagedsync/mod.rs), of the chunks of a bitmap and of the merge take fuel and give `none` when it
-- runs out; the theorems on them say how much is enough: the blocks to unwind, the blocks of the bitmap
-- and the entries of the collector, and one more. The sort and the heap of the standard library are an
-- insertion sort and a sorted list, and a file is the list of its bytes.
--
-- Parameters. The database is a record of readers. The interpreter (the crate evmodin), Keccak-256, the
-- RLP of an address and a nonce, what the precompiled contracts compute, the size of an encoded bitmap,
-- the stages, the bloom of the logs, the roots of receipts, transactions and ommers, the proof-of-work functions, the clock, the
-- database that takes the writes and the left shift of a 256-bit word are arguments of the definitions that use
-- them. The processor takes `evm::execute` as an argument, for which Execution/Evm has the definition. A
-- theorem names what it asks of a parameter: that a run of the interpreter gives back no more gas than it
-- got (`Frugal`) and nests its calls no deeper than 1024 (`Nested`), that a stage gets back when it is
-- unwound (`Unwinds`), that `evm::execute` gives back no more gas than it got (`IsFrugal`, which
-- `execute-IsFrugal` shows of the host), that the shift of one bit is a power of two (`Shifts`), that the revisions are ordered
-- as the network adopted them (`IsChronological`).
--
-- Not modelled: what the precompiled contracts compute (third-party cryptography); the builder of hashes
-- and the cursor of the trie (src/trie/hash_builder.rs, intermediate_hashes.rs); the database
-- (src/kv, src/accessors), which is a binding; the stages (src/stages), which move data between its
-- tables; the network (src/downloader, src/sentry); the buffer of the state over the database
-- (src/state/buffer.rs); the tracer, encodings and command lines.
pub mod Prelude
pub mod HashMap
pub mod HashSet
pub mod BTreeMap
pub mod Errors
pub mod State
pub mod Models
pub mod Chain
pub mod Consensus
pub mod Execution
pub mod Blockchain
pub mod StagedSync
pub mod BitmapDb
pub mod Trie
pub mod Etl
