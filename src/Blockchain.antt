-- ===== src/Blockchain.antt =====
-- src/consensus/blockchain.rs: the chain in memory, which executes blocks, takes them back, and follows
-- the chain with the greatest total difficulty. The engine, the interpreter, the hashes and the recovery
-- of senders are parameters. A failed block leaves a changed state behind, so that outcomes carry it.
pub mod Blocks
pub mod Unwinding
pub mod Rejection
pub mod Kept
pub mod Preparation
pub mod ForkChoice
mod Examples
use akula.Prelude.{
  ℕ, zero, suc, ◌+◌, ◌-◌, Bool, true, false, not, ◌&&◌, Option, none, some, List, [], ◌∷◌, ◌++◌,
  leb, ltb, ◌==◌, if◌then◌else◌,
}
use akula.Prelude.Words.{sub64}
use akula.Errors.{
  ValidationError, Error, Result, ok, err, validation, context, database, panicked, ◌>>=◌, ◌>>◌,
  map_ok, ok_or,
}
use akula.HashMap
use akula.HashMap.{HashMap}
use akula.State.Interface.{Reader}
use akula.State.Delta.{Log}
use akula.State.IntraBlock
use akula.State.IntraBlock.Writes.{Write, write_to_db}
use akula.State.InMemory.{
  InMemoryState, reader, chain_reader, apply_all, unwind_state_changes, read_header, read_body,
  total_difficulty, canonical_hash, current_canonical_block, canonize_block, decanonize_block,
}
use akula.State.InMemory
use akula.Models.Message.{MessageWithSender}
use akula.Models.Header.{BlockHeader, PartialHeader, from_header}
use akula.Models.Block.{MessageWithSignature, Block, BlockBodyWithSenders}
use akula.Models.Revision.{Revision, Rank}
use akula.Models.ChainSpec.{ChainSpec, BlockExecutionSpec, collect_block_spec}
use akula.Consensus.Base.{ChainReader, unwrap}
use akula.Consensus.Ethash.{FinalizationChange}
use akula.Execution.Processor.{Processor, Receipt, Execute}
use akula.Execution.Processor.Block.{execute_and_write_block}
unfoldable pub use Blocks.*

module _ (engine : Engine) (env : Environment) (config : ChainSpec) where
  -- The blocks of the new chain are taken back, and those of the old chain executed again.
  unfoldable pub go_back : ℕ → ℕ → ℕ → InMemoryState → Step
  unfolding unwind_last_changes re_execute_canonical_chain
  go_back ancestor executed current_canonical_block s =
      after (unwind_last_changes ancestor (ancestor + executed) s)
        (re_execute_canonical_chain engine env config ancestor current_canonical_block)

  -- From the insertion of the executed block on.
  unfoldable pub choose : Block → ℕ → ℕ → ℕ → List WithHash → ℕ → InMemoryState → Step
  unfolding canonize_blocks decanonize_blocks go_back
  choose block hash ancestor current_canonical_block chain executed s =
      let s' = InMemory.insert_block block hash s in
      with_found s' (difficulties s' current_canonical_block block.header.number hash) λ d.
        if ltb d.0 d.1
        then (adopt ancestor current_canonical_block chain s', ok tt)
        else go_back ancestor executed current_canonical_block s'

  -- What a block that fails to be executed leaves behind.
  unfoldable pub reject : ℕ → ℕ → ℕ → ℕ → Error → Blockchain → Outcome
  unfolding go_back
  reject hash ancestor executed current_canonical_block e bc = elim (downcast e) [
    | none ↦ (bc, err e)
    | some error ↦
        let (s, result) = go_back ancestor executed current_canonical_block bc.state in
        (
          record { state = s; bad_blocks = HashMap.insert bc.bad_blocks hash error },
          elim result [ err x ↦ err x | ok done ↦ err e ],
        )
  ]

  -- After the chain from the ancestor to the block has been executed.
  abbrev pub conclude :
      Block
      → ℕ
      → ℕ
      → ℕ
      → List WithHash
      → Blockchain
      → InMemoryState × ℕ × Result (Unit {0})
      → Outcome
  conclude block hash ancestor current_canonical_block chain bc (s, executed, ok done) =
      let (s', result) = choose block hash ancestor current_canonical_block chain executed s in
      (record bc { state = s' }, result)
  conclude block hash ancestor current_canonical_block chain bc (s, executed, err e) =
      reject hash ancestor executed current_canonical_block e (record bc { state = s })

  -- The block with its senders, and the ancestor that is canonical.
  unfoldable pub find_ancestor : Blockchain → Block → Result (BlockWithSenders × ℕ)
  unfolding canonical_ancestor
  find_ancestor bc block = from_block engine env config block >>= λ b.
      map_ok (λ ancestor. (b, ancestor))
        (canonical_ancestor engine env config (suc b.header.number) bc.state b.header
          (env.hash block.header))

  -- The same, if the block is not known to be bad.
  unfoldable pub known_or_find : Blockchain → Block → Result (BlockWithSenders × ℕ)
  unfolding find_ancestor
  known_or_find bc block = elim (HashMap.get bc.bad_blocks (env.hash block.header)) [
    | some error ↦ err (validation error)
    | none ↦ find_ancestor bc block
  ]

  -- The checks of a block.
  unfoldable pub prepare : Blockchain → Block → Result (BlockWithSenders × ℕ)
  unfolding known_or_find
  prepare bc block = do
    engine.validate_block_header (chain_reader bc.state) block.header true
    engine.pre_validate_block (chain_reader bc.state) block
    known_or_find bc block

  unfoldable pub extend : Block → Bool → BlockWithSenders → ℕ → Blockchain → Outcome
  unfolding unwind_last_changes intermediate_chain execute_chain choose reject
  extend block check_state_root b ancestor bc =
      let hash = env.hash block.header in
      let current = current_canonical_block bc.state in
      let (s, result) = unwind_last_changes ancestor current bc.state in
      elim result [
        | err e ↦ (bc, err e)
        | ok done ↦
            elim (intermediate_chain engine env config s (sub64 b.header.number 1)
              b.header.parent_hash ancestor) [
                | err e ↦ (record bc { state = s }, err e)
                | ok before ↦
                    let chain = before ++ record { inner = b; hash = hash } ∷ [] in
                    conclude block hash ancestor current chain bc
                      (execute_chain engine env config check_state_root chain 0 s)
              ]
      ]

  unfoldable pub insert_block : Block → Bool → Blockchain → Outcome
  unfolding prepare extend
  insert_block block check_state_root bc = elim (prepare bc block) [
    | err e ↦ (bc, err e)
    | ok (b, ancestor) ↦ extend block check_state_root b ancestor bc
  ]

-- `new_with_consensus`
unfoldable pub new : (hash : ℕ) → Block → InMemoryState → Blockchain
new hash genesis_block state = record {
  state =
      canonize_block genesis_block.header.number hash
        (InMemory.insert_block genesis_block hash state);
  bad_blocks = HashMap.empty;
}
