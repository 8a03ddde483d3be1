-- ===== src/Blockchain/Blocks.antt =====
-- src/consensus/blockchain.rs: blocks are executed, taken back, and looked up by their parents.
use akula.Prelude.{
  ℕ, zero, suc, ◌-◌, Bool, false, not, ◌&&◌, Option, none, some, List, [], ◌∷◌, leb, ◌==◌,
  if◌then◌else◌,
}
use akula.Prelude.Words.{sub64}
use akula.Errors.{
  ValidationError, Error, Result, ok, err, validation, context, database, panicked, ◌>>=◌, map_ok,
  ok_or,
}
use akula.HashMap.{HashMap}
use akula.State.Interface.{Reader}
use akula.State.Delta.{Log}
use akula.State.IntraBlock
use akula.State.IntraBlock.Writes.{Write, write_to_db}
use akula.State.InMemory.{
  InMemoryState, reader, apply_all, unwind_state_changes, read_header, read_body, total_difficulty,
  canonical_hash, current_canonical_block, canonize_block, decanonize_block,
}
use akula.Models.Message.{MessageWithSender}
use akula.Models.Header.{BlockHeader, PartialHeader, from_header}
use akula.Models.Block.{MessageWithSignature, Block, BlockBodyWithSenders}
use akula.Models.Revision.{Revision, Rank}
use akula.Models.ChainSpec.{ChainSpec, BlockExecutionSpec, collect_block_spec}
use akula.Consensus.Base.{ChainReader, unwrap}
use akula.Consensus.Ethash.{FinalizationChange}
use akula.Execution.Processor.{Processor, Receipt, Execute}
use akula.Execution.Processor.Block.{execute_and_write_block}

-- `dyn Consensus`
pub record Engine : Type 0 where
  pub validate_block_header : ChainReader → BlockHeader → Bool → Result (Unit {0})
  pub pre_validate_block : ChainReader → Block → Result (Unit {0})
  pub finalize : PartialHeader → List BlockHeader → Revision → Result (List FinalizationChange)

-- The code of other crates.
pub record Environment : Type 0 where
  pub rank : Rank
  pub execute : Reader → PartialHeader → BlockExecutionSpec → Execute
  pub logs_bloom : List Log → ℕ
  pub root_hash : List Receipt → ℕ
  pub hash : BlockHeader → ℕ
  pub recover_sender : MessageWithSignature → Result ℕ
  pub state_root_hash : InMemoryState → ℕ

pub record BlockWithSenders : Type 0 where
  pub header : PartialHeader
  pub body : BlockBodyWithSenders

-- `WithHash<BlockWithSenders>`
pub record WithHash : Type 0 where
  pub inner : BlockWithSenders
  pub hash : ℕ

pub record Blockchain : Type 0 where
  pub state : InMemoryState
  pub bad_blocks : HashMap ValidationError

abbrev pub Outcome : Type 0
Outcome = Blockchain × Result (Unit {0})

-- `downcast_ref::<ValidationError>()`
abbrev pub downcast : Error → Option ValidationError
downcast (validation e) = some e
downcast (context e cause) = some e
downcast database = none
downcast panicked = none

-- `for block_number in (ancestor + 1..=tip).rev()`, for a number of blocks from the first on.
unfoldable pub unwind_blocks : ℕ → ℕ → InMemoryState → InMemoryState
unwind_blocks zero first s = s
unwind_blocks (suc more) first s = unwind_state_changes first (unwind_blocks more (suc first) s)

-- A method of the state that may fail, and leaves a state behind either way.
abbrev pub Step : Type 0
Step = InMemoryState × Result (Unit {0})

-- `?` after a step, and after a lookup, which leaves the state as it is.
abbrev pub after : Step → (InMemoryState → Step) → Step
after (s, err e) next = (s, err e)
after (s, ok done) next = next s

abbrev pub with_found : {A : Type 0} → InMemoryState → Result A → (A → Step) → Step
with_found s (err e) next = (s, err e)
with_found s (ok a) next = next a

unfoldable pub unwind_last_changes : ℕ → ℕ → InMemoryState → Step
unfolding unwind_blocks
unwind_last_changes ancestor tip s =
    if leb ancestor tip
    then (unwind_blocks (tip - ancestor) (suc ancestor) s, ok tt)
    else (s, err panicked)

-- `for i in (ancestor + 1..=current).rev()`
unfoldable pub decanonize_blocks : ℕ → ℕ → InMemoryState → InMemoryState
decanonize_blocks zero first s = s
decanonize_blocks (suc more) first s = decanonize_block first (decanonize_blocks more (suc first) s)

unfoldable pub canonize_blocks : List WithHash → InMemoryState → InMemoryState
canonize_blocks [] s = s
canonize_blocks (x ∷ chain) s =
    canonize_blocks chain (canonize_block x.inner.header.number x.hash s)

-- The branch in which the new chain is the heavier one.
abbrev pub adopt : ℕ → ℕ → List WithHash → InMemoryState → InMemoryState
adopt ancestor current_canonical_block chain s =
    canonize_blocks chain (decanonize_blocks (current_canonical_block - ancestor) (suc ancestor) s)

-- The total difficulties of the canonical block and of the new one.
abbrev pub difficulties : InMemoryState → ℕ → ℕ → ℕ → Result (ℕ × ℕ)
difficulties s current_canonical_block block_number hash = do
  canonical ← unwrap (canonical_hash s current_canonical_block)
  current_total_difficulty ← unwrap (total_difficulty s current_canonical_block canonical)
  new_total_difficulty ← unwrap (total_difficulty s block_number hash)
  ok (current_total_difficulty, new_total_difficulty)

module _ (engine : Engine) (env : Environment) (config : ChainSpec) where
  -- `recover_sender` of each transaction
  unfoldable pub with_senders : List MessageWithSignature → Result (List MessageWithSender)
  with_senders [] = ok []
  with_senders (tx ∷ rest) = do
    sender ← env.recover_sender tx
    transactions ← with_senders rest
    ok (record { message = tx.message; sender = sender } ∷ transactions)

  unfoldable pub read_body_with_senders :
      InMemoryState → ℕ → ℕ → Result (Option BlockBodyWithSenders)
  unfolding with_senders
  read_body_with_senders s block_number block_hash = elim (read_body s block_number block_hash) [
    | none ↦ ok none
    | some body ↦
        map_ok (λ txs. some (record { transactions = txs; ommers = body.ommers }))
          (with_senders body.transactions)
  ]

  -- `BlockWithSenders::from`, whose `unwrap` panics.
  abbrev pub from_block : Block → Result BlockWithSenders
  from_block block = elim (with_senders block.transactions) [
    | err e ↦ err panicked
    | ok txs ↦ ok record {
      header = from_header block.header;
      body = record { transactions = txs; ommers = block.ommers };
    }
  ]

  -- The header and the body of a block that is stored; the `unwrap` of one that is not panics.
  unfoldable pub stored_block : InMemoryState → ℕ → ℕ → Result BlockWithSenders
  unfolding read_body_with_senders
  stored_block s block_number hash = do
    body ← read_body_with_senders s block_number hash
    body ← unwrap body
    header ← unwrap (read_header s block_number hash)
    ok (record { header = from_header header; body = body })

  abbrev pub processor : InMemoryState → PartialHeader → Processor
  processor s header =
      let block_spec = collect_block_spec config header.number in
      record {
        db = reader s;
        rank = env.rank;
        execute = env.execute (reader s) header block_spec;
        logs_bloom = env.logs_bloom;
        header = header;
        block_spec = block_spec;
      }

  -- `execute_and_write_block`: the writes that it makes, none of which fails.
  unfoldable pub writes_of : InMemoryState → BlockWithSenders → Result (List Write)
  writes_of s block =
      map_ok (λ r. write_to_db r.1 block.header.number)
        (execute_and_write_block (processor s block.header) env.root_hash
          (engine.finalize block.header block.body.ommers
            (collect_block_spec config block.header.number).revision)
          (λ writes. ok tt) block.body IntraBlock.new)

  -- The end of `execute_block`.
  unfoldable pub check_root : BlockWithSenders → Bool → InMemoryState → Step
  check_root block check_state_root s =
      let state_root = env.state_root_hash s in
      if check_state_root && not (state_root == block.header.state_root)
      then (
        unwind_state_changes block.header.number s,
        err (validation (ValidationError.wrong_state_root block.header.state_root state_root)),
      )
      else (s, ok tt)

  unfoldable pub execute_block : BlockWithSenders → Bool → InMemoryState → Step
  unfolding writes_of check_root
  execute_block block check_state_root s = elim (writes_of s block) [
    | err e ↦ (s, err e)
    | ok writes ↦ check_root block check_state_root (apply_all writes s)
  ]

  -- The loop of `insert_block` over the chain, with the number of blocks that it has executed.
  unfoldable pub execute_chain :
      Bool → List WithHash → ℕ → InMemoryState → InMemoryState × ℕ × Result (Unit {0})
  unfolding execute_block
  execute_chain check_state_root [] executed s = (s, executed, ok tt)
  execute_chain check_state_root (x ∷ chain) executed s =
      let (s', result) = execute_block x.inner check_state_root s in
      elim result [
        | err e ↦ (s', executed, err e)
        | ok done ↦ execute_chain check_state_root chain (suc executed) s'
      ]

  -- The loop of `re_execute_canonical_chain`, for a number of blocks from the first on.
  unfoldable pub re_execute_blocks : ℕ → ℕ → InMemoryState → Step
  unfolding stored_block execute_block
  re_execute_blocks zero first s = (s, ok tt)
  re_execute_blocks (suc more) first s =
      let found = unwrap (canonical_hash s first) >>= stored_block s first in
      with_found s found λ block.
        let (s', result) = execute_block block false s in
        elim result [ err e ↦ (s', err panicked) | ok done ↦ re_execute_blocks more (suc first) s' ]

  unfoldable pub re_execute_canonical_chain : ℕ → ℕ → InMemoryState → Step
  unfolding re_execute_blocks
  re_execute_canonical_chain ancestor tip s =
      if leb ancestor tip
      then re_execute_blocks (tip - ancestor) (suc ancestor) s
      else (s, err panicked)

  -- The loop of `intermediate_chain`, for a number of blocks from the last one on, before those that are
  -- there already.
  unfoldable pub collect_chain : InMemoryState → ℕ → ℕ → ℕ → List WithHash → Result (List WithHash)
  unfolding stored_block
  collect_chain s zero block_number hash chain = ok chain
  collect_chain s (suc more) block_number hash chain = do
    block ← stored_block s block_number hash
    collect_chain s more (block_number - 1) block.header.parent_hash
        (record { inner = block; hash = hash } ∷ chain)

  -- The capacity of the vector is a difference that wraps, and panics then.
  unfoldable pub intermediate_chain : InMemoryState → ℕ → ℕ → ℕ → Result (List WithHash)
  unfolding collect_chain
  intermediate_chain s block_number hash canonical_ancestor =
      if leb canonical_ancestor block_number
      then collect_chain s (block_number - canonical_ancestor) block_number hash []
      else err panicked

  -- `canonical_ancestor`, with the calls that are left. Each goes to the number before.
  unfoldable pub canonical_ancestor : ℕ → InMemoryState → PartialHeader → ℕ → Result ℕ
  canonical_ancestor zero s header hash = err (validation ValidationError.unknown_parent)
  canonical_ancestor (suc calls) s header hash =
      let further = (do
        parent ←
            ok_or (read_header s (sub64 header.number 1) header.parent_hash)
              (validation ValidationError.unknown_parent)
        canonical_ancestor calls s (from_header parent) header.parent_hash) in
      elim (canonical_hash s header.number) [
        | none ↦ further
        | some found ↦ if found == hash then ok header.number else further
      ]
