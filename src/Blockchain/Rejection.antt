-- ===== src/Blockchain/Rejection.antt =====
-- `execute_block` of src/consensus/blockchain.rs: the state root of a block that passes, and the state
-- behind one that does not.
use akula.Prelude.{◌≡◌, Bool, true, List, ◌∷◌}
use akula.Errors.{ok, err}
use akula.State.IntraBlock.Writes.{Write, begin_block}
use akula.State.InMemory.{InMemoryState}
use akula.State.InMemory.Unwinding.{IsWritten, Same}
use akula.Models.ChainSpec.{ChainSpec}
use akula.Blockchain.{Engine, Environment, BlockWithSenders, Step, writes_of}

module _ (engine : Engine) (env : Environment) (config : ChainSpec) where
  -- What is written of a block fits the state that it is executed on.
  abbrev pub Fits : BlockWithSenders → InMemoryState → Type 0
  Fits block s =
      (ws : List Write)
      → writes_of engine env config s block ≡ ok (begin_block block.header.number ∷ ws)
      → IsWritten s ws

  -- How a block ends: with the root of its header, if it is checked, or with an error and a state that
  -- reads as before.
  abbrev pub Ends : BlockWithSenders → Bool → InMemoryState → Step → Type 0
  Ends block check_state_root s (t, ok done) =
      check_state_root ≡ true → env.state_root_hash t ≡ block.header.state_root
  Ends block check_state_root s (t, err e) = Same s t
