-- ===== src/Execution/Evm/Sstore.antt =====
-- src/execution/evm.rs, the interrupt `SetStorage`: the write of a slot, its status and its refunds.
use akula.Prelude.{ℕ, ◌+◌, ◌-◌, Bool, not, ◌&&◌, ◌||◌, ◌==◌, if◌then◌else◌}
use akula.State.Interface.{Reader}
use akula.State.Monad.{Method, ◌>>=◌, ◌>>◌, pure}
use akula.State.IntraBlock.{add_refund, subtract_refund}
use akula.State.IntraBlock.Slots.{get_current_storage, get_original_storage}
use akula.State.IntraBlock.Slots
use akula.Models.Revision.{Revision, Rank, at_least, is_constantinople, istanbul, berlin, london}
use akula.Chain.Fee.{
  g_sset, g_sreset, g_sload_istanbul, g_sload_tangerine_whistle, warm_storage_read_cost,
  cold_sload_cost, access_list_storage_key_cost, r_sclear,
}
use akula.Execution.Evm.Interpreter.{
  StorageStatus, unchanged, modified, modified_again, added, deleted,
}

module _ (rank : Rank) (rev : Revision) where
  abbrev pub eip1283 : Bool
  eip1283 = at_least rank rev istanbul || is_constantinople rev

  abbrev pub sload_cost : ℕ
  sload_cost =
      if at_least rank rev berlin
      then warm_storage_read_cost
      else if at_least rank rev istanbul
      then g_sload_istanbul
      else g_sload_tangerine_whistle

  abbrev pub sstore_reset_gas : ℕ
  sstore_reset_gas = if at_least rank rev berlin then g_sreset - cold_sload_cost else g_sreset

  abbrev pub sstore_clears_refund : ℕ
  sstore_clears_refund =
      if at_least rank rev london then sstore_reset_gas + access_list_storage_key_cost else r_sclear

  -- The refunds of a slot that this transaction has written before.
  unfoldable pub refund_again : ℕ → ℕ → ℕ → Method (Unit {0})
  refund_again original_val current_val new_val = do
    if not (original_val == 0) && current_val == 0
        then subtract_refund sstore_clears_refund
        else pure tt
    if not (original_val == 0) && new_val == 0 then add_refund sstore_clears_refund else pure tt
    if original_val == new_val
        then add_refund
            (if original_val == 0 then g_sset - sload_cost else sstore_reset_gas - sload_cost)
        else pure tt

  -- The status of a changed slot under EIP-1283, and its refunds.
  unfoldable pub metered : ℕ → ℕ → ℕ → Method StorageStatus
  unfolding refund_again
  metered original_val current_val new_val =
      if original_val == current_val
      then if original_val == 0
        then pure added
        else (do if new_val == 0 then add_refund sstore_clears_refund else pure tt; pure modified)
      else (do refund_again original_val current_val new_val; pure modified_again)

  -- The same before it.
  unfoldable pub unmetered : ℕ → ℕ → Method StorageStatus
  unmetered current_val new_val =
      if current_val == 0
      then pure added
      else if new_val == 0
      then (do add_refund r_sclear; pure deleted)
      else pure modified

  module _ (db : Reader) where
    unfoldable pub set_storage : ℕ → ℕ → ℕ → Method StorageStatus
    unfolding metered unmetered
    set_storage address key new_val = do
      current_val ← get_current_storage db address key
      if current_val == new_val then pure unchanged else (do
        Slots.set_storage db address key new_val
        if eip1283
            then (do
              original_val ← get_original_storage db address key
              metered original_val current_val new_val)
            else unmetered current_val new_val)
