-- ===== src/State/IntraBlock/Rollback/Frames.antt =====
-- A message call, as the interpreter runs it against `IntraBlockState`: operations, and calls that end
-- with a revert to the snapshot that was taken before them. The calls of one transaction stand between
-- two runs of `clear_journal_and_substate`, so the operations that end a transaction are not among them.
use akula.Prelude.{ℕ, ◌≡◌, List, arith}
use akula.Errors.{Result, ok, err, map_ok}
use akula.State.Interface.{Reader}
use akula.State.Monad.{Method}
use akula.State.Delta.{Log, IntraBlockState}
use akula.State.IntraBlock.{
  touch, record_selfdestruct, access_account, access_storage, add_log, add_refund, subtract_refund,
  exists, is_dead, get_balance, get_nonce, get_code_hash, set_balance, add_to_balance,
  subtract_from_balance, set_nonce,
}
use akula.State.IntraBlock.Contracts.{create_contract, get_code, set_code}
use akula.State.IntraBlock.Slots.{
  get_current_storage, get_original_storage, set_storage, take_snapshot, revert_to_snapshot,
}
use akula.State.IntraBlock.Rollback.{Undo}
use akula.State.IntraBlock.Rollback.Creation.{IsCounted}
use akula.State.IntraBlock.Rollback.Steps.{Step}
use akula.State.IntraBlock.Rollback.Reads.{IsLive}

pub data Operation : Type 0 where
  exists_of is_dead_of get_balance_of get_nonce_of get_code_of get_code_hash_of :
      (address : ℕ) → Operation
  get_current_storage_of get_original_storage_of : (address key : ℕ) → Operation
  create_contract_at record_selfdestruct_of touch_of access_account_of : (address : ℕ) → Operation
  set_balance_of add_to_balance_of subtract_from_balance_of set_nonce_of :
      (address value : ℕ) → Operation
  set_code_of : (address : ℕ) (code : List ℕ) → Operation
  access_storage_of : (address key : ℕ) → Operation
  set_storage_of : (address key value : ℕ) → Operation
  log_of : (log : Log) → Operation
  add_refund_of subtract_refund_of : (gas : ℕ) → Operation

abbrev pub state_of : {A : Type 0} → Result (A × IntraBlockState) → Result IntraBlockState
state_of r = map_ok (λ p. p.1) r

module _ (db : Reader) (keccak256 : List ℕ → ℕ) where
  unfoldable pub perform : Operation → IntraBlockState → Result IntraBlockState
  perform (exists_of a) s = state_of (exists db a s)
  perform (is_dead_of a) s = state_of (is_dead db a s)
  perform (get_balance_of a) s = state_of (get_balance db a s)
  perform (get_nonce_of a) s = state_of (get_nonce db a s)
  perform (get_code_of a) s = state_of (get_code db a s)
  perform (get_code_hash_of a) s = state_of (get_code_hash db a s)
  perform (get_current_storage_of a k) s = state_of (get_current_storage db a k s)
  perform (get_original_storage_of a k) s = state_of (get_original_storage db a k s)
  perform (create_contract_at a) s = state_of (create_contract db a s)
  perform (record_selfdestruct_of a) s = state_of (record_selfdestruct a s)
  perform (touch_of a) s = state_of (touch a s)
  perform (access_account_of a) s = state_of (access_account a s)
  perform (set_balance_of a v) s = state_of (set_balance db a v s)
  perform (add_to_balance_of a v) s = state_of (add_to_balance db a v s)
  perform (subtract_from_balance_of a v) s = state_of (subtract_from_balance db a v s)
  perform (set_nonce_of a n) s = state_of (set_nonce db a n s)
  perform (set_code_of a code) s = state_of (set_code db keccak256 a code s)
  perform (access_storage_of a k) s = state_of (access_storage a k s)
  perform (set_storage_of a k v) s = state_of (set_storage db a k v s)
  perform (log_of log) s = state_of (add_log log s)
  perform (add_refund_of gas) s = state_of (add_refund gas s)
  perform (subtract_refund_of gas) s = state_of (subtract_refund gas s)

  -- What an operation may count on: only an account that is there has its storage written, and no
  -- incarnation counter has run through its 2^64 values.
  abbrev pub Allowed : Operation → IntraBlockState → Type 0
  Allowed (create_contract_at a) s = IsCounted s a
  Allowed (set_storage_of a k v) s = IsLive db s a
  Allowed _ s = Unit {0}

  pub data Frame : IntraBlockState → IntraBlockState → Type 0 where
    stop : (s : IntraBlockState) → Frame s s
    act :
        {s t u : IntraBlockState} (o : Operation)
        → Allowed o s
        → perform o s ≡ ok t
        → Frame t u
        → Frame s u
    call_reverted :
        {s t u w : IntraBlockState}
        → Frame s t
        → revert_to_snapshot (take_snapshot s) t ≡ ok u
        → Frame u w
        → Frame s w

  returned :
      {A : Type 0} (r : Result (A × IntraBlockState)) (t : IntraBlockState)
      → state_of r ≡ ok t
      → (a : A) × (r ≡ ok (a, t))
  returned (ok (a, s)) t h = (a, ground arith)
  returned (err e) t h = cc

  pub by_Step :
      {A : Type 0} {P : IntraBlockState → Type 0} {Q : A → IntraBlockState → Type 0} {m : Method A}
      → Step db P m Q
      → {s t : IntraBlockState} → P s
      → state_of (m s) ≡ ok t
      → Undo db s t
  by_Step {A} {P} {Q} {m} step {s} {t} h e =
      let (a, r) = returned (m s) t e in (step.at s h a t r).0
