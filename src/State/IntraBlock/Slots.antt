-- ===== src/State/IntraBlock/Slots.antt =====
-- src/state/intra_block_state.rs: the storage of accounts, and the snapshots.
use akula.Prelude.{
  ℕ, zero, suc, ◌-◌, ◌==◌, if◌then◌else◌, Bool, true, false, ◌||◌, Option, none, some, List, [],
  ◌∷◌, is_none, is_some, unwrap_or, length, drop, map,
}
use akula.Errors.{Result, ok, err, panicked}
use akula.HashMap
use akula.HashMap.{HashMap}
use akula.HashSet
use akula.State.Interface.{Reader}
use akula.State.Monad.{Method, pure, gets, modify, lift, ◌>>=◌, ◌>>◌}
use akula.State.Object.{Object, CommittedValue, Storage}
use akula.State.Delta.{Delta, storage_change, IntraBlockState, storage_entry, revert}
use akula.State.IntraBlock.{push, get_object}

-- `self.storage.entry(address).or_default()`, which writes the default back.
abbrev pub put_storage : ℕ → Storage → IntraBlockState → IntraBlockState
put_storage address storage s = record s { storage = HashMap.insert s.storage address storage }

abbrev pub commit_value : ℕ → ℕ → ℕ → IntraBlockState → IntraBlockState
commit_value address key val s =
    let storage = storage_entry s address in
    put_storage address
      (record storage {
        committed = HashMap.insert storage.committed key (record { initial = val; original = val });
      })
      s

abbrev pub write_slot : ℕ → ℕ → ℕ → IntraBlockState → IntraBlockState
write_slot address key value s =
    let storage = storage_entry s address in
    put_storage address (record storage { current = HashMap.insert storage.current key value }) s

module _ (db : Reader) where
  -- The read that `get_storage` comes to when neither map has the key.
  unfoldable pub fetch_slot : ℕ → ℕ → Bool → Method ℕ
  fetch_slot address key cleared = if cleared then pure 0 else do
    val ← lift (db.read_storage address key)
    modify (commit_value address key val)
    pure val

  unfoldable pub committed_slot : ℕ → ℕ → Object → Option CommittedValue → Method ℕ
  committed_slot address key obj (some v) = pure v.original
  committed_slot address key obj none = do
    incarnation ← gets (λ s. HashMap.get s.incarnations address)
    fetch_slot address key (is_none obj.initial || is_some incarnation)

  unfoldable pub slot : ℕ → ℕ → Object → Storage → Option ℕ → Method ℕ
  slot address key obj storage (some v) = pure v
  slot address key obj storage none =
      committed_slot address key obj (HashMap.get storage.committed key)

  unfoldable pub get_storage_of : ℕ → ℕ → Bool → Option Object → Method ℕ
  get_storage_of address key original none = pure 0
  get_storage_of address key original (some obj) =
      if is_some obj.current
      then (do
        storage ← gets (λ s. storage_entry s address)
        modify (put_storage address storage)
        slot address key obj storage (if original then none else HashMap.get storage.current key))
      else pure 0

  unfoldable pub get_storage : ℕ → ℕ → Bool → Method ℕ
  unfolding get_storage_of slot committed_slot fetch_slot
  get_storage address key original = do
    obj ← get_object db address
    get_storage_of address key original obj

  unfoldable pub get_current_storage : ℕ → ℕ → Method ℕ
  get_current_storage address key = get_storage address key false

  unfoldable pub get_original_storage : ℕ → ℕ → Method ℕ
  get_original_storage address key = get_storage address key true

  -- The write of a new value, and its delta.
  unfoldable pub change_slot : ℕ → ℕ → ℕ → ℕ → Method (Unit {0})
  change_slot address key value previous = do
    modify (write_slot address key value)
    modify (push (storage_change address key previous))

  unfoldable pub set_storage : ℕ → ℕ → ℕ → Method (Unit {0})
  unfolding change_slot
  set_storage address key value = do
    previous ← get_current_storage address key
    if previous == value then pure tt else change_slot address key value previous

pub record Snapshot : Type 0 where
  pub journal_size : ℕ
  pub log_size : ℕ
  pub refund : ℕ

unfoldable pub take_snapshot : IntraBlockState → Snapshot
take_snapshot s = record {
  journal_size = length s.journal;
  log_size = length s.logs;
  refund = s.refund;
}

-- `self.journal.pop().unwrap().revert(self)`
unfoldable pub pop_delta : List Delta → IntraBlockState → Result IntraBlockState
pop_delta [] s = err panicked
pop_delta (d ∷ rest) s = revert d (record s { journal = rest })

abbrev pub then_revert :
    Result IntraBlockState → (IntraBlockState → Result IntraBlockState) → Result IntraBlockState
then_revert (ok s) f = f s
then_revert (err e) f = err e

-- The loop of `revert_to_snapshot`, by its rounds.
unfoldable pub revert_last : ℕ → IntraBlockState → Result IntraBlockState
unfolding pop_delta
revert_last zero s = ok s
revert_last (suc n) s = then_revert (pop_delta s.journal s) (revert_last n)

-- `Vec::truncate`, of a vector whose last element is the head of the list.
abbrev pub truncate {ℓ} : {A : Type ℓ} → ℕ → List A → List A
truncate n l = drop (length l - n) l

abbrev pub restore_substate : Snapshot → IntraBlockState → IntraBlockState
restore_substate snapshot s = record s {
  logs = truncate snapshot.log_size s.logs;
  refund = snapshot.refund;
}

unfoldable pub revert_to_snapshot : Snapshot → IntraBlockState → Result IntraBlockState
unfolding revert_last
revert_to_snapshot snapshot s =
    then_revert (revert_last (length s.journal - snapshot.journal_size) s)
      (λ t. ok (restore_substate snapshot t))

-- `storage.committed.entry(*key).or_default().original = *val`
abbrev pub commit_entry : HashMap CommittedValue → ℕ × ℕ → HashMap CommittedValue
commit_entry committed (key, val) =
    HashMap.insert committed key
      (record (unwrap_or (HashMap.get committed key) (record { initial = 0; original = 0 })) {
        original = val;
      })

unfoldable pub commit_entries : HashMap CommittedValue → List (ℕ × ℕ) → HashMap CommittedValue
commit_entries committed [] = committed
commit_entries committed (e ∷ rest) = commit_entries (commit_entry committed e) rest

abbrev pub commit_storage : Storage → Storage
commit_storage storage = record {
  committed = commit_entries storage.committed storage.current.entries;
  current = HashMap.empty;
}

unfoldable pub finalize_transaction : IntraBlockState → IntraBlockState
unfolding commit_entries
finalize_transaction s = record s {
  storage = record {
    entries = map (λ (e : ℕ × Storage). (e.0, commit_storage e.1)) s.storage.entries;
  };
}

unfoldable pub clear_journal_and_substate : IntraBlockState → IntraBlockState
clear_journal_and_substate s = record s {
  journal = [];
  self_destructs = HashSet.empty;
  logs = [];
  touched = HashSet.empty;
  refund = 0;
  accessed_addresses = HashSet.empty;
  accessed_storage_keys = HashMap.empty;
}
