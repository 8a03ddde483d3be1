-- ===== src/State/Examples.antt =====
-- Tests of the journaled state on a database with one account, and instances of its theorems.
use akula.Prelude.{◌&&◌, ℕ, ◌≡◌, refl, ◌==◌, if◌then◌else◌, none, some, List, [], arith}
use akula.Errors.{Result, ok, err}
use akula.HashMap
use akula.HashSet
use akula.State.Interface.{Reader}
use akula.State.Monad.{pure, gets, modify, lift, unwrap, ◌>>=◌}
use akula.State.Object.{Account, Object, default_account}
use akula.State.Delta.{IntraBlockState}
use akula.Prelude.Words.{add256}
use akula.State.IntraBlock.Rollback.Reads.{IsLive}
use akula.State.IntraBlock.Values.{set_storage-get_current_storage}
use akula.State.IntraBlock.Accounts.{write_balance-get_balance}
use akula.State.IntraBlock.Writes.{
  account_written, write_to_db, values_of, write_to_db-account_written,
}
use akula.State.IntraBlock.{
  write_balance, new, get_object, get_or_create_object, ensure_object, get_balance, add_to_balance,
  touch,
}
use akula.State.IntraBlock.Contracts.{create_contract}
use akula.State.IntraBlock.Slots.{
  get_storage, get_current_storage, set_storage, take_snapshot, revert_to_snapshot,
}
use akula.State.IntraBlock.Rollback.Frames.{
  Operation, add_to_balance_of, set_storage_of, create_contract_at, perform, Frame, stop, act,
}
use akula.State.IntraBlock.Rollback.Snapshots.{Reverted, revert-take_snapshot}

-- Address 7 has a balance of 10 and holds 5 in slot 1.
abbrev genesis : Reader
genesis = record {
  read_account = λ a. ok (if a == 7 then some (record default_account { balance = 10 }) else none);
  read_code = λ h. ok [];
  read_storage = λ a k. ok (if k == 1 then 5 else 0);
}

abbrev no_hash : List ℕ → ℕ
no_hash code = 0

abbrev value_of : {A : Type 0} → A → Result (A × IntraBlockState) → A
value_of d (ok (a, s)) = a
value_of d (err e) = d

abbrev after : Result IntraBlockState → IntraBlockState
after (ok s) = s
after (err e) = new

abbrev run : Operation → IntraBlockState → IntraBlockState
run o s = after (perform genesis no_hash o s)

abbrev paid : IntraBlockState
paid = run (add_to_balance_of 7 32) new

abbrev stored : IntraBlockState
stored = run (set_storage_of 7 1 9) paid

abbrev recreated : IntraBlockState
recreated = run (create_contract_at 7) stored

reads_new_balance : value_of 0 (get_balance genesis 7 stored) ≡ 42
unfolding perform add_to_balance set_storage get_current_storage get_storage get_object
    get_or_create_object ensure_object get_balance touch HashMap.get HashMap.insert HashMap.empty
    HashSet.contains HashSet.insert HashSet.empty pure gets modify lift unwrap ◌>>=◌
reads_new_balance = refl

reads_new_slot : value_of 0 (get_current_storage genesis 7 1 stored) ≡ 9
unfolding perform add_to_balance set_storage get_current_storage get_storage get_object
    get_or_create_object ensure_object get_balance touch HashMap.get HashMap.insert HashMap.empty
    HashSet.contains HashSet.insert HashSet.empty pure gets modify lift unwrap ◌>>=◌
reads_new_slot = refl

wiped_slot : value_of 1 (get_current_storage genesis 7 1 recreated) ≡ 0
unfolding perform create_contract add_to_balance set_storage get_current_storage get_storage
    get_object get_or_create_object ensure_object get_balance touch HashMap.get HashMap.insert
    HashMap.remove HashMap.empty HashSet.contains HashSet.insert HashSet.empty pure gets modify lift
    unwrap ◌>>=◌
wiped_slot = refl

recreated-Frame : Frame genesis no_hash new recreated
unfolding perform create_contract add_to_balance set_storage get_current_storage get_storage
    get_object get_or_create_object ensure_object get_balance touch HashMap.get HashMap.insert
    HashMap.remove HashMap.empty HashSet.contains HashSet.insert HashSet.empty pure gets modify lift
    unwrap ◌>>=◌
recreated-Frame = act {t = paid} (add_to_balance_of 7 32) tt refl (
    act {t = stored} (set_storage_of 7 1 9)
      (
        record {
          initial = some (record default_account { balance = 10 });
          current = some (record default_account { balance = 42 });
        },
        record default_account { balance = 42 },
        refl,
        refl,
      )
      refl
      (act {t = recreated} (create_contract_at 7)
        (record { positive = λ e. cc; bounded = omega arith }) refl (stop recreated)))

revert-take_snapshot_example :
    (u : IntraBlockState) × (revert_to_snapshot (take_snapshot new) recreated ≡ ok u)
    × Reverted genesis new u
revert-take_snapshot_example = revert-take_snapshot genesis no_hash new recreated recreated-Frame

write_to_db-account_written_example :
    account_written 7 (write_to_db stored 5) ≡ values_of (HashMap.get stored.objects 7)
write_to_db-account_written_example = write_to_db-account_written stored 5 7

abbrev read_first : Result (ℕ × IntraBlockState)
read_first = get_balance genesis 7 new

abbrev after_write : Result (Unit {0} × IntraBlockState)
after_write = write_balance genesis 7 (λ v. add256 v 32) new

abbrev state_after : {A : Type 0} → Result (A × IntraBlockState) → IntraBlockState
state_after (ok (a, s)) = s
state_after (err e) = new

abbrev read_again : Result (ℕ × IntraBlockState)
read_again = get_balance genesis 7 (state_after after_write)

write_balance-get_balance_example : value_of 0 read_again ≡ (if 7 == 7 then add256 10 32 else 10)
unfolding write_balance get_balance get_object get_or_create_object ensure_object touch HashMap.get
    HashMap.insert HashMap.empty HashSet.contains HashSet.insert HashSet.empty pure gets modify lift
    unwrap ◌>>=◌
write_balance-get_balance_example =
    write_balance-get_balance genesis 7 7 (λ v. add256 v 32) new (state_after after_write)
      (state_after read_first) (state_after read_again) 10 (value_of 0 read_again) refl refl refl

abbrev rich : Account
rich = record default_account { balance = 42 }

abbrev rich_object : Object
rich_object = record {
  initial = some (record default_account { balance = 10 });
  current = some rich;
}

paid-IsLive : IsLive genesis paid 7
unfolding perform add_to_balance get_object get_or_create_object ensure_object touch HashMap.get
    HashMap.insert HashMap.empty HashSet.contains HashSet.insert HashSet.empty pure gets modify lift
    unwrap ◌>>=◌
paid-IsLive = (rich_object, rich, refl, refl)

set_storage-get_current_storage_example :
    value_of 0 (get_current_storage genesis 7 1 stored) ≡ (if 7 == 7 && 1 == 1 then 9 else 5)
unfolding perform add_to_balance set_storage get_current_storage get_storage get_object
    get_or_create_object ensure_object get_balance touch HashMap.get HashMap.insert HashMap.empty
    HashSet.contains HashSet.insert HashSet.empty pure gets modify lift unwrap ◌>>=◌
set_storage-get_current_storage_example =
    set_storage-get_current_storage genesis 7 1 9 7 1 paid stored
      (state_after (get_current_storage genesis 7 1 paid))
      (state_after (get_current_storage genesis 7 1 stored)) 5
      (value_of 0 (get_current_storage genesis 7 1 stored)) paid-IsLive paid-IsLive refl refl refl
