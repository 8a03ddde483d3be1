-- ===== src/State/Delta.antt =====
-- src/state/delta.rs: the reversible changes and how each is undone.
use akula.Prelude.{ℕ, ◌==◌, if◌then◌else◌, Option, none, some, List, unwrap_or}
use akula.Prelude.Words.{sub64}
use akula.Errors.{Result, ok, err, panicked}
use akula.HashMap
use akula.HashMap.{HashMap}
use akula.HashSet
use akula.HashSet.{HashSet}
use akula.State.Object.{Object, Storage, default_storage}

pub data Delta : Type 0 where
  create : (address : ℕ) → Delta
  update : (address : ℕ) (previous : Object) → Delta
  update_balance : (address previous : ℕ) → Delta
  incarnation : (address : ℕ) → Delta
  selfdestruct : (address : ℕ) → Delta
  touched : (address : ℕ) → Delta
  storage_change : (address key previous : ℕ) → Delta
  storage_wipe : (address : ℕ) (storage : Storage) → Delta
  storage_create : (address : ℕ) → Delta
  storage_access : (address key : ℕ) → Delta
  account_access : (address : ℕ) → Delta

-- An address that logged, and the topics and data of the log, whose content no code here reads.
pub record Log : Type 0 where
  pub address : ℕ
  pub topics : List ℕ
  pub payload : List ℕ

-- `IntraBlockState` of src/state/intra_block_state.rs without its database. `journal` and `logs` are
-- vectors whose last element is the head of the list here.
pub record IntraBlockState : Type 0 where
  pub objects : HashMap Object
  pub storage : HashMap Storage
  pub incarnations : HashMap ℕ
  pub existing_code : HashMap (List ℕ)
  pub new_code : HashMap (List ℕ)
  pub journal : List Delta
  pub self_destructs : HashSet
  pub logs : List Log
  pub touched : HashSet
  pub refund : ℕ
  pub accessed_addresses : HashSet
  pub accessed_storage_keys : HashMap HashSet

-- `storage.entry(address).or_default()`
abbrev pub storage_entry : IntraBlockState → ℕ → Storage
storage_entry s address = unwrap_or (HashMap.get s.storage address) default_storage

-- `accessed_storage_keys.entry(address).or_default()`
abbrev pub accessed_entry : IntraBlockState → ℕ → HashSet
accessed_entry s address = unwrap_or (HashMap.get s.accessed_storage_keys address) HashSet.empty

-- The two `unwrap`s of the `UpdateBalance` case.
unfoldable pub revert_balance : ℕ → ℕ → Option Object → IntraBlockState → Result IntraBlockState
revert_balance address previous none s = err panicked
revert_balance address previous (some obj) s = elim obj.current [
  | none ↦ err panicked
  | some account ↦ ok (record s {
    objects =
        HashMap.insert s.objects address
          (record obj { current = some (record account { balance = previous }) });
  })
]

-- The `Incarnation` case, whose entry must be there.
unfoldable pub revert_incarnation : ℕ → Option ℕ → IntraBlockState → Result IntraBlockState
revert_incarnation address none s = err panicked
revert_incarnation address (some n) s =
    let m = sub64 n 1 in
    ok (record s {
      incarnations =
          if m == 0
          then HashMap.remove s.incarnations address
          else HashMap.insert s.incarnations address m;
    })

-- `Delta::revert`
unfoldable pub revert : Delta → IntraBlockState → Result IntraBlockState
unfolding revert_balance revert_incarnation
revert (create address) s = ok (record s { objects = HashMap.remove s.objects address })
revert (update address previous) s =
    ok (record s { objects = HashMap.insert s.objects address previous })
revert (update_balance address previous) s =
    revert_balance address previous (HashMap.get s.objects address) s
revert (incarnation address) s = revert_incarnation address (HashMap.get s.incarnations address) s
revert (selfdestruct address) s =
    ok (record s { self_destructs = HashSet.remove s.self_destructs address })
revert (touched address) s = ok (record s { touched = HashSet.remove s.touched address })
revert (storage_change address key previous) s =
    let entry = storage_entry s address in
    ok (record s {
      storage =
          HashMap.insert s.storage address
            (record entry { current = HashMap.insert entry.current key previous });
    })
revert (storage_wipe address storage) s =
    ok (record s { storage = HashMap.insert s.storage address storage })
revert (storage_create address) s = ok (record s { storage = HashMap.remove s.storage address })
revert (storage_access address key) s = ok (record s {
  accessed_storage_keys =
      HashMap.insert s.accessed_storage_keys address
        (HashSet.remove (accessed_entry s address) key);
})
revert (account_access address) s =
    ok (record s { accessed_addresses = HashSet.remove s.accessed_addresses address })
