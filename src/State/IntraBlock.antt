-- ===== src/State/IntraBlock.antt =====
-- src/state/intra_block_state.rs: the operations of `IntraBlockState` on objects, balances, code and
-- the access lists. The database is the parameter `db`; `AccessStatus` of evmodin is a data type here.
pub mod Contracts
pub mod Slots
pub mod Accounts
pub mod Writes
pub mod Values
pub mod Rollback
use akula.Prelude.{
  ℕ, ◌||◌, ◌+◌, ◌==◌, if◌then◌else◌, Bool, true, false, not, ◌&&◌, Option, none, some, List, [],
  ◌∷◌, is_none, is_some, unwrap_or,
}
use akula.Prelude.Words.{add64, sub64, add256, sub256}
use akula.Errors.{Result, ok, err}
use akula.HashMap
use akula.HashSet
use akula.State.Interface.{Reader}
use akula.State.Monad.{Method, pure, gets, modify, lift, unwrap, ◌>>=◌, ◌>>◌}
use akula.State.Object.{Account, Object, default_account, empty_hash}
use akula.State.Delta.{
  Delta, create, update, update_balance, incarnation, selfdestruct, touched, storage_wipe,
  storage_create, storage_access, account_access, Log, IntraBlockState, accessed_entry,
}

-- `IntraBlockState::new`
abbrev pub new : IntraBlockState
new = record {
  objects = HashMap.empty;
  storage = HashMap.empty;
  incarnations = HashMap.empty;
  existing_code = HashMap.empty;
  new_code = HashMap.empty;
  journal = [];
  self_destructs = HashSet.empty;
  logs = [];
  touched = HashSet.empty;
  refund = 0;
  accessed_addresses = HashSet.empty;
  accessed_storage_keys = HashMap.empty;
}

-- `self.journal.push(delta)`
abbrev pub push : Delta → IntraBlockState → IntraBlockState
push d s = record s { journal = d ∷ s.journal }

-- `objects.insert(address, object)`, and a write through the reference that `get_object` returns.
abbrev pub put_object : ℕ → Object → IntraBlockState → IntraBlockState
put_object address obj s = record s { objects = HashMap.insert s.objects address obj }

-- The object that a cached or a read account makes.
abbrev pub loaded : Account → Object
loaded account = record { initial = some account; current = some account }

-- `RIPEMD_ADDRESS`
abbrev pub ripemd_address : ℕ
ripemd_address = 3

abbrev pub touch_account : ℕ → IntraBlockState → IntraBlockState
touch_account address s =
    let s' = record s { touched = HashSet.insert s.touched address } in
    if HashSet.contains s.touched address || address == ripemd_address
    then s'
    else push (touched address) s'

unfoldable pub touch : ℕ → Method (Unit {0})
touch address s = ok (tt, touch_account address s)

abbrev pub selfdestruct_account : ℕ → IntraBlockState → IntraBlockState
selfdestruct_account address s =
    if HashSet.contains s.self_destructs address
    then s
    else push (selfdestruct address)
        (record s { self_destructs = HashSet.insert s.self_destructs address })

unfoldable pub record_selfdestruct : ℕ → Method (Unit {0})
record_selfdestruct address s = ok (tt, selfdestruct_account address s)

pub data AccessStatus : Type 0 where
  cold warm : AccessStatus

abbrev pub mark_account : ℕ → IntraBlockState → IntraBlockState
mark_account address s =
    if HashSet.contains s.accessed_addresses address
    then s
    else push (account_access address)
        (record s { accessed_addresses = HashSet.insert s.accessed_addresses address })

unfoldable pub access_account : ℕ → Method AccessStatus
access_account address s =
    ok
      (if HashSet.contains s.accessed_addresses address then warm else cold, mark_account address s)

-- `entry(address).or_default()` writes the set back also where the key is not new.
abbrev pub mark_slot : ℕ → ℕ → IntraBlockState → IntraBlockState
mark_slot address key s =
    let keys = accessed_entry s address in
    if HashSet.contains keys key
    then record s { accessed_storage_keys = HashMap.insert s.accessed_storage_keys address keys }
    else push (storage_access address key) (record s {
      accessed_storage_keys =
          HashMap.insert s.accessed_storage_keys address (HashSet.insert keys key);
    })

unfoldable pub access_storage : ℕ → ℕ → Method AccessStatus
access_storage address key s = ok (
  if HashSet.contains (accessed_entry s address) key then warm else cold,
  mark_slot address key s,
)

unfoldable pub add_log : Log → Method (Unit {0})
add_log log s = ok (tt, record s { logs = log ∷ s.logs })

unfoldable pub add_refund : ℕ → Method (Unit {0})
add_refund addend s = ok (tt, record s { refund = add64 s.refund addend })

unfoldable pub subtract_refund : ℕ → Method (Unit {0})
subtract_refund subtrahend s = ok (tt, record s { refund = sub64 s.refund subtrahend })

abbrev pub has_current : Option Object → Bool
has_current none = false
has_current (some obj) = is_some obj.current

-- The account that an object shows, or what stands for a missing one.
abbrev pub current_or {ℓ} : {A : Type ℓ} → A → (Account → A) → Option Object → A
current_or d f none = d
current_or d f (some obj) = elim obj.current [ none ↦ d | some account ↦ f account ]

abbrev pub is_empty_account : Account → Bool
is_empty_account a = a.code_hash == empty_hash && (a.nonce == 0 && a.balance == 0)

-- What `set_nonce` and `set_code` share: the delta with the whole object, and the write of the account.
unfoldable pub update_account : ℕ → Object → (Account → Account) → Method (Unit {0})
update_account address object change = do
  modify (push (update address object))
  current ← unwrap object.current
  modify (put_object address (record object { current = some (change current) }))

module _ (db : Reader) where
  -- The vacant entry of `get_object`.
  unfoldable pub load_object : ℕ → Option Account → Method (Option Object)
  load_object address none s = ok (none, s)
  load_object address (some account) s =
      ok (some (loaded account), put_object address (loaded account) s)

  unfoldable pub find_object : ℕ → Option Object → Method (Option Object)
  unfolding load_object
  find_object address (some obj) = pure (some obj)
  find_object address none = do
    accdata ← lift (db.read_account address)
    load_object address accdata

  unfoldable pub get_object : ℕ → Method (Option Object)
  unfolding find_object
  get_object address s = find_object address (HashMap.get s.objects address) s

  unfoldable pub ensure_current : ℕ → Option Object → Method (Unit {0})
  ensure_current address none = modify λ s.
      put_object address (record { initial = none; current = some default_account })
        (push (create address) s)
  ensure_current address (some obj) =
      if is_none obj.current
      then (modify λ s.
          put_object address (record obj { current = some default_account })
            (push (update address obj) s))
      else pure tt

  unfoldable pub ensure_object : ℕ → Method (Unit {0})
  unfolding ensure_current
  ensure_object address = do obj ← get_object address; ensure_current address obj

  unfoldable pub get_or_create_object : ℕ → Method Object
  get_or_create_object address = do
    ensure_object address
    found ← gets (λ s. HashMap.get s.objects address)
    unwrap found

  unfoldable pub exists : ℕ → Method Bool
  exists address = do obj ← get_object address; pure (has_current obj)

  unfoldable pub is_dead : ℕ → Method Bool
  is_dead address = do obj ← get_object address; pure (current_or true is_empty_account obj)

  unfoldable pub get_balance : ℕ → Method ℕ
  get_balance address = do obj ← get_object address; pure (current_or 0 (λ a. a.balance) obj)

  unfoldable pub get_nonce : ℕ → Method ℕ
  get_nonce address = do obj ← get_object address; pure (current_or 0 (λ a. a.nonce) obj)

  unfoldable pub get_code_hash : ℕ → Method ℕ
  get_code_hash address = do
    obj ← get_object address
    pure (current_or empty_hash (λ a. a.code_hash) obj)

  -- What the three writers of a balance share: the delta, the write and the touch.
  unfoldable pub write_balance : ℕ → (ℕ → ℕ) → Method (Unit {0})
  write_balance address change = do
    obj ← get_or_create_object address
    current ← unwrap obj.current
    modify λ s.
        put_object address
          (record obj { current = some (record current { balance = change current.balance }) })
          (push (update_balance address current.balance) s)
    touch address

  unfoldable pub set_balance : ℕ → ℕ → Method (Unit {0})
  unfolding write_balance
  set_balance address value = write_balance address (λ _. value)

  unfoldable pub add_to_balance : ℕ → ℕ → Method (Unit {0})
  unfolding write_balance
  add_to_balance address addend = write_balance address (λ balance. add256 balance addend)

  unfoldable pub subtract_from_balance : ℕ → ℕ → Method (Unit {0})
  unfolding write_balance
  subtract_from_balance address subtrahend =
      write_balance address (λ balance. sub256 balance subtrahend)

  unfoldable pub set_nonce : ℕ → ℕ → Method (Unit {0})
  set_nonce address nonce = do
    object ← get_or_create_object address
    update_account address object (λ account. record account { nonce = nonce })
