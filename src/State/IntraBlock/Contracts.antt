-- ===== src/State/IntraBlock/Contracts.antt =====
-- src/state/intra_block_state.rs: code, the creation of contracts, and the destruction of accounts.
-- `keccak256` (the sha3 crate behind src/crypto) is a parameter.
use akula.Prelude.{ℕ, ◌==◌, if◌then◌else◌, Option, none, some, List, [], ◌∷◌, unwrap_or, is_some}
use akula.Prelude.Words.{add64}
use akula.HashMap
use akula.State.Interface.{Reader}
use akula.State.Monad.{Method, pure, gets, modify, lift, ◌>>=◌, ◌>>◌}
use akula.State.Object.{Object, Storage, default_account, empty_hash}
use akula.State.Delta.{
  Delta, create, update, incarnation, storage_wipe, storage_create, IntraBlockState,
}
use akula.State.IntraBlock.{
  push, put_object, get_object, get_or_create_object, current_or, is_dead, update_account,
}

-- `self.incarnations.entry(address).or_default() += 1`
abbrev pub next_incarnation : ℕ → IntraBlockState → IntraBlockState
next_incarnation address s = record s {
  incarnations =
      HashMap.insert s.incarnations address
        (add64 (unwrap_or (HashMap.get s.incarnations address) 0) 1);
}

-- The account that `create_contract` leaves: the balance stays, and so does `initial`.
abbrev pub created_object : Option Object → Object
created_object none = record { initial = none; current = some default_account }
created_object (some prev) = record {
  initial = prev.initial;
  current = some (elim prev.current [
    | none ↦ default_account
    | some account ↦ record default_account { balance = account.balance }
  ]);
}

abbrev pub creation_delta : ℕ → Option Object → Delta
creation_delta address none = create address
creation_delta address (some prev) = update address prev

-- The last test of `create_contract`, on what `storage.remove(&address)` answers.
abbrev pub wipe_delta : ℕ → Option Storage → Delta
wipe_delta address none = storage_create address
wipe_delta address (some removed) = storage_wipe address removed

abbrev pub wipe_storage : ℕ → IntraBlockState → IntraBlockState
wipe_storage address s =
    push (wipe_delta address (HashMap.get s.storage address))
      (record s { storage = HashMap.remove s.storage address })

-- `obj.current = None` if there is an object.
abbrev pub clear_current : ℕ → Option Object → IntraBlockState → IntraBlockState
clear_current address none s = s
clear_current address (some obj) s = put_object address (record obj { current = none }) s

-- `new_code.entry(hash).or_insert(code)`
abbrev pub keep_code : ℕ → List ℕ → IntraBlockState → IntraBlockState
keep_code code_hash code s = record s {
  new_code =
      if is_some (HashMap.get s.new_code code_hash)
      then s.new_code
      else HashMap.insert s.new_code code_hash code;
}

module _ (db : Reader) where
  unfoldable pub create_contract : ℕ → Method (Unit {0})
  create_contract address = do
    prev ← get_object db address
    modify (push (creation_delta address prev))
    modify (next_incarnation address)
    modify (push (incarnation address))
    modify (put_object address (created_object prev))
    modify (wipe_storage address)

  unfoldable pub destruct : ℕ → Method (Unit {0})
  destruct address = do
    modify (next_incarnation address)
    modify (λ s. record s { storage = HashMap.remove s.storage address })
    obj ← get_object db address
    modify (clear_current address obj)

  destruct_all : List ℕ → Method (Unit {0})
  destruct_all [] = pure tt
  destruct_all (address ∷ rest) = do destruct address; destruct_all rest

  unfoldable pub destruct_selfdestructs : Method (Unit {0})
  unfolding destruct_all
  destruct_selfdestructs s = destruct_all s.self_destructs.elements s

  destruct_dead : List ℕ → Method (Unit {0})
  destruct_dead [] = pure tt
  destruct_dead (address ∷ rest) = do
    dead ← is_dead db address
    if dead then destruct address else pure tt
    destruct_dead rest

  unfoldable pub destruct_touched_dead : Method (Unit {0})
  unfolding destruct_dead
  destruct_touched_dead s = destruct_dead s.touched.elements s

  -- The code of a hash: written in this block, read before, or read now and kept.
  unfoldable pub code_of_hash : ℕ → Option (List ℕ) → Option (List ℕ) → Method (Option (List ℕ))
  code_of_hash code_hash (some code) existing = pure (some code)
  code_of_hash code_hash none (some code) = pure (some code)
  code_of_hash code_hash none none = do
    code ← lift (db.read_code code_hash)
    modify (λ s. record s { existing_code = HashMap.insert s.existing_code code_hash code })
    pure (some code)

  unfoldable pub get_code : ℕ → Method (Option (List ℕ))
  unfolding code_of_hash
  get_code address = do
    obj ← get_object db address
    let code_hash = current_or empty_hash (λ a. a.code_hash) obj
    new ← gets (λ s. HashMap.get s.new_code code_hash)
    existing ← gets (λ s. HashMap.get s.existing_code code_hash)
    if code_hash == empty_hash then pure none else code_of_hash code_hash new existing

  module _ (keccak256 : List ℕ → ℕ) where
    unfoldable pub set_code : ℕ → List ℕ → Method (Unit {0})
    set_code address code = do
      obj ← get_or_create_object db address
      update_account address obj (λ account. record account { code_hash = keccak256 code })
      modify (keep_code (keccak256 code) code)
