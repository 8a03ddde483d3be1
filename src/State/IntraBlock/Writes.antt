-- ===== src/State/IntraBlock/Writes.antt =====
-- src/state/intra_block_state.rs, `write_to_db`: the calls that it makes of the writing half of the
-- `State` trait (src/state/interface.rs), in their order. The first that fails is the last.
use akula.Prelude.{
  ℕ, ◌≡◌, refl, ap, ◌∙◌, ◌==◌, if◌then◌else◌, ltb, Option, none, some, List, [], ◌∷◌, ◌++◌, arith,
  Bool-cases, inl, inr,
}
use mathlib.Core.List.{append_assoc}
use akula.HashMap
use akula.HashMap.{HashMap}
use akula.State.Object.{Account, Object, CommittedValue, Storage}
use akula.State.Delta.{IntraBlockState}
use akula.State.IntraBlock.{has_current}

pub data Write : Type 0 where
  begin_block : (block_number : ℕ) → Write
  erase_storage : (address : ℕ) → Write
  update_storage : (address location initial current : ℕ) → Write
  update_account : (address : ℕ) (initial current : Option Account) → Write
  update_code : (code_hash : ℕ) (code : List ℕ) → Write

unfoldable pub erase_storages : List (ℕ × ℕ) → List Write
erase_storages [] = []
erase_storages ((address, incarnation) ∷ l) =
    let rest = erase_storages l in if ltb 0 incarnation then erase_storage address ∷ rest else rest

unfoldable pub update_slots : ℕ → List (ℕ × CommittedValue) → List Write
update_slots address [] = []
update_slots address ((key, val) ∷ l) =
    update_storage address key val.initial val.original ∷ update_slots address l

unfoldable pub update_storages : HashMap Object → List (ℕ × Storage) → List Write
unfolding update_slots
update_storages objects [] = []
update_storages objects ((address, storage) ∷ l) =
    (if has_current (HashMap.get objects address)
      then update_slots address storage.committed.entries
      else [])
    ++ update_storages objects l

unfoldable pub update_accounts : List (ℕ × Object) → List Write
update_accounts [] = []
update_accounts ((address, obj) ∷ l) =
    update_account address obj.initial obj.current ∷ update_accounts l

unfoldable pub update_codes : List (ℕ × List ℕ) → List Write
update_codes [] = []
update_codes ((code_hash, code) ∷ l) = update_code code_hash code ∷ update_codes l

unfoldable pub write_to_db : IntraBlockState → ℕ → List Write
unfolding erase_storages update_storages update_accounts update_codes
write_to_db s block_number =
    begin_block block_number
    ∷ (erase_storages s.incarnations.entries
        ++ (update_storages s.objects s.storage.entries
            ++ (update_accounts s.objects.entries ++ update_codes s.new_code.entries)))

-- The account values of the first write that is about the account of `a`.
unfoldable pub account_written : ℕ → List Write → Option (Option Account × Option Account)
account_written a [] = none
account_written a (update_account b initial current ∷ l) =
    let rest = account_written a l in if b == a then some (initial, current) else rest
account_written a (begin_block n ∷ l) = account_written a l
account_written a (erase_storage b ∷ l) = account_written a l
account_written a (update_storage b k initial current ∷ l) = account_written a l
account_written a (update_code h code ∷ l) = account_written a l

abbrev pub values_of : Option Object → Option (Option Account × Option Account)
values_of none = none
values_of (some obj) = some (obj.initial, obj.current)

past_erasures :
    (a : ℕ) (l : List (ℕ × ℕ)) (rest : List Write)
    → account_written a (erase_storages l ++ rest) ≡ account_written a rest
unfolding account_written erase_storages
past_erasures a [] rest = refl
past_erasures a ((b, n) ∷ l) rest = ground (arith, past_erasures a l rest)

past_slots :
    (a b : ℕ) (l : List (ℕ × CommittedValue)) (rest : List Write)
    → account_written a (update_slots b l ++ rest) ≡ account_written a rest
unfolding account_written update_slots
past_slots a b [] rest = refl
past_slots a b ((k, v) ∷ l) rest = past_slots a b l rest

past_storages :
    (a : ℕ) (objects : HashMap Object) (l : List (ℕ × Storage)) (rest : List Write)
    → account_written a (update_storages objects l ++ rest) ≡ account_written a rest
unfolding account_written update_storages
past_storages a objects [] rest = refl
past_storages a objects ((b, storage) ∷ l) rest =
    let first =
      (if has_current (HashMap.get objects b)
        then update_slots b storage.committed.entries
        else []) in
    ap (account_written a) (append_assoc first (update_storages objects l) rest)
    ∙ elim (Bool-cases (has_current (HashMap.get objects b))) [
      | inl h ↦ rw h (past_slots a b storage.committed.entries _ ∙ past_storages a objects l rest)
      | inr h ↦ rw h (past_storages a objects l rest)
    ]

past_codes : (a : ℕ) (l : List (ℕ × List ℕ)) → account_written a (update_codes l) ≡ none
unfolding account_written update_codes
past_codes a [] = refl
past_codes a ((h, c) ∷ l) = past_codes a l

of_accounts :
    (a : ℕ) (l : List (ℕ × Object)) (rest : List Write)
    → account_written a rest ≡ none
    → account_written a (update_accounts l ++ rest)
      ≡ values_of (HashMap.get (record { entries = l }) a)
unfolding account_written update_accounts
of_accounts a [] rest none_left = rw (HashMap.get-none {V = Object} a) none_left
of_accounts a ((b, obj) ∷ l) rest none_left =
    rw (HashMap.get-entries b obj l a) (ground (arith, of_accounts a l rest none_left))

-- The state that is written for an address is that of its object, before the block and now, and an
-- address without an object is not written.
pub write_to_db-account_written :
    (s : IntraBlockState) (block_number a : ℕ)
    → account_written a (write_to_db s block_number) ≡ values_of (HashMap.get s.objects a)
unfolding write_to_db account_written
write_to_db-account_written s block_number a =
    past_erasures a s.incarnations.entries _
    ∙ past_storages a s.objects s.storage.entries _
    ∙ of_accounts a s.objects.entries _ (past_codes a s.new_code.entries)
