-- ===== src/State/InMemory/Reads.antt =====
-- What the accounts and slots of src/state/in_memory_state.rs are after a write, and after the changes of
-- a block are taken back.
use akula.Prelude.{
  ℕ, ◌≡◌, refl, sym, ap, ◌∙◌, Option, none, some, List, [], ◌∷◌, arith, ◌==◌, if◌then◌else◌,
  unwrap_or, Bool-cases, inl, inr, ==_iff,
}
use akula.HashMap
use akula.HashMap.{HashMap, Distinct, get-insert, get-remove, get-empty, get-entries, get-none}
use akula.State.Object.{Account}
use akula.State.InMemory.{
  InMemoryState, map_at, read_account, read_storage, account_changes_of, put_account, put_slot,
  restore_accounts, restore_slots, restore_storage, restore_storages, unwind_state_changes, add_all,
}

-- A value, or what it was if it has been changed.
abbrev pub back : {A : Type 0} → Option A → A → A
back none now = now
back (some initial) now = initial

abbrev pub slot : HashMap ℕ → ℕ → ℕ
slot slots location = unwrap_or (HashMap.get slots location) 0

pub map_at-insert :
    {V : Type 0} (m : HashMap (HashMap V)) (k j : ℕ) (v : HashMap V)
    → map_at (HashMap.insert m k v) j ≡ (if k == j then v else map_at m j)
map_at-insert m k j v = elim (Bool-cases (k == j)) [
  | inl e ↦ rw (get-insert m k v j, e) refl
  | inr e ↦ rw (get-insert m k v j, e) refl
]

pub map_at-remove :
    {V : Type 0} (m : HashMap (HashMap V)) (k j : ℕ)
    → map_at (HashMap.remove m k) j ≡ (if k == j then HashMap.empty else map_at m j)
map_at-remove m k j = elim (Bool-cases (k == j)) [
  | inl e ↦ rw (get-remove m k j, e) refl
  | inr e ↦ rw (get-remove m k j, e) refl
]

pub get-put_account :
    (m : HashMap Account) (b a : ℕ) (account : Option Account)
    → HashMap.get (put_account b account m) a ≡ (if b == a then account else HashMap.get m a)
get-put_account m b a none = get-remove m b a
get-put_account m b a (some account) = get-insert m b account a

pub slot-put_slot :
    (m : HashMap ℕ) (j k value : ℕ)
    → slot (put_slot j value m) k ≡ (if j == k then value else slot m k)
slot-put_slot m j k value = elim (Bool-cases (value == 0)) [
  | inl e ↦ rw e (ap (λ (o : Option ℕ). unwrap_or o 0) (get-remove m j k) ∙ ground arith)
  | inr e ↦ rw e (ap (λ (o : Option ℕ). unwrap_or o 0) (get-insert m j value k) ∙ ground arith)
]

get-restore_accounts :
    (l : List (ℕ × Option Account)) (m : HashMap Account) (a : ℕ)
    → HashMap.get (restore_accounts l m) a
      ≡ back (HashMap.get (record { entries = l }) a) (HashMap.get m a)
unfolding restore_accounts
get-restore_accounts [] m a = rw (get-none {V = Option Account} a) refl
get-restore_accounts ((b, account) ∷ rest) m a =
    get-put_account (restore_accounts rest m) b a account ∙ elim (Bool-cases (b == a)) [
      | inl e ↦ rw (get-entries b account rest a, e) refl
      | inr e ↦ rw (get-entries b account rest a, e) (get-restore_accounts rest m a)
    ]

slot-restore_slots :
    (l : List (ℕ × ℕ)) (m : HashMap ℕ) (k : ℕ)
    → slot (restore_slots l m) k ≡ back (HashMap.get (record { entries = l }) k) (slot m k)
unfolding restore_slots
slot-restore_slots [] m k = rw (get-none {V = ℕ} k) refl
slot-restore_slots ((j, value) ∷ rest) m k =
    slot-put_slot (restore_slots rest m) j k value ∙ elim (Bool-cases (j == k)) [
      | inl e ↦ rw (get-entries j value rest k, e) refl
      | inr e ↦ rw (get-entries j value rest k, e) (slot-restore_slots rest m k)
    ]

-- The slots of one address after its changes are taken back.
slot-restore_storage :
    (b : ℕ) (l : List (ℕ × ℕ)) (storage : HashMap (HashMap ℕ)) (a k : ℕ)
    → slot (map_at (restore_storage b l storage) a) k ≡ (
        if b == a
        then back (HashMap.get (record { entries = l }) k) (slot (map_at storage a) k)
        else slot (map_at storage a) k)
slot-restore_storage b [] storage a k = elim (Bool-cases (b == a)) [
  | inl e ↦ rw (e, get-none {V = ℕ} k) refl
  | inr e ↦ rw e refl
]
slot-restore_storage b (x ∷ l) storage a k =
    ap (λ (m : HashMap ℕ). slot m k)
      (map_at-insert storage b a (restore_slots (x ∷ l) (map_at storage b)))
    ∙ elim (Bool-cases (b == a)) [
      | inl e ↦ rw e (
          slot-restore_slots (x ∷ l) (map_at storage b) k
          ∙ ap
              (λ (c : ℕ).
                back (HashMap.get (record { entries = x ∷ l }) k) (slot (map_at storage c) k))
              ((==_iff b a).0 e))
      | inr e ↦ rw e refl
    ]

-- The change of a slot in the changes of a block.
abbrev pub change_of : HashMap (HashMap ℕ) → ℕ → ℕ → Option ℕ
change_of changes a k = HashMap.get (map_at changes a) k

slot-restore_storages :
    (l : List (ℕ × HashMap ℕ)) (storage : HashMap (HashMap ℕ)) (a k : ℕ)
    → Distinct l
    → slot (map_at (restore_storages l storage) a) k
      ≡ back (change_of (record { entries = l }) a k) (slot (map_at storage a) k)
unfolding restore_storages
slot-restore_storages [] storage a k h = rw (get-none {V = HashMap ℕ} a, get-empty {V = ℕ} k) refl
slot-restore_storages ((b, changes) ∷ rest) storage a k (new, h) =
    slot-restore_storage b changes.entries (restore_storages rest storage) a k
    ∙ elim (Bool-cases (b == a)) [
      | inl e ↦
          let gone : HashMap.get (record { entries = rest }) a ≡ none =
            ap (HashMap.get (record { entries = rest })) (sym ((==_iff b a).0 e)) ∙ new in
          rw (get-entries b changes rest a, e)
            (ap (back (HashMap.get changes k))
              (slot-restore_storages rest storage a k h ∙ unchanged rest gone))
      | inr e ↦ rw (get-entries b changes rest a, e) (slot-restore_storages rest storage a k h)
    ]
  where
    unchanged :
        (rest : List (ℕ × HashMap ℕ))
        → HashMap.get (record { entries = rest }) a ≡ none
        → back (change_of (record { entries = rest }) a k) (slot (map_at storage a) k)
          ≡ slot (map_at storage a) k
    unchanged rest gone = rw (gone, get-empty {V = ℕ} k) refl

-- What is read after the changes of a block are taken back: the value that they keep, if they keep one.
pub read_account-unwind_state_changes :
    (n : ℕ) (s : InMemoryState) (a : ℕ)
    → read_account (unwind_state_changes n s) a
      ≡ back (HashMap.get (account_changes_of s n) a) (read_account s a)
unfolding read_account unwind_state_changes
read_account-unwind_state_changes n s a =
    get-restore_accounts (account_changes_of s n).entries s.accounts a

pub read_storage-unwind_state_changes :
    (n : ℕ) (s : InMemoryState) (a k : ℕ)
    → Distinct (map_at s.storage_changes n).entries
    → read_storage (unwind_state_changes n s) a k
      ≡ back (change_of (map_at s.storage_changes n) a k) (read_storage s a k)
unfolding read_storage unwind_state_changes
read_storage-unwind_state_changes n s a k h =
    slot-restore_storages (map_at s.storage_changes n).entries s.storage a k h

pub get-add_all :
    (l : List (ℕ × ℕ)) (m : HashMap ℕ) (k : ℕ)
    → HashMap.get (add_all l m) k
      ≡ elim (HashMap.get (record { entries = l }) k) [ none ↦ HashMap.get m k | some v ↦ some v ]
unfolding add_all
get-add_all [] m k = rw (get-none {V = ℕ} k) refl
get-add_all ((j, value) ∷ rest) m k =
    get-insert (add_all rest m) j value k ∙ elim (Bool-cases (j == k)) [
      | inl e ↦ rw (get-entries j value rest k, e) refl
      | inr e ↦ rw (get-entries j value rest k, e) (get-add_all rest m k)
    ]
