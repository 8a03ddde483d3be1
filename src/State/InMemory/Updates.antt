-- ===== src/State/InMemory/Updates.antt =====
-- The updates of src/state/in_memory_state.rs keep, for each account and slot, its value before the block.
use akula.Prelude.{
  ℕ, ◌≡◌, refl, sym, ap, ◌∙◌, false, Option, List, [], ◌∷◌, arith, ◌==◌, if◌then◌else◌, Bool-cases,
  inl, inr, ==_iff, ==_self, subst,
}
use akula.HashMap
use akula.HashMap.{HashMap, Distinct, get-insert, get-remove, get-empty, get-none, insert-Distinct}
use akula.State.Object.{Account}
use akula.State.IntraBlock.Writes.{
  Write, begin_block, erase_storage, update_storage, update_account, update_code,
}
use akula.State.InMemory.{
  InMemoryState, map_at, read_account, read_storage, account_changes_of, storage_changes_of,
  put_account, put_slot, apply, record_changes,
}
use akula.State.InMemory.Reads.{
  back, slot, change_of, map_at-insert, get-put_account, slot-put_slot,
}

-- The change sets of the other blocks are as they were.
abbrev pub OthersKept : ℕ → InMemoryState → InMemoryState → Type 0
OthersKept n s t =
    (m : ℕ)
    → (n == m) ≡ false
    → (HashMap.get t.account_changes m ≡ HashMap.get s.account_changes m)
      × (HashMap.get t.storage_changes m ≡ HashMap.get s.storage_changes m)

-- What holds between a state and the one that the writes of a block have made of it so far.
pub record Since (s : InMemoryState) (n : ℕ) (t : InMemoryState) : Type 0 where
  pub number : t.block_number ≡ n
  pub distinct : Distinct (map_at t.storage_changes n).entries
  pub account :
      (a : ℕ) → back (HashMap.get (account_changes_of t n) a) (read_account t a) ≡ read_account s a
  pub storage :
      (a k : ℕ)
      → back (change_of (map_at t.storage_changes n) a k) (read_storage t a k) ≡ read_storage s a k
  pub others : OthersKept n s t

-- An update that keeps the value which the state had before the block.
abbrev pub IsUpdate : InMemoryState → Write → Type 0
IsUpdate s (begin_block n) = ⊥
IsUpdate s (erase_storage address) = ⊥
IsUpdate s (update_storage address location initial current) =
    initial ≡ read_storage s address location
IsUpdate s (update_account address initial current) = initial ≡ read_account s address
IsUpdate s (update_code code_hash code) = Unit

abbrev pub AllUpdates : InMemoryState → List Write → Type 0
AllUpdates s [] = Unit
AllUpdates s (w ∷ rest) = IsUpdate s w × AllUpdates s rest

-- The changes of the current block.
pub map_at-changed :
    {V : Type 0} (m : HashMap (HashMap V)) (b n : ℕ) (f : HashMap V → HashMap V)
    → b ≡ n
    → map_at (HashMap.insert m b (f (map_at m b))) n ≡ f (map_at m n)
map_at-changed m b n f e =
    subst (λ (c : ℕ). map_at (HashMap.insert m b (f (map_at m b))) c ≡ f (map_at m c)) e
      (map_at-insert m b b (f (map_at m b)) ∙ ground (arith, ==_self b))

insert_others :
    {V : Type 0} (m : HashMap V) (b n j : ℕ) (v : V)
    → b ≡ n
    → (n == j) ≡ false
    → HashMap.get (HashMap.insert m b v) j ≡ HashMap.get m j
insert_others m b n j v same e =
    let other : (b == j) ≡ false = ap (λ (c : ℕ). c == j) same ∙ e in
    rw (get-insert m b v j, other) refl

back-put_account :
    (changes : HashMap (Option Account)) (m : HashMap Account) (b a : ℕ)
    (initial current : Option Account)
    → back
        (HashMap.get (HashMap.insert changes b initial) a)
        (HashMap.get (put_account b current m) a)
      ≡ (if b == a then initial else back (HashMap.get changes a) (HashMap.get m a))
back-put_account changes m b a initial current = elim (Bool-cases (b == a)) [
  | inl e ↦ rw (get-insert changes b initial a, e) refl
  | inr e ↦ rw (get-insert changes b initial a, get-put_account m b a current, e) refl
]

back-put_slot :
    (changes m : HashMap ℕ) (j k initial current : ℕ)
    → back (HashMap.get (HashMap.insert changes j initial) k) (slot (put_slot j current m) k)
      ≡ (if j == k then initial else back (HashMap.get changes k) (slot m k))
back-put_slot changes m j k initial current = elim (Bool-cases (j == k)) [
  | inl e ↦ rw (get-insert changes j initial k, e) refl
  | inr e ↦ rw (get-insert changes j initial k, slot-put_slot m j k current, e) refl
]

-- The value at a key that has changed, or the others.
at_key :
    {A : Type 0} (f : ℕ → A) (b a : ℕ) (initial was : A)
    → initial ≡ f b
    → was ≡ f a
    → (if b == a then initial else was) ≡ f a
at_key f b a initial was e h = elim (Bool-cases (b == a)) [
  | inl same ↦ rw same (e ∙ ap f ((==_iff b a).0 same))
  | inr other ↦ rw other h
]

pub account_step :
    (s t : InMemoryState) (n address : ℕ) (initial current : Option Account)
    → Since s n t
    → initial ≡ read_account s address
    → Since s n (apply (update_account address initial current) t)
unfolding apply read_account read_storage
account_step s t n address initial current h honest = record {
  number = h.number;
  distinct = h.distinct;
  account = λ a.
      ap
        (λ (m : HashMap (Option Account)).
          back (HashMap.get m a) (HashMap.get (put_account address current t.accounts) a))
        (map_at-changed t.account_changes t.block_number n (λ m. HashMap.insert m address initial)
          h.number)
      ∙ back-put_account (account_changes_of t n) t.accounts address a initial current
      ∙ at_key (read_account s) address a initial _ honest (h.account a);
  storage = h.storage;
  others = λ m e. (
    insert_others t.account_changes t.block_number n m _ h.number e ∙ (h.others m e).0,
    (h.others m e).1,
  );
}

-- The changes of an address of the current block.
pub changes_step :
    (t : InMemoryState) (n address : ℕ) (changes : HashMap ℕ)
    → t.block_number ≡ n
    → map_at (record_changes t address changes) n
      ≡ HashMap.insert (map_at t.storage_changes n) address changes
changes_step t n address changes e =
    map_at-changed t.storage_changes t.block_number n (λ m. HashMap.insert m address changes) e

-- The changes and the slots of an address are replaced.
pub slot_step :
    (s t : InMemoryState) (n address : ℕ) (changes slots : HashMap ℕ)
    (storage : HashMap (HashMap ℕ))
    → Since s n t
    → ((a : ℕ) → map_at storage a ≡ (if address == a then slots else map_at t.storage a))
    → ((k : ℕ) → back (HashMap.get changes k) (slot slots k) ≡ read_storage s address k)
    → Since s n (record t { storage_changes = record_changes t address changes; storage = storage })
unfolding read_account read_storage
slot_step s t n address changes slots storage h replaced honest = record {
  number = h.number;
  distinct =
      subst (λ (m : HashMap (HashMap ℕ)). Distinct m.entries)
        (sym (changes_step t n address changes h.number))
        (insert-Distinct (map_at t.storage_changes n) address changes h.distinct);
  account = h.account;
  storage = λ a k.
      ap (λ (m : HashMap (HashMap ℕ)). back (change_of m a k) (slot (map_at storage a) k))
        (changes_step t n address changes h.number)
      ∙ elim (Bool-cases (address == a)) [
        | inl e ↦
            rw (map_at-insert (map_at t.storage_changes n) address a changes, replaced a, e)
              (honest k ∙ ap (λ (c : ℕ). read_storage s c k) ((==_iff address a).0 e))
        | inr e ↦
            rw (map_at-insert (map_at t.storage_changes n) address a changes, replaced a, e)
              (h.storage a k)
      ];
  others = λ m e. (
    (h.others m e).0,
    insert_others t.storage_changes t.block_number n m _ h.number e ∙ (h.others m e).1,
  );
}

pub storage_step :
    (s t : InMemoryState) (n address location initial current : ℕ)
    → Since s n t
    → initial ≡ read_storage s address location
    → Since s n (apply (update_storage address location initial current) t)
unfolding apply read_storage
storage_step s t n address location initial current h honest =
    slot_step s t n address
      (HashMap.insert (storage_changes_of t t.block_number address) location initial)
      (put_slot location current (map_at t.storage address))
      (HashMap.insert t.storage address (put_slot location current (map_at t.storage address))) h
      (λ a. map_at-insert t.storage address a _)
      (λ k.
        back-put_slot (storage_changes_of t t.block_number address) (map_at t.storage address)
          location k initial current
        ∙ at_key (read_storage s address) location k initial _ honest (before k))
  where
    before :
        (k : ℕ)
        → back
            (HashMap.get (storage_changes_of t t.block_number address) k)
            (slot (map_at t.storage address) k)
          ≡ read_storage s address k
    before k =
        ap
          (λ (c : ℕ).
            back (HashMap.get (storage_changes_of t c address) k)
              (slot (map_at t.storage address) k))
          h.number
        ∙ h.storage address k

pub code_step :
    (s t : InMemoryState) (n code_hash : ℕ) (code : List ℕ)
    → Since s n t
    → Since s n (apply (update_code code_hash code) t)
unfolding apply read_account read_storage
code_step s t n code_hash code h = record {
  number = h.number;
  distinct = h.distinct;
  account = h.account;
  storage = h.storage;
  others = h.others;
}
