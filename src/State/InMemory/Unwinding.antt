-- ===== src/State/InMemory/Unwinding.antt =====
-- The change sets of src/state/in_memory_state.rs: the writes of a block are undone by
-- `unwind_state_changes`.
use akula.Prelude.{
  ℕ, ◌≡◌, refl, sym, ap, ◌∙◌, false, Option, none, List, [], ◌∷◌, ◌==◌, unwrap_or, Bool-cases, inl,
  inr, ==_iff, subst,
}
use akula.HashMap
use akula.HashMap.{
  HashMap, Distinct, get-insert, get-remove, get-empty, get-none, insert-Distinct, empty-Distinct,
}
use akula.State.Object.{Account}
use akula.State.IntraBlock.Writes.{
  Write, begin_block, erase_storage, update_storage, update_account, update_code,
}
use akula.State.InMemory.{
  InMemoryState, map_at, read_account, read_storage, account_changes_of, unwind_state_changes,
  erase, apply, apply_all,
}
use akula.State.InMemory.Reads.{
  back, change_of, read_account-unwind_state_changes, read_storage-unwind_state_changes,
}
use akula.State.InMemory.Updates.{Since, AllUpdates, account_step, storage_step, code_step}
use akula.State.InMemory.Erasing.{Erased, erase_step, erase-Erased}

-- The writes of a block in the order of `write_to_db`: storages that are erased, and then updates.
abbrev pub IsWritten : InMemoryState → List Write → Type 0
IsWritten s [] = Unit
IsWritten s (erase_storage address ∷ rest) = IsWritten s rest
IsWritten s (begin_block n ∷ rest) = ⊥
IsWritten s (update_storage a k initial current ∷ rest) =
    AllUpdates s (update_storage a k initial current ∷ rest)
IsWritten s (update_account a initial current ∷ rest) =
    AllUpdates s (update_account a initial current ∷ rest)
IsWritten s (update_code h c ∷ rest) = AllUpdates s (update_code h c ∷ rest)

updates_lem :
    (ws : List Write) (s t : InMemoryState) (n : ℕ)
    → Since s n t
    → AllUpdates s ws
    → Since s n (apply_all ws t)
unfolding apply_all
updates_lem [] s t n h all = h
updates_lem (update_storage a k initial current ∷ rest) s t n h (is, all) =
    updates_lem rest s (apply (update_storage a k initial current) t) n
      (storage_step s t n a k initial current h is) all
updates_lem (update_account a initial current ∷ rest) s t n h (is, all) =
    updates_lem rest s (apply (update_account a initial current) t) n
      (account_step s t n a initial current h is) all
updates_lem (update_code code_hash code ∷ rest) s t n h (is, all) =
    updates_lem rest s (apply (update_code code_hash code) t) n (code_step s t n code_hash code h)
      all
updates_lem (begin_block m ∷ rest) s t n h (is, all) = absurd is
updates_lem (erase_storage a ∷ rest) s t n h (is, all) = absurd is

written_lem :
    (ws : List Write) (s t : InMemoryState) (n : ℕ)
    → Since s n t
    → Erased n t
    → IsWritten s ws
    → Since s n (apply_all ws t)
unfolding apply_all apply
written_lem [] s t n h erased all = h
written_lem (erase_storage a ∷ rest) s t n h erased all =
    written_lem rest s (erase a t) n (erase_step s t n a h erased)
      (erase-Erased t n a h.number erased) all
written_lem (begin_block m ∷ rest) s t n h erased all = absurd all
written_lem (update_storage a k initial current ∷ rest) s t n h erased all =
    updates_lem (update_storage a k initial current ∷ rest) s t n h all
written_lem (update_account a initial current ∷ rest) s t n h erased all =
    updates_lem (update_account a initial current ∷ rest) s t n h all
written_lem (update_code code_hash code ∷ rest) s t n h erased all =
    updates_lem (update_code code_hash code ∷ rest) s t n h all

-- A block without changes so far.
abbrev pub IsNew : ℕ → InMemoryState → Type 0
IsNew n s = (HashMap.get s.account_changes n ≡ none) × (HashMap.get s.storage_changes n ≡ none)

start : (s : InMemoryState) (n : ℕ) → IsNew n s → Since s n (apply (begin_block n) s)
unfolding apply read_account read_storage
start s n (accounts, slots) = record {
  number = refl;
  distinct = rw slots (empty-Distinct (HashMap ℕ));
  account = λ a. rw (accounts, get-empty {V = Option Account} a) refl;
  storage = λ a k. rw (slots, get-empty {V = HashMap ℕ} a, get-empty {V = ℕ} k) refl;
  others = λ m e. (refl, refl);
}

start-Erased : (s : InMemoryState) (n : ℕ) → IsNew n s → Erased n (apply (begin_block n) s)
unfolding apply
start-Erased s n (accounts, slots) a k =
    inl (rw (slots, get-empty {V = HashMap ℕ} a) (get-empty {V = ℕ} k))

-- What the writes of a block leave in its change sets.
pub apply_all-Since :
    (s : InMemoryState) (n : ℕ) (ws : List Write)
    → IsNew n s
    → IsWritten s ws
    → Since s n (apply_all (begin_block n ∷ ws) s)
unfolding apply_all
apply_all-Since s n ws new written =
    written_lem ws s (apply (begin_block n) s) n (start s n new) (start-Erased s n new) written

-- Two states that read alike and keep the same changes.
pub record Same (s t : InMemoryState) : Type 0 where
  pub account : (a : ℕ) → read_account t a ≡ read_account s a
  pub storage : (a k : ℕ) → read_storage t a k ≡ read_storage s a k
  pub account_changes : (m : ℕ) → HashMap.get t.account_changes m ≡ HashMap.get s.account_changes m
  pub storage_changes : (m : ℕ) → HashMap.get t.storage_changes m ≡ HashMap.get s.storage_changes m

removed :
    {V : Type 0} (m n : ℕ) (changes was : HashMap V)
    → HashMap.get was n ≡ none
    → ((n == m) ≡ false → HashMap.get changes m ≡ HashMap.get was m)
    → HashMap.get (HashMap.remove changes n) m ≡ HashMap.get was m
removed m n changes was new kept = elim (Bool-cases (n == m)) [
  | inl e ↦
      rw (get-remove changes n m, e) (sym (ap (HashMap.get was) (sym ((==_iff n m).0 e)) ∙ new))
  | inr e ↦ rw (get-remove changes n m, e) (kept e)
]

-- Taking back the changes of a block, in a state like the one after it, gives a state like the one
-- before it.
pub unwind_state_changes-Same :
    (s t u : InMemoryState) (n : ℕ)
    → IsNew n s
    → Since s n t
    → Same t u
    → Same s (unwind_state_changes n u)
unfolding unwind_state_changes read_account read_storage
unwind_state_changes-Same s t u n (no_accounts, no_slots) h same = record {
  account = λ a.
      read_account-unwind_state_changes n u a
      ∙ ap
          (λ (o : Option (HashMap (Option Account))).
            back (HashMap.get (unwrap_or o HashMap.empty) a) (read_account u a))
          (same.account_changes n)
      ∙ ap (back (HashMap.get (account_changes_of t n) a)) (same.account a)
      ∙ h.account a;
  storage = λ a k.
      read_storage-unwind_state_changes n u a k (
        subst (λ (o : Option (HashMap (HashMap ℕ))). Distinct (unwrap_or o HashMap.empty).entries)
          (sym (same.storage_changes n)) h.distinct)
      ∙ ap
          (λ (o : Option (HashMap (HashMap ℕ))).
            back (change_of (unwrap_or o HashMap.empty) a k) (read_storage u a k))
          (same.storage_changes n)
      ∙ ap (back (change_of (map_at t.storage_changes n) a k)) (same.storage a k)
      ∙ h.storage a k;
  account_changes = λ m.
      removed m n u.account_changes s.account_changes no_accounts
        (λ e. same.account_changes m ∙ (h.others m e).0);
  storage_changes = λ m.
      removed m n u.storage_changes s.storage_changes no_slots
        (λ e. same.storage_changes m ∙ (h.others m e).1);
}
