-- ===== src/State/InMemory/Erasing.antt =====
-- An erased storage of src/state/in_memory_state.rs keeps all its slots in the changes of the block.
use akula.Prelude.{
  ℕ, ◌≡◌, ◌⊎◌, refl, sym, ap, ◌∙◌, false, Option, none, some, List, [], ◌∷◌, ◌==◌, unwrap_or,
  Bool-cases, inl, inr, ==_iff, subst,
}
use akula.HashMap
use akula.HashMap.{HashMap, Distinct, get-insert, get-remove, get-empty, get-none, insert-Distinct}
use akula.State.InMemory.{
  InMemoryState, map_at, read_account, read_storage, storage_changes_of, add_all, erase,
  record_changes,
}
use akula.State.InMemory.Reads.{back, slot, change_of, map_at-insert, map_at-remove, get-add_all}
use akula.State.InMemory.Updates.{Since, changes_step, slot_step}

-- Before the updates of a block, no slot that has a change is still there.
abbrev pub Erased : ℕ → InMemoryState → Type 0
Erased n t =
    (a k : ℕ)
    → (change_of (map_at t.storage_changes n) a k ≡ none)
      ⊎ (HashMap.get (map_at t.storage a) k ≡ none)

pub erase-nil :
    (address : ℕ) (t : InMemoryState)
    → (map_at t.storage address).entries ≡ []
    → erase address t ≡ record t { storage = HashMap.remove t.storage address }
unfolding erase
erase-nil address t e = chosen (map_at t.storage address).entries _ _ e
  where
    chosen :
        {A : Type 0} (l : List (ℕ × ℕ)) (x : A) (f : (ℕ × ℕ) → List (ℕ × ℕ) → A)
        → l ≡ []
        → elim l [ [] ↦ x | y ∷ rest ↦ f y rest ] ≡ x
    chosen l x f e = rw e refl

pub erase-cons :
    (address : ℕ) (t : InMemoryState) (y : ℕ × ℕ) (rest : List (ℕ × ℕ))
    → (map_at t.storage address).entries ≡ y ∷ rest
    → erase address t ≡ record t {
      storage = HashMap.remove t.storage address;
      storage_changes =
          record_changes t address
            (add_all (y ∷ rest) (storage_changes_of t t.block_number address));
    }
unfolding erase
erase-cons address t y rest e = chosen (map_at t.storage address).entries _ _ e
  where
    chosen :
        {A : Type 0} (l : List (ℕ × ℕ)) (x : A) (f : (ℕ × ℕ) → List (ℕ × ℕ) → A)
        → l ≡ y ∷ rest
        → elim l [ [] ↦ x | z ∷ more ↦ f z more ] ≡ f y rest
    chosen l x f e = rw e refl

-- The storage of an address is replaced by one that reads the same.
same_storage :
    (s t : InMemoryState) (n : ℕ) (storage : HashMap (HashMap ℕ))
    → Since s n t
    → ((a k : ℕ) → slot (map_at storage a) k ≡ slot (map_at t.storage a) k)
    → Since s n (record t { storage = storage })
unfolding read_account read_storage
same_storage s t n storage h same = record {
  number = h.number;
  distinct = h.distinct;
  account = h.account;
  storage =
      λ a k. ap (back (change_of (map_at t.storage_changes n) a k)) (same a k) ∙ h.storage a k;
  others = h.others;
}

-- An address without slots reads the same when it is removed.
slot-remove :
    (storage : HashMap (HashMap ℕ)) (address a k : ℕ)
    → (map_at storage address).entries ≡ []
    → slot (map_at (HashMap.remove storage address) a) k ≡ slot (map_at storage a) k
slot-remove storage address a k empty = elim (Bool-cases (address == a)) [
  | inl e ↦
      let none_there : slot (map_at storage address) k ≡ 0 =
        ap (λ (l : List (ℕ × ℕ)). slot (record { entries = l }) k) empty
        ∙ ap (λ (o : Option ℕ). unwrap_or o 0) (get-none {V = ℕ} k) in
      rw (map_at-remove storage address a, e)
        (ap (λ (o : Option ℕ). unwrap_or o 0) (get-empty {V = ℕ} k)
          ∙ sym none_there
          ∙ ap (λ (c : ℕ). slot (map_at storage c) k) ((==_iff address a).0 e))
  | inr e ↦ rw (map_at-remove storage address a, e) refl
]

-- What an erased slot was is what its change keeps.
erased_slot :
    (l : List (ℕ × ℕ)) (changes : HashMap ℕ) (k : ℕ)
    → ((HashMap.get changes k ≡ none) ⊎ (HashMap.get (record { entries = l }) k ≡ none))
    → back (HashMap.get (add_all l changes) k) (slot HashMap.empty k)
      ≡ back (HashMap.get changes k) (slot (record { entries = l }) k)
erased_slot l changes k (inr gone) = rw (get-add_all l changes k, gone, get-empty {V = ℕ} k) refl
erased_slot l changes k (inl new) =
    rw (get-add_all l changes k)
      (kept (HashMap.get (record { entries = l }) k) (HashMap.get changes k) new)
  where
    kept :
        (o c : Option ℕ)
        → c ≡ none
        → back (elim o [ none ↦ c | some v ↦ some v ]) (slot HashMap.empty k)
          ≡ back c (unwrap_or o 0)
    kept none c e = rw (e, get-empty {V = ℕ} k) refl
    kept (some v) c e = rw e refl

pub erase_step :
    (s t : InMemoryState) (n address : ℕ) → Since s n t → Erased n t → Since s n (erase address t)
unfolding read_storage
erase_step s t n address h erased = split (map_at t.storage address).entries refl
  where
    moved :
        (l : List (ℕ × ℕ)) (k : ℕ)
        → (map_at t.storage address).entries ≡ l
        → ((change_of (map_at t.storage_changes n) address k ≡ none)
            ⊎ (HashMap.get (map_at t.storage address) k ≡ none))
        → ((HashMap.get (storage_changes_of t t.block_number address) k ≡ none)
            ⊎ (HashMap.get (record { entries = l }) k ≡ none))
    moved l k e (inl new) =
        inl (ap (λ (c : ℕ). HashMap.get (storage_changes_of t c address) k) h.number ∙ new)
    moved l k e (inr gone) =
        inr (ap (λ (m : List (ℕ × ℕ)). HashMap.get (record { entries = m }) k) (sym e) ∙ gone)

    before :
        (l : List (ℕ × ℕ)) (k : ℕ)
        → (map_at t.storage address).entries ≡ l
        → back
            (HashMap.get (storage_changes_of t t.block_number address) k)
            (slot (record { entries = l }) k)
          ≡ read_storage s address k
    before l k e =
        ap
          (λ (c : ℕ).
            back (HashMap.get (storage_changes_of t c address) k) (slot (record { entries = l }) k))
          h.number
        ∙ ap
            (λ (m : List (ℕ × ℕ)).
              back (change_of (map_at t.storage_changes n) address k)
                (slot (record { entries = m }) k))
            (sym e)
        ∙ h.storage address k

    split :
        (l : List (ℕ × ℕ)) → (map_at t.storage address).entries ≡ l → Since s n (erase address t)
    split [] e = subst (Since s n) (sym (erase-nil address t e)) (
        same_storage s t n (HashMap.remove t.storage address) h
          (λ a k. slot-remove t.storage address a k e))
    split (y ∷ rest) e = subst (Since s n) (sym (erase-cons address t y rest e)) (
        slot_step s t n address _ HashMap.empty (HashMap.remove t.storage address) h
          (λ a. map_at-remove t.storage address a)
          (λ k.
            erased_slot (y ∷ rest) (storage_changes_of t t.block_number address) k
              (moved (y ∷ rest) k e (erased address k))
            ∙ before (y ∷ rest) k e))

pub erase-Erased :
    (t : InMemoryState) (n address : ℕ)
    → t.block_number ≡ n
    → Erased n t
    → Erased n (erase address t)
erase-Erased t n address number erased = split (map_at t.storage address).entries refl
  where
    gone :
        (changes : HashMap (HashMap ℕ)) (a k : ℕ)
        → ((address == a) ≡ false
            → (change_of changes a k ≡ none) ⊎ (HashMap.get (map_at t.storage a) k ≡ none))
        → (change_of changes a k ≡ none)
          ⊎ (HashMap.get (map_at (HashMap.remove t.storage address) a) k ≡ none)
    gone changes a k others = elim (Bool-cases (address == a)) [
      | inl e ↦ inr (rw (map_at-remove t.storage address a, e) (get-empty {V = ℕ} k))
      | inr e ↦ rw (map_at-remove t.storage address a, e) (others e)
    ]

    split : (l : List (ℕ × ℕ)) → (map_at t.storage address).entries ≡ l → Erased n (erase address t)
    split [] e =
        subst (Erased n) (sym (erase-nil address t e))
          (λ a k. gone (map_at t.storage_changes n) a k (λ other. erased a k))
    split (y ∷ rest) e = subst (Erased n) (sym (erase-cons address t y rest e)) (λ a k.
        gone (map_at (record_changes t address _) n) a k (λ other.
          rw
            (
              changes_step t n address _ number,
              map_at-insert (map_at t.storage_changes n) address a _,
              other,
            )
            (erased a k)))
