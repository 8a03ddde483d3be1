-- ===== src/State/IntraBlock/Rollback/Sets.antt =====
-- `Undo` of the changes to the four sets: touched accounts, self-destructs, and the accessed addresses
-- and slots of EIP-2929.
use akula.Prelude.{
  ℕ, ◌≡◌, refl, ◌≢◌, inl, inr, ◌==◌, if◌then◌else◌, false, ◌||◌, arith, Bool-cases, unwrap_or,
}
use akula.HashMap
use akula.HashMap.{HashMap, get-insert}
use akula.HashSet
use akula.HashSet.{HashSet, contains-insert, contains-remove}
use akula.State.Interface.{Reader}
use akula.State.Delta.{
  Delta, touched, selfdestruct, storage_access, account_access, IntraBlockState, accessed_entry,
  revert,
}
use akula.State.IntraBlock.{
  push, ripemd_address, touch_account, selfdestruct_account, mark_account, mark_slot,
}
use akula.State.IntraBlock.Rollback.{Restores, Restores-refl, Undo}
use akula.State.IntraBlock.Rollback.Compose.{Undo-quiet, Undo-one}

module _ (db : Reader) where
  touched-Restores :
      {s u : IntraBlockState} (m : HashSet)
      → Restores db s u
      → ((a : ℕ) → a ≢ ripemd_address → HashSet.contains m a ≡ HashSet.contains s.touched a)
      → Restores db s (record u { touched = m })
  touched-Restores m r e = record {
    objects = r.objects;
    cached = r.cached;
    incarnations = r.incarnations;
    original = r.original;
    current = r.current;
    self_destructs = r.self_destructs;
    touched = e;
    addresses = r.addresses;
    keys = r.keys;
  }

  -- `u` shows what `s` with more touched accounts shows, and `m` shows what `s` shows.
  untouch :
      {s u : IntraBlockState} (d : Delta) (m m' : HashSet)
      → Restores db (push d (record s { touched = m })) u
      → ((a : ℕ) → a ≢ ripemd_address → HashSet.contains m' a ≡ HashSet.contains s.touched a)
      → Restores db s (record u { touched = m' })
  untouch d m m' r e = record {
    objects = r.objects;
    cached = r.cached;
    incarnations = r.incarnations;
    original = r.original;
    current = r.current;
    self_destructs = r.self_destructs;
    touched = e;
    addresses = r.addresses;
    keys = r.keys;
  }

  undestruct :
      {s u : IntraBlockState} (d : Delta) (m m' : HashSet)
      → Restores db (push d (record s { self_destructs = m })) u
      → ((a : ℕ) → HashSet.contains m' a ≡ HashSet.contains s.self_destructs a)
      → Restores db s (record u { self_destructs = m' })
  undestruct d m m' r e = record {
    objects = r.objects;
    cached = r.cached;
    incarnations = r.incarnations;
    original = r.original;
    current = r.current;
    self_destructs = e;
    touched = r.touched;
    addresses = r.addresses;
    keys = r.keys;
  }

  unmark :
      {s u : IntraBlockState} (d : Delta) (m m' : HashSet)
      → Restores db (push d (record s { accessed_addresses = m })) u
      → ((a : ℕ) → HashSet.contains m' a ≡ HashSet.contains s.accessed_addresses a)
      → Restores db s (record u { accessed_addresses = m' })
  unmark d m m' r e = record {
    objects = r.objects;
    cached = r.cached;
    incarnations = r.incarnations;
    original = r.original;
    current = r.current;
    self_destructs = r.self_destructs;
    touched = r.touched;
    addresses = e;
    keys = r.keys;
  }

  -- The set of slots of an address in a map of such sets.
  abbrev keys_in : HashMap HashSet → ℕ → HashSet
  keys_in m a = unwrap_or (HashMap.get m a) HashSet.empty

  keys-Restores :
      {s : IntraBlockState} (m : HashMap HashSet)
      → ((a k : ℕ) → HashSet.contains (keys_in m a) k ≡ HashSet.contains (accessed_entry s a) k)
      → Restores db s (record s { accessed_storage_keys = m })
  keys-Restores {s} m e = record {
    objects = r.objects;
    cached = r.cached;
    incarnations = r.incarnations;
    original = r.original;
    current = r.current;
    self_destructs = r.self_destructs;
    touched = r.touched;
    addresses = r.addresses;
    keys = e;
  }
    where
      r : Restores db s s
      r = Restores-refl db s

  unkey :
      {s u : IntraBlockState} (d : Delta) (m m' : HashMap HashSet)
      → Restores db (push d (record s { accessed_storage_keys = m })) u
      → ((a k : ℕ) → HashSet.contains (keys_in m' a) k ≡ HashSet.contains (accessed_entry s a) k)
      → Restores db s (record u { accessed_storage_keys = m' })
  unkey d m m' r e = record {
    objects = r.objects;
    cached = r.cached;
    incarnations = r.incarnations;
    original = r.original;
    current = r.current;
    self_destructs = r.self_destructs;
    touched = r.touched;
    addresses = r.addresses;
    keys = e;
  }

  pub Undo-touch : (s : IntraBlockState) (a : ℕ) → Undo db s (touch_account a s)
  unfolding revert
  Undo-touch s a = elim (Bool-cases (HashSet.contains s.touched a || a == ripemd_address)) [
    | inl seen ↦ rw seen (
        Undo-quiet db
          (touched-Restores (HashSet.insert s.touched a) (Restores-refl db s)
            (λ b h. ground (arith, contains-insert s.touched a b)))
          refl refl)
    | inr fresh ↦ rw fresh (
        Undo-one db (touched a) refl refl λ u r. (
          record u { touched = HashSet.remove u.touched a },
          refl,
          untouch (touched a) (HashSet.insert s.touched a) (HashSet.remove u.touched a) r (λ b h.
              ground (
                arith,
                contains-remove u.touched a b,
                contains-insert s.touched a b,
                r.touched b h,
              )),
          refl,
          refl,
        ))
  ]

  pub Undo-selfdestruct : (s : IntraBlockState) (a : ℕ) → Undo db s (selfdestruct_account a s)
  unfolding revert
  Undo-selfdestruct s a = elim (Bool-cases (HashSet.contains s.self_destructs a)) [
    | inl seen ↦ rw seen (Undo-quiet db (Restores-refl db s) refl refl)
    | inr fresh ↦ rw fresh (
        Undo-one db (selfdestruct a) refl refl λ u r. (
          record u { self_destructs = HashSet.remove u.self_destructs a },
          refl,
          undestruct (selfdestruct a) (HashSet.insert s.self_destructs a)
              (HashSet.remove u.self_destructs a) r
              (λ b. ground (
                arith,
                contains-remove u.self_destructs a b,
                contains-insert s.self_destructs a b,
                r.self_destructs b,
              )),
          refl,
          refl,
        ))
  ]

  pub Undo-account : (s : IntraBlockState) (a : ℕ) → Undo db s (mark_account a s)
  unfolding revert
  Undo-account s a = elim (Bool-cases (HashSet.contains s.accessed_addresses a)) [
    | inl seen ↦ rw seen (Undo-quiet db (Restores-refl db s) refl refl)
    | inr fresh ↦ rw fresh (
        Undo-one db (account_access a) refl refl λ u r. (
          record u { accessed_addresses = HashSet.remove u.accessed_addresses a },
          refl,
          unmark (account_access a) (HashSet.insert s.accessed_addresses a)
              (HashSet.remove u.accessed_addresses a) r
              (λ b. ground (
                arith,
                contains-remove u.accessed_addresses a b,
                contains-insert s.accessed_addresses a b,
                r.addresses b,
              )),
          refl,
          refl,
        ))
  ]

  keys-insert :
      (m : HashMap HashSet) (a b k : ℕ) (keys : HashSet)
      → HashSet.contains (keys_in (HashMap.insert m a keys) b) k
        ≡ (if a == b then HashSet.contains keys k else HashSet.contains (keys_in m b) k)
  keys-insert m a b k keys = ground (arith, get-insert m a keys b)

  pub Undo-slot : (s : IntraBlockState) (a k : ℕ) → Undo db s (mark_slot a k s)
  unfolding revert
  Undo-slot s a k = elim (Bool-cases (HashSet.contains (accessed_entry s a) k)) [
    | inl seen ↦ rw seen (
        Undo-quiet db
          (keys-Restores (HashMap.insert s.accessed_storage_keys a (accessed_entry s a)) same) refl
          refl)
    | inr fresh ↦ rw fresh (
        Undo-one db (storage_access a k) refl refl λ u r. (
          record u {
            accessed_storage_keys =
                HashMap.insert u.accessed_storage_keys a (HashSet.remove (accessed_entry u a) k);
          },
          refl,
          unkey (storage_access a k)
              (HashMap.insert s.accessed_storage_keys a (HashSet.insert (accessed_entry s a) k))
              (HashMap.insert u.accessed_storage_keys a (HashSet.remove (accessed_entry u a) k)) r
              (back fresh u r),
          refl,
          refl,
        ))
  ]
    where
      same :
          (b j : ℕ)
          → HashSet.contains
              (keys_in (HashMap.insert s.accessed_storage_keys a (accessed_entry s a)) b)
              j
            ≡ HashSet.contains (accessed_entry s b) j
      same b j = ground (arith, keys-insert s.accessed_storage_keys a b j (accessed_entry s a))

      back :
          HashSet.contains (accessed_entry s a) k ≡ false
          → (u : IntraBlockState)
          → Restores db
              (push (storage_access a k) (record s {
                accessed_storage_keys =
                    HashMap.insert s.accessed_storage_keys a
                      (HashSet.insert (accessed_entry s a) k);
              }))
              u
          → (b j : ℕ)
          → HashSet.contains
              (keys_in
                (HashMap.insert u.accessed_storage_keys a (HashSet.remove (accessed_entry u a) k))
                b)
              j
            ≡ HashSet.contains (accessed_entry s b) j
      back fresh u r b j = ground (
        arith,
        keys-insert u.accessed_storage_keys a b j (HashSet.remove (accessed_entry u a) k),
        keys-insert s.accessed_storage_keys a b j (HashSet.insert (accessed_entry s a) k),
        contains-remove (accessed_entry u a) k j,
        contains-insert (accessed_entry s a) k j,
        r.keys b j,
      )
