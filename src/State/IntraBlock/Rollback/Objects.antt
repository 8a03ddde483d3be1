-- ===== src/State/IntraBlock/Rollback/Objects.antt =====
-- `Undo` of the primitive changes to `objects`: an account that is read and kept, and the deltas
-- `create`, `update` and `update_balance`.
use akula.Prelude.{
  ℕ, ◌≡◌, refl, sym, ap, ◌∙◌, ◌==◌, if◌then◌else◌, Option, none, some, arith, is_none, ==_self,
}
use akula.Errors.{ok}
use akula.HashMap
use akula.HashMap.{HashMap, get-insert, get-remove}
use akula.State.Interface.{Reader}
use akula.State.Object.{Account, Object}
use akula.State.Delta.{
  Delta, create, update, update_balance, IntraBlockState, storage_entry, revert, revert_balance,
}
use akula.State.IntraBlock.{loaded, push, put_object}
use akula.State.IntraBlock.Rollback.{
  Restores, Undo, object_from, object_at, fallback, is_new, original_in, current_in,
}
use akula.State.IntraBlock.Rollback.Compose.{Undo-one}

module _ (db : Reader) where
  pub fallback-is_new :
      (o o' : Option Object) (i : Option ℕ) (a k : ℕ)
      → is_new o ≡ is_new o'
      → fallback db (ok o) i a k ≡ fallback db (ok o') i a k
  unfolding fallback
  fallback-is_new o o' i a k e = ground arith

  -- The objects change and nothing shown does.
  pub objects-Restores :
      {s : IntraBlockState} (m : HashMap Object)
      → ((a : ℕ) → object_from db a (HashMap.get m a) ≡ object_at db s a)
      → ((a : ℕ) (o : Object) → HashMap.get s.objects a ≡ some o → HashMap.get m a ≡ some o)
      → Restores db s (record s { objects = m })
  objects-Restores {s} m view kept = record {
    objects = view;
    cached = kept;
    incarnations = λ a. refl;
    original = λ a k.
        ap
          (λ o.
            original_in (storage_entry s a) k (fallback db o (HashMap.get s.incarnations a) a k))
          (view a);
    current = λ a k.
        ap
          (λ o. current_in (storage_entry s a) k (fallback db o (HashMap.get s.incarnations a) a k))
          (view a);
    self_destructs = λ a. refl;
    touched = λ a h. refl;
    addresses = λ a. refl;
    keys = λ a k. refl;
  }

  pub load-Restores :
      (s : IntraBlockState) (a : ℕ) (account : Account)
      → HashMap.get s.objects a ≡ none
      → db.read_account a ≡ ok (some account)
      → Restores db s (put_object a (loaded account) s)
  load-Restores s a account absent read =
      objects-Restores (HashMap.insert s.objects a (loaded account))
        (λ b. rw (get-insert s.objects a (loaded account) b) (view b))
        (λ b o h. rw (get-insert s.objects a (loaded account) b) (kept b o h))
    where
      view :
          (b : ℕ)
          → object_from db b (if a == b then some (loaded account) else HashMap.get s.objects b)
            ≡ object_at db s b
      view b = ground arith

      kept :
          (b : ℕ) (o : Object)
          → HashMap.get s.objects b ≡ some o
          → (if a == b then some (loaded account) else HashMap.get s.objects b) ≡ some o
      kept b o h = ground arith

  -- The objects change from `s` to `m` under a delta, and from `u` back to `m'`.
  back-Restores :
      {s u : IntraBlockState} (d : Delta) (m m' : HashMap Object)
      → Restores db (push d (record s { objects = m })) u
      → ((a : ℕ) → object_from db a (HashMap.get m' a) ≡ object_at db s a)
      → ((a : ℕ) (o : Object) → HashMap.get s.objects a ≡ some o → HashMap.get m' a ≡ some o)
      → ((a : ℕ) (i : Option ℕ) (k : ℕ)
          → fallback db (object_from db a (HashMap.get m a)) i a k
            ≡ fallback db (object_at db s a) i a k)
      → Restores db s (record u { objects = m' })
  back-Restores {s} {u} d m m' r view kept same = record {
    objects = view;
    cached = kept;
    incarnations = r.incarnations;
    original = λ a k.
        ap (original_in (storage_entry u a) k) (inner a k)
        ∙ r.original a k
        ∙ ap (original_in (storage_entry s a) k) (same a (HashMap.get s.incarnations a) k);
    current = λ a k.
        ap (current_in (storage_entry u a) k) (inner a k)
        ∙ r.current a k
        ∙ ap (current_in (storage_entry s a) k) (same a (HashMap.get s.incarnations a) k);
    self_destructs = r.self_destructs;
    touched = r.touched;
    addresses = r.addresses;
    keys = r.keys;
  }
    where
      inner :
          (a k : ℕ)
          → fallback db (object_from db a (HashMap.get m' a)) (HashMap.get u.incarnations a) a k
            ≡ fallback db (object_at db u a) (HashMap.get u.incarnations a) a k
      inner a k =
          let i = HashMap.get u.incarnations a in
          ap (λ o. fallback db o i a k) (view a)
          ∙ sym (same a i k)
          ∙ ap (λ o. fallback db o i a k) (sym (r.objects a))

  pub Undo-create :
      (s : IntraBlockState) (a : ℕ) (current : Option Account)
      → HashMap.get s.objects a ≡ none
      → db.read_account a ≡ ok none
      → Undo db s (put_object a (record { initial = none; current = current }) (push (create a) s))
  unfolding revert
  Undo-create s a current absent read = Undo-one db (create a) refl refl λ u r. (
    record u { objects = HashMap.remove u.objects a },
    refl,
    back-Restores (create a) m (HashMap.remove u.objects a) r (view u r) (kept u r) same,
    refl,
    refl,
  )
    where
      new : Object
      new = record { initial = none; current = current }

      m : HashMap Object
      m = HashMap.insert s.objects a new

      view :
          (u : IntraBlockState)
          → Restores db (put_object a new (push (create a) s)) u
          → (b : ℕ)
          → object_from db b (HashMap.get (HashMap.remove u.objects a) b) ≡ object_at db s b
      view u r b =
          ground (arith, get-remove u.objects a b, get-insert s.objects a new b, r.objects b)

      kept :
          (u : IntraBlockState)
          → Restores db (put_object a new (push (create a) s)) u
          → (b : ℕ) (o : Object) → HashMap.get s.objects b ≡ some o
          → HashMap.get (HashMap.remove u.objects a) b ≡ some o
      kept u r b o h =
          ground (arith, get-remove u.objects a b, get-insert s.objects a new b, r.cached b o)

      same :
          (b : ℕ) (i : Option ℕ) (k : ℕ)
          → fallback db (object_from db b (HashMap.get m b)) i b k
            ≡ fallback db (object_at db s b) i b k
      same b i k =
          ground (arith, get-insert s.objects a new b, fallback-is_new (some new) none i b k refl)

  -- An object `o` is replaced by `o'` under a delta that puts `o` back.
  Undo-replace :
      (s : IntraBlockState) (a : ℕ) (o o' : Object) (d : Delta)
      → HashMap.get s.objects a ≡ some o
      → is_none o'.initial ≡ is_none o.initial
      → ((u : IntraBlockState)
          → HashMap.get u.objects a ≡ some o'
          → revert d u ≡ ok (record u { objects = HashMap.insert u.objects a o }))
      → Undo db s (put_object a o' (push d s))
  Undo-replace s a o o' d there initial back = Undo-one db d refl refl λ u r. (
    record u { objects = HashMap.insert u.objects a o },
    back u (r.cached a o' (rw (get-insert s.objects a o' a, ==_self a))),
    back-Restores d m (HashMap.insert u.objects a o) r (view u r) (kept u r) same,
    refl,
    refl,
  )
    where
      m : HashMap Object
      m = HashMap.insert s.objects a o'

      view :
          (u : IntraBlockState)
          → Restores db (put_object a o' (push d s)) u
          → (b : ℕ)
          → object_from db b (HashMap.get (HashMap.insert u.objects a o) b) ≡ object_at db s b
      view u r b =
          ground (arith, get-insert u.objects a o b, get-insert s.objects a o' b, r.objects b)

      kept :
          (u : IntraBlockState)
          → Restores db (put_object a o' (push d s)) u
          → (b : ℕ) (x : Object) → HashMap.get s.objects b ≡ some x
          → HashMap.get (HashMap.insert u.objects a o) b ≡ some x
      kept u r b x h =
          ground (arith, get-insert u.objects a o b, get-insert s.objects a o' b, r.cached b x)

      same :
          (b : ℕ) (i : Option ℕ) (k : ℕ)
          → fallback db (object_from db b (HashMap.get m b)) i b k
            ≡ fallback db (object_at db s b) i b k
      same b i k =
          ground
            (arith, get-insert s.objects a o' b, fallback-is_new (some o') (some o) i b k initial)

  pub Undo-update :
      (s : IntraBlockState) (a : ℕ) (o o' : Object)
      → HashMap.get s.objects a ≡ some o
      → is_none o'.initial ≡ is_none o.initial
      → Undo db s (put_object a o' (push (update a o) s))
  unfolding revert
  Undo-update s a o o' there initial =
      Undo-replace s a o o' (update a o) there initial (λ u h. refl)

  pub Undo-balance :
      (s : IntraBlockState) (a x : ℕ) (o : Object) (account : Account)
      → HashMap.get s.objects a ≡ some o
      → o.current ≡ some account
      → Undo db s (
          put_object a
            (record o { current = some (record account { balance = x }) })
            (push (update_balance a account.balance) s))
  unfolding revert
  Undo-balance s a x o account there cur =
      Undo-replace s a o (record o { current = some (record account { balance = x }) })
        (update_balance a account.balance) there refl (λ u h. rw (h, revert_balance) (rw (← cur)))
