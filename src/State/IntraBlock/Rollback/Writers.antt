-- ===== src/State/IntraBlock/Rollback/Writers.antt =====
-- The operations on code, storage and contracts can be undone.
use akula.Prelude.{
  ℕ, ◌<◌, ◌^◌, subst, unwrap_or, ◌≡◌, refl, sym, ap, ◌∙◌, ◌==◌, if◌then◌else◌, Option, none, some,
  Bool, true, false, List,
}
use akula.Errors.{Error, Result, ok, err}
use akula.HashMap
use akula.HashMap.{HashMap}
use akula.State.Interface.{Reader}
use akula.State.Monad.{Method, pure, lift, modify, gets, ◌>>=◌}
use akula.State.Object.{Object, empty_hash}
use akula.State.Delta.{IntraBlockState, incarnation, storage_change}
use akula.State.IntraBlock.{
  push, put_object, get_object, get_or_create_object, current_or, update_account,
}
use akula.State.IntraBlock.Contracts.{
  next_incarnation, creation_delta, created_object, wipe_storage, create_contract, get_code,
  code_of_hash, keep_code, set_code,
}
use akula.State.IntraBlock.Slots.{
  write_slot, get_storage, get_current_storage, get_original_storage, change_slot, set_storage,
}
use akula.State.IntraBlock.Rollback.{Restores, Restores-refl, Undo}
use akula.State.IntraBlock.Rollback.Compose.{Undo-quiet, Undo-trans}
use akula.State.IntraBlock.Rollback.Objects.{Undo-create, Undo-update}
use akula.State.IntraBlock.Rollback.Storages.{Undo-change}
use akula.State.IntraBlock.Rollback.Creation.{IsCounted, created, Undo-creation}
use akula.State.IntraBlock.Rollback.Steps.{
  Any, Done, Step, Step-bind, Step-modify, Step-pure, Step-gets, Undo-refl,
}
use akula.State.IntraBlock.Rollback.Lookups.{
  Found, get_object_lem, get_object-Step, get_or_create_object-Step,
}
use akula.State.IntraBlock.Rollback.Reads.{IsLive, value_at, value_at-Restores, get_storage_lem}
use akula.State.IntraBlock.Rollback.Operations.{Step-run, Step-fails, update_account-Step}

module _ (db : Reader) where
  -- The two maps of code are no part of what `Restores` compares.
  codes-Restores :
      (s : IntraBlockState) (old new : HashMap (List ℕ))
      → Restores db s (record s { existing_code = old; new_code = new })
  codes-Restores s old new = record {
    objects = r.objects;
    cached = r.cached;
    incarnations = r.incarnations;
    original = r.original;
    current = r.current;
    self_destructs = r.self_destructs;
    touched = r.touched;
    addresses = r.addresses;
    keys = r.keys;
  }
    where
      r : Restores db s s
      r = Restores-refl db s

  codes-Step :
      (f g : IntraBlockState → HashMap (List ℕ))
      → Step db Any (modify (λ s. record s { existing_code = f s; new_code = g s })) Done
  codes-Step f g =
      Step-modify db _ (λ s h. (Undo-quiet db (codes-Restores s (f s) (g s)) refl refl, tt))

  lift-ok : {A : Type 0} (a : A) (s : IntraBlockState) → lift (ok a) s ≡ ok (a, s)
  unfolding lift
  lift-ok a s = refl

  lift-err : {A : Type 0} (e : Error) (s : IntraBlockState) → lift {A = A} (err e) s ≡ err e
  unfolding lift
  lift-err e s = refl

  lift-Step : {A : Type 0} (r : Result A) → Step db Any (lift r) Done
  lift-Step (ok a) = Step-run db (λ s. a) (λ s. s) (lift-ok a) (λ s h. (Undo-refl db s, tt))
  lift-Step (err e) = Step-fails db e (lift-err e)

  code_of_hash-Step :
      (code_hash : ℕ) (new existing : Option (List ℕ))
      → Step db Any (code_of_hash db code_hash new existing) Done
  unfolding code_of_hash
  code_of_hash-Step code_hash (some code) existing = Step-pure db (some code) (λ s h. tt)
  code_of_hash-Step code_hash none (some code) = Step-pure db (some code) (λ s h. tt)
  code_of_hash-Step code_hash none none =
      Step-bind db (lift (db.read_code code_hash)) _ (lift-Step (db.read_code code_hash)) λ code.
        Step-bind db (modify _) _
          (codes-Step (λ s. HashMap.insert s.existing_code code_hash code) (λ s. s.new_code))
          (λ _. Step-pure db (some code) (λ s h. tt))

  pick-Step :
      {A : Type 0} (b : Bool) (m n : Method A)
      → Step db Any m Done
      → Step db Any n Done
      → Step db Any (if b then m else n) Done
  pick-Step true m n p q = p
  pick-Step false m n p q = q

  pub get_code-Step : (a : ℕ) → Step db Any (get_code db a) Done
  unfolding get_code
  get_code-Step a = Step-bind db (get_object db a) _ (get_object-Step db a) λ obj.
      let code_hash = current_or empty_hash (λ c. c.code_hash) obj in
      Step-bind db (gets (λ s. HashMap.get s.new_code code_hash)) _
        (Step-gets db {Q = Done} (λ s. HashMap.get s.new_code code_hash) (λ s h. tt))
        λ new.
          Step-bind db (gets (λ s. HashMap.get s.existing_code code_hash)) _
            (Step-gets db {Q = Done} (λ s. HashMap.get s.existing_code code_hash) (λ s h. tt))
            λ existing.
              pick-Step (code_hash == empty_hash) (pure none)
                (code_of_hash db code_hash new existing) (Step-pure db none (λ s h. tt))
                (code_of_hash-Step code_hash new existing)

  storage-Step :
      (original : Bool) (a k : ℕ)
      → Step db
          (λ s. IsLive db s a)
          (get_storage db a k original)
          (λ v t. value_at db original t a k ≡ ok v)
  storage-Step original a k = record {
    at = λ s live v t e.
        let r = get_storage_lem db s a k original v t e in
        (
          Undo-quiet db r.reads.shows r.reads.journal r.reads.logs,
          value_at-Restores db original a k r.reads.shows ∙ r.answers live,
        );
  }

  read-Step : (original : Bool) (a k : ℕ) → Step db Any (get_storage db a k original) Done
  read-Step original a k = record {
    at = λ s h v t e.
        let r = get_storage_lem db s a k original v t e in
        (Undo-quiet db r.reads.shows r.reads.journal r.reads.logs, tt);
  }

  pub get_current_storage-Step : (a k : ℕ) → Step db Any (get_current_storage db a k) Done
  unfolding get_current_storage
  get_current_storage-Step a k = read-Step false a k

  pub get_original_storage-Step : (a k : ℕ) → Step db Any (get_original_storage db a k) Done
  unfolding get_original_storage
  get_original_storage-Step a k = read-Step true a k

  change-Step :
      (a k value previous : ℕ)
      → Step db
          (λ t. value_at db false t a k ≡ ok previous)
          (change_slot db a k value previous)
          Done
  unfolding change_slot modify ◌>>=◌
  change-Step a k value previous =
      Step-run db (λ s. tt) (λ s. push (storage_change a k previous) (write_slot a k value s))
        (λ s. refl) (λ s now. (Undo-change db s a k value previous now, tt))

  unchanged-Step :
      (b : Bool) (a k value previous : ℕ)
      → Step db
          (λ t. value_at db false t a k ≡ ok previous)
          (if b then pure tt else change_slot db a k value previous)
          Done
  unchanged-Step true a k value previous = Step-pure db tt (λ s h. tt)
  unchanged-Step false a k value previous = change-Step a k value previous

  -- The slots of an account that is not there are not shown, so a write to one is left out.
  pub set_storage-Step :
      (a k value : ℕ) → Step db (λ s. IsLive db s a) (set_storage db a k value) Done
  unfolding set_storage get_current_storage
  set_storage-Step a k value =
      Step-bind db (get_storage db a k false) _ (storage-Step false a k)
        λ previous. unchanged-Step (previous == value) a k value previous

  pub set_code-Step :
      (keccak256 : List ℕ → ℕ) (a : ℕ) (code : List ℕ)
      → Step db Any (set_code db keccak256 a code) Done
  unfolding set_code
  set_code-Step keccak256 a code =
      Step-bind db (get_or_create_object db a) _ (get_or_create_object-Step db a) λ obj.
        Step-bind db (update_account a obj _) _ (update_account-Step db a obj _)
          λ _. codes-Step (λ s. s.existing_code) (λ s. (keep_code (keccak256 code) code s).new_code)

  created-Step :
      (a : ℕ) (prev : Option Object)
      → Step db
          (λ t. Found db a prev t × IsCounted t a)
          (modify (push (creation_delta a prev)) >>= λ _. modify (next_incarnation a) >>= λ _.
            modify (push (incarnation a)) >>= λ _.
            modify (put_object a (created_object prev)) >>= λ _. modify (wipe_storage a))
          Done
  unfolding modify ◌>>=◌
  created-Step a prev =
      Step-run db (λ s. tt)
        (λ s. created a (put_object a (created_object prev) (push (creation_delta a prev) s)))
        (λ s. refl)
        λ s h. (Undo-trans db (object s prev h.0) (Undo-creation db _ a (counted s h.1)), tt)
    where
      object :
          (s : IntraBlockState) (o : Option Object)
          → Found db a o s
          → Undo db s (put_object a (created_object o) (push (creation_delta a o) s))
      object s none found = Undo-create db s a _ found.0 found.1
      object s (some x) found = Undo-update db s a x (created_object (some x)) found refl

      counted :
          (s : IntraBlockState)
          → IsCounted s a
          → IsCounted (put_object a (created_object prev) (push (creation_delta a prev) s)) a
      counted s c = record { positive = c.positive; bounded = c.bounded }

  pub create_contract-Step : (a : ℕ) → Step db (λ s. IsCounted s a) (create_contract db a) Done
  unfolding create_contract
  create_contract-Step a = Step-bind db (get_object db a) _ looked (created-Step a)
    where
      looked :
          Step db (λ s. IsCounted s a) (get_object db a) (λ o t. Found db a o t × IsCounted t a)
      looked = record {
        at = λ s c o t e.
            let l = get_object_lem db s a o t e in
            (
              Undo-quiet db l.shows l.journal l.logs,
              (
                l.found,
                record {
                  positive = λ x.
                      c.positive (ap (λ (m : HashMap ℕ). HashMap.get m a) (sym l.incarnations) ∙ x);
                  bounded =
                      subst (λ (m : HashMap ℕ). unwrap_or (HashMap.get m a) 0 < 2 ^ 64)
                        (sym l.incarnations) c.bounded;
                },
              ),
            );
      }
