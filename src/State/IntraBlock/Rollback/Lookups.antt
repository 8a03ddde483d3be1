-- ===== src/State/IntraBlock/Rollback/Lookups.antt =====
-- `get_object` and `get_or_create_object`: what they return, and that they can be undone.
use akula.Prelude.{
  ℕ, ◌∙◌, ◌≡◌, refl, subst, inl, inr, Option, none, some, is_none, Bool-cases, Option-cases,
  ==_self,
}
use akula.Errors.{ok}
use akula.HashMap
use akula.HashMap.{get-insert}
use akula.State.Interface.{Reader}
use akula.State.Monad.{pure, lift, gets, ◌>>=◌}
use akula.State.Object.{Account, Object, default_account}
use akula.State.Delta.{IntraBlockState}
use akula.State.IntraBlock.{
  loaded, get_object, find_object, load_object, ensure_object, ensure_current, get_or_create_object,
}
use akula.State.IntraBlock.Rollback.{Restores, Restores-refl, object_at}
use akula.State.IntraBlock.Rollback.Compose.{Undo-quiet, Result-cases}
use akula.State.IntraBlock.Rollback.Objects.{load-Restores, Undo-create, Undo-update}
use akula.State.IntraBlock.Rollback.Steps.{
  Any, ok-injective, Step, Step-bind, Step-modify, Step-pure, Step-gets, Step-unwrap,
}

module _ (db : Reader) where
  -- What `objects` holds behind a lookup that answered `o`.
  abbrev pub Found : ℕ → Option Object → IntraBlockState → Type 0
  Found a none t = (HashMap.get t.objects a ≡ none) × (db.read_account a ≡ ok none)
  Found a (some x) t = HashMap.get t.objects a ≡ some x

  pub record Looked (s : IntraBlockState) (a : ℕ) (o : Option Object) (t : IntraBlockState)
      : Type 0 where
    pub shows : Restores db s t
    pub found : Found a o t
    pub was : object_at db s a ≡ ok o
    pub journal : t.journal ≡ s.journal
    pub logs : t.logs ≡ s.logs
    pub storage : t.storage ≡ s.storage
    pub incarnations : t.incarnations ≡ s.incarnations

  found_hit :
      (s : IntraBlockState) (a : ℕ) (x : Object)
      → HashMap.get s.objects a ≡ some x
      → Looked s a (some x) s
  found_hit s a x e = record {
    shows = Restores-refl db s;
    found = e;
    was = rw e;
    journal = refl;
    logs = refl;
    storage = refl;
    incarnations = refl;
  }

  found_read :
      (s : IntraBlockState) (a : ℕ) (r : Option Account) (o : Option Object) (t : IntraBlockState)
      → HashMap.get s.objects a ≡ none
      → db.read_account a ≡ ok r
      → load_object db a r s ≡ ok (o, t)
      → Looked s a o t
  unfolding get_object
  found_read s a none o t e d h =
      subst (λ (p : Option Object × IntraBlockState). Looked s a p.0 p.1) (ok-injective h)
        (record {
          shows = Restores-refl db s;
          found = (e, d);
          was = rw (e, d);
          journal = refl;
          logs = refl;
          storage = refl;
          incarnations = refl;
        })
  found_read s a (some account) o t e d h =
      subst (λ (p : Option Object × IntraBlockState). Looked s a p.0 p.1) (ok-injective h)
        (record {
          shows = load-Restores db s a account e d;
          found = rw (get-insert s.objects a (loaded account) a, ==_self a);
          was = rw (e, d);
          journal = refl;
          logs = refl;
          storage = refl;
          incarnations = refl;
        })

  pub get_object_lem :
      (s : IntraBlockState) (a : ℕ) (o : Option Object) (t : IntraBlockState)
      → get_object db a s ≡ ok (o, t)
      → Looked s a o t
  unfolding get_object find_object lift pure ◌>>=◌
  get_object_lem s a o t h = elim (Option-cases (HashMap.get s.objects a)) [
    | inl e ↦ elim (Result-cases (db.read_account a)) [
      | inl (r, d) ↦ found_read s a r o t e d (rw (e, d) at h)
      | inr (x, d) ↦ cc (rw (e, d) at h)
    ]
    | inr (x, e) ↦
        subst (λ (p : Option Object × IntraBlockState). Looked s a p.0 p.1)
          (ok-injective (rw e at h)) (found_hit s a x e)
  ]

  pub get_object-Step : (a : ℕ) → Step db Any (get_object db a) (Found a)
  get_object-Step a = record {
    at = λ s h o t e.
        let l = get_object_lem s a o t e in (Undo-quiet db l.shows l.journal l.logs, l.found);
  }

  ensure_current-Step :
      (a : ℕ) (o : Option Object)
      → Step db
          (Found a o)
          (ensure_current db a o)
          (λ _ t. (x : Object) × (HashMap.get t.objects a ≡ some x))
  unfolding ensure_object
  ensure_current-Step a none = Step-modify db _ λ s found. (
    Undo-create db s a (some default_account) found.0 found.1,
    (
      record { initial = none; current = some default_account },
      rw (
        get-insert s.objects a (record { initial = none; current = some default_account }) a,
        ==_self a,
      ),
    ),
  )
  ensure_current-Step a (some x) = elim (Bool-cases (is_none x.current)) [
    | inl gone ↦ rw gone (
        Step-modify db _ λ s found. (
          Undo-update db s a x (record x { current = some default_account }) found refl,
          (
            record x { current = some default_account },
            rw (get-insert s.objects a (record x { current = some default_account }) a, ==_self a),
          ),
        ))
    | inr live ↦ rw live (Step-pure db tt (λ s found. (x, found)))
  ]

  -- The object that is returned is the one that `objects` holds.
  pub get_or_create_object-Step :
      (a : ℕ) → Step db Any (get_or_create_object db a) (λ x t. HashMap.get t.objects a ≡ some x)
  unfolding get_or_create_object ensure_object
  get_or_create_object-Step a =
      Step-bind db (ensure_object db a) _
        (Step-bind db (get_object db a) _ (get_object-Step a) (ensure_current-Step a))
        λ _.
          Step-bind db (gets (λ s. HashMap.get s.objects a)) _
            (Step-gets db {Q = λ o t. HashMap.get t.objects a ≡ o} (λ s. HashMap.get s.objects a)
              (λ s h. refl))
            (λ o. Step-unwrap db o (λ x s e h. h ∙ e))
