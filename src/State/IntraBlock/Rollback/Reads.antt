-- ===== src/State/IntraBlock/Rollback/Reads.antt =====
-- `get_storage`: it keeps what is shown, and of a live account it answers the slot.
use akula.Prelude.{
  ℕ, ◌≡◌, refl, sym, ap, ◌∙◌, subst, inl, inr, if◌then◌else◌, Option, none, some, Bool, true, false,
  ◌||◌, is_none, is_some, ==_self, Bool-cases, Option-cases,
}
use akula.Errors.{Result, ok}
use akula.HashMap
use akula.HashMap.{get-insert}
use akula.State.Interface.{Reader}
use akula.State.Monad.{pure, lift, modify, gets, ◌>>=◌}
use akula.State.Object.{Account, Object, CommittedValue}
use akula.State.Delta.{IntraBlockState, storage_entry}
use akula.State.IntraBlock.{get_object}
use akula.State.IntraBlock.Slots.{
  put_storage, fetch_slot, committed_slot, slot, get_storage_of, get_storage,
}
use akula.State.IntraBlock.Rollback.{
  Restores, Restores-refl, Restores-trans, object_at, fallback, fallback_at, slot_or, committed_or,
  original_at,
}
use akula.State.IntraBlock.Rollback.Compose.{Result-cases}
use akula.State.IntraBlock.Rollback.Storages.{entry-Restores, commit-Restores}
use akula.State.IntraBlock.Rollback.Steps.{ok-injective, >>=-eq-ok}
use akula.State.IntraBlock.Rollback.Lookups.{Looked, get_object_lem}

module _ (db : Reader) where
  -- `t` is `s` with more of the database kept.
  pub record Reads (s t : IntraBlockState) : Type 0 where
    pub shows : Restores db s t
    pub journal : t.journal ≡ s.journal
    pub logs : t.logs ≡ s.logs

  pub Reads-refl : (s : IntraBlockState) → Reads s s
  Reads-refl s = record { shows = Restores-refl db s; journal = refl; logs = refl }

  pub Reads-trans : {s t u : IntraBlockState} → Reads s t → Reads t u → Reads s u
  Reads-trans p q = record {
    shows = Restores-trans db p.shows q.shows;
    journal = q.journal ∙ p.journal;
    logs = q.logs ∙ p.logs;
  }

  -- A result of `m` that answers `r` and leaves `t` behind.
  abbrev Answers : IntraBlockState → Result ℕ → ℕ → IntraBlockState → Type 0
  Answers s r v t = Reads s t × (r ≡ ok v)

  answer_of_now :
      (s : IntraBlockState) (r : Result ℕ) (w v : ℕ) (t : IntraBlockState)
      → r ≡ ok w
      → pure w s ≡ ok (v, t)
      → Answers s r v t
  unfolding pure
  answer_of_now s r w v t e h =
      subst (λ (p : ℕ × IntraBlockState). Answers s r p.0 p.1) (ok-injective h) (Reads-refl s, e)

  module _ (s : IntraBlockState) (a k : ℕ) (obj : Object)
      (there : HashMap.get s.objects a ≡ some obj) where
    fallback_new :
        (is_none obj.initial || is_some (HashMap.get s.incarnations a)) ≡ true
        → fallback_at db s a k ≡ ok 0
    unfolding fallback
    fallback_new e = rw there (rw e)

    fallback_old :
        (is_none obj.initial || is_some (HashMap.get s.incarnations a)) ≡ false
        → fallback_at db s a k ≡ db.read_storage a k
    unfolding fallback
    fallback_old e = rw there (rw e)

    fetch_lem :
        (v : ℕ) (t : IntraBlockState)
        → HashMap.get (storage_entry s a).committed k ≡ none
        → fetch_slot db a k (is_none obj.initial || is_some (HashMap.get s.incarnations a)) s
          ≡ ok (v, t)
        → Answers s (fallback_at db s a k) v t
    unfolding fetch_slot ◌>>=◌ lift modify pure
    fetch_lem v t absent h =
        elim (Bool-cases (is_none obj.initial || is_some (HashMap.get s.incarnations a))) [
          | inl new ↦ answer_of_now s (fallback_at db s a k) 0 v t (fallback_new new) (rw new at h)
          | inr old ↦ elim (Result-cases (db.read_storage a k)) [
            | inl (val, e) ↦
                subst (λ (p : ℕ × IntraBlockState). Answers s (fallback_at db s a k) p.0 p.1)
                  (ok-injective (rw (old, e) at h))
                  (
                    record {
                      shows = commit-Restores db s a k val absent (fallback_old old ∙ e);
                      journal = refl;
                      logs = refl;
                    },
                    fallback_old old ∙ e,
                  )
            | inr (x, e) ↦ cc (rw (old, e) at h)
          ]
        ]

    committed_lem :
        (c : Option CommittedValue) (v : ℕ) (t : IntraBlockState)
        → HashMap.get (storage_entry s a).committed k ≡ c
        → committed_slot db a k obj c s ≡ ok (v, t)
        → Answers s (committed_or c (fallback_at db s a k)) v t
    unfolding committed_slot gets ◌>>=◌
    committed_lem none v t e h = fetch_lem v t e h
    committed_lem (some w) v t e h = answer_of_now s (ok w.original) w.original v t refl h

    slot_lem :
        (c : Option ℕ) (v : ℕ) (t : IntraBlockState)
        → slot db a k obj (storage_entry s a) c s ≡ ok (v, t)
        → Answers s (slot_or c (original_at db s a k)) v t
    unfolding slot
    slot_lem none v t h = committed_lem (HashMap.get (storage_entry s a).committed k) v t refl h
    slot_lem (some w) v t h = answer_of_now s (ok w) w v t refl h

  -- What `get_storage` asks for: the slot at the start of the transaction, or the slot now.
  abbrev pub value_at : Bool → IntraBlockState → ℕ → ℕ → Result ℕ
  value_at original s a k =
      slot_or (if original then none else HashMap.get (storage_entry s a).current k)
        (original_at db s a k)

  pub value_at-Restores :
      (original : Bool) {s t : IntraBlockState} (a k : ℕ)
      → Restores db s t
      → value_at original t a k ≡ value_at original s a k
  value_at-Restores true a k r = r.original a k
  value_at-Restores false a k r = r.current a k

  -- A live account has a value in `current`.
  abbrev pub IsLive : IntraBlockState → ℕ → Type 0
  IsLive s a =
      (o : Object) × (account : Account) × (object_at db s a ≡ ok (some o))
      × (o.current ≡ some account)

  pub record Slot (original : Bool) (s : IntraBlockState) (a k v : ℕ) (t : IntraBlockState)
      : Type 0 where
    pub reads : Reads s t
    pub answers : IsLive s a → value_at original s a k ≡ ok v

  live_slot :
      (s : IntraBlockState) (a k : ℕ) (original : Bool) (obj : Object) (v : ℕ) (t : IntraBlockState)
      → HashMap.get s.objects a ≡ some obj
      → slot db a k obj
          (storage_entry s a)
          (if original then none else HashMap.get (storage_entry s a).current k)
          (put_storage a (storage_entry s a) s)
        ≡ ok (v, t)
      → Slot original s a k v t
  live_slot s a k original obj v t there h = record {
    reads = Reads-trans kept found.0;
    answers = λ l.
        ap (slot_or (if original then none else HashMap.get (storage_entry s a).current k))
          (sym (kept.shows.original a k))
        ∙ found.1;
  }
    where
      s' : IntraBlockState
      s' = put_storage a (storage_entry s a) s

      kept : Reads s s'
      kept = record { shows = entry-Restores db s a; journal = refl; logs = refl }

      same : storage_entry s' a ≡ storage_entry s a
      same = rw (get-insert s.storage a (storage_entry s a) a, ==_self a)

      found :
          Answers s'
            (slot_or
              (if original then none else HashMap.get (storage_entry s a).current k)
              (original_at db s' a k))
            v
            t
      found =
          slot_lem s' a k obj there
            (if original then none else HashMap.get (storage_entry s a).current k) v t
            (subst
              (λ x.
                slot db a k obj x
                  (if original then none else HashMap.get (storage_entry s a).current k) s'
                ≡ ok (v, t))
              (sym same) h)

  zero_when_dead :
      (s : IntraBlockState) (a k : ℕ) (original : Bool) (v : ℕ) (t : IntraBlockState)
      → ¬ (IsLive s a)
      → pure 0 s ≡ ok (v, t)
      → Slot original s a k v t
  zero_when_dead s a k original v t dead h = record {
    reads = (answer_of_now s (ok 0) 0 v t refl h).0;
    answers = λ l. absurd (dead l);
  }

  storage_of_lem :
      (s : IntraBlockState) (a k : ℕ) (original : Bool) (o : Option Object) (v : ℕ)
      (t : IntraBlockState)
      → object_at db s a ≡ ok o
      → ((x : Object) → o ≡ some x → HashMap.get s.objects a ≡ some x)
      → get_storage_of db a k original o s ≡ ok (v, t)
      → Slot original s a k v t
  unfolding get_storage_of gets modify ◌>>=◌ slot committed_slot
  storage_of_lem s a k original none v t was kept h =
      zero_when_dead s a k original v t (λ l. cc (was, l.2)) h
  storage_of_lem s a k original (some obj) v t was kept h = elim (Option-cases obj.current) [
    | inl gone ↦ zero_when_dead s a k original v t (λ l. cc (was, l.2, l.3, gone)) (rw gone at h)
    | inr (account, live) ↦ live_slot s a k original obj v t (kept obj refl) (rw live at h)
  ]

  found_kept :
      (s : IntraBlockState) (a : ℕ) (o : Option Object) (t : IntraBlockState)
      → Looked db s a o t
      → (x : Object) → o ≡ some x
      → HashMap.get t.objects a ≡ some x
  found_kept s a none t l x e = cc
  found_kept s a (some y) t l x e = l.found ∙ e

  pub get_storage_lem :
      (s : IntraBlockState) (a k : ℕ) (original : Bool) (v : ℕ) (t : IntraBlockState)
      → get_storage db a k original s ≡ ok (v, t)
      → Slot original s a k v t
  unfolding get_storage
  get_storage_lem s a k original v t h =
      let (o, u, first, second) =
        >>=-eq-ok (get_object db a) (get_storage_of db a k original) s h in
      let l = get_object_lem db s a o u first in
      let r =
        storage_of_lem u a k original o v t (l.shows.objects a ∙ l.was) (found_kept s a o u l)
          second in
      record {
        reads =
            Reads-trans (record { shows = l.shows; journal = l.journal; logs = l.logs }) r.reads;
        answers = λ (x, account, was, live).
            sym (value_at-Restores original a k l.shows)
            ∙ r.answers (x, account, l.shows.objects a ∙ was, live);
      }
