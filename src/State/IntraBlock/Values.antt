-- ===== src/State/IntraBlock/Values.antt =====
-- What the storage of the journaled state holds after a write.
use akula.Prelude.{
  ℕ, ◌≡◌, refl, sym, ap, ◌∙◌, ◌==◌, ◌&&◌, if◌then◌else◌, Bool, true, false, ==_iff, Bool-cases, inl,
  inr,
}
use akula.Errors.{Result, ok}
use akula.HashMap
use akula.HashMap.{get-insert}
use akula.State.Interface.{Reader}
use akula.State.Monad.{pure, modify, bind-ok, pure-keeps}
use akula.State.Delta.{IntraBlockState, storage_change, storage_entry}
use akula.State.IntraBlock.{push}
use akula.State.IntraBlock.Slots.{write_slot, change_slot, set_storage, get_current_storage}
use akula.State.IntraBlock.Accounts.{modify-ok}
use akula.State.IntraBlock.Rollback.{Restores, current_at, current_in, fallback_at, object_at}
use akula.State.IntraBlock.Rollback.Steps.{ok-injective}
use akula.State.IntraBlock.Rollback.Reads.{IsLive, get_storage_lem}

module _ (db : Reader) where
  written_entry :
      (s : IntraBlockState) (a k x b j : ℕ) (r : Result ℕ)
      → current_in (storage_entry (write_slot a k x s) b) j r
        ≡ (if a == b && k == j then ok x else current_in (storage_entry s b) j r)
  written_entry s a k x b j r =
      let entry = storage_entry s a in
      let st = record entry { current = HashMap.insert entry.current k x } in
      elim (Bool-cases (a == b)) [
        | inl h ↦
            rw (get-insert s.storage a st b, h)
              (rw (get-insert entry.current k x j) (
                rw (← (==_iff a b).0 h)
                  (elim (Bool-cases (k == j)) [ inl e ↦ rw e refl | inr e ↦ rw e refl ])))
        | inr h ↦ rw (get-insert s.storage a st b, h) refl
      ]

  -- Neither writing a slot nor keeping its delta changes what the database is asked for.
  current-written :
      (s : IntraBlockState) (a k x previous b j : ℕ)
      → current_at db (push (storage_change a k previous) (write_slot a k x s)) b j
        ≡ (if a == b && k == j then ok x else current_at db s b j)
  current-written s a k x previous b j = written_entry s a k x b j (fallback_at db s b j)

  -- `t` shows the storage of `s` but for a slot, and the same objects.
  record Stored (a k x : ℕ) (s t : IntraBlockState) : Type 0 where
    values :
        (b j : ℕ) → current_at db t b j ≡ (if a == b && k == j then ok x else current_at db s b j)
    objects : (b : ℕ) → object_at db t b ≡ object_at db s b

  unchanged :
      (s : IntraBlockState) (a k x b j : ℕ)
      → current_at db s a k ≡ ok x
      → current_at db s b j ≡ (if a == b && k == j then ok x else current_at db s b j)
  unchanged s a k x b j was = elim (Bool-cases (a == b)) [
    | inl h ↦ elim (Bool-cases (k == j)) [
      | inl e ↦ rw (h, e) (rw (← (==_iff a b).0 h) (rw (← (==_iff k j).0 e) was))
      | inr e ↦ rw (h, e) refl
    ]
    | inr h ↦ rw h refl
  ]

  ok-if : (c : Bool) (x v : ℕ) → (if c then ok x else ok v) ≡ ok (if c then x else v)
  ok-if true x v = refl
  ok-if false x v = refl

  stored :
      (a k x previous : ℕ) (s u t : IntraBlockState)
      → Restores db s u
      → current_at db s a k ≡ ok previous
      → (if previous == x then pure tt else change_slot db a k x previous) u ≡ ok (tt, t)
      → Stored a k x s t
  unfolding change_slot
  stored a k x previous s u t shows was h = elim (Bool-cases (previous == x)) [
    | inl e ↦
        let same = pure-keeps tt tt u t (rw e at h) in
        record {
          values = λ b j.
              rw (← same)
                (shows.current b j ∙ unchanged s a k x b j (was ∙ ap ok ((==_iff previous x).0 e)));
          objects = λ b. rw (← same) (shows.objects b);
        }
    | inr e ↦
        let (u1, z, e1, h1) = bind-ok (modify (write_slot a k x)) _ u t tt (rw e at h) in
        let first = modify-ok db (write_slot a k x) u z e1 in
        let second = modify-ok db (push (storage_change a k previous)) z t h1 in
        let whole = ap (push (storage_change a k previous)) first ∙ second in
        record {
          values = λ b j. rw (← whole) (
              current-written u a k x previous b j
              ∙ ap (λ r. if a == b && k == j then ok x else r) (shows.current b j));
          objects = λ b. rw (← whole) (shows.objects b);
        }
  ]

  set_storage-Stored :
      (a k x : ℕ) (s t : IntraBlockState)
      → IsLive db s a
      → set_storage db a k x s ≡ ok (tt, t)
      → Stored a k x s t
  unfolding set_storage get_current_storage
  set_storage-Stored a k x s t live h =
      let (previous, u, e, h1) = bind-ok (get_current_storage db a k) _ s t tt h in
      let l = get_storage_lem db s a k false previous u e in
      stored a k x previous s u t l.reads.shows (l.answers live) h1

  -- For accounts that are there, a slot that is written is read back, and no other slot reads
  -- otherwise than before.
  pub set_storage-get_current_storage :
      (a k x b j : ℕ) (s t s' t' : IntraBlockState) (v w : ℕ)
      → IsLive db s a
      → IsLive db s b
      → get_current_storage db b j s ≡ ok (v, s')
      → set_storage db a k x s ≡ ok (tt, t)
      → get_current_storage db b j t ≡ ok (w, t')
      → w ≡ (if a == b && k == j then x else v)
  unfolding get_current_storage
  set_storage-get_current_storage a k x b j s t s' t' v w live (o, account, is, has) before write
        after =
      let st = set_storage-Stored a k x s t live write in
      let was = (get_storage_lem db s b j false v s' before).answers (o, account, is, has) in
      let now =
        (get_storage_lem db t b j false w t' after).answers (o, account, st.objects b ∙ is, has) in
      ok-injective (
        sym now
        ∙ st.values b j
        ∙ ap (λ r. if a == b && k == j then ok x else r) was
        ∙ ok-if (a == b && k == j) x v)
