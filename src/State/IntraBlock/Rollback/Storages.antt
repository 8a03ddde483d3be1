-- ===== src/State/IntraBlock/Rollback/Storages.antt =====
-- `Undo` of the changes to the storage of accounts, and of the two maps that a new contract resets.
use akula.Prelude.{ℕ, ◌≡◌, refl, ◌==◌, if◌then◌else◌, none, arith, unwrap_or}
use akula.Errors.{Result, ok}
use akula.HashMap
use akula.HashMap.{HashMap, get-insert, get-remove}
use akula.State.Interface.{Reader}
use akula.State.Object.{Storage, default_storage}
use akula.State.Delta.{Delta, storage_change, IntraBlockState, storage_entry, revert}
use akula.State.IntraBlock.{push}
use akula.State.IntraBlock.Slots.{put_storage, commit_value, write_slot}
use akula.State.IntraBlock.Rollback.{
  Restores, Restores-refl, Undo, fallback_at, original_in, current_in, original_at, current_at,
}
use akula.State.IntraBlock.Rollback.Compose.{Undo-one}

module _ (db : Reader) where
  -- The storage of an address in a map of such.
  abbrev storage_in : HashMap Storage → ℕ → Storage
  storage_in m a = unwrap_or (HashMap.get m a) default_storage

  storage-Restores :
      {s : IntraBlockState} (m : HashMap Storage)
      → ((a k : ℕ) → original_in (storage_in m a) k (fallback_at db s a k) ≡ original_at db s a k)
      → ((a k : ℕ) → current_in (storage_in m a) k (fallback_at db s a k) ≡ current_at db s a k)
      → Restores db s (record s { storage = m })
  storage-Restores {s} m e f = record {
    objects = r.objects;
    cached = r.cached;
    incarnations = r.incarnations;
    original = e;
    current = f;
    self_destructs = r.self_destructs;
    touched = r.touched;
    addresses = r.addresses;
    keys = r.keys;
  }
    where
      r : Restores db s s
      r = Restores-refl db s

  unstore :
      {s u : IntraBlockState} (d : Delta) (m m' : HashMap Storage)
      → Restores db (push d (record s { storage = m })) u
      → ((a k : ℕ) → original_in (storage_in m' a) k (fallback_at db u a k) ≡ original_at db s a k)
      → ((a k : ℕ) → current_in (storage_in m' a) k (fallback_at db u a k) ≡ current_at db s a k)
      → Restores db s (record u { storage = m' })
  unstore d m m' r e f = record {
    objects = r.objects;
    cached = r.cached;
    incarnations = r.incarnations;
    original = e;
    current = f;
    self_destructs = r.self_destructs;
    touched = r.touched;
    addresses = r.addresses;
    keys = r.keys;
  }

  original-insert :
      (m : HashMap Storage) (a : ℕ) (st : Storage) (b k : ℕ) (r : Result ℕ)
      → original_in (storage_in (HashMap.insert m a st) b) k r
        ≡ (if a == b then original_in st k r else original_in (storage_in m b) k r)
  original-insert m a st b k r = ground (arith, get-insert m a st b)

  current-insert :
      (m : HashMap Storage) (a : ℕ) (st : Storage) (b k : ℕ) (r : Result ℕ)
      → current_in (storage_in (HashMap.insert m a st) b) k r
        ≡ (if a == b then current_in st k r else current_in (storage_in m b) k r)
  current-insert m a st b k r = ground (arith, get-insert m a st b)

  -- `entry(address).or_default()` shows nothing new.
  pub entry-Restores :
      (s : IntraBlockState) (a : ℕ) → Restores db s (put_storage a (storage_entry s a) s)
  entry-Restores s a =
      storage-Restores (HashMap.insert s.storage a (storage_entry s a))
        (λ b k.
          ground
            (arith, original-insert s.storage a (storage_entry s a) b k (fallback_at db s b k)))
        (λ b k.
          ground (arith, current-insert s.storage a (storage_entry s a) b k (fallback_at db s b k)))

  -- Nor does a slot that is read from the database and kept.
  pub commit-Restores :
      (s : IntraBlockState) (a k val : ℕ)
      → HashMap.get (storage_entry s a).committed k ≡ none
      → fallback_at db s a k ≡ ok val
      → Restores db s (commit_value a k val s)
  commit-Restores s a k val absent read =
      storage-Restores (HashMap.insert s.storage a st)
        (λ b j. rw (original-insert s.storage a st b j (fallback_at db s b j)) (original_same b j))
        (λ b j. rw (current-insert s.storage a st b j (fallback_at db s b j)) (current_same b j))
    where
      st : Storage
      st = record (storage_entry s a) {
        committed =
            HashMap.insert (storage_entry s a).committed k
              (record { initial = val; original = val });
      }

      original_same :
          (b j : ℕ)
          → (if a == b
              then original_in st j (fallback_at db s b j)
              else original_in (storage_in s.storage b) j (fallback_at db s b j))
            ≡ original_at db s b j
      original_same b j = ground (
        arith,
        get-insert (storage_entry s a).committed k (record { initial = val; original = val }) j,
      )

      current_same :
          (b j : ℕ)
          → (if a == b
              then current_in st j (fallback_at db s b j)
              else current_in (storage_in s.storage b) j (fallback_at db s b j))
            ≡ current_at db s b j
      current_same b j = ground (
        arith,
        get-insert (storage_entry s a).committed k (record { initial = val; original = val }) j,
      )

  pub Undo-change :
      (s : IntraBlockState) (a k value previous : ℕ)
      → current_at db s a k ≡ ok previous
      → Undo db s (push (storage_change a k previous) (write_slot a k value s))
  unfolding revert
  Undo-change s a k value previous now = Undo-one db (storage_change a k previous) refl refl λ u r.
      (
        record u { storage = HashMap.insert u.storage a (old u) },
        refl,
        unstore (storage_change a k previous) (HashMap.insert s.storage a new)
            (HashMap.insert u.storage a (old u)) r
            (λ b j. ground (
              arith,
              original-insert u.storage a (old u) b j (fallback_at db u b j),
              original-insert s.storage a new b j (fallback_at db s b j),
              r.original b j,
            ))
            (λ b j. ground (
              arith,
              current-insert u.storage a (old u) b j (fallback_at db u b j),
              current-insert s.storage a new b j (fallback_at db s b j),
              get-insert (storage_entry u a).current k previous j,
              get-insert (storage_entry s a).current k value j,
              r.current b j,
            )),
        refl,
        refl,
      )
    where
      new : Storage
      new = record (storage_entry s a) {
        current = HashMap.insert (storage_entry s a).current k value;
      }

      old : IntraBlockState → Storage
      old u = record (storage_entry u a) {
        current = HashMap.insert (storage_entry u a).current k previous;
      }
