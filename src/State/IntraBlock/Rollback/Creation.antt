-- ===== src/State/IntraBlock/Rollback/Creation.antt =====
-- `Undo` of what `create_contract` does to the incarnations and the storage. The two changes are
-- undone together: between them the storage that the database holds is out of reach.
use akula.Prelude.{
  ℕ, ◌<◌, ◌^◌, ◌≡◌, refl, ◌≢◌, ◌==◌, if◌then◌else◌, Option, none, some, List, [], ◌∷◌, arith,
  unwrap_or,
}
use akula.Prelude.Words.{add64, sub64}
use akula.Errors.{ok}
use akula.HashMap
use akula.HashMap.{HashMap, get-insert, get-remove}
use akula.State.Interface.{Reader}
use akula.State.Object.{Storage}
use akula.State.Delta.{
  Delta, incarnation, IntraBlockState, storage_entry, revert, revert_incarnation,
}
use akula.State.IntraBlock.{push}
use akula.State.IntraBlock.Contracts.{next_incarnation, wipe_storage, wipe_delta}
use akula.State.IntraBlock.Slots.{revert_last, pop_delta}
use akula.State.IntraBlock.Rollback.{Restores, Undo, Rewound, original_in, current_in, fallback_at}

-- The incarnation of an address, as `entry(address).or_default()` reads it.
abbrev pub incarnation_of : IntraBlockState → ℕ → ℕ
incarnation_of s a = unwrap_or (HashMap.get s.incarnations a) 0

-- No counter has run through all of its 2^64 values: an address that has an entry has a positive one.
pub record IsCounted (s : IntraBlockState) (a : ℕ) : Type 0 where
  pub positive : HashMap.get s.incarnations a ≢ some 0
  pub bounded : incarnation_of s a < 2 ^ 64

-- The incarnations that the `Incarnation` case leaves.
abbrev step_back : HashMap ℕ → ℕ → ℕ → HashMap ℕ
step_back m a n = if n == 0 then HashMap.remove m a else HashMap.insert m a n

-- The storage that the `StorageWipe` and `StorageCreate` cases leave.
abbrev unwipe : HashMap Storage → ℕ → Option Storage → HashMap Storage
unwipe m a none = HashMap.remove m a
unwipe m a (some storage) = HashMap.insert m a storage

revert-wipe :
    (a : ℕ) (o : Option Storage) (u : IntraBlockState)
    → revert (wipe_delta a o) u ≡ ok (record u { storage = unwipe u.storage a o })
unfolding revert
revert-wipe a none u = refl
revert-wipe a (some storage) u = refl

get-unwipe :
    (m : HashMap Storage) (a : ℕ) (o : Option Storage) (b : ℕ)
    → HashMap.get (unwipe m a o) b ≡ (if a == b then o else HashMap.get m b)
get-unwipe m a none b = get-remove m a b
get-unwipe m a (some storage) b = get-insert m a storage b

sub64-add64 : (n : ℕ) → n < 2 ^ 64 → sub64 (add64 n 1) 1 ≡ n
sub64-add64 n h = omega arith

get-step_back :
    (m : HashMap ℕ) (a n b : ℕ)
    → HashMap.get (step_back m a n) b
      ≡ (if a == b then (if n == 0 then none else some n) else HashMap.get m b)
get-step_back m a n b = ground (arith, get-remove m a b, get-insert m a n b)

-- The entry of an address that was counted is read off its incarnation.
entry_lem :
    (s : IntraBlockState) (a : ℕ)
    → IsCounted s a
    → (if incarnation_of s a == 0 then none else some (incarnation_of s a))
      ≡ HashMap.get s.incarnations a
entry_lem s a c = read (HashMap.get s.incarnations a) refl
  where
    read :
        (o : Option ℕ)
        → HashMap.get s.incarnations a ≡ o
        → (if unwrap_or o 0 == 0 then none else some (unwrap_or o 0)) ≡ o
    read none e = refl
    read (some n) e = ground (arith, c.positive)

revert-incarnation :
    (u : IntraBlockState) (a n : ℕ)
    → n < 2 ^ 64
    → HashMap.get u.incarnations a ≡ some (add64 n 1)
    → revert (incarnation a) u ≡ ok (record u { incarnations = step_back u.incarnations a n })
unfolding revert
revert-incarnation u a n h e = rw (e, revert_incarnation) (rw (sub64-add64 n h))

-- What `create_contract` does to the two maps.
abbrev pub created : ℕ → IntraBlockState → IntraBlockState
created a s = wipe_storage a (push (incarnation a) (next_incarnation a s))

module _ (db : Reader) where
  pub Undo-creation : (s : IntraBlockState) (a : ℕ) → IsCounted s a → Undo db s (created a s)
  unfolding revert_last
  Undo-creation s a c = record {
    deltas = wipe_delta a (HashMap.get s.storage a) ∷ incarnation a ∷ [];
    pushed = refl;
    fresh_logs = [];
    logged = refl;
    undone = back;
  }
    where
      n : ℕ
      n = incarnation_of s a

      last : List Delta → IntraBlockState → IntraBlockState
      last js u = record u {
        journal = js;
        storage = unwipe u.storage a (HashMap.get s.storage a);
        incarnations = step_back u.incarnations a n;
      }

      -- Once the storage is back.
      rest : List Delta → IntraBlockState → IntraBlockState
      rest js u = record u { journal = js; storage = unwipe u.storage a (HashMap.get s.storage a) }

      entry :
          (js : List Delta) (u : IntraBlockState)
          → Restores db (created a s) u
          → HashMap.get (rest js u).incarnations a ≡ some (add64 n 1)
      entry js u r = ground (arith, r.incarnations a, get-insert s.incarnations a (add64 n 1) a)

      counts :
          (js : List Delta) (u : IntraBlockState)
          → Restores db (created a s) u
          → (b : ℕ) → HashMap.get (last js u).incarnations b ≡ HashMap.get s.incarnations b
      counts js u r b = ground (
        arith,
        get-step_back u.incarnations a n b,
        get-insert s.incarnations a (add64 n 1) b,
        r.incarnations b,
        entry_lem s a c,
      )

      original_back :
          (js : List Delta) (u : IntraBlockState) (r : Restores db (created a s) u) (b k : ℕ)
          → original_in (storage_entry (last js u) b) k (fallback_at db (last js u) b k)
            ≡ original_in (storage_entry s b) k (fallback_at db s b k)
      original_back js u r b k = ground (
        arith,
        get-unwipe u.storage a (HashMap.get s.storage a) b,
        get-remove s.storage a b,
        get-insert s.incarnations a (add64 n 1) b,
        r.objects b,
        r.incarnations b,
        counts js u r b,
        r.original b k,
      )

      current_back :
          (js : List Delta) (u : IntraBlockState) (r : Restores db (created a s) u) (b k : ℕ)
          → current_in (storage_entry (last js u) b) k (fallback_at db (last js u) b k)
            ≡ current_in (storage_entry s b) k (fallback_at db s b k)
      current_back js u r b k = ground (
        arith,
        get-unwipe u.storage a (HashMap.get s.storage a) b,
        get-remove s.storage a b,
        get-insert s.incarnations a (add64 n 1) b,
        r.objects b,
        r.incarnations b,
        counts js u r b,
        r.current b k,
      )

      back :
          (js : List Delta) (u : IntraBlockState)
          → Restores db (created a s) u
          → u.journal ≡ wipe_delta a (HashMap.get s.storage a) ∷ incarnation a ∷ js
          → (v : IntraBlockState) × Rewound db 2 s u js v
      back js u r e = (
        last js u,
        record {
          runs =
              rw (e, pop_delta)
                (rw
                  (revert-wipe a (HashMap.get s.storage a)
                    (record u { journal = incarnation a ∷ js }))
                  (rw (revert-incarnation (rest js u) a n c.bounded (entry js u r))));
          restores = record {
            objects = r.objects;
            cached = r.cached;
            incarnations = counts js u r;
            original = original_back js u r;
            current = current_back js u r;
            self_destructs = r.self_destructs;
            touched = r.touched;
            addresses = r.addresses;
            keys = r.keys;
          };
          journal = refl;
          logs = refl;
        },
      )
