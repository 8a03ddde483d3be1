-- ===== src/State/IntraBlock/Rollback.antt =====
-- What reverting to a snapshot gives back. `Restores db s t` says that `t` shows whatever `s` shows;
-- `t` may have read and kept more of the database. `Undo db s t` says that the deltas which lie on
-- `t`'s journal above those of `s` lead from any state that shows what `t` shows to one that shows
-- what `s` shows. Both are preorders, and the modules below prove `Undo` of one operation after another.
pub mod Compose
pub mod Objects
pub mod Sets
pub mod Storages
pub mod Creation
pub mod Steps
pub mod Lookups
pub mod Reads
pub mod Operations
pub mod Writers
pub mod Frames
pub mod Snapshots
use akula.Prelude.{
  ℕ, zero, suc, ◌+◌, ◌≡◌, refl, sym, ap, ◌∙◌, ◌≢◌, ◌==◌, if◌then◌else◌, Bool, true, false, ◌||◌,
  Option, none, some, List, [], ◌∷◌, ◌++◌, arith, is_none, is_some, length, length-append,
}
use akula.Errors.{Result, ok, err, map_ok, ◌>>=◌}
use akula.HashMap
use akula.HashSet
use akula.State.Interface.{Reader}
use akula.State.Object.{Account, Object, CommittedValue, Storage}
use akula.State.Delta.{Delta, Log, IntraBlockState, storage_entry, accessed_entry, revert}
use akula.State.IntraBlock.{loaded, ripemd_address}
use akula.State.IntraBlock.Slots.{revert_last}
use mathlib.Core.List.{append_assoc}

-- What `read_account` answers, as `get_object` keeps it.
abbrev pub read_object : Option Account → Option Object
read_object none = none
read_object (some account) = some (loaded account)

-- The storage that the database holds is out of reach of a new account and of a new incarnation.
abbrev pub is_new : Option Object → Bool
is_new none = true
is_new (some obj) = is_none obj.initial

abbrev pub committed_or : Option CommittedValue → Result ℕ → Result ℕ
committed_or none r = r
committed_or (some v) r = ok v.original

abbrev pub slot_or : Option ℕ → Result ℕ → Result ℕ
slot_or none r = r
slot_or (some v) r = ok v

abbrev pub original_in : Storage → ℕ → Result ℕ → Result ℕ
original_in storage key r = committed_or (HashMap.get storage.committed key) r

abbrev pub current_in : Storage → ℕ → Result ℕ → Result ℕ
current_in storage key r = slot_or (HashMap.get storage.current key) (original_in storage key r)

module _ (db : Reader) where
  -- The object of an address, cached or not.
  abbrev pub object_from : ℕ → Option Object → Result (Option Object)
  object_from address (some obj) = ok (some obj)
  object_from address none = map_ok read_object (db.read_account address)

  abbrev pub object_at : IntraBlockState → ℕ → Result (Option Object)
  object_at s address = object_from address (HashMap.get s.objects address)

  unfoldable pub fallback : Result (Option Object) → Option ℕ → ℕ → ℕ → Result ℕ
  fallback obj incarnation address key = do
    o ← obj
    if is_new o || is_some incarnation then ok 0 else db.read_storage address key

  abbrev pub fallback_at : IntraBlockState → ℕ → ℕ → Result ℕ
  fallback_at s address key =
      fallback (object_at s address) (HashMap.get s.incarnations address) address key

  -- A slot at the start of the transaction, and now.
  abbrev pub original_at : IntraBlockState → ℕ → ℕ → Result ℕ
  original_at s address key = original_in (storage_entry s address) key (fallback_at s address key)

  abbrev pub current_at : IntraBlockState → ℕ → ℕ → Result ℕ
  current_at s address key = current_in (storage_entry s address) key (fallback_at s address key)

  pub record Restores (s t : IntraBlockState) : Type 0 where
    pub objects : (a : ℕ) → object_at t a ≡ object_at s a
    pub cached :
        (a : ℕ) (o : Object) → HashMap.get s.objects a ≡ some o → HashMap.get t.objects a ≡ some o
    pub incarnations : (a : ℕ) → HashMap.get t.incarnations a ≡ HashMap.get s.incarnations a
    pub original : (a k : ℕ) → original_at t a k ≡ original_at s a k
    pub current : (a k : ℕ) → current_at t a k ≡ current_at s a k
    pub self_destructs :
        (a : ℕ) → HashSet.contains t.self_destructs a ≡ HashSet.contains s.self_destructs a
    pub touched :
        (a : ℕ) → a ≢ ripemd_address → HashSet.contains t.touched a ≡ HashSet.contains s.touched a
    pub addresses :
        (a : ℕ) → HashSet.contains t.accessed_addresses a ≡ HashSet.contains s.accessed_addresses a
    pub keys :
        (a k : ℕ)
        → HashSet.contains (accessed_entry t a) k ≡ HashSet.contains (accessed_entry s a) k

  pub Restores-refl : (s : IntraBlockState) → Restores s s
  Restores-refl s = record {
    objects = λ a. refl;
    cached = λ a o h. h;
    incarnations = λ a. refl;
    original = λ a k. refl;
    current = λ a k. refl;
    self_destructs = λ a. refl;
    touched = λ a h. refl;
    addresses = λ a. refl;
    keys = λ a k. refl;
  }

  pub Restores-trans : {s t u : IntraBlockState} → Restores s t → Restores t u → Restores s u
  Restores-trans p q = record {
    objects = λ a. q.objects a ∙ p.objects a;
    cached = λ a o h. q.cached a o (p.cached a o h);
    incarnations = λ a. q.incarnations a ∙ p.incarnations a;
    original = λ a k. q.original a k ∙ p.original a k;
    current = λ a k. q.current a k ∙ p.current a k;
    self_destructs = λ a. q.self_destructs a ∙ p.self_destructs a;
    touched = λ a h. q.touched a h ∙ p.touched a h;
    addresses = λ a. q.addresses a ∙ p.addresses a;
    keys = λ a k. q.keys a k ∙ p.keys a k;
  }

  -- `v` is where `revert_last` leads from `u` and the journal `js` is what is left of it.
  pub record Rewound (n : ℕ) (s u : IntraBlockState) (js : List Delta) (v : IntraBlockState)
      : Type 0 where
    pub runs : revert_last n u ≡ ok v
    pub restores : Restores s v
    pub journal : v.journal ≡ js
    pub logs : v.logs ≡ u.logs

  pub record Undo (s t : IntraBlockState) : Type 0 where
    pub deltas : List Delta
    pub pushed : t.journal ≡ deltas ++ s.journal
    pub fresh_logs : List Log
    pub logged : t.logs ≡ fresh_logs ++ s.logs
    pub undone :
        (js : List Delta) (u : IntraBlockState)
        → Restores t u
        → u.journal ≡ deltas ++ js
        → (v : IntraBlockState) × Rewound (length deltas) s u js v
