-- ===== src/HashMap.antt =====
-- The standard library's `HashMap` (and `BTreeMap`) with keys that are numbers: addresses, hashes and
-- 256-bit words are the numbers that their bytes stand for. Clients have the laws below.
use akula.Prelude.{
  ℕ, ◌≡◌, refl, Option, none, some, List, [], ◌∷◌, arith, ◌==◌, if◌then◌else◌, Bool-cases, inl, inr,
}

-- The order of the entries is an order in which an iteration may meet them.
pub record HashMap {ℓ} (V : Type ℓ) : Type ℓ where
  pub entries : List (ℕ × V)

module _ {ℓ} {V : Type ℓ} where
  find : List (ℕ × V) → ℕ → Option V
  find [] key = none
  find ((other, value) ∷ rest) key = if other == key then some value else find rest key

  erase : List (ℕ × V) → ℕ → List (ℕ × V)
  erase [] key = []
  erase ((other, value) ∷ rest) key =
      let kept = erase rest key in if other == key then kept else (other, value) ∷ kept

  find-erase :
      (m : List (ℕ × V)) (gone key : ℕ)
      → find (erase m gone) key ≡ (if gone == key then none else find m key)
  unfolding find erase
  find-erase [] gone key = ground arith
  find-erase ((other, value) ∷ rest) gone key = ground (arith, find-erase rest gone key)

  unfoldable pub empty : HashMap V
  empty = record { entries = [] }

  unfoldable pub get : HashMap V → ℕ → Option V
  unfolding find
  get m k = find m.entries k

  unfoldable pub insert : HashMap V → ℕ → V → HashMap V
  unfolding erase
  insert m k v = record { entries = (k, v) ∷ erase m.entries k }

  unfoldable pub remove : HashMap V → ℕ → HashMap V
  unfolding erase
  remove m k = record { entries = erase m.entries k }

  pub get-insert :
      (m : HashMap V) (k : ℕ) (v : V) (j : ℕ)
      → get (insert m k v) j ≡ (if k == j then some v else get m j)
  unfolding get insert
  get-insert m k v j = ground (arith, find-erase m.entries k j)

  pub get-remove :
      (m : HashMap V) (k j : ℕ) → get (remove m k) j ≡ (if k == j then none else get m j)
  unfolding get remove
  get-remove m k j = find-erase m.entries k j

  -- Every key has one entry.
  abbrev pub Distinct : List (ℕ × V) → Type ℓ
  Distinct [] = Unit
  Distinct ((key, value) ∷ rest) = (get (record { entries = rest }) key ≡ none) × Distinct rest

  erase-Distinct : (m : List (ℕ × V)) (gone : ℕ) → Distinct m → Distinct (erase m gone)
  unfolding erase get
  erase-Distinct [] gone h = tt
  erase-Distinct ((key, value) ∷ rest) gone (new, h) =
      let kept = erase-Distinct rest gone h in
      elim (Bool-cases (key == gone)) [
        | inl e ↦ rw e kept
        | inr e ↦ rw e (ground (arith, find-erase rest gone key), kept)
      ]

  pub insert-Distinct :
      (m : HashMap V) (k : ℕ) (v : V) → Distinct m.entries → Distinct (insert m k v).entries
  unfolding insert get
  insert-Distinct m k v h = (ground (arith, find-erase m.entries k k), erase-Distinct m.entries k h)

pub empty-Distinct {ℓ} : (V : Type ℓ) → Distinct (empty {V = V}).entries
unfolding empty
empty-Distinct V = tt

-- A lookup meets the entries in the order of an iteration.
pub get-entries {ℓ} :
    {V : Type ℓ} (other : ℕ) (value : V) (rest : List (ℕ × V)) (key : ℕ)
    → get (record { entries = (other, value) ∷ rest }) key
      ≡ (if other == key then some value else get (record { entries = rest }) key)
unfolding get
get-entries other value rest key = refl

pub get-none {ℓ} : {V : Type ℓ} (key : ℕ) → get {V = V} (record { entries = [] }) key ≡ none
unfolding get
get-none key = refl

pub get-empty {ℓ} : {V : Type ℓ} (k : ℕ) → get (empty {V = V}) k ≡ none
unfolding get empty
get-empty k = refl

pub ruleset map_laws = (get-insert, get-remove, get-empty)
