-- ===== src/BTreeMap.antt =====
-- The standard library's `BTreeMap` and `BTreeSet` with keys that are numbers: the entries in the order
-- of an iteration, which is the order of the keys (`IsAscending`).
use akula.Prelude.{
  ℕ, ◌<◌, ◌≡◌, refl, Bool, true, false, ◌||◌, Option, none, some, List, [], ◌∷◌, ◌++◌, arith, ◌==◌,
  ltb, if◌then◌else◌,
}

abbrev pub BTreeMap {ℓ} : Type ℓ → Type ℓ
BTreeMap V = List (ℕ × V)

module _ {ℓ} {V : Type ℓ} where
  abbrev pub get : BTreeMap V → ℕ → Option V
  get [] k = none
  get ((j, v) ∷ m) k = if j == k then some v else get m k

  abbrev pub keys : BTreeMap V → List ℕ
  keys [] = []
  keys ((k, v) ∷ m) = k ∷ keys m

-- Every element is above `k`.
abbrev pub Above : ℕ → List ℕ → Type 0
Above k [] = Unit
Above k (j ∷ l) = (k < j) × Above k l

abbrev pub IsAscending : List ℕ → Type 0
IsAscending [] = Unit
IsAscending (k ∷ l) = Above k l × IsAscending l

abbrev pub mem : ℕ → List ℕ → Bool
mem k [] = false
mem k (j ∷ l) = j == k || mem k l

-- A set is the list of its elements in their order.
unfoldable pub insert : ℕ → List ℕ → List ℕ
insert k [] = k ∷ []
insert k (j ∷ l) =
    let rest = insert k l in if ltb k j then k ∷ j ∷ l else if j == k then j ∷ l else j ∷ rest

unfoldable pub collect : List ℕ → List ℕ
collect [] = []
collect (k ∷ l) = insert k (collect l)

unfoldable pub remove : ℕ → List ℕ → List ℕ
remove k [] = []
remove k (j ∷ l) = let rest = remove k l in if j == k then rest else j ∷ rest

pub mem-insert :
    (k : ℕ) (l : List ℕ) (j : ℕ) → mem j (insert k l) ≡ (if k == j then true else mem j l)
unfolding insert
mem-insert k [] j = ground arith
mem-insert k (i ∷ l) j = ground (arith, mem-insert k l j)

pub mem-collect : (l : List ℕ) (j : ℕ) → mem j (collect l) ≡ mem j l
unfolding collect
mem-collect [] j = refl
mem-collect (k ∷ l) j = ground (arith, mem-insert k (collect l) j, mem-collect l j)

pub mem-remove :
    (k : ℕ) (l : List ℕ) (j : ℕ) → mem j (remove k l) ≡ (if k == j then false else mem j l)
unfolding remove
mem-remove k [] j = ground arith
mem-remove k (i ∷ l) j = ground (arith, mem-remove k l j)

Above-insert : (i k : ℕ) (l : List ℕ) → i < k → Above i l → Above i (insert k l)
unfolding insert
Above-insert i k [] lt above = (lt, tt)
Above-insert i k (j ∷ l) lt (first, above) = ground (arith, Above-insert i k l lt above)

Above-trans : (i k : ℕ) (l : List ℕ) → i < k → Above k l → Above i l
Above-trans i k [] lt above = tt
Above-trans i k (j ∷ l) lt (first, above) = (omega arith, Above-trans i k l lt above)

Above-remove : (i k : ℕ) (l : List ℕ) → Above i l → Above i (remove k l)
unfolding remove
Above-remove i k [] above = tt
Above-remove i k (j ∷ l) (first, above) = ground (arith, Above-remove i k l above)

pub insert-IsAscending : (k : ℕ) (l : List ℕ) → IsAscending l → IsAscending (insert k l)
unfolding insert
insert-IsAscending k [] sorted = (tt, tt)
insert-IsAscending k (j ∷ l) (above, sorted) = ground (
  arith,
  λ (lt : j < k). Above-insert j k l lt above,
  insert-IsAscending k l sorted,
  λ (lt : k < j). Above-trans k j l lt above,
)

pub collect-IsAscending : (l : List ℕ) → IsAscending (collect l)
unfolding collect
collect-IsAscending [] = tt
collect-IsAscending (k ∷ l) = insert-IsAscending k (collect l) (collect-IsAscending l)

pub remove-IsAscending : (k : ℕ) (l : List ℕ) → IsAscending l → IsAscending (remove k l)
unfolding remove
remove-IsAscending k [] sorted = tt
remove-IsAscending k (j ∷ l) (above, sorted) =
    ground (arith, Above-remove j k l above, remove-IsAscending k l sorted)

pub mem-append : (k l : List ℕ) (j : ℕ) → mem j (k ++ l) ≡ (mem j k || mem j l)
mem-append [] l j = refl
mem-append (i ∷ k) l j = ground (arith, mem-append k l j)
