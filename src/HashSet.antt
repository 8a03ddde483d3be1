-- ===== src/HashSet.antt =====
-- The standard library's `HashSet` (and `BTreeSet`) of numbers.
use akula.Prelude.{
  ℕ, ◌≡◌, refl, Bool, true, false, ◌||◌, List, [], ◌∷◌, arith, ◌==◌, if◌then◌else◌, length,
}

pub record HashSet : Type 0 where
  pub elements : List ℕ

mem : ℕ → List ℕ → Bool
mem k [] = false
mem k (j ∷ l) = j == k || mem k l

without : ℕ → List ℕ → List ℕ
without k [] = []
without k (j ∷ l) = let rest = without k l in if j == k then rest else j ∷ rest

mem-without : (k j : ℕ) (l : List ℕ) → mem j (without k l) ≡ (if k == j then false else mem j l)
unfolding mem without
mem-without k j [] = ground arith
mem-without k j (i ∷ l) = ground (arith, mem-without k j l)

unfoldable pub empty : HashSet
empty = record { elements = [] }

unfoldable pub contains : HashSet → ℕ → Bool
unfolding mem
contains s k = mem k s.elements

-- `HashSet::insert` answers whether the element was new: a client asks `contains` first.
unfoldable pub insert : HashSet → ℕ → HashSet
unfolding without
insert s k = record { elements = k ∷ without k s.elements }

unfoldable pub remove : HashSet → ℕ → HashSet
unfolding without
remove s k = record { elements = without k s.elements }

unfoldable pub len : HashSet → ℕ
len s = length s.elements

pub contains-insert :
    (s : HashSet) (k j : ℕ) → contains (insert s k) j ≡ (if k == j then true else contains s j)
unfolding contains insert
contains-insert s k j = ground (arith, mem-without k j s.elements)

pub contains-remove :
    (s : HashSet) (k j : ℕ) → contains (remove s k) j ≡ (if k == j then false else contains s j)
unfolding contains remove
contains-remove s k j = mem-without k j s.elements

pub contains-empty : (j : ℕ) → contains empty j ≡ false
unfolding contains empty
contains-empty j = refl

pub ruleset set_laws = (contains-insert, contains-remove, contains-empty)
