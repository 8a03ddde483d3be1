-- ===== src/Trie/PrefixSet.antt =====
-- src/trie/prefix_set.rs: a `BTreeSet` of keys, which are lists of bytes in lexicographic order.
use akula.Prelude.{
  ◌≡◌, refl, ap, ◌∙◌, Bool, true, false, ◌||◌, List, [], ◌∷◌, arith, ◌==◌, if◌then◌else◌, inl, inr,
  Bool-cases,
}
use akula.Prelude.Keys.{Key, le_bytes, le_total, le_trans, le_antisymm}

-- `s.starts_with(prefix)`
unfoldable pub has_prefix : Key → Key → Bool
has_prefix s [] = true
has_prefix [] (b ∷ prefix) = false
has_prefix (a ∷ s) (b ∷ prefix) = let rest = has_prefix s prefix in if a == b then rest else false

abbrev pub PrefixSet : Type 0
PrefixSet = List Key

-- The first key that is not below the prefix decides.
unfoldable pub contains : PrefixSet → Key → Bool
unfolding le_bytes has_prefix
contains [] prefix = false
contains (s ∷ rest) prefix = if le_bytes prefix s then has_prefix s prefix else contains rest prefix

unfoldable pub insert : Key → PrefixSet → PrefixSet
unfolding le_bytes
insert key [] = key ∷ []
insert key (s ∷ rest) =
    let further = insert key rest in
    if le_bytes key s then if le_bytes s key then s ∷ rest else key ∷ s ∷ rest else s ∷ further

-- `PrefixSet::new` and an `insert` for each key.
unfoldable pub collect : List Key → PrefixSet
unfolding insert
collect [] = []
collect (key ∷ keys) = insert key (collect keys)

abbrev pub any_has_prefix : Key → List Key → Bool
any_has_prefix prefix [] = false
any_has_prefix prefix (s ∷ rest) = has_prefix s prefix || any_has_prefix prefix rest

prefix-le : (s prefix : Key) → has_prefix s prefix ≡ true → le_bytes prefix s ≡ true
unfolding le_bytes has_prefix
prefix-le s [] h = refl
prefix-le [] (b ∷ prefix) h = absurd (ground arith)
prefix-le (a ∷ s) (b ∷ prefix) h = ground (arith, prefix-le s prefix)

-- Between a prefix and a key that has it, every key has it.
prefix_between :
    (prefix s t : Key)
    → has_prefix t prefix ≡ true
    → le_bytes prefix s ≡ true
    → le_bytes s t ≡ true
    → has_prefix s prefix ≡ true
unfolding le_bytes has_prefix
prefix_between [] s t p h k = refl
prefix_between (b ∷ prefix) [] t p h k = absurd (ground arith)
prefix_between (b ∷ prefix) (a ∷ s) [] p h k = absurd (ground arith)
prefix_between (b ∷ prefix) (a ∷ s) (c ∷ t) p h k = ground (arith, prefix_between prefix s t)

abbrev Below : Key → PrefixSet → Type 0
Below s [] = Unit
Below s (t ∷ rest) = (le_bytes s t ≡ true) × Below s rest

abbrev IsAscending : PrefixSet → Type 0
IsAscending [] = Unit
IsAscending (s ∷ rest) = Below s rest × IsAscending rest

Below-trans : (s t : Key) (l : PrefixSet) → le_bytes s t ≡ true → Below t l → Below s l
Below-trans s t [] h below = tt
Below-trans s t (u ∷ l) h (k, below) = (le_trans s t u h k, Below-trans s t l h below)

Below-insert :
    (s key : Key) (l : PrefixSet) → le_bytes s key ≡ true → Below s l → Below s (insert key l)
unfolding insert
Below-insert s key [] h below = (h, tt)
Below-insert s key (t ∷ l) h (k, below) = ground (arith, Below-insert s key l h below)

insert-IsAscending : (key : Key) (l : PrefixSet) → IsAscending l → IsAscending (insert key l)
unfolding insert
insert-IsAscending key [] a = (tt, tt)
insert-IsAscending key (s ∷ l) (below, a) = elim (Bool-cases (le_bytes key s)) [
  | inl low ↦ rw low (ground (arith, Below-trans key s l low below))
  | inr high ↦
      rw high (Below-insert s key l (le_total key s high) below, insert-IsAscending key l a)
]

collect-IsAscending : (keys : List Key) → IsAscending (collect keys)
unfolding collect
collect-IsAscending [] = tt
collect-IsAscending (key ∷ keys) = insert-IsAscending key (collect keys) (collect-IsAscending keys)

any-insert :
    (prefix key : Key) (l : PrefixSet)
    → any_has_prefix prefix (insert key l) ≡ (has_prefix key prefix || any_has_prefix prefix l)
unfolding insert
any-insert prefix key [] = refl
any-insert prefix key (s ∷ l) = elim (Bool-cases (le_bytes key s)) [
  | inr high ↦ rw high (ground (arith, any-insert prefix key l))
  | inl low ↦ elim (Bool-cases (le_bytes s key)) [
    | inr less ↦ rw (low, less) refl
    | inl same ↦
        let e : has_prefix key prefix ≡ has_prefix s prefix =
          ap (λ (k : Key). has_prefix k prefix) (le_antisymm key s low same) in
        rw (low, same) (ground arith)
  ]
]

any-collect :
    (prefix : Key) (keys : List Key)
    → any_has_prefix prefix (collect keys) ≡ any_has_prefix prefix keys
unfolding collect
any-collect prefix [] = refl
any-collect prefix (key ∷ keys) =
    any-insert prefix key (collect keys)
    ∙ ap (◌||◌ (has_prefix key prefix)) (any-collect prefix keys)

first_decides :
    (prefix s : Key) (l : PrefixSet)
    → le_bytes prefix s ≡ true
    → Below s l
    → any_has_prefix prefix l ≡ true
    → has_prefix s prefix ≡ true
first_decides prefix s [] h below any = absurd (ground arith)
first_decides prefix s (t ∷ l) h (k, below) any = elim (Bool-cases (has_prefix t prefix)) [
  | inl here ↦ prefix_between prefix s t here h k
  | inr not_here ↦ first_decides prefix s l h below (ground arith)
]

contains_lem :
    (prefix : Key) (l : PrefixSet) → IsAscending l → contains l prefix ≡ any_has_prefix prefix l
unfolding contains
contains_lem prefix [] a = refl
contains_lem prefix (s ∷ l) (below, a) = elim (Bool-cases (le_bytes prefix s)) [
  | inr high ↦ rw high (ground (arith, prefix-le s prefix, contains_lem prefix l a))
  | inl low ↦ rw low (ground (arith, first_decides prefix s l low below))
]

-- A set of keys that were inserted in any order contains a prefix exactly if one of the keys begins
-- with it.
pub contains-collect :
    (keys : List Key) (prefix : Key) → contains (collect keys) prefix ≡ any_has_prefix prefix keys
contains-collect keys prefix =
    contains_lem prefix (collect keys) (collect-IsAscending keys) ∙ any-collect prefix keys
