-- ===== src/Etl/Sorting.antt =====
-- The order of entries, and sorted lists of them.
use akula.Prelude.{
  ◌≡◌, refl, sym, ap, ◌∙◌, true, false, List, [], ◌∷◌, ◌++◌, arith, Bool-cases, inl, inr, subst,
}
use akula.Prelude.Keys.{le_refl, le_total, le_trans, le_antisymm}
use akula.Etl.DataProvider.{Entry}
use akula.Etl.Collector.{le_entry, insert, sort}

pub entry_refl : (a : Entry) → le_entry a a ≡ true
unfolding le_entry
entry_refl a = ground (arith, le_refl a.key, le_refl a.value)

pub entry_total : (a b : Entry) → le_entry a b ≡ false → le_entry b a ≡ true
unfolding le_entry
entry_total a b h =
    ground (arith, le_total a.key b.key, le_total b.key a.key, le_total a.value b.value)

pub entry_trans : (a b c : Entry) → le_entry a b ≡ true → le_entry b c ≡ true → le_entry a c ≡ true
unfolding le_entry
entry_trans a b c h k = ground (
  arith,
  le_trans a.key b.key c.key,
  le_trans b.key c.key a.key,
  le_trans c.key a.key b.key,
  le_trans a.value b.value c.value,
)

pub entry_antisymm : (a b : Entry) → le_entry a b ≡ true → le_entry b a ≡ true → a ≡ b
unfolding le_entry
entry_antisymm a b h k = ground (arith, le_antisymm a.key b.key, le_antisymm a.value b.value)

insert-head : (e f : Entry) (l : List Entry) → le_entry e f ≡ true → insert e (f ∷ l) ≡ e ∷ f ∷ l
unfolding insert
insert-head e f l h = rw h refl

insert-tail :
    (e f : Entry) (l : List Entry) → le_entry e f ≡ false → insert e (f ∷ l) ≡ f ∷ insert e l
unfolding insert
insert-tail e f l h = rw h refl

insert-nil : (e : Entry) → insert e [] ≡ e ∷ []
unfolding insert
insert-nil e = refl

-- Two entries can be put into any list in either order.
front_comm :
    (a b : Entry) (l : List Entry)
    → insert a l ≡ a ∷ l
    → insert b l ≡ b ∷ l
    → insert a (b ∷ l) ≡ insert b (a ∷ l)
front_comm a b l ha hb = elim (Bool-cases (le_entry a b)) [
  | inl ab ↦ elim (Bool-cases (le_entry b a)) [
    | inl ba ↦
        ap (λ (c : Entry). insert c (b ∷ l)) (entry_antisymm a b ab ba)
        ∙ ap (λ (c : Entry). insert b (c ∷ l)) (entry_antisymm b a ba ab)
    | inr ba ↦ insert-head a b l ab ∙ ap (◌∷◌ a) (sym hb) ∙ sym (insert-tail b a l ba)
  ]
  | inr ab ↦ insert-tail a b l ab ∙ ap (◌∷◌ b) ha ∙ sym (insert-head b a l (entry_total a b ab))
]

not_above : (a b f : Entry) → le_entry a f ≡ true → le_entry b f ≡ false → le_entry b a ≡ false
not_above a b f af bf = elim (Bool-cases (le_entry b a)) [
  | inr ba ↦ ba
  | inl ba ↦ absurd (both (sym (entry_trans b a f ba af) ∙ bf))
]
  where
    both : true ≡ false → ⊥
    both e = cc

-- One of the two goes in front of the list, the other further back.
mixed_comm :
    (a b f : Entry) (l : List Entry)
    → le_entry a f ≡ true
    → le_entry b f ≡ false
    → insert a (insert b (f ∷ l)) ≡ insert b (insert a (f ∷ l))
mixed_comm a b f l af bf =
    ap (insert a) (insert-tail b f l bf)
    ∙ insert-head a f (insert b l) af
    ∙ ap (◌∷◌ a) (sym (insert-tail b f l bf))
    ∙ sym (insert-tail b a (f ∷ l) (not_above a b f af bf))
    ∙ ap (insert b) (sym (insert-head a f l af))

pub insert_comm : (a b : Entry) (l : List Entry) → insert a (insert b l) ≡ insert b (insert a l)
insert_comm a b [] =
    ap (insert a) (insert-nil b)
    ∙ front_comm a b [] (insert-nil a) (insert-nil b)
    ∙ ap (insert b) (sym (insert-nil a))
insert_comm a b (f ∷ l) = elim (Bool-cases (le_entry a f)) [
  | inl af ↦ elim (Bool-cases (le_entry b f)) [
    | inl bf ↦
        ap (insert a) (insert-head b f l bf)
        ∙ front_comm a b (f ∷ l) (insert-head a f l af) (insert-head b f l bf)
        ∙ ap (insert b) (sym (insert-head a f l af))
    | inr bf ↦ mixed_comm a b f l af bf
  ]
  | inr af ↦ elim (Bool-cases (le_entry b f)) [
    | inl bf ↦ sym (mixed_comm b a f l bf af)
    | inr bf ↦
        ap (insert a) (insert-tail b f l bf)
        ∙ insert-tail a f (insert b l) af
        ∙ ap (◌∷◌ f) (insert_comm a b l)
        ∙ sym (insert-tail b f (insert a l) bf)
        ∙ ap (insert b) (sym (insert-tail a f l af))
  ]
]

pub sort-cons : (e : Entry) (l : List Entry) → sort (e ∷ l) ≡ insert e (sort l)
unfolding sort
sort-cons e l = refl

pub sort-middle :
    (e : Entry) (xs ys : List Entry) → sort (xs ++ e ∷ ys) ≡ insert e (sort (xs ++ ys))
unfolding sort
sort-middle e [] ys = refl
sort-middle e (x ∷ xs) ys = ap (insert x) (sort-middle e xs ys) ∙ insert_comm x e (sort (xs ++ ys))

-- An entry that is not above any entry of a list.
abbrev pub Low : Entry → List Entry → Type 0
Low e [] = Unit
Low e (f ∷ l) = (le_entry e f ≡ true) × Low e l

pub insert-Low : (e : Entry) (l : List Entry) → Low e l → insert e l ≡ e ∷ l
insert-Low e [] low = insert-nil e
insert-Low e (f ∷ l) (h, low) = insert-head e f l h

Low-insert : (e f : Entry) (l : List Entry) → le_entry e f ≡ true → Low e l → Low e (insert f l)
unfolding insert
Low-insert e f [] h low = (h, tt)
Low-insert e f (g ∷ l) h (k, low) = elim (Bool-cases (le_entry f g)) [
  | inl fg ↦ subst (Low e) (sym (insert-head f g l fg)) (h, (k, low))
  | inr fg ↦ subst (Low e) (sym (insert-tail f g l fg)) (k, Low-insert e f l h low)
]

pub Low-sort : (e : Entry) (l : List Entry) → Low e l → Low e (sort l)
unfolding sort
Low-sort e [] low = tt
Low-sort e (f ∷ l) (h, low) = Low-insert e f (sort l) h (Low-sort e l low)

pub Low-trans : (e f : Entry) (l : List Entry) → le_entry e f ≡ true → Low f l → Low e l
Low-trans e f [] h low = tt
Low-trans e f (g ∷ l) h (k, low) = (entry_trans e f g h k, Low-trans e f l h low)

pub Low-append : (e : Entry) (l r : List Entry) → Low e l → Low e r → Low e (l ++ r)
Low-append e [] r low low' = low'
Low-append e (f ∷ l) r (h, low) low' = (h, Low-append e l r low low')

abbrev pub IsSorted : List Entry → Type 0
IsSorted [] = Unit
IsSorted (e ∷ l) = Low e l × IsSorted l

insert-IsSorted : (e : Entry) (l : List Entry) → IsSorted l → IsSorted (insert e l)
insert-IsSorted e [] s = subst IsSorted (sym (insert-nil e)) (tt, tt)
insert-IsSorted e (f ∷ l) (low, s) = elim (Bool-cases (le_entry e f)) [
  | inl ef ↦ subst IsSorted (sym (insert-head e f l ef)) ((ef, Low-trans e f l ef low), (low, s))
  | inr ef ↦
      subst IsSorted (sym (insert-tail e f l ef))
        (Low-insert f e l (entry_total e f ef) low, insert-IsSorted e l s)
]

pub sort-IsSorted : (l : List Entry) → IsSorted (sort l)
unfolding sort
sort-IsSorted [] = tt
sort-IsSorted (e ∷ l) = insert-IsSorted e (sort l) (sort-IsSorted l)

-- Sorting again changes nothing, and a sorted part may be sorted first.
pub sort-append_sort : (xs ys : List Entry) → sort (xs ++ sort ys) ≡ sort (xs ++ ys)
unfolding sort
sort-append_sort [] ys = again (sort ys) (sort-IsSorted ys)
  where
    again : (l : List Entry) → IsSorted l → sort l ≡ l
    again [] s = refl
    again (e ∷ l) (low, s) = ap (insert e) (again l s) ∙ insert-Low e l low
sort-append_sort (x ∷ xs) ys = ap (insert x) (sort-append_sort xs ys)

-- Parts may be sorted in any order.
pub sort-swap : (xs ys zs : List Entry) → sort (xs ++ (ys ++ zs)) ≡ sort (ys ++ (xs ++ zs))
sort-swap [] ys zs = refl
sort-swap (x ∷ xs) ys zs =
    sort-cons x (xs ++ (ys ++ zs))
    ∙ ap (insert x) (sort-swap xs ys zs)
    ∙ sym (sort-middle x ys (xs ++ zs))

-- The rest of a list may be replaced by one with the same entries.
pub sort-append : (xs ys zs : List Entry) → sort ys ≡ sort zs → sort (xs ++ ys) ≡ sort (xs ++ zs)
sort-append xs ys zs e =
    sym (sort-append_sort xs ys)
    ∙ ap (λ (l : List Entry). sort (xs ++ l)) e
    ∙ sort-append_sort xs zs
