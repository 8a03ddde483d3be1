-- ===== src/Etl/Merging.antt =====
-- The merge of src/etl/collector.rs takes the entries of its runs in order.
use akula.Prelude.{
  ℕ, zero, suc, ◌<◌, ◌≡◌, refl, sym, ap, ◌∙◌, ◌⊎◌, true, false, Option, none, some, List, [], ◌∷◌,
  ◌++◌, arith, length, Bool-cases, inl, inr, subst,
}
use mathlib.Core.List.{append_assoc}
use akula.Errors.{ok}
use akula.Etl.DataProvider.{Entry, DataProvider, Holds, Small, to_next-none, to_next-some}
use akula.Etl.Collector.{le_entry, insert, sort, Item, le_item, heap_push, next_of}
use akula.Etl.Sorting.{Low, IsSorted, entry_total, Low-trans, sort-middle, sort-cons, insert_comm}

-- The runs that the providers hold.
abbrev pub Runs : List DataProvider → List (List Entry) → Type 0
Runs [] [] = Unit
Runs [] (l ∷ lanes) = ⊥
Runs (p ∷ ps) [] = ⊥
Runs (p ∷ ps) (l ∷ lanes) = Holds p l × Runs ps lanes

abbrev pub flatten : List (List Entry) → List Entry
flatten [] = []
flatten (l ∷ lanes) = l ++ flatten lanes

abbrev pub AllSmall : List Entry → Type 0
AllSmall [] = Unit
AllSmall (e ∷ l) = Small e × AllSmall l

-- The entries of a run are in order, and so for all runs.
abbrev pub IsRun : List Entry → Type 0
IsRun l = IsSorted l × AllSmall l

abbrev pub AllRuns : List (List Entry) → Type 0
AllRuns [] = Unit
AllRuns (l ∷ lanes) = IsRun l × AllRuns lanes

abbrev pub entries : List Item → List Entry
entries [] = []
entries (x ∷ heap) = x.0 ∷ entries heap

-- The head of the heap is not above the others, and so on.
abbrev pub IsHeap : List Item → Type 0
IsHeap [] = Unit
IsHeap (x ∷ heap) = Low x.0 (entries heap) × IsHeap heap

abbrev pub Has : Item → List Item → Type 0
Has x [] = ⊥
Has x (y ∷ heap) = (x ≡ y) ⊎ Has x heap

-- A run that is not over has an item in the heap that is not above any of its entries.
abbrev pub Anchored : ℕ → List Item → List Entry → Type 0
Anchored id heap [] = Unit
Anchored id heap (f ∷ l) = (e : Entry) × Has (e, id) heap × Low e (f ∷ l)

abbrev pub AllAnchored : ℕ → List Item → List (List Entry) → Type 0
AllAnchored id heap [] = Unit
AllAnchored id heap (l ∷ lanes) = Anchored id heap l × AllAnchored (suc id) heap lanes

item-le : (x y : Item) → le_item x y ≡ true → le_entry x.0 y.0 ≡ true
unfolding le_item
item-le x y h = ground arith

item-gt : (x y : Item) → le_item x y ≡ false → le_entry y.0 x.0 ≡ true
unfolding le_item
item-gt x y h = ground (arith, entry_total x.0 y.0)

pub push-head : (x y : Item) (h : List Item) → le_item x y ≡ true → heap_push x (y ∷ h) ≡ x ∷ y ∷ h
unfolding heap_push
push-head x y h e = rw e refl

pub push-tail :
    (x y : Item) (h : List Item) → le_item x y ≡ false → heap_push x (y ∷ h) ≡ y ∷ heap_push x h
unfolding heap_push
push-tail x y h e = rw e refl

push-nil : (x : Item) → heap_push x [] ≡ x ∷ []
unfolding heap_push
push-nil x = refl

Low-push :
    (e : Entry) (x : Item) (h : List Item)
    → le_entry e x.0 ≡ true
    → Low e (entries h)
    → Low e (entries (heap_push x h))
Low-push e x [] le low = subst (λ (h : List Item). Low e (entries h)) (sym (push-nil x)) (le, tt)
Low-push e x (y ∷ h) le (k, low) = elim (Bool-cases (le_item x y)) [
  | inl xy ↦ subst (λ (h : List Item). Low e (entries h)) (sym (push-head x y h xy)) (le, (k, low))
  | inr xy ↦
      subst (λ (h : List Item). Low e (entries h)) (sym (push-tail x y h xy))
        (k, Low-push e x h le low)
]

pub IsHeap-push : (x : Item) (h : List Item) → IsHeap h → IsHeap (heap_push x h)
IsHeap-push x [] is = subst IsHeap (sym (push-nil x)) (tt, tt)
IsHeap-push x (y ∷ h) (low, is) = elim (Bool-cases (le_item x y)) [
  | inl xy ↦
      subst IsHeap (sym (push-head x y h xy))
        ((item-le x y xy, Low-trans x.0 y.0 (entries h) (item-le x y xy) low), (low, is))
  | inr xy ↦
      subst IsHeap (sym (push-tail x y h xy))
        (Low-push y.0 x h (item-gt x y xy) low, IsHeap-push x h is)
]

pub Has-push : (x y : Item) (h : List Item) → Has y h → Has y (heap_push x h)
Has-push x y [] has = absurd has
Has-push x y (z ∷ h) (inl e) = elim (Bool-cases (le_item x z)) [
  | inl xz ↦ subst (Has y) (sym (push-head x z h xz)) (inr (inl e))
  | inr xz ↦ subst (Has y) (sym (push-tail x z h xz)) (inl e)
]
Has-push x y (z ∷ h) (inr k) = elim (Bool-cases (le_item x z)) [
  | inl xz ↦ subst (Has y) (sym (push-head x z h xz)) (inr (inr k))
  | inr xz ↦ subst (Has y) (sym (push-tail x z h xz)) (inr (Has-push x y h k))
]

pub Has-pushed : (x : Item) (h : List Item) → Has x (heap_push x h)
Has-pushed x [] = subst (Has x) (sym (push-nil x)) (inl refl)
Has-pushed x (z ∷ h) = elim (Bool-cases (le_item x z)) [
  | inl xz ↦ subst (Has x) (sym (push-head x z h xz)) (inl refl)
  | inr xz ↦ subst (Has x) (sym (push-tail x z h xz)) (inr (Has-pushed x h))
]

pub sort-push :
    (x : Item) (h : List Item) (rest : List Entry)
    → sort (entries (heap_push x h) ++ rest) ≡ insert x.0 (sort (entries h ++ rest))
sort-push x [] rest =
    ap (λ (h : List Item). sort (entries h ++ rest)) (push-nil x) ∙ sort-cons x.0 rest
sort-push x (y ∷ h) rest = elim (Bool-cases (le_item x y)) [
  | inl xy ↦
      ap (λ (h : List Item). sort (entries h ++ rest)) (push-head x y h xy)
      ∙ sort-cons x.0 (y.0 ∷ (entries h ++ rest))
  | inr xy ↦
      ap (λ (h : List Item). sort (entries h ++ rest)) (push-tail x y h xy)
      ∙ sort-cons y.0 (entries (heap_push x h) ++ rest)
      ∙ ap (insert y.0) (sort-push x h rest)
      ∙ insert_comm y.0 x.0 (sort (entries h ++ rest))
      ∙ ap (insert x.0) (sym (sort-cons y.0 (entries h ++ rest)))
]

pub length-push : (x : Item) (h : List Item) → length (heap_push x h) ≡ suc (length h)
length-push x [] = ap length (push-nil x)
length-push x (y ∷ h) = elim (Bool-cases (le_item x y)) [
  | inl xy ↦ ap length (push-head x y h xy)
  | inr xy ↦ ap length (push-tail x y h xy) ∙ ap suc (length-push x h)
]

-- The run of an index, and the runs without its first entry.
abbrev pub lane_at : ℕ → List (List Entry) → Option (List Entry)
lane_at id [] = none
lane_at zero (l ∷ lanes) = some l
lane_at (suc id) (l ∷ lanes) = lane_at id lanes

abbrev pub rest_of : List Entry → List Entry
rest_of [] = []
rest_of (e ∷ l) = l

abbrev pub tail_at : ℕ → List (List Entry) → List (List Entry)
tail_at id [] = []
tail_at zero (l ∷ lanes) = rest_of l ∷ lanes
tail_at (suc id) (l ∷ lanes) = l ∷ tail_at id lanes

pub length-tail_at : (id : ℕ) (lanes : List (List Entry)) → length (tail_at id lanes) ≡ length lanes
length-tail_at id [] = refl
length-tail_at zero (l ∷ lanes) = refl
length-tail_at (suc id) (l ∷ lanes) = ap suc (length-tail_at id lanes)

pub lane_there :
    (id : ℕ) (lanes : List (List Entry))
    → id < length lanes
    → (l : List Entry) × (lane_at id lanes ≡ some l)
lane_there id [] h = absurd (omega arith)
lane_there zero (l ∷ lanes) h = (l, refl)
lane_there (suc id) (l ∷ lanes) h = lane_there id lanes (omega arith)

pub next_of-none :
    (id : ℕ) (ps : List DataProvider) (lanes : List (List Entry))
    → Runs ps lanes
    → lane_at id lanes ≡ some []
    → (qs : List DataProvider) × (next_of id ps ≡ ok (none, qs)) × Runs qs lanes
unfolding next_of
next_of-none id [] [] runs is = absurd (ground arith)
next_of-none id [] (l ∷ lanes) runs is = absurd runs
next_of-none id (p ∷ ps) [] runs is = absurd runs
next_of-none zero (p ∷ ps) (l ∷ lanes) (holds, runs) is =
    let over : Holds p [] = subst (Holds p) (ground arith) holds in
    (p ∷ ps, rw (to_next-none p over) refl, (holds, runs))
next_of-none (suc id) (p ∷ ps) (l ∷ lanes) (holds, runs) is =
    let (qs, next, left) = next_of-none id ps lanes runs is in (p ∷ qs, rw next refl, (holds, left))

pub next_of-some :
    (id : ℕ) (ps : List DataProvider) (lanes : List (List Entry)) (e : Entry) (l : List Entry)
    → Runs ps lanes
    → lane_at id lanes ≡ some (e ∷ l)
    → Small e
    → (qs : List DataProvider) × (next_of id ps ≡ ok (some e, qs)) × Runs qs (tail_at id lanes)
unfolding next_of
next_of-some id [] [] e l runs is small = absurd (ground arith)
next_of-some id [] (m ∷ lanes) e l runs is small = absurd runs
next_of-some id (p ∷ ps) [] e l runs is small = absurd runs
next_of-some zero (p ∷ ps) ([] ∷ lanes) e l (holds, runs) is small = absurd (ground arith)
next_of-some zero (p ∷ ps) ((f ∷ m) ∷ lanes) e l (holds, runs) is small =
    let first : f ≡ e = ground arith in
    let (q, next, left) = to_next-some p f m holds (subst Small (sym first) small) in
    (q ∷ ps, rw next (ap (λ (x : Entry). ok (some x, q ∷ ps)) first), (left, runs))
next_of-some (suc id) (p ∷ ps) (m ∷ lanes) e l (holds, runs) is small =
    let (qs, next, left) = next_of-some id ps lanes e l runs is small in
    (p ∷ qs, rw next refl, (holds, left))

pub sort-tail_at :
    (id : ℕ) (lanes : List (List Entry)) (e : Entry) (l xs : List Entry)
    → lane_at id lanes ≡ some (e ∷ l)
    → sort (xs ++ flatten lanes) ≡ insert e (sort (xs ++ flatten (tail_at id lanes)))
sort-tail_at id [] e l xs is = absurd (ground arith)
sort-tail_at zero ([] ∷ lanes) e l xs is = absurd (ground arith)
sort-tail_at zero ((f ∷ m) ∷ lanes) e l xs is =
    let first : f ≡ e = ground arith in
    sort-middle f xs (m ++ flatten lanes)
    ∙ ap (λ (x : Entry). insert x (sort (xs ++ (m ++ flatten lanes)))) first
sort-tail_at (suc id) (m ∷ lanes) e l xs is =
    ap sort (sym (append_assoc xs m (flatten lanes)))
    ∙ sort-tail_at id lanes e l (xs ++ m) is
    ∙ ap (λ (ys : List Entry). insert e (sort ys)) (append_assoc xs m (flatten (tail_at id lanes)))
