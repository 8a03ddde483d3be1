-- ===== src/Etl/Anchors.antt =====
-- The loop invariant of the merge in src/etl/collector.rs: each run that is not over has an item in the
-- heap.
use akula.Prelude.{
  ℕ, zero, suc, ◌+◌, ◌<◌, ◌≡◌, refl, sym, ap, ◌∙◌, true, some, List, [], ◌∷◌, arith, length,
  length-append, Bool-cases, inl, inr, subst,
}
use akula.Etl.DataProvider.{Entry}
use akula.Etl.Collector.{le_entry, Item, le_item, heap_push}
use akula.Etl.Sorting.{Low, entry_refl, Low-trans, Low-append}
use akula.Etl.Merging.{
  flatten, IsRun, AllRuns, entries, Has, Anchored, AllAnchored, push-head, push-tail, lane_at,
  rest_of, tail_at,
}

-- The items come from the first `n` runs.
abbrev pub AllIds : ℕ → List Item → Type 0
AllIds n [] = Unit
AllIds n (x ∷ heap) = (x.1 < n) × AllIds n heap

pub AllIds-push :
    (n : ℕ) (x : Item) (h : List Item) → x.1 < n → AllIds n h → AllIds n (heap_push x h)
unfolding heap_push
AllIds-push n x [] lt ids = (lt, tt)
AllIds-push n x (y ∷ h) lt (k, ids) =
    let rest = AllIds-push n x h lt ids in
    elim (Bool-cases (le_item x y)) [
      | inl xy ↦ subst (AllIds n) (sym (push-head x y h xy)) (lt, (k, ids))
      | inr xy ↦ subst (AllIds n) (sym (push-tail x y h xy)) (k, rest)
    ]

-- The second heap has the items of the first, except perhaps those of one run.
abbrev pub Keeps : ℕ → List Item → List Item → Type 0
Keeps id heap heap' = (e : Entry) (k : ℕ) → (k ≡ id → ⊥) → Has (e, k) heap → Has (e, k) heap'

pub Keeps-pop : (e : Entry) (id : ℕ) (heap : List Item) → Keeps id ((e, id) ∷ heap) heap
Keeps-pop e id heap f k other (inl same) = absurd (other (ap (λ (x : Item). x.1) same))
Keeps-pop e id heap f k other (inr has) = has

Anchored-Keeps :
    (id k : ℕ) (heap heap' : List Item) (l : List Entry)
    → Keeps id heap heap'
    → (k ≡ id → ⊥)
    → Anchored k heap l
    → Anchored k heap' l
Anchored-Keeps id k heap heap' [] keeps other a = tt
Anchored-Keeps id k heap heap' (f ∷ l) keeps other (e, has, low) = (e, keeps e k other has, low)

pub AllAnchored-Keeps :
    (id k : ℕ) (heap heap' : List Item) (lanes : List (List Entry))
    → Keeps id heap heap'
    → id < k
    → AllAnchored k heap lanes
    → AllAnchored k heap' lanes
AllAnchored-Keeps id k heap heap' [] keeps lt a = tt
AllAnchored-Keeps id k heap heap' (l ∷ lanes) keeps lt (a, all) = (
  Anchored-Keeps id k heap heap' l keeps (λ e. omega (arith, e)) a,
  AllAnchored-Keeps id (suc k) heap heap' lanes keeps (omega arith) all,
)

-- The step of the loop: the item of a run is taken, and one for what is left of the run is put back.
pub AllAnchored-tail_at :
    (d id k : ℕ) (heap heap' : List Item) (lanes : List (List Entry)) (l : List Entry)
    → Keeps id heap heap'
    → k + d ≡ id
    → lane_at d lanes ≡ some l
    → Anchored id heap' (rest_of l)
    → AllAnchored k heap lanes
    → AllAnchored k heap' (tail_at d lanes)
AllAnchored-tail_at d id k heap heap' [] l keeps at is new all = tt
AllAnchored-tail_at zero id k heap heap' (m ∷ lanes) l keeps at is new (a, all) =
    let here : id ≡ k = omega (arith, at) in
    let same : l ≡ m = ground arith in
    (
      subst (λ (j : ℕ). Anchored j heap' (rest_of m)) here
          (subst (λ (m : List Entry). Anchored id heap' (rest_of m)) same new),
      AllAnchored-Keeps id (suc k) heap heap' lanes keeps (omega (arith, at)) all,
    )
AllAnchored-tail_at (suc d) id k heap heap' (m ∷ lanes) l keeps at is new (a, all) = (
  Anchored-Keeps id k heap heap' m keeps (λ e. omega (arith, at, e)) a,
  AllAnchored-tail_at d id (suc k) heap heap' lanes l keeps (omega (arith, at)) is new all,
)

-- The first item of the heap is not above any entry that is left.
Low-Anchored :
    (e : Entry) (id k : ℕ) (heap : List Item) (l : List Entry)
    → Low e (entries heap)
    → Anchored k ((e, id) ∷ heap) l
    → Low e l
Low-Anchored e id k heap [] low a = tt
Low-Anchored e id k heap (f ∷ l) low (g, has, under) =
    Low-trans e g (f ∷ l) (least ((e, id) ∷ heap) (entry_refl e, low) has) under
  where
    least : (h : List Item) → Low e (entries h) → Has (g, k) h → le_entry e g ≡ true
    least [] low has = absurd has
    least (x ∷ h) (le, low) (inl same) = ap (λ (y : Item). le_entry e y.0) same ∙ le
    least (x ∷ h) (le, low) (inr has) = least h low has

pub Low-flatten :
    (e : Entry) (id k : ℕ) (heap : List Item) (lanes : List (List Entry))
    → Low e (entries heap)
    → AllAnchored k ((e, id) ∷ heap) lanes
    → Low e (flatten lanes)
Low-flatten e id k heap [] low all = tt
Low-flatten e id k heap (l ∷ lanes) low (a, all) =
    Low-append e l (flatten lanes) (Low-Anchored e id k heap l low a)
      (Low-flatten e id (suc k) heap lanes low all)

-- When the heap is empty, all runs are over.
pub flatten-nil : (k : ℕ) (lanes : List (List Entry)) → AllAnchored k [] lanes → flatten lanes ≡ []
flatten-nil k [] all = refl
flatten-nil k ([] ∷ lanes) (a, all) = flatten-nil (suc k) lanes all
flatten-nil k ((f ∷ l) ∷ lanes) ((e, has, low), all) = absurd has

abbrev pub rests : List (List Entry) → List (List Entry)
rests [] = []
rests (l ∷ lanes) = rest_of l ∷ rests lanes

pub AllRuns-rests : (lanes : List (List Entry)) → AllRuns lanes → AllRuns (rests lanes)
AllRuns-rests [] runs = tt
AllRuns-rests ([] ∷ lanes) (run, runs) = (run, AllRuns-rests lanes runs)
AllRuns-rests ((e ∷ l) ∷ lanes) (((low, sorted), (small, smalls)), runs) =
    ((sorted, smalls), AllRuns-rests lanes runs)

pub AllRuns-tail_at :
    (d : ℕ) (lanes : List (List Entry)) → AllRuns lanes → AllRuns (tail_at d lanes)
AllRuns-tail_at d [] runs = tt
AllRuns-tail_at zero ([] ∷ lanes) runs = runs
AllRuns-tail_at zero ((e ∷ l) ∷ lanes) (((low, sorted), (small, smalls)), runs) =
    ((sorted, smalls), runs)
AllRuns-tail_at (suc d) (l ∷ lanes) (run, runs) = (run, AllRuns-tail_at d lanes runs)

pub IsRun-lane_at :
    (d : ℕ) (lanes : List (List Entry)) (l : List Entry)
    → AllRuns lanes
    → lane_at d lanes ≡ some l
    → IsRun l
IsRun-lane_at d [] l runs is = absurd (ground arith)
IsRun-lane_at zero (m ∷ lanes) l (run, runs) is =
    let same : m ≡ l = ground arith in subst IsRun same run
IsRun-lane_at (suc d) (m ∷ lanes) l (run, runs) is = IsRun-lane_at d lanes l runs is

pub length-flatten-tail_at :
    (d : ℕ) (lanes : List (List Entry)) (e : Entry) (l : List Entry)
    → lane_at d lanes ≡ some (e ∷ l)
    → length (flatten lanes) ≡ suc (length (flatten (tail_at d lanes)))
length-flatten-tail_at d [] e l is = absurd (ground arith)
length-flatten-tail_at zero ([] ∷ lanes) e l is = absurd (ground arith)
length-flatten-tail_at zero ((f ∷ m) ∷ lanes) e l is = refl
length-flatten-tail_at (suc d) (m ∷ lanes) e l is = omega (
  arith,
  length-append m (flatten lanes),
  length-append m (flatten (tail_at d lanes)),
  length-flatten-tail_at d lanes e l is,
)
