-- ===== src/Etl/Merge.antt =====
-- The merge of src/etl/collector.rs yields the entries of all runs in order.
use akula.Prelude.{
  ℕ, zero, suc, ◌+◌, ◌<◌, ◌≡◌, refl, sym, ap, ◌∙◌, none, some, List, [], ◌∷◌, ◌++◌, arith, length,
  subst,
}
use akula.Errors.{ok}
use akula.Etl.DataProvider.{Entry, DataProvider, Small}
use akula.Etl.Collector.{sort, Item, heap_push, next_of, yields, merge, merge_all}
use akula.Etl.Sorting.{Low, insert-Low, Low-sort, Low-append, sort-cons}
use akula.Etl.Merging.{
  Runs, flatten, AllRuns, entries, IsHeap, Anchored, AllAnchored, IsHeap-push, Has-push, Has-pushed,
  sort-push, length-push, lane_at, tail_at, length-tail_at, lane_there, next_of-none, next_of-some,
  sort-tail_at,
}
use akula.Etl.Anchors.{
  AllIds, AllIds-push, Keeps-pop, AllAnchored-tail_at, Low-flatten, flatten-nil, rests,
  AllRuns-rests, AllRuns-tail_at, IsRun-lane_at, length-flatten-tail_at,
}
use akula.Etl.Heads.{anchor_lem}

record Merging (heap : List Item) (ps : List DataProvider) (lanes : List (List Entry))
    : Type 0 where
  runs : Runs ps lanes
  sorted : AllRuns lanes
  ordered : IsHeap heap
  ids : AllIds (length lanes) heap
  anchored : AllAnchored 0 heap lanes

merge-none :
    (fuel : ℕ) (e : Entry) (id : ℕ) (heap : List Item) (ps qs : List DataProvider)
    → next_of id ps ≡ ok (none, qs)
    → merge (suc fuel) ((e, id) ∷ heap) ps ≡ yields e (merge fuel heap qs)
unfolding merge
merge-none fuel e id heap ps qs h = rw (h, merge) refl

merge-some :
    (fuel : ℕ) (e f : Entry) (id : ℕ) (heap : List Item) (ps qs : List DataProvider)
    → next_of id ps ≡ ok (some f, qs)
    → merge (suc fuel) ((e, id) ∷ heap) ps ≡ yields e (merge fuel (heap_push (f, id) heap) qs)
unfolding merge
merge-some fuel e f id heap ps qs h = rw (h, merge) refl

-- The first entry is the least of all.
sort-first :
    (e : Entry) (id : ℕ) (heap : List Item) (ps : List DataProvider) (lanes : List (List Entry))
    → Merging ((e, id) ∷ heap) ps lanes
    → sort (entries ((e, id) ∷ heap) ++ flatten lanes) ≡ e ∷ sort (entries heap ++ flatten lanes)
sort-first e id heap ps lanes m =
    let low : Low e (entries heap ++ flatten lanes) =
      Low-append e (entries heap) (flatten lanes) m.ordered.0
        (Low-flatten e id 0 heap lanes m.ordered.0 m.anchored) in
    sort-cons e (entries heap ++ flatten lanes)
    ∙ insert-Low e (sort (entries heap ++ flatten lanes))
        (Low-sort e (entries heap ++ flatten lanes) low)

tail_at-nil :
    (d : ℕ) (lanes : List (List Entry)) → lane_at d lanes ≡ some [] → tail_at d lanes ≡ lanes
tail_at-nil d [] is = refl
tail_at-nil zero ([] ∷ lanes) is = refl
tail_at-nil zero ((e ∷ l) ∷ lanes) is = absurd (ground arith)
tail_at-nil (suc d) (l ∷ lanes) is = ap (◌∷◌ l) (tail_at-nil d lanes is)

Merging-none :
    (e : Entry) (id : ℕ) (heap : List Item) (ps qs : List DataProvider) (lanes : List (List Entry))
    → Merging ((e, id) ∷ heap) ps lanes
    → lane_at id lanes ≡ some []
    → Runs qs lanes
    → Merging heap qs lanes
Merging-none e id heap ps qs lanes m is runs = record {
  runs = runs;
  sorted = m.sorted;
  ordered = m.ordered.1;
  ids = m.ids.1;
  anchored = subst (AllAnchored 0 heap) (tail_at-nil id lanes is) (
      AllAnchored-tail_at id id 0 ((e, id) ∷ heap) heap lanes [] (Keeps-pop e id heap) (omega arith)
        is tt m.anchored);
}

Merging-some :
    (e f : Entry) (l : List Entry) (id : ℕ) (heap : List Item) (ps qs : List DataProvider)
    (lanes : List (List Entry))
    → Merging ((e, id) ∷ heap) ps lanes
    → lane_at id lanes ≡ some (f ∷ l)
    → Runs qs (tail_at id lanes)
    → Merging (heap_push (f, id) heap) qs (tail_at id lanes)
Merging-some e f l id heap ps qs lanes m is runs = record {
  runs = runs;
  sorted = AllRuns-tail_at id lanes m.sorted;
  ordered = IsHeap-push (f, id) heap m.ordered.1;
  ids =
      subst (λ (n : ℕ). AllIds n (heap_push (f, id) heap)) (sym (length-tail_at id lanes))
        (AllIds-push (length lanes) (f, id) heap m.ids.0 m.ids.1);
  anchored =
      AllAnchored-tail_at id id 0 ((e, id) ∷ heap) (heap_push (f, id) heap) lanes (f ∷ l)
        (λ g k other has. Has-push (f, id) (g, k) heap (Keeps-pop e id heap g k other has))
        (omega arith) is (from l (IsRun-lane_at id lanes (f ∷ l) m.sorted is).0.0) m.anchored;
}
  where
    from : (l : List Entry) → Low f l → Anchored id (heap_push (f, id) heap) l
    from [] low = tt
    from (g ∷ l) low = (f, Has-pushed (f, id) heap, low)

-- The merge of a heap and runs is right with a given fuel.
abbrev Merges : ℕ → Type 0
Merges fuel =
    (heap : List Item) (ps : List DataProvider) (lanes : List (List Entry))
    → Merging heap ps lanes
    → length heap + length (flatten lanes) < fuel
    → merge fuel heap ps ≡ some (ok (sort (entries heap ++ flatten lanes)))

sort-refill :
    (f : Entry) (l : List Entry) (id : ℕ) (heap : List Item) (lanes : List (List Entry))
    → lane_at id lanes ≡ some (f ∷ l)
    → sort (entries (heap_push (f, id) heap) ++ flatten (tail_at id lanes))
      ≡ sort (entries heap ++ flatten lanes)
sort-refill f l id heap lanes is =
    sort-push (f, id) heap (flatten (tail_at id lanes))
    ∙ sym (sort-tail_at id lanes f l (entries heap) is)

Merges-step :
    (fuel : ℕ) (e : Entry) (id : ℕ) (heap : List Item) (ps : List DataProvider)
    (lanes : List (List Entry)) (l : List Entry)
    → Merges fuel
    → Merging ((e, id) ∷ heap) ps lanes
    → length heap + length (flatten lanes) < fuel
    → lane_at id lanes ≡ some l
    → merge (suc fuel) ((e, id) ∷ heap) ps ≡ some (ok (e ∷ sort (entries heap ++ flatten lanes)))
Merges-step fuel e id heap ps lanes [] merges m enough is =
    let (qs, next, runs) = next_of-none id ps lanes m.runs is in
    merge-none fuel e id heap ps qs next
    ∙ ap (yields e) (merges heap qs lanes (Merging-none e id heap ps qs lanes m is runs) enough)
Merges-step fuel e id heap ps lanes (f ∷ l) merges m enough is =
    let small : Small f = (IsRun-lane_at id lanes (f ∷ l) m.sorted is).1.0 in
    let (qs, next, runs) = next_of-some id ps lanes f l m.runs is small in
    merge-some fuel e f id heap ps qs next
    ∙ ap (yields e) (
        merges (heap_push (f, id) heap) qs (tail_at id lanes)
          (Merging-some e f l id heap ps qs lanes m is runs)
          (omega (arith, length-push (f, id) heap, length-flatten-tail_at id lanes f l is))
        ∙ ap (λ (l : List Entry). some (ok l)) (sort-refill f l id heap lanes is))

-- With fuel for each entry, the merge yields all entries in order.
merge_lem : (fuel : ℕ) → Merges fuel
unfolding merge sort
merge_lem zero heap ps lanes m enough = absurd (omega arith)
merge_lem (suc fuel) [] ps lanes m enough =
    ap (λ (l : List Entry). some (ok (sort l))) (sym (flatten-nil 0 lanes m.anchored))
merge_lem (suc fuel) ((e, id) ∷ heap) ps lanes m enough =
    let (l, is) = lane_there id lanes m.ids.0 in
    Merges-step fuel e id heap ps lanes l (merge_lem fuel) m (omega arith) is
    ∙ ap (λ (l : List Entry). some (ok l)) (sym (sort-first e id heap ps lanes m))

-- The merge of all runs, with more fuel than they have entries.
pub merge_all_lem :
    (fuel : ℕ) (ps : List DataProvider) (lanes : List (List Entry))
    → Runs ps lanes
    → AllRuns lanes
    → length (flatten lanes) < fuel
    → merge_all fuel ps ≡ some (ok (sort (flatten lanes)))
unfolding merge_all
merge_all_lem fuel ps lanes runs sorted enough =
    let r = anchor_lem 0 ps lanes runs sorted in
    let m : Merging r.heap r.left (rests lanes) = record {
      runs = r.runs;
      sorted = AllRuns-rests lanes sorted;
      ordered = r.ordered;
      ids = subst (λ (n : ℕ). AllIds n r.heap) (length-rests lanes) r.ids;
      anchored = r.anchored;
    } in
    rw (r.result, merge_all)
      (merge_lem fuel r.heap r.left (rests lanes) m (omega (arith, r.count))
        ∙ ap (λ (l : List Entry). some (ok l)) r.same)
  where
    length-rests : (lanes : List (List Entry)) → 0 + length lanes ≡ length (rests lanes)
    length-rests [] = omega arith
    length-rests (l ∷ lanes) = omega (arith, length-rests lanes)
