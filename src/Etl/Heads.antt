-- ===== src/Etl/Heads.antt =====
-- src/etl/collector.rs: the first entries of the runs are put into the heap.
use akula.Prelude.{
  ℕ, suc, ◌+◌, ◌≡◌, refl, sym, ap, ◌∙◌, none, some, List, [], ◌∷◌, ◌++◌, arith, length,
  length-append, subst,
}
use akula.Errors.{ok}
use akula.Etl.DataProvider.{Entry, DataProvider, to_next, to_next-none, to_next-some}
use akula.Etl.Collector.{insert, sort, Item, heap_push, anchor}
use akula.Etl.Sorting.{Low, sort-cons, sort-swap, sort-append}
use akula.Etl.Merging.{
  Runs, flatten, AllRuns, entries, IsHeap, Anchored, AllAnchored, IsHeap-push, Has-push, Has-pushed,
  sort-push, length-push,
}
use akula.Etl.Anchors.{AllIds, AllIds-push, rests}

-- The heap after the first entries of the runs, from one of them on, are in it.
pub record Anchoring (k : ℕ) (ps : List DataProvider) (lanes : List (List Entry)) : Type 0 where
  pub heap : List Item
  pub left : List DataProvider
  pub result : anchor k ps ≡ ok (heap, left)
  pub runs : Runs left (rests lanes)
  pub ordered : IsHeap heap
  pub ids : AllIds (k + length lanes) heap
  pub anchored : AllAnchored k heap (rests lanes)
  pub same : sort (entries heap ++ flatten (rests lanes)) ≡ sort (flatten lanes)
  pub count : length heap + length (flatten (rests lanes)) ≡ length (flatten lanes)

anchor-none :
    (k : ℕ) (p q : DataProvider) (ps qs : List DataProvider) (heap : List Item)
    → to_next p ≡ ok (none, q)
    → anchor (suc k) ps ≡ ok (heap, qs)
    → anchor k (p ∷ ps) ≡ ok (heap, q ∷ qs)
unfolding anchor
anchor-none k p q ps qs heap h r = rw (h, anchor, r) refl

anchor-some :
    (k : ℕ) (p q : DataProvider) (ps qs : List DataProvider) (heap : List Item) (e : Entry)
    → to_next p ≡ ok (some e, q)
    → anchor (suc k) ps ≡ ok (heap, qs)
    → anchor k (p ∷ ps) ≡ ok (heap_push (e, k) heap, q ∷ qs)
unfolding anchor
anchor-some k p q ps qs heap e h r = rw (h, anchor, r) refl

AllAnchored-push :
    (k : ℕ) (x : Item) (heap : List Item) (lanes : List (List Entry))
    → AllAnchored k heap lanes
    → AllAnchored k (heap_push x heap) lanes
AllAnchored-push k x heap [] all = tt
AllAnchored-push k x heap ([] ∷ lanes) (a, all) = (tt, AllAnchored-push (suc k) x heap lanes all)
AllAnchored-push k x heap ((f ∷ l) ∷ lanes) ((e, has, low), all) =
    ((e, Has-push x (e, k) heap has, low), AllAnchored-push (suc k) x heap lanes all)

sort-anchor :
    (e : Entry) (k : ℕ) (l : List Entry) (heap : List Item) (lanes : List (List Entry))
    → sort (entries heap ++ flatten (rests lanes)) ≡ sort (flatten lanes)
    → sort (entries (heap_push (e, k) heap) ++ (l ++ flatten (rests lanes)))
      ≡ sort (e ∷ (l ++ flatten lanes))
sort-anchor e k l heap lanes h =
    sort-push (e, k) heap (l ++ flatten (rests lanes))
    ∙ ap (insert e) (
        sort-swap (entries heap) l (flatten (rests lanes))
        ∙ sort-append l (entries heap ++ flatten (rests lanes)) (flatten lanes) h)
    ∙ sym (sort-cons e (l ++ flatten lanes))

pub anchor_lem :
    (k : ℕ) (ps : List DataProvider) (lanes : List (List Entry))
    → Runs ps lanes
    → AllRuns lanes
    → Anchoring k ps lanes
unfolding anchor
anchor_lem k [] [] runs sorted = record {
  heap = [];
  left = [];
  result = refl;
  runs = tt;
  ordered = tt;
  ids = tt;
  anchored = tt;
  same = refl;
  count = omega arith;
}
anchor_lem k [] (l ∷ lanes) runs sorted = absurd runs
anchor_lem k (p ∷ ps) [] runs sorted = absurd runs
anchor_lem k (p ∷ ps) ([] ∷ lanes) (holds, runs) (run, sorted) =
    let r = anchor_lem (suc k) ps lanes runs sorted in
    record {
      heap = r.heap;
      left = p ∷ r.left;
      result = anchor-none k p p ps r.left r.heap (to_next-none p holds) r.result;
      runs = (holds, r.runs);
      ordered = r.ordered;
      ids = subst (λ (n : ℕ). AllIds n r.heap) (omega arith) r.ids;
      anchored = (tt, r.anchored);
      same = r.same;
      count = r.count;
    }
anchor_lem k (p ∷ ps) ((e ∷ l) ∷ lanes) (holds, runs) (((low, _), (small, _)), sorted) =
    let r = anchor_lem (suc k) ps lanes runs sorted in
    let (q, next, held) = to_next-some p e l holds small in
    record {
      heap = heap_push (e, k) r.heap;
      left = q ∷ r.left;
      result = anchor-some k p q ps r.left r.heap e next r.result;
      runs = (held, r.runs);
      ordered = IsHeap-push (e, k) r.heap r.ordered;
      ids =
          AllIds-push (k + suc (length lanes)) (e, k) r.heap (omega arith)
            (subst (λ (n : ℕ). AllIds n r.heap) (omega arith) r.ids);
      anchored =
          (from l low r.heap, AllAnchored-push (suc k) (e, k) r.heap (rests lanes) r.anchored);
      same = sort-anchor e k l r.heap lanes r.same;
      count = omega (
        arith,
        length-push (e, k) r.heap,
        length-append l (flatten lanes),
        length-append l (flatten (rests lanes)),
        r.count,
      );
    }
  where
    from : (l : List Entry) → Low e l → (h : List Item) → Anchored k (heap_push (e, k) h) l
    from [] low h = tt
    from (g ∷ l) low h = (e, Has-pushed (e, k) h, low)
