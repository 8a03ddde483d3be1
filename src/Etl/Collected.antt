-- ===== src/Etl/Collected.antt =====
-- src/etl/collector.rs: what is pushed comes back in order.
use akula.Prelude.{
  ℕ, suc, ◌+◌, ◌^◌, ◌<◌, ◌≤◌, ◌≡◌, refl, sym, ap, ◌∙◌, Bool, Option, some, List, [], ◌∷◌, ◌++◌,
  arith, ltb, not, ◌==◌, if◌then◌else◌, length, Bool-cases, inl, inr, subst,
}
use mathlib.Core.List.{append_assoc, append-nil}
use akula.Prelude.Words.{add64}
use akula.Errors.{Result, ok}
use akula.Etl.DataProvider.{Entry, DataProvider, Holds, Small, new-Holds}
use akula.Etl.DataProvider
use akula.Etl.Collector.{
  insert, sort, le_entry, Collector, new, flush, push, push_all, size_of, merge_all, iter,
}
use akula.Etl.Sorting.{sort-cons, sort-middle, sort-IsSorted, sort-append_sort}
use akula.Etl.Merging.{Runs, flatten, AllSmall, AllRuns}
use akula.Etl.Merge.{merge_all_lem}

abbrev pub total : List Entry → ℕ
total [] = 0
total (e ∷ l) = size_of e + total l

-- No entry is empty.
abbrev pub AllSized : List Entry → Type 0
AllSized [] = Unit
AllSized (e ∷ l) = (0 < size_of e) × AllSized l

total-append : (xs ys : List Entry) → total (xs ++ ys) ≡ total xs + total ys
total-append [] ys = omega arith
total-append (x ∷ xs) ys = omega (arith, total-append xs ys)

AllSized-append : (xs ys : List Entry) → AllSized xs → AllSized ys → AllSized (xs ++ ys)
AllSized-append [] ys all more = more
AllSized-append (x ∷ xs) ys (h, all) more = (h, AllSized-append xs ys all more)

AllSmall-append : (xs ys : List Entry) → AllSmall xs → AllSmall ys → AllSmall (xs ++ ys)
AllSmall-append [] ys all more = more
AllSmall-append (x ∷ xs) ys (h, all) more = (h, AllSmall-append xs ys all more)

AllSmall-sort : (l : List Entry) → AllSmall l → AllSmall (sort l)
unfolding sort insert
AllSmall-sort [] all = tt
AllSmall-sort (e ∷ l) (h, all) = put (sort l) (AllSmall-sort l all)
  where
    put : (m : List Entry) → AllSmall m → AllSmall (insert e m)
    put [] all = (h, tt)
    put (f ∷ m) (k, all) =
        let rest = put m all in
        elim (Bool-cases (le_entry e f)) [ inl ef ↦ rw ef (h, (k, all)) | inr ef ↦ rw ef (k, rest) ]

length-sort : (l : List Entry) → length (sort l) ≡ length l
unfolding sort insert
length-sort [] = refl
length-sort (e ∷ l) = put (sort l) ∙ ap suc (length-sort l)
  where
    put : (m : List Entry) → length (insert e m) ≡ suc (length m)
    put [] = refl
    put (f ∷ m) =
        let rest = put m in
        elim (Bool-cases (le_entry e f)) [ inl ef ↦ rw ef refl | inr ef ↦ rw ef (ap suc rest) ]

-- The runs and the buffer hold the entries of a list.
record Collects (c : Collector) (l : List Entry) : Type 0 where
  lanes : List (List Entry)
  runs : Runs c.data_providers lanes
  sorted : AllRuns lanes
  small : AllSmall c.buffer
  sized : AllSized c.buffer
  size : c.buffer_size ≡ total c.buffer
  bound : total c.buffer ≤ total l
  same : sort (flatten lanes ++ c.buffer) ≡ sort l

Runs-append :
    (ps qs : List DataProvider) (ls ms : List (List Entry))
    → Runs ps ls
    → Runs qs ms
    → Runs (ps ++ qs) (ls ++ ms)
Runs-append [] qs [] ms a b = b
Runs-append [] qs (l ∷ ls) ms a b = absurd a
Runs-append (p ∷ ps) qs [] ms a b = absurd a
Runs-append (p ∷ ps) qs (l ∷ ls) ms (h, a) b = (h, Runs-append ps qs ls ms a b)

AllRuns-append : (ls ms : List (List Entry)) → AllRuns ls → AllRuns ms → AllRuns (ls ++ ms)
AllRuns-append [] ms a b = b
AllRuns-append (l ∷ ls) ms (h, a) b = (h, AllRuns-append ls ms a b)

flatten-append :
    (ls : List (List Entry)) (l : List Entry) → flatten (ls ++ l ∷ []) ≡ flatten ls ++ l
flatten-append [] l = append-nil l
flatten-append (m ∷ ls) l = ap (◌++◌ m) (flatten-append ls l) ∙ sym (append_assoc m (flatten ls) l)

flush-Collects : (c : Collector) (l : List Entry) → Collects c l → Collects (flush c) l
unfolding flush
flush-Collects c l h = record {
  lanes = h.lanes ++ sort c.buffer ∷ [];
  runs =
      Runs-append c.data_providers (DataProvider.new (sort c.buffer) ∷ []) h.lanes
        (sort c.buffer ∷ []) h.runs (new-Holds (sort c.buffer), tt);
  sorted =
      AllRuns-append h.lanes (sort c.buffer ∷ []) h.sorted
        ((sort-IsSorted c.buffer, AllSmall-sort c.buffer h.small), tt);
  small = tt;
  sized = tt;
  size = refl;
  bound = omega arith;
  same =
      ap sort (append-nil (flatten (h.lanes ++ sort c.buffer ∷ [])))
      ∙ ap sort (flatten-append h.lanes (sort c.buffer))
      ∙ sort-append_sort (flatten h.lanes) c.buffer
      ∙ h.same;
}

sort-last : (xs : List Entry) (e : Entry) → sort (xs ++ e ∷ []) ≡ insert e (sort xs)
sort-last xs e = sort-middle e xs [] ∙ ap (λ (l : List Entry). insert e (sort l)) (append-nil xs)

-- The collector after a push, before it may be flushed.
abbrev filled : Entry → Collector → Collector
filled e c = record c { buffer_size = add64 c.buffer_size (size_of e); buffer = c.buffer ++ e ∷ [] }

filled-Collects :
    (e : Entry) (c : Collector) (l : List Entry)
    → Collects c l
    → 0 < size_of e
    → total (e ∷ l) < 2 ^ 64
    → Collects (filled e c) (e ∷ l)
filled-Collects e c l h sized fits =
    let more : total (c.buffer ++ e ∷ []) ≡ total c.buffer + size_of e =
      omega (arith, total-append c.buffer (e ∷ [])) in
    record {
      lanes = h.lanes;
      runs = h.runs;
      sorted = h.sorted;
      small = AllSmall-append c.buffer (e ∷ []) h.small ((omega arith, omega arith), tt);
      sized = AllSized-append c.buffer (e ∷ []) h.sized (sized, tt);
      size = omega (arith, more, h.size, h.bound);
      bound = omega (arith, more, h.bound);
      same =
          ap sort (sym (append_assoc (flatten h.lanes) c.buffer (e ∷ [])))
          ∙ sort-last (flatten h.lanes ++ c.buffer) e
          ∙ ap (insert e) h.same
          ∙ sym (sort-cons e l);
    }

push-Collects :
    (e : Entry) (c : Collector) (l : List Entry)
    → Collects c l
    → 0 < size_of e
    → total (e ∷ l) < 2 ^ 64
    → Collects (push e c) (e ∷ l)
unfolding push
push-Collects e c l h sized fits =
    let f = filled-Collects e c l h sized fits in
    elim (Bool-cases (ltb c.buffer_capacity (filled e c).buffer_size)) [
      | inl full ↦ rw full (flush-Collects (filled e c) (e ∷ l) f)
      | inr room ↦ rw room f
    ]

push_all-Collects :
    (es : List Entry) (c : Collector) (l : List Entry)
    → Collects c l
    → AllSized es
    → total es + total l < 2 ^ 64
    → (l' : List Entry) × Collects (push_all es c) l' × (sort l' ≡ sort (es ++ l))
unfolding push_all
push_all-Collects [] c l h all fits = (l, h, refl)
push_all-Collects (e ∷ es) c l h (sized, all) fits =
    let (l', h', same) =
      push_all-Collects es (push e c) (e ∷ l) (push-Collects e c l h sized (omega arith)) all
        (omega arith) in
    (l', h', same ∙ sort-middle e es l ∙ sym (sort-cons e (es ++ l)))

sort-over :
    (d : Collector) (l : List Entry)
    → (h : Collects d l) → d.buffer ≡ []
    → sort (flatten h.lanes) ≡ sort l
sort-over d l h over =
    ap sort (sym (append-nil (flatten h.lanes)))
    ∙ ap (λ (b : List Entry). sort (flatten h.lanes ++ b)) (sym over)
    ∙ h.same

-- The runs of a collector whose buffer is empty.
merge_all-Collects :
    (fuel : ℕ) (d : Collector) (l : List Entry)
    → (h : Collects d l) → d.buffer ≡ []
    → length l < fuel
    → merge_all fuel d.data_providers ≡ some (ok (sort l))
merge_all-Collects fuel d l h over enough =
    let same : sort (flatten h.lanes) ≡ sort l = sort-over d l h over in
    let count : length (flatten h.lanes) ≡ length l =
      sym (length-sort (flatten h.lanes)) ∙ ap length same ∙ length-sort l in
    merge_all_lem fuel d.data_providers h.lanes h.runs h.sorted (omega (arith, count))
    ∙ ap (λ (l : List Entry). some (ok l)) same

-- Once there is a run, the runs are merged, after the buffer has become one of them.
iter-spilled :
    (fuel : ℕ) (c : Collector) (p : DataProvider) (ps : List DataProvider) (l : List Entry)
    → c.data_providers ≡ p ∷ ps
    → Collects c l
    → length l < fuel
    → iter fuel c ≡ some (ok (sort l))
unfolding iter flush
iter-spilled fuel c p ps l spilled h enough =
    chosen c.data_providers (some (ok (sort c.buffer))) (merge_rest (c.buffer_size == 0)) spilled
    ∙ elim (Bool-cases (c.buffer_size == 0)) [
      | inl over ↦
          ap merge_rest over
          ∙ merge_all-Collects fuel c l h (empty c.buffer h.sized (ground (arith, h.size))) enough
      | inr left ↦
          ap merge_rest left
          ∙ merge_all-Collects fuel (flush c) l (flush-Collects c l h) refl enough
    ]
  where
    merge_rest : Bool → Option (Result (List Entry))
    merge_rest over = merge_all fuel (if not over then flush c else c).data_providers

    chosen :
        (qs : List DataProvider) (a b : Option (Result (List Entry)))
        → qs ≡ p ∷ ps
        → elim qs [ [] ↦ a | q ∷ rest ↦ b ] ≡ b
    chosen qs a b e = rw e refl

    empty : (b : List Entry) → AllSized b → total b ≡ 0 → b ≡ []
    empty [] all zero_total = refl
    empty (e ∷ b) (sized, all) zero_total = absurd (omega arith)

iter-kept :
    (fuel : ℕ) (c : Collector) (l : List Entry)
    → c.data_providers ≡ []
    → Collects c l
    → iter fuel c ≡ some (ok (sort l))
unfolding iter
iter-kept fuel c l kept h =
    rw kept (ap (λ (l : List Entry). some (ok l)) (no_runs h.lanes h.runs h.same))
  where
    no_runs :
        (lanes : List (List Entry))
        → Runs c.data_providers lanes
        → sort (flatten lanes ++ c.buffer) ≡ sort l
        → sort c.buffer ≡ sort l
    no_runs [] runs same = same
    no_runs (m ∷ lanes) runs same =
        absurd (subst (λ (ps : List DataProvider). Runs ps (m ∷ lanes)) kept runs)

iter-Collects :
    (fuel : ℕ) (c : Collector) (l : List Entry)
    → Collects c l
    → length l < fuel
    → iter fuel c ≡ some (ok (sort l))
iter-Collects fuel c l h enough = split c.data_providers refl
  where
    split : (ps : List DataProvider) → c.data_providers ≡ ps → iter fuel c ≡ some (ok (sort l))
    split [] e = iter-kept fuel c l e h
    split (p ∷ ps) e = iter-spilled fuel c p ps l e h enough

-- The entries that are pushed into a new collector, whatever its capacity and however often the buffer
-- is spilled, come back from its iterator as the sorted list of them, without an error and without a
-- loss, for entries that are not empty, fewer than 2^64 bytes in all, and fuel above their number.
pub iter-push_all :
    (buffer_capacity fuel : ℕ) (es : List Entry)
    → AllSized es
    → total es < 2 ^ 64
    → length es < fuel
    → iter fuel (push_all es (new buffer_capacity)) ≡ some (ok (sort es))
unfolding new
iter-push_all buffer_capacity fuel es sized fits enough =
    let start : Collects (new buffer_capacity) [] = record {
      lanes = [];
      runs = tt;
      sorted = tt;
      small = tt;
      sized = tt;
      size = refl;
      bound = omega arith;
      same = refl;
    } in
    let (l, h, same) = push_all-Collects es (new buffer_capacity) [] start sized (omega arith) in
    let same' : sort l ≡ sort es = same ∙ ap sort (append-nil es) in
    let count : length l ≡ length es = sym (length-sort l) ∙ ap length same' ∙ length-sort es in
    iter-Collects fuel (push_all es (new buffer_capacity)) l h (omega (arith, count))
    ∙ ap (λ (l : List Entry). some (ok l)) same'
