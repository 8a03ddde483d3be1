-- ===== src/Etl/Examples.antt =====
-- A collector that spills its buffer after every second entry.
use akula.Prelude.{ℕ, ◌≡◌, refl, arith, some, List, [], ◌∷◌}
use akula.Errors.{ok}
use akula.Etl.DataProvider.{Entry}
use akula.Etl.Collector.{sort, new, push_all, iter}
use akula.Etl.Collected.{iter-push_all}

abbrev entry : ℕ → ℕ → Entry
entry key value = record { key = key ∷ []; value = value ∷ [] }

abbrev entries : List Entry
entries = entry 5 1 ∷ entry 3 2 ∷ entry 5 0 ∷ entry 1 1 ∷ entry 4 4 ∷ []

abbrev sorted_entries : List Entry
sorted_entries = entry 1 1 ∷ entry 3 2 ∷ entry 4 4 ∷ entry 5 0 ∷ entry 5 1 ∷ []

sorts : sort entries ≡ sorted_entries
unfolding sort
sorts = refl

iter-push_all_example : iter 6 (push_all entries (new 3)) ≡ some (ok (sort entries))
iter-push_all_example =
    iter-push_all 3 6 entries
      (omega arith, (omega arith, (omega arith, (omega arith, (omega arith, tt))))) (omega arith)
      (omega arith)
