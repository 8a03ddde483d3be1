-- ===== src/StagedSync/Examples.antt =====
-- Two stages that unwind block by block, and an instance of the theorem on unwinding.
use akula.Prelude.{ℕ, ◌-◌, ◌≡◌, refl, arith, true, none, some, List, [], ◌∷◌}
use mathlib.Core.List.{reverse}
use akula.Errors.{ok}
use akula.HashMap
use akula.StagedSync.{Tx, Stage, StagedSync, progress, run}
use akula.StagedSync.Unwinding.{Below, Unwinds, run-unwinds}

abbrev stage_at : ℕ → Stage (Unit {0})
stage_at id = record {
  id = id;
  execute = λ input tx. ok (progress 5 true, tx);
  unwind = λ input tx. ok (input.stage_progress - 1, tx);
}

abbrev staged_sync : StagedSync (Unit {0})
staged_sync = record {
  stages = stage_at 1 ∷ stage_at 2 ∷ [];
  min_progress_to_commit_after_stage = 0;
  max_block = some 5;
}

abbrev db : Tx (Unit {0})
db = record { sync_stage = HashMap.insert (HashMap.insert HashMap.empty 1 7) 2 6; tables = tt }

goes_back : (id : ℕ) (done : List (Stage (Unit {0}))) → Unwinds 3 done (stage_at id)
goes_back id done = record {
  step = λ p tx above below. (p - 1, tx, refl, omega arith, λ j other. refl);
}

run-unwinds_example :
    (t : Tx (Unit {0})) × (run (Unit {0}) staged_sync 11 (some 3) db
      ≡ run (Unit {0}) staged_sync 10 none t)
    × Below 3 (reverse staged_sync.stages) t
unfolding HashMap.insert HashMap.empty HashMap.get
run-unwinds_example =
    run-unwinds staged_sync 10 3 db
      (goes_back 2 [], tt, (refl, tt), (goes_back 1 (stage_at 2 ∷ []), (refl, tt), tt, tt))
      (omega arith, (omega arith, tt))
