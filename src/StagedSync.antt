-- ===== src/StagedSync.antt =====
-- src/stagedsync: the loop that runs the stages in order and unwinds them in reverse order. The tables of
-- the database beside the progress of the stages are of any type; the stages are parameters, as they
-- are for the source (`dyn Stage`). Clocks and logs are left out. Loops take fuel, and `none` means
-- that it ran out.
pub mod Unwinding
mod Examples
use akula.Prelude.{
  ℕ, zero, suc, ◌-◌, Bool, true, false, Option, none, some, List, [], ◌∷◌, min, ltb, leb, ◌==◌,
  if◌then◌else◌, unwrap_or,
}
use akula.Errors.{Error, Result, ok, err}
use akula.HashMap
use akula.HashMap.{HashMap}
use mathlib.Core.List.{reverse}

-- src/stagedsync/stage.rs
pub record StageInput : Type 0 where
  pub restarted : Bool
  pub start_progress : Option ℕ
  pub previous_stage : Option (ℕ × ℕ)
  pub stage_progress : Option ℕ

pub record UnwindInput : Type 0 where
  pub stage_progress : ℕ
  pub unwind_to : ℕ

pub data ExecOutput : Type 0 where
  unwind : (unwind_to : ℕ) → ExecOutput
  progress : (stage_progress : ℕ) (done : Bool) → ExecOutput

-- A step of a loop that may fail, or run out of fuel.
abbrev pub Running : Type 0 → Type 0
Running A = Option (Result A)

abbrev pub and_then : {A B : Type 0} → Running A → (A → Running B) → Running B
and_then none f = none
and_then (some (err e)) f = some (err e)
and_then (some (ok a)) f = f a

module _ (D : Type 0) where
  -- A transaction: the table `SyncStage` by the stages' names, and the other tables.
  pub record Tx : Type 0 where
    pub sync_stage : HashMap ℕ
    pub tables : D

  -- `Stage`, whose methods may write to the transaction.
  pub record Stage : Type 0 where
    pub id : ℕ
    pub execute : StageInput → Tx → Result (ExecOutput × Tx)
    pub unwind : UnwindInput → Tx → Result (ℕ × Tx)

  abbrev pub get_progress : ℕ → Tx → Option ℕ
  get_progress id tx = HashMap.get tx.sync_stage id

  abbrev pub save_progress : ℕ → ℕ → Tx → Tx
  save_progress id block tx = record tx { sync_stage = HashMap.insert tx.sync_stage id block }

  -- `while stage_progress > to`
  unfoldable pub unwind_loop : ℕ → Stage → ℕ → ℕ → Tx → Running Tx
  unwind_loop zero stage to stage_progress tx = none
  unwind_loop (suc fuel) stage to stage_progress tx = elim (ltb to stage_progress) [
    | false ↦ some (ok tx)
    | true ↦ elim (stage.unwind (record { stage_progress = stage_progress; unwind_to = to }) tx) [
      | err e ↦ some (err e)
      | ok (left, tx') ↦ unwind_loop fuel stage to left (save_progress stage.id left tx')
    ]
  ]

  -- The stages in the order in which they are unwound.
  unfoldable pub unwind_stages : ℕ → List Stage → ℕ → Tx → Running Tx
  unfolding unwind_loop
  unwind_stages fuel [] to tx = some (ok tx)
  unwind_stages fuel (stage ∷ rest) to tx =
      and_then (unwind_loop fuel stage to (unwrap_or (get_progress stage.id tx) 0) tx)
        (unwind_stages fuel rest to)

  -- What the passes of `run` keep: the database as it was committed last, the transaction, and the
  -- least progress that a stage has reported in this pass.
  pub record Pass : Type 0 where
    pub db : Tx
    pub tx : Tx
    pub minimum_progress : Option ℕ

  -- How a stage, or all of them, stopped.
  pub data Ended : Type 0 where
    finished : (done_progress : ℕ) (pass : Pass) → Ended
    unwinding : (to : ℕ) (db : Tx) → Ended

  pub record StagedSync : Type 0 where
    pub stages : List Stage
    pub min_progress_to_commit_after_stage : ℕ
    pub max_block : Option ℕ

  abbrev lower : Option ℕ → ℕ → Option ℕ
  lower none p = some p
  lower (some m) p = some (min m p)

  module _ (self : StagedSync) where
    -- What is kept of a report: the progress is saved, and committed if it is enough.
    abbrev report : ℕ → Option ℕ → ℕ → Tx → Pass → Pass
    report id start_progress stage_progress tx pass =
        let tx' = save_progress id stage_progress tx in
        record {
          db =
              if leb self.min_progress_to_commit_after_stage
                (stage_progress - unwrap_or start_progress 0)
              then tx'
              else pass.db;
          tx = tx';
          minimum_progress = lower pass.minimum_progress stage_progress;
        }

    -- The loop that invokes a stage until it is done.
    unfoldable pub execute_loop :
        ℕ → Stage → Option ℕ → Option (ℕ × ℕ) → Bool → Pass → Running Ended
    execute_loop zero stage start_progress previous_stage restarted pass = none
    execute_loop (suc fuel) stage start_progress previous_stage restarted pass =
        elim (stage.execute
          (record {
            restarted = restarted;
            start_progress = start_progress;
            previous_stage = previous_stage;
            stage_progress = get_progress stage.id pass.tx;
          })
          pass.tx) [
            | err e ↦ some (err e)
            | ok (unwind to, tx) ↦ some (ok (unwinding to pass.db))
            | ok (progress stage_progress done, tx) ↦ elim done [
              | true ↦ some (
                  ok (
                    finished stage_progress
                      (report stage.id start_progress stage_progress tx pass)))
              | false ↦
                  execute_loop fuel stage start_progress previous_stage true
                    (report stage.id start_progress stage_progress tx pass)
            ]
          ]

    -- Each stage in direct order, from the stage that went before.
    unfoldable pub execute_stages : ℕ → List Stage → Option (ℕ × ℕ) → Pass → Running Ended
    unfolding execute_loop
    execute_stages fuel [] previous_stage pass = some (ok (finished 0 pass))
    execute_stages fuel (stage ∷ rest) previous_stage pass =
        and_then (execute_loop fuel stage (get_progress stage.id pass.tx) previous_stage false pass)
          λ ended. elim ended [
            | unwinding to db ↦ some (ok (unwinding to db))
            | finished done_progress pass' ↦
                execute_stages fuel rest (some (stage.id, done_progress)) pass'
          ]

    -- `if minimum_progress == max_block { return Ok(()); }`
    abbrev reached : Option ℕ → Bool
    reached none = false
    reached (some m) = elim self.max_block [ none ↦ false | some block ↦ m == block ]

    -- `'run_loop`: the database at the end, if it ends.
    unfoldable pub run : ℕ → Option ℕ → Tx → Running Tx
    unfolding execute_stages unwind_stages
    run zero unwind_to db = none
    run (suc fuel) (some to) db =
        and_then (unwind_stages fuel (reverse self.stages) to db) (run fuel none)
    run (suc fuel) none db =
        and_then
          (execute_stages fuel self.stages none
            (record { db = db; tx = db; minimum_progress = none }))
          λ ended. elim ended [
            | unwinding to db' ↦ run fuel (some to) db'
            | finished done_progress pass ↦ elim (reached pass.minimum_progress) [
              | true ↦ some (ok pass.tx)
              | false ↦ run fuel none pass.tx
            ]
          ]
