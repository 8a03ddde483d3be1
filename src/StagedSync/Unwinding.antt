-- ===== src/StagedSync/Unwinding.antt =====
-- The unwinding of src/stagedsync/mod.rs: it ends, in reverse order, with no stage above its target.
use akula.Prelude.{
  ℕ, zero, suc, ◌≤◌, ◌<◌, ◌≡◌, refl, ◌∙◌, true, false, none, some, List, [], ◌∷◌, arith, ltb, ◌==◌,
  if◌then◌else◌, unwrap_or, Bool-cases, inl, inr, ap, ltb→lt, ==_self,
}
use akula.Errors.{ok}
use akula.HashMap.{get-insert}
use akula.StagedSync.{
  Running, and_then, run, Tx, Stage, StagedSync, get_progress, save_progress, unwind_loop,
  unwind_stages,
}
use mathlib.Core.List.{reverse}

module _ {D : Type 0} where
  abbrev pub progress_of : Stage D → Tx D → ℕ
  progress_of stage tx = unwrap_or (get_progress D stage.id tx) 0

  -- The progress of every other stage is as it was.
  abbrev pub OthersKept : ℕ → Tx D → Tx D → Type 0
  OthersKept id tx t = (j : ℕ) → (id == j) ≡ false → get_progress D j t ≡ get_progress D j tx

  abbrev pub Below : ℕ → List (Stage D) → Tx D → Type 0
  Below to [] tx = Unit
  Below to (stage ∷ rest) tx = (progress_of stage tx ≤ to) × Below to rest tx

  -- A stage that the unwinding may count on: if the stages that run after it are already at the target, it gets
  -- back to a lower block and leaves the progress of the others alone.
  pub record Unwinds (to : ℕ) (later : List (Stage D)) (stage : Stage D) : Type 0 where
    pub step :
        (p : ℕ) (tx : Tx D)
        → to < p
        → Below to later tx
        → (left : ℕ) × (t : Tx D) × (stage.unwind (record { stage_progress = p; unwind_to = to }) tx
            ≡ ok (left, t))
          × (left < p)
          × OthersKept stage.id tx t

  abbrev pub IsNew : ℕ → List (Stage D) → Type 0
  IsNew id [] = Unit
  IsNew id (stage ∷ rest) = ((id == stage.id) ≡ false) × IsNew id rest

  -- Every stage of an order of unwinding, after those that are done, with a name of its own.
  abbrev pub AllUnwind : ℕ → List (Stage D) → List (Stage D) → Type 0
  AllUnwind to done [] = Unit
  AllUnwind to done (stage ∷ rest) =
      Unwinds to done stage
      × IsNew stage.id done
      × IsNew stage.id rest
      × AllUnwind to (stage ∷ done) rest

  abbrev pub Within : ℕ → List (Stage D) → Tx D → Type 0
  Within fuel [] tx = Unit
  Within fuel (stage ∷ rest) tx = (progress_of stage tx < fuel) × Within fuel rest tx

  get-save :
      (id p j : ℕ) (tx : Tx D)
      → get_progress D j (save_progress D id p tx)
        ≡ (if id == j then some p else get_progress D j tx)
  get-save id p j tx = get-insert tx.sync_stage id p j

  Others-Below :
      (to id : ℕ) (l : List (Stage D)) (tx t : Tx D)
      → IsNew id l
      → OthersKept id tx t
      → Below to l tx
      → Below to l t
  Others-Below to id [] tx t new kept below = tt
  Others-Below to id (s ∷ l) tx t (n, new) kept (le, below) =
      (rw (kept s.id n) le, Others-Below to id l tx t new kept below)

  Others-Within :
      (fuel id : ℕ) (l : List (Stage D)) (tx t : Tx D)
      → IsNew id l
      → OthersKept id tx t
      → Within fuel l tx
      → Within fuel l t
  Others-Within fuel id [] tx t new kept below = tt
  Others-Within fuel id (s ∷ l) tx t (n, new) kept (le, below) =
      (rw (kept s.id n) le, Others-Within fuel id l tx t new kept below)

  loop_low :
      (fuel to p : ℕ) (stage : Stage D) (tx : Tx D)
      → ltb to p ≡ false
      → unwind_loop D (suc fuel) stage to p tx ≡ some (ok tx)
  unfolding unwind_loop
  loop_low fuel to p stage tx e = rw (e, unwind_loop) refl

  loop_high :
      (fuel to p left : ℕ) (stage : Stage D) (tx t : Tx D)
      → ltb to p ≡ true
      → stage.unwind (record { stage_progress = p; unwind_to = to }) tx ≡ ok (left, t)
      → unwind_loop D (suc fuel) stage to p tx
        ≡ unwind_loop D fuel stage to left (save_progress D stage.id left t)
  unfolding unwind_loop
  loop_high fuel to p left stage tx t e runs = rw (e, runs, unwind_loop) refl

  progress-save :
      (left : ℕ) (stage : Stage D) (t : Tx D)
      → progress_of stage (save_progress D stage.id left t) ≡ left
  progress-save left stage t = rw (get-save stage.id left stage.id t, ==_self stage.id) refl

  save-OthersKept :
      (left id : ℕ) (tx t : Tx D)
      → OthersKept id tx t
      → OthersKept id tx (save_progress D id left t)
  save-OthersKept left id tx t kept j e = rw (get-save id left j t, e) (kept j e)

  -- The loop of one stage.
  abbrev Unwound : ℕ → Stage D → Tx D → Running (Tx D) → Type 0
  Unwound to stage tx r =
      (t : Tx D) × (r ≡ some (ok t)) × (progress_of stage t ≤ to) × OthersKept stage.id tx t

  loop_ends :
      (to : ℕ) (done : List (Stage D)) (stage : Stage D)
      → Unwinds to done stage
      → IsNew stage.id done
      → (fuel p : ℕ) (tx : Tx D) → p < fuel
      → progress_of stage tx ≡ p
      → Below to done tx
      → Unwound to stage tx (unwind_loop D fuel stage to p tx)
  loop_ends to done stage u new zero p tx lt is below = absurd (omega arith)
  loop_ends to done stage u new (suc fuel) p tx lt is below = elim (Bool-cases (ltb to p)) [
    | inr low ↦ (tx, loop_low fuel to p stage tx low, ground arith, λ j e. refl)
    | inl high ↦
        let (left, t, runs, less, kept) = u.step p tx (ltb→lt to p high) below in
        again left t (loop_high fuel to p left stage tx t high runs)
          (save-OthersKept left stage.id tx t kept)
          (loop_ends to done stage u new fuel left (save_progress D stage.id left t) (omega arith)
            (progress-save left stage t)
            (Others-Below to stage.id done tx _ new (save-OthersKept left stage.id tx t kept)
              below))
  ]
    where
      again :
          (left : ℕ) (t : Tx D)
          → unwind_loop D (suc fuel) stage to p tx
            ≡ unwind_loop D fuel stage to left (save_progress D stage.id left t)
          → OthersKept stage.id tx (save_progress D stage.id left t)
          → Unwound to stage
              (save_progress D stage.id left t)
              (unwind_loop D fuel stage to left (save_progress D stage.id left t))
          → Unwound to stage tx (unwind_loop D (suc fuel) stage to p tx)
      again left t step kept (w, ends, low, others) =
          (w, step ∙ ends, low, λ j e. others j e ∙ kept j e)

  -- The order of unwinding, behind the stages that are done.
  order_ends :
      (fuel to : ℕ) (done order : List (Stage D)) (tx : Tx D)
      → AllUnwind to done order
      → Within fuel order tx
      → Below to done tx
      → (t : Tx D) × (unwind_stages D fuel order to tx ≡ some (ok t))
        × Below to done t
        × Below to order t
  unfolding unwind_stages
  order_ends fuel to done [] tx all within below = (tx, refl, below, tt)
  order_ends fuel to done (stage ∷ rest) tx (u, new, fresh, all) (lt, within) below =
      let (w, ends, low, others) =
        loop_ends to done stage u new fuel (progress_of stage tx) tx lt refl below in
      let (t, runs, (low', was), now) =
        order_ends fuel to (stage ∷ done) rest w all
          (Others-Within fuel stage.id rest tx w fresh others within)
          (low, Others-Below to stage.id done tx w new others below) in
      (
        t,
        ap (λ (r : Running (Tx D)). and_then r (unwind_stages D fuel rest to)) ends ∙ runs,
        was,
        (low', now),
      )

  -- An unwinding ends within the progress of the stages, and leaves none above its target; then the
  -- stages run again. It is enough that each stage, unwound when those that run after it are at the
  -- target already, gets back to a lower block and leaves the progress of the others alone.
  pub run-unwinds :
      (self : StagedSync D) (fuel to : ℕ) (db : Tx D)
      → AllUnwind to [] (reverse self.stages)
      → Within fuel (reverse self.stages) db
      → (t : Tx D) × (run D self (suc fuel) (some to) db ≡ run D self fuel none t)
        × Below to (reverse self.stages) t
  unfolding run
  run-unwinds self fuel to db all within =
      let (t, ends, done, below) = order_ends fuel to [] (reverse self.stages) db all within tt in
      (t, ap (λ (r : Running (Tx D)). and_then r (run D self fuel none)) ends, below)
