-- ===== src/Execution/Evm/Refunds.antt =====
-- The refunds of src/execution/evm.rs for the slots that a transaction writes (EIP-1283, EIP-3529).
use akula.Prelude.{
  ℕ, ◌+◌, ◌-◌, ◌*◌, ◌≤◌, ◌<◌, ◌≡◌, refl, true, false, List, [], ◌∷◌, arith, length, ◌==◌,
  if◌then◌else◌, ap, sym, ◌∙◌, ==_iff, Bool-cases, inl, inr,
}
use akula.Prelude.Words.{u64_mod}
use akula.Errors.{ok}
use akula.State.Delta.{IntraBlockState}
use akula.State.Monad.{Method, ◌>>=◌, pure}
use akula.State.IntraBlock.{add_refund, subtract_refund}
use akula.Models.Revision.{Revision, Rank}
use akula.Execution.Evm.Sstore.{metered, sstore_clears_refund, sstore_reset_gas, sload_cost}
use akula.Execution.Evm.Interpreter.{StorageStatus, added, modified, modified_again}

module _ (rank : Rank) (rev : Revision) where
  -- The refund that a cleared slot holds.
  abbrev pub held : ℕ → ℕ → ℕ
  held original_val current_val =
      if original_val == 0 then 0 else if current_val == 0 then sstore_clears_refund rank rev else 0

  abbrev with_refund : IntraBlockState → ℕ → IntraBlockState
  with_refund s gas = record s { refund = gas }

  -- What the refund counter is after a write.
  refund_after : ℕ → ℕ → ℕ → ℕ → ℕ
  refund_after o c n r =
      if o == c
      then if o == 0 then r else if n == 0 then r + sstore_clears_refund rank rev else r
      else r
        - held o c
        + held o n
        + (if o == n
            then (if o == 0 then 20_000 else sstore_reset_gas rank rev) - sload_cost rank rev
            else 0)

  status_of : ℕ → ℕ → StorageStatus
  status_of o c = if o == c then if o == 0 then added else modified else modified_again

  metered_lem :
      (o c n : ℕ) (s : IntraBlockState)
      → held o c ≤ s.refund
      → s.refund + 40_000 < u64_mod
      → metered rank rev o c n s ≡ ok (status_of o c, with_refund s (refund_after o c n s.refund))
  unfolding metered refund_after status_of ◌>>=◌ pure add_refund subtract_refund
  metered_lem o c n s h small = ground arith

  refund_after_bounds :
      (o c n base r : ℕ)
      → base + held o c ≤ r
      → (c == n) ≡ false
      → (base + held o n ≤ refund_after o c n r) × (refund_after o c n r ≤ r + 40_000)
  unfolding refund_after
  refund_after_bounds o c n base r h new = (ground arith, ground arith)

  -- The writes of a transaction to a slot, of which those that change nothing are not metered.
  unfoldable pub write_all : ℕ → ℕ → List ℕ → Method (Unit {0})
  write_all o c [] = pure tt
  write_all o c (n ∷ rest) =
      if c == n
      then write_all o c rest
      else (do status ← metered rank rev o c n; write_all o n rest)

  abbrev pub last_of : ℕ → List ℕ → ℕ
  last_of c [] = c
  last_of c (n ∷ rest) = last_of n rest

  last_same : (c n : ℕ) (rest : List ℕ) → (c == n) ≡ true → last_of n rest ≡ last_of c rest
  last_same c n rest e = ap (λ (k : ℕ). last_of k rest) (sym ((==_iff c n).0 e))

  step :
      (o c n : ℕ) (rest : List ℕ) (s : IntraBlockState)
      → held o c ≤ s.refund
      → s.refund + 40_000 < u64_mod
      → (c == n) ≡ false
      → write_all o c (n ∷ rest) s
        ≡ write_all o n rest (with_refund s (refund_after o c n s.refund))
  unfolding write_all ◌>>=◌
  step o c n rest s h small new = rw (new, metered_lem o c n s h small) refl

  -- However often a transaction writes a slot, the refunds of EIP-1283 never take more from the counter
  -- than the slot put there: the counter stays at least the refunds of the other slots and what the
  -- slot's last value still earns, as long as it is too small to wrap at its 64 bits.
  pub write_all-held :
      (o c base : ℕ) (l : List ℕ) (s : IntraBlockState)
      → base + held o c ≤ s.refund
      → s.refund + 40_000 * length l < u64_mod
      → (t : IntraBlockState) × (write_all o c l s ≡ ok (tt, t))
        × (base + held o (last_of c l) ≤ t.refund)
  unfolding write_all pure
  write_all-held o c base [] s h small = (s, refl, h)
  write_all-held o c base (n ∷ rest) s h small = elim (Bool-cases (c == n)) [
    | inl same ↦ rw (same, last_same c n rest same) (write_all-held o c base rest s h (omega arith))
    | inr new ↦
        let (covered, bounded) = refund_after_bounds o c n base s.refund h new in
        let (t, runs, kept) =
          write_all-held o n base rest (with_refund s (refund_after o c n s.refund)) covered
            (omega arith) in
        (t, step o c n rest s (omega arith) (omega arith) new ∙ runs, kept)
  ]
