-- ===== src/Blockchain/Unwinding.antt =====
-- Blocks of src/consensus/blockchain.rs that were written are taken back.
use akula.Prelude.{ℕ, suc, ◌≤◌, ◌≡◌, ◌∙◌, refl, false, List, [], ◌∷◌, arith, ◌==◌, length}
use akula.State.IntraBlock.Writes.{Write, begin_block}
use akula.State.InMemory.{InMemoryState, apply_all}
use akula.State.InMemory.Updates.{Since}
use akula.State.InMemory.Unwinding.{
  IsWritten, IsNew, Same, apply_all-Since, unwind_state_changes-Same,
}
use akula.Blockchain.{unwind_blocks}

-- Blocks that are written one after the other, from a number on.
unfoldable pub write_blocks : ℕ → List (List Write) → InMemoryState → InMemoryState
write_blocks n [] s = s
write_blocks n (ws ∷ rest) s = write_blocks (suc n) rest (apply_all (begin_block n ∷ ws) s)

abbrev pub AllWritten : ℕ → List (List Write) → InMemoryState → Type 0
AllWritten n [] s = Unit
AllWritten n (ws ∷ rest) s =
    IsWritten s ws × AllWritten (suc n) rest (apply_all (begin_block n ∷ ws) s)

abbrev pub NewFrom : ℕ → InMemoryState → Type 0
NewFrom n s = (m : ℕ) → n ≤ m → IsNew m s

pub reads_itself : (s : InMemoryState) → Same s s
reads_itself s = record {
  account = λ a. refl;
  storage = λ a k. refl;
  account_changes = λ m. refl;
  storage_changes = λ m. refl;
}

NewFrom-suc : (n : ℕ) (s t : InMemoryState) → NewFrom n s → Since s n t → NewFrom (suc n) t
NewFrom-suc n s t new h m le =
    let other : (n == m) ≡ false = ground arith in
    let (accounts, slots) = h.others m other in
    (accounts ∙ (new m (omega arith)).0, slots ∙ (new m (omega arith)).1)

-- Unwinding as many blocks as were written, each with its storages erased first and with the values
-- that the state had before it, gives a state that reads like the one before them all, for every
-- account and every slot, and that keeps the same changes of every block. The blocks stand from `n` on,
-- where nothing was written before.
pub unwind_blocks-write_blocks :
    (bs : List (List Write)) (n : ℕ) (s : InMemoryState)
    → NewFrom n s
    → AllWritten n bs s
    → Same s (unwind_blocks (length bs) n (write_blocks n bs s))
unfolding unwind_blocks write_blocks
unwind_blocks-write_blocks [] n s new written = reads_itself s
unwind_blocks-write_blocks (ws ∷ rest) n s new (written, more) =
    let t = apply_all (begin_block n ∷ ws) s in
    let h = apply_all-Since s n ws (new n (omega arith)) written in
    unwind_state_changes-Same s t
      (unwind_blocks (length rest) (suc n) (write_blocks (suc n) rest t)) n (new n (omega arith)) h
      (unwind_blocks-write_blocks rest (suc n) t (NewFrom-suc n s t new h) more)
