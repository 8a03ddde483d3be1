-- ===== src/Blockchain/Preparation.antt =====
-- What `insert_block` of src/consensus/blockchain.rs has of a block that passes its checks.
use akula.Prelude.{ℕ, suc, ◌≡◌, ◌∙◌, sym, ap, true, Option, none, some, List, arith}
use akula.Errors.{ValidationError, Result, validation, ok, err, panicked, ◌>>◌, bind-ok, map_ok}
use akula.HashMap
use akula.State.InMemory.{
  InMemoryState, nth, look_up, change_at, canonical_hash, current_canonical_block, total_difficulty,
  canonize_block, decanonize_block,
}
use akula.State.InMemory
use akula.Models.Header.{from_header}
use akula.Models.Block.{Block}
use akula.Models.Message.{MessageWithSender}
use akula.Models.ChainSpec.{ChainSpec}
use akula.Blockchain.{
  Engine, Environment, Blockchain, BlockWithSenders, prepare, from_block, with_senders,
  canonical_ancestor, find_ancestor, known_or_find,
}

then-ok : {A : Type 0} (m : Result (Unit {0})) (r : Result A) (a : A) → (m >> r) ≡ ok a → r ≡ ok a
then-ok (ok u) r a h = h
then-ok (err e) r a h = absurd (ground arith)

module _ (engine : Engine) (env : Environment) (config : ChainSpec) where
  from_block-number :
      (block : Block) (b : BlockWithSenders)
      → from_block engine env config block ≡ ok b
      → b.header.number ≡ block.header.number
  unfolding from_header
  from_block-number block b e = senders (with_senders engine env config block.transactions) e
    where
      same : {x y : BlockWithSenders} → ok x ≡ ok y → x ≡ y
      same h = cc

      senders :
          (r : Result (List MessageWithSender))
          → let made : Result BlockWithSenders = elim r [
            | err e ↦ err panicked
            | ok txs ↦ ok record {
              header = from_header block.header;
              body = record { transactions = txs; ommers = block.ommers };
            }
          ] in
            made ≡ ok b → b.header.number ≡ block.header.number
      senders (err x) h = absurd (ground arith)
      senders (ok txs) h = ap (λ (c : BlockWithSenders). c.header.number) (sym (same h))

  find_ancestor-number :
      (bc : Blockchain) (block : Block) (p : BlockWithSenders × ℕ)
      → find_ancestor engine env config bc block ≡ ok p
      → p.0.header.number ≡ block.header.number
  unfolding find_ancestor
  find_ancestor-number bc block p h =
      let (b, made, rest) =
        bind-ok (from_block engine env config block)
          (λ b.
            map_ok (λ ancestor. (b, ancestor))
              (canonical_ancestor engine env config (suc b.header.number) bc.state b.header
                (env.hash block.header)))
          p h in
      paired b _ rest ∙ from_block-number block b made
    where
      paired :
          (b : BlockWithSenders) (r : Result ℕ)
          → map_ok (λ ancestor. (b, ancestor)) r ≡ ok p
          → p.0.header.number ≡ b.header.number
      paired b (err e) h = absurd (ground arith)
      paired b (ok ancestor) h = ap (λ (q : BlockWithSenders × ℕ). q.0.header.number) (same h)
        where
          same : {x y : BlockWithSenders × ℕ} → ok x ≡ ok y → y ≡ x
          same h = cc

  -- The block with its senders has the number of the block.
  pub prepare-number :
      (bc : Blockchain) (block : Block) (p : BlockWithSenders × ℕ)
      → prepare engine env config bc block ≡ ok p
      → p.0.header.number ≡ block.header.number
  unfolding prepare known_or_find
  prepare-number bc block p h = known (HashMap.get bc.bad_blocks (env.hash block.header)) (
      then-ok (engine.pre_validate_block (InMemory.chain_reader bc.state) block)
        (known_or_find engine env config bc block) p
        (then-ok (engine.validate_block_header (InMemory.chain_reader bc.state) block.header true) _
          p h))
    where
      known :
          (bad : Option ValidationError)
          → let found : Result (BlockWithSenders × ℕ) = elim bad [
            | some error ↦ err (validation error)
            | none ↦ find_ancestor engine env config bc block
          ] in
            found ≡ ok p → p.0.header.number ≡ block.header.number
      known none e = find_ancestor-number bc block p e
      known (some error) e = absurd (ground arith)
