-- ===== src/Blockchain/ForkChoice.antt =====
-- `insert_block` of src/consensus/blockchain.rs follows the chain with the greatest total difficulty.
use akula.Prelude.{
  ℕ, zero, suc, ◌≤◌, ◌<◌, ◌≡◌, ◌⊎◌, ◌∙◌, refl, sym, ap, Bool, Option, none, some, List, [], ◌∷◌,
  ◌++◌, arith, ltb, ltb→lt, if◌then◌else◌, Bool-cases, inl, inr,
}
use akula.Errors.{ValidationError, Error, Result, ok, err, bind-ok}
use akula.Prelude.Words.{sub64}
use akula.HashMap
use akula.State.InMemory.{
  InMemoryState, nth, look_up, change_at, canonical_hash, current_canonical_block, total_difficulty,
  canonize_block, decanonize_block,
}
use akula.State.InMemory
use akula.Models.Block.{Block}
use akula.Models.ChainSpec.{ChainSpec}
use akula.Consensus.Base.{unwrap}
use akula.Blockchain.{
  Engine, Environment, Blockchain, BlockWithSenders, WithHash, Step, Outcome, with_found,
  canonize_blocks, decanonize_blocks, adopt, go_back, difficulties, choose, reject, conclude,
  execute_chain, unwind_last_changes, intermediate_chain, extend, prepare, downcast, insert_block,
}
use akula.Blockchain.Preparation.{prepare-number}
use akula.Blockchain.Kept.{
  Keeps, Keeps-trans, unwind_last_changes-Keeps, execute_chain-Keeps, go_back-Keeps,
}

-- The chain of a state follows a new block exactly if it is heavier than the block that was canonical.
pub record Choice (s t : InMemoryState) (number hash : ℕ) : Type 0 where
  pub canonical : ℕ
  pub current_total : ℕ
  pub new_total : ℕ
  pub was_canonical : canonical_hash s (current_canonical_block s) ≡ some canonical
  pub current_is : total_difficulty t (current_canonical_block s) canonical ≡ some current_total
  pub new_is : total_difficulty t number hash ≡ some new_total
  pub chosen :
      ((current_total < new_total) × (canonical_hash t number ≡ some hash))
      ⊎ ((new_total ≤ current_total) × (t.canonical_hashes ≡ s.canonical_hashes))

nth-change_at : (l : List ℕ) (n h : ℕ) → nth (change_at 0 (λ k. h) l n) n ≡ some h
unfolding change_at
nth-change_at [] zero h = refl
nth-change_at [] (suc n) h = nth-change_at [] n h
nth-change_at (x ∷ l) zero h = refl
nth-change_at (x ∷ l) (suc n) h = nth-change_at l n h

canonize_blocks-last :
    (before : List WithHash) (x : WithHash) (s : InMemoryState)
    → canonical_hash (canonize_blocks (before ++ x ∷ []) s) x.inner.header.number ≡ some x.hash
unfolding canonize_blocks canonize_block canonical_hash
canonize_blocks-last [] x s = nth-change_at s.canonical_hashes x.inner.header.number x.hash
canonize_blocks-last (y ∷ before) x s =
    canonize_blocks-last before x (canonize_block y.inner.header.number y.hash s)

canonize_blocks-total :
    (chain : List WithHash) (s : InMemoryState)
    → (canonize_blocks chain s).difficulty ≡ s.difficulty
unfolding canonize_blocks canonize_block
canonize_blocks-total [] s = refl
canonize_blocks-total (x ∷ chain) s =
    canonize_blocks-total chain (canonize_block x.inner.header.number x.hash s)

decanonize_blocks-total :
    (more first : ℕ) (s : InMemoryState)
    → (decanonize_blocks more first s).difficulty ≡ s.difficulty
unfolding decanonize_blocks decanonize_block
decanonize_blocks-total zero first s = refl
decanonize_blocks-total (suc more) first s = decanonize_blocks-total more (suc first) s

same_total :
    (s t : InMemoryState) (n hash : ℕ)
    → t.difficulty ≡ s.difficulty
    → total_difficulty t n hash ≡ total_difficulty s n hash
unfolding total_difficulty
same_total s t n hash e = ap (λ m. look_up m n hash) e

unwrap-ok : (o : Option ℕ) (a : ℕ) → unwrap o ≡ ok a → o ≡ some a
unwrap-ok none a h = absurd (ground arith)
unwrap-ok (some b) a h = ground arith

-- What the three lookups of `insert_block` find.
difficulties-ok :
    (s : InMemoryState) (current n hash : ℕ) (d : ℕ × ℕ)
    → difficulties s current n hash ≡ ok d
    → (canonical : ℕ) × (canonical_hash s current ≡ some canonical)
      × (total_difficulty s current canonical ≡ some d.0)
      × (total_difficulty s n hash ≡ some d.1)
difficulties-ok s current n hash d h =
    let (canonical, first, rest) = bind-ok (unwrap (canonical_hash s current)) _ d h in
    let (c, second, more) = bind-ok (unwrap (total_difficulty s current canonical)) _ d rest in
    let (e, third, last) = bind-ok (unwrap (total_difficulty s n hash)) _ d more in
    (
      canonical,
      unwrap-ok _ _ first,
      unwrap-ok _ _ second ∙ ground arith,
      unwrap-ok _ _ third ∙ ground arith,
    )

module _ (engine : Engine) (env : Environment) (config : ChainSpec) where
  choose-ok :
      (block : Block) (hash ancestor current executed : ℕ) (before : List WithHash) (x : WithHash)
      (s u : InMemoryState)
      → x.inner.header.number ≡ block.header.number
      → x.hash ≡ hash
      → current ≡ current_canonical_block s
      → Keeps s u
      → (choose engine env config block hash ancestor current (before ++ x ∷ []) executed u).1
        ≡ ok tt
      → Choice s
          (choose engine env config block hash ancestor current (before ++ x ∷ []) executed u).0
          block.header.number
          hash
  unfolding choose InMemory.insert_block canonical_hash
  choose-ok block hash ancestor current executed before x s u number is_hash here kept h =
      found (difficulties u' current block.header.number hash) refl h
    where
      u' : InMemoryState
      u' = InMemory.insert_block block hash u

      chain : List WithHash
      chain = before ++ x ∷ []

      choice :
          (t : InMemoryState) (d : ℕ × ℕ)
          → difficulties u' current block.header.number hash ≡ ok d
          → t.difficulty ≡ u'.difficulty
          → ((d.0 < d.1) × (canonical_hash t block.header.number ≡ some hash))
            ⊎ ((d.1 ≤ d.0) × (t.canonical_hashes ≡ s.canonical_hashes))
          → Choice s t block.header.number hash
      choice t d is_r total chosen =
          let (canonical, first, second, third) =
            difficulties-ok u' current block.header.number hash d is_r in
          record {
            canonical = canonical;
            current_total = d.0;
            new_total = d.1;
            was_canonical =
                ap (canonical_hash s) (sym here)
                ∙ ap (λ (l : List ℕ). nth l current) (sym kept.canonical)
                ∙ first;
            current_is =
                ap (λ (n : ℕ). total_difficulty t n canonical) (sym here)
                ∙ same_total u' t current canonical total
                ∙ second;
            new_is = same_total u' t block.header.number hash total ∙ third;
            chosen = chosen;
          }

      next : ℕ × ℕ → Step
      next d =
          if ltb d.0 d.1
          then (adopt ancestor current chain u', ok tt)
          else go_back engine env config ancestor executed current u'

      found :
          (r : Result (ℕ × ℕ))
          → difficulties u' current block.header.number hash ≡ r
          → (with_found u' r next).1 ≡ ok tt
          → Choice s (with_found u' r next).0 block.header.number hash
      found (err e) is_r h = absurd (ground arith)
      found (ok d) is_r h = elim (Bool-cases (ltb d.0 d.1)) [
        | inl e ↦
            let t = adopt ancestor current chain u' in
            rw e (
              choice t d is_r (canonize_blocks-total chain _ ∙ decanonize_blocks-total _ _ u') (
                inl (
                  ltb→lt d.0 d.1 e,
                  ap (canonical_hash t) (sym number)
                      ∙ canonize_blocks-last before x _
                      ∙ ap some is_hash,
                )))
        | inr e ↦
            let k = go_back-Keeps engine env config ancestor executed current u' in
            rw e (
              choice (go_back engine env config ancestor executed current u').0 d is_r k.total
                (inr (ground (arith, e), k.canonical ∙ kept.canonical)))
      ]

  reject-err :
      (hash ancestor executed current : ℕ) (e : Error) (bc : Blockchain)
      → (reject engine env config hash ancestor executed current e bc).1 ≡ ok tt
      → ⊥
  unfolding reject
  reject-err hash ancestor executed current e bc h = of (downcast e) h
    where
      failed :
          (r : Result (Unit {0}))
          → let result : Result (Unit {0}) = elim r [ err x ↦ err x | ok done ↦ err e ] in
            result ≡ ok tt → ⊥
      failed (err x) h = ground arith
      failed (ok done) h = ground arith

      of :
          (o : Option ValidationError)
          → let out : Outcome = elim o [
            | none ↦ (bc, err e)
            | some error ↦
                let (s, result) = go_back engine env config ancestor executed current bc.state in
                (
                  record { state = s; bad_blocks = HashMap.insert bc.bad_blocks hash error },
                  elim result [ err x ↦ err x | ok done ↦ err e ],
                )
          ] in
            out.1 ≡ ok tt → ⊥
      of none h = ground arith
      of (some error) h = failed (go_back engine env config ancestor executed current bc.state).1 h

  -- The chain has been executed, from a state with the same canonical chain.
  conclude-Choice :
      (block : Block) (ancestor : ℕ) (before : List WithHash) (x : WithHash) (bc : Blockchain)
      (run : InMemoryState × ℕ × Result (Unit {0}))
      → x.inner.header.number ≡ block.header.number
      → x.hash ≡ env.hash block.header
      → Keeps bc.state run.0
      → let out : Outcome =
          conclude engine env config block
            (env.hash block.header)
            ancestor
            (current_canonical_block bc.state)
            (before ++ x ∷ [])
            bc
            run in
        out.1 ≡ ok tt → Choice bc.state out.0.state block.header.number (env.hash block.header)
  unfolding reject
  conclude-Choice block ancestor before x bc (u, executed, ok done) number is_hash kept h =
      choose-ok block (env.hash block.header) ancestor (current_canonical_block bc.state) executed
        before x bc.state u number is_hash refl kept h
  conclude-Choice block ancestor before x bc (u, executed, err e) number is_hash kept h = absurd (
      reject-err (env.hash block.header) ancestor executed (current_canonical_block bc.state) e
        (record bc { state = u }) h)

  extend-Choice :
      (block : Block) (check_state_root : Bool) (b : BlockWithSenders) (ancestor : ℕ)
      (bc : Blockchain)
      → b.header.number ≡ block.header.number
      → let out : Outcome = extend engine env config block check_state_root b ancestor bc in
        out.1 ≡ ok tt → Choice bc.state out.0.state block.header.number (env.hash block.header)
  unfolding extend
  extend-Choice block check_state_root b ancestor bc number h =
      unwound (unwind_last_changes ancestor current bc.state).1 h
    where
      current : ℕ
      current = current_canonical_block bc.state

      hash : ℕ
      hash = env.hash block.header

      s : InMemoryState
      s = (unwind_last_changes ancestor current bc.state).0

      run : List WithHash → Outcome
      run before =
          let chain = before ++ record { inner = b; hash = hash } ∷ [] in
          conclude engine env config block hash ancestor current chain bc
            (execute_chain engine env config check_state_root chain 0 s)

      chained :
          (r : Result (List WithHash))
          → let out : Outcome = elim r [
            | err e ↦ (record bc { state = s }, err e)
            | ok before ↦ run before
          ] in
            out.1 ≡ ok tt → Choice bc.state out.0.state block.header.number (env.hash block.header)
      chained (err e) h = absurd (ground arith)
      chained (ok before) h =
          let x : WithHash = record { inner = b; hash = hash } in
          conclude-Choice block ancestor before x bc
            (execute_chain engine env config check_state_root (before ++ x ∷ []) 0 s) number refl
            (Keeps-trans bc.state s _ (unwind_last_changes-Keeps ancestor current bc.state)
              (execute_chain-Keeps engine env config check_state_root (before ++ x ∷ []) 0 s))
            h

      unwound :
          (r : Result (Unit {0}))
          → let out : Outcome = elim r [
            | err e ↦ (bc, err e)
            | ok done ↦
                elim (intermediate_chain engine env config s
                  (sub64 b.header.number 1)
                  b.header.parent_hash
                  ancestor) [ err e ↦ (record bc { state = s }, err e) | ok before ↦ run before ]
          ] in
            out.1 ≡ ok tt → Choice bc.state out.0.state block.header.number (env.hash block.header)
      unwound (err e) h = absurd (ground arith)
      unwound (ok done) h =
          chained
            (intermediate_chain engine env config s (sub64 b.header.number 1) b.header.parent_hash
              ancestor)
            h

  -- When `insert_block` returns without an error, the new block and the block that was canonical have a
  -- total difficulty, and either the new block's is greater and its hash is canonical at its number, or
  -- it is not greater and no canonical hash has changed.
  pub insert_block-Choice :
      (block : Block) (check_state_root : Bool) (bc : Blockchain)
      → (insert_block engine env config block check_state_root bc).1 ≡ ok tt
      → Choice bc.state
          (insert_block engine env config block check_state_root bc).0.state
          block.header.number
          (env.hash block.header)
  unfolding insert_block
  insert_block-Choice block check_state_root bc h =
      prepared (prepare engine env config bc block) refl h
    where
      prepared :
          (r : Result (BlockWithSenders × ℕ))
          → prepare engine env config bc block ≡ r
          → let out : Outcome = elim r [
            | err e ↦ (bc, err e)
            | ok (b, ancestor) ↦ extend engine env config block check_state_root b ancestor bc
          ] in
            out.1 ≡ ok tt → Choice bc.state out.0.state block.header.number (env.hash block.header)
      prepared (err e) is_r h = absurd (ground arith)
      prepared (ok (b, ancestor)) is_r h =
          extend-Choice block check_state_root b ancestor bc
            (prepare-number engine env config bc block (b, ancestor) is_r) h
