-- ===== src/Blockchain/Kept.antt =====
-- Blocks of src/consensus/blockchain.rs are executed and taken back without a change of the canonical
-- chain or of the total difficulties.
use akula.Prelude.{
  ℕ, zero, suc, ◌+◌, ◌≡◌, ◌∙◌, refl, sym, subst, Bool, false, not, ◌&&◌, List, [], ◌∷◌, ◌==◌, leb,
  Bool-cases, inl, inr,
}
use akula.Errors.{Result, ok, err, panicked, ◌>>=◌}
use akula.State.IntraBlock.Writes.{
  Write, begin_block, erase_storage, update_storage, update_account, update_code,
}
use akula.State.InMemory.{
  InMemoryState, map_at, erase, apply, apply_all, unwind_state_changes, canonical_hash,
}
use akula.State.InMemory.Erasing.{erase-nil, erase-cons}
use akula.Models.ChainSpec.{ChainSpec}
use akula.Consensus.Base.{unwrap}
use akula.Blockchain.{
  Engine, Environment, BlockWithSenders, WithHash, Step, after, with_found, writes_of, check_root,
  execute_block, execute_chain, unwind_blocks, unwind_last_changes, stored_block, re_execute_blocks,
  re_execute_canonical_chain, go_back,
}

pub record Keeps (s t : InMemoryState) : Type 0 where
  pub canonical : t.canonical_hashes ≡ s.canonical_hashes
  pub total : t.difficulty ≡ s.difficulty

pub Keeps-refl : (s : InMemoryState) → Keeps s s
Keeps-refl s = record { canonical = refl; total = refl }

pub Keeps-trans : (s t u : InMemoryState) → Keeps s t → Keeps t u → Keeps s u
Keeps-trans s t u h k = record { canonical = k.canonical ∙ h.canonical; total = k.total ∙ h.total }

erase-Keeps : (a : ℕ) (s : InMemoryState) → Keeps s (erase a s)
erase-Keeps a s = split (map_at s.storage a).entries refl
  where
    split : (l : List (ℕ × ℕ)) → (map_at s.storage a).entries ≡ l → Keeps s (erase a s)
    split [] e = subst (Keeps s) (sym (erase-nil a s e)) (record { canonical = refl; total = refl })
    split (y ∷ rest) e =
        subst (Keeps s) (sym (erase-cons a s y rest e)) (record { canonical = refl; total = refl })

apply-Keeps : (w : Write) (s : InMemoryState) → Keeps s (apply w s)
unfolding apply
apply-Keeps (begin_block n) s = record { canonical = refl; total = refl }
apply-Keeps (erase_storage a) s = erase-Keeps a s
apply-Keeps (update_storage a k initial current) s = record { canonical = refl; total = refl }
apply-Keeps (update_account a initial current) s = record { canonical = refl; total = refl }
apply-Keeps (update_code h code) s = record { canonical = refl; total = refl }

apply_all-Keeps : (ws : List Write) (s : InMemoryState) → Keeps s (apply_all ws s)
unfolding apply_all
apply_all-Keeps [] s = Keeps-refl s
apply_all-Keeps (w ∷ ws) s =
    Keeps-trans s (apply w s) (apply_all ws (apply w s)) (apply-Keeps w s)
      (apply_all-Keeps ws (apply w s))

unwind-Keeps : (n : ℕ) (s : InMemoryState) → Keeps s (unwind_state_changes n s)
unfolding unwind_state_changes
unwind-Keeps n s = record { canonical = refl; total = refl }

unwind_blocks-Keeps : (more n : ℕ) (s : InMemoryState) → Keeps s (unwind_blocks more n s)
unfolding unwind_blocks
unwind_blocks-Keeps zero n s = Keeps-refl s
unwind_blocks-Keeps (suc more) n s =
    Keeps-trans s (unwind_blocks more (suc n) s) _ (unwind_blocks-Keeps more (suc n) s)
      (unwind-Keeps n (unwind_blocks more (suc n) s))

pub unwind_last_changes-Keeps :
    (ancestor tip : ℕ) (s : InMemoryState) → Keeps s (unwind_last_changes ancestor tip s).0
unfolding unwind_last_changes
unwind_last_changes-Keeps ancestor tip s = elim (Bool-cases (leb ancestor tip)) [
  | inl e ↦ rw e (unwind_blocks-Keeps _ _ s)
  | inr e ↦ rw e (Keeps-refl s)
]

after-Keeps :
    (s : InMemoryState) (first : Step) (next : InMemoryState → Step)
    → Keeps s first.0
    → ((t : InMemoryState) → Keeps t (next t).0)
    → Keeps s (after first next).0
after-Keeps s (t, err e) next h k = h
after-Keeps s (t, ok done) next h k = Keeps-trans s t (next t).0 h (k t)

with_found-Keeps :
    {A : Type 0} (s t : InMemoryState) (r : Result A) (next : A → Step)
    → Keeps s t
    → ((a : A) → Keeps s (next a).0)
    → Keeps s (with_found t r next).0
with_found-Keeps s t (err e) next h k = h
with_found-Keeps s t (ok a) next h k = k a

module _ (engine : Engine) (env : Environment) (config : ChainSpec) where
  check_root-Keeps :
      (block : BlockWithSenders) (check : Bool) (s : InMemoryState)
      → Keeps s (check_root engine env config block check s).0
  unfolding check_root
  check_root-Keeps block check s =
      elim (Bool-cases (check && not (env.state_root_hash s == block.header.state_root))) [
        | inl e ↦ rw e (unwind-Keeps block.header.number s)
        | inr e ↦ rw e (Keeps-refl s)
      ]

  pub execute_block-Keeps :
      (block : BlockWithSenders) (check : Bool) (s : InMemoryState)
      → Keeps s (execute_block engine env config block check s).0
  unfolding execute_block
  execute_block-Keeps block check s = of (writes_of engine env config s block)
    where
      of :
          (r : Result (List Write))
          → let ended : Step = elim r [
            | err e ↦ (s, err e)
            | ok writes ↦ check_root engine env config block check (apply_all writes s)
          ] in
            Keeps s ended.0
      of (err e) = Keeps-refl s
      of (ok writes) =
          Keeps-trans s (apply_all writes s) _ (apply_all-Keeps writes s)
            (check_root-Keeps block check (apply_all writes s))

  pub execute_chain-Keeps :
      (check : Bool) (chain : List WithHash) (executed : ℕ) (s : InMemoryState)
      → Keeps s (execute_chain engine env config check chain executed s).0
  unfolding execute_chain
  execute_chain-Keeps check [] executed s = Keeps-refl s
  execute_chain-Keeps check (x ∷ chain) executed s =
      let (t, r) = execute_block engine env config x.inner check s in
      of t (execute_block-Keeps x.inner check s) (execute_chain-Keeps check chain (suc executed) t)
        r
    where
      of :
          (t : InMemoryState)
          → Keeps s t
          → Keeps t (execute_chain engine env config check chain (suc executed) t).0
          → (r : Result (Unit {0}))
          → let ended : InMemoryState × ℕ × Result (Unit {0}) = elim r [
            | err e ↦ (t, executed, err e)
            | ok done ↦ execute_chain engine env config check chain (suc executed) t
          ] in
            Keeps s ended.0
      of t h k (err e) = h
      of t h k (ok done) =
          Keeps-trans s t (execute_chain engine env config check chain (suc executed) t).0 h k

  re_execute_blocks-Keeps :
      (more n : ℕ) (s : InMemoryState) → Keeps s (re_execute_blocks engine env config more n s).0
  unfolding re_execute_blocks
  re_execute_blocks-Keeps zero n s = Keeps-refl s
  re_execute_blocks-Keeps (suc more) n s =
      let again = re_execute_blocks-Keeps more (suc n) in
      with_found-Keeps s s (unwrap (canonical_hash s n) >>= stored_block engine env config s n) _
        (Keeps-refl s)
        (λ block.
          let (t, r) = execute_block engine env config block false s in
          of t (execute_block-Keeps block false s) (again t) r)
    where
      of :
          (t : InMemoryState)
          → Keeps s t
          → Keeps t (re_execute_blocks engine env config more (suc n) t).0
          → (r : Result (Unit {0}))
          → let ended : Step = elim r [
            | err e ↦ (t, err panicked)
            | ok done ↦ re_execute_blocks engine env config more (suc n) t
          ] in
            Keeps s ended.0
      of t h k (err e) = h
      of t h k (ok done) =
          Keeps-trans s t (re_execute_blocks engine env config more (suc n) t).0 h k

  re_execute-Keeps :
      (ancestor tip : ℕ) (s : InMemoryState)
      → Keeps s (re_execute_canonical_chain engine env config ancestor tip s).0
  unfolding re_execute_canonical_chain
  re_execute-Keeps ancestor tip s = elim (Bool-cases (leb ancestor tip)) [
    | inl e ↦ rw e (re_execute_blocks-Keeps _ _ s)
    | inr e ↦ rw e (Keeps-refl s)
  ]

  pub go_back-Keeps :
      (ancestor executed current : ℕ) (s : InMemoryState)
      → Keeps s (go_back engine env config ancestor executed current s).0
  unfolding go_back
  go_back-Keeps ancestor executed current s =
      after-Keeps s (unwind_last_changes ancestor (ancestor + executed) s) _
        (unwind_last_changes-Keeps ancestor (ancestor + executed) s)
        (re_execute-Keeps ancestor current)
