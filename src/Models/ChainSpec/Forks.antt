-- ===== src/Models/ChainSpec/Forks.antt =====
-- The revision of a block, and the blocks at which the rules change.
use akula.Prelude.{
  ℕ, ◌≤◌, ◌<◌, ◌≡◌, refl, ap, ◌∙◌, Bool, false, ◌||◌, Option, none, some, List, [], ◌∷◌, ◌++◌, ◌==◌,
  arith, if◌then◌else◌,
}
use akula.BTreeMap
use akula.BTreeMap.{mem, IsAscending}
use akula.Models.Revision.{Revision, Rank, IsChronological, frontier}
use akula.Models.ChainSpec.{
  ChainSpec, DifficultyBomb, SealVerificationParams, ethash, clique, latest_first, revision_loop,
  collect_block_spec, gather_seal_forks, gather_forks, iter, bomb_keys,
}

-- Every revision of the list is at most `r`.
abbrev AtMost : Rank → Revision → List (Option ℕ × Revision) → Type 0
AtMost rank r [] = Unit
AtMost rank r ((fork, q) ∷ l) = (rank q ≤ rank r) × AtMost rank r l

abbrev IsDescending : Rank → List (Option ℕ × Revision) → Type 0
IsDescending rank [] = Unit
IsDescending rank ((fork, r) ∷ l) = (rank frontier ≤ rank r) × AtMost rank r l × IsDescending rank l

revision_loop-AtMost :
    (rank : Rank) (n : ℕ) (r : Revision) (l : List (Option ℕ × Revision))
    → rank frontier ≤ rank r
    → AtMost rank r l
    → rank (revision_loop n frontier [] l).0 ≤ rank r
unfolding revision_loop
revision_loop-AtMost rank n r [] le at_most = le
revision_loop-AtMost rank n r ((none, q) ∷ l) le (first, at_most) =
    revision_loop-AtMost rank n r l le at_most
revision_loop-AtMost rank n r ((some f, q) ∷ l) le (first, at_most) =
    ground (arith, revision_loop-AtMost rank n r l le at_most)

revision_loop-monotone :
    (rank : Rank) (n m : ℕ) (l : List (Option ℕ × Revision))
    → IsDescending rank l
    → n ≤ m
    → rank (revision_loop n frontier [] l).0 ≤ rank (revision_loop m frontier [] l).0
unfolding revision_loop
revision_loop-monotone rank n m [] descending le = omega arith
revision_loop-monotone rank n m ((none, r) ∷ l) (from, at_most, descending) le =
    revision_loop-monotone rank n m l descending le
revision_loop-monotone rank n m ((some f, r) ∷ l) (from, at_most, descending) le = ground (
  arith,
  revision_loop-monotone rank n m l descending le,
  revision_loop-AtMost rank n r l from at_most,
)

latest_first-IsDescending :
    (rank : Rank) (spec : ChainSpec)
    → IsChronological rank
    → IsDescending rank (latest_first spec.upgrades)
latest_first-IsDescending rank spec order = ground (
  arith, order.to_homestead, order.to_tangerine, order.to_spurious, order.to_byzantium,
  order.to_constantinople, order.to_petersburg, order.to_istanbul, order.to_berlin, order.to_london,
)

-- A later block never has an earlier revision, in an order of the revisions that is the network's.
pub revision-monotone :
    (rank : Rank) (spec : ChainSpec) (n m : ℕ)
    → IsChronological rank
    → n ≤ m
    → rank (collect_block_spec spec n).revision ≤ rank (collect_block_spec spec m).revision
unfolding collect_block_spec
revision-monotone rank spec n m order =
    revision_loop-monotone rank n m (latest_first spec.upgrades)
      (latest_first-IsDescending rank spec order)

-- None of the forks of the list has a block at or below `n`.
abbrev pub NoneReached : ℕ → List (Option ℕ × Revision) → Type 0
NoneReached n [] = Unit
NoneReached n ((none, r) ∷ l) = NoneReached n l
NoneReached n ((some f, r) ∷ l) = (n < f) × NoneReached n l

revision_loop-finds :
    (n f : ℕ) (r : Revision) (before after : List (Option ℕ × Revision))
    → NoneReached n before
    → f ≤ n
    → revision_loop n frontier [] (before ++ (some f, r) ∷ after)
      ≡ (r, if n == f then r ∷ [] else [])
unfolding revision_loop
revision_loop-finds n f r [] after none_reached le = ground arith
revision_loop-finds n f r ((none, q) ∷ before) after none_reached le =
    revision_loop-finds n f r before after none_reached le
revision_loop-finds n f r ((some g, q) ∷ before) after (lt, none_reached) le =
    ground (arith, revision_loop-finds n f r before after none_reached le)

-- The latest fork that a block has reached gives the block its revision, and it is the only transition
-- of the block, if the block is the fork's own, and else the block has none.
pub collect_block_spec_lem :
    (spec : ChainSpec) (n f : ℕ) (r : Revision) (before after : List (Option ℕ × Revision))
    → latest_first spec.upgrades ≡ before ++ (some f, r) ∷ after
    → NoneReached n before
    → f ≤ n
    → ((collect_block_spec spec n).revision ≡ r)
      × ((collect_block_spec spec n).active_transitions ≡ (if n == f then r ∷ [] else []))
unfolding collect_block_spec
collect_block_spec_lem spec n f r before after forks none_reached le =
    let found =
      ap (revision_loop n frontier []) forks
      ∙ revision_loop-finds n f r before after none_reached le in
    (ap (λ p. p.0) found, ap (λ p. p.1) found)

-- Whether the rule of the option changes at `n`.
abbrev pub changes_at : Option ℕ → ℕ → Bool
changes_at none n = false
changes_at (some f) n = f == n

abbrev pub bomb_changes_at : Option DifficultyBomb → ℕ → Bool
bomb_changes_at none n = false
bomb_changes_at (some b) n = mem n (BTreeMap.keys b.delays)

abbrev pub seal_changes_at : SealVerificationParams → ℕ → Bool
seal_changes_at (clique period epoch) n = false
seal_changes_at (ethash limit reward homestead byzantium bomb skip) n =
    mem n (BTreeMap.keys reward)
    || changes_at homestead n
    || changes_at byzantium n
    || bomb_changes_at bomb n

-- Whether any of the rules of the chain changes at `n`.
abbrev pub rules_change_at : ChainSpec → ℕ → Bool
rules_change_at spec n =
    changes_at spec.upgrades.homestead n
    || changes_at spec.upgrades.tangerine n
    || changes_at spec.upgrades.spurious n
    || changes_at spec.upgrades.byzantium n
    || changes_at spec.upgrades.constantinople n
    || changes_at spec.upgrades.petersburg n
    || changes_at spec.upgrades.istanbul n
    || changes_at spec.upgrades.berlin n
    || changes_at spec.upgrades.london n
    || changes_at spec.consensus.eip1559_block n
    || seal_changes_at spec.consensus.seal_verification n
    || mem n (BTreeMap.keys spec.contracts)
    || mem n (BTreeMap.keys spec.balances)

mem-iter : (o : Option ℕ) (n : ℕ) → mem n (iter o) ≡ changes_at o n
mem-iter none n = refl
mem-iter (some f) n = ground arith

mem-bomb_keys : (b : Option DifficultyBomb) (n : ℕ) → mem n (bomb_keys b) ≡ bomb_changes_at b n
mem-bomb_keys none n = refl
mem-bomb_keys (some b) n = refl

gather_seal_forks-mem :
    (p : SealVerificationParams) (n : ℕ) → mem n (gather_seal_forks p) ≡ seal_changes_at p n
unfolding gather_seal_forks
gather_seal_forks-mem (clique period epoch) n = refl
gather_seal_forks-mem (ethash limit reward homestead byzantium bomb skip) n =
    simp (BTreeMap.mem-collect, BTreeMap.mem-append, mem-iter, mem-bomb_keys)

-- The forks of a chain are the blocks, other than the first, at which any of its rules changes, in
-- ascending order.
pub gather_forks_lem :
    (spec : ChainSpec) (n : ℕ)
    → BTreeMap.IsAscending (gather_forks spec)
      × (mem n (gather_forks spec) ≡ (if 0 == n then false else rules_change_at spec n))
unfolding gather_forks
gather_forks_lem spec n = (
  BTreeMap.remove-IsAscending 0 _ (BTreeMap.collect-IsAscending _),
  simp (
    BTreeMap.mem-remove, BTreeMap.mem-collect, BTreeMap.mem-append, mem-iter, gather_seal_forks-mem,
  ),
)
