-- ===== src/Models/ChainSpec/Bomb.antt =====
-- The delays of the difficulty bomb.
use akula.Prelude.{ℕ, ◌≤◌, ◌≡◌, refl, subst, true, some, List, [], ◌∷◌, arith}
use akula.BTreeMap.{BTreeMap, get, keys, mem, IsAscending, Above}
use akula.Models.ChainSpec.{DifficultyBomb, last_delay, get_delay_to}

-- No key of the map is at or below `block_number` unless it is at or below `k`.
abbrev pub NoneBetween : ℕ → ℕ → List ℕ → Type 0
NoneBetween k block_number l = (j : ℕ) → mem j l ≡ true → j ≤ block_number → j ≤ k

later :
    (k block_number : ℕ) (j : ℕ) (l : List ℕ)
    → NoneBetween k block_number (j ∷ l)
    → NoneBetween k block_number l
later k block_number j l last i i_in = last i (ground (arith, i_in))

last_delay-Above :
    (block_number last k : ℕ) (m : BTreeMap ℕ)
    → Above k (keys m)
    → NoneBetween k block_number (keys m)
    → last_delay block_number last m ≡ last
unfolding last_delay
last_delay-Above block_number last k [] above none_between = refl
last_delay-Above block_number last k ((j, d) ∷ m) (lt, above) none_between =
    let rest = later k block_number j (keys m) none_between in
    ground (arith, none_between j, last_delay-Above block_number last k m above rest)

last_delay_lem :
    (block_number last k d : ℕ) (m : BTreeMap ℕ)
    → IsAscending (keys m)
    → get m k ≡ some d
    → k ≤ block_number
    → NoneBetween k block_number (keys m)
    → last_delay block_number last m ≡ d
unfolding last_delay
last_delay_lem block_number last k d [] sorted found le none_between = ground arith
last_delay_lem block_number last k d ((j, e) ∷ m) (above, sorted) found le none_between =
    let rest = later k block_number j (keys m) none_between in
    ground (
      arith,
      λ (same : j ≡ k).
          last_delay-Above block_number e k m (subst (λ i. Above i (keys m)) same above) rest,
      λ (in_rest : get m k ≡ some d). last_delay_lem block_number e k d m sorted in_rest le rest,
      λ (in_rest : get m k ≡ some d). last_delay_lem block_number last k d m sorted in_rest le rest,
    )

-- The bomb's delay at a block is that of the last activation at or before the block, where there is one
-- and the map's keys are in order.
pub get_delay_to_lem :
    (bomb : DifficultyBomb) (block_number k d : ℕ)
    → IsAscending (keys bomb.delays)
    → get bomb.delays k ≡ some d
    → k ≤ block_number
    → NoneBetween k block_number (keys bomb.delays)
    → get_delay_to bomb block_number ≡ d
unfolding get_delay_to
get_delay_to_lem bomb block_number k d = last_delay_lem block_number 0 k d bomb.delays
