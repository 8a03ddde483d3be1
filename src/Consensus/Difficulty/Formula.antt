-- ===== src/Consensus/Difficulty/Formula.antt =====
-- The difficulty by the formula of the yellow paper, without its negative numbers.
use akula.Prelude.{
  ℕ, ◌-◌, ◌+◌, ◌/◌, ◌*◌, ◌^◌, ◌≤◌, ◌<◌, ◌≡◌, ap, ◌∙◌, Bool, true, false, Option, none, some, min,
  max, ltb, leb, if◌then◌else◌, arith,
}
use akula.Prelude.Words.{u64_mod, add256, sub256, mul256}
use akula.Consensus.Difficulty.{
  BlockDifficultyBombData, formula_difficulty, byzantium_difficulty, homestead_difficulty,
  frontier_difficulty, add_bomb, canonical_difficulty, min_difficulty,
}
use native.Mathlib.Nat.{le_of_lt, mul-sub, mul-add, mul-le-mul_left, mul_comm, pow-le-pow_right}

-- The steps up and down, in parts of a 2048th of the parent's difficulty: max(y - z, -99) is y - min(z, y + 99).
abbrev pub up : (byzantium homestead uncles : Bool) → ℕ
up true homestead uncles = if uncles then 2 else 1
up false homestead uncles = 1

abbrev pub down : (byzantium homestead uncles : Bool) → ℕ → ℕ
down true homestead true elapsed = min (elapsed / 9) 101
down true homestead false elapsed = min (elapsed / 9) 100
down false true uncles elapsed = min (elapsed / 10) 100
down false false uncles elapsed = if ltb elapsed 13 then 0 else 2

-- The exponential term.
abbrev pub epsilon : ℕ → Option BlockDifficultyBombData → ℕ
epsilon block_number none = 0
epsilon block_number (some bomb) =
    let n = (block_number - bomb.delay_to) / 100_000 in if leb 2 n then 2 ^ (n - 2) else 0

-- What the two later formulas share: 99 steps down and then as many up as the time leaves.
abbrev stepped : ℕ → ℕ → ℕ → ℕ → ℕ
stepped d x y z =
    let difficulty = sub256 d (mul256 x 99) in
    if ltb z (99 + y) then add256 difficulty (mul256 (99 + y - z) x) else difficulty

min-left : (z k : ℕ) → z < k → min z k ≡ z
min-left z k lt = omega arith

min-right : (z k : ℕ) → k ≤ z → min z k ≡ k
min-right z k le = omega arith

mul-min-left : (x z k : ℕ) → z < k → x * min z k ≡ x * z
mul-min-left x z k lt = ap (λ m. x * m) (min-left z k lt)

mul-min-right : (x z k : ℕ) → k ≤ z → x * min z k ≡ x * k
mul-min-right x z k le = ap (λ m. x * m) (min-right z k le)

stepped_lem :
    (d x y z : ℕ)
    → d < 2 ^ 254
    → x * 2048 ≤ d
    → y ≤ 2
    → stepped d x y z ≡ d + x * y - x * min z (99 + y)
stepped_lem d x y z small part le = ground (
  arith,
  mul_comm (99 + y - z) x,
  mul-sub x (99 + y) z,
  mul-add x 99 y,
  mul-le-mul_left x le,
  λ (lt : z < 99 + y). mul-le-mul_left x (le_of_lt lt),
  mul-min-left x z (99 + y),
  mul-min-right x z (99 + y),
)

byzantium_difficulty_lem :
    (d elapsed : ℕ) (homestead uncles : Bool)
    → d < 2 ^ 254
    → byzantium_difficulty d (d / 2048) elapsed uncles
      ≡ d + d / 2048 * up true homestead uncles - d / 2048 * down true homestead uncles elapsed
unfolding byzantium_difficulty
byzantium_difficulty_lem d elapsed homestead true small =
    stepped_lem d (d / 2048) 2 (elapsed / 9) small (omega arith) (omega arith)
byzantium_difficulty_lem d elapsed homestead false small =
    stepped_lem d (d / 2048) 1 (elapsed / 9) small (omega arith) (omega arith)

homestead_difficulty_lem :
    (d elapsed : ℕ) (uncles : Bool)
    → d < 2 ^ 254
    → homestead_difficulty d (d / 2048) elapsed
      ≡ d + d / 2048 * up false true uncles - d / 2048 * down false true uncles elapsed
unfolding homestead_difficulty
homestead_difficulty_lem d elapsed uncles small =
    stepped_lem d (d / 2048) 1 (elapsed / 10) small (omega arith) (omega arith)

frontier_difficulty_lem :
    (d elapsed : ℕ) (uncles : Bool)
    → d < 2 ^ 254
    → frontier_difficulty d (d / 2048) elapsed
      ≡ d + d / 2048 * up false false uncles - d / 2048 * down false false uncles elapsed
unfolding frontier_difficulty
frontier_difficulty_lem d elapsed uncles small = ground arith

-- The difficulty before the bomb.
abbrev pub base_difficulty : (byzantium homestead uncles : Bool) → ℕ → ℕ → ℕ
base_difficulty byzantium homestead uncles d elapsed =
    d
    + d / 2048 * up byzantium homestead uncles
    - d / 2048 * down byzantium homestead uncles elapsed

formula_difficulty_lem :
    (byzantium homestead uncles : Bool) (d elapsed : ℕ)
    → d < 2 ^ 254
    → formula_difficulty byzantium homestead d elapsed uncles
      ≡ base_difficulty byzantium homestead uncles d elapsed
unfolding formula_difficulty
formula_difficulty_lem true homestead uncles d elapsed =
    byzantium_difficulty_lem d elapsed homestead uncles
formula_difficulty_lem false true uncles d elapsed = homestead_difficulty_lem d elapsed uncles
formula_difficulty_lem false false uncles d elapsed = frontier_difficulty_lem d elapsed uncles

up-le : (byzantium homestead uncles : Bool) → up byzantium homestead uncles ≤ 2
up-le true homestead true = omega arith
up-le true homestead false = omega arith
up-le false homestead uncles = omega arith

base_difficulty-bound :
    (byzantium homestead uncles : Bool) (d elapsed : ℕ)
    → d < 2 ^ 254
    → base_difficulty byzantium homestead uncles d elapsed < 2 ^ 255
base_difficulty-bound byzantium homestead uncles d elapsed small =
    omega (arith, mul-le-mul_left (d / 2048) (up-le byzantium homestead uncles))

-- `U256::ONE << n` is a power of two while the bit stays inside the word.
abbrev pub Shifts : (ℕ → ℕ → ℕ) → Type 0
Shifts shl = (n : ℕ) → n < 256 → shl 1 n ≡ 2 ^ n

module _ (shl : ℕ → ℕ → ℕ) (shifts : Shifts shl) where
  add_bomb_lem :
      (block_number difficulty : ℕ) (bomb : Option BlockDifficultyBombData)
      → block_number < 25_600_000
      → difficulty < 2 ^ 255
      → add_bomb shl block_number bomb difficulty ≡ difficulty + epsilon block_number bomb
  unfolding add_bomb
  add_bomb_lem block_number difficulty none low small = omega arith
  add_bomb_lem block_number difficulty (some bomb) low small =
      let n = (block_number - bomb.delay_to) / 100_000 in
      ground (
        arith,
        shifts (n - 2) (omega arith),
        pow-le-pow_right {n = 2} (omega arith) {i = n - 2} {j = 253} (omega arith),
      )

  -- The difficulty is the yellow paper's: the parent's, with steps of a 2048th part of it up and
  -- down for the time between the blocks and the parent's uncles, and the bomb's power of two, but
  -- at least the minimum. With a shift that gives powers of two, no word of the computation wraps
  -- for a parent's difficulty below 2^254, times in order and a block number below 25,600,000.
  pub canonical_difficulty_lem :
      (block_number timestamp difficulty parent_timestamp : ℕ) (uncles byzantium homestead : Bool)
      (bomb : Option BlockDifficultyBombData)
      → difficulty < 2 ^ 254
      → parent_timestamp ≤ timestamp
      → timestamp < u64_mod
      → block_number < 25_600_000
      → canonical_difficulty shl block_number timestamp difficulty parent_timestamp uncles byzantium
          homestead bomb
        ≡ max
            (base_difficulty byzantium homestead uncles difficulty (timestamp - parent_timestamp)
              + epsilon block_number bomb)
            min_difficulty
  unfolding canonical_difficulty
  canonical_difficulty_lem block_number timestamp difficulty parent_timestamp uncles byzantium
        homestead bomb small ordered time low =
      let elapsed = timestamp - parent_timestamp in
      let base = base_difficulty byzantium homestead uncles difficulty elapsed in
      ap
        (λ e.
          max
            (add_bomb shl block_number bomb
              (formula_difficulty byzantium homestead difficulty e uncles))
            min_difficulty)
        (omega arith)
      ∙ ap (λ d. max (add_bomb shl block_number bomb d) min_difficulty)
          (formula_difficulty_lem byzantium homestead uncles difficulty elapsed small)
      ∙ ap (λ d. max d min_difficulty)
          (add_bomb_lem block_number base bomb low
            (base_difficulty-bound byzantium homestead uncles difficulty elapsed small))
