-- ===== src/Consensus/Difficulty.antt =====
-- src/consensus/ethash/difficulty.rs. The words are 256 bits wide and wrap; the shift of a word to the
-- left, an operation of the crate of the words, is the parameter `shl`.
use akula.Prelude.{
  ℕ, ◌-◌, ◌+◌, ◌/◌, ◌*◌, Bool, true, false, Option, none, some, max, ltb, leb, if◌then◌else◌,
}
use akula.Prelude.Words.{sub64, add256, sub256, mul256}
pub mod Formula

-- `MIN_DIFFICULTY`
abbrev pub min_difficulty : ℕ
min_difficulty = 131_072

pub record BlockDifficultyBombData : Type 0 where
  pub delay_to : ℕ

-- The three branches, where `x` is the parent's difficulty over 2048.
unfoldable pub byzantium_difficulty : ℕ → ℕ → ℕ → Bool → ℕ
byzantium_difficulty parent_difficulty x elapsed parent_has_uncles =
    let difficulty = sub256 parent_difficulty (mul256 x 99) in
    let y = (if parent_has_uncles then 2 else 1) in
    let z = elapsed / 9 in
    if ltb z (99 + y) then add256 difficulty (mul256 (99 + y - z) x) else difficulty

unfoldable pub homestead_difficulty : ℕ → ℕ → ℕ → ℕ
homestead_difficulty parent_difficulty x elapsed =
    let difficulty = sub256 parent_difficulty (mul256 x 99) in
    let z = elapsed / 10 in if ltb z 100 then add256 difficulty (mul256 (100 - z) x) else difficulty

unfoldable pub frontier_difficulty : ℕ → ℕ → ℕ → ℕ
frontier_difficulty parent_difficulty x elapsed =
    if ltb elapsed 13 then add256 parent_difficulty x else sub256 parent_difficulty x

unfoldable pub formula_difficulty : (byzantium_formula homestead_formula : Bool) → ℕ → ℕ → Bool → ℕ
unfolding byzantium_difficulty homestead_difficulty frontier_difficulty
formula_difficulty true homestead_formula parent_difficulty elapsed parent_has_uncles =
    byzantium_difficulty parent_difficulty (parent_difficulty / 2048) elapsed parent_has_uncles
formula_difficulty false true parent_difficulty elapsed parent_has_uncles =
    homestead_difficulty parent_difficulty (parent_difficulty / 2048) elapsed
formula_difficulty false false parent_difficulty elapsed parent_has_uncles =
    frontier_difficulty parent_difficulty (parent_difficulty / 2048) elapsed

-- The difficulty bomb. A subtraction on ℕ saturates.
unfoldable pub add_bomb : (ℕ → ℕ → ℕ) → ℕ → Option BlockDifficultyBombData → ℕ → ℕ
add_bomb shl block_number none difficulty = difficulty
add_bomb shl block_number (some bomb_config) difficulty =
    let n = (block_number - bomb_config.delay_to) / 100_000 in
    if leb 2 n then add256 difficulty (shl 1 (n - 2)) else difficulty

unfoldable pub canonical_difficulty :
    (shl : ℕ → ℕ → ℕ) (block_number block_timestamp parent_difficulty parent_timestamp : ℕ)
    (parent_has_uncles byzantium_formula homestead_formula : Bool)
    → Option BlockDifficultyBombData
    → ℕ
unfolding formula_difficulty add_bomb
canonical_difficulty shl block_number block_timestamp parent_difficulty parent_timestamp
      parent_has_uncles byzantium_formula homestead_formula difficulty_bomb =
    let difficulty =
      formula_difficulty byzantium_formula homestead_formula parent_difficulty
        (sub64 block_timestamp parent_timestamp) parent_has_uncles in
    max (add_bomb shl block_number difficulty_bomb difficulty) min_difficulty
