-- ===== src/Consensus/Ethash/Rewards.antt =====
-- The rewards of a block.
use akula.Prelude.{
  ℕ, suc, ◌+◌, ◌-◌, ◌*◌, ◌/◌, ◌%◌, ◌^◌, ◌≤◌, ◌<◌, ◌≡◌, ap, ◌∙◌, List, [], ◌∷◌, ◌++◌, map, length,
  arith,
}
use akula.Prelude.Words.{u128_mod, add64, sub64, mul256}
use akula.Models.Header.{BlockHeader, PartialHeader}
use akula.Models.Revision.{Revision, Rank}
use akula.Consensus.Ethash.{FinalizationChange, reward, base_reward, reward_loop, finalize}
use native.Mathlib.Nat.{mul-le-mul_right, suc-mul}

-- An ommer is at most eight generations older than the block.
abbrev pub AllNear : ℕ → List BlockHeader → Type 0
AllNear n [] = Unit
AllNear n (ommer ∷ l) = (ommer.number ≤ n) × (n ≤ ommer.number + 8) × AllNear n l

-- The yellow paper's reward of an ommer, of the block reward `r`, at `n`.
abbrev pub ommer_reward : ℕ → ℕ → BlockHeader → FinalizationChange
ommer_reward r n ommer = reward ommer.beneficiary ((8 - (n - ommer.number)) * r / 8)

eighths-eq : (n u : ℕ) → n < 2 ^ 63 → u ≤ n → n ≤ u + 8 → sub64 (add64 8 u) n ≡ 8 - (n - u)
eighths-eq n u low le near = omega arith

share_lem :
    (r n u : ℕ)
    → r < 2 ^ 100
    → n < 2 ^ 63
    → u ≤ n
    → n ≤ u + 8
    → mul256 (sub64 (add64 8 u) n) r / 8 ≡ (8 - (n - u)) * r / 8
share_lem r n u small low le near =
    let k = 8 - (n - u) in
    ap (λ j. mul256 j r / 8) (eighths-eq n u low le near)
    ∙ ap (λ p. p / 8) (omega (arith, mul-le-mul_right {m = k} {n = 8} r (omega arith)))

reward_loop_lem :
    (r n beneficiary miner : ℕ) (l : List BlockHeader)
    → r < 2 ^ 100
    → n < 2 ^ 63
    → miner + length l * (r / 32) < u128_mod
    → AllNear n l
    → reward_loop r n beneficiary miner l
      ≡ map (ommer_reward r n) l ++ reward beneficiary (miner + length l * (r / 32)) ∷ []
unfolding reward_loop
reward_loop_lem r n beneficiary miner [] small low fits near =
    ap (λ m. reward beneficiary m ∷ []) (omega arith)
reward_loop_lem r n beneficiary miner (ommer ∷ l) small low fits (le, ge, near) =
    let step = suc-mul (length l) (r / 32) in
    let wraps : (miner + r / 32) % u128_mod ≡ miner + r / 32 = omega (arith, step) in
    let sums : miner + r / 32 + length l * (r / 32) ≡ miner + suc (length l) * (r / 32) =
      omega (arith, step) in
    ap
      (λ m.
        reward ommer.beneficiary m ∷ reward_loop r n beneficiary ((miner + r / 32) % u128_mod) l)
      (share_lem r n ommer.number small low le ge)
    ∙ ap (λ t. ommer_reward r n ommer ∷ t)
        (ap (λ m. reward_loop r n beneficiary m l) wraps
          ∙ reward_loop_lem r n beneficiary (miner + r / 32) l small low (omega (arith, step)) near
          ∙ ap (λ m. map (ommer_reward r n) l ++ reward beneficiary m ∷ []) sums)

base_reward-bound : (rank : Rank) (revision : Revision) → base_reward rank revision < 2 ^ 63
base_reward-bound rank revision = ground arith

-- The block's reward is the yellow paper's: an ommer that is k generations older gets (8 - k) eighths
-- of the block reward, and the miner gets the block reward and a 32nd of it for each ommer. That is for
-- at most two ommers, none newer than the block or more than eight generations older, and a block
-- number below 2^63.
pub finalize_lem :
    (rank : Rank) (header : PartialHeader) (ommers : List BlockHeader) (revision : Revision)
    → header.number < 2 ^ 63
    → length ommers ≤ 2
    → AllNear header.number ommers
    → let r = base_reward rank revision in
      finalize rank header ommers revision
      ≡ map (ommer_reward r header.number) ommers
        ++ reward header.beneficiary (r + length ommers * (r / 32)) ∷ []
unfolding finalize
finalize_lem rank header ommers revision low few near =
    let r = base_reward rank revision in
    let small = base_reward-bound rank revision in
    reward_loop_lem r header.number header.beneficiary r ommers (omega arith) low
      (omega (arith, mul-le-mul_right {m = length ommers} {n = 2} (r / 32) few)) near
