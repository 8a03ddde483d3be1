-- ===== src/Consensus/Base/Fee.antt =====
-- How the base fee moves from a block to the next.
use akula.Prelude.{
  ℕ, ◌+◌, ◌-◌, ◌*◌, ◌/◌, ◌^◌, ◌≤◌, ◌<◌, ◌≡◌, refl, ap, some, max, arith, order_cases, ◌⊎◌, inl, inr,
  ◌∙◌,
}
use akula.Prelude.Words.{mul256}
use akula.Errors.{ok}
use akula.Models.Header.{BlockHeader}
use akula.Consensus.Base.{
  ConsensusEngineBase, raised_fee, lowered_fee, fee_after, fee_from, expected_base_fee_per_gas,
  div256,
}
use native.Mathlib.Nat.{mul-le-mul_left, div-le_of_le-mul, le_of_lt, mul_comm}

-- A share of at most the whole fee.
share-le : (fee part target : ℕ) → 0 < target → part ≤ target → fee * part / target ≤ fee
share-le fee part target pos le =
    div-le_of_le-mul target (omega (arith, mul-le-mul_left fee le, mul_comm fee target))

mul256-small : (fee part : ℕ) → fee < 2 ^ 192 → part < 2 ^ 63 → mul256 fee part ≡ fee * part
mul256-small fee part small gas = omega (arith, mul-le-mul_left fee (le_of_lt gas))

share_lem :
    (fee part target : ℕ)
    → fee < 2 ^ 192
    → part < 2 ^ 63
    → 0 < target
    → div256 (mul256 fee part) target ≡ ok (fee * part / target)
share_lem fee part target small gas pos = ground (arith, mul256-small fee part small gas)

-- The fee before and after: it moves by at most an eighth, or by one on the way up, and towards the
-- demand.
abbrev pub MovesTo : (fee target gas_used next : ℕ) → Type 0
MovesTo fee target gas_used next =
    (fee - fee / 8 ≤ next)
    × (next ≤ fee + max 1 (fee / 8))
    × (((gas_used < target) × (next ≤ fee))
        ⊎ (((gas_used ≡ target) × (next ≡ fee)) ⊎ ((target < gas_used) × (fee < next))))

raised_fee_lem :
    (fee target gas_used : ℕ)
    → fee < 2 ^ 192
    → gas_used < 2 ^ 63
    → target < gas_used
    → gas_used ≤ 2 * target
    → (next : ℕ) × (raised_fee fee target gas_used ≡ ok (some next))
      × MovesTo fee target gas_used next
unfolding raised_fee
raised_fee_lem fee target gas_used small gas more full = (
  fee + max 1 (fee * (gas_used - target) / target / 8),
  rw (share_lem fee (gas_used - target) target small (omega arith) (omega arith)) (
      ap (λ f. ok (some f))
        (omega (arith, share-le fee (gas_used - target) target (omega arith) (omega arith)))),
  (
    omega arith,
    omega (arith, share-le fee (gas_used - target) target (omega arith) (omega arith)),
    inr (inr (more, omega arith)),
  ),
)

lowered_fee_lem :
    (fee target gas_used : ℕ)
    → fee < 2 ^ 192
    → target < 2 ^ 63
    → gas_used < target
    → (next : ℕ) × (lowered_fee fee target gas_used ≡ ok (some next))
      × MovesTo fee target gas_used next
unfolding lowered_fee
lowered_fee_lem fee target gas_used small gas less = (
  fee - fee * (target - gas_used) / target / 8,
  rw (share_lem fee (target - gas_used) target small (omega arith) (omega arith)) refl,
  (
    omega (arith, share-le fee (target - gas_used) target (omega arith) (omega arith)),
    omega arith,
    inl (less, omega arith),
  ),
)

fee_after-raised :
    (parent : BlockHeader) (fee : ℕ)
    → parent.base_fee_per_gas ≡ some fee
    → parent.gas_limit / 2 < parent.gas_used
    → fee_after parent ≡ raised_fee fee (parent.gas_limit / 2) parent.gas_used
unfolding fee_after
fee_after-raised parent fee has_fee more = rw has_fee (ground arith)

fee_after-kept :
    (parent : BlockHeader) (fee : ℕ)
    → parent.base_fee_per_gas ≡ some fee
    → parent.gas_used ≡ parent.gas_limit / 2
    → fee_after parent ≡ ok (some fee)
unfolding fee_after
fee_after-kept parent fee has_fee same = rw has_fee (ground arith)

fee_after-lowered :
    (parent : BlockHeader) (fee : ℕ)
    → parent.base_fee_per_gas ≡ some fee
    → parent.gas_used < parent.gas_limit / 2
    → fee_after parent ≡ lowered_fee fee (parent.gas_limit / 2) parent.gas_used
unfolding fee_after
fee_after-lowered parent fee has_fee less = rw has_fee (ground arith)

fee_after_lem :
    (parent : BlockHeader) (fee : ℕ)
    → parent.base_fee_per_gas ≡ some fee
    → fee < 2 ^ 192
    → parent.gas_limit < 2 ^ 63
    → parent.gas_used ≤ 2 * (parent.gas_limit / 2)
    → (next : ℕ) × (fee_after parent ≡ ok (some next))
      × MovesTo fee (parent.gas_limit / 2) parent.gas_used next
fee_after_lem parent fee has_fee small limit full =
    let target = parent.gas_limit / 2 in
    elim (order_cases parent.gas_used target) [
      | inl less ↦
          let (next, e, moves) =
            lowered_fee_lem fee target parent.gas_used small (omega arith) less in
          (next, fee_after-lowered parent fee has_fee less ∙ e, moves)
      | inr (inl same) ↦ (
        fee,
        fee_after-kept parent fee has_fee same,
        (omega arith, omega arith, inr (inl (same, refl))),
      )
      | inr (inr more) ↦
          let (next, e, moves) =
            raised_fee_lem fee target parent.gas_used small (omega arith) more full in
          (next, fee_after-raised parent fee has_fee more ∙ e, moves)
    ]

fee_from-later :
    (fork : ℕ) (header parent : BlockHeader)
    → fork < header.number
    → fee_from (some fork) header parent ≡ fee_after parent
unfolding fee_from
fee_from-later fork header parent later = ground arith

-- After the fork block of EIP-1559, for a parent that used at most twice its gas target, the base fee is
-- computed without a panic and moves by at most an eighth (or by one, on the way up): up if the parent
-- used more than the target, and not up if it used less. The parent's fee is below 2^192 and its gas
-- limit below 2^63.
pub expected_base_fee_bounds :
    (engine : ConsensusEngineBase) (header parent : BlockHeader) (fork fee : ℕ)
    → engine.eip1559_block ≡ some fork
    → fork < header.number
    → parent.base_fee_per_gas ≡ some fee
    → fee < 2 ^ 192
    → parent.gas_limit < 2 ^ 63
    → parent.gas_used ≤ 2 * (parent.gas_limit / 2)
    → (next : ℕ) × (expected_base_fee_per_gas engine header parent ≡ ok (some next))
      × MovesTo fee (parent.gas_limit / 2) parent.gas_used next
unfolding expected_base_fee_per_gas
expected_base_fee_bounds engine header parent fork fee forked later has_fee small limit full =
    let (next, e, moves) = fee_after_lem parent fee has_fee small limit full in
    (
      next,
      ap (λ f. fee_from f header parent) forked ∙ fee_from-later fork header parent later ∙ e,
      moves,
    )
