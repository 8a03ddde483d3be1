-- ===== src/Consensus/Base/Headers.antt =====
-- Which headers pass the validation against a parent.
use akula.Prelude.{
  ℕ, ◌+◌, ◌-◌, ◌/◌, ◌^◌, ◌≤◌, ◌<◌, ◌≡◌, ◌↔◌, false, not, Option, length, ltb, leb, arith,
}
use akula.Errors.{ValidationError, wrong_base_fee, Result, ok, err, bail_if, ◌>>=◌, ◌>>◌}
use akula.Models.Header.{BlockHeader}
use akula.Models.Header.Equality.{same_fee, same_fee→eq, same_fee_self}
use akula.Consensus.Base.{
  ConsensusEngineBase, limit_from, distance, validate_block_header, expected_base_fee_per_gas,
}

-- The validity of a header in the yellow paper, section 4.3.4, with the rules of EIP-1559.
pub record IsValid (engine : ConsensusEngineBase) (header parent : BlockHeader) : Type 0 where
  pub gas_fits : header.gas_used ≤ header.gas_limit
  pub limit_min : 5000 ≤ header.gas_limit
  pub limit_max : header.gas_limit < 2 ^ 63
  pub extra_data_short : length header.extra_data ≤ 32
  pub is_later : parent.timestamp < header.timestamp
  pub limit_moves :
      let limit = limit_from engine.eip1559_block header.number parent.gas_limit in
      (header.gas_limit < limit + limit / 1024) × (limit < header.gas_limit + limit / 1024)
  pub has_fee : expected_base_fee_per_gas engine header parent ≡ ok header.base_fee_per_gas

-- The last two lines of the validation.
fee_check :
    (expected : Result (Option ℕ)) (got : Option ℕ)
    → ((expected >>= λ fee. bail_if (not (same_fee got fee)) (wrong_base_fee fee got)) ≡ ok tt)
      ↔ (expected ≡ ok got)
fee_check (err e) got = ground arith
fee_check (ok fee) got = ground (arith, same_fee→eq got fee, same_fee_self got)

module _ (header parent : BlockHeader) (limit : ℕ) where
  -- The six tests between the clock and the base fee.
  checks_lem :
      (u v w x y z : ValidationError) (k : Result (Unit {0}))
      → ((do
        bail_if (ltb header.gas_limit header.gas_used) u
        bail_if (ltb header.gas_limit 5000) v
        bail_if (ltb (2 ^ 63 - 1) header.gas_limit) w
        bail_if (ltb 32 (length header.extra_data)) x
        bail_if (leb header.timestamp parent.timestamp) y
        bail_if (leb (limit / 1024) (distance header.gas_limit limit)) z
        k)
          ≡ ok tt)
        ↔ ((header.gas_used ≤ header.gas_limit)
            × (5000 ≤ header.gas_limit)
            × (header.gas_limit < 2 ^ 63)
            × (length header.extra_data ≤ 32)
            × (parent.timestamp < header.timestamp)
            × (header.gas_limit < limit + limit / 1024)
            × (limit < header.gas_limit + limit / 1024)
            × (k ≡ ok tt))
  checks_lem u v w x y z k = ground arith

-- Without the check against the clock, a header passes exactly if it is valid for its parent: its gas
-- fits its limit, the limit is in its range and near the parent's, the extra data is short, the time
-- is later than the parent's, and the base fee is the expected one.
pub validate_block_header_lem :
    (engine : ConsensusEngineBase) (clock : Result ℕ) (header parent : BlockHeader)
    → (validate_block_header engine clock header parent false ≡ ok tt)
      ↔ IsValid engine header parent
unfolding validate_block_header
validate_block_header_lem engine clock header parent =
    let limit = limit_from engine.eip1559_block header.number parent.gas_limit in
    let fee = fee_check (expected_base_fee_per_gas engine header parent) header.base_fee_per_gas in
    (
      λ passed.
          let (gas, low, high, extra, time, up, down, paid) =
            (checks_lem header parent limit _ _ _ _ _ _ _).0 passed in
          record {
            gas_fits = gas;
            limit_min = low;
            limit_max = high;
            extra_data_short = extra;
            is_later = time;
            limit_moves = (up, down);
            has_fee = fee.0 paid;
          },
      λ valid. (checks_lem header parent limit _ _ _ _ _ _ _).1 (
        valid.gas_fits,
        valid.limit_min,
        valid.limit_max,
        valid.extra_data_short,
        valid.is_later,
        valid.limit_moves.0,
        valid.limit_moves.1,
        fee.1 valid.has_fee,
      ),
    )
