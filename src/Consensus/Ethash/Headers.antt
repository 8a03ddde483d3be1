-- ===== src/Consensus/Ethash/Headers.antt =====
-- Which headers pass the proof-of-work engine's validation.
use akula.Prelude.{ℕ, ◌≡◌, ap, ◌∙◌, false, not, some, ◌==◌, arith}
use akula.Errors.{ValidationError, Result, ok, ok_or, bind-ok, bail_if-ok, ok_or-ok}
use akula.Models.Header.{BlockHeader}
use akula.Consensus.Base.{ChainReader, get_parent_header}
use akula.Consensus.Base
use akula.Consensus.Base.Headers.{IsValid, validate_block_header_lem}
use akula.Consensus.Ethash.{Ethash, expected_difficulty, validate_block_header}

-- A header that passes without the clock's check has a known parent, is valid for it, and states the
-- canonical difficulty.
pub validate_block_header-ok :
    (shl : ℕ → ℕ → ℕ) (engine : Ethash) (clock : Result ℕ) (state : ChainReader)
    (header : BlockHeader)
    → validate_block_header shl engine clock state header false ≡ ok tt
    → (parent : BlockHeader) × (get_parent_header state header ≡ ok (some parent))
      × IsValid engine.base header parent
      × (header.difficulty ≡ expected_difficulty shl engine clock state header parent)
unfolding validate_block_header
validate_block_header-ok shl engine clock state header h =
    let (found, read, h1) = bind-ok (get_parent_header state header) _ tt h in
    let (parent, some_parent, h2) = bind-ok (ok_or found _) _ tt h1 in
    let (u, valid, difficulty) =
      bind-ok (Base.validate_block_header engine.base clock header parent false) _ tt h2 in
    (
      parent,
      read ∙ ap ok (ok_or-ok found _ parent some_parent),
      (validate_block_header_lem engine.base clock header parent).0 valid,
      ground (
        arith,
        bail_if-ok
            (not (expected_difficulty shl engine clock state header parent == header.difficulty))
            ValidationError.wrong_difficulty difficulty,
      ),
    )
