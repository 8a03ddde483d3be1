-- ===== src/Consensus/Base/Blocks.antt =====
-- src/consensus/base.rs, `pre_validate_block`.
use akula.Prelude.{
  ℕ, ◌≤◌, ◌≡◌, ◌↔◌, refl, sym, ap, ◌∙◌, Bool, true, false, not, ◌&&◌, ◌||◌, Option, none, some,
  List, [], ◌∷◌, length, ltb, ◌==◌, if◌then◌else◌, arith,
}
use akula.Errors.{
  ValidationError, Error, Result, ok, err, validation, context, bail_if, ok_or, ◌>>=◌, ◌>>◌,
  bind-ok, bail_if-ok, ok_or-ok,
}
use akula.Models.Header.{BlockHeader}
use akula.Models.Header.Equality.{same}
use akula.Models.Message.{Message}
use akula.Models.Block.{Block, MessageWithSignature}
use akula.Consensus.Transaction.{pre_validate_transaction}
use akula.Consensus.Base.{
  ConsensusEngineBase, ChainReader, get_parent_header, validate_block_header, is_kin,
}
pub mod Passed

-- `Context::context`
abbrev pub in_context : ValidationError → Result (Unit {0}) → Result (Unit {0})
in_context c (ok u) = ok u
in_context c (err e) = err (context c e)

-- Two ommers that are the same.
abbrev pub is_pair : List BlockHeader → Bool
is_pair (a ∷ b ∷ []) = same a b
is_pair _ = false

abbrev pub contains : BlockHeader → List BlockHeader → Bool
contains ommer [] = false
contains ommer (oo ∷ old_ommers) = same oo ommer || contains ommer old_ommers

abbrev pub parent_of : ChainReader → BlockHeader → Result BlockHeader
parent_of state header = do
  parent ← get_parent_header state header
  ok_or parent (validation ValidationError.unknown_parent)

module _ (engine : ConsensusEngineBase) (clock : Result ℕ) (state : ChainReader) where
  unfoldable pub validate_ommer : BlockHeader → BlockHeader → BlockHeader → Result (Unit {0})
  validate_ommer header parent ommer = do
    ommer_parent ← parent_of state ommer
    in_context ValidationError.invalid_ommer_header
        (validate_block_header engine clock ommer ommer_parent false)
    found ← is_kin state ommer parent header.parent_hash 6 []
    bail_if (not found.0) ValidationError.not_an_ommer
    bail_if (contains ommer found.1) ValidationError.duplicate_ommer

  unfoldable pub validate_ommers : BlockHeader → BlockHeader → List BlockHeader → Result (Unit {0})
  unfolding validate_ommer
  validate_ommers header parent [] = ok tt
  validate_ommers header parent (ommer ∷ ommers) = do
    validate_ommer header parent ommer
    validate_ommers header parent ommers

  unfoldable pub validate_transactions : BlockHeader → List MessageWithSignature → Result (Unit {0})
  validate_transactions header [] = ok tt
  validate_transactions header (txn ∷ transactions) = do
    pre_validate_transaction txn.message engine.chain_id header.base_fee_per_gas
    validate_transactions header transactions

  unfoldable pub pre_validate_block :
      (ommers_hash : List BlockHeader → ℕ) (transactions_root : List MessageWithSignature → ℕ)
      → Block
      → Result (Unit {0})
  unfolding validate_ommers validate_transactions
  pre_validate_block ommers_hash transactions_root block =
      let header = block.header in
      do
        bail_if (not (header.ommers_hash == ommers_hash block.ommers))
            (ValidationError.wrong_ommers_hash (ommers_hash block.ommers) header.ommers_hash)
        bail_if (not (header.transactions_root == transactions_root block.transactions)) (
            ValidationError.wrong_transactions_root (transactions_root block.transactions)
              header.transactions_root)
        bail_if (ltb 2 (length block.ommers)) ValidationError.too_many_ommers
        bail_if (is_pair block.ommers) ValidationError.duplicate_ommer
        parent ← parent_of state header
        validate_ommers header parent block.ommers
        validate_transactions header block.transactions
