-- ===== src/Consensus/Base/Blocks/Passed.antt =====
-- What a block that passes `pre_validate_block` has.
use akula.Prelude.{
  ℕ, ◌≤◌, ◌≡◌, sym, ap, ◌∙◌, false, not, some, List, [], ◌∷◌, length, ltb, ◌==◌, arith,
}
use akula.Errors.{
  ValidationError, Result, ok, err, bail_if, bind-ok, bail_if-ok, bail_if-then, ok_or-ok,
}
use akula.Models.Header.{BlockHeader}
use akula.Models.Block.{Block, MessageWithSignature}
use akula.Consensus.Transaction.{pre_validate_transaction}
use akula.Consensus.Base.{
  ConsensusEngineBase, ChainReader, get_parent_header, validate_block_header, is_kin,
}
use akula.Consensus.Base.Headers.{IsValid, validate_block_header_lem}
use akula.Consensus.Base.Ommers.{IsKin, is_kin-IsKin}
use akula.Consensus.Base.Blocks.{
  in_context, is_pair, contains, parent_of, validate_ommer, validate_ommers, validate_transactions,
  pre_validate_block,
}

-- What the validation asks of an ommer, in a block whose parent is `parent`.
pub record IsOmmer (engine : ConsensusEngineBase) (state : ChainReader) (hash : ℕ)
    (parent ommer : BlockHeader) : Type 0 where
  pub own_parent : BlockHeader
  pub has_parent : get_parent_header state ommer ≡ ok (some own_parent)
  pub valid : IsValid engine ommer own_parent
  pub ommers : List BlockHeader
  pub kin : IsKin state ommer 6 parent hash ommers
  pub is_new : contains ommer ommers ≡ false

abbrev pub AllOmmers :
    ConsensusEngineBase → ChainReader → ℕ → BlockHeader → List BlockHeader → Type 0
AllOmmers engine state hash parent [] = Unit
AllOmmers engine state hash parent (ommer ∷ l) =
    IsOmmer engine state hash parent ommer × AllOmmers engine state hash parent l

-- The transactions all pass.
abbrev pub AllPass : ConsensusEngineBase → BlockHeader → List MessageWithSignature → Type 0
AllPass engine header [] = Unit
AllPass engine header (txn ∷ l) =
    (pre_validate_transaction txn.message engine.chain_id header.base_fee_per_gas ≡ ok tt)
    × AllPass engine header l

in_context-ok : (c : ValidationError) (r : Result (Unit {0})) → in_context c r ≡ ok tt → r ≡ ok tt
in_context-ok c (ok u) h = h
in_context-ok c (err e) h = ground arith

parent_of-ok :
    (state : ChainReader) (header parent : BlockHeader)
    → parent_of state header ≡ ok parent
    → get_parent_header state header ≡ ok (some parent)
parent_of-ok state header parent h =
    let (found, read, some_parent) = bind-ok (get_parent_header state header) _ parent h in
    read ∙ ap ok (ok_or-ok found _ parent some_parent)

module _ (engine : ConsensusEngineBase) (clock : Result ℕ) (state : ChainReader) where
  validate_ommer-ok :
      (header parent ommer : BlockHeader)
      → validate_ommer engine clock state header parent ommer ≡ ok tt
      → IsOmmer engine state header.parent_hash parent ommer
  unfolding validate_ommer
  validate_ommer-ok header parent ommer h =
      let (own, has_own, h1) = bind-ok (parent_of state ommer) _ tt h in
      let (u, checked, h2) =
        bind-ok
          (in_context ValidationError.invalid_ommer_header
            (validate_block_header engine clock ommer own false))
          _ tt h1 in
      let ((is, old), searched, h3) =
        bind-ok (is_kin state ommer parent header.parent_hash 6 []) _ tt h2 in
      let (v, kin, new) = bind-ok (bail_if (not is) ValidationError.not_an_ommer) _ tt h3 in
      let (ommers, joined, is_kin) =
        is_kin-IsKin state ommer 6 parent header.parent_hash [] old
          (searched ∙ ap (λ b. ok (b, old)) (ground arith)) in
      record {
        own_parent = own;
        has_parent = parent_of-ok state ommer own has_own;
        valid = (validate_block_header_lem engine clock ommer own).0 (in_context-ok _ _ checked);
        ommers = ommers;
        kin = is_kin;
        is_new =
            ap (contains ommer) (sym joined)
            ∙ bail_if-ok (contains ommer old) ValidationError.duplicate_ommer new;
      }

  validate_ommers-ok :
      (header parent : BlockHeader) (l : List BlockHeader)
      → validate_ommers engine clock state header parent l ≡ ok tt
      → AllOmmers engine state header.parent_hash parent l
  unfolding validate_ommers
  validate_ommers-ok header parent [] h = tt
  validate_ommers-ok header parent (ommer ∷ l) h =
      let (u, one, rest) = bind-ok (validate_ommer engine clock state header parent ommer) _ tt h in
      (validate_ommer-ok header parent ommer one, validate_ommers-ok header parent l rest)

  validate_transactions-ok :
      (header : BlockHeader) (l : List MessageWithSignature)
      → validate_transactions engine clock state header l ≡ ok tt
      → AllPass engine header l
  unfolding validate_transactions
  validate_transactions-ok header [] h = tt
  validate_transactions-ok header (txn ∷ l) h =
      let (u, one, rest) = bind-ok (pre_validate_transaction txn.message _ _) _ tt h in
      (one, validate_transactions-ok header l rest)

-- What a block is asked for before its execution.
pub record IsPreValid (engine : ConsensusEngineBase) (state : ChainReader)
    (ommers_hash : List BlockHeader → ℕ) (transactions_root : List MessageWithSignature → ℕ)
    (block : Block) : Type 0 where
  pub hash : block.header.ommers_hash ≡ ommers_hash block.ommers
  pub root : block.header.transactions_root ≡ transactions_root block.transactions
  pub few : length block.ommers ≤ 2
  pub differ : is_pair block.ommers ≡ false
  pub parent : BlockHeader
  pub has_parent : get_parent_header state block.header ≡ ok (some parent)
  pub all_ommers : AllOmmers engine state block.header.parent_hash parent block.ommers
  pub all_pass : AllPass engine block.header block.transactions

-- A block that `pre_validate_block` lets through has the hash of its ommers and the root of its
-- transactions in its header, at most two ommers, which differ, and a parent; every ommer is a valid
-- header for a parent that is known, is of the kin of the block's parent within six generations and is
-- none of the ommers met on the way, and every transaction passes.
pub pre_validate_block-IsPreValid :
    (engine : ConsensusEngineBase) (clock : Result ℕ) (state : ChainReader)
    (ommers_hash : List BlockHeader → ℕ) (transactions_root : List MessageWithSignature → ℕ)
    (block : Block)
    → pre_validate_block engine clock state ommers_hash transactions_root block ≡ ok tt
    → IsPreValid engine state ommers_hash transactions_root block
unfolding pre_validate_block
pre_validate_block-IsPreValid engine clock state ommers_hash transactions_root block h =
    let header = block.header in
    let (hash, h1) = bail_if-then (not (header.ommers_hash == ommers_hash block.ommers)) _ _ tt h in
    let (root, h2) =
      bail_if-then (not (header.transactions_root == transactions_root block.transactions)) _ _ tt
        h1 in
    let (few, h3) = bail_if-then (ltb 2 (length block.ommers)) _ _ tt h2 in
    let (differ, h4) = bail_if-then (is_pair block.ommers) _ _ tt h3 in
    let (parent, has_parent, h5) = bind-ok (parent_of state header) _ tt h4 in
    let (t5, ommers, transactions) =
      bind-ok (validate_ommers engine clock state header parent block.ommers) _ tt h5 in
    record {
      hash = ground arith;
      root = ground arith;
      few = ground arith;
      differ = differ;
      parent = parent;
      has_parent = parent_of-ok state header parent has_parent;
      all_ommers = validate_ommers-ok engine clock state header parent block.ommers ommers;
      all_pass = validate_transactions-ok engine clock state header block.transactions transactions;
    }
