-- ===== src/Consensus/Base/Ommers.antt =====
-- What `is_kin` has found when it answers yes.
use akula.Prelude.{
  ℕ, suc, zero, ◌≡◌, refl, sym, ap, ◌∙◌, true, false, Option, none, some, List, ◌++◌, ◌⊎◌, inl, inr,
  Bool-cases, if◌then◌else◌, arith,
}
use mathlib.Core.List.{append_assoc}
use akula.Errors.{Result, ok, err, Error}
use akula.Models.Header.{BlockHeader}
use akula.Models.Header.Equality.{same, same→eq}
use akula.Models.Block.{BlockBody}
use akula.Consensus.Base.{ChainReader, get_parent_header, same_parent, is_kin}

-- `branch` has the parent of one of the first `n` headers of the chain that ends in `mainline`, is not
-- that header, and `ommers` are those of the bodies from `mainline` to it.
pub data IsKin (state : ChainReader) (branch : BlockHeader)
    : ℕ → BlockHeader → ℕ → List BlockHeader → Type 0 where
  sibling :
      {n : ℕ} {mainline parent : BlockHeader} {hash : ℕ} {body : BlockBody}
      → same branch mainline ≡ false
      → state.read_body mainline.number hash ≡ ok (some body)
      → get_parent_header state mainline ≡ ok (some parent)
      → get_parent_header state branch ≡ ok (some parent)
      → IsKin state branch (suc n) mainline hash body.ommers
  older :
      {n : ℕ} {mainline parent : BlockHeader} {hash : ℕ} {body : BlockBody}
      {ommers : List BlockHeader}
      → same branch mainline ≡ false
      → state.read_body mainline.number hash ≡ ok (some body)
      → get_parent_header state mainline ≡ ok (some parent)
      → IsKin state branch n parent mainline.parent_hash ommers
      → IsKin state branch (suc n) mainline hash (body.ommers ++ ommers)

-- The case split that keeps an equation.
found-cases :
    {A : Type 0} (r : Result (Option A))
    → ((a : A) × (r ≡ ok (some a))) ⊎ ((r ≡ ok none) ⊎ ((e : Error) × (r ≡ err e)))
found-cases (ok (some a)) = inl (a, refl)
found-cases (ok none) = inr (inl refl)
found-cases (err e) = inr (inr (e, refl))

module _ (state : ChainReader) (branch mainline : BlockHeader) (hash n : ℕ) where
  -- The round below the two parents.
  Ending : List BlockHeader → List BlockHeader → BlockHeader → Type 0
  Ending old collected parent =
      ((get_parent_header state branch ≡ ok (some parent)) × (old ≡ collected))
      ⊎ (is_kin state branch parent mainline.parent_hash n old ≡ ok (true, collected))

  ending :
      (old collected : List BlockHeader) (parent : BlockHeader) (branch_parent : Option BlockHeader)
      → get_parent_header state branch ≡ ok branch_parent
      → (if same_parent branch_parent parent
          then ok (true, old)
          else is_kin state branch parent mainline.parent_hash n old)
        ≡ ok (true, collected)
      → Ending old collected parent
  unfolding Ending
  ending old collected parent none b e = inr e
  ending old collected parent (some q) b e = elim (Bool-cases (same q parent)) [
    | inl h ↦ inl (b ∙ ap (λ x. ok (some x)) (same→eq q parent h), ground arith)
    | inr h ↦ inr (ground arith)
  ]

  -- One round of the search that ends in a yes.
  Round : List BlockHeader → List BlockHeader → Type 0
  Round old collected =
      (body : BlockBody) × (parent : BlockHeader) × (same branch mainline ≡ false)
      × (state.read_body mainline.number hash ≡ ok (some body))
      × (get_parent_header state mainline ≡ ok (some parent))
      × (((get_parent_header state branch ≡ ok (some parent)) × (old ++ body.ommers ≡ collected))
          ⊎ (is_kin state branch parent mainline.parent_hash n (old ++ body.ommers)
              ≡ ok (true, collected)))

  is_kin-Round :
      (old collected : List BlockHeader)
      → is_kin state branch mainline hash (suc n) old ≡ ok (true, collected)
      → Round old collected
  unfolding is_kin Round Ending
  is_kin-Round old collected e = elim (Bool-cases (same branch mainline)) [
    | inl h ↦ absurd (ground arith)
    | inr h ↦ elim (found-cases (state.read_body mainline.number hash)) [
      | inl (body, b) ↦ elim (found-cases (get_parent_header state mainline)) [
        | inl (parent, p) ↦ elim (found-cases (get_parent_header state branch)) [
          | inl (q, r) ↦ (
            body,
            parent,
            h,
            b,
            p,
            ending (old ++ body.ommers) collected parent (some q) r (ground arith),
          )
          | inr (inl r) ↦ (
            body,
            parent,
            h,
            b,
            p,
            ending (old ++ body.ommers) collected parent none r (ground arith),
          )
          | inr (inr (x, r)) ↦ absurd (ground arith)
        ]
        | inr (inl p) ↦ absurd (ground arith)
        | inr (inr (x, p)) ↦ absurd (ground arith)
      ]
      | inr (inl b) ↦ absurd (ground arith)
      | inr (inr (x, b)) ↦ absurd (ground arith)
    ]
  ]

-- When `is_kin` answers yes, the header is of the kin: it has the same parent as one of the first `n`
-- headers of the chain and is not that header, and the ommers collected are those of the chain down to
-- it, after those given.
pub is_kin-IsKin :
    (state : ChainReader) (branch : BlockHeader) (n : ℕ) (mainline : BlockHeader) (hash : ℕ)
    (old collected : List BlockHeader)
    → is_kin state branch mainline hash n old ≡ ok (true, collected)
    → (ommers : List BlockHeader) × (collected ≡ old ++ ommers)
      × IsKin state branch n mainline hash ommers
unfolding is_kin Round Ending
is_kin-IsKin state branch zero mainline hash old collected e = absurd (ground arith)
is_kin-IsKin state branch (suc n) mainline hash old collected e =
    let (body, parent, h, b, p, ending) =
      is_kin-Round state branch mainline hash n old collected e in
    elim ending [
      | inl (r, joined) ↦ (body.ommers, sym joined, sibling h b p r)
      | inr rest ↦
          let (ommers, joined, kin) =
            is_kin-IsKin state branch n parent mainline.parent_hash (old ++ body.ommers) collected
              rest in
          (body.ommers ++ ommers, joined ∙ append_assoc old body.ommers ommers, older h b p kin)
    ]
