-- ===== src/BitmapDb/Chunking.antt =====
-- The chunks of src/bitmapdb/mod.rs: together they are the bitmap, and each fits the limit.
use akula.Prelude.{
  ℕ, zero, suc, ◌≤◌, ◌<◌, ◌≡◌, ◌≢◌, refl, sym, ap, ◌∙◌, subst, true, false, Option, none, some,
  List, [], ◌∷◌, ◌++◌, arith, length, length-append, ltb, leb, Bool-cases, inl, inr,
}
use mathlib.Core.List.{append-nil, append_assoc}
use akula.BTreeMap.{Above, IsAscending}
use akula.BitmapDb.{Treemap, drop_below, fill, split, next, chunks}

abbrev pub flatten : List Treemap → Treemap
flatten [] = []
flatten (c ∷ rest) = c ++ flatten rest

abbrev first : Treemap → Option ℕ
first [] = none
first (n ∷ rest) = some n

-- What stands in front of an element of an ascending list is below it.
drop_below-Above : (m : ℕ) (l : Treemap) → Above m l → drop_below m l ≡ l
unfolding drop_below
drop_below-Above m [] above = refl
drop_below-Above m (n ∷ l) (lt, above) = ground (arith, drop_below-Above m l above)

Above-last : (x m : ℕ) (l r : Treemap) → Above x (l ++ m ∷ r) → x < m
Above-last x m [] r (lt, above) = lt
Above-last x m (n ∷ l) r (lt, above) = Above-last x m l r above

IsAscending-last : (l r : Treemap) → IsAscending (l ++ r) → IsAscending r
IsAscending-last [] r a = a
IsAscending-last (n ∷ l) r (above, a) = IsAscending-last l r a

drop_below-append :
    (m : ℕ) (l r : Treemap) → IsAscending (l ++ m ∷ r) → drop_below m (l ++ m ∷ r) ≡ m ∷ r
unfolding drop_below
drop_below-append m [] r (above, a) = ground (arith, drop_below-Above m r above)
drop_below-append m (n ∷ l) r (above, a) =
    let low : n < m = Above-last n m l r above in ground (arith, drop_below-append m l r a)

module _ (size : Treemap → ℕ) (size_limit : ℕ) where
  -- What a run of the loop has taken from its elements, and what it has left.
  record Filled (v it : Treemap) (r : Treemap × Option ℕ) : Type 0 where
    taken : Treemap
    left : Treemap
    parts : it ≡ taken ++ left
    filled : r.0 ≡ v ++ taken
    next_one : r.1 ≡ first left
    fits : size r.0 ≤ size_limit

  fill_full :
      (v : Treemap) (n : ℕ) (rest : Treemap)
      → ltb size_limit (size (v ++ n ∷ [])) ≡ true
      → fill size size_limit v (n ∷ rest) ≡ (v, some n)
  unfolding fill
  fill_full v n rest e = rw e refl

  fill_more :
      (v : Treemap) (n : ℕ) (rest : Treemap)
      → ltb size_limit (size (v ++ n ∷ [])) ≡ false
      → fill size size_limit v (n ∷ rest) ≡ fill size size_limit (v ++ n ∷ []) rest
  unfolding fill
  fill_more v n rest e = rw e refl

  fill_nil : (v : Treemap) → fill size size_limit v [] ≡ (v, none)
  unfolding fill
  fill_nil v = refl

  fill_lem : (v it : Treemap) → size v ≤ size_limit → Filled v it (fill size size_limit v it)
  fill_lem v [] h = record {
    taken = [];
    left = [];
    parts = refl;
    filled = rw fill_nil (sym (append-nil v));
    next_one = rw fill_nil refl;
    fits = rw fill_nil h;
  }
  fill_lem v (n ∷ rest) h = elim (Bool-cases (ltb size_limit (size (v ++ n ∷ [])))) [
    | inl full ↦ record {
      taken = [];
      left = n ∷ rest;
      parts = refl;
      filled = rw (fill_full v n rest full) (sym (append-nil v));
      next_one = rw (fill_full v n rest full) refl;
      fits = rw (fill_full v n rest full) h;
    }
    | inr more ↦
        let f = fill_lem (v ++ n ∷ []) rest (ground arith) in
        record {
          taken = n ∷ f.taken;
          left = f.left;
          parts = ap (◌∷◌ n) f.parts;
          filled = rw (fill_more v n rest more) (f.filled ∙ append_assoc v (n ∷ []) f.taken);
          next_one = rw (fill_more v n rest more) f.next_one;
          fits = rw (fill_more v n rest more) f.fits;
        }
  ]

  next_whole :
      (n : ℕ) (rest : Treemap)
      → leb (size (n ∷ rest)) size_limit ≡ true
      → next size size_limit (n ∷ rest) ≡ some (n ∷ rest, [])
  unfolding next
  next_whole n rest e = rw e refl

  next_split :
      (n m : ℕ) (rest v : Treemap)
      → leb (size (n ∷ rest)) size_limit ≡ false
      → fill size size_limit [] (n ∷ rest) ≡ (v, some m)
      → next size size_limit (n ∷ rest) ≡ some (v, drop_below m (n ∷ rest))
  unfolding next
  next_split n m rest v e f = rw e (ap (split (n ∷ rest)) f)

  -- A chunk that is not empty and fits, in front of what is left.
  record Cut (n : ℕ) (rest : Treemap) : Type 0 where
    more : Treemap
    left : Treemap
    cut : next size size_limit (n ∷ rest) ≡ some (n ∷ more, left)
    parts : rest ≡ more ++ left
    fits : size (n ∷ more) ≤ size_limit

  module _ (small : (n : ℕ) → size (n ∷ []) ≤ size_limit) where
    Cut-at :
        (n : ℕ) (rest taken left : Treemap)
        → IsAscending (n ∷ rest)
        → leb (size (n ∷ rest)) size_limit ≡ false
        → rest ≡ taken ++ left
        → fill size size_limit [] (n ∷ rest) ≡ (n ∷ taken, first left)
        → size (n ∷ taken) ≤ size_limit
        → Cut n rest
    Cut-at n rest taken [] a big parts filled fits =
        absurd (whole (ap (λ (l : Treemap). size (n ∷ l)) (parts ∙ append-nil taken)))
      where
        whole : size (n ∷ rest) ≡ size (n ∷ taken) → ⊥
        whole e = ground arith
    Cut-at n rest taken (m ∷ left) a big parts filled fits = record {
      more = taken;
      left = m ∷ left;
      cut =
          next_split n m rest (n ∷ taken) big filled
          ∙ ap (λ (l : Treemap). some (n ∷ taken, l))
              (ap (λ (l : Treemap). drop_below m (n ∷ l)) parts
                ∙ drop_below-append m (n ∷ taken) left
                    (subst (λ (l : Treemap). IsAscending (n ∷ l)) parts a));
      parts = parts;
      fits = fits;
    }

    next_lem : (n : ℕ) (rest : Treemap) → IsAscending (n ∷ rest) → Cut n rest
    next_lem n rest a = elim (Bool-cases (leb (size (n ∷ rest)) size_limit)) [
      | inl whole ↦ record {
        more = rest;
        left = [];
        cut = next_whole n rest whole;
        parts = sym (append-nil rest);
        fits = ground arith;
      }
      | inr big ↦
          let f = fill_lem (n ∷ []) rest (small n) in
          let one : ltb size_limit (size (n ∷ [])) ≡ false = ground (arith, small n) in
          Cut-at n rest f.taken f.left a big f.parts
            (fill_more [] n rest one ∙ λ i. (f.filled i, f.next_one i))
            (subst (λ (l : Treemap). size l ≤ size_limit) f.filled f.fits)
    ]

    abbrev pub Good : Treemap → Type 0
    Good c = (c ≢ []) × (size c ≤ size_limit)

    abbrev pub AllGood : List Treemap → Type 0
    AllGood [] = Unit
    AllGood (c ∷ rest) = Good c × AllGood rest

    one_more :
        (fuel : ℕ) (bm chunk left : Treemap) (rest : List Treemap)
        → next size size_limit bm ≡ some (chunk, left)
        → chunks size size_limit fuel left ≡ some rest
        → chunks size size_limit (suc fuel) bm ≡ some (chunk ∷ rest)
    unfolding chunks
    one_more fuel bm chunk left rest e f = rw (e, f, chunks) refl

    no_more : (fuel : ℕ) → chunks size size_limit (suc fuel) [] ≡ some []
    unfolding chunks next
    no_more fuel = refl

    -- If a bitmap of one block fits the limit, then the chunks of a bitmap come to an end: in one round
    -- for each of its blocks and one more, there are chunks of which each has a block and fits the limit,
    -- and which are the bitmap when put together in order.
    pub chunks-flatten :
        (bm : Treemap) (fuel : ℕ)
        → IsAscending bm
        → length bm < fuel
        → (cs : List Treemap) × (chunks size size_limit fuel bm ≡ some cs)
          × (flatten cs ≡ bm)
          × AllGood cs
    chunks-flatten bm zero a enough = absurd (omega arith)
    chunks-flatten [] (suc fuel) a enough = ([], no_more fuel, refl, tt)
    chunks-flatten (n ∷ rest) (suc fuel) a enough =
        let c = next_lem n rest a in
        let (cs, ends, whole, good) =
          chunks-flatten c.left fuel
            (IsAscending-last (n ∷ c.more) c.left
              (subst (λ (l : Treemap). IsAscending (n ∷ l)) c.parts a))
            (omega (arith, length-append c.more c.left, ap (λ (l : Treemap). length l) c.parts)) in
        (
          (n ∷ c.more) ∷ cs,
          one_more fuel (n ∷ rest) (n ∷ c.more) c.left cs c.cut ends,
          ap (◌∷◌ n) (ap (◌++◌ c.more) whole ∙ sym c.parts),
          (((λ e. cc), c.fits), good),
        )
