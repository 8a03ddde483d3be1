-- ===== src/BitmapDb.antt =====
-- src/bitmapdb/mod.rs: bitmaps of block numbers, stored in chunks. A `RoaringTreemap` (the crate
-- croaring) is the ascending list of its elements, and the size of its encoding is a parameter. The
-- table is the list of its entries in the order of a cursor.
pub mod Chunking
pub mod Lookup
mod Examples
use akula.Prelude.{
  ℕ, zero, suc, Bool, true, false, ◌&&◌, ◌||◌, not, Option, none, some, List, [], ◌∷◌, ◌++◌, ltb,
  leb, ◌==◌, if◌then◌else◌,
}
use akula.Prelude.Words.{u64_mod}
use akula.Errors.{Result, ok, err, panicked, map_ok}
use akula.BTreeMap

abbrev pub Treemap : Type 0
Treemap = List ℕ

abbrev pub is_empty : Treemap → Bool
is_empty [] = true
is_empty (n ∷ rest) = false

-- `it.take_while(|&n| n < min_n)`, each of which is removed.
unfoldable pub drop_below : ℕ → Treemap → Treemap
drop_below min_n [] = []
drop_below min_n (n ∷ rest) =
    let kept = drop_below min_n rest in if ltb n min_n then kept else n ∷ rest

-- The chunk and what is left, by what the loop found.
unfoldable pub split : Treemap → Treemap × Option ℕ → Option (Treemap × Treemap)
unfolding drop_below
split bm (v, none) = some (bm, [])
split bm (v, some min_n) = some (v, drop_below min_n bm)

module _ (size : Treemap → ℕ) (size_limit : ℕ) where
  -- The loop that fills `v` from the elements `it` peeks at: `v`, and `min_n`.
  unfoldable pub fill : Treemap → Treemap → Treemap × Option ℕ
  fill v [] = (v, none)
  fill v (n ∷ rest) =
      let more = fill (v ++ n ∷ []) rest in
      if ltb size_limit (size (v ++ n ∷ [])) then (v, some n) else more

  -- `Chunks::next`, with the bitmap that is left.
  unfoldable pub next : Treemap → Option (Treemap × Treemap)
  unfolding fill split
  next [] = none
  next (n ∷ rest) =
      let bm = n ∷ rest in if leb (size bm) size_limit then some (bm, []) else split bm (fill [] bm)

  -- What the iterator yields; `none` means that the fuel ran out.
  unfoldable pub chunks : ℕ → Treemap → Option (List Treemap)
  unfolding next
  chunks zero bm = none
  chunks (suc fuel) bm = elim (next bm) [
    | none ↦ some []
    | some (chunk, left) ↦ elim (chunks fuel left) [ none ↦ none | some rest ↦ some (chunk ∷ rest) ]
  ]

-- `chunk.maximum()`
unfoldable pub maximum : Treemap → Option ℕ
maximum [] = none
maximum (n ∷ []) = some n
maximum (n ∷ m ∷ rest) = maximum (m ∷ rest)

abbrev pub u64_max : ℕ
u64_max = 0xffff_ffff_ffff_ffff

-- `ChunksWithKeys`: the key of a chunk is its maximum, and that of the last one is `u64::MAX`.
unfoldable pub with_keys : List Treemap → Result (List (ℕ × Treemap))
unfolding maximum
with_keys [] = ok []
with_keys (chunk ∷ []) = ok ((u64_max, chunk) ∷ [])
with_keys (chunk ∷ other ∷ rest) = elim (maximum chunk) [
  | none ↦ err panicked
  | some n ↦ map_ok (◌∷◌ (n, chunk)) (with_keys (other ∷ rest))
]

-- The entries of a table whose key is a `BitmapKey`: an inner key, a block number, and a chunk.
pub record Entry : Type 0 where
  pub inner : ℕ
  pub block_number : ℕ
  pub chunk : Treemap

-- A cursor moves to the first entry that is not below a key, and walks on.
unfoldable pub walk : ℕ → ℕ → List Entry → List Entry
walk key from [] = []
walk key from (e ∷ rest) =
    let further = walk key from rest in
    if ltb e.inner key || e.inner == key && ltb e.block_number from then further else e ∷ rest

-- `out | v`
unfoldable pub union : Treemap → Treemap → Treemap
union [] v = v
union (n ∷ rest) v = BTreeMap.insert n (union rest v)

-- The loop of `get` over the entries that the walk meets.
unfoldable pub collect : ℕ → ℕ → Treemap → List Entry → Treemap
unfolding union
collect key to out [] = out
collect key to out (e ∷ rest) =
    let further = collect key to (union out e.chunk) rest in
    if not (e.inner == key)
    then out
    else if leb to e.block_number
    then union out e.chunk
    else further

unfoldable pub get : List Entry → ℕ → ℕ → ℕ → Treemap
unfolding walk collect
get table key from to = collect key to [] (walk key from table)
