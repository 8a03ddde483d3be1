-- ===== src/BitmapDb/Examples.antt =====
-- A bitmap of which a chunk holds at most two blocks, and instances of the theorems on bitmaps.
use akula.Prelude.{ℕ, ◌≡◌, arith, some, List, [], ◌∷◌, ◌++◌, length}
use akula.Errors.{ok}
use akula.BitmapDb.{Treemap, chunks, with_keys, get, Entry}
use akula.BitmapDb.Chunking.{flatten, AllGood, chunks-flatten}
use akula.BTreeMap.{mem}
use akula.BitmapDb.Lookup.{entries_of, get-with_keys}

abbrev bitmap : Treemap
bitmap = 2 ∷ 3 ∷ 5 ∷ 9 ∷ 11 ∷ []

chunks-flatten_example :
    (cs : List Treemap) × (chunks length 2 6 bitmap ≡ some cs)
    × (flatten cs ≡ bitmap)
    × AllGood length 2 (λ n. omega arith) cs
chunks-flatten_example =
    chunks-flatten length 2 (λ n. omega arith) bitmap 6
      (
        (omega arith, (omega arith, (omega arith, (omega arith, tt)))),
        (
          (omega arith, (omega arith, (omega arith, tt))),
          ((omega arith, (omega arith, tt)), ((omega arith, tt), (tt, tt))),
        ),
      )
      (omega arith)

abbrev entry_at : ℕ → ℕ → Treemap → Entry
entry_at key block chunk = record { inner = key; block_number = block; chunk = chunk }

get-with_keys_example :
    (s : List (ℕ × Treemap)) × (with_keys ((2 ∷ 3 ∷ []) ∷ (5 ∷ 9 ∷ []) ∷ (11 ∷ []) ∷ []) ≡ ok s)
    × (mem 5 (
          get
            ((entry_at 3 8 (5 ∷ []) ∷ []) ++ (entries_of 7 s ++ (entry_at 8 2 (1 ∷ []) ∷ [])))
            7
            4
            10)
        ≡ mem 5 (flatten ((2 ∷ 3 ∷ []) ∷ (5 ∷ 9 ∷ []) ∷ (11 ∷ []) ∷ [])))
get-with_keys_example =
    get-with_keys 7 4 10 5 ((2 ∷ 3 ∷ []) ∷ (5 ∷ 9 ∷ []) ∷ (11 ∷ []) ∷ [])
      (entry_at 3 8 (5 ∷ []) ∷ []) (entry_at 8 2 (1 ∷ []) ∷ [])
      ((λ e. cc), ((λ e. cc), ((λ e. cc), tt)))
      (
        (omega arith, (omega arith, (omega arith, (omega arith, tt)))),
        (
          (omega arith, (omega arith, (omega arith, tt))),
          ((omega arith, (omega arith, tt)), ((omega arith, tt), (tt, tt))),
        ),
      )
      (
        omega arith,
        omega arith,
        (
          omega arith,
          omega arith,
          (omega arith, omega arith, (omega arith, omega arith, (omega arith, omega arith, tt))),
        ),
      )
      (omega arith, tt) (omega arith) (omega arith) (omega arith)
