-- ===== src/BitmapDb/Lookup.antt =====
-- A bitmap that was stored in chunks is found again by `get` of src/bitmapdb/mod.rs.
use akula.Prelude.{
  ℕ, suc, ◌≤◌, ◌<◌, ◌≡◌, ◌≢◌, refl, ap, ◌∙◌, true, false, ◌||◌, some, List, [], ◌∷◌, ◌++◌, arith,
  ltb, leb, Bool-cases, inl, inr, ltb→lt, ==_self,
}
use akula.Errors.{ok}
use akula.BTreeMap.{Above, IsAscending, mem, mem-insert, mem-append}
use akula.BitmapDb.{Treemap, maximum, with_keys, u64_max, Entry, walk, union, collect, get}
use akula.BitmapDb.Chunking.{flatten}

mem-union : (a b : Treemap) (j : ℕ) → mem j (union a b) ≡ (mem j a || mem j b)
unfolding union
mem-union [] b j = refl
mem-union (n ∷ a) b j = ground (arith, mem-insert n (union a b) j, mem-union a b j)

-- The blocks of a chunk lie between two numbers.
abbrev pub Between : ℕ → ℕ → Treemap → Type 0
Between lo hi [] = Unit
Between lo hi (n ∷ rest) = (lo ≤ n) × (n ≤ hi) × Between lo hi rest

mem-Between : (lo hi j : ℕ) (c : Treemap) → Between lo hi c → mem j c ≡ true → (lo ≤ j) × (j ≤ hi)
mem-Between lo hi j [] b m = absurd (ground arith)
mem-Between lo hi j (n ∷ c) (l, h, b) m = ground (arith, mem-Between lo hi j c b)

-- Keys that ascend, with chunks between them.
abbrev pub Segments : ℕ → List (ℕ × Treemap) → Type 0
Segments lo [] = Unit
Segments lo ((k, c) ∷ rest) = (lo ≤ k) × Between lo k c × Segments (suc k) rest

abbrev pub chunks_of : List (ℕ × Treemap) → List Treemap
chunks_of [] = []
chunks_of ((k, c) ∷ rest) = c ∷ chunks_of rest

-- The entries that an inner key has in a table.
abbrev pub entries_of : ℕ → List (ℕ × Treemap) → List Entry
entries_of key [] = []
entries_of key ((k, c) ∷ rest) =
    record { inner = key; block_number = k; chunk = c } ∷ entries_of key rest

mem-Segments :
    (lo j : ℕ) (s : List (ℕ × Treemap))
    → Segments lo s
    → j < lo
    → mem j (flatten (chunks_of s)) ≡ false
mem-Segments lo j [] h lt = refl
mem-Segments lo j ((k, c) ∷ rest) (le, b, h) lt = elim (Bool-cases (mem j c)) [
  | inl there ↦ absurd (omega (arith, mem-Between lo k j c b there))
  | inr gone ↦
      rw (mem-append c (flatten (chunks_of rest)) j, gone)
        (mem-Segments (suc k) j rest h (omega arith))
]

-- The entries of other keys: below a key, and from the next one on.
abbrev pub Lower : ℕ → List Entry → Type 0
Lower key [] = Unit
Lower key (e ∷ rest) = (e.inner < key) × Lower key rest

abbrev pub StartsAbove : ℕ → List Entry → Type 0
StartsAbove key [] = Unit
StartsAbove key (e ∷ rest) = key < e.inner

collect-after :
    (key to : ℕ) (out : Treemap) (after : List Entry)
    → StartsAbove key after
    → collect key to out after ≡ out
unfolding collect
collect-after key to out [] h = refl
collect-after key to out (e ∷ rest) h = ground arith

walk-after :
    (key from : ℕ) (after : List Entry) → StartsAbove key after → walk key from after ≡ after
unfolding walk
walk-after key from [] h = refl
walk-after key from (e ∷ rest) h = ground arith

walk-before :
    (key from : ℕ) (before rest : List Entry)
    → Lower key before
    → walk key from (before ++ rest) ≡ walk key from rest
unfolding walk
walk-before key from [] rest h = refl
walk-before key from (e ∷ before) rest (lt, h) = ground (arith, walk-before key from before rest h)

mem-collect_all :
    (key to j lo : ℕ) (out : Treemap) (s : List (ℕ × Treemap)) (after : List Entry)
    → j ≤ to
    → Segments lo s
    → StartsAbove key after
    → mem j (collect key to out (entries_of key s ++ after))
      ≡ (mem j out || mem j (flatten (chunks_of s)))
unfolding collect
mem-collect_all key to j lo out [] after le h above =
    ap (mem j) (collect-after key to out after above) ∙ ground arith
mem-collect_all key to j lo out ((k, c) ∷ s) after le (l, b, h) above =
    elim (Bool-cases (leb to k)) [
      | inl last ↦
          rw
            (
              ==_self key,
              last,
              mem-union out c j,
              mem-append c (flatten (chunks_of s)) j,
              mem-Segments (suc k) j s h (ground arith),
            )
            (ground arith)
      | inr more ↦
          rw
            (
              ==_self key,
              more,
              mem-append c (flatten (chunks_of s)) j,
              mem-collect_all key to j (suc k) (union out c) s after le h above,
              mem-union out c j,
            )
            (ground arith)
    ]

walk-skip :
    (key from : ℕ) (e : Entry) (rest : List Entry)
    → e.inner ≡ key
    → e.block_number < from
    → walk key from (e ∷ rest) ≡ walk key from rest
unfolding walk
walk-skip key from e rest is low = ground arith

walk-stop :
    (key from : ℕ) (e : Entry) (rest : List Entry)
    → e.inner ≡ key
    → from ≤ e.block_number
    → walk key from (e ∷ rest) ≡ e ∷ rest
unfolding walk
walk-stop key from e rest is high = ground arith

-- Below the start of the walk there is nothing to find.
mem-walk :
    (key from to j lo : ℕ) (s : List (ℕ × Treemap)) (after : List Entry)
    → from ≤ j
    → j ≤ to
    → Segments lo s
    → StartsAbove key after
    → mem j (collect key to [] (walk key from (entries_of key s ++ after)))
      ≡ mem j (flatten (chunks_of s))
mem-walk key from to j lo [] after lf lt h above =
    found (walk-after key from after above) ∙ ap (mem j) (collect-after key to [] after above)
  where
    found : {l r : List Entry} → l ≡ r → mem j (collect key to [] l) ≡ mem j (collect key to [] r)
    found e = ap (λ l. mem j (collect key to [] l)) e
mem-walk key from to j lo ((k, c) ∷ s) after lf lt (l, b, h) above =
    elim (Bool-cases (ltb k from)) [
      | inl low ↦ elim (Bool-cases (mem j c)) [
        | inl there ↦ absurd (ground (arith, mem-Between lo k j c b there))
        | inr gone ↦
            rw (mem-append c (flatten (chunks_of s)) j, gone)
              (found (walk-skip key from _ (entries_of key s ++ after) refl (ltb→lt k from low))
                ∙ mem-walk key from to j (suc k) s after lf lt h above)
      ]
      | inr high ↦
          found (walk-stop key from _ (entries_of key s ++ after) refl (ground arith))
          ∙ mem-collect_all key to j lo [] ((k, c) ∷ s) after lt (l, b, h) above
    ]
  where
    found : {l r : List Entry} → l ≡ r → mem j (collect key to [] l) ≡ mem j (collect key to [] r)
    found e = ap (λ l. mem j (collect key to [] l)) e

-- The keys of `ChunksWithKeys` ascend, with the chunks between them.
abbrev pub AllOf : List Treemap → Type 0
AllOf [] = Unit
AllOf (c ∷ rest) = (c ≢ []) × AllOf rest

Between-Above : (n lo hi : ℕ) (r : Treemap) → Above n r → Between lo hi r → Between (suc n) hi r
Between-Above n lo hi [] above b = tt
Between-Above n lo hi (m ∷ r) (lt, above) (l, h, b) = (lt, h, Between-Above n lo hi r above b)

maximum_lem :
    (n lo hi : ℕ) (c r : Treemap)
    → IsAscending (n ∷ (c ++ r))
    → Between lo hi (n ∷ (c ++ r))
    → (k : ℕ) × (maximum (n ∷ c) ≡ some k) × (n ≤ k) × Between lo k (n ∷ c) × Between (suc k) hi r
unfolding maximum
maximum_lem n lo hi [] r (above, a) (l, h, b) =
    (n, refl, omega arith, (l, omega arith, tt), Between-Above n lo hi r above b)
maximum_lem n lo hi (m ∷ c) r ((lt, above), a) (l, h, b) =
    let (k, is, le, inside, further) = maximum_lem m lo hi c r a b in
    (k, is, omega arith, (l, omega arith, inside), further)

Between-first : (lo hi : ℕ) (c r : Treemap) → Between lo hi (c ++ r) → Between lo hi c
Between-first lo hi [] r b = tt
Between-first lo hi (n ∷ c) r (l, h, b) = (l, h, Between-first lo hi c r b)

IsAscending-rest : (c r : Treemap) → IsAscending (c ++ r) → IsAscending r
IsAscending-rest [] r a = a
IsAscending-rest (n ∷ c) r (above, a) = IsAscending-rest c r a

one_key :
    (k : ℕ) (c d : Treemap) (rest : List Treemap) (s : List (ℕ × Treemap))
    → maximum c ≡ some k
    → with_keys (d ∷ rest) ≡ ok s
    → with_keys (c ∷ d ∷ rest) ≡ ok ((k, c) ∷ s)
unfolding with_keys
one_key k c d rest s e f = rw (e, f, with_keys) refl

abbrev Keyed : ℕ → List Treemap → Type 0
Keyed lo cs = (s : List (ℕ × Treemap)) × (with_keys cs ≡ ok s) × Segments lo s × (chunks_of s ≡ cs)

with_keys_lem :
    (lo : ℕ) (cs : List Treemap)
    → AllOf cs
    → IsAscending (flatten cs)
    → Between lo u64_max (flatten cs)
    → Keyed lo cs
unfolding with_keys
with_keys_lem lo [] all a b = ([], refl, tt, refl)
with_keys_lem lo ([] ∷ rest) (some_block, all) a b = absurd (some_block refl)
with_keys_lem lo ((n ∷ c) ∷ []) all a (l, h, b) =
    ((u64_max, n ∷ c) ∷ [], refl, (omega arith, (l, h, Between-first lo u64_max c [] b), tt), refl)
with_keys_lem lo ((n ∷ c) ∷ d ∷ rest) (some_block, all) a b =
    let (k, is, le, inside, further) = maximum_lem n lo u64_max c (flatten (d ∷ rest)) a b in
    let (s, keyed, segments, same) =
      with_keys_lem (suc k) (d ∷ rest) all (IsAscending-rest (n ∷ c) (flatten (d ∷ rest)) a)
        further in
    (
      (k, n ∷ c) ∷ s,
      one_key k (n ∷ c) d rest s is keyed,
      (omega (arith, b.0), inside, segments),
      ap (◌∷◌ (n ∷ c)) same,
    )

-- A bitmap that was written in chunks is found again. If the chunks have blocks and make up an ascending
-- bitmap of 64-bit numbers, then they get keys, and in a table whose other keys stand before and behind
-- them `get` finds, of the blocks of a range, exactly those of the bitmap.
pub get-with_keys :
    (key from to j : ℕ) (cs : List Treemap) (before after : List Entry)
    → AllOf cs
    → IsAscending (flatten cs)
    → Between 0 u64_max (flatten cs)
    → Lower key before
    → StartsAbove key after
    → from ≤ j
    → j ≤ to
    → (s : List (ℕ × Treemap)) × (with_keys cs ≡ ok s)
      × (mem j (get (before ++ (entries_of key s ++ after)) key from to) ≡ mem j (flatten cs))
unfolding get
get-with_keys key from to j cs before after all a b lower above lf lt =
    let (s, keyed, segments, same) = with_keys_lem 0 cs all a b in
    (
      s,
      keyed,
      ap (λ (l : List Entry). mem j (collect key to [] l))
            (walk-before key from before (entries_of key s ++ after) lower)
          ∙ mem-walk key from to j 0 s after lf lt segments above
          ∙ ap (λ (l : List Treemap). mem j (flatten l)) same,
    )
