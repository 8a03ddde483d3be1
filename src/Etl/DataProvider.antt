-- ===== src/Etl/DataProvider.antt =====
-- src/etl/data_provider.rs: a run of entries in a temporary file, which is the list of its bytes that
-- are not read yet.
use akula.Prelude.{
  ℕ, ◌-◌, ◌^◌, ◌<◌, ◌≡◌, refl, sym, ap, ◌∙◌, true, false, Option, none, some, List, [], ◌∷◌, ◌++◌,
  arith, leb, ◌==◌, if◌then◌else◌, length, take, drop, length-append, take-append, drop-append,
}
use mathlib.Core.List.{append_assoc}
use akula.Prelude.Bytes.{to_be_bytes, from_be_bytes, length-to_be_bytes, from_be_bytes-to_be_bytes}
use akula.Errors.{Result, ok, err, database, map_ok, ◌>>=◌}

pub record Entry : Type 0 where
  pub key : List ℕ
  pub value : List ℕ

pub record DataProvider : Type 0 where
  pub file : List ℕ
  pub len : ℕ

-- What `new` writes for an entry.
abbrev pub entry_bytes : Entry → List ℕ
entry_bytes e =
    to_be_bytes 8 (length e.key) ++ (to_be_bytes 8 (length e.value) ++ (e.key ++ e.value))

unfoldable pub write_entries : List Entry → List ℕ
write_entries [] = []
write_entries (e ∷ rest) = entry_bytes e ++ write_entries rest

-- The file cannot fail to be made or written here.
unfoldable pub new : List Entry → DataProvider
unfolding write_entries
new buffer = record { file = write_entries buffer; len = length buffer }

-- `read_exact` of a number of bytes, with the rest of the file.
unfoldable pub read_exact : ℕ → List ℕ → Result (List ℕ × List ℕ)
read_exact n file = if leb n (length file) then ok (take n file, drop n file) else err database

-- The four reads of an entry.
unfoldable pub read_entry : List ℕ → Result (Entry × List ℕ)
unfolding read_exact
read_entry file = do
  k ← read_exact 8 file
  v ← read_exact 8 k.1
  key ← read_exact (from_be_bytes k.0) v.1
  value ← read_exact (from_be_bytes v.0) key.1
  ok (record { key = key.0; value = value.0 }, value.1)

unfoldable pub to_next : DataProvider → Result (Option Entry × DataProvider)
unfolding read_entry
to_next p =
    if p.len == 0
    then ok (none, p)
    else map_ok (λ r. (some r.0, record { file = r.1; len = p.len - 1 })) (read_entry p.file)

read_exact-append : (xs ys : List ℕ) → read_exact (length xs) (xs ++ ys) ≡ ok (xs, ys)
unfolding read_exact
read_exact-append xs ys =
    let enough : leb (length xs) (length (xs ++ ys)) ≡ true = ground (arith, length-append xs ys) in
    rw enough (λ i. ok (take-append xs ys i, drop-append xs ys i))

-- A file that holds entries, each with lengths of 64 bits.
pub record Holds (p : DataProvider) (l : List Entry) : Type 0 where
  pub bytes : p.file ≡ write_entries l
  pub count : p.len ≡ length l

abbrev pub Small : Entry → Type 0
Small e = (length e.key < 256 ^ 8) × (length e.value < 256 ^ 8)

pub new-Holds : (l : List Entry) → Holds (new l) l
unfolding new
new-Holds l = record { bytes = refl; count = refl }

pub to_next-none : (p : DataProvider) → Holds p [] → to_next p ≡ ok (none, p)
unfolding to_next
to_next-none p h = let empty : (p.len == 0) ≡ true = ground (arith, h.count) in rw empty refl

read_word :
    (n : ℕ) (rest : List ℕ) → read_exact 8 (to_be_bytes 8 n ++ rest) ≡ ok (to_be_bytes 8 n, rest)
read_word n rest =
    ap (λ (k : ℕ). read_exact k (to_be_bytes 8 n ++ rest)) (sym (length-to_be_bytes 8 n))
    ∙ read_exact-append (to_be_bytes 8 n) rest

regroup : (a b c d rest : List ℕ) → (a ++ (b ++ (c ++ d))) ++ rest ≡ a ++ (b ++ (c ++ (d ++ rest)))
regroup a b c d rest = simp append_assoc

read_bytes : (n : ℕ) (xs rest : List ℕ) → n ≡ length xs → read_exact n (xs ++ rest) ≡ ok (xs, rest)
read_bytes n xs rest e = rw e (read_exact-append xs rest)

read_entry-entry_bytes :
    (e : Entry) (rest : List ℕ) → Small e → read_entry (entry_bytes e ++ rest) ≡ ok (e, rest)
unfolding read_entry
read_entry-entry_bytes e rest (k, v) =
    ap read_entry
      (regroup (to_be_bytes 8 (length e.key)) (to_be_bytes 8 (length e.value)) e.key e.value rest)
    ∙ four_reads
  where
    four_reads :
        read_entry (
          to_be_bytes 8 (length e.key)
          ++ (to_be_bytes 8 (length e.value) ++ (e.key ++ (e.value ++ rest))))
        ≡ ok (e, rest)
    four_reads =
        rw
          (
            read_entry,
            read_word (length e.key)
                (to_be_bytes 8 (length e.value) ++ (e.key ++ (e.value ++ rest))),
            read_word (length e.value) (e.key ++ (e.value ++ rest)),
            read_bytes (from_be_bytes (to_be_bytes 8 (length e.key))) e.key (e.value ++ rest)
                (from_be_bytes-to_be_bytes 8 (length e.key) k),
            read_bytes (from_be_bytes (to_be_bytes 8 (length e.value))) e.value rest
                (from_be_bytes-to_be_bytes 8 (length e.value) v),
          )
          refl

-- An entry is read back, and the file holds the others.
pub to_next-some :
    (p : DataProvider) (e : Entry) (l : List Entry)
    → Holds p (e ∷ l)
    → Small e
    → (q : DataProvider) × (to_next p ≡ ok (some e, q)) × Holds q l
unfolding to_next write_entries
to_next-some p e l h small =
    let more : (p.len == 0) ≡ false = ground (arith, h.count) in
    let read : read_entry p.file ≡ ok (e, write_entries l) =
      ap read_entry h.bytes ∙ read_entry-entry_bytes e (write_entries l) small in
    (
      record { file = write_entries l; len = p.len - 1 },
      rw (more, read) refl,
      record { bytes = refl; count = omega (arith, h.count) },
    )
