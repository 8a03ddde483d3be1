-- ===== src/Etl/Collector.antt =====
-- src/etl/collector.rs: `Collector`, its buffer and runs, and the merge of the runs by a heap. The sort
-- and the heap of the standard library are an insertion sort and a list in its order, which any sort
-- and any heap of such entries agree with, since two entries that compare as equal are the same.
use akula.Prelude.{
  ℕ, zero, suc, ◌+◌, Bool, true, false, not, Option, none, some, List, [], ◌∷◌, ◌++◌, leb, ltb,
  ◌==◌, if◌then◌else◌, length,
}
use akula.Prelude.Words.{add64}
use akula.Prelude.Keys.{le_bytes}
use akula.Errors.{Result, ok, err, panicked, map_ok}
use akula.Etl.DataProvider.{Entry, DataProvider, to_next}
use akula.Etl.DataProvider

-- `Entry` compares its key and then its value.
unfoldable pub le_entry : Entry → Entry → Bool
unfolding le_bytes
le_entry a b =
    if le_bytes a.key b.key
    then if le_bytes b.key a.key then le_bytes a.value b.value else true
    else false

unfoldable pub insert : Entry → List Entry → List Entry
unfolding le_entry
insert e [] = e ∷ []
insert e (f ∷ l) = let rest = insert e l in if le_entry e f then e ∷ f ∷ l else f ∷ rest

-- `buffer.sort_unstable()`
unfoldable pub sort : List Entry → List Entry
unfolding insert
sort [] = []
sort (e ∷ l) = insert e (sort l)

-- The entries of the buffer are keys and values that are encoded already.
pub record Collector : Type 0 where
  pub buffer_size : ℕ
  pub data_providers : List DataProvider
  pub buffer_capacity : ℕ
  pub buffer : List Entry

unfoldable pub new : ℕ → Collector
new buffer_capacity = record {
  buffer_size = 0;
  data_providers = [];
  buffer_capacity = buffer_capacity;
  buffer = [];
}

unfoldable pub flush : Collector → Collector
unfolding sort
flush c = record c {
  buffer_size = 0;
  data_providers = c.data_providers ++ DataProvider.new (sort c.buffer) ∷ [];
  buffer = [];
}

abbrev pub size_of : Entry → ℕ
size_of e = length e.key + length e.value

unfoldable pub push : Entry → Collector → Collector
unfolding flush
push e c =
    let c' = record c {
      buffer_size = add64 c.buffer_size (size_of e);
      buffer = c.buffer ++ e ∷ [];
    } in
    if ltb c.buffer_capacity c'.buffer_size then flush c' else c'

unfoldable pub push_all : List Entry → Collector → Collector
unfolding push
push_all [] c = c
push_all (e ∷ rest) c = push_all rest (push e c)

-- The heap, least item first: an entry, and the provider that it came from.
abbrev pub Item : Type 0
Item = Entry × ℕ

unfoldable pub le_item : Item → Item → Bool
unfolding le_entry
le_item a b = if le_entry a.0 b.0 then if le_entry b.0 a.0 then leb a.1 b.1 else true else false

unfoldable pub heap_push : Item → List Item → List Item
unfolding le_item
heap_push x [] = x ∷ []
heap_push x (y ∷ heap) =
    let rest = heap_push x heap in if le_item x y then x ∷ y ∷ heap else y ∷ rest

-- The first entry of each provider, from the one of an index on.
unfoldable pub anchor : ℕ → List DataProvider → Result (List Item × List DataProvider)
unfolding heap_push
anchor id [] = ok ([], [])
anchor id (p ∷ rest) = elim (to_next p) [
  | err e ↦ err e
  | ok (none, q) ↦ map_ok (λ r. (r.0, q ∷ r.1)) (anchor (suc id) rest)
  | ok (some e, q) ↦ map_ok (λ r. (heap_push (e, id) r.0, q ∷ r.1)) (anchor (suc id) rest)
]

-- `self.data_providers[id].to_next()`
unfoldable pub next_of : ℕ → List DataProvider → Result (Option Entry × List DataProvider)
next_of id [] = err panicked
next_of zero (p ∷ rest) = map_ok (λ r. (r.0, r.1 ∷ rest)) (to_next p)
next_of (suc id) (p ∷ rest) = map_ok (λ r. (r.0, p ∷ r.1)) (next_of id rest)

abbrev pub yields : Entry → Option (Result (List Entry)) → Option (Result (List Entry))
yields e none = none
yields e (some r) = some (map_ok (◌∷◌ e) r)

-- The loop that takes the least entry; `none` means that the fuel ran out.
unfoldable pub merge : ℕ → List Item → List DataProvider → Option (Result (List Entry))
unfolding heap_push next_of
merge zero heap providers = none
merge (suc fuel) [] providers = some (ok [])
merge (suc fuel) ((e, id) ∷ heap) providers = elim (next_of id providers) [
  | err x ↦ some (err x)
  | ok (none, left) ↦ yields e (merge fuel heap left)
  | ok (some next, left) ↦ yields e (merge fuel (heap_push (next, id) heap) left)
]

-- The merge of all runs.
unfoldable pub merge_all : ℕ → List DataProvider → Option (Result (List Entry))
unfolding anchor merge
merge_all fuel providers = elim (anchor 0 providers) [
  | err e ↦ some (err e)
  | ok (heap, left) ↦ merge fuel heap left
]

-- What `iter` yields.
unfoldable pub iter : ℕ → Collector → Option (Result (List Entry))
unfolding sort flush merge_all
iter fuel c = elim c.data_providers [
  | [] ↦ some (ok (sort c.buffer))
  | p ∷ rest ↦ merge_all fuel (if not (c.buffer_size == 0) then flush c else c).data_providers
]
