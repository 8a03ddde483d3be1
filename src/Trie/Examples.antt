-- ===== src/Trie/Examples.antt =====
-- Instances of the theorems on the trie.
use akula.Prelude.{ℕ, ◌^◌, ◌≡◌, refl, arith, Option, some, List, [], ◌∷◌}
use akula.Errors.{ok}
use akula.Trie.PrefixSet.{contains, collect, any_has_prefix, contains-collect}
use akula.Trie.Node.{Node, new, marshal_node, unmarshal_node, unmarshal_node-marshal_node}
use akula.Trie.Increment.{increment_key, IsNext, increment_key_lem}

contains-collect_example :
    contains (collect ((1 ∷ 2 ∷ 3 ∷ []) ∷ (1 ∷ []) ∷ (0 ∷ 9 ∷ []) ∷ [])) (1 ∷ 2 ∷ [])
    ≡ any_has_prefix (1 ∷ 2 ∷ []) ((1 ∷ 2 ∷ 3 ∷ []) ∷ (1 ∷ []) ∷ (0 ∷ 9 ∷ []) ∷ [])
contains-collect_example =
    contains-collect ((1 ∷ 2 ∷ 3 ∷ []) ∷ (1 ∷ []) ∷ (0 ∷ 9 ∷ []) ∷ []) (1 ∷ 2 ∷ [])

-- A node with three children, of which two have hashes, and a root hash.
abbrev node : Node
node = record {
  state_mask = 13;
  tree_mask = 4;
  hash_mask = 9;
  hashes = 77 ∷ 2 ^ 255 ∷ [];
  root_hash = some 123_456;
}

unmarshal_node-marshal_node_example : unmarshal_node (marshal_node node) ≡ ok (some node)
unfolding new
unmarshal_node-marshal_node_example = unmarshal_node-marshal_node node (record {
  made = refl;
  state = omega arith;
  tree = omega arith;
  hash = omega arith;
  words = (omega arith, (omega arith, tt));
  root = omega arith;
})

increment_key_lem_example :
    (o : Option (List ℕ)) × (increment_key (3 ∷ 15 ∷ 15 ∷ []) ≡ ok o) × IsNext (3 ∷ 15 ∷ 15 ∷ []) o
increment_key_lem_example =
    increment_key_lem (3 ∷ 15 ∷ 15 ∷ []) (omega arith, (omega arith, (omega arith, tt)))
