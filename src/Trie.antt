-- ===== src/Trie.antt =====
-- src/trie: prefix sets, the nodes that the database keeps, and the paths of the trie.
pub mod PrefixSet
pub mod Node
pub mod Nibbles
pub mod Increment
mod Examples
