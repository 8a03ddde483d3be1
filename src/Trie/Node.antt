-- ===== src/Trie/Node.antt =====
-- src/trie/node.rs: a node of the trie, as the database keeps it.
use akula.Prelude.{
  ℕ, zero, suc, ◌+◌, ◌-◌, ◌*◌, ◌/◌, ◌%◌, ◌^◌, ◌<◌, ◌≡◌, refl, sym, ap, ◌∙◌, Bool, true, false, not,
  ◌&&◌, ◌||◌, Option, none, some, List, [], ◌∷◌, ◌++◌, arith, ltb, ◌==◌, if◌then◌else◌, length,
  take, drop, length-append, take-append, drop-append, Bool-cases, inl, inr, ==_iff, ◌≤◌,
}
use Prim.Native.Nat.{bit_and}
use akula.Prelude.Bytes.{to_be_bytes, from_be_bytes, length-to_be_bytes, from_be_bytes-to_be_bytes}
use akula.Errors.{Result, ok, err, panicked, map_ok}

-- `KECCAK_LENGTH`
abbrev pub keccak_length : ℕ
keccak_length = 32

pub record Node : Type 0 where
  pub state_mask : ℕ
  pub tree_mask : ℕ
  pub hash_mask : ℕ
  pub hashes : List ℕ
  pub root_hash : Option ℕ

-- `u16::count_ones`, by the bits that are left.
ones : ℕ → ℕ → ℕ
ones zero n = 0
ones (suc fuel) n = n % 2 + ones fuel (n / 2)

unfoldable pub count_ones : ℕ → ℕ
unfolding ones
count_ones mask = ones 16 mask

-- The assertion of `assert_subset` (src/trie/util.rs).
abbrev pub is_subset : ℕ → ℕ → Bool
is_subset sub sup = bit_and sub sup == sub

unfoldable pub new : ℕ → ℕ → ℕ → List ℕ → Option ℕ → Result Node
unfolding count_ones
new state_mask tree_mask hash_mask hashes root_hash =
    if is_subset tree_mask state_mask
      && (is_subset hash_mask state_mask && count_ones hash_mask == length hashes)
    then ok record {
      state_mask = state_mask;
      tree_mask = tree_mask;
      hash_mask = hash_mask;
      hashes = hashes;
      root_hash = root_hash;
    }
    else err panicked

unfoldable pub hash_bytes : List ℕ → List ℕ
hash_bytes [] = []
hash_bytes (hash ∷ rest) = to_be_bytes keccak_length hash ++ hash_bytes rest

abbrev pub root_bytes : Option ℕ → List ℕ
root_bytes none = []
root_bytes (some hash) = to_be_bytes keccak_length hash

unfoldable pub marshal_node : Node → List ℕ
unfolding hash_bytes
marshal_node n =
    to_be_bytes 2 n.state_mask
    ++ (to_be_bytes 2 n.tree_mask
        ++ (to_be_bytes 2 n.hash_mask ++ (root_bytes n.root_hash ++ hash_bytes n.hashes)))

-- The last loop of `unmarshal_node`, by its rounds.
unfoldable pub read_hashes : ℕ → List ℕ → List ℕ
read_hashes zero v = []
read_hashes (suc rounds) v =
    from_be_bytes (take keccak_length v) ∷ read_hashes rounds (drop keccak_length v)

-- From the root hash on: the bytes `v[6..]`.
unfoldable pub unmarshal_hashes : ℕ → ℕ → ℕ → List ℕ → Result (Option Node)
unfolding read_hashes
unmarshal_hashes state_mask tree_mask hash_mask v =
    if count_ones hash_mask + 1 == length v / keccak_length
    then map_ok some (
        new state_mask tree_mask hash_mask
          (read_hashes (length (drop keccak_length v) / keccak_length) (drop keccak_length v))
          (some (from_be_bytes (take keccak_length v))))
    else map_ok some
        (new state_mask tree_mask hash_mask (read_hashes (length v / keccak_length) v) none)

unfoldable pub unmarshal_node : List ℕ → Result (Option Node)
unfolding unmarshal_hashes
unmarshal_node v =
    if ltb (length v) 6 || not ((length v - 6) % keccak_length == 0)
    then ok none
    else unmarshal_hashes (from_be_bytes (take 2 v)) (from_be_bytes (take 2 (drop 2 v)))
        (from_be_bytes (take 2 (drop 4 v))) (drop 6 v)

-- A node that `new` made, of masks of 16 bits and hashes of 256.
abbrev pub Hashes : List ℕ → Type 0
Hashes [] = Unit
Hashes (hash ∷ rest) = (hash < 256 ^ 32) × Hashes rest

abbrev pub Root : Option ℕ → Type 0
Root none = Unit
Root (some hash) = hash < 256 ^ 32

pub record IsNode (n : Node) : Type 0 where
  pub made : new n.state_mask n.tree_mask n.hash_mask n.hashes n.root_hash ≡ ok n
  pub state : n.state_mask < 256 ^ 2
  pub tree : n.tree_mask < 256 ^ 2
  pub hash : n.hash_mask < 256 ^ 2
  pub words : Hashes n.hashes
  pub root : Root n.root_hash

take_word :
    (w n : ℕ) (rest : List ℕ) → n < 256 ^ w → from_be_bytes (take w (to_be_bytes w n ++ rest)) ≡ n
take_word w n rest h =
    ap (λ (k : ℕ). from_be_bytes (take k (to_be_bytes w n ++ rest))) (sym (length-to_be_bytes w n))
    ∙ ap from_be_bytes (take-append (to_be_bytes w n) rest)
    ∙ from_be_bytes-to_be_bytes w n h

drop_word : (w n : ℕ) (rest : List ℕ) → drop w (to_be_bytes w n ++ rest) ≡ rest
drop_word w n rest =
    ap (λ (k : ℕ). drop k (to_be_bytes w n ++ rest)) (sym (length-to_be_bytes w n))
    ∙ drop-append (to_be_bytes w n) rest

length_word : (w n : ℕ) (rest : List ℕ) → length (to_be_bytes w n ++ rest) ≡ w + length rest
length_word w n rest = omega (arith, length-append (to_be_bytes w n) rest, length-to_be_bytes w n)

length-hash_bytes : (hashes : List ℕ) → length (hash_bytes hashes) ≡ 32 * length hashes
unfolding hash_bytes
length-hash_bytes [] = refl
length-hash_bytes (hash ∷ rest) =
    omega (arith, length_word 32 hash (hash_bytes rest), length-hash_bytes rest)

read_hashes-hash_bytes :
    (hashes : List ℕ) → Hashes hashes → read_hashes (length hashes) (hash_bytes hashes) ≡ hashes
unfolding read_hashes hash_bytes
read_hashes-hash_bytes [] h = refl
read_hashes-hash_bytes (hash ∷ rest) (lt, h) =
    rw (take_word 32 hash (hash_bytes rest) lt, drop_word 32 hash (hash_bytes rest))
      (ap (◌∷◌ hash) (read_hashes-hash_bytes rest h))

counted :
    (s t m : ℕ) (hashes : List ℕ) (root : Option ℕ) (n : Node)
    → new s t m hashes root ≡ ok n
    → count_ones m ≡ length hashes
unfolding new
counted s t m hashes root n h = elim (Bool-cases (count_ones m == length hashes)) [
  | inl same ↦ (==_iff (count_ones m) (length hashes)).0 same
  | inr other ↦ absurd (ground arith)
]

hashes_alone :
    (s t m : ℕ) (hashes : List ℕ)
    → Hashes hashes
    → count_ones m ≡ length hashes
    → unmarshal_hashes s t m (hash_bytes hashes) ≡ map_ok some (new s t m hashes none)
unfolding unmarshal_hashes
hashes_alone s t m hashes words count =
    let rounds : length (hash_bytes hashes) / 32 ≡ length hashes =
      omega (arith, length-hash_bytes hashes) in
    let no_root : (count_ones m + 1 == length (hash_bytes hashes) / 32) ≡ false = ground arith in
    rw (no_root, rounds, read_hashes-hash_bytes hashes words) refl

hashes_rooted :
    (s t m root : ℕ) (hashes : List ℕ)
    → Hashes hashes
    → root < 256 ^ 32
    → count_ones m ≡ length hashes
    → unmarshal_hashes s t m (to_be_bytes 32 root ++ hash_bytes hashes)
      ≡ map_ok some (new s t m hashes (some root))
unfolding unmarshal_hashes
hashes_rooted s t m root hashes words small count =
    let rounds : length (hash_bytes hashes) / 32 ≡ length hashes =
      omega (arith, length-hash_bytes hashes) in
    let rooted : (count_ones m + 1 == length (to_be_bytes 32 root ++ hash_bytes hashes) / 32)
        ≡ true =
      ground (arith, length_word 32 root (hash_bytes hashes)) in
    rw
      (
        rooted,
        drop_word 32 root (hash_bytes hashes),
        take_word 32 root (hash_bytes hashes) small,
        rounds,
        read_hashes-hash_bytes hashes words,
      )
      refl

hashes_back :
    (s t m : ℕ) (root : Option ℕ) (hashes : List ℕ)
    → Hashes hashes
    → Root root
    → count_ones m ≡ length hashes
    → unmarshal_hashes s t m (root_bytes root ++ hash_bytes hashes)
      ≡ map_ok some (new s t m hashes root)
hashes_back s t m none hashes words small count = hashes_alone s t m hashes words count
hashes_back s t m (some root) hashes words small count =
    hashes_rooted s t m root hashes words small count

length-root_bytes : (root : Option ℕ) → (length (root_bytes root) % 32 ≡ 0)
length-root_bytes none = refl
length-root_bytes (some hash) = omega (arith, length-to_be_bytes 32 hash)

long_enough :
    (v : List ℕ)
    → 6 ≤ length v
    → (length v - 6) % 32 ≡ 0
    → unmarshal_node v
      ≡ unmarshal_hashes
          (from_be_bytes (take 2 v))
          (from_be_bytes (take 2 (drop 2 v)))
          (from_be_bytes (take 2 (drop 4 v)))
          (drop 6 v)
unfolding unmarshal_node
long_enough v long whole =
    let not_short : ltb (length v) 6 ≡ false = ground arith in rw (not_short, whole) refl

-- What follows three words of two bytes.
three_words :
    (a b c : ℕ) (rest : List ℕ)
    → a < 256 ^ 2
    → b < 256 ^ 2
    → c < 256 ^ 2
    → length rest % 32 ≡ 0
    → unmarshal_node (to_be_bytes 2 a ++ (to_be_bytes 2 b ++ (to_be_bytes 2 c ++ rest)))
      ≡ unmarshal_hashes a b c rest
unfolding to_be_bytes
three_words a b c rest ha hb hc whole =
    long_enough (to_be_bytes 2 a ++ (to_be_bytes 2 b ++ (to_be_bytes 2 c ++ rest))) (omega arith)
      (omega arith)
    ∙ λ i.
        unmarshal_hashes (take_word 2 a (to_be_bytes 2 b ++ (to_be_bytes 2 c ++ rest)) ha i)
          (take_word 2 b (to_be_bytes 2 c ++ rest) hb i) (take_word 2 c rest hc i) rest

-- Unmarshalling the bytes of a node that was made of 16-bit masks and 256-bit hashes gives the node
-- back, with its root hash or without one.
pub unmarshal_node-marshal_node :
    (n : Node) → IsNode n → unmarshal_node (marshal_node n) ≡ ok (some n)
unfolding marshal_node
unmarshal_node-marshal_node n is =
    three_words n.state_mask n.tree_mask n.hash_mask (root_bytes n.root_hash ++ hash_bytes n.hashes)
      is.state is.tree is.hash
      (omega (
        arith,
        length-append (root_bytes n.root_hash) (hash_bytes n.hashes),
        length-root_bytes n.root_hash,
        length-hash_bytes n.hashes,
      ))
    ∙ hashes_back n.state_mask n.tree_mask n.hash_mask n.root_hash n.hashes is.words is.root
        (counted n.state_mask n.tree_mask n.hash_mask n.hashes n.root_hash n is.made)
    ∙ ap (map_ok some) is.made
