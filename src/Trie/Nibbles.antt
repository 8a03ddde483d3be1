-- ===== src/Trie/Nibbles.antt =====
-- src/trie/hash_builder.rs, `encode_path`, `pack_nibbles`, `unpack_nibbles`; src/trie/util.rs,
-- `prefix_length`. Nibbles are numbers below 16.
use akula.Prelude.{
  ℕ, zero, suc, ◌+◌, ◌*◌, ◌/◌, ◌%◌, ◌<◌, ◌≡◌, refl, ap, ◌∙◌, Bool, true, false, not, List, [], ◌∷◌,
  ◌++◌, arith, ◌==◌, if◌then◌else◌,
}
use Prim.Native.Nat.{bit_or}

-- Two nibbles to a byte; the last byte of an odd path has its nibble in front.
unfoldable pub pack_nibbles : List ℕ → List ℕ
pack_nibbles [] = []
pack_nibbles (a ∷ []) = a * 16 % 256 ∷ []
pack_nibbles (a ∷ b ∷ rest) = (a * 16 % 256 + b) % 256 ∷ pack_nibbles rest

unfoldable pub unpack_nibbles : List ℕ → List ℕ
unpack_nibbles [] = []
unpack_nibbles (b ∷ rest) = b / 16 ∷ b % 16 ∷ unpack_nibbles rest

-- `nibbles.len() % 2 != 0`
unfoldable pub is_odd : List ℕ → Bool
is_odd [] = false
is_odd (a ∷ rest) = not (is_odd rest)

-- The first byte holds the flags and, of an odd path, the first nibble.
unfoldable pub with_flags : ℕ → List ℕ → List ℕ
unfolding pack_nibbles is_odd
with_flags flag [] = flag ∷ []
with_flags flag (a ∷ rest) =
    if is_odd (a ∷ rest)
    then bit_or (flag + 0x10) a ∷ pack_nibbles rest
    else flag ∷ pack_nibbles (a ∷ rest)

abbrev flag_of : Bool → ℕ
flag_of terminating = if terminating then 0x20 else 0

unfoldable pub encode_path : List ℕ → Bool → List ℕ
unfolding with_flags
encode_path nibbles terminating = with_flags (flag_of terminating) nibbles

-- `prefix_length`
unfoldable pub prefix_length : List ℕ → List ℕ → ℕ
prefix_length [] t = 0
prefix_length (a ∷ s) [] = 0
prefix_length (a ∷ s) (b ∷ t) = let rest = prefix_length s t in if a == b then suc rest else 0

abbrev pub AreNibbles : List ℕ → Type 0
AreNibbles [] = Unit
AreNibbles (a ∷ rest) = (a < 16) × AreNibbles rest

not-not : (b : Bool) → b ≡ not (not b)
not-not true = refl
not-not false = refl

-- An odd path gets a zero at its end.
pub unpack_nibbles-pack_nibbles :
    (l : List ℕ)
    → AreNibbles l
    → unpack_nibbles (pack_nibbles l) ≡ l ++ (if is_odd l then 0 ∷ [] else [])
unfolding pack_nibbles unpack_nibbles is_odd
unpack_nibbles-pack_nibbles [] h = refl
unpack_nibbles-pack_nibbles (a ∷ []) (lt, h) = ground arith
unpack_nibbles-pack_nibbles (a ∷ b ∷ rest) (lt, (lt', h)) =
    let high : (a * 16 % 256 + b) % 256 / 16 ≡ a = omega arith in
    let low : (a * 16 % 256 + b) % 256 % 16 ≡ b = omega arith in
    let both : unpack_nibbles (pack_nibbles rest)
        ≡ rest ++ (if not (not (is_odd rest)) then 0 ∷ [] else []) =
      unpack_nibbles-pack_nibbles rest h
      ∙ ap (λ (c : Bool). rest ++ (if c then 0 ∷ [] else [])) (not-not (is_odd rest)) in
    λ i. high i ∷ low i ∷ both i

-- The yellow paper's hex-prefix decoding: whether the path ends, and its nibbles.
abbrev pub decode_path : List ℕ → List ℕ × Bool
decode_path [] = ([], false)
decode_path (b ∷ rest) =
    (if b / 16 % 2 == 1 then b % 16 ∷ unpack_nibbles rest else unpack_nibbles rest, b / 32 == 1)

-- A property of every nibble.
abbrev OfNibbles : (ℕ → Type 0) → ℕ → Type 0
OfNibbles P zero = Unit
OfNibbles P (suc k) = OfNibbles P k × P k

-- A nibble is joined to either flag of an odd path as to a sum.
abbrev Joins : ℕ → Type 0
Joins a = (bit_or 0x10 a ≡ 0x10 + a) × (bit_or 0x30 a ≡ 0x30 + a)
