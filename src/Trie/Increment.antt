-- ===== src/Trie/Increment.antt =====
-- src/trie/intermediate_hashes.rs, `increment_key`: the next key of the same length.
use akula.Prelude.{
  ℕ, suc, ◌+◌, ◌*◌, ◌^◌, ◌<◌, ◌≡◌, refl, Bool, true, false, Option, none, some, List, [], ◌∷◌,
  arith, ltb, if◌then◌else◌, length, Bool-cases, inl, inr,
}
use native.Mathlib.Nat.{pow-suc}
use akula.Errors.{Result, ok, err, panicked, map_ok, ◌>>=◌}
use akula.Trie.Nibbles.{AreNibbles}

-- One round of the loop of `increment_key`, which runs from the last nibble on, with what stands behind
-- the nibble and whether the loop has run through that.
unfoldable pub increment_nibble : ℕ → List ℕ → Bool → Result (List ℕ × Bool)
increment_nibble a r false = ok (a ∷ r, false)
increment_nibble a r true =
    if ltb a 0x10
    then if ltb a 0xf then ok ((a + 1) ∷ r, false) else ok (0 ∷ r, true)
    else err panicked

unfoldable pub increment_from : List ℕ → Result (List ℕ × Bool)
unfolding increment_nibble
increment_from [] = ok ([], true)
increment_from (a ∷ rest) = increment_from rest >>= λ p. increment_nibble a p.0 p.1

unfoldable pub increment_key : List ℕ → Result (Option (List ℕ))
unfolding increment_from
increment_key unpacked = map_ok (λ p. if p.1 then none else some p.0) (increment_from unpacked)

-- The number that nibbles write in base 16.
unfoldable pub value : List ℕ → ℕ
value [] = 0
value (a ∷ rest) = a * 16 ^ length rest + value rest

one_up : (a p v w : ℕ) → w + p ≡ v + 1 → (a + 1) * p + w + 0 ≡ a * p + v + 1
one_up a p v w e = grind arith

all_up : (a p q v w : ℕ) → a ≡ 15 → q ≡ p * 16 → w + p ≡ v + 1 → 0 * p + w + q ≡ a * p + v + 1
all_up a p q v w is e f = rw is (omega arith)

-- The nibbles behind a place, and what the loop has made of them.
abbrev Raised : ℕ → ℕ → List ℕ × Bool → Type 0
Raised n v p = (length p.0 ≡ n) × (value p.0 + (if p.1 then 16 ^ n else 0) ≡ v + 1) × AreNibbles p.0

-- What the loop makes of nibbles.
abbrev Rises : (n v : ℕ) → Result (List ℕ × Bool) → Type 0
Rises n v result = (p : List ℕ × Bool) × (result ≡ ok p) × Raised n v p

round_lem :
    (a n v : ℕ) (p : List ℕ × Bool)
    → a < 16
    → Raised n v p
    → Rises (suc n) (a * 16 ^ n + v) (increment_nibble a p.0 p.1)
unfolding increment_nibble value
round_lem a n v (r, false) lt (len, val, small) =
    ((a ∷ r, false), refl, (omega arith, rw len (omega arith), (lt, small)))
round_lem a n v (r, true) lt (len, val, small) =
    let nibble : ltb a 0x10 ≡ true = ground arith in
    elim (Bool-cases (ltb a 0xf)) [
      | inl low ↦ (
        ((a + 1) ∷ r, false),
        rw (nibble, low) refl,
        (omega arith, rw len (one_up a (16 ^ n) v (value r) val), (ground arith, small)),
      )
      | inr top ↦ (
        (0 ∷ r, true),
        rw (nibble, top) refl,
        (
          omega arith,
          rw len (all_up a (16 ^ n) (16 ^ suc n) v (value r) (ground arith) (pow-suc 16 n) val),
          (omega arith, small),
        ),
      )
    ]

loop_lem : (l : List ℕ) → AreNibbles l → Rises (length l) (value l) (increment_from l)
unfolding increment_from value
loop_lem [] h = (([], true), refl, (refl, refl, tt))
loop_lem (a ∷ rest) (lt, h) =
    let (p, runs, raised) = loop_lem rest h in
    let (q, ends, more) = round_lem a (length rest) (value rest) p lt raised in
    (q, rw runs ends, more)

value-lt : (l : List ℕ) → AreNibbles l → value l < 16 ^ length l
unfolding value
value-lt [] h = omega arith
value-lt (a ∷ rest) (lt, h) =
    below a (16 ^ length rest) (16 ^ suc (length rest)) (value rest) lt (value-lt rest h)
      (pow-suc 16 (length rest))
  where
    below : (a p q v : ℕ) → a < 16 → v < p → q ≡ p * 16 → a * p + v < q
    below a p q v h k e = grind arith

-- The key after a key, as numbers in base 16 of as many digits, or none when there is no such number.
abbrev pub IsNext : List ℕ → Option (List ℕ) → Type 0
IsNext l none = value l + 1 ≡ 16 ^ length l
IsNext l (some r) = (length r ≡ length l) × (value r ≡ value l + 1) × AreNibbles r

-- `increment_key` never panics on a key of nibbles. It answers the key whose number in base 16, of as
-- many digits, is the next one, and none exactly for the last number of that many digits.
pub increment_key_lem :
    (l : List ℕ) → AreNibbles l → (o : Option (List ℕ)) × (increment_key l ≡ ok o) × IsNext l o
unfolding increment_key
increment_key_lem l h = let (p, runs, raised) = loop_lem l h in answer p runs raised
  where
    answer :
        (p : List ℕ × Bool)
        → increment_from l ≡ ok p
        → Raised (length l) (value l) p
        → (o : Option (List ℕ)) × (increment_key l ≡ ok o) × IsNext l o
    answer (r, true) runs (len, val, small) = (none, rw runs refl, omega (arith, value-lt l h))
    answer (r, false) runs (len, val, small) = (some r, rw runs refl, (len, omega arith, small))
