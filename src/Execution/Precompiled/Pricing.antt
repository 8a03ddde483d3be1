-- ===== src/Execution/Precompiled/Pricing.antt =====
-- The price of a modular exponentiation in src/execution/precompiled.rs, against EIP-198 and EIP-2565.
use akula.Prelude.{
  ℕ, suc, ◌+◌, ◌-◌, ◌*◌, ◌/◌, ◌%◌, ◌^◌, ◌≤◌, ◌<◌, max, ◌≡◌, refl, Bool, true, false, none, some,
  arith, zero, Bool-cases, inl, inr, ltb→lt, List, drop, ◌&&◌, ltb, leb, ◌==◌, if◌then◌else◌,
}
use akula.Prelude.Words.{u64_mod, u256_mod, mul256}
use akula.Prelude.Bytes.{from_be_bytes}
use akula.Models.Revision.{Revision, Rank, at_least, berlin}
use akula.Execution.Precompiled.Expmod.{
  mult_complexity_eip198, mult_complexity_eip2565, adjusted_exponent_len, priced, as_word,
  at_least_gas, expmod_gas, slice, pad, bits, exponent_head,
}

-- The three lengths that an input begins with, and the bits of the first 32 bytes of its exponent.
abbrev pub base_len_of : List ℕ → ℕ
base_len_of input = from_be_bytes (slice 0 32 (pad false input 96))

abbrev pub exp_len_of : List ℕ → ℕ
exp_len_of input = from_be_bytes (slice 32 32 (pad false input 96))

abbrev pub mod_len_of : List ℕ → ℕ
mod_len_of input = from_be_bytes (slice 64 32 (pad false input 96))

abbrev pub exponent_bits : List ℕ → ℕ
exponent_bits input =
    bits 256 (exponent_head (base_len_of input) (exp_len_of input) (drop 96 (pad false input 96)))

-- EIP-198: `mult_complexity`, and the adjusted exponent length of an exponent of `exp_len` bytes whose
-- first 32 bytes have `bit_len` bits.
abbrev pub complexity : ℕ → ℕ
complexity x =
    if leb x 64
    then x * x
    else if leb x 1024
    then x * x / 4 + 96 * x - 3072
    else x * x / 16 + 480 * x - 199_680

abbrev pub exponent_length : ℕ → ℕ → ℕ
exponent_length exp_len bit_len = max 1 (8 * (exp_len - 32) + (bit_len - 1))

-- EIP-2565: the square of the words.
abbrev pub complexity_words : ℕ → ℕ
complexity_words x = (x + 7) / 8 * ((x + 7) / 8)

square_bound : (x : ℕ) → x < u64_mod → x * x < u64_mod * u64_mod
square_bound x h = grind arith

complexity_lem :
    (x : ℕ) → x < u64_mod → (mult_complexity_eip198 x ≡ complexity x) × (complexity x < 2 ^ 129)
unfolding mult_complexity_eip198
complexity_lem x h = (ground (arith, square_bound x h), ground (arith, square_bound x h))

square_words : (x : ℕ) → x < u64_mod → (x + 7) / 8 * ((x + 7) / 8) < u64_mod * u64_mod
square_words x h = square_bound ((x + 7) / 8) (omega arith)

complexity_words_lem :
    (x : ℕ)
    → x < u64_mod
    → (mult_complexity_eip2565 x ≡ complexity_words x) × (complexity_words x < 2 ^ 129)
unfolding mult_complexity_eip2565
complexity_words_lem x h =
    let small : (x + 7) % u256_mod ≡ x + 7 = omega arith in
    (rw small (omega (arith, square_words x h)), omega (arith, square_words x h))

adjusted_lem : (e b : ℕ) → e ≤ 2 ^ 61 → b ≤ 256 → adjusted_exponent_len e b ≡ exponent_length e b
unfolding adjusted_exponent_len
adjusted_lem e b h k = ground arith

product_bound : (a b c d : ℕ) → a < c → b < d → a * b < c * d
product_bound a b c d h k = grind arith

mul256_lem : (a b : ℕ) → a < 2 ^ 129 → b < 2 ^ 65 → mul256 a b ≡ a * b
mul256_lem a b h k = omega (arith, product_bound a b (2 ^ 129) (2 ^ 65) h k)

-- The price of EIP-2565 from Berlin on, and of EIP-198 before.
abbrev pub price : Bool → ℕ → ℕ → ℕ
price is_berlin max_length exponent =
    if is_berlin
    then max 200 (complexity_words max_length * exponent / 3)
    else complexity max_length * exponent / 20

exponent_bound : (e b : ℕ) → e ≤ 2 ^ 61 → b ≤ 256 → exponent_length e b < 2 ^ 65
exponent_bound e b h k = omega arith

module _ (rank : Rank) (rev : Revision) where
  priced_exact :
      (base_len mod_len exponent : ℕ)
      → base_len < u64_mod
      → mod_len < u64_mod
      → exponent < 2 ^ 65
      → priced rank rev base_len mod_len exponent ≡ (
          if at_least rank rev berlin
          then at_least_gas 200 (as_word (complexity_words (max mod_len base_len) * exponent / 3))
          else at_least_gas 0 (as_word (complexity (max mod_len base_len) * exponent / 20)))
  unfolding priced
  priced_exact base_len mod_len exponent hb hm he =
      let longest : max mod_len base_len < u64_mod = omega arith in
      let (words, w) = complexity_words_lem (max mod_len base_len) longest in
      let (old, o) = complexity_lem (max mod_len base_len) longest in
      rw (words, old, mul256_lem _ exponent w he, mul256_lem _ exponent o he) refl

  priced_lem :
      (base_len mod_len e b : ℕ)
      → base_len < u64_mod
      → mod_len < u64_mod
      → e ≤ 2 ^ 61
      → b ≤ 256
      → priced rank rev base_len mod_len (adjusted_exponent_len e b)
        ≡ as_word (price (at_least rank rev berlin) (max mod_len base_len) (exponent_length e b))
  priced_lem base_len mod_len e b hb hm he k =
      rw
        (
          adjusted_lem e b he k,
          priced_exact base_len mod_len (exponent_length e b) hb hm (exponent_bound e b he k),
        )
        (by_word (complexity_words (max mod_len base_len) * exponent_length e b / 3)
          (complexity (max mod_len base_len) * exponent_length e b / 20))
    where
      by_word :
          (p q : ℕ)
          → (if at_least rank rev berlin
              then at_least_gas 200 (as_word p)
              else at_least_gas 0 (as_word q))
            ≡ as_word (if at_least rank rev berlin then max 200 p else q)
      by_word p q = ground arith

  bits-le : (fuel x : ℕ) → bits fuel x ≤ fuel
  unfolding bits
  bits-le zero x = omega arith
  bits-le (suc fuel) x = ground (arith, bits-le fuel (x / 2))

  by_lengths :
      (base_len mod_len e b : ℕ)
      → e ≤ 2 ^ 61
      → b ≤ 256
      → (if base_len == 0 && mod_len == 0
          then some (if at_least rank rev berlin then 200 else 0)
          else if ltb base_len u64_mod && (ltb e u64_mod && ltb mod_len u64_mod)
          then priced rank rev base_len mod_len (adjusted_exponent_len e b)
          else none)
        ≡ (if base_len == 0 && mod_len == 0
            then some (if at_least rank rev berlin then 200 else 0)
            else if ltb base_len u64_mod && ltb mod_len u64_mod
            then as_word
                (price (at_least rank rev berlin) (max mod_len base_len) (exponent_length e b))
            else none)
  by_lengths base_len mod_len e b h k =
      let few : ltb e u64_mod ≡ true = ground arith in
      elim (Bool-cases (ltb base_len u64_mod)) [
        | inr long ↦ rw long refl
        | inl fits ↦ elim (Bool-cases (ltb mod_len u64_mod)) [
          | inr long ↦ rw (fits, few, long) refl
          | inl fits' ↦
              rw
                (
                  fits,
                  few,
                  fits',
                  priced_lem base_len mod_len e b (ltb→lt _ _ fits) (ltb→lt _ _ fits') h k,
                )
                refl
        ]
      ]

  -- The gas of a modular exponentiation whose exponent has at most 2^61 bytes is the price of EIP-2565
  -- from Berlin on and of EIP-198 before it, without a wrap of any word; it is the minimum if neither the
  -- base nor the modulus has a byte, and there is none if a length or the price does not fit 64 bits.
  pub expmod_gas_lem :
      (input : List ℕ)
      → exp_len_of input ≤ 2 ^ 61
      → expmod_gas rank rev input ≡ (
          if base_len_of input == 0 && mod_len_of input == 0
          then some (if at_least rank rev berlin then 200 else 0)
          else if ltb (base_len_of input) u64_mod && ltb (mod_len_of input) u64_mod
          then as_word (
              price
                (at_least rank rev berlin)
                (max (mod_len_of input) (base_len_of input))
                (exponent_length (exp_len_of input) (exponent_bits input)))
          else none)
  unfolding expmod_gas
  expmod_gas_lem input h =
      by_lengths (base_len_of input) (mod_len_of input) (exp_len_of input) (exponent_bits input) h (
        bits-le 256
          (exponent_head (base_len_of input) (exp_len_of input) (drop 96 (pad false input 96))))
