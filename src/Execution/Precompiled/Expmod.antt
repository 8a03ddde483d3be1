-- ===== src/Execution/Precompiled/Expmod.antt =====
-- src/execution/precompiled.rs, `expmod_gas`, and the padding of src/util.rs.
use akula.Prelude.{
  ℕ, zero, suc, ◌+◌, ◌-◌, ◌/◌, max, min, Bool, true, false, Option, none, some, List, [], ◌∷◌, ◌++◌,
  length, take, drop, ltb, leb, ◌==◌, ◌&&◌, if◌then◌else◌,
}
use akula.Prelude.Words.{u64_mod, mul64, add256, sub256, mul256}
use akula.Prelude.Bytes.{from_be_bytes}
use akula.Chain.Param.{g_quad_divisor_byzantium, g_quad_divisor_berlin}
use akula.Models.Revision.{Revision, Rank, at_least, berlin}

zeros : ℕ → List ℕ
zeros zero = []
zeros (suc n) = 0 ∷ zeros n

-- `left_pad` and `right_pad`: `pad` with its flag.
unfoldable pub pad : Bool → List ℕ → ℕ → List ℕ
unfolding zeros
pad left buffer min_size =
    if leb min_size (length buffer)
    then buffer
    else if left
    then zeros (min_size - length buffer) ++ buffer
    else buffer ++ zeros (min_size - length buffer)

-- `input[from..from + len]`
abbrev pub slice : ℕ → ℕ → List ℕ → List ℕ
slice from len input = take len (drop from input)

-- `256 - x.leading_zeros()`: the bits of a number, of which there are at most `fuel`.
unfoldable pub bits : ℕ → ℕ → ℕ
bits zero x = 0
bits (suc fuel) x = let rest = bits fuel (x / 2) in if x == 0 then 0 else suc rest

unfoldable pub mult_complexity_eip198 : ℕ → ℕ
mult_complexity_eip198 x =
    let x_squared = mul256 x x in
    if leb x 64
    then x_squared
    else if leb x 1024
    then sub256 (add256 (x_squared / 4) (mul256 96 x)) 3072
    else sub256 (add256 (x_squared / 16) (mul256 480 x)) 199_680

unfoldable pub mult_complexity_eip2565 : ℕ → ℕ
mult_complexity_eip2565 max_length = let words = add256 max_length 7 / 8 in mul256 words words

-- The first 32 bytes of the exponent; `input` is what stands behind the three lengths.
unfoldable pub exponent_head : ℕ → ℕ → List ℕ → ℕ
unfolding pad from_be_bytes
exponent_head base_len exp_len input =
    let exp_input =
      pad false (slice base_len (min (base_len + 32) (length input) - base_len) input) 32 in
    let word = if ltb exp_len 32 then pad true (take exp_len exp_input) 32 else exp_input in
    if ltb base_len (length input) then from_be_bytes (take 32 word) else 0

-- `8 * (exp_len - 32)` is a product of `usize`.
unfoldable pub adjusted_exponent_len : ℕ → ℕ → ℕ
adjusted_exponent_len exp_len bit_len =
    let long = if ltb 32 exp_len then mul64 8 (exp_len - 32) else 0 in
    let both = if ltb 1 bit_len then add256 long (bit_len - 1) else long in
    if both == 0 then 1 else both

-- `u64::try_from(gas).ok()`
abbrev pub as_word : ℕ → Option ℕ
as_word n = if ltb n u64_mod then some n else none

-- `Some(std::cmp::max(min_gas, u64::try_from(gas).ok()?))`
abbrev pub at_least_gas : ℕ → Option ℕ → Option ℕ
at_least_gas min_gas none = none
at_least_gas min_gas (some gas) = some (max min_gas gas)

module _ (rank : Rank) (rev : Revision) where
  -- From the adjusted length of the exponent on.
  unfoldable pub priced : ℕ → ℕ → ℕ → Option ℕ
  unfolding mult_complexity_eip198 mult_complexity_eip2565
  priced base_len mod_len exponent =
      let max_length = max mod_len base_len in
      if at_least rank rev berlin
      then at_least_gas 200
          (as_word (mul256 (mult_complexity_eip2565 max_length) exponent / g_quad_divisor_berlin))
      else at_least_gas 0
          (as_word (mul256 (mult_complexity_eip198 max_length) exponent / g_quad_divisor_byzantium))

  unfoldable pub expmod_gas : List ℕ → Option ℕ
  unfolding pad from_be_bytes exponent_head adjusted_exponent_len priced
  expmod_gas unpadded =
      let input = pad false unpadded 96 in
      let base_len = from_be_bytes (slice 0 32 input) in
      let exp_len = from_be_bytes (slice 32 32 input) in
      let mod_len = from_be_bytes (slice 64 32 input) in
      if base_len == 0 && mod_len == 0
      then some (if at_least rank rev berlin then 200 else 0)
      else if ltb base_len u64_mod && (ltb exp_len u64_mod && ltb mod_len u64_mod)
      then priced base_len mod_len (
          adjusted_exponent_len exp_len (bits 256 (exponent_head base_len exp_len (drop 96 input))))
      else none
