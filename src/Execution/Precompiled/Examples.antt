-- ===== src/Execution/Precompiled/Examples.antt =====
-- Instances of the theorems on the price of a modular exponentiation.
use akula.Prelude.{
  ℕ, ◌≡◌, arith, none, some, List, [], ◌∷◌, ◌++◌, max, ◌==◌, ◌&&◌, ltb, if◌then◌else◌,
}
use akula.Models.Revision.{
  Revision, frontier, homestead, tangerine, spurious, byzantium, constantinople, petersburg,
  istanbul, berlin, london, at_least,
}
use akula.Prelude.Words.{u64_mod}
use akula.Prelude.Bytes.{to_be_bytes, from_be_bytes}
use akula.Execution.Precompiled.Expmod.{pad, as_word, expmod_gas}
use akula.Execution.Precompiled.Pricing.{
  expmod_gas_lem, base_len_of, exp_len_of, mod_len_of, exponent_bits, price, exponent_length,
}

abbrev rank : Revision → ℕ
rank frontier = 0
rank homestead = 1
rank tangerine = 2
rank spurious = 3
rank byzantium = 4
rank constantinople = 5
rank petersburg = 6
rank istanbul = 7
rank berlin = 8
rank london = 9

-- 3 to the power 65537 modulo 1000, with lengths of 1, 3 and 2 bytes.
abbrev input : List ℕ
input =
    to_be_bytes 32 1 ++ (to_be_bytes 32 3 ++ (to_be_bytes 32 2 ++ (3 ∷ 1 ∷ 0 ∷ 1 ∷ 3 ∷ 232 ∷ [])))

expmod_gas_lem_example : expmod_gas rank istanbul input ≡ (
    if base_len_of input == 0 && mod_len_of input == 0
    then some (if at_least rank istanbul berlin then 200 else 0)
    else if ltb (base_len_of input) u64_mod && ltb (mod_len_of input) u64_mod
    then as_word (
        price
          (at_least rank istanbul berlin)
          (max (mod_len_of input) (base_len_of input))
          (exponent_length (exp_len_of input) (exponent_bits input)))
    else none)
unfolding to_be_bytes from_be_bytes pad
expmod_gas_lem_example = expmod_gas_lem rank istanbul input (omega arith)
