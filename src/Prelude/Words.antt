-- ===== src/Prelude/Words.antt =====
-- The widths of the machine integers that the program uses, and their wrapping operations. A release
-- build (the profile in Cargo.toml) wraps `+`, `-` and `*`.
use Prim.Native.Nat.{ℕ, ◌+◌, ◌-◌, ◌*◌, ◌%◌, ◌^◌}
use mathlib.Core.Bool.{Bool, false}
use akula.Prelude.Tests.{ltb, leb, if◌then◌else◌}

abbrev pub u64_mod : ℕ
u64_mod = 2 ^ 64

abbrev pub u128_mod : ℕ
u128_mod = 2 ^ 128

abbrev pub u256_mod : ℕ
u256_mod = 2 ^ 256

abbrev pub add64 : ℕ → ℕ → ℕ
add64 a b = (a + b) % u64_mod

abbrev pub sub64 : ℕ → ℕ → ℕ
sub64 a b = (a + u64_mod - b) % u64_mod

abbrev pub add256 : ℕ → ℕ → ℕ
add256 a b = (a + b) % u256_mod

abbrev pub sub256 : ℕ → ℕ → ℕ
sub256 a b = (a + u256_mod - b) % u256_mod

abbrev pub mul256 : ℕ → ℕ → ℕ
mul256 a b = (a * b) % u256_mod

abbrev pub mul64 : ℕ → ℕ → ℕ
mul64 a b = (a * b) % u64_mod

-- `i64`: `negsuc n` is -(n + 1).
pub data ℤ : Type 0 where
  pos : ℕ → ℤ
  negsuc : ℕ → ℤ

-- `n as i64` of a `u64`, and back.
abbrev pub as_i64 : ℕ → ℤ
as_i64 n = if ltb n (2 ^ 63) then pos n else negsuc (u64_mod - n - 1)

abbrev pub as_u64 : ℤ → ℕ
as_u64 (pos n) = n
as_u64 (negsuc n) = u64_mod - n - 1

-- `n <= i` for an `n` that is not negative.
abbrev pub le_ℤ : ℕ → ℤ → Bool
le_ℤ n (pos m) = leb n m
le_ℤ n (negsuc m) = false

-- `i - n`, which its callers make only if `le_ℤ n i`.
abbrev pub sub_ℤ : ℤ → ℕ → ℤ
sub_ℤ (pos m) n = if leb n m then pos (m - n) else negsuc (n - m - 1)
sub_ℤ (negsuc m) n = negsuc (m + n)
