-- ===== src/Prelude/Bytes.antt =====
-- The big-endian bytes of numbers, which `to_be_bytes`, `from_be_bytes` and the fixed-size hashes of the
-- program stand for.
use Prim.Native.Nat.{ℕ, zero, suc, ◌+◌, ◌*◌, ◌/◌, ◌%◌, ◌^◌, ◌<◌}
use mathlib.Core.Path.{◌≡◌, refl, ap, ◌∙◌}
use mathlib.Core.List.{List, [], ◌∷◌, ◌++◌}
use native.Mathlib.Nat.{pow-suc}
use native.Mathlib.Omega.{arith}
use akula.Prelude.Lists.{length, length-append}

digits_from : ℕ → List ℕ → ℕ
digits_from acc [] = acc
digits_from acc (b ∷ rest) = digits_from (acc * 256 + b) rest

unfoldable pub from_be_bytes : List ℕ → ℕ
unfolding digits_from
from_be_bytes bytes = digits_from 0 bytes

-- The lowest `width` bytes of a number.
unfoldable pub to_be_bytes : ℕ → ℕ → List ℕ
to_be_bytes zero n = []
to_be_bytes (suc width) n = to_be_bytes width (n / 256) ++ n % 256 ∷ []

pub length-to_be_bytes : (width n : ℕ) → length (to_be_bytes width n) ≡ width
unfolding to_be_bytes
length-to_be_bytes zero n = refl
length-to_be_bytes (suc width) n = omega (
  arith,
  length-append (to_be_bytes width (n / 256)) (n % 256 ∷ []),
  length-to_be_bytes width (n / 256),
)

digits_from-append :
    (acc : ℕ) (xs : List ℕ) (b : ℕ) → digits_from acc (xs ++ b ∷ []) ≡ digits_from acc xs * 256 + b
unfolding digits_from
digits_from-append acc [] b = refl
digits_from-append acc (x ∷ xs) b = digits_from-append (acc * 256 + x) xs b

shorter : (width n : ℕ) → n < 256 ^ suc width → n / 256 < 256 ^ width
shorter width n h = grind (arith, pow-suc 256 width)

-- A number that fits is read back.
pub from_be_bytes-to_be_bytes :
    (width n : ℕ) → n < 256 ^ width → from_be_bytes (to_be_bytes width n) ≡ n
unfolding from_be_bytes to_be_bytes
from_be_bytes-to_be_bytes zero n h = grind arith
from_be_bytes-to_be_bytes (suc width) n h =
    digits_from-append 0 (to_be_bytes width (n / 256)) (n % 256)
    ∙ ap (λ (q : ℕ). q * 256 + n % 256)
        (from_be_bytes-to_be_bytes width (n / 256) (shorter width n h))
    ∙ omega arith
