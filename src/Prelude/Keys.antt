-- ===== src/Prelude/Keys.antt =====
-- Lists of bytes in lexicographic order, which `Vec<u8>` is compared by.
use Prim.Native.Nat.{ℕ}
use mathlib.Core.Path.{◌≡◌, refl}
use mathlib.Core.Bool.{Bool, true, false}
use mathlib.Core.List.{List, [], ◌∷◌}
use native.Mathlib.Omega.{arith}
use akula.Prelude.Tests.{ltb, ◌==◌, if◌then◌else◌}

abbrev pub Key : Type 0
Key = List ℕ

unfoldable pub le_bytes : Key → Key → Bool
le_bytes [] t = true
le_bytes (a ∷ s) [] = false
le_bytes (a ∷ s) (b ∷ t) =
    let rest = le_bytes s t in if ltb a b then true else if a == b then rest else false

pub le_refl : (s : Key) → le_bytes s s ≡ true
unfolding le_bytes
le_refl [] = refl
le_refl (a ∷ s) = ground (arith, le_refl s)

pub le_total : (s t : Key) → le_bytes s t ≡ false → le_bytes t s ≡ true
unfolding le_bytes
le_total [] t h = absurd (ground arith)
le_total (a ∷ s) [] h = refl
le_total (a ∷ s) (b ∷ t) h = ground (arith, le_total s t)

pub le_trans : (s t u : Key) → le_bytes s t ≡ true → le_bytes t u ≡ true → le_bytes s u ≡ true
unfolding le_bytes
le_trans [] t u h k = refl
le_trans (a ∷ s) [] u h k = absurd (ground arith)
le_trans (a ∷ s) (b ∷ t) [] h k = absurd (ground arith)
le_trans (a ∷ s) (b ∷ t) (c ∷ u) h k = ground (arith, le_trans s t u)

pub le_antisymm : (s t : Key) → le_bytes s t ≡ true → le_bytes t s ≡ true → s ≡ t
unfolding le_bytes
le_antisymm [] [] h k = refl
le_antisymm [] (b ∷ t) h k = absurd (ground arith)
le_antisymm (a ∷ s) [] h k = absurd (ground arith)
le_antisymm (a ∷ s) (b ∷ t) h k = ground (arith, le_antisymm s t)
