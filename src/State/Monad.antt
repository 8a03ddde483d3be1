-- ===== src/State/Monad.antt =====
-- A method of `IntraBlockState`: it changes the state and may fail. Every caller passes an error on
-- with `?`, and nothing looks at the state behind one, so an error carries no state.
use akula.Prelude.{Option, none, some, ◌≡◌, refl, arith}
use akula.Errors.{Result, ok, err, panicked}
use akula.State.Delta.{IntraBlockState}

abbrev pub Method : Type 0 → Type 0
Method A = IntraBlockState → Result (A × IntraBlockState)

abbrev pub continue :
    {A B : Type 0} → Result (A × IntraBlockState) → (A → Method B) → Result (B × IntraBlockState)
continue (ok (a, s)) f = f a s
continue (err e) f = err e

infixl 10 ◌>>=◌ ◌>>◌
unfoldable pub ◌>>=◌ : {A B : Type 0} → Method A → (A → Method B) → Method B
◌>>=◌ m f s = continue (m s) f

abbrev pub ◌>>◌ : {B : Type 0} → Method (Unit {0}) → Method B → Method B
m >> k = m >>= λ _. k

unfoldable pub pure : {A : Type 0} → A → Method A
pure a s = ok (a, s)

unfoldable pub gets : {A : Type 0} → (IntraBlockState → A) → Method A
gets f s = ok (f s, s)

unfoldable pub modify : (IntraBlockState → IntraBlockState) → Method (Unit {0})
modify f s = ok (tt, f s)

unfoldable pub lift : {A : Type 0} → Result A → Method A
lift (ok a) s = ok (a, s)
lift (err e) s = err e

-- `Option::unwrap`
unfoldable pub unwrap : {A : Type 0} → Option A → Method A
unwrap none s = err panicked
unwrap (some a) s = ok (a, s)

ends :
    {A B : Type 0} {m : Result (A × IntraBlockState)} (r : Result (A × IntraBlockState))
    (f : A → Method B) {t : IntraBlockState} {b : B}
    → continue r f ≡ ok (b, t)
    → m ≡ r
    → (a : A) × (u : IntraBlockState) × (m ≡ ok (a, u)) × (f a u ≡ ok (b, t))
ends (ok (a, u)) f h e = (a, u, e, h)
ends (err x) f h e = absurd (ground arith)

-- A chain of methods ends well only if its steps do.
pub bind-ok :
    {A B : Type 0} (m : Method A) (f : A → Method B) (s t : IntraBlockState) (b : B)
    → (m >>= f) s ≡ ok (b, t)
    → (a : A) × (u : IntraBlockState) × (m s ≡ ok (a, u)) × (f a u ≡ ok (b, t))
unfolding ◌>>=◌
bind-ok m f s t b h = ends (m s) f h refl

pub pure-ok : {A : Type 0} (a b : A) (s t : IntraBlockState) → pure a s ≡ ok (b, t) → a ≡ b
unfolding pure
pure-ok a b s t h = ground arith

pub lift-ok :
    {A : Type 0} (r : Result A) (a : A) (s t : IntraBlockState) → lift r s ≡ ok (a, t) → r ≡ ok a
unfolding lift
lift-ok (ok b) a s t h = ground arith
lift-ok (err e) a s t h = ground arith

pub lift-keeps :
    {A : Type 0} (r : Result A) (a : A) (s t : IntraBlockState) → lift r s ≡ ok (a, t) → s ≡ t
unfolding lift
lift-keeps (ok b) a s t h = ground arith
lift-keeps (err e) a s t h = ground arith

pub pure-keeps : {A : Type 0} (a b : A) (s t : IntraBlockState) → pure a s ≡ ok (b, t) → s ≡ t
unfolding pure
pure-keeps a b s t h = ground arith
