-- ===== src/State/IntraBlock/Rollback/Steps.antt =====
-- A rule of `Undo` for each way to build a method: what holds before and after, and that the deltas
-- which were pushed can be undone.
use akula.Prelude.{◌≡◌, refl, sym, ◌∙◌, subst, Option, none, some}
use akula.Errors.{Result, ok, err}
use akula.State.Interface.{Reader}
use akula.State.Delta.{IntraBlockState}
use akula.State.Monad.{Method, continue, pure, gets, modify, unwrap, ◌>>=◌}
use akula.State.IntraBlock.Rollback.{Restores-refl, Undo}
use akula.State.IntraBlock.Rollback.Compose.{Undo-quiet, Undo-trans}

pub ok-injective {ℓ} : {A : Type ℓ} {a b : A} → ok a ≡ ok b → a ≡ b
ok-injective h = cc

continue-eq-ok :
    {A B : Type 0} (r : Result (A × IntraBlockState)) (f : A → Method B) {b : B}
    {t : IntraBlockState}
    → continue r f ≡ ok (b, t)
    → (a : A) × (u : IntraBlockState) × (r ≡ ok (a, u)) × (f a u ≡ ok (b, t))
continue-eq-ok (ok (a, u)) f h = (a, u, refl, h)
continue-eq-ok (err e) f h = cc

pub >>=-eq-ok :
    {A B : Type 0} (m : Method A) (f : A → Method B) (s : IntraBlockState) {b : B}
    {t : IntraBlockState}
    → (m >>= f) s ≡ ok (b, t)
    → (a : A) × (u : IntraBlockState) × (m s ≡ ok (a, u)) × (f a u ≡ ok (b, t))
unfolding ◌>>=◌
>>=-eq-ok m f s h = continue-eq-ok (m s) f h

-- The conditions that always hold, before and after.
abbrev pub Any : IntraBlockState → Type 0
Any s = Unit {0}

abbrev pub Done : {A : Type 0} → A → IntraBlockState → Type 0
Done a s = Unit {0}

module _ (db : Reader) where
  pub record Step {A : Type 0} (P : IntraBlockState → Type 0) (m : Method A)
      (Q : A → IntraBlockState → Type 0) : Type 0 where
    pub at :
        (s : IntraBlockState)
        → P s
        → (a : A) (t : IntraBlockState) → m s ≡ ok (a, t)
        → Undo db s t × Q a t

  pub Undo-refl : (s : IntraBlockState) → Undo db s s
  Undo-refl s = Undo-quiet db (Restores-refl db s) refl refl

  pub Step-bind :
      {A B : Type 0} {P : IntraBlockState → Type 0} {Q : A → IntraBlockState → Type 0}
      {R : B → IntraBlockState → Type 0} (m : Method A) (f : A → Method B)
      → Step P m Q
      → ((a : A) → Step (Q a) (f a) R)
      → Step P (m >>= f) R
  Step-bind m f p q = record {
    at = λ s h b t e.
        let (a, u, first, second) = >>=-eq-ok m f s e in
        let (back, mid) = p.at s h a u first in
        let (back', post) = (q a).at u mid b t second in (Undo-trans db back back', post);
  }

  pub Step-modify :
      {P : IntraBlockState → Type 0} {Q : Unit {0} → IntraBlockState → Type 0}
      (f : IntraBlockState → IntraBlockState)
      → ((s : IntraBlockState) → P s → Undo db s (f s) × Q tt (f s))
      → Step P (modify f) Q
  unfolding modify
  Step-modify {P} {Q} f step = record {
    at = λ s h a t e.
        subst (λ (p : Unit {0} × IntraBlockState). Undo db s p.1 × Q p.0 p.1) (ok-injective e)
          (step s h);
  }

  -- A method that keeps the state and returns `value` of it.
  pub Step-value :
      {A : Type 0} {P : IntraBlockState → Type 0} {Q : A → IntraBlockState → Type 0} {m : Method A}
      (value : IntraBlockState → A)
      → ((s : IntraBlockState) → m s ≡ ok (value s, s))
      → ((s : IntraBlockState) → P s → Q (value s) s)
      → Step P m Q
  Step-value {A} {P} {Q} value returns post = record {
    at = λ s h b t e.
        subst (λ (p : A × IntraBlockState). Undo db s p.1 × Q p.0 p.1)
          (ok-injective (sym (returns s) ∙ e)) (Undo-refl s, post s h);
  }

  pub Step-pure :
      {A : Type 0} {P : IntraBlockState → Type 0} {Q : A → IntraBlockState → Type 0} (a : A)
      → ((s : IntraBlockState) → P s → Q a s)
      → Step P (pure a) Q
  unfolding pure
  Step-pure a post = Step-value (λ _. a) (λ s. refl) post

  pub Step-gets :
      {A : Type 0} {P : IntraBlockState → Type 0} {Q : A → IntraBlockState → Type 0}
      (f : IntraBlockState → A)
      → ((s : IntraBlockState) → P s → Q (f s) s)
      → Step P (gets f) Q
  unfolding gets
  Step-gets f post = Step-value f (λ s. refl) post

  unwrap-none : {A : Type 0} (s t : IntraBlockState) (a : A) → ¬ (unwrap none s ≡ ok (a, t))
  unfolding unwrap
  unwrap-none s t a e = cc

  unwrap-some : {A : Type 0} (a : A) (s : IntraBlockState) → unwrap (some a) s ≡ ok (a, s)
  unfolding unwrap
  unwrap-some a s = refl

  pub Step-unwrap :
      {A : Type 0} {P : IntraBlockState → Type 0} {Q : A → IntraBlockState → Type 0} (o : Option A)
      → ((a : A) (s : IntraBlockState) → o ≡ some a → P s → Q a s)
      → Step P (unwrap o) Q
  Step-unwrap none post = record { at = λ s h b t e. absurd (unwrap-none s t b e) }
  Step-unwrap (some a) post = Step-value (λ _. a) (unwrap-some a) (λ s h. post a s refl h)

  -- A stronger condition before and a weaker one after.
  pub Step-weaken :
      {A : Type 0} {P P' : IntraBlockState → Type 0} {Q Q' : A → IntraBlockState → Type 0}
      {m : Method A}
      → Step P m Q
      → ((s : IntraBlockState) → P' s → P s)
      → ((a : A) (s : IntraBlockState) → Q a s → Q' a s)
      → Step P' m Q'
  Step-weaken p pre post = record {
    at = λ s h a t e. let (back, q) = p.at s (pre s h) a t e in (back, post a t q);
  }
