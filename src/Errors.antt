-- ===== src/Errors.antt =====
-- src/consensus/mod.rs, `ValidationError`, and the errors and panics that functions end with.
use akula.Prelude.{ℕ, Bool, true, false, Option, none, some, List, ◌≡◌, refl, arith}

-- Hashes, blooms and 512-bit words are numbers.
pub data ValidationError : Type 0 where
  future_block : (now got : ℕ) → ValidationError
  wrong_state_root : (expected got : ℕ) → ValidationError
  wrong_ommers_hash : (expected got : ℕ) → ValidationError
  wrong_transactions_root : (expected got : ℕ) → ValidationError
  wrong_receipts_root : (expected got : ℕ) → ValidationError
  wrong_logs_bloom : (expected got : ℕ) → ValidationError
  unknown_parent : ValidationError
  wrong_difficulty : ValidationError
  gas_above_limit : (used limit : ℕ) → ValidationError
  invalid_gas_limit : ValidationError
  invalid_timestamp : (parent current : ℕ) → ValidationError
  extra_data_too_long : ValidationError
  wrong_dao_extra_data : ValidationError
  wrong_base_fee : (expected got : Option ℕ) → ValidationError
  invalid_seal : ValidationError
  missing_sender : ValidationError
  sender_no_eoa : (sender : ℕ) → ValidationError
  wrong_nonce : (account expected got : ℕ) → ValidationError
  intrinsic_gas : ValidationError
  insufficient_funds : (account available required : ℕ) → ValidationError
  block_gas_limit_exceeded : (available required : ℕ) → ValidationError
  max_fee_less_than_base : ValidationError
  max_priority_fee_greater_than_max : ValidationError
  too_many_ommers : ValidationError
  invalid_ommer_header : ValidationError
  not_an_ommer : ValidationError
  duplicate_ommer : ValidationError
  wrong_block_gas : (expected got : ℕ) (transactions : List (ℕ × ℕ)) → ValidationError
  invalid_signature : ValidationError
  wrong_chain_id : ValidationError
  unsupported_transaction_type : ValidationError

-- What `anyhow::Error` carries here. `context` is `Context::context`; `panicked` is a failed `unwrap`,
-- `expect`, `assert!` or index, which ends the task.
pub data Error : Type 0 where
  validation : ValidationError → Error
  context : ValidationError → Error → Error
  database : Error
  panicked : Error

pub data Result {ℓ} (A : Type ℓ) : Type ℓ where
  err : (error : Error) → Result A
  ok : (value : A) → Result A

infixl 10 ◌>>=◌ ◌>>◌
abbrev pub ◌>>=◌ {ℓ κ} : {A : Type ℓ} {B : Type κ} → Result A → (A → Result B) → Result B
err error >>= next = err error
ok value >>= next = next value

-- A step with no value.
abbrev pub ◌>>◌ {ℓ} : {B : Type ℓ} → Result (Unit {0}) → Result B → Result B
check >> rest = check >>= λ done. rest

-- `if test { return Err(error.into()); }`
abbrev pub bail_if : Bool → ValidationError → Result (Unit {0})
bail_if true e = err (validation e)
bail_if false e = ok tt

-- `Option::ok_or`
abbrev pub ok_or {ℓ} : {A : Type ℓ} → Option A → Error → Result A
ok_or none e = err e
ok_or (some a) e = ok a

-- `Result::map`
abbrev pub map_ok {ℓ κ} : {A : Type ℓ} {B : Type κ} → (A → B) → Result A → Result B
map_ok f (ok a) = ok (f a)
map_ok f (err e) = err e

-- A chain ends well only if its steps do.
pub bind-ok :
    {A B : Type 0} (m : Result A) (f : A → Result B) (b : B)
    → (m >>= f) ≡ ok b
    → (a : A) × (m ≡ ok a) × (f a ≡ ok b)
bind-ok (ok a) f b h = (a, refl, h)
bind-ok (err e) f b h = absurd (ground arith)

pub bail_if-ok : (test : Bool) (e : ValidationError) → bail_if test e ≡ ok tt → test ≡ false
bail_if-ok true e h = ground arith
bail_if-ok false e h = refl

pub ok_or-ok : {A : Type 0} (o : Option A) (e : Error) (a : A) → ok_or o e ≡ ok a → o ≡ some a
ok_or-ok none e a h = ground arith
ok_or-ok (some b) e a h = ground arith

pub bail_if-then :
    {B : Type 0} (test : Bool) (e : ValidationError) (k : Result B) (b : B)
    → (bail_if test e >> k) ≡ ok b
    → (test ≡ false) × (k ≡ ok b)
bail_if-then true e k b h = absurd (ground arith)
bail_if-then false e k b h = (refl, h)
