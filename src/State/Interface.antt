-- ===== src/State/Interface.antt =====
-- src/state/interface.rs: the reading half of the `State` trait, which the journaled state is generic in.
use akula.Prelude.{ℕ, Option, List}
use akula.Errors.{Result}
use akula.State.Object.{Account}

pub record Reader : Type 0 where
  pub read_account : ℕ → Result (Option Account)
  pub read_code : ℕ → Result (List ℕ)
  pub read_storage : ℕ → ℕ → Result ℕ
