-- ===== src/Models/YParity.antt =====
-- src/models/transaction.rs, `YParityAndChainId`: the `v` of a legacy signature (EIP-155).
use akula.Prelude.{
  ℕ, ◌-◌, ◌+◌, ◌*◌, ◌/◌, ◌%◌, ◌<◌, ◌^◌, ◌≡◌, leb, ◌==◌, ◌||◌, not, if◌then◌else◌, Bool, true, false,
  Option, none, some, unwrap_or, arith,
}
use akula.Prelude.Words.{u64_mod}

pub record YParityAndChainId : Type 0 where
  pub odd_y_parity : Bool
  pub chain_id : Option ℕ

-- `odd as u64`
abbrev bit : Bool → ℕ
bit true = 1
bit false = 0

unfoldable pub from_v : ℕ → Option YParityAndChainId
from_v v =
    if v == 27 || v == 28
    then some (record { odd_y_parity = v == 28; chain_id = none })
    else if leb 35 v
    then (let w = v - 35 in
        some (record { odd_y_parity = not (w % 2 == 0); chain_id = some (w / 2) }))
    else none

-- `YParityAndChainId::v`, of which a 64-bit product and sum may wrap.
v_of : Bool → Option ℕ → ℕ
v_of odd (some chain_id) = (chain_id * 2 + 35 + bit odd) % u64_mod
v_of odd none = 27 + bit odd

unfoldable pub v : YParityAndChainId → ℕ
unfolding v_of
v y = v_of y.odd_y_parity y.chain_id

-- Reading a 64-bit `v` and writing what was read gives the same `v`.
pub v-from_v : (n : ℕ) (y : YParityAndChainId) → n < 2 ^ 64 → from_v n ≡ some y → v y ≡ n
unfolding from_v v
v-from_v n y h e = ground arith

-- What `v` writes for a parity and a chain id is read back, where the id is none or the 64-bit word
-- holds twice the id and 36.
pub from_v-v :
    (odd : Bool) (id : Option ℕ)
    → unwrap_or id 0 * 2 + 36 < 2 ^ 64
    → from_v (v (record { odd_y_parity = odd; chain_id = id }))
      ≡ some (record { odd_y_parity = odd; chain_id = id })
unfolding from_v v
from_v-v odd id h = ground arith
