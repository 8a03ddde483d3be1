-- ===== src/Chain/Param.antt =====
-- src/chain/protocol_param.rs, `param`.
use akula.Prelude.{ℕ, ◌*◌}

-- `ETHER` of src/models/mod.rs.
abbrev pub ether : ℕ
ether = 1_000_000_000_000_000_000

abbrev pub max_code_size : ℕ
max_code_size = 0x6000

abbrev pub block_reward_frontier : ℕ
block_reward_frontier = 5 * ether

abbrev pub block_reward_byzantium : ℕ
block_reward_byzantium = 3 * ether

abbrev pub block_reward_constantinople : ℕ
block_reward_constantinople = 2 * ether

abbrev pub max_refund_quotient_frontier : ℕ
max_refund_quotient_frontier = 2

abbrev pub max_refund_quotient_london : ℕ
max_refund_quotient_london = 5

abbrev pub initial_base_fee : ℕ
initial_base_fee = 1_000_000_000

abbrev pub base_fee_max_change_denominator : ℕ
base_fee_max_change_denominator = 8

abbrev pub elasticity_multiplier : ℕ
elasticity_multiplier = 2

abbrev pub g_quad_divisor_byzantium : ℕ
g_quad_divisor_byzantium = 20

abbrev pub g_quad_divisor_berlin : ℕ
g_quad_divisor_berlin = 3
