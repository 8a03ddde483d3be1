-- ===== src/Chain/Fee.antt =====
-- src/chain/protocol_param.rs, `fee`.
use akula.Prelude.{ℕ}

abbrev pub g_sload_tangerine_whistle : ℕ
g_sload_tangerine_whistle = 200

abbrev pub g_sload_istanbul : ℕ
g_sload_istanbul = 800

abbrev pub warm_storage_read_cost : ℕ
warm_storage_read_cost = 100

abbrev pub cold_sload_cost : ℕ
cold_sload_cost = 2100

abbrev pub g_sset : ℕ
g_sset = 20_000

abbrev pub g_sreset : ℕ
g_sreset = 5_000

abbrev pub r_sclear : ℕ
r_sclear = 15_000

abbrev pub access_list_storage_key_cost : ℕ
access_list_storage_key_cost = 1900

abbrev pub access_list_address_cost : ℕ
access_list_address_cost = 2400

abbrev pub r_self_destruct : ℕ
r_self_destruct = 24_000

abbrev pub g_code_deposit : ℕ
g_code_deposit = 200

abbrev pub g_tx_create : ℕ
g_tx_create = 32_000

abbrev pub g_tx_data_zero : ℕ
g_tx_data_zero = 4

abbrev pub g_tx_data_non_zero_frontier : ℕ
g_tx_data_non_zero_frontier = 68

abbrev pub g_tx_data_non_zero_istanbul : ℕ
g_tx_data_non_zero_istanbul = 16

abbrev pub g_transaction : ℕ
g_transaction = 21_000
