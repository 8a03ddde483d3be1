-- ===== src/Chain/IntrinsicGas.antt =====
-- src/chain/intrinsic_gas.rs. The 128-bit sums are plain sums here: a message holds too little for any of
-- them to wrap.
use akula.Prelude.{
  ℕ, ◌+◌, ◌-◌, ◌*◌, ◌≤◌, ◌<◌, ◌≡◌, refl, ◌==◌, if◌then◌else◌, Bool, true, false, ◌&&◌, List, [],
  ◌∷◌, length, arith,
}
use akula.Prelude.Words.{u64_mod, u128_mod}
use akula.Chain.Fee.{
  access_list_storage_key_cost, access_list_address_cost, g_tx_create, g_tx_data_zero,
  g_tx_data_non_zero_frontier, g_tx_data_non_zero_istanbul, g_transaction,
}
use akula.Models.Message.{Message, TransactionAction, AccessListItem, action, input, access_list}

-- `matches!(txn.action(), TransactionAction::Create)`
abbrev is_create : TransactionAction → Bool
is_create (TransactionAction.call to) = false
is_create TransactionAction.create = true

-- The loop over the access list.
storage_key_gas : ℕ → List AccessListItem → ℕ
storage_key_gas gas [] = gas
storage_key_gas gas (e ∷ rest) =
    storage_key_gas (gas + length e.slots * access_list_storage_key_cost) rest

-- `txn.input().iter().filter(|&&c| c != 0).count()`
count_non_zero : List ℕ → ℕ
count_non_zero [] = 0
count_non_zero (c ∷ rest) = (if c == 0 then 0 else 1) + count_non_zero rest

abbrev non_zero_gas : Bool → ℕ
non_zero_gas istanbul =
    if istanbul then g_tx_data_non_zero_istanbul else g_tx_data_non_zero_frontier

-- The part of the function below the early return.
input_gas : ℕ → Bool → List ℕ → ℕ
input_gas gas istanbul [] = gas
input_gas gas istanbul (c ∷ rest) =
    let non_zero_bytes = count_non_zero (c ∷ rest) in
    gas
    + non_zero_bytes * non_zero_gas istanbul
    + (length (c ∷ rest) - non_zero_bytes) * g_tx_data_zero

unfoldable pub intrinsic_gas : Message → Bool → Bool → ℕ
unfolding storage_key_gas count_non_zero input_gas
intrinsic_gas txn homestead istanbul =
    let create_gas =
      (if is_create (action txn) && homestead
        then g_transaction + g_tx_create
        else g_transaction) in
    let list_gas = create_gas + length (access_list txn) * access_list_address_cost in
    input_gas (storage_key_gas list_gas (access_list txn)) istanbul (input txn)

-- The yellow paper's g0: a sum over the bytes of the input and over the access list.
abbrev byte_gas : Bool → ℕ → ℕ
byte_gas istanbul c = if c == 0 then g_tx_data_zero else non_zero_gas istanbul

bytes_gas : Bool → List ℕ → ℕ
bytes_gas istanbul [] = 0
bytes_gas istanbul (c ∷ rest) = byte_gas istanbul c + bytes_gas istanbul rest

list_gas : List AccessListItem → ℕ
list_gas [] = 0
list_gas (e ∷ rest) =
    access_list_address_cost + length e.slots * access_list_storage_key_cost + list_gas rest

unfoldable pub g0 : Message → Bool → Bool → ℕ
unfolding bytes_gas list_gas
g0 txn homestead istanbul =
    g_transaction
    + (if is_create (action txn) && homestead then g_tx_create else 0)
    + list_gas (access_list txn)
    + bytes_gas istanbul (input txn)

count_non_zero-le : (l : List ℕ) → count_non_zero l ≤ length l
unfolding count_non_zero
count_non_zero-le [] = omega arith
count_non_zero-le (c ∷ rest) = ground (arith, count_non_zero-le rest)

bytes_gas_lem :
    (istanbul : Bool) (l : List ℕ)
    → count_non_zero l * non_zero_gas istanbul + (length l - count_non_zero l) * g_tx_data_zero
      ≡ bytes_gas istanbul l
unfolding count_non_zero bytes_gas
bytes_gas_lem istanbul [] = ground arith
bytes_gas_lem true (c ∷ rest) = ground (arith, bytes_gas_lem true rest, count_non_zero-le rest)
bytes_gas_lem false (c ∷ rest) = ground (arith, bytes_gas_lem false rest, count_non_zero-le rest)

input_gas_lem :
    (gas : ℕ) (istanbul : Bool) (l : List ℕ) → input_gas gas istanbul l ≡ gas + bytes_gas istanbul l
unfolding input_gas bytes_gas
input_gas_lem gas istanbul [] = omega (arith, bytes_gas_lem istanbul [])
input_gas_lem gas istanbul (c ∷ rest) = omega (arith, bytes_gas_lem istanbul (c ∷ rest))

storage_key_gas_lem :
    (gas : ℕ) (l : List AccessListItem)
    → storage_key_gas gas l + length l * access_list_address_cost ≡ gas + list_gas l
unfolding storage_key_gas list_gas
storage_key_gas_lem gas [] = omega arith
storage_key_gas_lem gas (e ∷ rest) =
    omega (arith, storage_key_gas_lem (gas + length e.slots * access_list_storage_key_cost) rest)

-- The loop adds to what it starts from.
storage_key_gas-add :
    (gas more : ℕ) (l : List AccessListItem)
    → storage_key_gas (gas + more) l ≡ storage_key_gas gas l + more
storage_key_gas-add gas more l =
    omega (arith, storage_key_gas_lem (gas + more) l, storage_key_gas_lem gas l)

-- The loop over the access list, after the fee for its addresses.
all_list_gas :
    (gas : ℕ) (l : List AccessListItem)
    → storage_key_gas (gas + length l * access_list_address_cost) l ≡ gas + list_gas l
all_list_gas gas l = omega (
  arith,
  storage_key_gas-add gas (length l * access_list_address_cost) l,
  storage_key_gas_lem gas l,
)

create_gas_lem :
    (create : Bool)
    → (if create then g_transaction + g_tx_create else g_transaction)
      ≡ g_transaction + (if create then g_tx_create else 0)
create_gas_lem true = refl
create_gas_lem false = refl

-- The gas that a transaction costs before its code runs is the g0 of the yellow paper: a base cost,
-- the creation fee from Homestead on, and the sums over the access list's entries and the input's bytes.
pub intrinsic_gas_lem :
    (txn : Message) (homestead istanbul : Bool)
    → intrinsic_gas txn homestead istanbul ≡ g0 txn homestead istanbul
unfolding intrinsic_gas g0
intrinsic_gas_lem txn homestead istanbul =
    let create = is_create (action txn) && homestead in
    let create_gas = (if create then g_transaction + g_tx_create else g_transaction) in
    let l = access_list txn in
    omega (
      arith,
      input_gas_lem (storage_key_gas (create_gas + length l * access_list_address_cost) l) istanbul
          (input txn),
      all_list_gas create_gas l,
      create_gas_lem create,
    )

abbrev pub slots_of : List AccessListItem → ℕ
slots_of [] = 0
slots_of (e ∷ rest) = length e.slots + slots_of rest

list_gas_bound : (l : List AccessListItem) → list_gas l ≤ 2400 * length l + 1900 * slots_of l
unfolding list_gas
list_gas_bound [] = omega arith
list_gas_bound (e ∷ rest) = omega (arith, list_gas_bound rest)

bytes_gas_bound : (istanbul : Bool) (l : List ℕ) → bytes_gas istanbul l ≤ 68 * length l
unfolding bytes_gas
bytes_gas_bound istanbul [] = omega arith
bytes_gas_bound true (c ∷ rest) = ground (arith, bytes_gas_bound true rest)
bytes_gas_bound false (c ∷ rest) = ground (arith, bytes_gas_bound false rest)

-- For fewer than 2^64 entries, 2^64 storage keys and 2^64 bytes of input, the gas fits the 128 bits that
-- the code counts it in.
pub intrinsic_gas_bound :
    (txn : Message) (homestead istanbul : Bool)
    → length (access_list txn) < u64_mod
    → slots_of (access_list txn) < u64_mod
    → length (input txn) < u64_mod
    → intrinsic_gas txn homestead istanbul < u128_mod
unfolding g0
intrinsic_gas_bound txn homestead istanbul entries keys bytes = ground (
  arith,
  intrinsic_gas_lem txn homestead istanbul,
  list_gas_bound (access_list txn),
  bytes_gas_bound istanbul (input txn),
)
