-- ===== src/Models/Message.antt =====
-- src/models/transaction.rs: `Message` and what it answers. Amounts are 256-bit words, and gas and
-- nonces 64-bit words.
pub mod Prices
use akula.Prelude.{ℕ, ◌-◌, ◌+◌, min, leb, if◌then◌else◌, Option, none, some, List, []}
use akula.Prelude.Words.{add256}
use akula.Errors.{Result, ok, err, panicked, map_ok}

pub data TxType : Type 0 where
  legacy eip2930 eip1559 : TxType

pub data TransactionAction : Type 0 where
  call : (to : ℕ) → TransactionAction
  create : TransactionAction

pub record AccessListItem : Type 0 where
  pub address : ℕ
  pub slots : List ℕ

-- The fields of every variant; `input` is a list of bytes.
pub record Common : Type 0 where
  pub nonce : ℕ
  pub gas_limit : ℕ
  pub action : TransactionAction
  pub value : ℕ
  pub input : List ℕ

pub data Message : Type 0 where
  legacy : (chain_id : Option ℕ) (gas_price : ℕ) (common : Common) → Message
  eip2930 : (chain_id gas_price : ℕ) (access_list : List AccessListItem) (common : Common) → Message
  eip1559 :
      (chain_id max_priority_fee_per_gas max_fee_per_gas : ℕ) (access_list : List AccessListItem)
      (common : Common)
      → Message

-- `MessageWithSender`
pub record MessageWithSender : Type 0 where
  pub message : Message
  pub sender : ℕ

abbrev pub tx_type : Message → TxType
tx_type (Message.legacy c p m) = TxType.legacy
tx_type (Message.eip2930 c p l m) = TxType.eip2930
tx_type (Message.eip1559 c p f l m) = TxType.eip1559

abbrev pub chain_id : Message → Option ℕ
chain_id (Message.legacy c p m) = c
chain_id (Message.eip2930 c p l m) = some c
chain_id (Message.eip1559 c p f l m) = some c

abbrev pub common : Message → Common
common (Message.legacy c p m) = m
common (Message.eip2930 c p l m) = m
common (Message.eip1559 c p f l m) = m

abbrev pub nonce : Message → ℕ
nonce m = (common m).nonce

abbrev pub gas_limit : Message → ℕ
gas_limit m = (common m).gas_limit

abbrev pub action : Message → TransactionAction
action m = (common m).action

abbrev pub value : Message → ℕ
value m = (common m).value

abbrev pub input : Message → List ℕ
input m = (common m).input

abbrev pub max_priority_fee_per_gas : Message → ℕ
max_priority_fee_per_gas (Message.legacy c p m) = p
max_priority_fee_per_gas (Message.eip2930 c p l m) = p
max_priority_fee_per_gas (Message.eip1559 c p f l m) = p

abbrev pub max_fee_per_gas : Message → ℕ
max_fee_per_gas (Message.legacy c p m) = p
max_fee_per_gas (Message.eip2930 c p l m) = p
max_fee_per_gas (Message.eip1559 c p f l m) = f

abbrev pub access_list : Message → List AccessListItem
access_list (Message.legacy c p m) = []
access_list (Message.eip2930 c p l m) = l
access_list (Message.eip1559 c p f l m) = l

-- The assertion fails on a fee cap below the base fee.
unfoldable pub priority_fee_per_gas : Message → ℕ → Result ℕ
priority_fee_per_gas m base_fee_per_gas =
    if leb base_fee_per_gas (max_fee_per_gas m)
    then ok (min (max_priority_fee_per_gas m) (max_fee_per_gas m - base_fee_per_gas))
    else err panicked

unfoldable pub effective_gas_price : Message → ℕ → Result ℕ
unfolding priority_fee_per_gas
effective_gas_price m base_fee_per_gas =
    map_ok (λ p. add256 p base_fee_per_gas) (priority_fee_per_gas m base_fee_per_gas)
