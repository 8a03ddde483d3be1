-- ===== src/Execution/Evm/Host.antt =====
-- src/execution/evm.rs: what the host answers to an interrupt, and the parts of a call and a creation.
use akula.Prelude.{
  ℕ, zero, suc, ◌-◌, ◌%◌, ◌^◌, min, Bool, false, not, ◌&&◌, Option, none, some, List, [], ◌∷◌, ◌++◌,
  length, take, drop, ltb, leb, ◌==◌, if◌then◌else◌, unwrap_or,
}
use akula.Prelude.Words.{ℤ, pos, le_ℤ, sub_ℤ, sub64, mul64}
use akula.Prelude.Bytes.{to_be_bytes}
use akula.Errors.{Result, ok, err, database, panicked, ◌>>=◌ as and_then}
use akula.Errors
use akula.State.Interface.{Reader}
use akula.State.Monad.{Method, ◌>>=◌, ◌>>◌, pure, gets, lift}
use akula.State.IntraBlock
use akula.State.IntraBlock.{AccessStatus, warm}
use akula.State.IntraBlock.Contracts
use akula.State.IntraBlock.Slots
use akula.State.IntraBlock.Slots.{Snapshot}
use akula.Models.Message.{MessageWithSender, effective_gas_price}
use akula.Models.Header.{PartialHeader}
use akula.Models.Revision.{Revision, Rank, at_least, homestead, spurious, london}
use akula.Models.ChainSpec.{BlockExecutionSpec}
use akula.Consensus.Base.{ChainReader}
use akula.Chain.Fee.{g_code_deposit}
use akula.Chain.Param.{max_code_size}
use akula.Execution.Precompiled.{Precompiled, contract_at, gas_of, number_of_precompiles}
use akula.Execution.Evm.Interpreter.{
  StatusCode, is_success, is_revert, CallKind, is_call, is_delegate_call, EvmMessage, CreateMessage,
  Output, Call, TxContext, Interpret,
}

-- The interpreter allows 1024 calls in one another.
abbrev pub stack_limit : ℕ
stack_limit = 1025

pub record Evm : Type 0 where
  pub db : Reader
  pub chain : ChainReader
  pub rank : Rank
  pub header : PartialHeader
  pub block_spec : BlockExecutionSpec
  pub txn : MessageWithSender
  pub interpret : Interpret
  pub keccak256 : List ℕ → ℕ
  pub rlp_encode : ℕ → ℕ → List ℕ
  pub run : Precompiled → List ℕ → Option (List ℕ)

-- The output that `call` and `create` start from.
abbrev pub unused : ℤ → Output
unused gas = record {
  status_code = StatusCode.success;
  gas_left = gas;
  output_data = [];
  create_address = none;
}

abbrev pub with_status : StatusCode → Output → Output
with_status code res = record res { status_code = code }

-- `Address::from_slice(&hash.0[12..])`
abbrev address_of : ℕ → ℕ
address_of hash = hash % 2 ^ 160

abbrev pub revert_to_snapshot : Snapshot → Method (Unit {0})
revert_to_snapshot snapshot s = Errors.map_ok (λ t. (tt, t)) (Slots.revert_to_snapshot snapshot s)

abbrev pub take_snapshot : Method Snapshot
take_snapshot = gets Slots.take_snapshot

-- The end of `call` and `create`: what a failure undoes and takes.
unfoldable pub settle : Snapshot → Output → Method Output
settle snapshot res = if is_success res.status_code then pure res else (do
  revert_to_snapshot snapshot
  pure (if is_revert res.status_code then res else record res { gas_left = pos 0 }))

-- `vec[0]`, at an index that is there.
abbrev pub first : List ℕ → ℕ
first [] = 0
first (b ∷ rest) = b

-- The loop of `GetBlockHash`, by its rounds: `number` is that of the header read next.
unfoldable pub ancestor_hash : ChainReader → ℕ → ℕ → ℕ → Result ℕ
ancestor_hash chain zero number hash = ok hash
ancestor_hash chain (suc rounds) number hash = and_then (chain.read_header number hash) λ found.
    elim found [
      | none ↦ err database
      | some header ↦ ancestor_hash chain rounds (sub64 number 1) header.parent_hash
    ]

-- `buffer` of `CopyCode`
abbrev pub copied : List ℕ → ℕ → ℕ → List ℕ
copied code offset max_size =
    if ltb offset (length code)
    then take (min max_size (length code - offset)) (drop offset code)
    else []

module _ (self : Evm) where
  abbrev pub at : Revision → Bool
  at rev = at_least self.rank self.block_spec.revision rev

  -- src/execution/address.rs
  unfoldable pub create_address : ℕ → ℕ → ℕ
  create_address caller nonce = address_of (self.keccak256 (self.rlp_encode caller nonce))

  unfoldable pub create2_address : ℕ → ℕ → ℕ → ℕ
  create2_address caller salt code_hash = address_of (
      self.keccak256
        (0xff ∷ (to_be_bytes 20 caller ++ (to_be_bytes 32 salt ++ to_be_bytes 32 code_hash))))

  unfoldable pub is_precompiled : ℕ → Bool
  is_precompiled contract =
      not (contract == 0) && leb contract (number_of_precompiles self.block_spec.revision)

  -- The gas of a precompiled contract that fits an `i64`.
  abbrev pub contract_gas : Precompiled → List ℕ → Option ℕ
  contract_gas contract input_data =
      elim (gas_of self.rank self.block_spec.revision contract input_data) [
        | none ↦ none
        | some gas ↦ if ltb gas (2 ^ 63) then some gas else none
      ]

  -- What a precompiled contract makes of the output so far.
  abbrev pub ran : ℤ → Option ℕ → Option (List ℕ) → Output → Output
  ran message_gas none output res = with_status StatusCode.out_of_gas res
  ran message_gas (some gas) output res =
      if not (le_ℤ gas message_gas) then with_status StatusCode.out_of_gas res else elim output [
        | none ↦ with_status StatusCode.precompile_failure res
        | some data' ↦ record res {
          status_code = StatusCode.success;
          gas_left = sub_ℤ message_gas gas;
          output_data = data';
        }
      ]

  unfoldable pub run_precompiled : EvmMessage → Output → Method Output
  run_precompiled message res = elim (contract_at (message.code_address % 256 - 1)) [
    | none ↦ lift (err panicked)
    | some contract ↦ pure (
        ran message.gas (contract_gas contract message.input_data)
          (self.run contract message.input_data) res)
  ]

  unfoldable pub get_block_hash : ℕ → Method ℕ
  unfolding ancestor_hash
  get_block_hash n =
      let base_number = self.header.number in
      let distance = sub64 base_number n in
      if leb distance 256
      then lift
          (ancestor_hash self.chain (distance - 1) (sub64 base_number 1) self.header.parent_hash)
      else lift (err panicked)

  abbrev pub base_fee_per_gas : ℕ
  base_fee_per_gas = unwrap_or self.header.base_fee_per_gas 0

  unfoldable pub get_tx_context : Method TxContext
  get_tx_context = do
    tx_gas_price ← lift (effective_gas_price self.txn.message base_fee_per_gas)
    pure record {
      tx_gas_price = tx_gas_price;
      tx_origin = self.txn.sender;
      block_coinbase = self.header.beneficiary;
      block_number = self.header.number;
      block_timestamp = self.header.timestamp;
      block_gas_limit = self.header.gas_limit;
      block_difficulty = self.header.difficulty;
      chain_id = self.block_spec.params.chain_id;
      block_base_fee = base_fee_per_gas;
    }

  unfoldable pub account_exists : ℕ → Method Bool
  account_exists address =
      if at spurious
      then (do dead ← IntraBlock.is_dead self.db address; pure (not dead))
      else IntraBlock.exists self.db address

  unfoldable pub get_code_size : ℕ → Method ℕ
  get_code_size address = do
    code ← Contracts.get_code self.db address
    pure (length (unwrap_or code []))

  unfoldable pub get_code_hash : ℕ → Method ℕ
  get_code_hash address = do
    dead ← IntraBlock.is_dead self.db address
    if dead then pure 0 else IntraBlock.get_code_hash self.db address

  unfoldable pub copy_code : ℕ → ℕ → ℕ → Method (List ℕ)
  copy_code address offset max_size = do
    code ← Contracts.get_code self.db address
    pure (copied (unwrap_or code []) offset max_size)

  unfoldable pub selfdestruct : ℕ → ℕ → Method (Unit {0})
  selfdestruct address beneficiary = do
    IntraBlock.record_selfdestruct address
    balance ← IntraBlock.get_balance self.db address
    IntraBlock.add_to_balance self.db beneficiary balance
    IntraBlock.set_balance self.db address 0

  unfoldable pub access_account : ℕ → Method AccessStatus
  access_account address =
      if is_precompiled address then pure warm else IntraBlock.access_account address

  -- The output of a creation goes back only with a revert.
  abbrev pub answer : Call → Output → Output
  answer (Call.call message) res = res
  answer (Call.create message) res =
      if is_revert res.status_code then res else record res { output_data = [] }

  -- The deposit of the code that a creation returned.
  unfoldable pub deploy : ℕ → Output → Method Output
  deploy contract_addr res =
      let code_len = length res.output_data in
      let code_deploy_gas = mul64 code_len g_code_deposit in
      if at london && (ltb 0 code_len && first res.output_data == 0xef)
      then pure (with_status StatusCode.contract_validation_failure res)
      else if at spurious && ltb max_code_size code_len
      then pure (with_status StatusCode.out_of_gas res)
      else if le_ℤ code_deploy_gas res.gas_left
      then (do
        Contracts.set_code self.db self.keccak256 contract_addr res.output_data
        pure (record res { gas_left = sub_ℤ res.gas_left code_deploy_gas }))
      else if at homestead
      then pure (with_status StatusCode.out_of_gas res)
      else pure res

  abbrev pub with_address : ℕ → Output → Output
  with_address contract_addr res =
      if is_success res.status_code then record res { create_address = some contract_addr } else res

  abbrev pub deploy_message : CreateMessage → ℕ → EvmMessage
  deploy_message message contract_addr = record {
    kind = CallKind.call;
    is_static = false;
    depth = message.depth;
    gas = message.gas;
    recipient = contract_addr;
    code_address = 0;
    sender = message.sender;
    input_data = [];
    value = message.endowment;
  }

  abbrev pub new_address : CreateMessage → ℕ → ℕ
  new_address message nonce = elim message.salt [
    | none ↦ create_address message.sender nonce
    | some salt ↦ create2_address message.sender salt (self.keccak256 message.initcode)
  ]

  -- The transfer of a call, or the touch of a static one.
  unfoldable pub transfer : EvmMessage → Method (Unit {0})
  transfer message =
      if is_call message.kind
      then if message.is_static then IntraBlock.touch message.recipient else (do
        IntraBlock.subtract_from_balance self.db message.sender message.value
        IntraBlock.add_to_balance self.db message.recipient message.value)
      else pure tt

  -- `value == 0 && revision >= Spurious && !precompiled && !exists`, where the last is asked for only
  -- if the others hold.
  unfoldable pub is_void_call : EvmMessage → Method Bool
  is_void_call message =
      if message.value == 0 && (at spurious && not (is_precompiled message.code_address))
      then (do exists ← IntraBlock.exists self.db message.code_address; pure (not exists))
      else pure false

  -- `kind != DelegateCall && balance < value`, which reads the balance only if the first holds.
  unfoldable pub lacks_balance : EvmMessage → Method Bool
  lacks_balance message = if is_delegate_call message.kind then pure false else (do
    balance ← IntraBlock.get_balance self.db message.sender
    pure (ltb balance message.value))
