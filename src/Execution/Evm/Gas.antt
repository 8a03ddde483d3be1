-- ===== src/Execution/Evm/Gas.antt =====
-- The gas of src/execution/evm.rs: a call or a creation gives back no more than it was given.
use akula.Prelude.{
  ℕ, zero, suc, ◌-◌, ◌≤◌, ◌≡◌, refl, Bool, true, false, not, ◌&&◌, Option, none, some, List, ◌%◌,
  arith, unwrap_or, [], subst, ltb, if◌then◌else◌, length, ◌==◌, ◌||◌,
}
use akula.Prelude.Words.{ℤ, pos, negsuc, as_i64, as_u64, le_ℤ, sub_ℤ, mul64}
use akula.Errors.{Error, ok, err, panicked}
use akula.State.Delta.{IntraBlockState}
use akula.State.Monad.{Method, ◌>>=◌, pure, lift, bind-ok, pure-ok}
use akula.State.IntraBlock.{AccessStatus}
use akula.State.IntraBlock.Slots.{Snapshot}
use akula.Models.Message.{MessageWithSender, TransactionAction}
use akula.Models.Message
use akula.State.Object.{empty_hash}
use akula.Chain.Fee.{g_code_deposit}
use akula.Chain.Param.{max_code_size}
use akula.Models.Revision.{homestead, spurious, london}
use akula.Execution.Processor.{Processor, Execute}
use akula.Execution.Processor.Gas.{IsFrugal}
use akula.Execution.Precompiled.{Precompiled, contract_at}
use akula.Execution.Evm.{
  Evm, unused, settle, run_precompiled, answer, resume_all, deploy, create_at, create, call_at,
  call, dispatch, request_of, execute, stack_limit, ran, contract_gas, with_address, is_precompiled,
  at, first, deploy_message, new_address,
}
use akula.Execution.Evm.Interpreter.{
  is_success, is_revert, EvmMessage, CreateMessage, Output, Call, StorageStatus, TxContext,
  Interrupt,
}

-- What holds of the result of a method that ends well.
record Gives {A : Type 0} (P : A → Type 0) (m : Method A) : Type 0 where
  at : (s t : IntraBlockState) (a : A) → m s ≡ ok (a, t) → P a

Gives-bind :
    {A B : Type 0} {P : B → Type 0} (m : Method A) (f : A → Method B)
    → ((a : A) → Gives P (f a))
    → Gives P (m >>= f)
Gives-bind m f g = record {
  at = λ s t b e. let (a, u, first, second) = bind-ok m f s t b e in (g a).at u t b second;
}

Gives-bind_of :
    {A B : Type 0} (Q : A → Type 0) {P : B → Type 0} (m : Method A) (f : A → Method B)
    → Gives Q m
    → ((a : A) → Q a → Gives P (f a))
    → Gives P (m >>= f)
Gives-bind_of Q m f q g = record {
  at = λ s t b e.
      let (a, u, first, second) = bind-ok m f s t b e in (g a (q.at s u a first)).at u t b second;
}

Gives-pure : {A : Type 0} {P : A → Type 0} (a : A) → P a → Gives P (pure a)
unfolding pure
Gives-pure {P = P} a p = record { at = λ s t b e. subst P (pure-ok a b s t e) p }

Gives-fails : {A : Type 0} {P : A → Type 0} (e : Error) → Gives P (lift (err e))
unfolding lift
Gives-fails e = record { at = λ s t b h. absurd (cc) }

Gives-if :
    {A : Type 0} {P : A → Type 0} (b : Bool) (m n : Method A)
    → (b ≡ true → Gives P m)
    → (b ≡ false → Gives P n)
    → Gives P (if b then m else n)
Gives-if true m n p q = p refl
Gives-if false m n p q = q refl

-- The gas of a request, and an output that leaves at most some gas; both are read as `u64`.
abbrev pub gas_of : Call → ℕ
gas_of (Call.call message) = as_u64 message.gas
gas_of (Call.create message) = as_u64 message.gas

abbrev pub AtMost : ℕ → Output → Type 0
AtMost gas res = as_u64 res.gas_left ≤ gas

-- A run gives back no more gas than it was given, if the calls that it asks for do so.
abbrev pub Frugal : ℕ → Interrupt → Type 0
Frugal gas Interrupt.instruction_start = Unit {0}
Frugal gas (Interrupt.account_exists a k) = (b : Bool) → Frugal gas (k b)
Frugal gas (Interrupt.get_balance a k) = (n : ℕ) → Frugal gas (k n)
Frugal gas (Interrupt.get_code_size a k) = (n : ℕ) → Frugal gas (k n)
Frugal gas (Interrupt.get_storage a key k) = (n : ℕ) → Frugal gas (k n)
Frugal gas (Interrupt.set_storage a key v k) = (x : StorageStatus) → Frugal gas (k x)
Frugal gas (Interrupt.get_code_hash a k) = (n : ℕ) → Frugal gas (k n)
Frugal gas (Interrupt.copy_code a o m k) = (l : List ℕ) → Frugal gas (k l)
Frugal gas (Interrupt.selfdestruct a b k) = Frugal gas k
Frugal gas (Interrupt.call r k) = (res : Output) → AtMost (gas_of r) res → Frugal gas (k res)
Frugal gas (Interrupt.get_tx_context k) = (c : TxContext) → Frugal gas (k c)
Frugal gas (Interrupt.get_block_hash n k) = (h : ℕ) → Frugal gas (k h)
Frugal gas (Interrupt.emit_log l k) = Frugal gas k
Frugal gas (Interrupt.access_account a k) = (x : AccessStatus) → Frugal gas (k x)
Frugal gas (Interrupt.access_storage a key k) = (x : AccessStatus) → Frugal gas (k x)
Frugal gas (Interrupt.complete output) = AtMost gas output
Frugal gas (Interrupt.failed code) = Unit {0}

settle-Gives :
    (g : ℕ) (snapshot : Snapshot) (res : Output)
    → AtMost g res
    → Gives (AtMost g) (settle snapshot res)
unfolding settle
settle-Gives g snapshot res h =
    Gives-if (is_success res.status_code) _ _ (λ _. Gives-pure _ h)
      (λ _. Gives-bind _ _ (λ _.
        Gives-pure (if is_revert res.status_code then res else record res { gas_left = pos 0 })
          (ground arith)))

ran_lem :
    (evm : Evm) (i : ℤ) (gas : Option ℕ) (output : Option (List ℕ))
    → AtMost (as_u64 i) (ran evm i gas output (unused i))
ran_lem evm i none output = omega arith
ran_lem evm (pos m) (some gas) output = ground arith
ran_lem evm (negsuc m) (some gas) output = ground arith

run_precompiled-Gives :
    (evm : Evm) (message : EvmMessage)
    → Gives (AtMost (as_u64 message.gas)) (run_precompiled evm message (unused message.gas))
unfolding run_precompiled
run_precompiled-Gives evm message = by_contract (contract_at (message.code_address % 256 - 1))
  where
    by_contract :
        (c : Option Precompiled)
        → Gives (AtMost (as_u64 message.gas)) (elim c [
          | none ↦ lift (err panicked)
          | some contract ↦ pure (
              ran evm message.gas
                (contract_gas evm contract message.input_data)
                (evm.run contract message.input_data)
                (unused message.gas))
        ])
    by_contract none = Gives-fails panicked
    by_contract (some c) = Gives-pure _ (
        ran_lem evm message.gas (contract_gas evm c message.input_data)
          (evm.run c message.input_data))

module _ (evm : Evm) (inner : Call → Method Output)
    (sparing : (r : Call) → Gives (AtMost (gas_of r)) (inner r)) where
  answer_lem :
      (r : Call) (res : Output) → AtMost (gas_of r) res → AtMost (gas_of r) (answer evm r res)
  answer_lem (Call.call m) res h = h
  answer_lem (Call.create m) res h = ground arith

  resume_all-Gives :
      (g : ℕ) (i : Interrupt) → Frugal g i → Gives (AtMost g) (resume_all evm inner i)
  unfolding resume_all
  resume_all-Gives g Interrupt.instruction_start f = Gives-fails panicked
  resume_all-Gives g (Interrupt.account_exists a k) f =
      Gives-bind _ _ (λ b. resume_all-Gives g (k b) (f b))
  resume_all-Gives g (Interrupt.get_balance a k) f =
      Gives-bind _ _ (λ b. resume_all-Gives g (k b) (f b))
  resume_all-Gives g (Interrupt.get_code_size a k) f =
      Gives-bind _ _ (λ b. resume_all-Gives g (k b) (f b))
  resume_all-Gives g (Interrupt.get_storage a key k) f =
      Gives-bind _ _ (λ b. resume_all-Gives g (k b) (f b))
  resume_all-Gives g (Interrupt.set_storage a key v k) f =
      Gives-bind _ _ (λ b. resume_all-Gives g (k b) (f b))
  resume_all-Gives g (Interrupt.get_code_hash a k) f =
      Gives-bind _ _ (λ b. resume_all-Gives g (k b) (f b))
  resume_all-Gives g (Interrupt.copy_code a o m k) f =
      Gives-bind _ _ (λ b. resume_all-Gives g (k b) (f b))
  resume_all-Gives g (Interrupt.selfdestruct a b k) f = Gives-bind _ _ (λ b. resume_all-Gives g k f)
  resume_all-Gives g (Interrupt.call r k) f =
      Gives-bind_of (AtMost (gas_of r)) _ _ (sparing r) (λ res h.
        resume_all-Gives g (k (answer evm r res)) (f (answer evm r res) (answer_lem r res h)))
  resume_all-Gives g (Interrupt.get_tx_context k) f =
      Gives-bind _ _ (λ b. resume_all-Gives g (k b) (f b))
  resume_all-Gives g (Interrupt.get_block_hash n k) f =
      Gives-bind _ _ (λ b. resume_all-Gives g (k b) (f b))
  resume_all-Gives g (Interrupt.emit_log l k) f = Gives-bind _ _ (λ b. resume_all-Gives g k f)
  resume_all-Gives g (Interrupt.access_account a k) f =
      Gives-bind _ _ (λ b. resume_all-Gives g (k b) (f b))
  resume_all-Gives g (Interrupt.access_storage a key k) f =
      Gives-bind _ _ (λ b. resume_all-Gives g (k b) (f b))
  resume_all-Gives g (Interrupt.complete output) f = Gives-pure output f
  resume_all-Gives g (Interrupt.failed code) f = Gives-pure _ (omega arith)

  deploy_lem : (i : ℤ) (n g : ℕ) → le_ℤ n i ≡ true → as_u64 i ≤ g → as_u64 (sub_ℤ i n) ≤ g
  deploy_lem (pos m) n g t h = ground arith
  deploy_lem (negsuc m) n g t h = cc

  deploy-Gives : (g addr : ℕ) (res : Output) → AtMost g res → Gives (AtMost g) (deploy evm addr res)
  unfolding deploy
  deploy-Gives g addr res h =
      Gives-if (at evm london && (ltb 0 (length res.output_data) && first res.output_data == 0xef))
        _ _ (λ _. Gives-pure _ h)
        λ _.
          Gives-if (at evm spurious && ltb max_code_size (length res.output_data)) _ _
            (λ _. Gives-pure _ h)
            λ _.
              Gives-if (le_ℤ (mul64 (length res.output_data) g_code_deposit) res.gas_left) _ _
                (λ t. Gives-bind _ _ (λ _. Gives-pure _ (deploy_lem res.gas_left _ g t h)))
                λ _. Gives-if (at evm homestead) _ _ (λ _. Gives-pure _ h) (λ _. Gives-pure _ h)

  module _
      (frugal : (m : EvmMessage) (code : List ℕ)
        → Frugal (as_u64 m.gas) (evm.interpret m code)) where
    create_at-Gives :
        (m : CreateMessage) (addr : ℕ) → Gives (AtMost (as_u64 m.gas)) (create_at evm inner m addr)
    unfolding create_at
    create_at-Gives m addr =
        let g : ℕ = as_u64 m.gas in
        let sent : EvmMessage = deploy_message evm m addr in
        Gives-bind _ _ λ snapshot. Gives-bind _ _ λ _. Gives-bind _ _ λ _. Gives-bind _ _ λ _.
          Gives-bind _ _ λ _.
            Gives-bind_of (AtMost g) _ _ (resume_all-Gives g _ (frugal sent m.initcode)) λ res h.
              Gives-bind_of (AtMost g) _ _
                (Gives-if (is_success res.status_code) _ _ (λ _. deploy-Gives g addr res h)
                  (λ _. Gives-pure _ h))
                (λ deployed k.
                  settle-Gives g snapshot (with_address evm addr deployed) (ground arith))

    create-Gives : (m : CreateMessage) → Gives (AtMost (as_u64 m.gas)) (create evm inner m)
    unfolding create
    create-Gives m = Gives-bind _ _ λ balance.
        Gives-if (ltb balance m.endowment) _ _ (λ _. Gives-pure _ (omega arith))
          λ _. Gives-bind _ _ λ nonce. Gives-bind _ _ λ _. Gives-bind _ _ λ _. Gives-bind _ _ λ n.
            Gives-bind _ _ λ h.
              Gives-if (not (n == 0) || not (h == empty_hash)) _ _ (λ _. Gives-pure _ (omega arith))
                (λ _. create_at-Gives m (new_address evm m nonce))

    call_at-Gives :
        (m : EvmMessage) (code : Option (List ℕ))
        → Gives (AtMost (as_u64 m.gas)) (call_at evm inner m code)
    unfolding call_at
    call_at-Gives m code =
        let g : ℕ = as_u64 m.gas in
        Gives-bind _ _ λ snapshot. Gives-bind _ _ λ _.
          Gives-if (is_precompiled evm m.code_address) _ _
            (λ _.
              Gives-bind_of (AtMost g) _ _ (run_precompiled-Gives evm m) (settle-Gives g snapshot))
            λ _.
              Gives-if (length (unwrap_or code []) == 0) _ _ (λ _. Gives-pure _ (omega arith))
                λ _. Gives-bind _ _ λ _.
                  Gives-bind_of (AtMost g) _ _ (resume_all-Gives g _ (frugal m (unwrap_or code [])))
                    (settle-Gives g snapshot)

    call-Gives : (m : EvmMessage) → Gives (AtMost (as_u64 m.gas)) (call evm inner m)
    unfolding call
    call-Gives m = Gives-bind _ _ λ poor.
        Gives-if poor _ _ (λ _. Gives-pure _ (omega arith))
          λ _. Gives-bind _ _ λ code.
            Gives-bind _ _ λ void.
              Gives-if void _ _ (λ _. Gives-pure _ (omega arith)) (λ _. call_at-Gives m code)

module _ (evm : Evm)
    (frugal : (m : EvmMessage) (code : List ℕ) → Frugal (as_u64 m.gas) (evm.interpret m code)) where
  dispatch-Gives : (fuel : ℕ) (r : Call) → Gives (AtMost (gas_of r)) (dispatch evm fuel r)
  unfolding dispatch
  dispatch-Gives zero r = Gives-fails panicked
  dispatch-Gives (suc fuel) (Call.call m) =
      call-Gives evm (dispatch evm fuel) (dispatch-Gives fuel) frugal m
  dispatch-Gives (suc fuel) (Call.create m) =
      create-Gives evm (dispatch evm fuel) (dispatch-Gives fuel) frugal m

as_u64-as_i64 : (n : ℕ) → as_u64 (as_i64 n) ≤ n
as_u64-as_i64 n = ground arith

gas_of-request :
    (evm : Evm) (txn : MessageWithSender) (a : TransactionAction) (gas : ℕ)
    → gas_of (request_of evm txn a gas) ≤ gas
gas_of-request evm txn (TransactionAction.call to) gas = as_u64-as_i64 gas
gas_of-request evm txn TransactionAction.create gas = as_u64-as_i64 gas

Gives-weaken :
    {A : Type 0} {P Q : A → Type 0} {m : Method A} → Gives P m → ((a : A) → P a → Q a) → Gives Q m
Gives-weaken g weaker = record { at = λ s t a e. weaker a (g.at s t a e) }

module _ (evm : Evm)
    (frugal : (m : EvmMessage) (code : List ℕ) → Frugal (as_u64 m.gas) (evm.interpret m code)) where
  execute-Gives :
      (txn : MessageWithSender) (gas : ℕ) → Gives (λ res. res.gas_left ≤ gas) (execute evm txn gas)
  unfolding execute
  execute-Gives txn gas =
      let request : Call = request_of evm txn (Message.action txn.message) gas in
      Gives-bind_of (AtMost gas) _ _
        (Gives-weaken (dispatch-Gives (record evm { txn = txn }) frugal stack_limit request)
          (λ res h. omega (arith, gas_of-request evm txn (Message.action txn.message) gas)))
        (λ res h. Gives-pure _ h)

  -- A processor whose transactions run on this host has an interpreter that gives back no more gas than
  -- it was given, if the code that runs on the host does not: of all the gas that a call or a creation
  -- gets, with whatever calls, creations, deposits and precompiled contracts it comes to, at most that
  -- much is left.
  pub execute-IsFrugal : (self : Processor) → self.execute ≡ execute evm → IsFrugal self
  execute-IsFrugal self is txn gas s t res h =
      (execute-Gives txn gas).at s t res (subst (λ (f : Execute). f txn gas s ≡ ok (res, t)) is h)
