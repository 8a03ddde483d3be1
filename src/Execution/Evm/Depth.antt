-- ===== src/Execution/Evm/Depth.antt =====
-- How deep the calls of src/execution/evm.rs nest: the host recurs as deep as the interpreter lets calls
-- nest, so the stack that `execute` is given is enough.
use akula.Prelude.{
  ℕ, zero, suc, ◌+◌, ◌≤◌, ◌<◌, ◌≡◌, refl, subst, ◌∙◌, ap, Bool, true, false, not, ◌||◌, Option,
  List, [], arith, length, ltb, ◌==◌, if◌then◌else◌, unwrap_or,
}
use mathlib.Core.Path.{fun_ext}
use akula.State.Delta.{IntraBlockState}
use akula.State.Monad.{Method, ◌>>=◌}
use akula.State.IntraBlock.{AccessStatus}
use akula.State.Object.{empty_hash}
use akula.Execution.Evm.{
  Evm, answer, resume_all, create_at, create, call_at, call, dispatch, stack_limit, is_precompiled,
  deploy_message, new_address,
}
use akula.Execution.Evm.Interpreter.{
  EvmMessage, CreateMessage, Output, Call, StorageStatus, TxContext, Interrupt,
}

abbrev pub depth_of : Call → ℕ
depth_of (Call.call message) = message.depth
depth_of (Call.create message) = message.depth

-- A run at a depth asks only for calls one deeper, and at the limit for none.
abbrev pub Nested : ℕ → Interrupt → Type 0
Nested d Interrupt.instruction_start = Unit {0}
Nested d (Interrupt.account_exists a k) = (b : Bool) → Nested d (k b)
Nested d (Interrupt.get_balance a k) = (n : ℕ) → Nested d (k n)
Nested d (Interrupt.get_code_size a k) = (n : ℕ) → Nested d (k n)
Nested d (Interrupt.get_storage a key k) = (n : ℕ) → Nested d (k n)
Nested d (Interrupt.set_storage a key v k) = (x : StorageStatus) → Nested d (k x)
Nested d (Interrupt.get_code_hash a k) = (n : ℕ) → Nested d (k n)
Nested d (Interrupt.copy_code a o m k) = (l : List ℕ) → Nested d (k l)
Nested d (Interrupt.selfdestruct a b k) = Nested d k
Nested d (Interrupt.call r k) =
    (depth_of r ≡ d + 1) × (d < 1024) × ((res : Output) → Nested d (k res))
Nested d (Interrupt.get_tx_context k) = (c : TxContext) → Nested d (k c)
Nested d (Interrupt.get_block_hash n k) = (h : ℕ) → Nested d (k h)
Nested d (Interrupt.emit_log l k) = Nested d k
Nested d (Interrupt.access_account a k) = (x : AccessStatus) → Nested d (k x)
Nested d (Interrupt.access_storage a key k) = (x : AccessStatus) → Nested d (k x)
Nested d (Interrupt.complete output) = Unit {0}
Nested d (Interrupt.failed code) = Unit {0}

>>=_congr :
    {A B : Type 0} (m : Method A) {f g : A → Method B}
    → ((a : A) → f a ≡ g a)
    → (m >>= f) ≡ (m >>= g)
>>=_congr m e = ap (◌>>=◌ m) (fun_ext e)

first_congr : {A B : Type 0} {m n : Method A} (f : A → Method B) → m ≡ n → (m >>= f) ≡ (n >>= f)
first_congr f e = ap (λ m. m >>= f) e

if_congr :
    {A : Type 0} (b : Bool) (x : A) {y z : A}
    → (b ≡ false → y ≡ z)
    → (if b then x else y) ≡ (if b then x else z)
if_congr true x e = refl
if_congr false x e = e refl

module _ (evm : Evm) (inner inner' : Call → Method Output) (d : ℕ)
    (agree : (r : Call) → depth_of r ≡ d + 1 → d < 1024 → inner r ≡ inner' r) where
  resume_all_congr : (i : Interrupt) → Nested d i → resume_all evm inner i ≡ resume_all evm inner' i
  unfolding resume_all
  resume_all_congr Interrupt.instruction_start n = refl
  resume_all_congr (Interrupt.account_exists a k) n =
      >>=_congr _ (λ b. resume_all_congr (k b) (n b))
  resume_all_congr (Interrupt.get_balance a k) n = >>=_congr _ (λ b. resume_all_congr (k b) (n b))
  resume_all_congr (Interrupt.get_code_size a k) n = >>=_congr _ (λ b. resume_all_congr (k b) (n b))
  resume_all_congr (Interrupt.get_storage a key k) n =
      >>=_congr _ (λ b. resume_all_congr (k b) (n b))
  resume_all_congr (Interrupt.set_storage a key v k) n =
      >>=_congr _ (λ b. resume_all_congr (k b) (n b))
  resume_all_congr (Interrupt.get_code_hash a k) n = >>=_congr _ (λ b. resume_all_congr (k b) (n b))
  resume_all_congr (Interrupt.copy_code a o m k) n = >>=_congr _ (λ b. resume_all_congr (k b) (n b))
  resume_all_congr (Interrupt.selfdestruct a b k) n = >>=_congr _ (λ _. resume_all_congr k n)
  resume_all_congr (Interrupt.call r k) (deep, small, n) =
      first_congr (λ res. resume_all evm inner (k (answer evm r res))) (agree r deep small)
      ∙ >>=_congr (inner' r) (λ res. resume_all_congr (k (answer evm r res)) (n (answer evm r res)))
  resume_all_congr (Interrupt.get_tx_context k) n = >>=_congr _ (λ b. resume_all_congr (k b) (n b))
  resume_all_congr (Interrupt.get_block_hash a k) n =
      >>=_congr _ (λ b. resume_all_congr (k b) (n b))
  resume_all_congr (Interrupt.emit_log l k) n = >>=_congr _ (λ _. resume_all_congr k n)
  resume_all_congr (Interrupt.access_account a k) n =
      >>=_congr _ (λ b. resume_all_congr (k b) (n b))
  resume_all_congr (Interrupt.access_storage a key k) n =
      >>=_congr _ (λ b. resume_all_congr (k b) (n b))
  resume_all_congr (Interrupt.complete output) n = refl
  resume_all_congr (Interrupt.failed code) n = refl

  module _
      (nested : (m : EvmMessage) (code : List ℕ)
        → m.depth ≡ d
        → Nested d (evm.interpret m code)) where
    create_at_congr :
        (m : CreateMessage) (addr : ℕ)
        → m.depth ≡ d
        → create_at evm inner m addr ≡ create_at evm inner' m addr
    unfolding create_at
    create_at_congr m addr deep = >>=_congr _ λ _. >>=_congr _ λ _. >>=_congr _ λ _.
        >>=_congr _ λ _. >>=_congr _ λ _.
          first_congr _ (resume_all_congr _ (nested (deploy_message evm m addr) m.initcode deep))

    create_congr : (m : CreateMessage) → m.depth ≡ d → create evm inner m ≡ create evm inner' m
    unfolding create
    create_congr m deep = >>=_congr _ λ balance. if_congr (ltb balance m.endowment) _ λ _.
        >>=_congr _ λ nonce. >>=_congr _ λ _. >>=_congr _ λ _. >>=_congr _ λ n. >>=_congr _ λ h.
          if_congr (not (n == 0) || not (h == empty_hash)) _
            (λ _. create_at_congr m (new_address evm m nonce) deep)

    call_at_congr :
        (m : EvmMessage) (code : Option (List ℕ))
        → m.depth ≡ d
        → call_at evm inner m code ≡ call_at evm inner' m code
    unfolding call_at
    call_at_congr m code deep = >>=_congr _ λ _. >>=_congr _ λ _.
        if_congr (is_precompiled evm m.code_address) _ λ _.
          if_congr (length (unwrap_or code []) == 0) _ λ _.
            >>=_congr _ λ _. first_congr _ (resume_all_congr _ (nested m (unwrap_or code []) deep))

    call_congr : (m : EvmMessage) → m.depth ≡ d → call evm inner m ≡ call evm inner' m
    unfolding call
    call_congr m deep = >>=_congr _ λ poor. if_congr poor _ λ _.
        >>=_congr _ λ code. >>=_congr _ λ void. if_congr void _ (λ _. call_at_congr m code deep)

module _ (evm : Evm)
    (nested : (m : EvmMessage) (code : List ℕ) → Nested m.depth (evm.interpret m code)) where
  Nested-at :
      (d : ℕ) (m : EvmMessage) (code : List ℕ) → m.depth ≡ d → Nested d (evm.interpret m code)
  Nested-at d m code e = subst (λ (n : ℕ). Nested n (evm.interpret m code)) e (nested m code)

  one_more :
      (fuel : ℕ) (r : Call)
      → 1024 < depth_of r + fuel
      → depth_of r ≤ 1024
      → dispatch evm (suc fuel) r ≡ dispatch evm fuel r
  unfolding dispatch
  one_more zero r enough small = absurd (omega arith)
  one_more (suc fuel) (Call.call m) enough small =
      call_congr evm (dispatch evm (suc fuel)) (dispatch evm fuel) m.depth
        (λ r deep less. one_more fuel r (omega arith) (omega arith)) (Nested-at m.depth) m refl
  one_more (suc fuel) (Call.create m) enough small =
      create_congr evm (dispatch evm (suc fuel)) (dispatch evm fuel) m.depth
        (λ r deep less. one_more fuel r (omega arith) (omega arith)) (Nested-at m.depth) m refl

  any_more :
      (more n fuel : ℕ) (r : Call)
      → n ≡ more + fuel
      → 1024 < depth_of r + fuel
      → depth_of r ≤ 1024
      → dispatch evm n r ≡ dispatch evm fuel r
  any_more zero n fuel r e enough small = ap (λ (k : ℕ). dispatch evm k r) (omega arith)
  any_more (suc more) n fuel r e enough small =
      let step : n ≡ suc (more + fuel) = omega arith in
      ap (λ (k : ℕ). dispatch evm k r) step
      ∙ one_more (more + fuel) r (omega arith) small
      ∙ any_more more (more + fuel) fuel r refl enough small

  -- If the interpreter nests its calls at most 1024 deep, and each one deeper than the one that asks
  -- for it, then the stack of `execute` is enough: with any more of it, a call or a creation of a
  -- transaction does the same.
  pub dispatch-stack_limit :
      (more : ℕ) (request : Call) (s : IntraBlockState)
      → depth_of request ≡ 0
      → dispatch evm (more + stack_limit) request s ≡ dispatch evm stack_limit request s
  dispatch-stack_limit more request s top =
      ap (λ (run : Method Output). run s)
        (any_more more (more + stack_limit) stack_limit request refl (omega arith) (omega arith))
