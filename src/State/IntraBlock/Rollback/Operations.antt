-- ===== src/State/IntraBlock/Rollback/Operations.antt =====
-- Every operation that the journal covers can be undone.
use akula.Prelude.{ℕ, ◌≡◌, refl, sym, ◌∙◌, subst, inl, inr, Option, none, some, Option-cases, true}
use akula.Errors.{Error, ok, err, panicked}
use akula.HashMap
use akula.State.Interface.{Reader}
use akula.State.Monad.{Method, pure, modify, unwrap, ◌>>=◌}
use akula.State.Object.{Account, Object, empty_hash}
use akula.State.Delta.{IntraBlockState, update}
use akula.State.IntraBlock.{
  push, put_object, touch, touch_account, get_object, get_or_create_object, write_balance,
  set_nonce, update_account, selfdestruct_account, record_selfdestruct, access_account,
  access_storage, mark_account, mark_slot, exists, is_dead, get_balance, get_nonce, get_code_hash,
  has_current, current_or, is_empty_account,
}
use akula.State.IntraBlock.Rollback.{Undo}
use akula.State.IntraBlock.Rollback.Objects.{Undo-update, Undo-balance}
use akula.State.IntraBlock.Rollback.Sets.{Undo-touch, Undo-selfdestruct, Undo-account, Undo-slot}
use akula.State.IntraBlock.Rollback.Steps.{
  Any, Done, ok-injective, Step, Step-bind, Step-modify, Step-pure, Step-unwrap,
}
use akula.State.IntraBlock.Rollback.Lookups.{get_object-Step, get_or_create_object-Step}

not_both : {A : Type 0} {b : A × IntraBlockState} (e : Error) → ¬ (err e ≡ ok b)
not_both e h = cc

update_gone :
    (a : ℕ) (obj : Object) (change : Account → Account)
    → obj.current ≡ none
    → (s : IntraBlockState) → update_account a obj change s ≡ err panicked
unfolding update_account ◌>>=◌ modify unwrap
update_gone a obj change e s = rw e

update_live :
    (a : ℕ) (obj : Object) (change : Account → Account) (account : Account)
    → obj.current ≡ some account
    → (s : IntraBlockState)
    → update_account a obj change s
      ≡ ok (
        tt,
        put_object a (record obj { current = some (change account) }) (push (update a obj) s),
      )
unfolding update_account ◌>>=◌ modify unwrap
update_live a obj change account e s = rw e

module _ (db : Reader) where
  -- A method without a branch, by the state that it leaves.
  pub Step-run :
      {A : Type 0} {P : IntraBlockState → Type 0} {Q : A → IntraBlockState → Type 0} {m : Method A}
      (value : IntraBlockState → A) (f : IntraBlockState → IntraBlockState)
      → ((s : IntraBlockState) → m s ≡ ok (value s, f s))
      → ((s : IntraBlockState) → P s → Undo db s (f s) × Q (value s) (f s))
      → Step db P m Q
  Step-run {A} {P} {Q} value f runs step = record {
    at = λ s h b t e.
        subst (λ (p : A × IntraBlockState). Undo db s p.1 × Q p.0 p.1)
          (ok-injective (sym (runs s) ∙ e)) (step s h);
  }

  pub Step-fails :
      {A : Type 0} {P : IntraBlockState → Type 0} {Q : A → IntraBlockState → Type 0} {m : Method A}
      (e : Error)
      → ((s : IntraBlockState) → m s ≡ err e)
      → Step db P m Q
  Step-fails e fails = record { at = λ s h b t x. absurd (not_both e (sym (fails s) ∙ x)) }

  pub touch-Step : (a : ℕ) → Step db Any (touch a) Done
  unfolding touch
  touch-Step a = Step-run (λ s. tt) (touch_account a) (λ s. refl) (λ s h. (Undo-touch db s a, tt))

  pub record_selfdestruct-Step : (a : ℕ) → Step db Any (record_selfdestruct a) Done
  unfolding record_selfdestruct
  record_selfdestruct-Step a =
      Step-run (λ s. tt) (selfdestruct_account a) (λ s. refl)
        (λ s h. (Undo-selfdestruct db s a, tt))

  pub access_account-Step : (a : ℕ) → Step db Any (access_account a) Done
  unfolding access_account
  access_account-Step a = Step-run _ (mark_account a) (λ s. refl) (λ s h. (Undo-account db s a, tt))

  pub access_storage-Step : (a k : ℕ) → Step db Any (access_storage a k) Done
  unfolding access_storage
  access_storage-Step a k = Step-run _ (mark_slot a k) (λ s. refl) (λ s h. (Undo-slot db s a k, tt))

  -- The object of a writer is loaded or made first, and its account is there.
  abbrev Holds : ℕ → Object → Account → IntraBlockState → Type 0
  Holds a obj account t = (HashMap.get t.objects a ≡ some obj) × (obj.current ≡ some account)

  pub write_balance-Step : (a : ℕ) (change : ℕ → ℕ) → Step db Any (write_balance db a change) Done
  unfolding write_balance
  write_balance-Step a change =
      Step-bind db (get_or_create_object db a) _ (get_or_create_object-Step db a) λ obj.
        Step-bind db (unwrap obj.current) _
          (Step-unwrap db {Q = Holds a obj} obj.current (λ account s e h. (h, e)))
          λ account.
            Step-bind db (modify _) _
              (Step-modify db {Q = Done} _
                λ s h. (Undo-balance db s a (change account.balance) obj account h.0 h.1, tt))
              (λ _. touch-Step a)

  pub update_account-Step :
      (a : ℕ) (obj : Object) (change : Account → Account)
      → Step db (λ s. HashMap.get s.objects a ≡ some obj) (update_account a obj change) Done
  update_account-Step a obj change = elim (Option-cases obj.current) [
    | inl gone ↦ Step-fails panicked (update_gone a obj change gone)
    | inr (account, live) ↦
        Step-run (λ s. tt)
          (λ s.
            put_object a (record obj { current = some (change account) }) (push (update a obj) s))
          (update_live a obj change account live)
          (λ s there. (
            Undo-update db s a obj (record obj { current = some (change account) }) there refl,
            tt,
          ))
  ]

  pub set_nonce-Step : (a nonce : ℕ) → Step db Any (set_nonce db a nonce) Done
  unfolding set_nonce
  set_nonce-Step a nonce =
      Step-bind db (get_or_create_object db a) _ (get_or_create_object-Step db a)
        λ obj. update_account-Step a obj (λ account. record account { nonce = nonce })

  look-Step :
      {A : Type 0} (a : ℕ) (f : Option Object → A)
      → Step db Any (get_object db a >>= λ o. pure (f o)) Done
  look-Step a f =
      Step-bind db (get_object db a) _ (get_object-Step db a)
        (λ o. Step-pure db {Q = Done} (f o) (λ s h. tt))

  pub exists-Step : (a : ℕ) → Step db Any (exists db a) Done
  unfolding exists
  exists-Step a = look-Step a has_current

  pub is_dead-Step : (a : ℕ) → Step db Any (is_dead db a) Done
  unfolding is_dead
  is_dead-Step a = look-Step a (current_or true is_empty_account)

  pub get_balance-Step : (a : ℕ) → Step db Any (get_balance db a) Done
  unfolding get_balance
  get_balance-Step a = look-Step a (current_or 0 (λ c. c.balance))

  pub get_nonce-Step : (a : ℕ) → Step db Any (get_nonce db a) Done
  unfolding get_nonce
  get_nonce-Step a = look-Step a (current_or 0 (λ c. c.nonce))

  pub get_code_hash-Step : (a : ℕ) → Step db Any (get_code_hash db a) Done
  unfolding get_code_hash
  get_code_hash-Step a = look-Step a (current_or empty_hash (λ c. c.code_hash))
