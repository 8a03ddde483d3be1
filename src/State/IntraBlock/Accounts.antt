-- ===== src/State/IntraBlock/Accounts.antt =====
-- What the accounts of the journaled state are after a write.
use akula.Prelude.{
  ℕ, ◌≡◌, refl, sym, ap, ◌∙◌, ◌==◌, if◌then◌else◌, false, Option, none, some, arith, unwrap_or,
  ==_self, ==_iff, Bool-cases, Option-cases, inl, inr,
}
use akula.Errors.{Result, ok, err, map_ok}
use akula.HashMap
use akula.HashMap.{get-insert}
use akula.State.Interface.{Reader}
use akula.State.Monad.{pure, gets, modify, unwrap, ◌>>=◌, bind-ok, pure-ok, pure-keeps}
use akula.State.Object.{Account, Object, default_account}
use akula.State.Delta.{IntraBlockState, Delta, update_balance}
use akula.State.IntraBlock.{
  push, put_object, get_object, ensure_object, ensure_current, get_or_create_object, write_balance,
  get_balance, touch, touch_account, current_or,
}
use akula.State.IntraBlock.Rollback.{object_at, object_from}
use akula.State.IntraBlock.Rollback.Steps.{ok-injective}
use akula.State.IntraBlock.Rollback.Lookups.{get_object_lem, Found}

abbrev pub current_of : Option Object → Option Account
current_of none = none
current_of (some obj) = obj.current

module _ (db : Reader) where
  -- The account that an address shows.
  abbrev pub account_at : IntraBlockState → ℕ → Result (Option Account)
  account_at s a = map_ok current_of (object_at db s a)

  -- `t` shows what `s` shows but for the account of `a`, which `change` has gone over.
  abbrev pub Changed : ℕ → (Account → Account) → IntraBlockState → IntraBlockState → Type 0
  Changed a change s t =
      (b : ℕ)
      → account_at t b ≡ (
          if a == b
          then map_ok (λ o. some (change (unwrap_or o default_account))) (account_at s b)
          else account_at s b)

  shown-put :
      (s : IntraBlockState) (a : ℕ) (obj : Object) (d : Delta) (b : ℕ)
      → account_at (put_object a obj (push d s)) b
        ≡ (if a == b then ok obj.current else account_at s b)
  shown-put s a obj d b = rw (get-insert s.objects a obj b) (ground arith)

  pub modify-ok :
      (f : IntraBlockState → IntraBlockState) (s t : IntraBlockState)
      → modify f s ≡ ok (tt, t)
      → f s ≡ t
  unfolding modify
  modify-ok f s t h = ground arith

  -- What is there when an account is sure to be.
  record Ensured (a : ℕ) (s t : IntraBlockState) : Type 0 where
    shown : Object
    account : Account
    before : Option Account
    found : HashMap.get t.objects a ≡ some shown
    live : shown.current ≡ some account
    was : account_at s a ≡ ok before
    same : account ≡ unwrap_or before default_account
    others : (b : ℕ) → (a == b) ≡ false → account_at t b ≡ account_at s b

  made :
      (a : ℕ) (s u t : IntraBlockState) (o : Option Object) (d : Delta) (x : Object)
      → object_at db s a ≡ ok o
      → ((b : ℕ) → object_at db u b ≡ object_at db s b)
      → current_of o ≡ none
      → x.current ≡ some default_account
      → put_object a x (push d u) ≡ t
      → Ensured a s t
  made a s u t o d x was shows gone live e = record {
    shown = x;
    account = default_account;
    before = none;
    found = rw (← e) (rw (get-insert u.objects a x a, ==_self a));
    live = live;
    was = ap (map_ok current_of) was ∙ ap ok gone;
    same = refl;
    others = λ b h. rw (← e) (shown-put u a x d b ∙ rw h (ap (map_ok current_of) (shows b)));
  }

  ensured_current :
      (a : ℕ) (s u t : IntraBlockState) (o : Option Object)
      → object_at db s a ≡ ok o
      → ((b : ℕ) → object_at db u b ≡ object_at db s b)
      → Found db a o u
      → ensure_current db a o u ≡ ok (tt, t)
      → Ensured a s t
  unfolding ensure_current
  ensured_current a s u t none was shows found h =
      made a s u t none _ (record { initial = none; current = some default_account }) was shows refl
        refl (modify-ok _ u t h)
  ensured_current a s u t (some x) was shows found h = elim (Option-cases x.current) [
    | inl gone ↦
        made a s u t (some x) _ (record x { current = some default_account }) was shows gone refl
          (modify-ok _ u t (rw gone at h))
    | inr (account, live) ↦
        let same = pure-keeps tt tt u t (rw live at h) in
        record {
          shown = x;
          account = account;
          before = some account;
          found = rw (← same) found;
          live = live;
          was = ap (map_ok current_of) was ∙ ap ok live;
          same = refl;
          others = λ b e. rw (← same) (ap (map_ok current_of) (shows b));
        }
  ]

  ensured : (a : ℕ) (s t : IntraBlockState) → ensure_object db a s ≡ ok (tt, t) → Ensured a s t
  unfolding ensure_object
  ensured a s t h =
      let (o, u, e, h1) = bind-ok (get_object db a) _ s t tt h in
      let l = get_object_lem db s a o u e in
      ensured_current a s u t o l.was l.shows.objects l.found h1

  unwrap-ok :
      {A : Type 0} (o : Option A) (a : A) (s t : IntraBlockState)
      → unwrap o s ≡ ok (a, t)
      → (o ≡ some a) × (s ≡ t)
  unfolding unwrap
  unwrap-ok none a s t h = absurd (ground arith)
  unwrap-ok (some b) a s t h = (ground arith, ground arith)

  touched-objects : (a : ℕ) (s : IntraBlockState) → (touch_account a s).objects ≡ s.objects
  touched-objects a s = ground arith

  touch-objects : (a : ℕ) (s t : IntraBlockState) → touch a s ≡ ok (tt, t) → t.objects ≡ s.objects
  unfolding touch pure
  touch-objects a s t h =
      ap (λ (r : IntraBlockState). r.objects) (sym (pure-keeps tt tt (touch_account a s) t h))
      ∙ touched-objects a s

  some-injective : {A : Type 0} {a b : A} → some a ≡ some b → a ≡ b
  some-injective e = ground arith

  got :
      (a : ℕ) (s t : IntraBlockState) (x : Object)
      → get_or_create_object db a s ≡ ok (x, t)
      → (u : IntraBlockState) × (e : Ensured a s u) × (u ≡ t) × (e.shown ≡ x)
  unfolding get_or_create_object gets ◌>>=◌
  got a s t x h =
      let (u0, u, e0, h1) = bind-ok (ensure_object db a) _ s t x h in
      let e = ensured a s u e0 in
      let (found, same) = unwrap-ok (HashMap.get u.objects a) x u t h1 in
      (u, e, same, some-injective (sym e.found ∙ found))

  abbrev with_balance : (ℕ → ℕ) → Account → Account
  with_balance change account = record account { balance = change account.balance }

  written :
      (a b : ℕ) (s u t : IntraBlockState) (e : Ensured a s u) (change : Account → Account)
      (x : Object) (d : Delta) (account : Account)
      → x.current ≡ some (change account)
      → account ≡ e.account
      → t.objects ≡ (put_object a x (push d u)).objects
      → account_at t b ≡ (
          if a == b
          then map_ok (λ o. some (change (unwrap_or o default_account))) (account_at s b)
          else account_at s b)
  written a b s u t e change x d account live same objects =
      ap (λ m. map_ok current_of (object_from db b (HashMap.get m b))) objects
      ∙ shown-put u a x d b
      ∙ elim (Bool-cases (a == b)) [
        | inl h ↦ rw h (
            rw (← (==_iff a b).0 h)
              (rw e.was (ap ok (live ∙ ap (λ c. some (change c)) (same ∙ e.same)))))
        | inr h ↦ rw h (e.others b h)
      ]

  pub write_balance-Changed :
      (a : ℕ) (change : ℕ → ℕ) (s t : IntraBlockState)
      → write_balance db a change s ≡ ok (tt, t)
      → Changed a (with_balance change) s t
  unfolding write_balance
  write_balance-Changed a change s t h b =
      let (obj, u, e1, h1) = bind-ok (get_or_create_object db a) _ s t tt h in
      let (v, e, same, shown) = got a s u obj e1 in
      let (account, w, e2, h2) = bind-ok (unwrap obj.current) _ u t tt h1 in
      let (live, kept) = unwrap-ok obj.current account u w e2 in
      let (u3, z, e3, h3) = bind-ok (modify _) _ w t tt h2 in
      let put = modify-ok _ w z e3 in
      let x = record obj { current = some (with_balance change account) } in
      let d = update_balance a account.balance in
      written a b s v t e (with_balance change) x d account refl
        (some-injective (sym live ∙ ap (λ (o : Object). o.current) (sym shown) ∙ e.live))
        (touch-objects a z t h3
          ∙ ap (λ (m : IntraBlockState). m.objects) (sym put)
          ∙ ap (λ m. (put_object a x (push d m)).objects) (sym kept ∙ sym same))

  balance_of : Option Account → ℕ
  balance_of o = (unwrap_or o default_account).balance

  current_or-balance :
      (o : Option Object) → current_or 0 (λ a. a.balance) o ≡ balance_of (current_of o)
  unfolding balance_of
  current_or-balance none = refl
  current_or-balance (some obj) = elim (Option-cases obj.current) [
    | inl e ↦ rw e refl
    | inr (c, e) ↦ rw e refl
  ]

  get_balance-ok :
      (b : ℕ) (s t : IntraBlockState) (v : ℕ)
      → get_balance db b s ≡ ok (v, t)
      → map_ok balance_of (account_at s b) ≡ ok v
  unfolding get_balance
  get_balance-ok b s t v h =
      let (o, u, e, h1) = bind-ok (get_object db b) _ s t v h in
      let l = get_object_lem db s b o u e in
      rw l.was (ap ok (sym (current_or-balance o) ∙ pure-ok _ v u t h1))

  rebalanced :
      (change : ℕ → ℕ) (r : Result (Option Account))
      → map_ok balance_of (map_ok (λ o. some (with_balance change (unwrap_or o default_account))) r)
        ≡ map_ok change (map_ok balance_of r)
  unfolding balance_of
  rebalanced change (ok o) = refl
  rebalanced change (err e) = refl

  -- Writing a balance is seen by a later reading of it, and by no reading of another address.
  pub write_balance-get_balance :
      (a b : ℕ) (change : ℕ → ℕ) (s t s' t' : IntraBlockState) (v w : ℕ)
      → get_balance db b s ≡ ok (v, s')
      → write_balance db a change s ≡ ok (tt, t)
      → get_balance db b t ≡ ok (w, t')
      → w ≡ (if a == b then change v else v)
  write_balance-get_balance a b change s t s' t' v w before write after =
      let changed = write_balance-Changed a change s t write b in
      let was = get_balance-ok b s s' v before in
      let is = get_balance-ok b t t' w after in
      elim (Bool-cases (a == b)) [
        | inl h ↦ rw h (
            ok-injective (
              sym is
              ∙ ap (map_ok balance_of) (changed ∙ rw h refl)
              ∙ rebalanced change (account_at s b)
              ∙ ap (map_ok change) was))
        | inr h ↦ rw h (ok-injective (sym is ∙ ap (map_ok balance_of) (changed ∙ rw h refl) ∙ was))
      ]
