-- ===== src/State/IntraBlock/Rollback/Snapshots.antt =====
-- Reverting to a snapshot of src/state/intra_block_state.rs.
use akula.Prelude.{
  ℕ, ◌-◌, ◌≡◌, refl, sym, ap, ◌∙◌, List, [], ◌∷◌, ◌++◌, arith, length, drop, length-append,
  drop-append, subst,
}
use akula.Prelude.Words.{add64, sub64}
use akula.Errors.{ok}
use akula.State.Interface.{Reader}
use akula.State.Delta.{Delta, Log, IntraBlockState}
use akula.State.IntraBlock.{
  add_log, add_refund, subtract_refund, set_balance, add_to_balance, subtract_from_balance,
}
use akula.State.IntraBlock.Slots.{take_snapshot, revert_to_snapshot, revert_last, restore_substate}
use akula.State.IntraBlock.Rollback.{Restores, Restores-refl, Undo}
use akula.State.IntraBlock.Rollback.Compose.{Undo-quiet, Undo-trans}
use akula.State.IntraBlock.Rollback.Steps.{Undo-refl, ok-injective}
use akula.State.IntraBlock.Rollback.Operations
use akula.State.IntraBlock.Rollback.Writers
use akula.State.IntraBlock.Rollback.Frames.{
  Operation, exists_of, is_dead_of, get_balance_of, get_nonce_of, get_code_of, get_code_hash_of,
  get_current_storage_of, get_original_storage_of, create_contract_at, record_selfdestruct_of,
  touch_of, access_account_of, set_balance_of, add_to_balance_of, subtract_from_balance_of,
  set_nonce_of, set_code_of, access_storage_of, set_storage_of, log_of, add_refund_of,
  subtract_refund_of, perform, Allowed, Frame, stop, act, call_reverted, by_Step,
}

module _ (db : Reader) where
  -- The state behind a revert shows what the state of the snapshot shows, and keeps its journal, its
  -- logs and its refund.
  pub record Reverted (s u : IntraBlockState) : Type 0 where
    pub shows : Restores db s u
    pub journal : u.journal ≡ s.journal
    pub logs : u.logs ≡ s.logs
    pub refund : u.refund ≡ s.refund

  length-sub : {A : Type 0} (xs ys : List A) → length (xs ++ ys) - length ys ≡ length xs
  length-sub xs ys = omega (arith, length-append xs ys)

  logs_back :
      (s t : IntraBlockState) (xs : List Log)
      → t.logs ≡ xs ++ s.logs
      → drop (length t.logs - length s.logs) t.logs ≡ s.logs
  logs_back s t xs e = rw (e, length-sub xs s.logs) (drop-append xs s.logs)

  undone_snapshot :
      (s t : IntraBlockState)
      → Undo db s t
      → (u : IntraBlockState) × (revert_to_snapshot (take_snapshot s) t ≡ ok u) × Reverted s u
  unfolding revert_to_snapshot take_snapshot
  undone_snapshot s t p =
      let (v, w) = p.undone s.journal t (Restores-refl db t) p.pushed in
      let rounds : length t.journal - length s.journal ≡ length p.deltas =
        ap (λ (l : List Delta). length l - length s.journal) p.pushed
        ∙ length-sub p.deltas s.journal in
      (
        restore_substate (take_snapshot s) v,
        rw rounds (rw w.runs),
        record {
          shows = record {
            objects = w.restores.objects;
            cached = w.restores.cached;
            incarnations = w.restores.incarnations;
            original = w.restores.original;
            current = w.restores.current;
            self_destructs = w.restores.self_destructs;
            touched = w.restores.touched;
            addresses = w.restores.addresses;
            keys = w.restores.keys;
          };
          journal = w.journal;
          logs =
              ap (λ (l : List Log). drop (length l - length s.logs) l) w.logs
              ∙ logs_back s t p.fresh_logs p.logged;
          refund = refl;
        },
      )

  module _ (keccak256 : List ℕ → ℕ) where
    refund-Undo : (s : IntraBlockState) (gas : ℕ) → Undo db s (record s { refund = gas })
    refund-Undo s gas =
        Undo-quiet db
          (record {
            objects = r.objects;
            cached = r.cached;
            incarnations = r.incarnations;
            original = r.original;
            current = r.current;
            self_destructs = r.self_destructs;
            touched = r.touched;
            addresses = r.addresses;
            keys = r.keys;
          })
          refl refl
      where
        r : Restores db s s
        r = Restores-refl db s

    log-Undo : (s : IntraBlockState) (log : Log) → Undo db s (record s { logs = log ∷ s.logs })
    unfolding revert_last
    log-Undo s log = record {
      deltas = [];
      pushed = refl;
      fresh_logs = log ∷ [];
      logged = refl;
      undone = λ js u r e. (
        u,
        record {
          runs = refl;
          restores = record {
            objects = r.objects;
            cached = r.cached;
            incarnations = r.incarnations;
            original = r.original;
            current = r.current;
            self_destructs = r.self_destructs;
            touched = r.touched;
            addresses = r.addresses;
            keys = r.keys;
          };
          journal = e;
          logs = refl;
        },
      );
    }

    perform-Undo :
        (o : Operation) {s t : IntraBlockState}
        → Allowed db keccak256 o s
        → perform db keccak256 o s ≡ ok t
        → Undo db s t
    unfolding perform set_balance add_to_balance subtract_from_balance add_log add_refund
        subtract_refund
    perform-Undo (exists_of a) h e = by_Step db keccak256 (Operations.exists-Step db a) tt e
    perform-Undo (is_dead_of a) h e = by_Step db keccak256 (Operations.is_dead-Step db a) tt e
    perform-Undo (get_balance_of a) h e =
        by_Step db keccak256 (Operations.get_balance-Step db a) tt e
    perform-Undo (get_nonce_of a) h e = by_Step db keccak256 (Operations.get_nonce-Step db a) tt e
    perform-Undo (get_code_of a) h e = by_Step db keccak256 (Writers.get_code-Step db a) tt e
    perform-Undo (get_code_hash_of a) h e =
        by_Step db keccak256 (Operations.get_code_hash-Step db a) tt e
    perform-Undo (get_current_storage_of a k) h e =
        by_Step db keccak256 (Writers.get_current_storage-Step db a k) tt e
    perform-Undo (get_original_storage_of a k) h e =
        by_Step db keccak256 (Writers.get_original_storage-Step db a k) tt e
    perform-Undo (create_contract_at a) h e =
        by_Step db keccak256 (Writers.create_contract-Step db a) h e
    perform-Undo (record_selfdestruct_of a) h e =
        by_Step db keccak256 (Operations.record_selfdestruct-Step db a) tt e
    perform-Undo (touch_of a) h e = by_Step db keccak256 (Operations.touch-Step db a) tt e
    perform-Undo (access_account_of a) h e =
        by_Step db keccak256 (Operations.access_account-Step db a) tt e
    perform-Undo (set_balance_of a v) h e =
        by_Step db keccak256 (Operations.write_balance-Step db a _) tt e
    perform-Undo (add_to_balance_of a v) h e =
        by_Step db keccak256 (Operations.write_balance-Step db a _) tt e
    perform-Undo (subtract_from_balance_of a v) h e =
        by_Step db keccak256 (Operations.write_balance-Step db a _) tt e
    perform-Undo (set_nonce_of a n) h e =
        by_Step db keccak256 (Operations.set_nonce-Step db a n) tt e
    perform-Undo (set_code_of a code) h e =
        by_Step db keccak256 (Writers.set_code-Step db keccak256 a code) tt e
    perform-Undo (access_storage_of a k) h e =
        by_Step db keccak256 (Operations.access_storage-Step db a k) tt e
    perform-Undo (set_storage_of a k v) h e =
        by_Step db keccak256 (Writers.set_storage-Step db a k v) h e
    perform-Undo (log_of log) {s} {t} h e = subst (Undo db s) (ok-injective e) (log-Undo s log)
    perform-Undo (add_refund_of gas) {s} {t} h e =
        subst (Undo db s) (ok-injective e) (refund-Undo s (add64 s.refund gas))
    perform-Undo (subtract_refund_of gas) {s} {t} h e =
        subst (Undo db s) (ok-injective e) (refund-Undo s (sub64 s.refund gas))

    back_to :
        (s t u : IntraBlockState)
        → Undo db s t
        → revert_to_snapshot (take_snapshot s) t ≡ ok u
        → Reverted s u
    back_to s t u p e =
        let (v, runs, r) = undone_snapshot s t p in
        subst (Reverted s) (ok-injective (sym runs ∙ e)) r

    Frame-Undo : {s t : IntraBlockState} → Frame db keccak256 s t → Undo db s t
    Frame-Undo (stop s) = Undo-refl db s
    Frame-Undo (act o h e rest) = Undo-trans db (perform-Undo o h e) (Frame-Undo rest)
    Frame-Undo (call_reverted {s} {t} {u} inner e rest) =
        let r = back_to s t u (Frame-Undo inner) e in
        Undo-trans db (Undo-quiet db r.shows r.journal r.logs) (Frame-Undo rest)

    -- Whatever a message call did from `s` to `t`, nested calls that were reverted included, reverting
    -- to the snapshot that was taken at `s` does not panic, and in the state that it leaves every
    -- account, every original and current storage value, every incarnation, the self-destructs, the
    -- access lists and the touched accounts other than the RIPEMD precompile are what they are in `s`,
    -- and so are the journal, the logs and the refund. The call writes only storage of accounts that
    -- are there, and creates no contract whose incarnation counter has wrapped.
    pub revert-take_snapshot :
        (s t : IntraBlockState)
        → Frame db keccak256 s t
        → (u : IntraBlockState) × (revert_to_snapshot (take_snapshot s) t ≡ ok u) × Reverted s u
    revert-take_snapshot s t f = undone_snapshot s t (Frame-Undo f)
