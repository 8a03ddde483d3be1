-- ===== src/State/IntraBlock/Rollback/Compose.antt =====
-- `Undo` of a step that keeps what is shown, of one delta, and of two steps in a row.
use akula.Prelude.{◌≡◌, refl, sym, ap, ◌∙◌, ◌⊎◌, inl, inr, List, [], ◌∷◌, ◌++◌, arith, length}
use akula.Errors.{Error, Result, ok, err}
use akula.State.Interface.{Reader}
use akula.State.Delta.{Delta, IntraBlockState, revert}
use akula.State.IntraBlock.Slots.{revert_last, pop_delta, then_revert}
use akula.State.IntraBlock.Rollback.{Restores, Restores-trans, Undo, Rewound}
use mathlib.Core.List.{append_assoc}

pub Result-cases {ℓ} :
    {A : Type ℓ} (r : Result A) → ((a : A) × (r ≡ ok a)) ⊎ ((e : Error) × (r ≡ err e))
Result-cases (ok a) = inl (a, refl)
Result-cases (err e) = inr (e, refl)

then_revert-eq-ok :
    (r : Result IntraBlockState) (f : IntraBlockState → Result IntraBlockState)
    (w : IntraBlockState)
    → then_revert r f ≡ ok w
    → (v : IntraBlockState) × (r ≡ ok v) × (f v ≡ ok w)
then_revert-eq-ok (ok v) f w h = (v, refl, h)
then_revert-eq-ok (err e) f w h = cc

revert_last-append :
    (ds es : List Delta) (s v w : IntraBlockState)
    → revert_last (length ds) s ≡ ok v
    → revert_last (length es) v ≡ ok w
    → revert_last (length (ds ++ es)) s ≡ ok w
unfolding revert_last
revert_last-append [] es s v w h k = let e : s ≡ v = ground arith in rw e k
revert_last-append (d ∷ ds) es s v w h k =
    let (t, e, f) = then_revert-eq-ok (pop_delta s.journal s) (revert_last (length ds)) v h in
    rw (e, then_revert) (revert_last-append ds es t v w f k)

module _ (db : Reader) where
  pub Undo-quiet :
      {s t : IntraBlockState}
      → Restores db s t
      → t.journal ≡ s.journal
      → t.logs ≡ s.logs
      → Undo db s t
  unfolding revert_last
  Undo-quiet r j l = record {
    deltas = [];
    pushed = j;
    fresh_logs = [];
    logged = l;
    undone = λ js u q e.
        (u, record { runs = refl; restores = Restores-trans db r q; journal = e; logs = refl });
  }

  pub Undo-one :
      {s t : IntraBlockState} (d : Delta)
      → t.journal ≡ d ∷ s.journal
      → t.logs ≡ s.logs
      → ((u : IntraBlockState)
          → Restores db t u
          → (v : IntraBlockState) × (revert d u ≡ ok v)
            × Restores db s v
            × (v.journal ≡ u.journal)
            × (v.logs ≡ u.logs))
      → Undo db s t
  unfolding revert_last
  Undo-one {s} {t} d j l back = record {
    deltas = d ∷ [];
    pushed = j;
    fresh_logs = [];
    logged = l;
    undone = λ js u q e. one js u q e;
  }
    where
      popped :
          (js : List Delta) (u : IntraBlockState)
          → Restores db t u
          → Restores db t (record u { journal = js })
      popped js u q = record {
        objects = q.objects;
        cached = q.cached;
        incarnations = q.incarnations;
        original = q.original;
        current = q.current;
        self_destructs = q.self_destructs;
        touched = q.touched;
        addresses = q.addresses;
        keys = q.keys;
      }

      one :
          (js : List Delta) (u : IntraBlockState)
          → Restores db t u
          → u.journal ≡ d ∷ js
          → (v : IntraBlockState) × Rewound db 1 s u js v
      one js u q e =
          let (v, runs, shows, same, logs) = back (record u { journal = js }) (popped js u q) in
          (
            v,
            record {
              runs = rw (e, pop_delta) (rw runs);
              restores = shows;
              journal = same;
              logs = logs;
            },
          )

  pub Undo-trans : {s t u : IntraBlockState} → Undo db s t → Undo db t u → Undo db s u
  Undo-trans {s} {t} {u} p q = record {
    deltas = q.deltas ++ p.deltas;
    pushed =
        q.pushed ∙ ap (◌++◌ q.deltas) p.pushed ∙ sym (append_assoc q.deltas p.deltas s.journal);
    fresh_logs = q.fresh_logs ++ p.fresh_logs;
    logged =
        q.logged
        ∙ ap (◌++◌ q.fresh_logs) p.logged
        ∙ sym (append_assoc q.fresh_logs p.fresh_logs s.logs);
    undone = λ js w r e.
        let (x, a) = q.undone (p.deltas ++ js) w r (e ∙ append_assoc q.deltas p.deltas js) in
        let (y, b) = p.undone js x a.restores a.journal in
        (
          y,
          record {
            runs = revert_last-append q.deltas p.deltas w x y a.runs b.runs;
            restores = b.restores;
            journal = b.journal;
            logs = b.logs ∙ a.logs;
          },
        );
  }
