-- ===== src/Sink/Ledger.antt =====
-- What the sink promises, without its tables: a ledger of the reports that were accepted, in the order
-- of their acceptance, and that Apply implements it.
use event_stream_platform.Prelude.{
  ℕ, ◌≡◌, refl, sym, ◌∙◌, ap, inl, inr, String, Option, none, some, List, [], ◌∷◌, ◌++◌, ltb, arith,
  if◌then◌else◌, Option-cases, Result, ok, err, ◌>>=◌, Result-cases,
}
use mathlib.Core.Path.{subst}
use event_stream_platform.Sink.Tables.{Db, PositionRow, find, is_some}
use event_stream_platform.Sink.Transaction.{DbError, TxEnv}
use event_stream_platform.Sink.Apply.{
  Store, Input, Outcome, applied, late, duplicate, outcome_of, current_of, is_vehicle, is_event,
  is_position, upsert_current, recorded, apply, position_row,
}
use event_stream_platform.Sink.History.{newest, current_option, IsConsistent}
use event_stream_platform.Sink.Rows.{has, find-has_event, find-has_position}
use event_stream_platform.Sink.Consistent.{
  Recording, apply-Body, apply-atomic, apply-IsConsistent, positions-recorded,
}

abbrev pub Ledger : Type 0
Ledger = List PositionRow

-- A report against the newest one of its vehicle.
abbrev pub standing : PositionRow → Option PositionRow → Outcome
standing r none = applied
standing r (some b) = if ltb b.event_ts r.event_ts then applied else late

-- One report: refused where the schema does not take it, passed over where its event is there
-- already, and else added at the end.
unfoldable pub report : Store → ℕ → Input → Ledger → Result DbError (Outcome × Ledger)
report s now i l = do
  id ← s.postgres.uuid i.envelope.event_id
  if is_some (find (is_position id) l)
      then ok (duplicate, l)
      else (position_row s now i id >>= λ row.
          ok (standing row (newest row.vehicle_id l), l ++ row ∷ []))

-- The answers of a sequence of calls of Apply, and the database after them.
unfoldable pub apply_each : Store → List (TxEnv × Input) → Db → List (Result DbError Outcome) × Db
apply_each s [] db = ([], db)
apply_each s ((env, i) ∷ calls) db =
    let (answer, db') = apply s env i db in
    let (answers, db'') = apply_each s calls db' in (answer ∷ answers, db'')

-- A sequence of calls explained by the ledger alone: an answered call is the report with that answer,
-- and one that failed was made or was not.
pub data Explained (s : Store)
    : List (TxEnv × Input) → List (Result DbError Outcome) → Ledger → Ledger → Type 0 where
  finished : (l : Ledger) → Explained s [] [] l l
  answered :
      {calls : List (TxEnv × Input)} {answers : List (Result DbError Outcome)} {l l' end : Ledger}
      (env : TxEnv) (i : Input) (o : Outcome)
      → report s env.now i l ≡ ok (o, l')
      → Explained s calls answers l' end
      → Explained s ((env, i) ∷ calls) (ok o ∷ answers) l end
  unheard :
      {calls : List (TxEnv × Input)} {answers : List (Result DbError Outcome)} {l l' end : Ledger}
      (env : TxEnv) (i : Input) (o : Outcome) (e : DbError)
      → report s env.now i l ≡ ok (o, l')
      → Explained s calls answers l' end
      → Explained s ((env, i) ∷ calls) (err e ∷ answers) l end
  undone :
      {calls : List (TxEnv × Input)} {answers : List (Result DbError Outcome)} {l end : Ledger}
      (env : TxEnv) (i : Input) (e : DbError)
      → Explained s calls answers l end
      → Explained s ((env, i) ∷ calls) (err e ∷ answers) l end

standing-newest :
    (row : PositionRow) (db : Db)
    → IsConsistent db
    → outcome_of (upsert_current (current_of row) db.current).0
      ≡ standing row (newest row.vehicle_id db.positions)
unfolding upsert_current current_of
standing-newest row db c = elim (Option-cases (newest row.vehicle_id db.positions)) [
  | inl q ↦ ground (arith, c.state row.vehicle_id, q)
  | inr (b, q) ↦ ground (arith, c.state row.vehicle_id, q)
]

same_test :
    (id : ℕ) (db : Db)
    → IsConsistent db
    → is_some (find (is_position id) db.positions) ≡ is_some (find (is_event id) db.processed)
same_test id db c = ground (
  arith,
  find-has_position id db.positions,
  find-has_event id db.processed,
  ap (has id) c.same_ids,
)

-- Recording an event is making the report.
report-recorded :
    (s : Store) (env : TxEnv) (i : Input) (db : Db) (row : PositionRow) (o : Outcome)
    → IsConsistent db
    → Recording s env i db row o
    → report s env.now i db.positions ≡ ok (o, (recorded s env.now i row db).positions)
unfolding report
report-recorded s env i db row o c r =
    let new = same_test row.event_id db c ∙ r.is_new in
    rw (r.id, new, r.converted)
      (ground (
        arith,
        r.outcome_is,
        standing-newest row db c,
        positions-recorded s env.now i row db c r.is_new,
      ))

-- A call that was answered: the ledger gives the same answer and goes the same way.
answered-report :
    (s : Store) (env : TxEnv) (i : Input) (db : Db) (o : Outcome)
    → IsConsistent db
    → (apply s env i db).0 ≡ ok o
    → report s env.now i db.positions ≡ ok (o, (apply s env i db).1.positions)
answered-report s env i db o c h = elim (apply-Body s env i db o h) [
  | inl (dup, same, (id, u, seen)) ↦
      let there = same_test id db c ∙ seen in unfold report in rw (u, there, same, dup) refl
  | inr (row, r, e) ↦ rw e (report-recorded s env i db row o c r)
]

-- Apply refines the ledger. Any sequence of calls on consistent tables, whatever fails in their
-- transactions or at their commits, is explained by the ledger whose reports are the rows of
-- vehicle_positions: each answer is the report's, and a call that failed was made as a whole or not
-- at all. After it, vehicle_current has for each vehicle the newest report of the ledger.
pub apply_each-Explained :
    (s : Store) (calls : List (TxEnv × Input)) (db : Db)
    → IsConsistent db
    → Explained s calls (apply_each s calls db).0 db.positions (apply_each s calls db).1.positions
      × ((v : String)
          → find (is_vehicle v) (apply_each s calls db).1.current
            ≡ current_option (newest v (apply_each s calls db).1.positions))
unfolding apply_each
apply_each-Explained s [] db c = (finished db.positions, c.state)
apply_each-Explained s ((env, i) ∷ calls) db c =
    let db' = (apply s env i db).1 in
    let end = (apply_each s calls db').1.positions in
    let (rest, state) = apply_each-Explained s calls db' (apply-IsConsistent s env i db c) in
    elim (Result-cases (apply s env i db).0) [
      | inl (o, a) ↦ (rw a (answered env i o (answered-report s env i db o c a) rest), state)
      | inr (e, a) ↦ elim (apply-atomic s env i db) [
        | inl same ↦ (
          rw a (
              undone env i e (
                subst (λ (d : Db). Explained s calls (apply_each s calls db').0 d.positions end)
                  same rest)),
          state,
        )
        | inr (row, o, r, made) ↦ (
          rw a (
              unheard env i o e
                (subst (λ (d : Db). report s env.now i db.positions ≡ ok (o, d.positions))
                  (sym made) (report-recorded s env i db row o c r))
                rest),
          state,
        )
      ]
    ]
