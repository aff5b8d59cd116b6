-- ===== src/Sink/Newest.antt =====
-- The late-data rule: the current state of a vehicle is its newest report.
use event_stream_platform.Prelude.{
  ◌≤◌, ◌≡◌, refl, ◌∙◌, ap, Option-cases, ◌⊎◌, inl, inr, String, Bool, true, false, Option, none,
  some, List, [], ◌∷◌, ◌++◌, arith, ltb, if◌then◌else◌, Holds, ok,
}
use mathlib.Core.Path.{subst}
use event_stream_platform.Sink.Tables.{Db, PositionRow, CurrentRow, empty, find}
use event_stream_platform.Sink.Transaction.{TxEnv}
use event_stream_platform.Sink.Apply.{
  Store, Input, Outcome, applied, duplicate, late, outcome_of, is_vehicle, current_of, recorded,
  apply,
}
use event_stream_platform.Sink.History.{newest, current_option, IsConsistent}
use event_stream_platform.Sink.Tops.{
  Tops, OfVehicle, All-Tops-newest, OfVehicle-newest, Holds-Tops, Holds-newest,
}
use event_stream_platform.Sink.Rows.{guarded, find-upsert_current, affected-upsert_current}
use event_stream_platform.Sink.Consistent.{
  Recording, apply-atomic, apply-Body, positions-recorded, position_row-keeps, deliver,
  deliver-IsConsistent, IsConsistent-empty,
}

-- The current row of the vehicle of a row of the history: that of a row of the history, of that vehicle,
-- which is as new or newer.
pub record IsShown (db : Db) (r : PositionRow) : Type 0 where
  pub row : PositionRow
  pub is_there : Holds row db.positions
  pub of_vehicle : row.vehicle_id ≡ r.vehicle_id
  pub shown : find (is_vehicle r.vehicle_id) db.current ≡ some (current_of row)
  pub as_new : r.event_ts ≤ row.event_ts

IsConsistent-IsShown :
    (db : Db) (r : PositionRow) → IsConsistent db → Holds r db.positions → IsShown db r
IsConsistent-IsShown db r c h =
    let v = r.vehicle_id in
    let top : Tops v (newest v db.positions) r =
      Holds-Tops v (newest v db.positions) db.positions r (All-Tops-newest v db.positions) h in
    elim (Option-cases (newest v db.positions)) [
      | inl q ↦ absurd (subst (λ o. Tops v o r) q top refl)
      | inr (b, q) ↦ record {
        row = b;
        is_there = Holds-newest v db.positions b q;
        of_vehicle = subst (OfVehicle v) q (OfVehicle-newest v db.positions);
        shown = c.state v ∙ ap current_option q;
        as_new = subst (λ o. Tops v o r) q top refl;
      }
    ]

-- After any sequence of calls of Apply from empty tables, late, repeated and failing ones included,
-- vehicle_current has not drifted from the history: for any row of the history its vehicle has a
-- current row, which is that of a row of the history of that vehicle, as new or newer.
pub no_drift :
    (s : Store) (ds : List (TxEnv × Input)) (r : PositionRow)
    → Holds r (deliver s ds empty).positions
    → IsShown (deliver s ds empty) r
no_drift s ds r h =
    IsConsistent-IsShown (deliver s ds empty) r (deliver-IsConsistent s ds empty IsConsistent-empty)
      h

-- The time of a current row, and no time where there is none.
abbrev pub NotBackwards : Option CurrentRow → Option CurrentRow → Type 0
NotBackwards none c = Unit {0}
NotBackwards (some a) none = ⊥
NotBackwards (some a) (some b) = a.last_event_ts ≤ b.last_event_ts

NotBackwards-refl : (o : Option CurrentRow) → NotBackwards o o
NotBackwards-refl none = tt
NotBackwards-refl (some a) = omega arith

NotBackwards-guarded :
    (o : Option CurrentRow) (r : CurrentRow) → NotBackwards o (some (guarded o r))
NotBackwards-guarded none r = tt
NotBackwards-guarded (some a) r = ground arith

NotBackwards-if :
    (b : Bool) (o : Option CurrentRow) (r : CurrentRow)
    → NotBackwards o (if b then some (guarded o r) else o)
NotBackwards-if true o r = NotBackwards-guarded o r
NotBackwards-if false o r = NotBackwards-refl o

-- Apply never moves a vehicle's current state backwards in time, and never removes it.
pub apply-NotBackwards :
    (s : Store) (env : TxEnv) (i : Input) (db : Db) (v : String)
    → NotBackwards
        (find (is_vehicle v) db.current)
        (find (is_vehicle v) (apply s env i db).1.current)
apply-NotBackwards s env i db v = elim (apply-atomic s env i db) [
  | inl same ↦ rw same (NotBackwards-refl _)
  | inr (row, outcome, r, e) ↦ rw e (
      unfold recorded in
      rw (find-upsert_current v (current_of row) db.current) (NotBackwards-if _ _ _))
]

-- What the outcome of a new event says of its time.
abbrev pub verdict : Option PositionRow → PositionRow → Outcome
verdict none r = applied
verdict (some b) r = if ltb b.event_ts r.event_ts then applied else late

abbrev affects : Option CurrentRow → PositionRow → Bool
affects o r = elim o [ none ↦ true | some old ↦ ltb old.last_event_ts r.event_ts ]

verdict_current :
    (o : Option PositionRow) (r : PositionRow)
    → outcome_of (affects (current_option o) r) ≡ verdict o r
unfolding current_of
verdict_current none r = refl
verdict_current (some b) r = refl

Recording-verdict :
    (s : Store) (env : TxEnv) (i : Input) (db : Db) (row : PositionRow) (outcome : Outcome)
    → IsConsistent db
    → Recording s env i db row outcome
    → outcome ≡ verdict (newest row.vehicle_id db.positions) row
unfolding current_of
Recording-verdict s env i db row outcome c r =
    r.outcome_is
    ∙ ap outcome_of (affected-upsert_current (current_of row) db.current)
    ∙ ap (λ o. outcome_of (affects o row)) (c.state row.vehicle_id)
    ∙ verdict_current (newest row.vehicle_id db.positions) row

-- In consistent tables an outcome that Apply returns is `duplicate`, and the database is as it was; or
-- it is `late` if the history has a row of the vehicle that is as new or newer and `applied` if not,
-- and the history has gained the event as its last row.
pub apply-verdict :
    (s : Store) (env : TxEnv) (i : Input) (db : Db) (outcome : Outcome)
    → IsConsistent db
    → (apply s env i db).0 ≡ ok outcome
    → ((outcome ≡ duplicate) × ((apply s env i db).1 ≡ db))
      ⊎ ((row : PositionRow) × (outcome ≡ verdict (newest row.vehicle_id db.positions) row)
          × ((apply s env i db).1.positions ≡ db.positions ++ row ∷ [])
          × (row.vehicle_id ≡ i.position.vehicle_id)
          × (row.event_ts ≡ s.postgres.stamp i.position.event_ts))
apply-verdict s env i db outcome c h = elim (apply-Body s env i db outcome h) [
  | inl (o, e, seen) ↦ inl (o, e)
  | inr (row, r, e) ↦
      let k = position_row-keeps s env.now i row.event_id row r.converted in
      inr (
        row,
        Recording-verdict s env i db row outcome c r,
        rw e (positions-recorded s env.now i row db c r.is_new),
        k.0,
        k.1,
      )
]
