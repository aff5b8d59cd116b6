-- ===== src/Sink/Late.antt =====
-- A late event leaves what is shown of every vehicle as it was.
use event_stream_platform.Prelude.{
  ◌+◌, ◌≡◌, inl, inr, String, false, [], ◌∷◌, length, length-append, arith, ok,
}
use event_stream_platform.Sink.Tables.{Db, PositionRow, find}
use event_stream_platform.Sink.Transaction.{TxEnv}
use event_stream_platform.Sink.Apply.{
  Store, Input, late, is_vehicle, current_of, recorded, apply, upsert_current,
}
use event_stream_platform.Sink.History.{IsConsistent}
use event_stream_platform.Sink.Rows.{affected-upsert_current}
use event_stream_platform.Sink.Consistent.{apply-Body, positions-recorded}

late_current :
    (v : String) (row : PositionRow) (db : Db)
    → (upsert_current (current_of row) db.current).0 ≡ false
    → find (is_vehicle v) (upsert_current (current_of row) db.current).1
      ≡ find (is_vehicle v) db.current
unfolding upsert_current
late_current v row db h = ground arith

-- In consistent tables, when Apply answers `late`, the current row of every vehicle is as it was and
-- the history has one row more.
apply_late :
    (s : Store) (env : TxEnv) (i : Input) (db : Db)
    → IsConsistent db
    → (apply s env i db).0 ≡ ok late
    → ((v : String)
        → find (is_vehicle v) (apply s env i db).1.current ≡ find (is_vehicle v) db.current)
      × (length (apply s env i db).1.positions ≡ length db.positions + 1)
apply_late s env i db c h = elim (apply-Body s env i db late h) [
  | inl (o, e, seen) ↦ absurd (ground (arith, o))
  | inr (row, r, e) ↦ (
    λ v. rw e (
        unfold recorded in
        late_current v row db
          (ground (arith, r.outcome_is, affected-upsert_current (current_of row) db.current))),
    rw (e, positions-recorded s env.now i row db c r.is_new)
        (omega (arith, length-append {0} db.positions (row ∷ []))),
  )
]
