-- ===== src/Examples/Applies.antt =====
-- internal/sink at concrete inputs: a vehicle's first report, a newer one, a late one and a
-- redelivery.
use event_stream_platform.Prelude.{◌≡◌, refl, ◌↔◌, ◌⊎◌, none, List, [], ◌∷◌, ◌++◌, Holds, here, ok}
use event_stream_platform.Event.Float.{units}
use event_stream_platform.Sink.Tables.{Db, empty, find, PositionRow}
use event_stream_platform.Sink.Transaction.{TxEnv, healthy}
use event_stream_platform.Sink.Apply.{
  Input, applied, late, duplicate, apply, is_vehicle, apply_body, record_event, position_row,
  upsert_current, recorded, current_of, insert_position,
}
use event_stream_platform.Sink.History.{newest, IsConsistent}
use event_stream_platform.Sink.Consistent.{deliver, apply-IsConsistent, IsConsistent-empty}
use event_stream_platform.Sink.Once.{IsRecorded, apply_redelivered, apply-duplicate_iff}
use event_stream_platform.Sink.Newest.{
  NotBackwards, IsShown, verdict, no_drift, apply-NotBackwards, apply-verdict,
}
use event_stream_platform.Prelude.Int.{pos}
use event_stream_platform.Examples.Fixtures.{store, input, at, place}

-- The newer report first.
abbrev start : Db
start = (apply store (healthy (at 200)) (input "id-1" (at 60) 1) empty).1

start-IsConsistent : IsConsistent start
start-IsConsistent =
    apply-IsConsistent store (healthy (at 200)) (input "id-1" (at 60) 1) empty IsConsistent-empty

apply-IsConsistent_example :
    IsConsistent (apply store (healthy (at 201)) (input "id-2" (at 55) 2) start).1
apply-IsConsistent_example =
    apply-IsConsistent store (healthy (at 201)) (input "id-2" (at 55) 2) start start-IsConsistent

first_outcome : (apply store (healthy (at 200)) (input "id-1" (at 60) 1) empty).0 ≡ ok applied
unfolding apply apply_body record_event position_row units upsert_current
first_outcome = refl

late_outcome : (apply store (healthy (at 201)) (input "id-2" (at 55) 2) start).0 ≡ ok late
unfolding apply apply_body record_event position_row units upsert_current recorded current_of
late_outcome = refl

apply_redelivered_example :
    (apply store
      (healthy (at 202))
      (input "id-1" (at 60) 1)
      (deliver store ((healthy (at 201), input "id-2" (at 55) 2) ∷ []) start)).1
    ≡ deliver store ((healthy (at 201), input "id-2" (at 55) 2) ∷ []) start
apply_redelivered_example =
    apply_redelivered store (healthy (at 200)) (healthy (at 202)) (input "id-1" (at 60) 1)
      (input "id-1" (at 60) 1) empty applied ((healthy (at 201), input "id-2" (at 55) 2) ∷ [])
      first_outcome refl

apply-duplicate_iff_example : (late ≡ duplicate) ↔ IsRecorded store (input "id-2" (at 55) 2) start
apply-duplicate_iff_example =
    apply-duplicate_iff store (healthy (at 201)) (input "id-2" (at 55) 2) start late late_outcome

apply-NotBackwards_example : NotBackwards (find (is_vehicle "bus-7") start.current) (
    find
      (is_vehicle "bus-7")
      (apply store (healthy (at 201)) (input "id-2" (at 55) 2) start).1.current)
apply-NotBackwards_example =
    apply-NotBackwards store (healthy (at 201)) (input "id-2" (at 55) 2) start "bus-7"

apply-verdict_example :
    ((late ≡ duplicate)
      × ((apply store (healthy (at 201)) (input "id-2" (at 55) 2) start).1 ≡ start))
    ⊎ ((row : PositionRow) × (late ≡ verdict (newest row.vehicle_id start.positions) row)
        × ((apply store (healthy (at 201)) (input "id-2" (at 55) 2) start).1.positions
            ≡ start.positions ++ row ∷ [])
        × (row.vehicle_id ≡ "bus-7")
        × (row.event_ts ≡ at 55))
apply-verdict_example =
    apply-verdict store (healthy (at 201)) (input "id-2" (at 55) 2) start late start-IsConsistent
      late_outcome

abbrev first_row : PositionRow
first_row = record {
  event_id = 1;
  vehicle_id = "bus-7";
  route_id = "r-1";
  lat = place;
  lon = place;
  speed_kph = none;
  bearing_deg = none;
  event_ts = at 60;
  produced_at = at 100;
  ingested_at = at 200;
  partition = 0;
  offset = 1;
  sequence = pos 1;
}

-- The newer report, the older one, which is late, and the newer one again.
abbrev deliveries : List (TxEnv × Input)
deliveries =
    (healthy (at 200), input "id-1" (at 60) 1)
    ∷ (healthy (at 201), input "id-2" (at 55) 2)
    ∷ (healthy (at 202), input "id-1" (at 60) 1)
    ∷ []

has_first : Holds first_row (deliver store deliveries empty).positions
unfolding deliver apply apply_body record_event position_row units upsert_current recorded
    current_of insert_position
has_first = here refl

no_drift_example : IsShown (deliver store deliveries empty) first_row
no_drift_example = no_drift store deliveries first_row has_first
