-- ===== src/Sink/Views.antt =====
-- internal/sink: GetCurrent of store.go, and the reads of replay_view.go that back the gateway.
-- A read that the world fails is given its error.
use event_stream_platform.Prelude.{
  ℕ, String, Bool, ◌&&◌, ◌||◌, Option, none, some, List, [], ◌∷◌, map, take, ltb, ◌==◌, str_eq,
  if◌then◌else◌, Result, ok, err, or_fail, ◌>>=◌, ◌>>◌,
}
use event_stream_platform.Prelude.Int.{ℤ, pos, negsuc}
use event_stream_platform.Fanout.{Frame}
use event_stream_platform.Sink.Tables.{Db, PositionRow, CurrentRow, find}
use event_stream_platform.Sink.Transaction.{DbError}
use event_stream_platform.Sink.Apply.{Store, is_position, is_vehicle}

pub data ViewError : Type 0 where
  no_event_id no_vehicle_id no_resume_id no_limit no_rows : ViewError
  database : DbError → ViewError

-- A query, where the world or the conversion of an argument may fail.
abbrev pub queried : {A : Type 0} → Option DbError → Result ViewError A → Result ViewError A
queried (some e) r = err (database e)
queried none r = r

abbrev pub converted : {A : Type 0} → Result DbError A → Result ViewError A
converted (ok a) = ok a
converted (err e) = err (database e)

unfoldable pub get_current : Store → Option DbError → String → Db → Result ViewError CurrentRow
get_current s fault vehicle_id db = do
  queried fault (ok tt)
  queried (s.postgres.text vehicle_id) (ok tt)
  or_fail (find (is_vehicle vehicle_id) db.current) no_rows

abbrev pub time_of : Option PositionRow → Option ℕ
time_of none = none
time_of (some r) = some r.event_ts

unfoldable pub position_time : Store → Option DbError → String → Db → Result ViewError (Option ℕ)
position_time s fault event_id db = if str_eq event_id "" then err no_event_id else do
  id ← converted (s.postgres.uuid event_id)
  queried fault (ok (time_of (find (is_position id) db.positions)))

-- `if seq < 0 { seq = 0 }; uint64(seq)`
abbrev pub sequence_of : ℤ → ℕ
sequence_of (pos n) = n
sequence_of (negsuc n) = 0

unfoldable pub frame_of : Store → PositionRow → Frame
frame_of s r = record {
  event_id = s.postgres.show_uuid r.event_id;
  vehicle_id = r.vehicle_id;
  route_id = r.route_id;
  lat = r.lat;
  lon = r.lon;
  speed_kph = r.speed_kph;
  bearing_deg = r.bearing_deg;
  event_ts = r.event_ts;
  sequence = sequence_of r.sequence;
}

-- coalesce(h.sequence, 0) of the LEFT JOIN
abbrev pub joined_sequence : Option PositionRow → ℤ
joined_sequence none = pos 0
joined_sequence (some h) = h.sequence

unfoldable pub current_frame : Store → Db → CurrentRow → Frame
current_frame s db c = record {
  event_id = s.postgres.show_uuid c.last_event_id;
  vehicle_id = c.vehicle_id;
  route_id = c.route_id;
  lat = c.lat;
  lon = c.lon;
  speed_kph = c.speed_kph;
  bearing_deg = c.bearing_deg;
  event_ts = c.last_event_ts;
  sequence = sequence_of (joined_sequence (find (is_position c.last_event_id) db.positions));
}

abbrev pub frame_option {ℓ} : {A : Type ℓ} → (A → Frame) → Option A → Option Frame
frame_option f none = none
frame_option f (some a) = some (f a)

unfoldable pub current_position :
    Store → Option DbError → String → Db → Result ViewError (Option Frame)
current_position s fault vehicle_id db = if str_eq vehicle_id "" then err no_vehicle_id else do
  queried (s.postgres.text vehicle_id) (ok tt)
  queried fault (ok (frame_option (current_frame s db) (find (is_vehicle vehicle_id) db.current)))

-- The order of (event_ts, event_id).
abbrev pub comes_after : ℕ → ℕ → PositionRow → Bool
comes_after ts id r = ltb ts r.event_ts || (ts == r.event_ts && ltb id r.event_id)

-- WHERE (event_ts, event_id) > (ts, id)
unfoldable pub rows_after : ℕ → ℕ → List PositionRow → List PositionRow
rows_after ts id [] = []
rows_after ts id (r ∷ rs) =
    let rest = rows_after ts id rs in if comes_after ts id r then r ∷ rest else rest

-- ORDER BY event_ts, event_id
unfoldable pub insert_ordered : PositionRow → List PositionRow → List PositionRow
insert_ordered r [] = r ∷ []
insert_ordered r (x ∷ xs) =
    if comes_after r.event_ts r.event_id x then r ∷ x ∷ xs else x ∷ insert_ordered r xs

unfoldable pub order_rows : List PositionRow → List PositionRow
unfolding insert_ordered
order_rows [] = []
order_rows (r ∷ rs) = insert_ordered r (order_rows rs)

-- The SELECT of PositionsSince, LIMIT included.
unfoldable pub select_since : ℕ → ℕ → ℕ → List PositionRow → List PositionRow
unfolding rows_after order_rows
select_since ts id limit rows = take limit (order_rows (rows_after ts id rows))

unfoldable pub positions_since :
    Store → Option DbError → ℕ → String → ℕ → Db → Result ViewError (List Frame)
positions_since s fault after after_id limit db =
    if str_eq after_id "" then err no_resume_id else if limit == 0 then err no_limit else do
      id ← converted (s.postgres.uuid after_id)
      queried fault
          (ok (map (frame_of s) (select_since (s.postgres.stamp after) id limit db.positions)))
