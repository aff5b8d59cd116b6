-- ===== src/Sink/Apply.antt =====
-- internal/sink/store.go: Apply, the transaction that records one event.
use event_stream_platform.Prelude.{
  ℕ, ◌+◌, ◌-◌, ◌^◌, String, Bool, true, false, not, ◌&&◌, Option, none, some, List, [], ◌∷◌, ◌++◌,
  Result, ok, err, check, ◌>>=◌, ◌>>◌, ltb, ◌==◌, str_eq, if◌then◌else◌,
}
use event_stream_platform.Prelude.Int.{ℤ, pos, negsuc, eq_ℤ}
use event_stream_platform.Event.Float.{Float64, whole, lt_float, le_float}
use event_stream_platform.Event.Types.{Envelope, VehiclePosition}
use event_stream_platform.Sink.Tables.{
  Db, ProcessedRow, PositionRow, CurrentRow, VersionRow, find, update, is_some,
}
use event_stream_platform.Sink.Transaction.{Postgres, DbError, pg, TxEnv, Tx, in_tx}

pub data Outcome : Type 0 where
  applied duplicate late : Outcome

pub record Input : Type 0 where
  pub envelope : Envelope
  pub position : VehiclePosition
  pub partition : ℕ
  pub offset : ℕ

pub record Store : Type 0 where
  pub postgres : Postgres
  pub consumer_id : String

-- `int64(x)` of a uint64.
abbrev pub int64_of : ℕ → ℤ
int64_of n = if ltb n (2 ^ 63) then pos n else negsuc (2 ^ 64 - n - 1)

abbrev pub is_event : ℕ → ProcessedRow → Bool
is_event id r = r.event_id == id

abbrev pub is_position : ℕ → PositionRow → Bool
is_position id r = r.event_id == id

abbrev pub is_vehicle : String → CurrentRow → Bool
is_vehicle v r = str_eq r.vehicle_id v

abbrev pub is_version : ℤ → String → VersionRow → Bool
is_version v t r = eq_ℤ r.schema_version v && str_eq r.event_type t

unfoldable pub real_option : Postgres → Option Float64 → Result DbError (Option Float64)
real_option p none = ok none
real_option p (some f) = do g ← p.real f; ok (some g)

-- CHECK (lat BETWEEN -90 AND 90), (lon BETWEEN -180 AND 180), (speed_kph IS NULL OR speed_kph >= 0)
abbrev pub between : ℤ → ℤ → Float64 → Bool
between lo hi f = le_float (whole lo) f && le_float f (whole hi)

abbrev pub speed_allowed : Option Float64 → Bool
speed_allowed none = true
speed_allowed (some f) = not (lt_float f (whole (pos 0)))

abbrev pub row_allowed : PositionRow → Bool
row_allowed r =
    between (negsuc 89) (pos 90) r.lat
    && between (negsuc 179) (pos 180) r.lon
    && speed_allowed r.speed_kph

abbrev pub check_violation : DbError
check_violation = pg "23514"

-- The values of the INSERT INTO vehicle_positions, taken into their columns.
unfoldable pub position_row : Store → ℕ → Input → ℕ → Result DbError PositionRow
unfolding real_option
position_row s now i id = do
  let p = s.postgres
  let v = i.position
  check (p.text v.vehicle_id)
  check (p.text v.route_id)
  speed ← real_option p v.speed_kph
  bearing ← real_option p v.bearing_deg
  let row : PositionRow = record {
    event_id = id;
    vehicle_id = v.vehicle_id;
    route_id = v.route_id;
    lat = v.lat;
    lon = v.lon;
    speed_kph = speed;
    bearing_deg = bearing;
    event_ts = p.stamp v.event_ts;
    produced_at = p.stamp i.envelope.produced_at;
    ingested_at = now;
    partition = i.partition;
    offset = i.offset;
    sequence = int64_of v.sequence;
  }
  if row_allowed row then ok row else err check_violation

-- The row of vehicle_current that a position gives. Both tables are written in one transaction, in
-- which now() has one value.
unfoldable pub current_of : PositionRow → CurrentRow
current_of r = record {
  vehicle_id = r.vehicle_id;
  route_id = r.route_id;
  lat = r.lat;
  lon = r.lon;
  speed_kph = r.speed_kph;
  bearing_deg = r.bearing_deg;
  last_event_ts = r.event_ts;
  last_event_id = r.event_id;
  updated_at = r.ingested_at;
}

-- INSERT … ON CONFLICT (event_id) DO NOTHING
unfoldable pub insert_position : PositionRow → List PositionRow → List PositionRow
insert_position r rows =
    if is_some (find (is_position r.event_id) rows) then rows else rows ++ r ∷ []

-- INSERT … ON CONFLICT (vehicle_id) DO UPDATE … WHERE EXCLUDED.last_event_ts >
-- vehicle_current.last_event_ts, and whether a row was affected.
unfoldable pub upsert_current : CurrentRow → List CurrentRow → Bool × List CurrentRow
upsert_current r rows = elim (find (is_vehicle r.vehicle_id) rows) [
  | none ↦ (true, rows ++ r ∷ [])
  | some old ↦
      if ltb old.last_event_ts r.last_event_ts
      then (true, update (is_vehicle r.vehicle_id) (λ _. r) rows)
      else (false, rows)
]

-- INSERT … ON CONFLICT (schema_version, event_type) DO UPDATE SET event_count = … + 1. The version is
-- that of an envelope that Decode took, so it fits its column.
unfoldable pub upsert_version : ℕ → ℤ → String → List VersionRow → List VersionRow
upsert_version now v t rows =
    if is_some (find (is_version v t) rows)
    then update (is_version v t)
        (λ r. record r { event_count = r.event_count + 1; last_seen_at = now }) rows
    else rows
      ++ record {
        schema_version = v;
        event_type = t;
        first_seen_at = now;
        last_seen_at = now;
        event_count = 1;
      }
        ∷ []

abbrev pub outcome_of : Bool → Outcome
outcome_of affected = if affected then applied else late

-- The database after steps 1 to 4, for an event that no earlier transaction has recorded.
unfoldable pub recorded : Store → ℕ → Input → PositionRow → Db → Db
recorded s now i row db = record db {
  processed =
      db.processed
      ++ record {
        event_id = row.event_id;
        processed_at = now;
        consumer_id = s.consumer_id;
        partition = i.partition;
        offset = i.offset;
      }
        ∷ [];
  positions = insert_position row db.positions;
  current = (upsert_current (current_of row) db.current).1;
  versions = upsert_version now i.envelope.schema_version i.envelope.event_type db.versions;
}

-- Steps 2 to 4: each statement can fail, and RowsAffected of the third gives the outcome.
unfoldable pub record_event : Store → TxEnv → Input → ℕ → Tx Outcome
record_event s env i id db = do
  check (env.fault 1)
  row ← position_row s env.now i id
  check (env.fault 2)
  check (env.fault 3)
  check (s.postgres.text i.envelope.event_type)
  ok (outcome_of (upsert_current (current_of row) db.current).0, recorded s env.now i row db)

unfoldable pub apply_body : Store → TxEnv → Input → Tx Outcome
apply_body s env i db = do
  id ← s.postgres.uuid i.envelope.event_id
  check (s.postgres.text s.consumer_id)
  check (env.fault 0)
  if is_some (find (is_event id) db.processed)
      then ok (duplicate, db)
      else record_event s env i id db

unfoldable pub apply : Store → TxEnv → Input → Db → Result DbError Outcome × Db
apply s env i = in_tx env (apply_body s env i)
