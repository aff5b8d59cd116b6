-- ===== src/Event/Types.antt =====
-- internal/event: the types of envelope.go and observation.go, and the parts of encoding/json and
-- google/uuid that they call, as a record that the functions take.
--
-- An instant is a number of nanoseconds since 1 January of the year -1, which lies before every
-- instant that an RFC 3339 text can name; Go's zero time, 1 January of the year 1, is 731 days
-- later. A Duration is a number of nanoseconds. Bytes are numbers; texts are code points.
use event_stream_platform.Prelude.{ℕ, ◌*◌, ◌≡◌, String, Bool, Option, none, some, List, [], ◌==◌}
use event_stream_platform.Prelude.Int.{ℤ, pos}
use event_stream_platform.Event.Float.{Float64, IsFinite}

abbrev pub Bytes : Type 0
Bytes = List ℕ

abbrev pub second : ℕ
second = 1000000000

-- time.Time{}
abbrev pub zero_time : ℕ
zero_time = 731 * 86400 * 1000000000

abbrev pub is_zero : ℕ → Bool
is_zero t = t == zero_time

-- const Version, EventTypeVehiclePosition, MaxFutureSkew
abbrev pub version : ℤ
version = pos 1

abbrev pub vehicle_position : String
vehicle_position = "vehicle.position"

abbrev pub max_future_skew : ℕ
max_future_skew = 300 * second

pub record Envelope : Type 0 where
  pub schema_version : ℤ
  pub event_id : String
  pub event_type : String
  pub produced_at : ℕ
  pub source : String
  pub payload : Bytes

pub record VehiclePosition : Type 0 where
  pub vehicle_id : String
  pub route_id : String
  pub lat : Float64
  pub lon : Float64
  pub speed_kph : Option Float64
  pub bearing_deg : Option Float64
  pub event_ts : ℕ
  pub sequence : ℕ

-- What a producer submits: a position and an optional identity ("" when it is left out).
pub record Observation : Type 0 where
  pub position : VehiclePosition
  pub event_id : String

-- The reasons of a ValidationError, one for each message text.
pub data Reason : Type 0 where
  is_required : Reason
  not_supported : ℤ → Reason
  not_a_uuid : String → Reason
  outside_range negative : Float64 → Reason
  in_the_future : ℕ → Reason
  not_valid : Reason

pub record ValidationError : Type 0 where
  pub field : String
  pub reason : Reason

-- The errors of this package: a *ValidationError, or another error, by the call that made it.
pub data EventError : Type 0 where
  invalid : ValidationError → EventError
  malformed_envelope malformed_payload : EventError
  wrong_type : String → EventError
  no_event_id : EventError
  bad_event_id : String → EventError
  unmarshalable : EventError
  rejected_when_built : EventError → EventError

-- Rejection of one event of a batch.
pub record Rejection : Type 0 where
  pub index : ℕ
  pub field : String
  pub reason : EventError

-- encoding/json (with DisallowUnknownFields) and uuid.Parse: `none` and `false` are their errors.
pub record Codec : Type 0 where
  pub is_uuid : String → Bool
  pub read_envelope : Bytes → Option Envelope
  pub read_position : Bytes → Option VehiclePosition
  pub read_observation : Bytes → Option Observation
  pub write_position : VehiclePosition → Option Bytes
  pub write_envelope : Envelope → Option Bytes

abbrev pub IsFiniteOption : Option Float64 → Type 0
IsFiniteOption none = Unit {0}
IsFiniteOption (some f) = IsFinite f

-- A position whose numbers are numbers, as every number of a JSON text is.
pub record IsNumeric (v : VehiclePosition) : Type 0 where
  pub lat : IsFinite v.lat
  pub lon : IsFinite v.lon
  pub speed : IsFiniteOption v.speed_kph
  pub bearing : IsFiniteOption v.bearing_deg

-- What the code relies on of encoding/json: a JSON text has no NaN and no infinity, what is written
-- reads back, and a payload that json wrote is embedded in the envelope unchanged.
pub record CodecLaws (c : Codec) : Type 0 where
  pub numeric_observation :
      (raw : Bytes) (o : Observation) → c.read_observation raw ≡ some o → IsNumeric o.position
  pub numeric_position :
      (raw : Bytes) (v : VehiclePosition) → c.read_position raw ≡ some v → IsNumeric v
  pub position_back :
      (v : VehiclePosition) (p : Bytes) → c.write_position v ≡ some p → c.read_position p ≡ some v
  pub position_text : (v : VehiclePosition) → c.write_position v ≡ some [] → ⊥
  pub envelope_back :
      (v : VehiclePosition) (e : Envelope) (raw : Bytes)
      → c.write_position v ≡ some e.payload
      → c.write_envelope e ≡ some raw
      → c.read_envelope raw ≡ some e
