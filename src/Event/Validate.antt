-- ===== src/Event/Validate.antt =====
-- internal/event/envelope.go: validateHeader, IsKnownEventType, Validate, ValidateClock. A validator
-- returns `none` for Go's nil and otherwise the ValidationError, from the first test that fails.
use event_stream_platform.Prelude.{
  ℕ, ◌+◌, String, Bool, false, not, ◌||◌, Option, none, some, List, [], ◌∷◌, ltb, str_eq,
  if◌then◌else◌,
}
use event_stream_platform.Prelude.Int.{pos, negsuc, eq_ℤ}
use event_stream_platform.Event.Float.{Float64, whole, lt_float, le_float}
use event_stream_platform.Event.Types.{
  Codec, Envelope, VehiclePosition, ValidationError, Reason, is_required, not_supported, not_a_uuid,
  outside_range, negative, in_the_future, version, vehicle_position, max_future_skew, is_zero,
}

abbrev pub fails : String → Reason → Option ValidationError
fails f r = some (record { field = f; reason = r })

abbrev pub is_empty : List ℕ → Bool
is_empty [] = Bool.true
is_empty (b ∷ bs) = false

unfoldable pub validate_header : Codec → Envelope → Option ValidationError
validate_header c e =
    if eq_ℤ e.schema_version (pos 0)
    then fails "schema_version" is_required
    else if not (eq_ℤ e.schema_version version)
    then fails "schema_version" (not_supported e.schema_version)
    else if str_eq e.event_id ""
    then fails "event_id" is_required
    else if not (c.is_uuid e.event_id)
    then fails "event_id" (not_a_uuid e.event_id)
    else if str_eq e.event_type ""
    then fails "event_type" is_required
    else if is_zero e.produced_at
    then fails "produced_at" is_required
    else if is_empty e.payload
    then fails "payload" is_required
    else none

unfoldable pub is_known_event_type : Envelope → Bool
is_known_event_type e = str_eq e.event_type vehicle_position

-- `v.SpeedKPH != nil && *v.SpeedKPH < 0`
abbrev pub speed_error : Option Float64 → Option ValidationError
speed_error none = none
speed_error (some f) = if lt_float f (whole (pos 0)) then fails "speed_kph" (negative f) else none

abbrev pub bearing_error : Option Float64 → Option ValidationError
bearing_error none = none
bearing_error (some f) =
    if lt_float f (whole (pos 0)) || le_float (whole (pos 360)) f
    then fails "bearing_deg" (outside_range f)
    else none

-- The first error of two tests made one after the other.
abbrev pub or_else : Option ValidationError → Option ValidationError → Option ValidationError
or_else none e = e
or_else (some e) _ = some e

abbrev pub time_error : ℕ → Option ValidationError
time_error t = if is_zero t then fails "event_ts" is_required else none

unfoldable pub validate : VehiclePosition → Option ValidationError
validate v =
    if str_eq v.vehicle_id ""
    then fails "vehicle_id" is_required
    else if str_eq v.route_id ""
    then fails "route_id" is_required
    else if lt_float v.lat (whole (negsuc 89)) || lt_float (whole (pos 90)) v.lat
    then fails "lat" (outside_range v.lat)
    else if lt_float v.lon (whole (negsuc 179)) || lt_float (whole (pos 180)) v.lon
    then fails "lon" (outside_range v.lon)
    else or_else (speed_error v.speed_kph)
        (or_else (bearing_error v.bearing_deg) (time_error v.event_ts))

unfoldable pub validate_clock : VehiclePosition → ℕ → Option ValidationError
validate_clock v now =
    if ltb (now + max_future_skew) v.event_ts
    then fails "event_ts" (in_the_future v.event_ts)
    else none
