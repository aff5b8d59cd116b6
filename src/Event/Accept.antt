-- ===== src/Event/Accept.antt =====
-- internal/event: Decode, AsVehiclePosition, Build and Marshal of envelope.go, Accept and FieldOf of
-- observation.go. `minted` is what idgen.New returns if Accept calls it.
use event_stream_platform.Prelude.{
  ℕ, String, not, Option, none, some, Result, ok, err, or_fail, ◌>>=◌, ◌>>◌, str_eq, if◌then◌else◌,
}
use event_stream_platform.Event.Types.{
  Bytes, Codec, Envelope, VehiclePosition, ValidationError, EventError, not_a_uuid, not_valid,
  invalid, malformed_envelope, malformed_payload, wrong_type, no_event_id, bad_event_id,
  unmarshalable, rejected_when_built, version, vehicle_position,
}
use event_stream_platform.Event.Validate.{validate_header, validate, validate_clock}

-- `if err := …; err != nil { return err }` for a validator.
abbrev pub checked : Option ValidationError → Result EventError (Unit {0})
checked none = ok tt
checked (some e) = err (invalid e)

unfoldable pub decode : Codec → Bytes → Result EventError Envelope
decode c raw = do
  e ← or_fail (c.read_envelope raw) malformed_envelope
  checked (validate_header c e)
  ok e

unfoldable pub as_vehicle_position : Codec → Envelope → Result EventError VehiclePosition
as_vehicle_position c e =
    if not (str_eq e.event_type vehicle_position)
    then err (wrong_type e.event_type)
    else do v ← or_fail (c.read_position e.payload) malformed_payload; checked (validate v); ok v

unfoldable pub build : Codec → String → VehiclePosition → String → ℕ → Result EventError Envelope
build c source v event_id produced_at =
    if str_eq event_id ""
    then err no_event_id
    else if not (c.is_uuid event_id)
    then err (bad_event_id event_id)
    else do
      checked (validate v)
      payload ← or_fail (c.write_position v) unmarshalable
      ok (record {
        schema_version = version;
        event_id = event_id;
        event_type = vehicle_position;
        produced_at = produced_at;
        source = source;
        payload = payload;
      })

unfoldable pub marshal : Codec → Envelope → Result EventError Bytes
marshal c e = or_fail (c.write_envelope e) unmarshalable

-- The identity of an observation: its own, checked, or a minted one.
unfoldable pub identify : Codec → String → String → Result EventError String
identify c minted id =
    if str_eq id ""
    then ok minted
    else if c.is_uuid id
    then ok id
    else err (invalid (record { field = "event_id"; reason = not_a_uuid id }))

-- `errors.As(err, &ve)` finds a ValidationError and nothing else is returned as it is.
abbrev pub rebuilt : Result EventError Envelope → Result EventError Envelope
rebuilt (ok e) = ok e
rebuilt (err (invalid e)) = err (invalid e)
rebuilt (err e) = err (rejected_when_built e)

unfoldable pub accept :
    Codec → String → Bytes → String → ℕ → Result EventError (Envelope × VehiclePosition)
unfolding identify
accept c minted raw source now = do
  o ← or_fail (c.read_observation raw) (invalid (record { field = ""; reason = not_valid }))
  checked (validate o.position)
  checked (validate_clock o.position now)
  id ← identify c minted o.event_id
  e ← rebuilt (build c source o.position id now)
  ok (e, o.position)

unfoldable pub field_of : EventError → String
field_of (invalid e) = e.field
field_of _ = ""
