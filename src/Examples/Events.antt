-- ===== src/Examples/Events.antt =====
-- internal/event at concrete inputs.
use event_stream_platform.Prelude.{◌≡◌, refl, ◌↔◌, true, none, [], ◌∷◌, arith, ok}
use event_stream_platform.Event.Types.{Envelope, Bytes}
use event_stream_platform.Event.Validate.{validate, validate_clock, is_known_event_type}
use event_stream_platform.Event.Float.{units}
use event_stream_platform.Event.Accept.{
  marshal, accept, decode, as_vehicle_position, build, identify,
}
use event_stream_platform.Event.Bounds.{IsSound, validate-iff-IsSound}
use event_stream_platform.Event.RoundTrip.{accept-decode}
use event_stream_platform.Examples.Fixtures.{
  codec, codec-CodecLaws, bus, at, envelope, bus-IsNumeric,
}

validate-iff-IsSound_example : (validate (bus (at 50) 3) ≡ none) ↔ IsSound (bus (at 50) 3)
validate-iff-IsSound_example = validate-iff-IsSound (bus (at 50) 3) (bus-IsNumeric (at 50) 3)

abbrev first_report : Bytes
first_report = 0 ∷ at 50 ∷ 3 ∷ []

abbrev first_event : Envelope
first_event = envelope "id-2" (at 100) (at 50 ∷ 3 ∷ [])

accepted_first :
    accept codec "id-2" first_report "ingest" (at 100) ≡ ok (first_event, bus (at 50) 3)
unfolding accept identify build validate validate_clock units
accepted_first = refl

abbrev first_wire : Bytes
first_wire = 2 ∷ at 100 ∷ at 50 ∷ 3 ∷ []

marshalled_first : marshal codec first_event ≡ ok first_wire
unfolding marshal
marshalled_first = refl

accept-decode_example :
    (decode codec first_wire ≡ ok first_event)
    × (is_known_event_type first_event ≡ true)
    × (as_vehicle_position codec first_event ≡ ok (bus (at 50) 3))
    × IsSound (bus (at 50) 3)
accept-decode_example =
    accept-decode codec codec-CodecLaws "id-2" first_report "ingest" (at 100) first_event
      (bus (at 50) 3) first_wire (ground arith) accepted_first marshalled_first
