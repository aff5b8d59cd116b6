-- ===== src/Consumer/One.antt =====
-- internal/consumer/consumer.go: processOne and publish.
use event_stream_platform.Prelude.{
  ℕ, zero, suc, ◌+◌, String, Bool, true, false, Option, none, some, [], ◌==◌, if◌then◌else◌, Result,
  ok, err,
}
use event_stream_platform.Prelude.Int.{pos, ltb_ℤ, pos_part}
use event_stream_platform.Event.Types.{Bytes, Envelope, VehiclePosition}
use event_stream_platform.Event.Validate.{is_known_event_type}
use event_stream_platform.Event.Accept.{decode, as_vehicle_position}
use event_stream_platform.Fanout.{Frame, FanoutError, publish as publish_frame}
use event_stream_platform.Sink.Apply.{Input, Outcome, applied, duplicate, late, apply}
use event_stream_platform.Consumer.State.{
  KRecord, Consumer, from_event, unknown_type, from_database, World, Counters, OneEnv,
}
use event_stream_platform.Consumer.Backoff.{is_permanent}
use event_stream_platform.Consumer.Refuse.{refuse}

unfoldable pub frame_of : Envelope → VehiclePosition → Frame
frame_of e v = record {
  event_id = e.event_id;
  vehicle_id = v.vehicle_id;
  route_id = v.route_id;
  lat = v.lat;
  lon = v.lon;
  speed_kph = v.speed_kph;
  bearing_deg = v.bearing_deg;
  event_ts = v.event_ts;
  sequence = v.sequence;
}

abbrev pub counted_publish : Result FanoutError ℕ → Counters → Counters
counted_publish (err e) k = record k { failed = k.failed + 1 }
counted_publish (ok n) k =
    if n == 0
    then record k { no_subscribers = k.no_subscribers + 1 }
    else record k { published = k.published + 1 }

unfoldable pub publish : Consumer → OneEnv → Envelope → VehiclePosition → World → World
unfolding frame_of publish_frame
publish c env e v w =
    if c.has_publisher
    then (let (r, bus) = publish_frame env.bus (frame_of e v) w.bus in
        record w { bus = bus; counters = counted_publish r w.counters })
    else w

abbrev pub count : (Counters → Counters) → World → World
count f w = record w { counters = f w.counters }

-- The `switch outcome` of a transaction that committed.
unfoldable pub announce : Consumer → OneEnv → Envelope → VehiclePosition → Outcome → World → World
announce c env e v applied w =
    publish c env e v (count (λ k. record k { applied = k.applied + 1 }) w)
announce c env e v duplicate w = count (λ k. record k { duplicate = k.duplicate + 1 }) w
announce c env e v late w = publish c env e v (count (λ k. record k { late = k.late + 1 }) w)

abbrev pub input_of : Envelope → VehiclePosition → KRecord → Input
input_of e v r = record { envelope = e; position = v; partition = r.partition; offset = r.offset }

abbrev pub counted_retry : World → World
counted_retry w = count (λ k. record k { retries = k.retries + 1 }) w

-- The loop over attempts, on fuel: `attempts` have been made. `none` means that the fuel ran out.
unfoldable pub retry :
    ℕ → Consumer → OneEnv → KRecord → Envelope → VehiclePosition → ℕ → World → Option (Bool × World)
retry zero c env r e v attempts w = none
retry (suc fuel) c env r e v attempts w =
    let n = attempts + 1 in
    let (result, db) = apply c.store (env.tries n) (input_of e v r) w.db in
    let w' = record w { db = db } in
    let again = retry fuel c env r e v n (counted_retry w') in
    elim result [
      | ok outcome ↦ some (true, announce c env e v outcome w')
      | err x ↦
          if is_permanent x
          then some (refuse c env r e.event_id "decode" n (from_database x) w')
          else if ltb_ℤ c.options.max_retries (pos n)
          then some (refuse c env r e.event_id "retries_exhausted" n (from_database x) w')
          else if env.is_cancelled n
          then some (false, counted_retry w')
          else again
    ]

-- Enough for one more attempt than retries.
abbrev pub retry_fuel : Consumer → ℕ
retry_fuel c = pos_part c.options.max_retries + 1

-- `r.Value`, where a nil slice has no bytes.
abbrev pub value_of : KRecord → Bytes
value_of r = elim r.value [ none ↦ [] | some b ↦ b ]

abbrev pub position_id_of : Consumer → KRecord → String
position_id_of c r = c.position_id r.topic r.partition r.offset

unfoldable pub process_payload :
    Consumer → OneEnv → KRecord → Envelope → World → Option (Bool × World)
process_payload c env r e w = elim (as_vehicle_position c.codec e) [
  | err x ↦ some (refuse c env r e.event_id "decode" 0 (from_event x) w)
  | ok v ↦ retry (retry_fuel c) c env r e v 0 w
]

unfoldable pub process_one : Consumer → OneEnv → KRecord → World → Option (Bool × World)
process_one c env r w = elim (decode c.codec (value_of r)) [
  | err x ↦ some (refuse c env r (position_id_of c r) "decode" 0 (from_event x) w)
  | ok e ↦
      if is_known_event_type e
      then process_payload c env r e w
      else some (refuse c env r e.event_id "unknown_version" 0 (unknown_type e) w)
]
