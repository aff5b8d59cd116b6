-- ===== src/Examples/Outages.antt =====
-- The ledger of internal/sink, and an outage of the database, at concrete inputs.
use event_stream_platform.Prelude.{
  ◌≡◌, refl, ◌≢◌, String, Bool, true, none, some, List, [], ◌∷◌, arith, ◌==◌, if◌then◌else◌, Holds,
  ok,
}
use event_stream_platform.Prelude.Int.{pos}
use event_stream_platform.Event.Float.{units}
use event_stream_platform.Event.Types.{Bytes, Envelope, zero_time}
use event_stream_platform.Event.Validate.{
  validate_header, validate, validate_clock, is_known_event_type,
}
use event_stream_platform.Event.Accept.{
  decode, as_vehicle_position, accept, build, identify, marshal,
}
use event_stream_platform.Broker.{wire}
use event_stream_platform.Sink.Tables.{empty, find, PositionRow}
use event_stream_platform.Sink.Transaction.{other, lost, TxEnv, healthy}
use event_stream_platform.Sink.Apply.{Input, is_vehicle, position_row, real_option}
use event_stream_platform.Sink.History.{newest, current_option}
use event_stream_platform.Sink.Consistent.{IsConsistent-empty}
use event_stream_platform.Sink.Ledger.{apply_each, Explained, apply_each-Explained}
use event_stream_platform.Ingest.Submit.{record_of, handle_submit}
use event_stream_platform.Consumer.State.{KRecord, World, OneEnv}
use event_stream_platform.Consumer.Backoff.{is_permanent}
use event_stream_platform.Consumer.One.{input_of, process_one, value_of}
use event_stream_platform.Consumer.Recovers.{IsStorable, Outage, Recovered, process_one-Recovered}
use event_stream_platform.Pipeline.{handle_submit-process_one}
use event_stream_platform.Examples.Fixtures.{
  codec, codec-CodecLaws, store, at, bus, place, envelope, input, fine-FateLaws,
}
use event_stream_platform.Examples.Polls.{consumer, world}
use event_stream_platform.Examples.Polls as Polls
use event_stream_platform.Examples.Batches.{
  options, env, request, edge, refusals, two_events, accepted_two,
}

-- A report, another whose acknowledgement is lost, and the first again.
abbrev calls : List (TxEnv × Input)
calls =
    (healthy (at 200), input "id-1" (at 50) 3)
    ∷ (record (healthy (at 201)) { commit = lost other }, input "id-2" (at 60) 4)
    ∷ (healthy (at 202), input "id-1" (at 50) 3)
    ∷ []

apply_each-Explained_example :
    Explained store calls
      (apply_each store calls empty).0
      []
      (apply_each store calls empty).1.positions
    × ((v : String)
        → find (is_vehicle v) (apply_each store calls empty).1.current
          ≡ current_option (newest v (apply_each store calls empty).1.positions))
apply_each-Explained_example = apply_each-Explained store calls empty IsConsistent-empty

-- The first attempt finds no database.
abbrev outage_env : OneEnv
outage_env = record Polls.env {
  tries = λ n.
      if n == 1 then record (healthy (at 200)) { begin_fault = some other } else healthy (at 200);
}

abbrev the_envelope : Envelope
the_envelope = envelope "id-2" (at 100) (at 50 ∷ 3 ∷ [])

abbrev payload : Bytes
payload = 2 ∷ at 100 ∷ at 50 ∷ 3 ∷ []

abbrev fetched : KRecord
fetched = record {
  topic = "vehicle.events";
  key = "bus-7";
  value = some payload;
  partition = 0;
  offset = 3;
}

outage : Outage consumer outage_env 1 (at 200)
unfolding is_permanent
outage = record {
  down = λ j h. let first : j ≡ 0 = omega arith in rw first (other, (refl, refl));
  patient = λ j h. refl;
  within = refl;
  over = refl;
}

abbrev row : PositionRow
row = record {
  event_id = 2;
  vehicle_id = "bus-7";
  route_id = "r-1";
  lat = place;
  lon = place;
  speed_kph = none;
  bearing_deg = none;
  event_ts = at 50;
  produced_at = at 100;
  ingested_at = at 200;
  partition = 0;
  offset = 3;
  sequence = pos 3;
}

storable : IsStorable store (at 200) (input_of the_envelope (bus (at 50) 3) fetched)
unfolding position_row real_option units
storable = record {
  id = 2;
  reads = refl;
  consumer = refl;
  event_type = refl;
  row = row;
  converts = refl;
}

decoded : decode codec (value_of fetched) ≡ ok the_envelope
unfolding decode validate_header
decoded = refl

known : is_known_event_type the_envelope ≡ true
unfolding is_known_event_type
known = refl

position : as_vehicle_position codec the_envelope ≡ ok (bus (at 50) 3)
unfolding as_vehicle_position validate units
position = refl

process_one-Recovered_example :
    (x : Bool × World) × ((process_one consumer outage_env fetched world ≡ some x)
      × Recovered consumer (input_of the_envelope (bus (at 50) 3) fetched) 1 world x)
process_one-Recovered_example =
    process_one-Recovered consumer outage_env fetched world the_envelope (bus (at 50) 3) 1 (at 200)
      decoded known position storable outage

accepted :
    accept codec "id-2" (0 ∷ at 50 ∷ 3 ∷ []) "ingest" (at 100) ≡ ok (the_envelope, bus (at 50) 3)
unfolding accept validate units validate_clock identify build
accepted = refl

marshalled : marshal codec the_envelope ≡ ok payload
unfolding marshal
marshalled = refl

later : at 100 ≢ zero_time
later h = absurd (omega (arith, h))

handle_submit-process_one_example :
    Holds
      (wire "vehicle.events" (record_of (bus (at 50) 3) payload))
      (handle_submit options env request edge).1.log
    × ((x : Bool × World) × ((process_one consumer outage_env fetched world ≡ some x)
          × Recovered consumer (input_of the_envelope (bus (at 50) 3) fetched) 1 world x))
handle_submit-process_one_example =
    handle_submit-process_one options env request edge 1 refusals two_events ((5 ∷ []) ∷ []) 0
      (0 ∷ at 50 ∷ 3 ∷ []) the_envelope (bus (at 50) 3) payload consumer outage_env fetched world 1
      (at 200) fine-FateLaws codec-CodecLaws later accepted_two refl refl accepted marshalled refl
      refl storable outage
