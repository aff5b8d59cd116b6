-- ===== src/Examples/Viewers.antt =====
-- internal/gateway at concrete inputs: two viewers, one of which is shed, and a resume.
use event_stream_platform.Prelude.{ℕ, zero, suc, ◌≡◌, refl, Option, true, none, some, [], ◌∷◌, ok}
use event_stream_platform.Prelude.Int.{pos}
use event_stream_platform.Fanout.{Frame, validate}
use event_stream_platform.Event.Types.{Bytes}
use event_stream_platform.Fanout.Subscriber as Subscriber
use event_stream_platform.Fanout.Subscriber.{
  Subscription, subscribed, offer, on_message, take_frame,
}
use event_stream_platform.Gateway.Hub.{
  Options, Hub, start, register, broadcast, registers, broadcasts, Reaches, starts, steps,
}
use event_stream_platform.Gateway.Whole.{IsOrderly}
use event_stream_platform.Gateway.Clients.{Reaches-IsOrderly}
use event_stream_platform.Gateway.Replay.{History, replay}
use event_stream_platform.Gateway.Resume.{Resumes, replay-Resumes, resume_id}
use event_stream_platform.Examples.Fixtures.{place}

abbrev options : Options
options = record {
  client_buffer = pos 1;
  max_clients = pos 2;
  replay_limit = pos 10;
  heartbeat_interval = pos 5;
}

abbrev frame : ℕ → Frame
frame n = record {
  event_id = "id-1";
  vehicle_id = "bus-7";
  route_id = "r-1";
  lat = place;
  lon = place;
  speed_kph = none;
  bearing_deg = none;
  event_ts = n;
  sequence = n;
}

-- A viewer, a frame, another viewer, and a frame that the first has no room for.
abbrev busy : Hub
busy =
    broadcast options (frame 2)
      (register options (broadcast options (frame 1) (register options start).1)).1

reached : Reaches options busy
reached =
    steps (steps (steps (steps starts (registers start)) (broadcasts (frame 1) _)) (registers _))
      (broadcasts (frame 2) _)

Reaches-IsOrderly_example : IsOrderly options busy
Reaches-IsOrderly_example = Reaches-IsOrderly options busy reached

abbrev history : History
history = record {
  position_time = λ id. ok (some 5);
  positions_since = λ ts id limit. ok (frame 6 ∷ frame 7 ∷ []);
  reads_current = true;
  current_position = λ v. ok none;
}

replay-Resumes_example :
    Resumes options
      (pos 100)
      50
      history
      (λ i. true)
      (resume_id "" "id-1")
      (replay options (pos 100) 50 history (λ i. true) "" "id-1")
replay-Resumes_example = replay-Resumes options (pos 100) 50 history (λ i. true) "" "id-1"

-- Messages that are a position, that do not parse, and that name no vehicle.
abbrev parse : Bytes → Option Frame
parse [] = none
parse (zero ∷ ns) = some (record (frame 1) { vehicle_id = "" })
parse (suc n ∷ ns) = some (frame (suc n))

abbrev heard : Subscription
heard = take_frame (
    on_message parse (7 ∷ [])
      (on_message parse (0 ∷ []) (on_message parse [] (on_message parse (3 ∷ []) subscribed))))

heard_messages : heard.messages ≡ ((3 ∷ []) ∷ [] ∷ (0 ∷ []) ∷ (7 ∷ []) ∷ [])
unfolding take_frame on_message offer validate
heard_messages = refl
