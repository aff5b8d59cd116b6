-- ===== src/Fanout.antt =====
-- internal/fanout: the frame on the bus, and Publish. Redis answers with the number of subscribers
-- that it gave the frame to, or with an error.
pub mod Subscriber
pub mod Faithful
use event_stream_platform.Prelude.{
  ℕ, String, Bool, Option, none, some, List, [], ◌∷◌, ◌++◌, str_eq, if◌then◌else◌, Result, ok, err,
}
use event_stream_platform.Event.Float.{Float64}
use event_stream_platform.Event.Types.{is_zero}

pub record Frame : Type 0 where
  pub event_id : String
  pub vehicle_id : String
  pub route_id : String
  pub lat : Float64
  pub lon : Float64
  pub speed_kph : Option Float64
  pub bearing_deg : Option Float64
  pub event_ts : ℕ
  pub sequence : ℕ

pub data FanoutError : Type 0 where
  no_event_id no_vehicle_id no_event_ts unmarshalable unpublished : FanoutError

unfoldable pub validate : Frame → Option FanoutError
validate f =
    if str_eq f.event_id ""
    then some no_event_id
    else if str_eq f.vehicle_id ""
    then some no_vehicle_id
    else if is_zero f.event_ts
    then some no_event_ts
    else none

-- The bus: the frames that Redis has accepted, and its answer to the next one.
pub record BusEnv : Type 0 where
  pub marshals : Bool
  pub receivers : Option ℕ

unfoldable pub publish : BusEnv → Frame → List Frame → Result FanoutError ℕ × List Frame
publish env f bus = elim (validate f) [
  | some e ↦ (err e, bus)
  | none ↦
      if env.marshals
      then elim env.receivers [ none ↦ (err unpublished, bus) | some n ↦ (ok n, bus ++ f ∷ []) ]
      else (err unmarshalable, bus)
]
