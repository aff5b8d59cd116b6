-- ===== src/Gateway/Replay.antt =====
-- internal/gateway/gateway.go: replay, which resumes a client from its last event, writeFrame and
-- writePosition, and handleCurrent. The history is the interface HistorySource, with an error for any
-- failure; the world says which frames can be written.
use event_stream_platform.Prelude.{
  ℕ, suc, ◌+◌, String, Bool, not, ◌&&◌, Option, none, some, List, [], ◌∷◌, ltb, str_eq,
  if◌then◌else◌, Result, ok, err,
}
use event_stream_platform.Prelude.Int.{ℤ, pos, pos_part, ltb_ℤ}
use event_stream_platform.Fanout.{Frame}
use event_stream_platform.Gateway.Hub.{Options}

-- HistorySource and CurrentReader.
pub record History : Type 0 where
  pub position_time : String → Result (Unit {0}) (Option ℕ)
  pub positions_since : ℕ → String → ℕ → Result (Unit {0}) (List Frame)
  pub reads_current : Bool
  pub current_position : String → Result (Unit {0}) (Option Frame)

-- A named control frame without an id, or the frame of a position with its event's id.
pub data Sent : Type 0 where
  control : String → Sent
  position : Frame → Sent

pub record Resume : Type 0 where
  pub written : List Sent
  pub sent : ℕ

abbrev pub only : String → Resume
only name = record { written = control name ∷ []; sent = 0 }

abbrev pub and_frame : Frame → Resume → Resume
and_frame f r = record { written = position f ∷ r.written; sent = r.sent + 1 }

-- The loop over the frames, from which replay returns at the first that cannot be written.
unfoldable pub write_all : (ℕ → Bool) → ℕ → List Frame → Resume
write_all can_write i [] = only "resumed"
write_all can_write i (f ∷ fs) =
    let rest = write_all can_write (suc i) fs in
    if can_write i then and_frame f rest else record { written = []; sent = 0 }

unfoldable pub replay_since : Options → History → (ℕ → Bool) → String → ℕ → Resume
replay_since o history can_write last_id ts =
    elim (history.positions_since ts last_id (pos_part o.replay_limit)) [
      | err e ↦ only "error"
      | ok frames ↦ write_all can_write 0 frames
    ]

unfoldable pub replay_known : Options → ℤ → ℕ → History → (ℕ → Bool) → String → ℕ → Resume
replay_known o window now history can_write last_id ts =
    if ltb_ℤ (pos 0) window && ltb (ts + pos_part window) now
    then only "reset"
    else replay_since o history can_write last_id ts

unfoldable pub replay_from : Options → ℤ → ℕ → History → (ℕ → Bool) → String → Resume
replay_from o window now history can_write last_id = elim (history.position_time last_id) [
  | err e ↦ only "error"
  | ok none ↦ only "reset"
  | ok (some ts) ↦ replay_known o window now history can_write last_id ts
]

-- Last-Event-ID of the header, or else of the query.
unfoldable pub replay : Options → ℤ → ℕ → History → (ℕ → Bool) → (header query : String) → Resume
replay o window now history can_write header query =
    let last_id = if str_eq header "" then query else header in
    let resumed = replay_from o window now history can_write last_id in
    if str_eq last_id "" then only "ready" else resumed

-- The status of GET /v1/vehicles/{vehicleID}, and the frame that is its data.
unfoldable pub handle_current : History → String → ℕ × Option Frame
handle_current history vehicle_id =
    if str_eq vehicle_id ""
    then (400, none)
    else if not history.reads_current
    then (500, none)
    else elim (history.current_position vehicle_id) [
      | err e ↦ (500, none)
      | ok none ↦ (404, none)
      | ok (some f) ↦ (200, some f)
    ]
