-- ===== src/Fanout/Faithful.antt =====
-- What a reader of Subscriber.Frames gets of what the bus brought.
use event_stream_platform.Prelude.{
  ◌+◌, ◌<◌, ◌≤◌, ◌≡◌, ◌⊎◌, Option, none, some, List, [], ◌∷◌, ◌++◌, length,
}
use mathlib.Core.List.Sublistᴰ
use mathlib.Core.List.{Sublistᴰ}
use event_stream_platform.Event.Types.{Bytes}
use event_stream_platform.Fanout.{Frame, validate}
use event_stream_platform.Fanout.Subscriber.{Subscription, out_size}

-- The frame of a message: one that parses and has an identity, a vehicle and a time.
unfoldable pub frame_of : (Bytes → Option Frame) → Bytes → List Frame
frame_of unmarshal m = elim (unmarshal m) [
  | none ↦ []
  | some f ↦ elim (validate f) [ some e ↦ [] | none ↦ f ∷ [] ]
]

unfoldable pub frames_of : (Bytes → Option Frame) → List Bytes → List Frame
frames_of unmarshal [] = []
frames_of unmarshal (m ∷ ms) = frame_of unmarshal m ++ frames_of unmarshal ms

abbrev pub seen : Subscription → List Frame
seen s = s.received ++ s.out

-- The buffer holds at most 256 frames, what the reader got and will get is in the order of the bus, what
-- is missing from it was counted as dropped, and where nothing was dropped nothing is missing.
pub record IsFaithful (unmarshal : Bytes → Option Frame) (s : Subscription) : Type 0 where
  pub fits : length s.out ≤ out_size
  pub ordered : Sublistᴰ (seen s) (frames_of unmarshal s.messages)
  pub counted : length (seen s) + s.dropped ≡ length (frames_of unmarshal s.messages)
  pub whole : (0 < s.dropped) ⊎ (seen s ≡ frames_of unmarshal s.messages)
