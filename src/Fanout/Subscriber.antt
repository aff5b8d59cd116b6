-- ===== src/Fanout/Subscriber.antt =====
-- internal/fanout/fanout.go: Subscriber.Frames, its goroutine and the channel between it and its reader.
use event_stream_platform.Prelude.{
  ℕ, ◌+◌, ◌≡◌, String, Bool, true, false, Option, none, some, List, [], ◌∷◌, ◌++◌, length, ltb,
  str_eq, not, if◌then◌else◌, Result, ok, err,
}
use event_stream_platform.Event.Types.{Bytes}
use event_stream_platform.Fanout.{Frame, validate}

pub data SubscribeError : Type 0 where
  nil_redis no_channel unsubscribed : SubscribeError

-- The buffered channel `out`, what its reader has taken from it, the messages that Redis has brought,
-- how many frames found no room, and whether the goroutine still runs.
pub record Subscription : Type 0 where
  pub out : List Frame
  pub received : List Frame
  pub messages : List Bytes
  pub dropped : ℕ
  pub is_open : Bool

abbrev pub out_size : ℕ
out_size = 256

abbrev pub subscribed : Subscription
subscribed = record { out = []; received = []; messages = []; dropped = 0; is_open = true }

unfoldable pub new_subscriber : (has_client : Bool) → String → Result SubscribeError String
new_subscriber has_client channel =
    if not has_client
    then err nil_redis
    else if str_eq channel ""
    then err no_channel
    else ok channel

-- Frames, where Redis confirms the subscription or does not.
abbrev pub frames : (confirms : Bool) → Result SubscribeError Subscription
frames confirms = if confirms then ok subscribed else err unsubscribed

-- `select { case out <- pos: default: }`
unfoldable pub offer : Frame → Subscription → Subscription
offer f s =
    if ltb (length s.out) out_size
    then record s { out = s.out ++ f ∷ [] }
    else record s { dropped = s.dropped + 1 }

-- `case msg, ok := <-ch`, of a message.
unfoldable pub on_message : (Bytes → Option Frame) → Bytes → Subscription → Subscription
on_message unmarshal m s =
    let s' = record s { messages = s.messages ++ m ∷ [] } in
    elim (unmarshal m) [
      | none ↦ s'
      | some f ↦ elim (validate f) [ some e ↦ s' | none ↦ offer f s' ]
    ]

-- `<-out` of the reader; a closed channel is drained first.
unfoldable pub take_frame : Subscription → Subscription
take_frame s = elim s.out [
  | [] ↦ s
  | f ∷ fs ↦ record s { out = fs; received = s.received ++ f ∷ [] }
]

-- The goroutine returns: the context has ended, or `ch` is closed.
abbrev pub close_out : Subscription → Subscription
close_out s = record s { is_open = false }

-- What the goroutine and the reader do, in any order.
pub data Step (unmarshal : Bytes → Option Frame) : Subscription → Subscription → Type 0 where
  brings :
      (m : Bytes) (s : Subscription)
      → s.is_open ≡ true
      → Step unmarshal s (on_message unmarshal m s)
  takes : (s : Subscription) → Step unmarshal s (take_frame s)
  ends : (s : Subscription) → Step unmarshal s (close_out s)

pub data Reaches (unmarshal : Bytes → Option Frame) : Subscription → Type 0 where
  starts : Reaches unmarshal subscribed
  steps : {s s' : Subscription} → Reaches unmarshal s → Step unmarshal s s' → Reaches unmarshal s'
