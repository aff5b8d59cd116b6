-- ===== src/Gateway/Hub.antt =====
-- internal/gateway/gateway.go: New, register, unregister, broadcast, dropLocked and Shutdown, under the
-- gateway's lock, and the handler's receive from its channel. A map's order is open in Go; here it is
-- that of a list. A client also carries what its handler has received and where in the bus it joined.
use event_stream_platform.Prelude.{
  ℕ, ◌+◌, ◌*◌, String, Bool, true, false, not, List, [], ◌∷◌, ◌++◌, map, length, ltb, ◌==◌,
  if◌then◌else◌, Result, ok, err,
}
use event_stream_platform.Prelude.Int.{ℤ, pos, ltb_ℤ, leb_ℤ, pos_part}
use event_stream_platform.Event.Types.{second}
use event_stream_platform.Fanout.{Frame}

pub record Options : Type 0 where
  pub client_buffer : ℤ
  pub max_clients : ℤ
  pub replay_limit : ℤ
  pub heartbeat_interval : ℤ

pub data NewError : Type 0 where
  nil_source nil_history nil_logger small_buffer small_limit : NewError

unfoldable pub new : (has_source has_history has_logger : Bool) → Options → Result NewError Options
new has_source has_history has_logger o =
    if not has_source
    then err nil_source
    else if not has_history
    then err nil_history
    else if not has_logger
    then err nil_logger
    else if ltb_ℤ o.client_buffer (pos 1)
    then err small_buffer
    else if ltb_ℤ o.max_clients (pos 1)
    then err small_limit
    else ok (record o {
      replay_limit = if ltb_ℤ o.replay_limit (pos 1) then pos 1000 else o.replay_limit;
      heartbeat_interval =
          if leb_ℤ o.heartbeat_interval (pos 0) then pos (15 * second) else o.heartbeat_interval;
    })

-- A client: its channel's buffer, what its handler has received, and the length of the bus when it
-- was registered.
pub record Client : Type 0 where
  pub id : ℕ
  pub queue : List Frame
  pub received : List Frame
  pub joined : ℕ

-- The clients of the map, the clients whose channel is closed, the frames that the bus has brought,
-- and the labels of gateway_disconnects_total.
pub record Hub : Type 0 where
  pub clients : List Client
  pub closed : List Client
  pub bus : List Frame
  pub disconnects : List String
  pub next : ℕ

abbrev pub start : Hub
start = record { clients = []; closed = []; bus = []; disconnects = []; next = 0 }

abbrev pub buffer : Options → ℕ
buffer o = pos_part o.client_buffer

unfoldable pub register : Options → Hub → Bool × Hub
register o h =
    if leb_ℤ o.max_clients (pos (length h.clients))
    then (false, record h { disconnects = h.disconnects ++ "at_capacity" ∷ [] })
    else (
      true,
      record h {
        clients =
            record { id = h.next; queue = []; received = []; joined = length h.bus } ∷ h.clients;
        next = h.next + 1;
      },
    )

abbrev pub push : Frame → Client → Client
push f c = record c { queue = c.queue ++ f ∷ [] }

-- `select { case c.out <- pos: default: … }` for each client: those that are kept and those that are
-- dropped.
unfoldable pub offer_each : ℕ → Frame → List Client → List Client × List Client
offer_each size f [] = ([], [])
offer_each size f (c ∷ cs) =
    let (kept, dropped) = offer_each size f cs in
    if ltb (length c.queue) size then (push f c ∷ kept, dropped) else (kept, c ∷ dropped)

abbrev pub labels : String → List Client → List String
labels reason cs = map (λ c. reason) cs

unfoldable pub broadcast : Options → Frame → Hub → Hub
broadcast o f h =
    let (kept, dropped) = offer_each (buffer o) f h.clients in
    record h {
      clients = kept;
      closed = dropped ++ h.closed;
      bus = h.bus ++ f ∷ [];
      disconnects = h.disconnects ++ labels "slow_consumer" dropped;
    }

-- delete and close, if the client is still in the map.
unfoldable pub split_out : ℕ → List Client → List Client × List Client
split_out id [] = ([], [])
split_out id (c ∷ cs) =
    let (kept, gone) = split_out id cs in if c.id == id then (kept, c ∷ gone) else (c ∷ kept, gone)

unfoldable pub unregister : ℕ → Hub → Hub
unregister id h =
    let (kept, gone) = split_out id h.clients in
    record h { clients = kept; closed = gone ++ h.closed }

unfoldable pub shutdown : Hub → Hub
shutdown h = record h {
  clients = [];
  closed = h.clients ++ h.closed;
  disconnects = h.disconnects ++ labels "server_shutdown" h.clients;
}

-- `pos, ok := <-c.out` of a handler; a closed channel is drained first.
unfoldable pub receive : Client → Client
receive c = elim c.queue [
  | [] ↦ c
  | f ∷ fs ↦ record c { queue = fs; received = c.received ++ f ∷ [] }
]

unfoldable pub receive_of : ℕ → List Client → List Client
receive_of id [] = []
receive_of id (c ∷ cs) = (if c.id == id then receive c else c) ∷ receive_of id cs

-- What the gateway and its handlers do, in any order.
pub data Step (o : Options) : Hub → Hub → Type 0 where
  registers : (h : Hub) → Step o h (register o h).1
  broadcasts : (f : Frame) (h : Hub) → Step o h (broadcast o f h)
  unregisters : (id : ℕ) (h : Hub) → Step o h (unregister id h)
  shuts_down : (h : Hub) → Step o h (shutdown h)
  receives :
      (id : ℕ) (h : Hub)
      → Step o h (record h { clients = receive_of id h.clients; closed = receive_of id h.closed })

pub data Reaches (o : Options) : Hub → Type 0 where
  starts : Reaches o start
  steps : {h h' : Hub} → Reaches o h → Step o h h' → Reaches o h'
