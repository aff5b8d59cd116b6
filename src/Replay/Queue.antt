-- ===== src/Replay/Queue.antt =====
-- internal/replay/replay.go: Entry, NormalizeState, and the Store's List, Get and MarkReplayed. Rows
-- that failed at one time are listed in the order of the table, an order that SQL leaves open.
use event_stream_platform.Prelude.{
  ℕ, String, Bool, true, false, not, ◌&&◌, Option, none, some, List, [], ◌∷◌, map, take, leb, ◌==◌,
  str_eq, if◌then◌else◌, Result, ok, err, check, ◌>>=◌, ◌>>◌,
}
use event_stream_platform.Prelude.Int.{ℤ, pos}
use event_stream_platform.Event.Types.{Bytes}
use event_stream_platform.Broker.{BrokerError}
use event_stream_platform.Sink.Tables.{
  Db, DeadRow, DeadState, dead, replayed, DeadReason, decode, unknown_version, retries_exhausted,
  unknown, find, update,
}
use event_stream_platform.Sink.Transaction.{DbError, TxEnv, Tx, in_tx}
use event_stream_platform.Sink.Apply.{Store}
use event_stream_platform.Sink.DeadLetters.{is_dead_letter, waits}

pub record Entry : Type 0 where
  pub event_id : String
  pub payload : Bytes
  pub error : String
  pub reason : String
  pub attempts : ℕ
  pub topic : String
  pub partition : ℕ
  pub offset : ℕ
  pub state : DeadState
  pub first_failed_at : ℕ
  pub last_failed_at : ℕ
  pub replayed_at : Option ℕ

pub data ReplayError : Type 0 where
  unknown_state : String → ReplayError
  no_event_id : ReplayError
  not_found : String → ReplayError
  database : DbError → ReplayError
  already_replayed no_payload : Entry → ReplayError
  unpublished : Entry → BrokerError → ReplayError
  unmarked : Entry → DbError → ReplayError

-- A query, where the world may fail.
abbrev pub queried : {A : Type 0} → Option DbError → Result ReplayError A → Result ReplayError A
queried (some e) r = err (database e)
queried none r = r

-- The two values of a state, or `none` for all.
unfoldable pub normalize_state : String → Result ReplayError (Option DeadState)
normalize_state s =
    if str_eq s ""
    then ok none
    else if str_eq s "all"
    then ok none
    else if str_eq s "dead"
    then ok (some dead)
    else if str_eq s "replayed"
    then ok (some replayed)
    else err (unknown_state s)

abbrev pub reason_text : DeadReason → String
reason_text decode = "decode"
reason_text unknown_version = "unknown_version"
reason_text retries_exhausted = "retries_exhausted"
reason_text unknown = "unknown"

unfoldable pub entry_of : Store → DeadRow → Entry
entry_of s r = record {
  event_id = s.postgres.show_uuid r.event_id;
  payload = r.raw_payload;
  error = r.error;
  reason = reason_text r.reason;
  attempts = r.attempts;
  topic = r.topic;
  partition = r.partition;
  offset = r.offset;
  state = r.state;
  first_failed_at = r.first_failed_at;
  last_failed_at = r.last_failed_at;
  replayed_at = r.replayed_at;
}

-- WHERE state = $1
abbrev pub matches : Option DeadState → DeadRow → Bool
matches none r = true
matches (some dead) r = waits r
matches (some replayed) r = not (waits r)

unfoldable pub rows_matching : Option DeadState → List DeadRow → List DeadRow
rows_matching o [] = []
rows_matching o (r ∷ rs) = if matches o r then r ∷ rows_matching o rs else rows_matching o rs

-- ORDER BY last_failed_at DESC
unfoldable pub insert_recent : DeadRow → List DeadRow → List DeadRow
insert_recent r [] = r ∷ []
insert_recent r (x ∷ xs) =
    if leb x.last_failed_at r.last_failed_at then r ∷ x ∷ xs else x ∷ insert_recent r xs

unfoldable pub most_recent : List DeadRow → List DeadRow
unfolding insert_recent
most_recent [] = []
most_recent (r ∷ rs) = insert_recent r (most_recent rs)

abbrev pub limit_of : ℤ → ℕ
limit_of (pos n) = if n == 0 then 100 else n
limit_of n = 100

unfoldable pub list : Store → Option DbError → String → ℤ → Db → Result ReplayError (List Entry)
unfolding rows_matching most_recent entry_of
list s fault state limit db = do
  o ← normalize_state state
  queried fault (
      ok (map (entry_of s) (take (limit_of limit) (most_recent (rows_matching o db.dead_letters)))))

abbrev pub entry_option : Store → String → Option DeadRow → Result ReplayError Entry
entry_option s event_id none = err (not_found event_id)
entry_option s event_id (some r) = ok (entry_of s r)

-- The conversion of an argument may fail in the database.
abbrev pub converted : {A : Type 0} → Result DbError A → Result ReplayError A
converted (ok a) = ok a
converted (err e) = err (database e)

unfoldable pub get : Store → Option DbError → String → Db → Result ReplayError Entry
get s fault event_id db = if str_eq event_id "" then err no_event_id else do
  id ← converted (s.postgres.uuid event_id)
  queried fault (entry_option s event_id (find (is_dead_letter id) db.dead_letters))

abbrev pub mark : ℕ → DeadRow → DeadRow
mark now r = record r { state = replayed; replayed_at = some now }

-- The row that the UPDATE touches.
abbrev pub is_waiting : ℕ → DeadRow → Bool
is_waiting id r = is_dead_letter id r && waits r

abbrev pub touches : Option DeadRow → Bool
touches none = false
touches (some r) = true

-- UPDATE dead_letters SET … WHERE event_id = $1 AND state = 'dead', and whether it touched the row.
unfoldable pub mark_body : Store → TxEnv → String → Tx Bool
mark_body s env event_id db = do
  id ← s.postgres.uuid event_id
  check (env.fault 0)
  ok (
    touches (find (is_waiting id) db.dead_letters),
    record db { dead_letters = update (is_waiting id) (mark env.now) db.dead_letters },
  )

unfoldable pub mark_replayed : Store → TxEnv → String → Db → Result DbError Bool × Db
unfolding mark_body
mark_replayed s env event_id db = in_tx env (mark_body s env event_id) db
