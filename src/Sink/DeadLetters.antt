-- ===== src/Sink/DeadLetters.antt =====
-- internal/sink/deadletter.go: RecordDeadLetter and DLQDepth.
use event_stream_platform.Prelude.{
  ℕ, suc, ◌+◌, ◌^◌, String, Bool, true, false, Option, none, some, List, [], ◌∷◌, ◌++◌, ltb, ◌==◌,
  str_eq, if◌then◌else◌, Result, ok, err, check, ◌>>=◌, ◌>>◌,
}
use event_stream_platform.Event.Types.{Bytes, is_zero}
use event_stream_platform.Sink.Tables.{
  Db, DeadRow, DeadReason, dead, replayed, decode, unknown_version, retries_exhausted, unknown,
  find, update,
}
use event_stream_platform.Sink.Transaction.{DbError, pg, TxEnv, Tx, in_tx}
use event_stream_platform.Sink.Apply.{Store, check_violation}

pub record DeadLetter : Type 0 where
  pub event_id : String
  pub key : String
  pub payload : Option Bytes
  pub error : String
  pub reason : String
  pub attempts : ℕ
  pub topic : String
  pub partition : ℕ
  pub offset : ℕ
  pub first_seen : ℕ

-- An error of the function itself, or one of the database.
pub data DeadLetterError : Type 0 where
  no_event_id : DeadLetterError
  no_payload : DeadLetterError
  unpublished : DeadLetterError
  database : DbError → DeadLetterError

-- CHECK (reason IN ('decode', 'unknown_version', 'retries_exhausted', 'unknown')), after the default.
unfoldable pub reason_of : String → Result DbError DeadReason
reason_of s =
    if str_eq s ""
    then ok unknown
    else if str_eq s "decode"
    then ok decode
    else if str_eq s "unknown_version"
    then ok unknown_version
    else if str_eq s "retries_exhausted"
    then ok retries_exhausted
    else if str_eq s "unknown"
    then ok unknown
    else err check_violation

-- An int column holds 32 bits.
abbrev pub int4 : ℕ → Option DbError
int4 n = if ltb n (2 ^ 31) then none else some (pg "22003")

abbrev pub is_dead_letter : ℕ → DeadRow → Bool
is_dead_letter id r = r.event_id == id

-- NOT NULL raw_payload
abbrev pub payload_of : Option Bytes → Result DbError Bytes
payload_of none = err (pg "23502")
payload_of (some p) = ok p

-- DO UPDATE SET …
unfoldable pub refused_again : ℕ → String → DeadReason → ℕ → DeadRow → DeadRow
refused_again now error reason attempts r = record r {
  error = error;
  reason = reason;
  attempts = r.attempts + attempts;
  last_failed_at = now;
  state = dead;
  replayed_at = none;
}

unfoldable pub upsert_dead_letter : TxEnv → DeadRow → List DeadRow → Result DbError (List DeadRow)
upsert_dead_letter env row rows = elim (find (is_dead_letter row.event_id) rows) [
  | none ↦ ok (rows ++ row ∷ [])
  | some old ↦ do
    check (int4 (old.attempts + row.attempts))
    ok (
        update (is_dead_letter row.event_id)
          (refused_again env.now row.error row.reason row.attempts) rows)
]

-- The row that INSERT INTO dead_letters would add.
unfoldable pub dead_row : Store → TxEnv → DeadLetter → Result DbError DeadRow
dead_row s env dl = do
  id ← s.postgres.uuid dl.event_id
  check (s.postgres.text dl.error)
  check (s.postgres.text dl.topic)
  check (env.fault 0)
  reason ← reason_of dl.reason
  check (int4 dl.attempts)
  payload ← payload_of dl.payload
  ok (record {
    event_id = id;
    raw_payload = payload;
    error = dl.error;
    reason = reason;
    attempts = dl.attempts;
    first_failed_at = s.postgres.stamp (if is_zero dl.first_seen then env.now else dl.first_seen);
    last_failed_at = env.now;
    topic = dl.topic;
    partition = dl.partition;
    offset = dl.offset;
    state = dead;
    replayed_at = none;
  })

unfoldable pub dead_letter_body : Store → TxEnv → DeadLetter → Tx (Unit {0})
dead_letter_body s env dl db = do
  row ← dead_row s env dl
  rows ← upsert_dead_letter env row db.dead_letters
  ok (tt, record db { dead_letters = rows })

abbrev pub as_database : {A : Type 0} → Result DbError A × Db → Result DeadLetterError A × Db
as_database (ok a, db) = (ok a, db)
as_database (err e, db) = (err (database e), db)

unfoldable pub record_dead_letter :
    Store → TxEnv → DeadLetter → Db → Result DeadLetterError (Unit {0}) × Db
record_dead_letter s env dl db =
    if str_eq dl.event_id ""
    then (err no_event_id, db)
    else as_database (in_tx env (dead_letter_body s env dl) db)

-- SELECT count(*) FROM dead_letters WHERE state = 'dead'
abbrev pub waits : DeadRow → Bool
waits r = elim r.state [ dead ↦ true | replayed ↦ false ]

unfoldable pub depth : List DeadRow → ℕ
depth [] = 0
depth (r ∷ rs) = if waits r then suc (depth rs) else depth rs

unfoldable pub dlq_depth : Option DbError → Db → Result DbError ℕ
dlq_depth (some e) db = err e
dlq_depth none db = ok (depth db.dead_letters)
