-- ===== src/Consumer/State.antt =====
-- internal/consumer: the options and New, the records of the log, and the world that the consumer
-- works on: the database, the live bus, the log with its dead-letter topic, the counters of
-- internal/platform/metrics that it moves, and the offsets that it has committed.
use event_stream_platform.Prelude.{
  ℕ, ◌*◌, String, Bool, not, Option, List, str_eq, if◌then◌else◌, Result, ok, err,
}
use event_stream_platform.Prelude.Int.{ℤ, pos, ltb_ℤ, leb_ℤ, eq_ℤ}
use event_stream_platform.Event.Types.{Bytes, Codec, EventError, Envelope, second}
use event_stream_platform.Fanout.{Frame, BusEnv}
use event_stream_platform.Broker.{LogRecord, Fate}
use event_stream_platform.Sink.Tables.{Db}
use event_stream_platform.Sink.Transaction.{DbError, TxEnv}
use event_stream_platform.Sink.Apply.{Store}

-- A *kgo.Record; `none` is a nil value.
pub record KRecord : Type 0 where
  pub topic : String
  pub key : String
  pub value : Option Bytes
  pub partition : ℕ
  pub offset : ℕ

-- Durations are numbers of nanoseconds, int64 as the other numbers.
pub record Options : Type 0 where
  pub topic : String
  pub batch_size : ℤ
  pub max_retries : ℤ
  pub backoff_base : ℤ
  pub backoff_max : ℤ

pub data NewError : Type 0 where
  nil_client nil_store nil_dead_letterer nil_logger no_topic : NewError

-- Which of New's pointer arguments are there.
pub record Given : Type 0 where
  pub client : Bool
  pub store : Bool
  pub dead_letterer : Bool
  pub logger : Bool

unfoldable pub with_defaults : Options → Options
with_defaults o =
    let base = if leb_ℤ o.backoff_base (pos 0) then pos 250000000 else o.backoff_base in
    record o {
      batch_size = if ltb_ℤ o.batch_size (pos 1) then pos 200 else o.batch_size;
      backoff_base = base;
      backoff_max = if ltb_ℤ o.backoff_max base then pos (30 * second) else o.backoff_max;
      max_retries = if eq_ℤ o.max_retries (pos 0) then pos 5 else o.max_retries;
    }

unfoldable pub new : Given → Options → Result NewError Options
unfolding with_defaults
new g o =
    if not g.client
    then err nil_client
    else if not g.store
    then err nil_store
    else if not g.dead_letterer
    then err nil_dead_letterer
    else if not g.logger
    then err nil_logger
    else if str_eq o.topic ""
    then err no_topic
    else ok (with_defaults o)

-- An error that a refusal is recorded with.
pub data Failure : Type 0 where
  from_event : EventError → Failure
  unknown_type : Envelope → Failure
  from_database : DbError → Failure

-- A consumer: what New was given, the dead-letter sink's topic, and what the code takes from
-- libraries: encoding/json, the text of an error, and uuid.NewSHA1 of a position in the log.
pub record Consumer : Type 0 where
  pub codec : Codec
  pub store : Store
  pub options : Options
  pub dlq_topic : String
  pub has_publisher : Bool
  pub error_text : Failure → String
  pub position_id : String → ℕ → ℕ → String

-- consumer_events_total, consumer_retries_total, dead_letter_total, fanout_events_total
pub record Counters : Type 0 where
  pub applied : ℕ
  pub duplicate : ℕ
  pub late : ℕ
  pub dead : ℕ
  pub retries : ℕ
  pub dead_letters : List String
  pub published : ℕ
  pub failed : ℕ
  pub no_subscribers : ℕ

pub record World : Type 0 where
  pub db : Db
  pub bus : List Frame
  pub log : List LogRecord
  pub counters : Counters
  pub commits : List (ℕ × ℕ)

-- What the world adds to the processing of one record: each attempt's transaction, whether the
-- context ends in the wait after an attempt, the bus, the dead-letter topic, and the transaction
-- that records a refusal.
pub record OneEnv : Type 0 where
  pub tries : ℕ → TxEnv
  pub is_cancelled : ℕ → Bool
  pub bus : BusEnv
  pub produce : ℕ → Fate
  pub refusal : TxEnv
