-- ===== src/Consumer/Refuse.antt =====
-- internal/consumer: DLQSink.DeadLetter of deadletter.go, refuse and positionID of consumer.go.
use event_stream_platform.Prelude.{
  ℕ, ◌+◌, String, Bool, true, false, none, some, List, [], ◌∷◌, ◌++◌, Result, ok, err,
}
use event_stream_platform.Broker.{LogRecord, produce}
use event_stream_platform.Sink.Tables.{Db}
use event_stream_platform.Sink.DeadLetters.{
  DeadLetter, DeadLetterError, no_payload, unpublished, record_dead_letter,
}
use event_stream_platform.Event.Types.{Bytes, zero_time}
use event_stream_platform.Consumer.State.{KRecord, Consumer, Failure, World, Counters, OneEnv}

-- The two copies of a refusal.
pub record Copies : Type 0 where
  pub log : List LogRecord
  pub db : Db

-- The topic's copy first, then the row.
unfoldable pub dead_letter_payload :
    Consumer → OneEnv → DeadLetter → Bytes → Copies → Result DeadLetterError (Unit {0}) × Copies
dead_letter_payload c env dl payload w =
    let (r, log) =
      produce c.dlq_topic env.produce (record { key = dl.key; value = payload; headers = [] } ∷ [])
        w.log in
    elim r [
      | err e ↦ (err unpublished, record w { log = log })
      | ok u ↦
          let (q, db) = record_dead_letter c.store env.refusal dl w.db in
          (q, record { log = log; db = db })
    ]

unfoldable pub dead_letter :
    Consumer → OneEnv → DeadLetter → Copies → Result DeadLetterError (Unit {0}) × Copies
dead_letter c env dl w = elim dl.payload [
  | none ↦ (err no_payload, w)
  | some payload ↦ dead_letter_payload c env dl payload w
]

abbrev pub dead_letter_of : Consumer → KRecord → String → String → ℕ → Failure → DeadLetter
dead_letter_of c r event_id reason attempts cause = record {
  event_id = event_id;
  key = r.key;
  payload = r.value;
  error = c.error_text cause;
  reason = reason;
  attempts = attempts;
  topic = r.topic;
  partition = r.partition;
  offset = r.offset;
  first_seen = zero_time;
}

abbrev pub counted_dead : String → Counters → Counters
counted_dead reason k = record k { dead = k.dead + 1; dead_letters = k.dead_letters ++ reason ∷ [] }

unfoldable pub refuse :
    Consumer → OneEnv → KRecord → String → String → ℕ → Failure → World → Bool × World
refuse c env r event_id reason attempts cause w =
    let (q, copies) =
      dead_letter c env (dead_letter_of c r event_id reason attempts cause)
        (record { log = w.log; db = w.db }) in
    elim q [
      | err e ↦ (false, record w { log = copies.log; db = copies.db })
      | ok u ↦ (
        true,
        record w { log = copies.log; db = copies.db; counters = counted_dead reason w.counters },
      )
    ]
