-- ===== src/Examples/Polls.antt =====
-- internal/consumer at concrete inputs: a poll with a report and a record that is no event.
use event_stream_platform.Prelude.{
  List, ◌+◌, ◌*◌, ◌^◌, min, ◌≡◌, refl, Bool, true, false, some, [], ◌∷◌, arith, ◌==◌, if◌then◌else◌,
  All,
}
use event_stream_platform.Prelude.Int.{pos}
use event_stream_platform.Event.Types.{second}
use event_stream_platform.Broker.{produce, failed}
use event_stream_platform.Event.Accept.{decode}
use event_stream_platform.Sink.DeadLetters.{
  record_dead_letter, dead_letter_body, dead_row, reason_of, upsert_dead_letter,
}
use event_stream_platform.Sink.Tables.{empty}
use event_stream_platform.Sink.Transaction.{healthy}
use event_stream_platform.Sink.History.{IsConsistent}
use event_stream_platform.Sink.Consistent.{IsConsistent-empty}
use event_stream_platform.Consumer.State.{
  KRecord, Options, Consumer, World, Counters, OneEnv, from_event,
}
use event_stream_platform.Consumer.Backoff.{backoff}
use event_stream_platform.Consumer.Batch.{BatchEnv, process_batch}
use event_stream_platform.Consumer.One.{process_one}
use event_stream_platform.Consumer.Refuse.{refuse, dead_letter, dead_letter_payload}
use event_stream_platform.Consumer.Ends.{process_one_total}
use event_stream_platform.Consumer.Handled.{IsHandled}
use event_stream_platform.Consumer.Sound.{process_one-Outcomes, process_one-IsHandled}
use event_stream_platform.Consumer.Ledger.{ledger, process_one-Counts}
use event_stream_platform.Consumer.Groups.{IsPoll, differ}
use event_stream_platform.Consumer.Commits.{IsCovered, process_batch-IsCovered}
use event_stream_platform.Consumer.Waits.{backoff-doubles}
use event_stream_platform.Event.Types.{malformed_envelope}
use event_stream_platform.Consumer.Run.{Poll, Running, deadline_exceeded, from_broker, run}
use event_stream_platform.Consumer.Loop.{run-Kept}
use event_stream_platform.Examples.Fixtures.{codec, store, at, fine, fine-FateLaws}

abbrev pub options : Options
options = record {
  topic = "vehicle.events";
  batch_size = pos 200;
  max_retries = pos 2;
  backoff_base = pos second;
  backoff_max = pos (30 * second);
}

abbrev pub consumer : Consumer
consumer = record {
  codec = codec;
  store = store;
  options = options;
  dlq_topic = "vehicle.dlq";
  has_publisher = true;
  error_text = λ f. "refused";
  position_id = λ topic p offset. if offset == 0 then "at-0" else "at-1";
}

abbrev pub env : OneEnv
env = record {
  tries = λ n. healthy (at 200);
  is_cancelled = λ n. false;
  bus = record { marshals = true; receivers = some 1 };
  produce = fine;
  refusal = healthy (at 201);
}

abbrev batch_env : BatchEnv
batch_env = record { one = λ r. env; is_cancelled = λ r. false; commit_fails = λ p. false }

abbrev pub good : KRecord
good = record {
  topic = "vehicle.events";
  key = "bus-7";
  value = some (1 ∷ at 100 ∷ at 50 ∷ 3 ∷ []);
  partition = 0;
  offset = 0;
}

abbrev bad : KRecord
bad = record {
  topic = "vehicle.events";
  key = "bus-7";
  value = some (7 ∷ []);
  partition = 0;
  offset = 1;
}

abbrev pub zeros : Counters
zeros = record {
  applied = 0;
  duplicate = 0;
  late = 0;
  dead = 0;
  retries = 0;
  dead_letters = [];
  published = 0;
  failed = 0;
  no_subscribers = 0;
}

abbrev pub world : World
world = record { db = empty; bus = []; log = []; counters = zeros; commits = [] }

distinct-IsPoll : IsPoll (bad ∷ good ∷ [])
unfolding differ
distinct-IsPoll = ((refl, tt), (tt, tt))

process_batch-IsCovered_example :
    (w' : World) × ((process_batch consumer batch_env (bad ∷ good ∷ []) world ≡ some w')
      × All (IsCovered consumer w' (bad ∷ good ∷ [])) w'.commits)
process_batch-IsCovered_example =
    process_batch-IsCovered consumer batch_env (bad ∷ good ∷ []) world (λ r. fine-FateLaws)
      distinct-IsPoll tt

process_one_total_example : (x : Bool × World) × (process_one consumer env good world ≡ some x)
process_one_total_example = process_one_total consumer env good world

backoff-doubles_example : backoff options (3 + 1) ≡ pos (min (second * 2 ^ 3) (30 * second))
backoff-doubles_example = backoff-doubles options second (30 * second) 3 refl refl (omega arith)

abbrev answer : Bool × World
answer = refuse consumer env bad "at-1" "decode" 0 (from_event malformed_envelope) world

answered : process_one consumer env bad world ≡ some answer
unfolding process_one decode
answered = refl

answered_true : answer.0 ≡ true
unfolding refuse dead_letter dead_letter_payload produce failed record_dead_letter dead_letter_body
    dead_row reason_of upsert_dead_letter
answered_true = refl

process_one-IsHandled_example : IsHandled consumer bad answer.1
process_one-IsHandled_example =
    process_one-IsHandled consumer env bad world answer fine-FateLaws answered answered_true

process_one-Counts_example : ledger answer.1 ≡ ledger world + (if answer.0 then 1 else 0)
process_one-Counts_example = process_one-Counts consumer env bad world answer answered

bad-IsHandled : IsHandled consumer bad answer.1
bad-IsHandled =
    (process_one-Outcomes consumer env bad world answer fine-FateLaws answered).handled
      answered_true

bad-IsConsistent : IsConsistent answer.1.db
bad-IsConsistent =
    (process_one-Outcomes consumer env bad world answer fine-FateLaws answered).grows.db.consistent
      IsConsistent-empty

-- A poll of two records, and one that the client's closing ends.
abbrev polls : List Poll
polls =
    record {
      ends_before = false;
      records = bad ∷ good ∷ [];
      batch = batch_env;
      errors = deadline_exceeded ∷ from_broker ∷ [];
      is_closed = false;
      ends_after = false;
    }
    ∷ record {
      ends_before = false;
      records = [];
      batch = batch_env;
      errors = [];
      is_closed = true;
      ends_after = false;
    }
    ∷ []

abbrev starting : Running
starting = record { world = answer.1; is_blocking = false; warnings = 0 }

run-Kept_example :
    (x : Bool × Running) × ((run consumer polls starting ≡ some x)
      × ((x.1.is_blocking ≡ false) × IsConsistent x.1.world.db × IsHandled consumer bad x.1.world))
run-Kept_example =
    run-Kept consumer polls starting bad
      (
        record { fates = λ r. fine-FateLaws; distinct = distinct-IsPoll },
        (record { fates = λ r. fine-FateLaws; distinct = tt }, tt),
      )
      refl bad-IsConsistent bad-IsHandled
