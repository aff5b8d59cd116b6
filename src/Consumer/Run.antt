-- ===== src/Consumer/Run.antt =====
-- internal/consumer/consumer.go: Run, the loop around processBatch. What each round of it meets is a
-- Poll; a list of polls is as much of a run as there has been.
use event_stream_platform.Prelude.{
  ℕ, suc, Bool, true, false, Option, none, some, List, [], ◌∷◌, length, ◌==◌, if◌then◌else◌,
}
use event_stream_platform.Consumer.State.{KRecord, Consumer, World}
use event_stream_platform.Consumer.Batch.{BatchEnv, process_batch}

-- The error of a fetch: of the poll's context, or of the brokers.
pub data FetchError : Type 0 where
  deadline_exceeded cancelled from_broker : FetchError

-- One round: whether the context has ended before the poll, what the poll returns, what the world adds
-- to its batch, and whether the context has ended after it.
pub record Poll : Type 0 where
  pub ends_before : Bool
  pub records : List KRecord
  pub batch : BatchEnv
  pub errors : List FetchError
  pub is_closed : Bool
  pub ends_after : Bool

-- A run: the world, whether a poll blocks the group's rebalances, and the fetch errors in the log.
pub record Running : Type 0 where
  pub world : World
  pub is_blocking : Bool
  pub warnings : ℕ

-- `for _, e := range errs`
unfoldable pub report_errors : List FetchError → ℕ → ℕ
report_errors [] n = n
report_errors (deadline_exceeded ∷ es) n = report_errors es n
report_errors (cancelled ∷ es) n = report_errors es n
report_errors (from_broker ∷ es) n = report_errors es (suc n)

-- PollRecords with BlockRebalanceOnPoll, and AllowRebalance.
abbrev pub poll_records : Running → Running
poll_records s = record s { is_blocking = true }

abbrev pub allow_rebalance : Running → Running
allow_rebalance s = record s { is_blocking = false }

abbrev pub batch_of : Consumer → Poll → World → Option World
batch_of c p w = if length p.records == 0 then some w else process_batch c p.batch p.records w

-- One round, and whether another follows.
unfoldable pub run_round : Consumer → Poll → Running → Option (Bool × Running)
run_round c p s =
    if p.ends_before then some (false, s) else elim (batch_of c p (poll_records s).world) [
      | none ↦ none
      | some w ↦
          let released = allow_rebalance (record (poll_records s) { world = w }) in
          if p.is_closed
          then some (false, released)
          else if p.ends_after
          then some (false, released)
          else some (true, record released { warnings = report_errors p.errors released.warnings })
    ]

unfoldable pub run : Consumer → List Poll → Running → Option (Bool × Running)
run c [] s = some (true, s)
run c (p ∷ ps) s = elim (run_round c p s) [
  | none ↦ none
  | some (false, s') ↦ some (false, s')
  | some (true, s') ↦ run c ps s'
]
