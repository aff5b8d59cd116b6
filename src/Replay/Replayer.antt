-- ===== src/Replay/Replayer.antt =====
-- internal/replay/replay.go: Replayer.Replay, ReplayAll and truncate. Between the read, the publish
-- and the mark of one replay, other clients may change the tables: that is a function of the world.
-- Text is cut at a whole character, where the source may cut inside one.
use event_stream_platform.Prelude.{
  ℕ, suc, String, Bool, true, false, Option, List, [], ◌∷◌, length, leb, ◌==◌, if◌then◌else◌,
  Result, ok, err,
}
use Prim.Native.String.{len, slice, ◌++◌ as ◌+++◌}
use event_stream_platform.Prelude.Int.{ℤ}
use event_stream_platform.Broker.{LogRecord, Fate, Record, produce}
use event_stream_platform.Sink.Tables.{Db, dead, replayed}
use event_stream_platform.Sink.Transaction.{DbError, TxEnv}
use event_stream_platform.Sink.Apply.{Store}
use event_stream_platform.Replay.Queue.{
  Entry, ReplayError, already_replayed, no_payload, unpublished, unmarked, get, list, mark_replayed,
}

pub record ReplayResult : Type 0 where
  pub entry : Entry
  pub marked : Bool

pub record ReplayEnv : Type 0 where
  pub read_fault : Option DbError
  pub produce : ℕ → Fate
  pub meanwhile : Db → Db
  pub tx : TxEnv

-- The log and the tables.
pub record Depot : Type 0 where
  pub log : List LogRecord
  pub db : Db

unfoldable pub truncate : String → ℕ → String
truncate s n = if leb (len s) n then s else slice s 0 n +++ "…"

-- The record of an entry; `show` is strconv.FormatInt.
unfoldable pub replay_record : (ℕ → String) → Entry → Record
replay_record show e = record {
  key = e.event_id;
  value = e.payload;
  headers =
      ("x-replay", "true")
      ∷ ("x-origin-topic", e.topic)
      ∷ ("x-origin-partition", show e.partition)
      ∷ ("x-origin-offset", show e.offset)
      ∷ ("x-origin-reason", e.reason)
      ∷ ("x-origin-error", truncate e.error 200)
      ∷ [];
}

-- After the publish: the mark.
unfoldable pub mark_entry :
    Store → ReplayEnv → String → Entry → Depot → Result ReplayError ReplayResult × Depot
mark_entry s env event_id e w =
    let (r, db) = mark_replayed s env.tx event_id (env.meanwhile w.db) in
    elim r [
      | err x ↦ (err (unmarked e x), record w { db = db })
      | ok marked ↦ (ok (record { entry = e; marked = marked }), record w { db = db })
    ]

unfoldable pub publish_entry :
    Store
    → (ℕ → String)
    → ReplayEnv
    → String
    → Entry
    → Depot
    → Result ReplayError ReplayResult × Depot
publish_entry s show env event_id e w =
    let (r, log) = produce e.topic env.produce (replay_record show e ∷ []) w.log in
    elim r [
      | err x ↦ (err (unpublished e x), record w { log = log })
      | ok u ↦ mark_entry s env event_id e (record w { log = log })
    ]

unfoldable pub replay_entry :
    Store
    → (ℕ → String)
    → ReplayEnv
    → String
    → Entry
    → Depot
    → Result ReplayError ReplayResult × Depot
replay_entry s show env event_id e w = elim e.state [
  | replayed ↦ (err (already_replayed e), w)
  | dead ↦
      if length e.payload == 0
      then (err (no_payload e), w)
      else publish_entry s show env event_id e w
]

unfoldable pub replay :
    Store → (ℕ → String) → ReplayEnv → String → Depot → Result ReplayError ReplayResult × Depot
replay s show env event_id w = elim (get s env.read_fault event_id w.db) [
  | err x ↦ (err x, w)
  | ok e ↦ replay_entry s show env event_id e w
]

pub record ReplayAllEnv : Type 0 where
  pub list_fault : Option DbError
  pub one : ℕ → ReplayEnv
  pub is_cancelled : ℕ → Bool

-- The results, the errors, and whether the context ended the run.
pub record Report : Type 0 where
  pub results : List ReplayResult
  pub errs : List ReplayError
  pub is_cancelled : Bool

abbrev pub reported : Result ReplayError ReplayResult → Report → Report
reported (ok r) k = record k { results = r ∷ k.results }
reported (err e) k = record k { errs = e ∷ k.errs }

unfoldable pub replay_each :
    Store → (ℕ → String) → ReplayAllEnv → ℕ → List Entry → Depot → Report × Depot
replay_each s show env i [] w = (record { results = []; errs = []; is_cancelled = false }, w)
replay_each s show env i (e ∷ es) w =
    if env.is_cancelled i
    then (record { results = []; errs = []; is_cancelled = true }, w)
    else (let (r, w') = replay s show (env.one i) e.event_id w in
        let (k, w'') = replay_each s show env (suc i) es w' in (reported r k, w''))

unfoldable pub replay_all :
    Store → (ℕ → String) → ReplayAllEnv → ℤ → Depot → Result ReplayError Report × Depot
replay_all s show env limit w = elim (list s env.list_fault "dead" limit w.db) [
  | err x ↦ (err x, w)
  | ok entries ↦ let (k, w') = replay_each s show env 0 entries w in (ok k, w')
]
