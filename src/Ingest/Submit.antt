-- ===== src/Ingest/Submit.antt =====
-- internal/ingest/handler.go: handleSubmit. http.MaxBytesReader and the JSON decoder of the body are a
-- parameter, as is the identifier that Accept mints for the event at an index.
use event_stream_platform.Prelude.{
  ℕ, suc, ◌+◌, String, Bool, true, false, not, List, [], ◌∷◌, ◌++◌, length, ◌==◌, if◌then◌else◌, ok,
  err,
}
use event_stream_platform.Prelude.Int.{ℤ, pos, ltb_ℤ}
use event_stream_platform.Event.Types.{Bytes, Codec, VehiclePosition, EventError, Rejection}
use event_stream_platform.Event.Accept.{accept, marshal, field_of}
use event_stream_platform.Broker.{LogRecord, Record, Fate, produce}
use event_stream_platform.Ingest.Handler.{
  Options, Request, Reply, submitted, authorized, unauthorized, invalid_body, too_large,
  batch_too_large, unavailable, internal,
}

-- What reading the body under a limit yields.
pub data Body : Type 0 where
  over_limit malformed : Body
  batch : List Bytes → Body

pub record SubmitEnv : Type 0 where
  pub codec : Codec
  pub read_body : ℤ → Bytes → Body
  pub minted : ℕ → String
  pub now : ℕ
  pub produce : ℕ → Fate

-- The log, and the counters ingest_requests_total (its labels), ingest_events_total and
-- ingest_batch_size.
pub record Edge : Type 0 where
  pub log : List LogRecord
  pub requests : List String
  pub rejected : ℕ
  pub produced : ℕ
  pub batch_sizes : List ℕ

-- What the loop over the batch has made. It stops at an event that cannot be serialized.
pub record Judged : Type 0 where
  pub recs : List Record
  pub rejections : List Rejection
  pub is_complete : Bool

abbrev pub rejection : ℕ → EventError → Rejection
rejection i e = record { index = i; field = field_of e; reason = e }

abbrev pub record_of : VehiclePosition → Bytes → Record
record_of v payload = record { key = v.vehicle_id; value = payload; headers = [] }

-- One event, in front of what the loop makes of the events after it.
unfoldable pub judge : SubmitEnv → String → ℕ → Bytes → Judged → Judged
judge env source i raw rest = elim (accept env.codec (env.minted i) raw source env.now) [
  | err e ↦ record rest { rejections = rejection i e ∷ rest.rejections }
  | ok (e, v) ↦ elim (marshal env.codec e) [
    | err x ↦ record { recs = []; rejections = []; is_complete = false }
    | ok payload ↦ record rest { recs = record_of v payload ∷ rest.recs }
  ]
]

unfoldable pub judge_all : SubmitEnv → String → ℕ → List Bytes → Judged
unfolding judge
judge_all env source i [] = record { recs = []; rejections = []; is_complete = true }
judge_all env source i (raw ∷ raws) = judge env source i raw (judge_all env source (suc i) raws)

abbrev pub counted : String → Edge → Edge
counted label w = record w { requests = w.requests ++ label ∷ [] }

abbrev pub closed : ℕ → Judged → Edge → Reply × Edge
closed size j w = (
  submitted (length j.recs) j.rejections,
  counted "accepted" (record w { batch_sizes = w.batch_sizes ++ size ∷ [] }),
)

-- `if len(recs) > 0 { Produce }`, and the reply.
unfoldable pub publish_all : Options → SubmitEnv → ℕ → Judged → Edge → Reply × Edge
publish_all o env size j w =
    if length j.recs == 0
    then closed size j w
    else (let (r, log) = produce o.topic env.produce j.recs w.log in
        elim r [
          | err e ↦ (unavailable, counted "error" (record w { log = log }))
          | ok u ↦ closed size j (record w { log = log; produced = w.produced + length j.recs })
        ])

unfoldable pub submit_events : Options → SubmitEnv → List Bytes → Edge → Reply × Edge
submit_events o env raws w =
    if length raws == 0
    then (invalid_body "events", counted "rejected" w)
    else if ltb_ℤ o.max_batch_size (pos (length raws))
    then (batch_too_large o.max_batch_size (length raws), counted "rejected" w)
    else let j = judge_all env o.source 0 raws in
      let w' = record w { rejected = w.rejected + length j.rejections } in
      if j.is_complete then publish_all o env (length raws) j w' else (internal, counted "error" w')

unfoldable pub handle_submit : Options → SubmitEnv → Request → Edge → Reply × Edge
handle_submit o env r w =
    if not (authorized o r)
    then (unauthorized, counted "unauthorised" w)
    else elim (env.read_body o.max_body_bytes r.body) [
      | over_limit ↦ (too_large o.max_body_bytes, counted "rejected" w)
      | malformed ↦ (invalid_body "", counted "malformed" w)
      | batch raws ↦ submit_events o env raws w
    ]
