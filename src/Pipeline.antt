-- ===== src/Pipeline.antt =====
-- From a request to the database: what internal/ingest acknowledged, internal/consumer records.
use event_stream_platform.Prelude.{
  ℕ, zero, suc, ◌+◌, ◌≡◌, sym, ap, ◌≢◌, String, Bool, some, List, [], ◌∷◌, drop, arith, Holds, ok,
}
use mathlib.Core.Path.{subst}
use event_stream_platform.Event.Types.{
  Bytes, CodecLaws, Envelope, VehiclePosition, Rejection, zero_time,
}
use event_stream_platform.Event.Accept.{accept, marshal}
use event_stream_platform.Event.RoundTrip.{accept-decode}
use event_stream_platform.Broker.{LogRecord, FateLaws, wire}
use event_stream_platform.Ingest.Handler.{Options, Request, submitted}
use event_stream_platform.Ingest.Submit.{SubmitEnv, Edge, batch, record_of, handle_submit}
use event_stream_platform.Ingest.Judged.{IsSettled, produced, rejected, AllSettled}
use event_stream_platform.Ingest.Settled.{handle_submit-Durable}
use event_stream_platform.Consumer.State.{KRecord, Consumer, World, OneEnv}
use event_stream_platform.Consumer.One.{input_of, process_one, value_of}
use event_stream_platform.Consumer.Recovers.{IsStorable, Outage, Recovered, process_one-Recovered}

module _ (env : SubmitEnv) (source topic : String) (log : List LogRecord)
    (rejections : List Rejection) where
  IsSettled-drop :
      (k i : ℕ) (raw : Bytes) (raws rest : List Bytes)
      → AllSettled env source topic log rejections k raws
      → drop i raws ≡ raw ∷ rest
      → IsSettled env source topic log rejections (k + i) raw
  IsSettled-drop k zero raw [] rest a h = absurd (ground arith)
  IsSettled-drop k zero raw (x ∷ xs) rest a h =
      let same : x ≡ raw = ground arith in
      let index : k ≡ k + 0 = omega arith in
      subst (λ j. IsSettled env source topic log rejections j raw) index (rw (sym same) a.0)
  IsSettled-drop k (suc i) raw [] rest a h = absurd (ground arith)
  IsSettled-drop k (suc i) raw (x ∷ xs) rest a h =
      let index : suc k + i ≡ k + suc i = omega arith in
      subst (λ j. IsSettled env source topic log rejections j raw) index
        (IsSettled-drop (suc k) i raw xs rest a.1 h)

  accepted-Holds :
      (i : ℕ) (raw : Bytes) (e : Envelope) (v : VehiclePosition) (payload : Bytes)
      → accept env.codec (env.minted i) raw source env.now ≡ ok (e, v)
      → marshal env.codec e ≡ ok payload
      → IsSettled env source topic log rejections i raw
      → Holds (wire topic (record_of v payload)) log
  accepted-Holds i raw e v payload a m (produced e' v' payload' a' m' held) =
      let position : v' ≡ v = ground (arith, a, a') in
      let envelope : e' ≡ e = ground (arith, a, a') in
      let bytes : payload' ≡ payload =
        ground (arith, m, m', ap (λ x. marshal env.codec x) envelope) in
      subst (λ p. Holds (wire topic (record_of p payload)) log) position
        (subst (λ b. Holds (wire topic (record_of v' b)) log) bytes held)
  accepted-Holds i raw e v payload a m (rejected x a' held) = absurd (ground (arith, a, a'))

-- An acknowledged event reaches the database. Where handleSubmit answered 202 to a batch (an
-- acknowledged record has been written, the codec has the laws of JSON, the time is not Go's zero
-- time), and the event at index i of the batch is one that Accept lets through and Marshal writes: its
-- bytes are in the log. When a consumer with that codec processes a record of those bytes, in an outage
-- of the database that its retries outlast, and Postgres takes the event, processOne is finished with
-- the record, the event is recorded, and nothing was dead-lettered.
pub handle_submit-process_one :
    (o : Options) (env : SubmitEnv) (request : Request) (edge : Edge) (accepted : ℕ)
    (rejections : List Rejection) (raws rest : List Bytes) (i : ℕ) (raw : Bytes) (e : Envelope)
    (v : VehiclePosition) (payload : Bytes) (c : Consumer) (world : OneEnv) (r : KRecord)
    (w : World) (n now : ℕ)
    → FateLaws env.produce
    → CodecLaws env.codec
    → env.now ≢ zero_time
    → (handle_submit o env request edge).0 ≡ submitted accepted rejections
    → env.read_body o.max_body_bytes request.body ≡ batch raws
    → drop i raws ≡ raw ∷ rest
    → accept env.codec (env.minted i) raw o.source env.now ≡ ok (e, v)
    → marshal env.codec e ≡ ok payload
    → c.codec ≡ env.codec
    → r.value ≡ some payload
    → IsStorable c.store now (input_of e v r)
    → Outage c world n now
    → Holds (wire o.topic (record_of v payload)) (handle_submit o env request edge).1.log
      × ((x : Bool × World) × ((process_one c world r w ≡ some x)
            × Recovered c (input_of e v r) n w x))
handle_submit-process_one o env request edge accepted rejections raws rest i raw e v payload c world
      r w n now fates laws time reply body at a m codec bytes storable outage =
    let log = (handle_submit o env request edge).1.log in
    let (raws', (reads, durable)) =
      handle_submit-Durable o env request edge accepted rejections fates reply in
    let same : raws' ≡ raws = ground (arith, reads.body, body) in
    let settled =
      IsSettled-drop env o.source o.topic log rejections 0 i raw raws rest
        (subst (λ l. AllSettled env o.source o.topic log rejections 0 l) same durable.settled) at in
    let (back, known, position, sound) =
      accept-decode env.codec laws (env.minted i) raw o.source env.now e v payload time a m in
    let value : value_of r ≡ payload = ground (arith, bytes) in
    (
      accepted-Holds env o.source o.topic log rejections i raw e v payload a m
          (subst (λ j. IsSettled env o.source o.topic log rejections j raw) (omega arith) settled),
      process_one-Recovered c world r w e v n now (rw (codec, value) back) known (rw codec position)
          storable outage,
    )
