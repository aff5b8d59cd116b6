-- ===== src/Ingest/Settled.antt =====
-- What the 202 of handleSubmit stands for.
use event_stream_platform.Prelude.{
  ℕ, ◌+◌, ◌≡◌, refl, sym, ◌∙◌, ap, ◌≢◌, inl, inr, String, true, false, List, [], ◌∷◌, ◌++◌, map,
  length, arith, ◌==◌, Holds-append_right, ==_iff, Bool-cases, Result-cases,
}
use event_stream_platform.Prelude.Int.{pos, ltb_ℤ}
use event_stream_platform.Event.Types.{Bytes, Rejection}
use event_stream_platform.Broker.{LogRecord, Record, Fate, FateLaws, wire, produce}
use event_stream_platform.Broker.Durable.{produce_all}
use event_stream_platform.Ingest.Handler.{Options, Request, Reply, submitted, authorized, status_of}
use event_stream_platform.Ingest.Submit.{
  Body, batch, over_limit, malformed, SubmitEnv, Edge, Judged, judge_all, publish_all,
  submit_events, handle_submit,
}
use event_stream_platform.Ingest.Judged.{AllSettled, judge_all_counts, judge_all-AllSettled}

-- What the 202 says of a batch.
pub record Durable (o : Options) (env : SubmitEnv) (raws : List Bytes) (n : ℕ)
    (rejections : List Rejection) (w w' : Edge) : Type 0 where
  pub counts : n + length rejections ≡ length raws
  pub settled : AllSettled env o.source o.topic w'.log rejections 0 raws
  pub within : ltb_ℤ o.max_batch_size (pos (length raws)) ≡ false

produce_nothing :
    (topic : String) (fate : ℕ → Fate) (recs : List Record) (log : List LogRecord)
    → length recs ≡ 0
    → (produce topic fate recs log).1 ≡ log
unfolding produce
produce_nothing topic fate [] log h = refl
produce_nothing topic fate (r ∷ rs) log h = absurd (omega arith)

publish_all-log :
    (o : Options) (env : SubmitEnv) (size : ℕ) (j : Judged) (w : Edge) (n : ℕ)
    (rejections : List Rejection)
    → FateLaws env.produce
    → (publish_all o env size j w).0 ≡ submitted n rejections
    → (n ≡ length j.recs)
      × (rejections ≡ j.rejections)
      × ((publish_all o env size j w).1.log ≡ w.log ++ map (wire o.topic) j.recs)
publish_all-log o env size j w n rejections l h =
    elim (Result-cases (produce o.topic env.produce j.recs w.log).0) [
      | inl (u, p) ↦
          let all = produce_all o.topic env.produce j.recs w.log u l p in
          elim (Bool-cases (length j.recs == 0)) [
            | inl z ↦
                let none_sent : (produce o.topic env.produce j.recs w.log).1 ≡ w.log =
                  produce_nothing o.topic env.produce j.recs w.log
                    ((==_iff (length j.recs) 0).0 z) in
                let sent : (publish_all o env size j w).1.log ≡ w.log =
                  unfold publish_all in ground (arith, z) in
                (
                  unfold publish_all in ground (arith, z),
                  unfold publish_all in ground (arith, z),
                  sent ∙ sym none_sent ∙ all,
                )
            | inr z ↦
                let sent : (publish_all o env size j w).1.log
                    ≡ (produce o.topic env.produce j.recs w.log).1 =
                  unfold publish_all in ground (arith, p, z) in
                (
                  unfold publish_all in ground (arith, p, z),
                  unfold publish_all in ground (arith, p, z),
                  sent ∙ all,
                )
          ]
      | inr (x, p) ↦ elim (Bool-cases (length j.recs == 0)) [
        | inl z ↦ absurd (unfold produce in ground (arith, p, z))
        | inr z ↦ absurd (unfold publish_all in ground (arith, p, z))
      ]
    ]

submit_events-Durable :
    (o : Options) (env : SubmitEnv) (raws : List Bytes) (w : Edge) (n : ℕ)
    (rejections : List Rejection)
    → FateLaws env.produce
    → (submit_events o env raws w).0 ≡ submitted n rejections
    → Durable o env raws n rejections w (submit_events o env raws w).1
submit_events-Durable o env raws w n rejections l h =
    let j = judge_all env o.source 0 raws in
    let start = record w { rejected = w.rejected + length j.rejections } in
    let some_events : (length raws == 0) ≡ false = unfold submit_events in ground arith in
    let fits : ltb_ℤ o.max_batch_size (pos (length raws)) ≡ false =
      unfold submit_events in ground arith in
    let complete : j.is_complete ≡ true = unfold submit_events in ground arith in
    let same : submit_events o env raws w ≡ publish_all o env (length raws) j start =
      unfold submit_events in ground arith in
    let (a, b, c) =
      publish_all-log o env (length raws) j start n rejections l
        (ap (λ (x : Reply × Edge). x.0) (sym same) ∙ h) in
    rw same (record {
      counts = rw (a, b) (judge_all_counts env o.source 0 raws complete);
      settled =
          judge_all-AllSettled env o.source o.topic _ rejections 0 raws complete
            (λ x k. rw c (Holds-append_right x w.log _ k)) (λ x k. rw b k);
      within = fits;
    })

-- The ways in which a body is read.
data BodyIs (x : Body) : Type 0 where
  over : x ≡ over_limit → BodyIs x
  bad : x ≡ malformed → BodyIs x
  events : (raws : List Bytes) → x ≡ batch raws → BodyIs x

Body-cases : (x : Body) → BodyIs x
Body-cases over_limit = over refl
Body-cases malformed = bad refl
Body-cases (batch raws) = events raws refl

-- The events that the body of a request yields under the limit on its size.
pub record Reads (o : Options) (env : SubmitEnv) (r : Request) (raws : List Bytes) : Type 0 where
  pub body : env.read_body o.max_body_bytes r.body ≡ batch raws
  pub allowed : authorized o r ≡ true

-- When an acknowledged record has been written and handleSubmit answers 202: the request was
-- authorized, its body is a batch of at most MaxBatchSize events, the accepted and the rejected add
-- up to the batch, and each event of it is in the log as a record under its vehicle's key or is among
-- the rejections of the reply under its own index. No event is acknowledged and dropped.
pub handle_submit-Durable :
    (o : Options) (env : SubmitEnv) (r : Request) (w : Edge) (n : ℕ) (rejections : List Rejection)
    → FateLaws env.produce
    → (handle_submit o env r w).0 ≡ submitted n rejections
    → (raws : List Bytes) × (Reads o env r raws
        × Durable o env raws n rejections w (handle_submit o env r w).1)
handle_submit-Durable o env r w n rejections l h = elim (Bool-cases (authorized o r)) [
  | inr a ↦ absurd (unfold handle_submit in ground (arith, a))
  | inl a ↦ elim (Body-cases (env.read_body o.max_body_bytes r.body)) [
    | over b ↦ absurd (unfold handle_submit in ground (arith, a, b))
    | bad b ↦ absurd (unfold handle_submit in ground (arith, a, b))
    | events raws b ↦
        let same : handle_submit o env r w ≡ submit_events o env raws w =
          unfold handle_submit in ground (arith, a, b) in
        (
          raws,
          (
            record { body = b; allowed = a },
            rw same (
                submit_events-Durable o env raws w n rejections l
                  (ap (λ (x : Reply × Edge). x.0) (sym same) ∙ h)),
          ),
        )
  ]
]

-- Only a 202 or a 503 can have added to the log: every other reply of handleSubmit leaves it as it was.
pub handle_submit_refused :
    (o : Options) (env : SubmitEnv) (r : Request) (w : Edge)
    → status_of (handle_submit o env r w).0 ≢ 202
    → status_of (handle_submit o env r w).0 ≢ 503
    → (handle_submit o env r w).1.log ≡ w.log
unfolding handle_submit submit_events publish_all
handle_submit_refused o env r w a b = ground arith
