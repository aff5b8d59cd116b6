-- ===== src/Ingest/Judged.antt =====
-- What the loop over a batch makes of each event.
use event_stream_platform.Prelude.{
  ℕ, suc, ◌+◌, ◌≡◌, refl, inl, inr, String, true, false, List, [], ◌∷◌, map, length, arith, Holds,
  here, there, ok, err, Result-cases,
}
use event_stream_platform.Event.Types.{Bytes, Envelope, VehiclePosition, EventError, Rejection}
use event_stream_platform.Event.Accept.{accept, marshal}
use event_stream_platform.Broker.{LogRecord, wire}
use event_stream_platform.Ingest.Submit.{SubmitEnv, Judged, rejection, record_of, judge, judge_all}

-- What has become of the event at an index of the batch: its record is in the log, under the key of
-- its vehicle, or it is named among the rejections with the error of Accept.
pub data IsSettled (env : SubmitEnv) (source topic : String) (log : List LogRecord)
    (rejections : List Rejection) (i : ℕ) (raw : Bytes) : Type 0 where
  produced :
      (e : Envelope) (v : VehiclePosition) (payload : Bytes)
      → accept env.codec (env.minted i) raw source env.now ≡ ok (e, v)
      → marshal env.codec e ≡ ok payload
      → Holds (wire topic (record_of v payload)) log
      → IsSettled env source topic log rejections i raw
  rejected :
      (x : EventError)
      → accept env.codec (env.minted i) raw source env.now ≡ err x
      → Holds (rejection i x) rejections
      → IsSettled env source topic log rejections i raw

-- Every event of the batch, from index i on.
abbrev pub AllSettled :
    SubmitEnv → String → String → List LogRecord → List Rejection → ℕ → List Bytes → Type 0
AllSettled env source topic log rejections i [] = Unit
AllSettled env source topic log rejections i (raw ∷ raws) =
    IsSettled env source topic log rejections i raw
    × AllSettled env source topic log rejections (suc i) raws

-- The three ways in which one event is judged.
data Judgement (env : SubmitEnv) (source : String) (i : ℕ) (raw : Bytes) (rest : Judged)
    : Type 0 where
  accepts :
      (e : Envelope) (v : VehiclePosition) (payload : Bytes)
      → accept env.codec (env.minted i) raw source env.now ≡ ok (e, v)
      → marshal env.codec e ≡ ok payload
      → judge env source i raw rest ≡ record rest { recs = record_of v payload ∷ rest.recs }
      → Judgement env source i raw rest
  rejects :
      (x : EventError)
      → accept env.codec (env.minted i) raw source env.now ≡ err x
      → judge env source i raw rest ≡ record rest { rejections = rejection i x ∷ rest.rejections }
      → Judgement env source i raw rest
  breaks : (judge env source i raw rest).is_complete ≡ false → Judgement env source i raw rest

judge-Judgement :
    (env : SubmitEnv) (source : String) (i : ℕ) (raw : Bytes) (rest : Judged)
    → Judgement env source i raw rest
unfolding judge
judge-Judgement env source i raw rest =
    elim (Result-cases (accept env.codec (env.minted i) raw source env.now)) [
      | inr (x, a) ↦ rejects x a (rw (a, judge) refl)
      | inl (ev, a) ↦ elim (Result-cases (marshal env.codec ev.0)) [
        | inl (payload, m) ↦ accepts ev.0 ev.1 payload a m (ground (arith, a, m))
        | inr (x, m) ↦ breaks (ground (arith, a, m))
      ]
    ]

-- A loop that was not stopped has judged every event.
pub judge_all_counts :
    (env : SubmitEnv) (source : String) (i : ℕ) (raws : List Bytes)
    → (judge_all env source i raws).is_complete ≡ true
    → length (judge_all env source i raws).recs + length (judge_all env source i raws).rejections
      ≡ length raws
unfolding judge_all
judge_all_counts env source i [] h = refl
judge_all_counts env source i (raw ∷ raws) h =
    let rest = judge_all env source (suc i) raws in
    elim (judge-Judgement env source i raw rest) [
      | accepts e v payload a m s ↦
          let k = judge_all_counts env source (suc i) raws (ground (arith, s)) in
          ground (arith, s, k)
      | rejects x a s ↦
          let k = judge_all_counts env source (suc i) raws (ground (arith, s)) in
          ground (arith, s, k)
      | breaks s ↦ absurd (ground (arith, s))
    ]

pub judge_all-AllSettled :
    (env : SubmitEnv) (source topic : String) (log : List LogRecord) (rejections : List Rejection)
    (i : ℕ) (raws : List Bytes)
    → (judge_all env source i raws).is_complete ≡ true
    → ((x : LogRecord)
        → Holds x (map (wire topic) (judge_all env source i raws).recs)
        → Holds x log)
    → ((x : Rejection) → Holds x (judge_all env source i raws).rejections → Holds x rejections)
    → AllSettled env source topic log rejections i raws
unfolding judge_all
judge_all-AllSettled env source topic log rejections i [] h f g = tt
judge_all-AllSettled env source topic log rejections i (raw ∷ raws) h f g =
    let rest = judge_all env source (suc i) raws in
    elim (judge-Judgement env source i raw rest) [
      | accepts e v payload a m s ↦
          let f' : (x : LogRecord)
              → Holds x (map (wire topic) (record_of v payload ∷ rest.recs))
              → Holds x log =
            λ x k. f x (rw s k) in
          let g' : (x : Rejection) → Holds x rest.rejections → Holds x rejections =
            λ x k. g x (rw s k) in
          (
            produced e v payload a m (f' (wire topic (record_of v payload)) (here refl)),
            judge_all-AllSettled env source topic log rejections (suc i) raws (ground (arith, s))
                (λ x k. f' x (there k)) g',
          )
      | rejects x a s ↦
          let f' : (y : LogRecord) → Holds y (map (wire topic) rest.recs) → Holds y log =
            λ y k. f y (rw s k) in
          let g' : (y : Rejection)
              → Holds y (rejection i x ∷ rest.rejections)
              → Holds y rejections =
            λ y k. g y (rw s k) in
          (
            rejected x a (g' (rejection i x) (here refl)),
            judge_all-AllSettled env source topic log rejections (suc i) raws (ground (arith, s)) f'
                (λ y k. g' y (there k)),
          )
      | breaks s ↦ absurd (ground (arith, s))
    ]
