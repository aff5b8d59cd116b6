-- ===== src/Consumer/Recovers.antt =====
-- A record outlives an outage of the database: processOne retries it until its transaction commits.
use event_stream_platform.Prelude.{
  ℕ, zero, suc, ◌+◌, ◌≤◌, ◌<◌, ◌≡◌, refl, ap, ◌∙◌, inl, inr, Bool, true, false, none, some, arith,
  ◌==◌, Bool-cases, Result, ok, err,
}
use event_stream_platform.Prelude.Int.{ℤ, pos, negsuc, ltb_ℤ, pos_part}
use event_stream_platform.Event.Types.{Envelope, VehiclePosition}
use event_stream_platform.Event.Validate.{is_known_event_type}
use event_stream_platform.Event.Accept.{decode, as_vehicle_position}
use event_stream_platform.Fanout.{FanoutError, publish as publish_frame}
use event_stream_platform.Sink.Tables.{Db, PositionRow, find, is_some}
use event_stream_platform.Sink.Transaction.{DbError, healthy}
use event_stream_platform.Sink.Apply.{
  Store, Input, Outcome, applied, duplicate, late, outcome_of, is_event, current_of, upsert_current,
  record_event, apply_body, apply, position_row,
}
use event_stream_platform.Sink.Once.{IsRecorded, apply-IsRecorded}
use event_stream_platform.Sink.Consistent.{dead_letters-apply}
use event_stream_platform.Consumer.State.{KRecord, Consumer, Counters, World, OneEnv}
use event_stream_platform.Consumer.Backoff.{is_permanent}
use event_stream_platform.Consumer.One.{
  frame_of, input_of, publish, counted_publish, announce, counted_retry, retry, retry_fuel,
  process_payload, process_one, value_of,
}
use event_stream_platform.Consumer.Ends.{tried}
use event_stream_platform.Consumer.Grows.{announce-Quiet}

-- Postgres takes the event: its identifier is a uuid, its texts are texts, and the schema allows its
-- row.
pub record IsStorable (s : Store) (now : ℕ) (i : Input) : Type 0 where
  pub id : ℕ
  pub reads : s.postgres.uuid i.envelope.event_id ≡ ok id
  pub consumer : s.postgres.text s.consumer_id ≡ none
  pub event_type : s.postgres.text i.envelope.event_type ≡ none
  pub row : PositionRow
  pub converts : position_row s now i id ≡ ok row

apply-healthy :
    (s : Store) (now : ℕ) (i : Input) (db : Db)
    → IsStorable s now i
    → (o : Outcome) × ((apply s (healthy now) i db).0 ≡ ok o)
unfolding apply apply_body record_event
apply-healthy s now i db h = elim (Bool-cases (is_some (find (is_event h.id) db.processed))) [
  | inl q ↦ (duplicate, ground (arith, h.reads, h.consumer, q))
  | inr q ↦ (
    outcome_of (upsert_current (current_of h.row) db.current).0,
    ground (arith, h.reads, h.consumer, h.event_type, h.converts, q),
  )
]

-- The database cannot be reached for the first n attempts, in errors that are worth a retry, and is
-- well at the next; n is within MaxRetries, and nothing cancels the waits.
pub record Outage (c : Consumer) (env : OneEnv) (n now : ℕ) : Type 0 where
  pub down :
      (j : ℕ)
      → j < n
      → (x : DbError) × (((env.tries (j + 1)).begin_fault ≡ some x) × (is_permanent x ≡ false))
  pub patient : (j : ℕ) → j < n → env.is_cancelled (j + 1) ≡ false
  pub within : ltb_ℤ c.options.max_retries (pos n) ≡ false
  pub over : env.tries (n + 1) ≡ healthy now

within_below : (top : ℤ) (n m : ℕ) → ltb_ℤ top (pos n) ≡ false → m ≤ n → ltb_ℤ top (pos m) ≡ false
within_below top n m h l = ground arith

within_lt : (top : ℤ) (n : ℕ) → ltb_ℤ top (pos n) ≡ false → n < pos_part top + 1
within_lt (pos m) n h = ground arith
within_lt (negsuc m) n h = ground arith

-- The record is finished with, its event is recorded, and each attempt that failed counted as a retry.
-- Nothing was refused: no entry of dead_letters, no record on any topic, and no count of a refusal.
pub record Recovered (c : Consumer) (i : Input) (n : ℕ) (w : World) (x : Bool × World)
    : Type 0 where
  pub done : x.0 ≡ true
  pub recorded : IsRecorded c.store i x.1.db
  pub no_refusal : x.1.db.dead_letters ≡ w.db.dead_letters
  pub no_copy : x.1.log ≡ w.log
  pub no_dead : x.1.counters.dead ≡ w.counters.dead
  pub no_reason : x.1.counters.dead_letters ≡ w.counters.dead_letters
  pub retries : x.1.counters.retries ≡ w.counters.retries + n

-- The counters of retries and of refusals stand as they were.
abbrev Spared : Counters → Counters → Type 0
Spared k k' = (k'.retries ≡ k.retries) × (k'.dead ≡ k.dead) × (k'.dead_letters ≡ k.dead_letters)

published-Spared : (r : Result FanoutError ℕ) (k : Counters) → Spared k (counted_publish r k)
published-Spared (err e) k = (refl, refl, refl)
published-Spared (ok n) k = elim (Bool-cases (n == 0)) [
  | inl q ↦ rw q (refl, refl, refl)
  | inr q ↦ rw q (refl, refl, refl)
]

publish-Spared :
    (c : Consumer) (env : OneEnv) (e : Envelope) (v : VehiclePosition) (w : World)
    → Spared w.counters (publish c env e v w).counters
unfolding publish
publish-Spared c env e v w = elim (Bool-cases c.has_publisher) [
  | inl q ↦ rw q (published-Spared (publish_frame env.bus (frame_of e v) w.bus).0 w.counters)
  | inr q ↦ rw q (refl, refl, refl)
]

announce-Spared :
    (c : Consumer) (env : OneEnv) (e : Envelope) (v : VehiclePosition) (o : Outcome) (w : World)
    → Spared w.counters (announce c env e v o w).counters
unfolding announce
announce-Spared c env e v applied w = publish-Spared c env e v _
announce-Spared c env e v duplicate w = (refl, refl, refl)
announce-Spared c env e v late w = publish-Spared c env e v _

module _ (c : Consumer) (env : OneEnv) (r : KRecord) (e : Envelope) (v : VehiclePosition)
    (n now : ℕ) (outage : Outage c env n now)
    (storable : IsStorable c.store now (input_of e v r)) where
  -- The attempt after the outage.
  retry_last :
      (fuel : ℕ) (w : World)
      → (x : Bool × World) × ((retry (suc fuel) c env r e v n w ≡ some x)
          × Recovered c (input_of e v r) 0 w x)
  retry_last fuel w =
      let i = input_of e v r in
      let w' = tried fuel c env r e v n w in
      let (o, a) = apply-healthy c.store now i w.db storable in
      let a' : (apply c.store (env.tries (n + 1)) i w.db).0 ≡ ok o = rw outage.over a in
      let quiet = announce-Quiet c env e v o w' in
      let spared = announce-Spared c env e v o w' in
      let db : (announce c env e v o w').db ≡ w'.db = quiet.0 in
      (
        (true, announce c env e v o w'),
        (
          unfold retry in ground (arith, a'),
          record {
            done = refl;
            recorded = rw db (apply-IsRecorded c.store (env.tries (n + 1)) i w.db o a');
            no_refusal =
                ap (λ (d : Db). d.dead_letters) db
                ∙ dead_letters-apply c.store (env.tries (n + 1)) i w.db;
            no_copy = quiet.1;
            no_dead = spared.1;
            no_reason = spared.2;
            retries = omega (arith, spared.0);
          },
        ),
      )

  -- An attempt of the outage changes nothing but the counter.
  retry_down :
      (fuel j : ℕ) (w : World)
      → j < n
      → retry (suc fuel) c env r e v j w ≡ retry fuel c env r e v (j + 1) (counted_retry w)
  unfolding retry apply
  retry_down fuel j w h =
      let (x, (fault, transient)) = outage.down j h in
      let calm = outage.patient j h in
      let more = within_below c.options.max_retries n (j + 1) outage.within (omega arith) in
      ground (arith, fault, transient, calm, more)

  retry-Recovered :
      (k fuel j : ℕ) (w : World)
      → j + k ≡ n
      → k < fuel
      → (x : Bool × World) × ((retry fuel c env r e v j w ≡ some x)
          × Recovered c (input_of e v r) k w x)
  retry-Recovered k zero j w s h = absurd (omega arith)
  retry-Recovered zero (suc fuel) j w s h =
      let at_end : j ≡ n = omega (arith, s) in rw at_end (retry_last fuel w)
  retry-Recovered (suc k) (suc fuel) j w s h =
      let (x, (ran, y)) =
        retry-Recovered k fuel (j + 1) (counted_retry w) (omega (arith, s)) (omega arith) in
      (
        x,
        (
          retry_down fuel j w (omega (arith, s)) ∙ ran,
          record {
            done = y.done;
            recorded = y.recorded;
            no_refusal = y.no_refusal;
            no_copy = y.no_copy;
            no_dead = y.no_dead;
            no_reason = y.no_reason;
            retries = omega (arith, y.retries);
          },
        ),
      )

-- A record is not lost to an outage. Where its value decodes to a known event with a vehicle position
-- that Postgres takes, the first n attempts find no database, n is at most MaxRetries, no wait is
-- cancelled and the next attempt finds one: processOne returns, it is finished with the record, the
-- event is recorded, nothing was dead-lettered, in the table, on the topic or in the counters, and n
-- retries were counted.
pub process_one-Recovered :
    (c : Consumer) (env : OneEnv) (r : KRecord) (w : World) (e : Envelope) (v : VehiclePosition)
    (n now : ℕ)
    → decode c.codec (value_of r) ≡ ok e
    → is_known_event_type e ≡ true
    → as_vehicle_position c.codec e ≡ ok v
    → IsStorable c.store now (input_of e v r)
    → Outage c env n now
    → (x : Bool × World) × ((process_one c env r w ≡ some x) × Recovered c (input_of e v r) n w x)
process_one-Recovered c env r w e v n now d k a storable outage =
    let enough : n < retry_fuel c = within_lt c.options.max_retries n outage.within in
    let (x, (ran, y)) =
      retry-Recovered c env r e v n now outage storable n (retry_fuel c) 0 w (omega arith) enough in
    let s : process_one c env r w ≡ retry (retry_fuel c) c env r e v 0 w =
      unfold process_one process_payload in ground (arith, d, k, a) in
    (x, (s ∙ ran, y))
