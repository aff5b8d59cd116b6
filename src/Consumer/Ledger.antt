-- ===== src/Consumer/Ledger.antt =====
-- consumer_events_total: each record that is finished with is counted once, under one outcome.
use event_stream_platform.Prelude.{
  ℕ, zero, suc, ◌+◌, ◌≡◌, refl, sym, ◌∙◌, inl, inr, String, Bool, some, arith, ◌==◌, if◌then◌else◌,
  Bool-cases, Result, ok, err, Result-cases,
}
use event_stream_platform.Event.Types.{Envelope, VehiclePosition}
use event_stream_platform.Event.Validate.{is_known_event_type}
use event_stream_platform.Event.Accept.{decode, as_vehicle_position}
use event_stream_platform.Fanout.{FanoutError, publish as publish_frame}
use event_stream_platform.Sink.Apply.{Outcome, applied, duplicate, late}
use event_stream_platform.Consumer.State.{
  KRecord, Consumer, Failure, World, OneEnv, from_database, from_event, unknown_type,
}
use event_stream_platform.Consumer.Refuse.{dead_letter, dead_letter_of, refuse}
use event_stream_platform.Consumer.One.{
  frame_of, publish, counted_publish, announce, counted_retry, retry, retry_fuel, process_payload,
  process_one, value_of, position_id_of,
}
use event_stream_platform.Consumer.Ends.{commits, refuses, stops, waits, retry-Attempt, tried}
use event_stream_platform.Consumer.Sound.{same_answer}

-- The events that have been counted, under whichever outcome.
abbrev pub ledger : World → ℕ
ledger w = w.counters.applied + w.counters.duplicate + w.counters.late + w.counters.dead

abbrev pub one_if : Bool → ℕ
one_if b = if b then 1 else 0

-- An answer that counts the record if it is finished with.
abbrev pub Counts : World → Bool × World → Type 0
Counts w x = ledger x.1 ≡ ledger w + one_if x.0

ledger_published :
    (r : Result FanoutError ℕ) (w : World)
    → ledger (record w { counters = counted_publish r w.counters }) ≡ ledger w
ledger_published (err e) w = refl
ledger_published (ok n) w = elim (Bool-cases (n == 0)) [ inl q ↦ rw q refl | inr q ↦ rw q refl ]

ledger-publish :
    (c : Consumer) (env : OneEnv) (e : Envelope) (v : VehiclePosition) (w : World)
    → ledger (publish c env e v w) ≡ ledger w
unfolding publish
ledger-publish c env e v w = elim (Bool-cases c.has_publisher) [
  | inl q ↦ rw q (ledger_published (publish_frame env.bus (frame_of e v) w.bus).0 w)
  | inr q ↦ rw q refl
]

ledger-announce :
    (c : Consumer) (env : OneEnv) (e : Envelope) (v : VehiclePosition) (o : Outcome) (w : World)
    → ledger (announce c env e v o w) ≡ ledger w + 1
unfolding announce
ledger-announce c env e v applied w = omega (
  arith,
  ledger-publish c env e v
      (record w { counters = record w.counters { applied = w.counters.applied + 1 } }),
)
ledger-announce c env e v duplicate w = omega arith
ledger-announce c env e v late w = omega (
  arith,
  ledger-publish c env e v
      (record w { counters = record w.counters { late = w.counters.late + 1 } }),
)

refuse-Counts :
    (c : Consumer) (env : OneEnv) (r : KRecord) (id reason : String) (attempts : ℕ)
    (cause : Failure) (w : World)
    → Counts w (refuse c env r id reason attempts cause w)
unfolding refuse
refuse-Counts c env r id reason attempts cause w =
    elim (Result-cases
      (dead_letter c env (dead_letter_of c r id reason attempts cause)
        (record { log = w.log; db = w.db })).0) [
          | inl (u, q) ↦ rw (q, refuse) (omega arith)
          | inr (e, q) ↦ rw (q, refuse) (omega arith)
        ]

retry-Counts :
    (fuel : ℕ) (c : Consumer) (env : OneEnv) (r : KRecord) (e : Envelope) (v : VehiclePosition)
    (attempts : ℕ) (w : World) (x : Bool × World)
    → retry fuel c env r e v attempts w ≡ some x
    → Counts w x
retry-Counts zero c env r e v attempts w x h = absurd (unfold retry in ground arith)
retry-Counts (suc fuel) c env r e v attempts w x h =
    let w' = tried fuel c env r e v attempts w in
    elim (retry-Attempt fuel c env r e v attempts w) [
      | commits o k s ↦ rw (same_answer h s) (ledger-announce c env e v o w')
      | refuses z reason s ↦
          rw (same_answer h s)
            (refuse-Counts c env r e.event_id reason (attempts + 1) (from_database z) w')
      | stops s ↦ rw (same_answer h s) (omega arith)
      | waits q s ↦ retry-Counts fuel c env r e v (attempts + 1) (counted_retry w') x (sym s ∙ h)
    ]

process_payload-Counts :
    (c : Consumer) (env : OneEnv) (r : KRecord) (e : Envelope) (w : World) (x : Bool × World)
    → process_payload c env r e w ≡ some x
    → Counts w x
process_payload-Counts c env r e w x h = elim (Result-cases (as_vehicle_position c.codec e)) [
  | inr (z, a) ↦
      let s : process_payload c env r e w
          ≡ some (refuse c env r e.event_id "decode" 0 (from_event z) w) =
        unfold process_payload in ground (arith, a) in
      rw (same_answer h s) (refuse-Counts c env r e.event_id "decode" 0 (from_event z) w)
  | inl (v, a) ↦
      let s : process_payload c env r e w ≡ retry (retry_fuel c) c env r e v 0 w =
        unfold process_payload in ground (arith, a) in
      retry-Counts (retry_fuel c) c env r e v 0 w x (sym s ∙ h)
]

-- Whatever the world does, processing a record adds one to consumer_events_total (applied, duplicate,
-- late and dead together) if it answers that it is finished with the record, and else nothing; so no
-- record is counted for each of its attempts.
pub process_one-Counts :
    (c : Consumer) (env : OneEnv) (r : KRecord) (w : World) (x : Bool × World)
    → process_one c env r w ≡ some x
    → ledger x.1 ≡ ledger w + (if x.0 then 1 else 0)
process_one-Counts c env r w x h = elim (Result-cases (decode c.codec (value_of r))) [
  | inr (z, a) ↦
      let s : process_one c env r w
          ≡ some (refuse c env r (position_id_of c r) "decode" 0 (from_event z) w) =
        unfold process_one in ground (arith, a) in
      rw (same_answer h s) (refuse-Counts c env r (position_id_of c r) "decode" 0 (from_event z) w)
  | inl (e, a) ↦ elim (Bool-cases (is_known_event_type e)) [
    | inl k ↦
        let s : process_one c env r w ≡ process_payload c env r e w =
          unfold process_one in ground (arith, a, k) in
        process_payload-Counts c env r e w x (sym s ∙ h)
    | inr k ↦
        let s : process_one c env r w
            ≡ some (refuse c env r e.event_id "unknown_version" 0 (unknown_type e) w) =
          unfold process_one in ground (arith, a, k) in
        rw (same_answer h s)
          (refuse-Counts c env r e.event_id "unknown_version" 0 (unknown_type e) w)
  ]
]
