-- ===== src/Consumer/Sound.antt =====
-- What processOne's answer is worth: a record that it finishes with is handled, and nothing that was
-- there before is lost.
use event_stream_platform.Prelude.{
  ℕ, zero, suc, ◌+◌, ◌≡◌, refl, sym, ◌∙◌, inl, inr, Bool, true, Option, some, arith, Bool-cases, ok,
  Result-cases,
}
use event_stream_platform.Event.Types.{Envelope, VehiclePosition}
use event_stream_platform.Event.Validate.{is_known_event_type}
use event_stream_platform.Event.Accept.{decode, as_vehicle_position}
use event_stream_platform.Broker.{FateLaws}
use event_stream_platform.Sink.Apply.{Outcome, apply}
use event_stream_platform.Sink.Once.{IsRecorded, apply-IsRecorded}
use event_stream_platform.Consumer.State.{
  KRecord, Consumer, World, OneEnv, from_database, from_event, unknown_type,
}
use event_stream_platform.Consumer.Refuse.{refuse}
use event_stream_platform.Consumer.One.{
  announce, input_of, counted_retry, retry, retry_fuel, process_payload, process_one, value_of,
  position_id_of,
}
use event_stream_platform.Consumer.Ends.{commits, refuses, stops, waits, retry-Attempt, tried}
use event_stream_platform.Consumer.Grows.{
  Grows, Grows-refl, Grows-trans, announce-Grows, announce-Quiet, tried-Grows,
}
use event_stream_platform.Consumer.Handled.{
  IsHandled, recorded, refused_id, Outcomes, refuse-Outcomes,
}

-- Two answers of the same run.
pub same_answer : {x y : Bool × World} {o : Option (Bool × World)} → o ≡ some x → o ≡ some y → x ≡ y
same_answer p q = cc

counted_retry-Grows :
    (c : Consumer) {w w' : World} → Grows c.store w w' → Grows c.store w (counted_retry w')
counted_retry-Grows c g = record { db = g.db; log = g.log; commits = g.commits }

-- A transaction that committed has recorded the event, and what is announced afterwards leaves it.
committed :
    (c : Consumer) (env : OneEnv) (r : KRecord) (e : Envelope) (v : VehiclePosition) (attempts : ℕ)
    (fuel : ℕ) (w : World) (o : Outcome)
    → (apply c.store (env.tries (attempts + 1)) (input_of e v r) w.db).0 ≡ ok o
    → IsRecorded c.store
        (input_of e v r)
        (announce c env e v o (tried fuel c env r e v attempts w)).db
committed c env r e v attempts fuel w o a =
    rw (announce-Quiet c env e v o (tried fuel c env r e v attempts w)).0
      (apply-IsRecorded c.store (env.tries (attempts + 1)) (input_of e v r) w.db o a)

module _ (c : Consumer) (env : OneEnv) (r : KRecord) (l : FateLaws env.produce) (e : Envelope)
    (v : VehiclePosition) (d : decode c.codec (value_of r) ≡ ok e)
    (a : as_vehicle_position c.codec e ≡ ok v) where
  own_id : refused_id c r ≡ e.event_id
  own_id = rw (d, refused_id) refl

  retry-Outcomes :
      (fuel : ℕ) (attempts : ℕ) (w : World) (x : Bool × World)
      → retry fuel c env r e v attempts w ≡ some x
      → Outcomes c r w x
  retry-Outcomes zero attempts w x h = absurd (unfold retry in ground arith)
  retry-Outcomes (suc fuel) attempts w x h =
      let g = tried-Grows c.store (env.tries (attempts + 1)) (input_of e v r) w in
      elim (retry-Attempt fuel c env r e v attempts w) [
        | commits o k s ↦ rw (same_answer h s) (record {
          grows = Grows-trans g (announce-Grows c env e v o (tried fuel c env r e v attempts w));
          handled = λ _. recorded e v d a (committed c env r e v attempts fuel w o k);
        })
        | refuses z reason s ↦ rw (same_answer h s) (
            refuse-Outcomes c env r e.event_id reason (attempts + 1) (from_database z) w
              (tried fuel c env r e v attempts w) l own_id g)
        | stops s ↦
            rw (same_answer h s)
              (record { grows = counted_retry-Grows c g; handled = λ t. absurd (ground arith) })
        | waits q s ↦
            let rest =
              retry-Outcomes fuel (attempts + 1) (counted_retry (tried fuel c env r e v attempts w))
                x (sym s ∙ h) in
            record {
              grows = Grows-trans (counted_retry-Grows c g) rest.grows;
              handled = rest.handled;
            }
      ]

process_payload-Outcomes :
    (c : Consumer) (env : OneEnv) (r : KRecord) (e : Envelope) (w : World) (x : Bool × World)
    → FateLaws env.produce
    → decode c.codec (value_of r) ≡ ok e
    → process_payload c env r e w ≡ some x
    → Outcomes c r w x
process_payload-Outcomes c env r e w x l d h = elim (Result-cases (as_vehicle_position c.codec e)) [
  | inr (z, a) ↦
      let s : process_payload c env r e w
          ≡ some (refuse c env r e.event_id "decode" 0 (from_event z) w) =
        unfold process_payload in ground (arith, a) in
      rw (same_answer h s) (
        refuse-Outcomes c env r e.event_id "decode" 0 (from_event z) w w l (rw (d, refused_id) refl)
          (Grows-refl c.store w))
  | inl (v, a) ↦
      let s : process_payload c env r e w ≡ retry (retry_fuel c) c env r e v 0 w =
        unfold process_payload in ground (arith, a) in
      retry-Outcomes c env r l e v d a (retry_fuel c) 0 w x (sym s ∙ h)
]

-- Processing a record loses nothing that was there, and its answer is worth what it says.
pub process_one-Outcomes :
    (c : Consumer) (env : OneEnv) (r : KRecord) (w : World) (x : Bool × World)
    → FateLaws env.produce
    → process_one c env r w ≡ some x
    → Outcomes c r w x
process_one-Outcomes c env r w x l h = elim (Result-cases (decode c.codec (value_of r))) [
  | inr (z, a) ↦
      let s : process_one c env r w
          ≡ some (refuse c env r (position_id_of c r) "decode" 0 (from_event z) w) =
        unfold process_one in ground (arith, a) in
      rw (same_answer h s) (
        refuse-Outcomes c env r (position_id_of c r) "decode" 0 (from_event z) w w l
          (rw (a, refused_id) refl) (Grows-refl c.store w))
  | inl (e, a) ↦ elim (Bool-cases (is_known_event_type e)) [
    | inl k ↦
        let s : process_one c env r w ≡ process_payload c env r e w =
          unfold process_one in ground (arith, a, k) in
        process_payload-Outcomes c env r e w x l a (sym s ∙ h)
    | inr k ↦
        let s : process_one c env r w
            ≡ some (refuse c env r e.event_id "unknown_version" 0 (unknown_type e) w) =
          unfold process_one in ground (arith, a, k) in
        rw (same_answer h s) (
          refuse-Outcomes c env r e.event_id "unknown_version" 0 (unknown_type e) w w l
            (rw (a, refused_id) refl) (Grows-refl c.store w))
  ]
]

-- When an acknowledged produce has been written, then whatever else the database, the bus and the
-- brokers do: if processOne answers that it is finished with a record, the event is recorded by the
-- sink, or the record's own bytes are on the dead-letter topic and its refusal waits in dead_letters.
pub process_one-IsHandled :
    (c : Consumer) (env : OneEnv) (r : KRecord) (w : World) (x : Bool × World)
    → FateLaws env.produce
    → process_one c env r w ≡ some x
    → x.0 ≡ true
    → IsHandled c r x.1
process_one-IsHandled c env r w x l h t = (process_one-Outcomes c env r w x l h).handled t
