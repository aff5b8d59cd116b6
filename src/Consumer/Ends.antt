-- ===== src/Consumer/Ends.antt =====
-- What becomes of one record: processOne ends, and a record that it finishes with is applied or
-- refused on record.
use event_stream_platform.Prelude.{
  ℕ, zero, suc, ◌+◌, ◌≤◌, ◌<◌, ◌≡◌, ◌∙◌, inl, inr, String, Bool, true, false, some, arith,
  Bool-cases, ok, Result-cases,
}
use event_stream_platform.Prelude.Int.{ℤ, pos, negsuc, ltb_ℤ, pos_part}
use event_stream_platform.Event.Types.{Envelope, VehiclePosition}
use event_stream_platform.Event.Validate.{is_known_event_type}
use event_stream_platform.Event.Accept.{decode, as_vehicle_position}
use event_stream_platform.Sink.Transaction.{DbError}
use event_stream_platform.Sink.Apply.{Outcome, apply}
use event_stream_platform.Consumer.State.{
  KRecord, Consumer, World, OneEnv, from_database, from_event, unknown_type,
}
use event_stream_platform.Consumer.Backoff.{is_permanent}
use event_stream_platform.Consumer.Refuse.{refuse}
use event_stream_platform.Consumer.One.{
  input_of, announce, counted_retry, retry, retry_fuel, process_payload, process_one, value_of,
  position_id_of,
}

within_fuel : (top : ℤ) (n : ℕ) → ltb_ℤ top (pos n) ≡ false → n ≤ pos_part top
within_fuel (pos m) n h = ground arith
within_fuel (negsuc m) n h = ground arith

module _ (fuel : ℕ) (c : Consumer) (env : OneEnv) (r : KRecord) (e : Envelope) (v : VehiclePosition)
    (attempts : ℕ) (w : World) where
  -- The world after the transaction of the next attempt.
  abbrev pub tried : World
  tried = record w { db = (apply c.store (env.tries (attempts + 1)) (input_of e v r) w.db).1 }

  -- What one attempt leads to.
  pub data Attempt : Type 0 where
    commits :
        (o : Outcome)
        → (apply c.store (env.tries (attempts + 1)) (input_of e v r) w.db).0 ≡ ok o
        → retry (suc fuel) c env r e v attempts w ≡ some (true, announce c env e v o tried)
        → Attempt
    refuses :
        (x : DbError) (reason : String)
        → retry (suc fuel) c env r e v attempts w
          ≡ some (refuse c env r e.event_id reason (attempts + 1) (from_database x) tried)
        → Attempt
    stops : retry (suc fuel) c env r e v attempts w ≡ some (false, counted_retry tried) → Attempt
    waits :
        ltb_ℤ c.options.max_retries (pos (attempts + 1)) ≡ false
        → retry (suc fuel) c env r e v attempts w
          ≡ retry fuel c env r e v (attempts + 1) (counted_retry tried)
        → Attempt

  pub retry-Attempt : Attempt
  unfolding retry
  retry-Attempt =
      elim (Result-cases (apply c.store (env.tries (attempts + 1)) (input_of e v r) w.db).0) [
        | inl (o, a) ↦ commits o a (ground (arith, a))
        | inr (x, a) ↦ elim (Bool-cases (is_permanent x)) [
          | inl p ↦ refuses x "decode" (ground (arith, a, p))
          | inr p ↦ elim (Bool-cases (ltb_ℤ c.options.max_retries (pos (attempts + 1)))) [
            | inl q ↦ refuses x "retries_exhausted" (ground (arith, a, p, q))
            | inr q ↦ elim (Bool-cases (env.is_cancelled (attempts + 1))) [
              | inl k ↦ stops (ground (arith, a, p, q, k))
              | inr k ↦ waits q (ground (arith, a, p, q, k))
            ]
          ]
        ]
      ]

-- With fuel for the retries that are left the loop of processOne ends.
pub retry_total :
    (fuel : ℕ) (c : Consumer) (env : OneEnv) (r : KRecord) (e : Envelope) (v : VehiclePosition)
    (attempts : ℕ) (w : World)
    → attempts ≤ pos_part c.options.max_retries
    → pos_part c.options.max_retries < attempts + fuel
    → (x : Bool × World) × (retry fuel c env r e v attempts w ≡ some x)
retry_total zero c env r e v attempts w b h = absurd (omega arith)
retry_total (suc fuel) c env r e v attempts w b h =
    elim (retry-Attempt fuel c env r e v attempts w) [
      | commits o a s ↦ (_, s)
      | refuses x reason s ↦ (_, s)
      | stops s ↦ (_, s)
      | waits q s ↦
          let (y, more) =
            retry_total fuel c env r e v (attempts + 1)
              (counted_retry (tried fuel c env r e v attempts w))
              (within_fuel c.options.max_retries (attempts + 1) q) (omega arith) in
          (y, s ∙ more)
    ]

process_payload_total :
    (c : Consumer) (env : OneEnv) (r : KRecord) (e : Envelope) (w : World)
    → (x : Bool × World) × (process_payload c env r e w ≡ some x)
process_payload_total c env r e w = elim (Result-cases (as_vehicle_position c.codec e)) [
  | inr (x, a) ↦ (
    refuse c env r e.event_id "decode" 0 (from_event x) w,
    unfold process_payload in ground (arith, a),
  )
  | inl (v, a) ↦
      let (y, more) = retry_total (retry_fuel c) c env r e v 0 w (omega arith) (omega arith) in
      (y, unfold process_payload in ground (arith, a, more))
]

-- processOne ends on every record, whatever the world does: the fuel of MaxRetries + 1 attempts (one,
-- if MaxRetries is negative) is enough.
pub process_one_total :
    (c : Consumer) (env : OneEnv) (r : KRecord) (w : World)
    → (x : Bool × World) × (process_one c env r w ≡ some x)
process_one_total c env r w = elim (Result-cases (decode c.codec (value_of r))) [
  | inr (x, a) ↦ (
    refuse c env r (position_id_of c r) "decode" 0 (from_event x) w,
    unfold process_one in ground (arith, a),
  )
  | inl (e, a) ↦ elim (Bool-cases (is_known_event_type e)) [
    | inl k ↦
        let (y, more) = process_payload_total c env r e w in
        (y, unfold process_one in ground (arith, a, k, more))
    | inr k ↦ (
      refuse c env r e.event_id "unknown_version" 0 (unknown_type e) w,
      unfold process_one in ground (arith, a, k),
    )
  ]
]
