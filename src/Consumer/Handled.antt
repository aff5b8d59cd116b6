-- ===== src/Consumer/Handled.antt =====
-- No event is lost: a record that processOne finishes with is recorded by the sink, or its bytes are
-- on the dead-letter topic and its refusal waits in dead_letters.
use event_stream_platform.Prelude.{
  ℕ, ◌≡◌, refl, sym, ◌∙◌, ap, inl, inr, String, Bool, true, false, some, List, [], ◌∷◌, arith,
  str_eq, Holds, here, Holds-append_right, Option-cases, Result, ok, err, Result-cases,
}
use event_stream_platform.Event.Types.{Bytes, Envelope, VehiclePosition}
use event_stream_platform.Event.Accept.{decode, as_vehicle_position}
use event_stream_platform.Broker.{
  LogRecord, Fate, FateLaws, Record, produce, written, failed, wire, sort_headers,
}
use event_stream_platform.Sink.Apply.{Store}
use event_stream_platform.Sink.Once.{IsRecorded}
use event_stream_platform.Sink.DeadLetters.{DeadLetter, DeadLetterError, record_dead_letter}
use event_stream_platform.Sink.Refusals.{IsDead, record_dead_letter-IsDead}
use event_stream_platform.Consumer.State.{KRecord, Consumer, Failure, World, OneEnv}
use event_stream_platform.Consumer.Refuse.{
  Copies, dead_letter, dead_letter_payload, refuse, dead_letter_of,
}
use event_stream_platform.Consumer.One.{input_of, value_of, position_id_of}
use event_stream_platform.Consumer.Grows.{
  Keeps, Keeps-refl, Keeps-trans, Grows, Grows-trans, refuse-Grows,
}

-- The copy of a record on the dead-letter topic.
abbrev pub copy_of : Consumer → KRecord → Bytes → LogRecord
copy_of c r payload = record { topic = c.dlq_topic; key = r.key; value = payload; headers = [] }

-- A refusal on record: the row and the copy with the record's own bytes.
pub record IsRefused (c : Consumer) (r : KRecord) (event_id : String) (w : World) : Type 0 where
  pub row : IsDead c.store event_id w.db
  pub payload : Bytes
  pub bytes : r.value ≡ some payload
  pub copied : Holds (copy_of c r payload) w.log

produce_one :
    (topic : String) (fate : ℕ → Fate) (rec : Record) (log : List LogRecord) (u : Unit {0})
    → FateLaws fate
    → (produce topic fate (rec ∷ []) log).0 ≡ ok u
    → Holds (wire topic rec) (produce topic fate (rec ∷ []) log).1
unfolding produce failed written
produce_one topic fate rec log u l h =
    let a : (fate 0).is_acknowledged ≡ true = ground arith in
    let b = l.acknowledged 0 a in
    let n : str_eq topic "" ≡ false = ground arith in
    rw (n, b) (Holds-append_right (wire topic rec) log _ (here refl))

-- The two copies that a reported refusal has left.
abbrev Both : Consumer → DeadLetter → Bytes → Copies → Type 0
Both c dl payload w =
    Holds (record { topic = c.dlq_topic; key = dl.key; value = payload; headers = [] }) w.log
    × IsDead c.store dl.event_id w.db

dead_letter_payload-Both :
    (c : Consumer) (env : OneEnv) (dl : DeadLetter) (payload : Bytes) (w : Copies) (u : Unit {0})
    → FateLaws env.produce
    → (dead_letter_payload c env dl payload w).0 ≡ ok u
    → Both c dl payload (dead_letter_payload c env dl payload w).1
dead_letter_payload-Both c env dl payload w u l h =
    let rec : Record = record { key = dl.key; value = payload; headers = [] } in
    elim (Result-cases (produce c.dlq_topic env.produce (rec ∷ []) w.log).0) [
      | inr (e, q) ↦ absurd (unfold dead_letter_payload in ground (arith, q))
      | inl (v, q) ↦
          let same : dead_letter_payload c env dl payload w ≡ (
            (record_dead_letter c.store env.refusal dl w.db).0,
            record {
              log = (produce c.dlq_topic env.produce (rec ∷ []) w.log).1;
              db = (record_dead_letter c.store env.refusal dl w.db).1;
            },
          ) =
            unfold dead_letter_payload in ground (arith, q) in
          let plain : wire c.dlq_topic rec
              ≡ record { topic = c.dlq_topic; key = dl.key; value = payload; headers = [] } =
            unfold wire sort_headers in refl in
          let logged : Holds (wire c.dlq_topic rec)
              (produce c.dlq_topic env.produce (rec ∷ []) w.log).1 =
            produce_one c.dlq_topic env.produce rec w.log v l q in
          rw same (
            (rw (sym plain) logged),
            record_dead_letter-IsDead c.store env.refusal dl w.db u
                (ap (λ (x : Result DeadLetterError (Unit {0}) × Copies). x.0) (sym same) ∙ h),
          )
    ]

dead_letter-Both :
    (c : Consumer) (env : OneEnv) (dl : DeadLetter) (w : Copies) (u : Unit {0})
    → FateLaws env.produce
    → (dead_letter c env dl w).0 ≡ ok u
    → (payload : Bytes) × ((dl.payload ≡ some payload)
        × Both c dl payload (dead_letter c env dl w).1)
dead_letter-Both c env dl w u l h = elim (Option-cases dl.payload) [
  | inl n ↦ absurd (unfold dead_letter in ground (arith, n))
  | inr (p, e) ↦
      let same : dead_letter c env dl w ≡ dead_letter_payload c env dl p w =
        unfold dead_letter in ground (arith, e) in
      (
        p,
        (
          e,
          rw same (
              dead_letter_payload-Both c env dl p w u l
                (ap (λ (x : Result DeadLetterError (Unit {0}) × Copies). x.0) (sym same) ∙ h)),
        ),
      )
]

-- A refusal that is reported as recorded has left both copies.
pub refuse-IsRefused :
    (c : Consumer) (env : OneEnv) (r : KRecord) (event_id reason : String) (attempts : ℕ)
    (cause : Failure) (w : World)
    → FateLaws env.produce
    → (refuse c env r event_id reason attempts cause w).0 ≡ true
    → IsRefused c r event_id (refuse c env r event_id reason attempts cause w).1
refuse-IsRefused c env r event_id reason attempts cause w l h =
    let dl = dead_letter_of c r event_id reason attempts cause in
    let start : Copies = record { log = w.log; db = w.db } in
    elim (Result-cases (dead_letter c env dl start).0) [
      | inr (e, q) ↦ absurd (unfold refuse in ground (arith, q))
      | inl (u, q) ↦
          let (payload, (value, (logged, row))) = dead_letter-Both c env dl start u l q in
          let db : (refuse c env r event_id reason attempts cause w).1.db
              ≡ (dead_letter c env dl start).1.db =
            unfold refuse in ground (arith, q) in
          let log : (refuse c env r event_id reason attempts cause w).1.log
              ≡ (dead_letter c env dl start).1.log =
            unfold refuse in ground (arith, q) in
          record { row = rw db row; payload = payload; bytes = value; copied = rw log logged }
    ]

-- The identifier that a refusal of the record is kept under: the event's own, if the value decodes to
-- an envelope, and else that of its position in the log.
abbrev pub refused_id : Consumer → KRecord → String
refused_id c r = elim (decode c.codec (value_of r)) [
  | err x ↦ position_id_of c r
  | ok e ↦ e.event_id
]

-- The event is recorded by the sink, or the record is refused on record.
pub data IsHandled (c : Consumer) (r : KRecord) (w : World) : Type 0 where
  recorded :
      (e : Envelope) (v : VehiclePosition)
      → decode c.codec (value_of r) ≡ ok e
      → as_vehicle_position c.codec e ≡ ok v
      → IsRecorded c.store (input_of e v r) w.db
      → IsHandled c r w
  refused : IsRefused c r (refused_id c r) w → IsHandled c r w

-- A later world, whatever has been committed since.
pub record Later (s : Store) (w w' : World) : Type 0 where
  pub db : Keeps s w.db w'.db
  pub log : (x : LogRecord) → Holds x w.log → Holds x w'.log

pub Later-refl : (s : Store) (w : World) → Later s w w
Later-refl s w = record { db = Keeps-refl s w.db; log = λ x h. h }

pub Later-trans : {s : Store} {a b c : World} → Later s a b → Later s b c → Later s a c
Later-trans p q = record { db = Keeps-trans p.db q.db; log = λ x h. q.log x (p.log x h) }

pub IsHandled-Later :
    (c : Consumer) (r : KRecord) (w w' : World)
    → Later c.store w w'
    → IsHandled c r w
    → IsHandled c r w'
IsHandled-Later c r w w' g (recorded e v d a h) =
    recorded e v d a (g.db.recorded (input_of e v r) h)
IsHandled-Later c r w w' g (refused h) = refused (record {
  row = g.db.refused (refused_id c r) h.row;
  payload = h.payload;
  bytes = h.bytes;
  copied = g.log (copy_of c r h.payload) h.copied;
})

-- What processOne's answer stands for.
pub record Outcomes (c : Consumer) (r : KRecord) (w : World) (x : Bool × World) : Type 0 where
  pub grows : Grows c.store w x.1
  pub handled : x.0 ≡ true → IsHandled c r x.1

pub refuse-Outcomes :
    (c : Consumer) (env : OneEnv) (r : KRecord) (id reason : String) (attempts : ℕ)
    (cause : Failure) (w w' : World)
    → FateLaws env.produce
    → refused_id c r ≡ id
    → Grows c.store w w'
    → Outcomes c r w (refuse c env r id reason attempts cause w')
refuse-Outcomes c env r id reason attempts cause w w' l same g = record {
  grows = Grows-trans g (refuse-Grows c env r id reason attempts cause w');
  handled = λ h. refused (rw same (refuse-IsRefused c env r id reason attempts cause w' l h));
}
