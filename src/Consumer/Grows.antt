-- ===== src/Consumer/Grows.antt =====
-- What processing never undoes: nothing recorded, refused or logged is lost, and the tables stay
-- consistent.
use event_stream_platform.Prelude.{
  ℕ, ◌≡◌, refl, ◌∙◌, ap, inl, inr, String, List, [], ◌∷◌, arith, str_eq, Holds, Holds-append,
  Bool-cases, Option-cases, Result-cases,
}
use event_stream_platform.Event.Types.{Bytes, Envelope, VehiclePosition}
use event_stream_platform.Broker.{LogRecord, Fate, Record, produce}
use event_stream_platform.Sink.Tables.{Db}
use event_stream_platform.Sink.Transaction.{TxEnv}
use event_stream_platform.Sink.Apply.{Store, Input, Outcome, applied, duplicate, late, apply}
use event_stream_platform.Sink.History.{IsConsistent}
use event_stream_platform.Sink.Consistent.{
  apply-IsConsistent, dead_letters-apply, IsConsistent-others,
}
use event_stream_platform.Sink.Once.{IsRecorded, IsRecorded-apply}
use event_stream_platform.Sink.DeadLetters.{DeadLetter, record_dead_letter}
use event_stream_platform.Sink.Refusals.{
  IsDead, IsDead-record_dead_letter, record_dead_letter-others,
}
use event_stream_platform.Consumer.State.{KRecord, Consumer, Failure, World, OneEnv}
use event_stream_platform.Consumer.Refuse.{
  Copies, dead_letter, dead_letter_payload, refuse, dead_letter_of,
}
use event_stream_platform.Consumer.One.{announce, publish}

-- The later database, over a store.
pub record Keeps (s : Store) (db db' : Db) : Type 0 where
  pub recorded : (i : Input) → IsRecorded s i db → IsRecorded s i db'
  pub refused : (id : String) → IsDead s id db → IsDead s id db'
  pub consistent : IsConsistent db → IsConsistent db'

pub Keeps-refl : (s : Store) (db : Db) → Keeps s db db
Keeps-refl s db = record { recorded = λ i h. h; refused = λ id h. h; consistent = λ h. h }

pub Keeps-trans : {s : Store} {a b c : Db} → Keeps s a b → Keeps s b c → Keeps s a c
Keeps-trans p q = record {
  recorded = λ i h. q.recorded i (p.recorded i h);
  refused = λ id h. q.refused id (p.refused id h);
  consistent = λ h. q.consistent (p.consistent h);
}

pub apply-Keeps : (s : Store) (env : TxEnv) (i : Input) (db : Db) → Keeps s db (apply s env i db).1
apply-Keeps s env i db = record {
  recorded = λ j h. IsRecorded-apply s env i j db h;
  refused = λ id h. record {
    id = h.id;
    reads = h.reads;
    row = h.row;
    present = rw (dead_letters-apply s env i db) h.present;
    waiting = h.waiting;
  };
  consistent = apply-IsConsistent s env i db;
}

pub record_dead_letter-Keeps :
    (s : Store) (env : TxEnv) (dl : DeadLetter) (db : Db)
    → Keeps s db (record_dead_letter s env dl db).1
record_dead_letter-Keeps s env dl db =
    let others = record_dead_letter-others s env dl db in
    let q : (record_dead_letter s env dl db).1.processed ≡ db.processed =
      ap (λ (x : Db). x.processed) others in
    record {
      recorded = λ j h. record { id = h.id; reads = h.reads; present = rw q h.present };
      refused = λ id h. IsDead-record_dead_letter s env dl id db h;
      consistent = IsConsistent-others db _ others;
    }

-- The later world.
pub record Grows (s : Store) (w w' : World) : Type 0 where
  pub db : Keeps s w.db w'.db
  pub log : (x : LogRecord) → Holds x w.log → Holds x w'.log
  pub commits : w'.commits ≡ w.commits

pub Grows-refl : (s : Store) (w : World) → Grows s w w
Grows-refl s w = record { db = Keeps-refl s w.db; log = λ x h. h; commits = refl }

pub Grows-trans : {s : Store} {a b c : World} → Grows s a b → Grows s b c → Grows s a c
Grows-trans p q = record {
  db = Keeps-trans p.db q.db;
  log = λ x h. q.log x (p.log x h);
  commits = q.commits ∙ p.commits;
}

-- A world that differs in the bus and the counters alone.
abbrev Quiet : World → World → Type 0
Quiet w w' = (w'.db ≡ w.db) × (w'.log ≡ w.log) × (w'.commits ≡ w.commits)

Quiet-Grows : (s : Store) (w w' : World) → Quiet w w' → Grows s w w'
Quiet-Grows s w w' q = record {
  db = rw q.0 (Keeps-refl s w.db);
  log = λ x h. rw q.1 h;
  commits = q.2;
}

publish-Quiet :
    (c : Consumer) (env : OneEnv) (e : Envelope) (v : VehiclePosition) (w : World)
    → Quiet w (publish c env e v w)
unfolding publish
publish-Quiet c env e v w = elim (Bool-cases c.has_publisher) [
  | inl h ↦ (ground (arith, h), ground (arith, h), ground (arith, h))
  | inr h ↦ (ground (arith, h), ground (arith, h), ground (arith, h))
]

pub announce-Quiet :
    (c : Consumer) (env : OneEnv) (e : Envelope) (v : VehiclePosition) (o : Outcome) (w : World)
    → Quiet w (announce c env e v o w)
unfolding announce
announce-Quiet c env e v applied w = publish-Quiet c env e v _
announce-Quiet c env e v duplicate w = (refl, refl, refl)
announce-Quiet c env e v late w = publish-Quiet c env e v _

pub announce-Grows :
    (c : Consumer) (env : OneEnv) (e : Envelope) (v : VehiclePosition) (o : Outcome) (w : World)
    → Grows c.store w (announce c env e v o w)
announce-Grows c env e v o w = Quiet-Grows c.store w _ (announce-Quiet c env e v o w)

pub tried-Grows :
    (s : Store) (env : TxEnv) (i : Input) (w : World)
    → Grows s w (record w { db = (apply s env i w.db).1 })
tried-Grows s env i w = record { db = apply-Keeps s env i w.db; log = λ x h. h; commits = refl }

-- What produce does to the log: it appends.
produce-log :
    (topic : String) (fate : ℕ → Fate) (recs : List Record) (log : List LogRecord) (x : LogRecord)
    → Holds x log
    → Holds x (produce topic fate recs log).1
unfolding produce
produce-log topic fate [] log x h = h
produce-log topic fate (r ∷ rs) log x h = elim (Bool-cases (str_eq topic "")) [
  | inl e ↦ rw e h
  | inr n ↦ rw n (Holds-append x log _ h)
]

-- The dead-letter sink's two copies are additions.
abbrev Copied : Store → Copies → Copies → Type 0
Copied s w w' = Keeps s w.db w'.db × ((x : LogRecord) → Holds x w.log → Holds x w'.log)

dead_letter_payload-Copied :
    (c : Consumer) (env : OneEnv) (dl : DeadLetter) (payload : Bytes) (w : Copies)
    → Copied c.store w (dead_letter_payload c env dl payload w).1
unfolding dead_letter_payload
dead_letter_payload-Copied c env dl payload w =
    let recs : List Record = record { key = dl.key; value = payload; headers = [] } ∷ [] in
    elim (Result-cases (produce c.dlq_topic env.produce recs w.log).0) [
      | inl (u, p) ↦
          rw (p, dead_letter_payload)
            (
              record_dead_letter-Keeps c.store env.refusal dl w.db,
              λ x h. produce-log c.dlq_topic env.produce recs w.log x h,
            )
      | inr (e, p) ↦
          rw (p, dead_letter_payload)
            (Keeps-refl c.store w.db, λ x h. produce-log c.dlq_topic env.produce recs w.log x h)
    ]

dead_letter-Copied :
    (c : Consumer) (env : OneEnv) (dl : DeadLetter) (w : Copies)
    → Copied c.store w (dead_letter c env dl w).1
unfolding dead_letter
dead_letter-Copied c env dl w = elim (Option-cases dl.payload) [
  | inl n ↦
      let same : (dead_letter c env dl w).1 ≡ w = ground (arith, n) in
      rw same (Keeps-refl c.store w.db, λ x h. h)
  | inr (p, e) ↦
      let same : dead_letter c env dl w ≡ dead_letter_payload c env dl p w = ground (arith, e) in
      rw same (dead_letter_payload-Copied c env dl p w)
]

pub refuse-Grows :
    (c : Consumer) (env : OneEnv) (r : KRecord) (event_id reason : String) (attempts : ℕ)
    (cause : Failure) (w : World)
    → Grows c.store w (refuse c env r event_id reason attempts cause w).1
unfolding refuse
refuse-Grows c env r event_id reason attempts cause w =
    let dl = dead_letter_of c r event_id reason attempts cause in
    let start : Copies = record { log = w.log; db = w.db } in
    let k = dead_letter-Copied c env dl start in
    elim (Result-cases (dead_letter c env dl start).0) [
      | inl (u, q) ↦ rw (q, refuse) (record { db = k.0; log = k.1; commits = refl })
      | inr (e, q) ↦ rw (q, refuse) (record { db = k.0; log = k.1; commits = refl })
    ]
