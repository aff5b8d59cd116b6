-- ===== src/Replay/Marks.antt =====
-- What a replay does to the dead letters and to the log.
use event_stream_platform.Prelude.{
  ℕ, ◌≡◌, refl, ◌≢◌, ◌⊎◌, inl, inr, String, Bool, true, some, List, [], ◌∷◌, length, arith, ◌==◌,
  if◌then◌else◌, Holds, here, Holds-append_right, Bool-cases, Option-cases, ok, Result-cases,
}
use event_stream_platform.Broker.{LogRecord, Fate, FateLaws, Record, wire, produce}
use event_stream_platform.Broker.Durable.{produce_all}
use event_stream_platform.Sink.Tables.{Db, DeadRow, DeadState, dead, replayed, find, update}
use event_stream_platform.Sink.Transaction.{DbError, TxEnv, CommitFate, commits, rolls_back, lost}
use event_stream_platform.Sink.Apply.{Store}
use event_stream_platform.Sink.DeadLetters.{is_dead_letter, waits}
use event_stream_platform.Replay.Queue.{
  Entry, get, mark, mark_body, mark_replayed, is_waiting, touches,
}
use event_stream_platform.Replay.Replayer.{
  ReplayEnv, Depot, replay, replay_entry, publish_entry, mark_entry, replay_record,
}

-- The row that waits under a uuid is gone after the update, and has become a replayed one.
pub update-waiting :
    (id now : ℕ) (rows : List DeadRow) (old : DeadRow)
    → find (is_dead_letter id) rows ≡ some old
    → find (is_dead_letter id) (update (is_waiting id) (mark now) rows)
      ≡ (if waits old then some (mark now old) else some old)
update-waiting id now [] old h = absurd (ground arith)
update-waiting id now (r ∷ rows) old h = elim (Bool-cases (is_dead_letter id r)) [
  | inl q ↦ ground (arith, q)
  | inr q ↦ ground (arith, q, update-waiting id now rows old (ground (arith, q)))
]

Fate-cases :
    (c : CommitFate)
    → (c ≡ commits) ⊎ ((x : DbError) × (c ≡ rolls_back x)) ⊎ ((x : DbError) × (c ≡ lost x))
Fate-cases commits = inl refl
Fate-cases (rolls_back x) = inr (inl (x, refl))
Fate-cases (lost x) = inr (inr (x, refl))

-- The outcomes of MarkReplayed.
pub data Marking (s : Store) (env : TxEnv) (event_id : String) (db : Db) : Type 0 where
  unchanged :
      (mark_replayed s env event_id db).1 ≡ db
      → (mark_replayed s env event_id db).0 ≢ ok true
      → Marking s env event_id db
  marked :
      (id : ℕ)
      → s.postgres.uuid event_id ≡ ok id
      → (mark_replayed s env event_id db).1
        ≡ record db { dead_letters = update (is_waiting id) (mark env.now) db.dead_letters }
      → ((mark_replayed s env event_id db).0 ≡ ok true
          → touches (find (is_waiting id) db.dead_letters) ≡ true)
      → Marking s env event_id db

pub mark_replayed-Marking :
    (s : Store) (env : TxEnv) (event_id : String) (db : Db) → Marking s env event_id db
mark_replayed-Marking s env event_id db = elim (Result-cases (s.postgres.uuid event_id)) [
  | inr (x, u) ↦
      unchanged (unfold mark_replayed mark_body in ground (arith, u))
        (unfold mark_replayed mark_body in ground (arith, u))
  | inl (id, u) ↦ elim (Option-cases (env.fault 0)) [
    | inr (x, f) ↦
        unchanged (unfold mark_replayed mark_body in ground (arith, u, f))
          (unfold mark_replayed mark_body in ground (arith, u, f))
    | inl f ↦ elim (Option-cases env.begin_fault) [
      | inr (x, b) ↦
          unchanged (unfold mark_replayed mark_body in ground (arith, u, f, b))
            (unfold mark_replayed mark_body in ground (arith, u, f, b))
      | inl b ↦
          let t : Bool = touches (find (is_waiting id) db.dead_letters) in
          elim (Fate-cases env.commit) [
            | inl c ↦
                marked id u (unfold mark_replayed mark_body in ground (arith, u, f, b, c))
                  (unfold mark_replayed mark_body in ground (arith, u, f, b, c))
            | inr (inl (x, c)) ↦
                unchanged (unfold mark_replayed mark_body in ground (arith, u, f, b, c))
                  (unfold mark_replayed mark_body in ground (arith, u, f, b, c))
            | inr (inr (x, c)) ↦
                marked id u (unfold mark_replayed mark_body in ground (arith, u, f, b, c))
                  (unfold mark_replayed mark_body in ground (arith, u, f, b, c))
          ]
    ]
  ]
]

State-cases : (x : DeadState) → (x ≡ dead) ⊎ (x ≡ replayed)
State-cases dead = inl refl
State-cases replayed = inr refl

-- The ways in which a replay ends: it has changed no table, or it has put the record of the entry it
-- read, which was dead and has a payload, on the log before it touched the row.
pub data Replaying (s : Store) (show : ℕ → String) (env : ReplayEnv) (event_id : String) (w : Depot)
    : Type 0 where
  left : (replay s show env event_id w).1.db ≡ w.db → Replaying s show env event_id w
  sent :
      (e : Entry)
      → get s env.read_fault event_id w.db ≡ ok e
      → e.state ≡ dead
      → Holds (wire e.topic (replay_record show e)) (replay s show env event_id w).1.log
      → (replay s show env event_id w).1.db
        ≡ (mark_replayed s env.tx event_id (env.meanwhile w.db)).1
      → Replaying s show env event_id w

sent_record :
    (topic : String) (fate : ℕ → Fate) (rec : Record) (log : List LogRecord) (u : Unit {0})
    → FateLaws fate
    → (produce topic fate (rec ∷ []) log).0 ≡ ok u
    → Holds (wire topic rec) (produce topic fate (rec ∷ []) log).1
sent_record topic fate rec log u l h =
    rw (produce_all topic fate (rec ∷ []) log u l h)
      (Holds-append_right (wire topic rec) log _ (here refl))

mark_entry-kept :
    (s : Store) (env : ReplayEnv) (event_id : String) (e : Entry) (w : Depot)
    → ((mark_entry s env event_id e w).1.log ≡ w.log)
      × ((mark_entry s env event_id e w).1.db
          ≡ (mark_replayed s env.tx event_id (env.meanwhile w.db)).1)
mark_entry-kept s env event_id e w =
    elim (Result-cases (mark_replayed s env.tx event_id (env.meanwhile w.db)).0) [
      | inl (m, q) ↦
          (unfold mark_entry in ground (arith, q), unfold mark_entry in ground (arith, q))
      | inr (x, q) ↦
          (unfold mark_entry in ground (arith, q), unfold mark_entry in ground (arith, q))
    ]

-- When an acknowledged record has been written: a replay changes the tables only after it has read an
-- entry in the state dead and put its record, under its provenance headers, on the topic that the
-- entry came from; and then only by MarkReplayed.
pub replay-Replaying :
    (s : Store) (show : ℕ → String) (env : ReplayEnv) (event_id : String) (w : Depot)
    → FateLaws env.produce
    → Replaying s show env event_id w
replay-Replaying s show env event_id w l =
    elim (Result-cases (get s env.read_fault event_id w.db)) [
      | inr (x, g) ↦ left (unfold replay in ground (arith, g))
      | inl (e, g) ↦
          let same : replay s show env event_id w ≡ replay_entry s show env event_id e w =
            unfold replay in ground (arith, g) in
          elim (State-cases e.state) [
            | inr q ↦ left (unfold replay replay_entry in ground (arith, g, q))
            | inl q ↦ elim (Bool-cases (length e.payload == 0)) [
              | inl z ↦ left (unfold replay replay_entry in ground (arith, g, q, z))
              | inr z ↦
                  let rec = replay_record show e in
                  elim (Result-cases (produce e.topic env.produce (rec ∷ []) w.log).0) [
                    | inr (x, p) ↦
                        left
                          (unfold replay replay_entry publish_entry in ground (arith, g, q, z, p))
                    | inl (u, p) ↦
                        let w' : Depot = record {
                          log = (produce e.topic env.produce (rec ∷ []) w.log).1;
                          db = w.db;
                        } in
                        let step : replay s show env event_id w ≡ mark_entry s env event_id e w' =
                          unfold replay replay_entry publish_entry in ground (arith, g, q, z, p) in
                        let k = mark_entry-kept s env event_id e w' in
                        sent e g q
                          (rw (step, k.0) (sent_record e.topic env.produce rec w.log u l p))
                          (rw step k.1)
                  ]
            ]
          ]
    ]
