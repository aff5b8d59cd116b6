-- ===== src/Sink/Refusals.antt =====
-- What a recorded refusal leaves in dead_letters.
use event_stream_platform.Prelude.{
  ℕ, ◌≡◌, refl, ◌∙◌, ap, ◌↔◌, ◌⊎◌, inl, inr, String, true, Option, none, some, List, [], ◌∷◌, ◌++◌,
  arith, ◌==◌, str_eq, if◌then◌else◌, ==_iff, Bool-cases, Option-cases, ok, Result-cases,
}
use event_stream_platform.Sink.Tables.{Db, DeadRow, DeadReason, dead, find, update}
use event_stream_platform.Sink.Transaction.{TxEnv}
use event_stream_platform.Sink.Apply.{Store}
use event_stream_platform.Sink.Rows.{find-append}
use event_stream_platform.Sink.Consistent.{in_tx-Changes}
use event_stream_platform.Sink.DeadLetters.{
  DeadLetter, is_dead_letter, refused_again, upsert_dead_letter, dead_row, dead_letter_body,
  record_dead_letter,
}

find-update_dead :
    (id j : ℕ) (f : DeadRow → DeadRow) (rows : List DeadRow)
    → ((r : DeadRow) → (f r).event_id ≡ r.event_id)
    → find (is_dead_letter j) (update (is_dead_letter id) f rows) ≡ (
        if id == j
        then elim (find (is_dead_letter j) rows) [ none ↦ none | some r ↦ some (f r) ]
        else find (is_dead_letter j) rows)
find-update_dead id j f [] k = ground arith
find-update_dead id j f (r ∷ rows) k = ground (arith, find-update_dead id j f rows k, k r)

-- The row of one identifier after the refusal of `row`.
abbrev pub refusal : ℕ → Option DeadRow → DeadRow → DeadRow
refusal now none row = row
refusal now (some old) row = refused_again now row.error row.reason row.attempts old

refused_again-event_id :
    (now : ℕ) (error : String) (reason : DeadReason) (attempts : ℕ) (r : DeadRow)
    → (refused_again now error reason attempts r).event_id ≡ r.event_id
unfolding refused_again
refused_again-event_id now error reason attempts r = refl

same_find :
    (i j : ℕ) (rows : List DeadRow)
    → (i == j) ≡ true
    → find (is_dead_letter i) rows ≡ find (is_dead_letter j) rows
same_find i j rows h = ap (λ x. find (is_dead_letter x) rows) ((==_iff i j).0 h)

pub find-upsert_dead_letter :
    (env : TxEnv) (row : DeadRow) (rows rows' : List DeadRow) (j : ℕ)
    → upsert_dead_letter env row rows ≡ ok rows'
    → find (is_dead_letter j) rows' ≡ (
        if row.event_id == j
        then some (refusal env.now (find (is_dead_letter j) rows) row)
        else find (is_dead_letter j) rows)
find-upsert_dead_letter env row rows rows' j h =
    elim (Option-cases (find (is_dead_letter row.event_id) rows)) [
      | inl n ↦
          let e : rows' ≡ rows ++ row ∷ [] = unfold upsert_dead_letter in ground (arith, n) in
          rw (e, find-append (is_dead_letter j) rows row)
            (ground (arith, n, same_find row.event_id j rows))
      | inr (old, y) ↦
          let e : rows'
              ≡ update (is_dead_letter row.event_id)
                  (refused_again env.now row.error row.reason row.attempts) rows =
            unfold upsert_dead_letter in ground (arith, y) in
          rw
            (
              e,
              find-update_dead row.event_id j
                  (refused_again env.now row.error row.reason row.attempts) rows
                  (refused_again-event_id env.now row.error row.reason row.attempts),
            )
            (ground (arith, y, same_find row.event_id j rows))
    ]

-- The event waits in dead_letters: under its uuid there is a row in the state `dead`.
pub record IsDead (s : Store) (event_id : String) (db : Db) : Type 0 where
  pub id : ℕ
  pub reads : s.postgres.uuid event_id ≡ ok id
  pub row : DeadRow
  pub present : find (is_dead_letter id) db.dead_letters ≡ some row
  pub waiting : row.state ≡ dead

-- A row is dead exactly as long as it has no time of replay: the CHECK of migration 0001.
abbrev pub IsReplayConsistent : DeadRow → Type 0
IsReplayConsistent r = (r.state ≡ dead) ↔ (r.replayed_at ≡ none)

-- The steps of a recorded refusal.
pub record Refused (s : Store) (env : TxEnv) (dl : DeadLetter) (db db' : Db) : Type 0 where
  pub row : DeadRow
  pub rows : List DeadRow
  pub converted : dead_row s env dl ≡ ok row
  pub upserted : upsert_dead_letter env row db.dead_letters ≡ ok rows
  pub result : db' ≡ record db { dead_letters = rows }

pub dead_letter_body-Refused :
    (s : Store) (env : TxEnv) (dl : DeadLetter) (db db' : Db) (u : Unit {0})
    → dead_letter_body s env dl db ≡ ok (u, db')
    → Refused s env dl db db'
dead_letter_body-Refused s env dl db db' u h = elim (Result-cases (dead_row s env dl)) [
  | inr (e, x) ↦ absurd (unfold dead_letter_body in ground (arith, x))
  | inl (row, x) ↦ elim (Result-cases (upsert_dead_letter env row db.dead_letters)) [
    | inr (e, y) ↦ absurd (unfold dead_letter_body in ground (arith, x, y))
    | inl (rows, y) ↦ record {
      row = row;
      rows = rows;
      converted = x;
      upserted = y;
      result = unfold dead_letter_body in ground (arith, x, y);
    }
  ]
]

-- RecordDeadLetter records the refusal or leaves the database as it was.
pub record_dead_letter-atomic :
    (s : Store) (env : TxEnv) (dl : DeadLetter) (db : Db)
    → ((record_dead_letter s env dl db).1 ≡ db)
      ⊎ Refused s env dl db (record_dead_letter s env dl db).1
record_dead_letter-atomic s env dl db = elim (in_tx-Changes env (dead_letter_body s env dl) db) [
  | inl same ↦ inl (unfold record_dead_letter in ground (arith, same))
  | inr (u, db', b, e) ↦ elim (Bool-cases (str_eq dl.event_id "")) [
    | inl n ↦ inl (unfold record_dead_letter in ground (arith, n))
    | inr n ↦
        let f : (record_dead_letter s env dl db).1 ≡ db' =
          unfold record_dead_letter in ground (arith, n, e) in
        inr (rw f (dead_letter_body-Refused s env dl db db' u b))
  ]
]

pub record_dead_letter-Refused :
    (s : Store) (env : TxEnv) (dl : DeadLetter) (db : Db) (u : Unit {0})
    → (record_dead_letter s env dl db).0 ≡ ok u
    → Refused s env dl db (record_dead_letter s env dl db).1
record_dead_letter-Refused s env dl db u h = elim (Result-cases (dead_letter_body s env dl db)) [
  | inr (e, b) ↦ absurd (unfold record_dead_letter in ground (arith, b))
  | inl (r, b) ↦
      let f : (record_dead_letter s env dl db).1 ≡ r.1 =
        unfold record_dead_letter in ground (arith, b) in
      rw f (dead_letter_body-Refused s env dl db r.1 r.0 b)
]

pub dead_row-fields :
    (s : Store) (env : TxEnv) (dl : DeadLetter) (row : DeadRow)
    → dead_row s env dl ≡ ok row
    → (s.postgres.uuid dl.event_id ≡ ok row.event_id)
      × (row.state ≡ dead)
      × (row.replayed_at ≡ none)
      × (row.attempts ≡ dl.attempts)
      × (dl.payload ≡ some row.raw_payload)
unfolding dead_row
dead_row-fields s env dl row h = ground arith

refusal-dead :
    (now : ℕ) (o : Option DeadRow) (row : DeadRow)
    → row.state ≡ dead
    → row.replayed_at ≡ none
    → ((refusal now o row).state ≡ dead) × ((refusal now o row).replayed_at ≡ none)
unfolding refused_again
refusal-dead now none row d n = (d, n)
refusal-dead now (some old) row d n = (refl, refl)

-- A refusal that RecordDeadLetter reports as recorded waits in dead_letters, also if the event had
-- been replayed before.
pub record_dead_letter-IsDead :
    (s : Store) (env : TxEnv) (dl : DeadLetter) (db : Db) (u : Unit {0})
    → (record_dead_letter s env dl db).0 ≡ ok u
    → IsDead s dl.event_id (record_dead_letter s env dl db).1
record_dead_letter-IsDead s env dl db u h =
    let r = record_dead_letter-Refused s env dl db u h in
    let f = dead_row-fields s env dl r.row r.converted in
    record {
      id = r.row.event_id;
      reads = f.0;
      row = refusal env.now (find (is_dead_letter r.row.event_id) db.dead_letters) r.row;
      present = rw r.result (
          find-upsert_dead_letter env r.row db.dead_letters r.rows r.row.event_id r.upserted
          ∙ ground arith);
      waiting = (refusal-dead env.now _ r.row f.1 f.2).0;
    }

-- Recording a refusal touches no other table.
pub record_dead_letter-others :
    (s : Store) (env : TxEnv) (dl : DeadLetter) (db : Db)
    → record (record_dead_letter s env dl db).1 { dead_letters = [] }
      ≡ record db { dead_letters = [] }
record_dead_letter-others s env dl db = elim (record_dead_letter-atomic s env dl db) [
  | inl same ↦ rw same
  | inr r ↦ rw r.result
]

IsDead-upsert :
    (s : Store) (env : TxEnv) (dl : DeadLetter) (id : String) (db db' : Db)
    → Refused s env dl db db'
    → IsDead s id db
    → IsDead s id db'
IsDead-upsert s env dl id db db' r d =
    let f = dead_row-fields s env dl r.row r.converted in
    let found : find (is_dead_letter d.id) r.rows ≡ (
        if r.row.event_id == d.id
        then some (refusal env.now (find (is_dead_letter d.id) db.dead_letters) r.row)
        else find (is_dead_letter d.id) db.dead_letters) =
      find-upsert_dead_letter env r.row db.dead_letters r.rows d.id r.upserted in
    elim (Bool-cases (r.row.event_id == d.id)) [
      | inl same ↦ record {
        id = d.id;
        reads = d.reads;
        row = refusal env.now (find (is_dead_letter d.id) db.dead_letters) r.row;
        present = rw r.result (found ∙ ground (arith, same));
        waiting = (refusal-dead env.now _ r.row f.1 f.2).0;
      }
      | inr differs ↦ record {
        id = d.id;
        reads = d.reads;
        row = d.row;
        present = rw r.result (found ∙ ground (arith, differs, d.present));
        waiting = d.waiting;
      }
    ]

-- What waits in dead_letters goes on waiting when another refusal is recorded.
pub IsDead-record_dead_letter :
    (s : Store) (env : TxEnv) (dl : DeadLetter) (id : String) (db : Db)
    → IsDead s id db
    → IsDead s id (record_dead_letter s env dl db).1
IsDead-record_dead_letter s env dl id db d = elim (record_dead_letter-atomic s env dl db) [
  | inl same ↦ rw same d
  | inr r ↦ IsDead-upsert s env dl id db _ r d
]
