-- ===== src/Sink/Consistent.antt =====
-- Apply keeps the tables consistent, whatever the world does to its transaction.
use event_stream_platform.Prelude.{
  ℕ, ◌≡◌, refl, ◌∙◌, ap, ◌⊎◌, inl, inr, String, true, false, none, List, [], ◌∷◌, ◌++◌,
  length-append, arith, eq_iff, Bool-cases, Option-cases, ok, Result-cases,
}
use event_stream_platform.Sink.Tables.{Db, PositionRow, CurrentRow, find, is_some, empty}
use event_stream_platform.Sink.Transaction.{TxEnv, CommitFate, commits, rolls_back, lost, Tx, in_tx}
use event_stream_platform.Sink.Apply.{
  Store, Input, Outcome, duplicate, outcome_of, current_of, is_vehicle, is_event, insert_position,
  upsert_current, recorded, record_event, apply_body, apply, position_row,
}
use event_stream_platform.Sink.History.{
  processed_ids, newest, newest-append, current_option, IsConsistent,
}
use event_stream_platform.Sink.Rows.{
  has, find-has_event, find-has_position, Distinct-append, find-upsert_current,
  total-upsert_version, processed_ids-append, position_ids-append,
}

-- What a transaction that records an event has found.
pub record Recording (s : Store) (env : TxEnv) (i : Input) (db : Db) (row : PositionRow)
    (outcome : Outcome) : Type 0 where
  pub id : s.postgres.uuid i.envelope.event_id ≡ ok row.event_id
  pub is_new : is_some (find (is_event row.event_id) db.processed) ≡ false
  pub converted : position_row s env.now i row.event_id ≡ ok row
  pub outcome_is : outcome ≡ outcome_of (upsert_current (current_of row) db.current).0

-- The body of the transaction either finds the event recorded and changes nothing, or records it.
abbrev pub Body : Store → TxEnv → Input → Db → Outcome → Db → Type 0
Body s env i db outcome db' =
    ((outcome ≡ duplicate)
      × (db' ≡ db)
      × ((id : ℕ) × (s.postgres.uuid i.envelope.event_id ≡ ok id)
          × (is_some (find (is_event id) db.processed) ≡ true)))
    ⊎ ((row : PositionRow) × Recording s env i db row outcome × (db' ≡ recorded s env.now i row db))

pub position_row-event_id :
    (s : Store) (now : ℕ) (i : Input) (id : ℕ) (row : PositionRow)
    → position_row s now i id ≡ ok row
    → row.event_id ≡ id
unfolding position_row
position_row-event_id s now i id row h = ground arith

pub position_row-keeps :
    (s : Store) (now : ℕ) (i : Input) (id : ℕ) (row : PositionRow)
    → position_row s now i id ≡ ok row
    → (row.vehicle_id ≡ i.position.vehicle_id)
      × (row.event_ts ≡ s.postgres.stamp i.position.event_ts)
      × (row.route_id ≡ i.position.route_id)
      × (row.lat ≡ i.position.lat)
      × (row.lon ≡ i.position.lon)
unfolding position_row
position_row-keeps s now i id row h = ground arith

record_event-Body :
    (s : Store) (env : TxEnv) (i : Input) (id : ℕ) (db db' : Db) (outcome : Outcome)
    → s.postgres.uuid i.envelope.event_id ≡ ok id
    → is_some (find (is_event id) db.processed) ≡ false
    → record_event s env i id db ≡ ok (outcome, db')
    → Body s env i db outcome db'
record_event-Body s env i id db db' outcome u new h =
    elim (Result-cases (position_row s env.now i id)) [
      | inl (row, c) ↦
          let same = position_row-event_id s env.now i id row c in
          inr (
            row,
            record {
              id = cc (u, same);
              is_new = rw same new;
              converted = cc (c, same);
              outcome_is = unfold record_event in ground (arith, c);
            },
            unfold record_event in ground (arith, c),
          )
      | inr (e, c) ↦ absurd (unfold record_event in ground (arith, c))
    ]

pub apply_body-Body :
    (s : Store) (env : TxEnv) (i : Input) (db db' : Db) (outcome : Outcome)
    → apply_body s env i db ≡ ok (outcome, db')
    → Body s env i db outcome db'
apply_body-Body s env i db db' outcome h =
    elim (Result-cases (s.postgres.uuid i.envelope.event_id)) [
      | inr (e, u) ↦ absurd (unfold apply_body in ground (arith, u))
      | inl (id, u) ↦ elim (Bool-cases (is_some (find (is_event id) db.processed))) [
        | inl seen ↦ inl (
          unfold apply_body in ground (arith, u, seen),
          unfold apply_body in ground (arith, u, seen),
          (id, u, seen),
        )
        | inr new ↦
            record_event-Body s env i id db db' outcome u new
              (unfold apply_body in ground (arith, u, new))
      ]
    ]

-- The history keeps it as its last row.
pub positions-recorded :
    (s : Store) (now : ℕ) (i : Input) (row : PositionRow) (db : Db)
    → IsConsistent db
    → is_some (find (is_event row.event_id) db.processed) ≡ false
    → (recorded s now i row db).positions ≡ db.positions ++ row ∷ []
unfolding recorded insert_position
positions-recorded s now i row db c new = ground (
  arith,
  find-has_position row.event_id db.positions,
  find-has_event row.event_id db.processed,
  ap (has row.event_id) c.same_ids,
)

state_step :
    (v : String) (row : PositionRow) (rows : List CurrentRow) (positions : List PositionRow)
    → find (is_vehicle v) rows ≡ current_option (newest v positions)
    → find (is_vehicle v) (upsert_current (current_of row) rows).1
      ≡ current_option (newest v (positions ++ row ∷ []))
unfolding current_of
state_step v row rows positions h =
    rw (find-upsert_current v (current_of row) rows, newest-append v positions row)
      (ground (arith, h, eq_iff row.vehicle_id v))

-- Recording an event that is not yet recorded keeps the tables consistent.
pub recorded-IsConsistent :
    (s : Store) (now : ℕ) (i : Input) (row : PositionRow) (db : Db)
    → IsConsistent db
    → is_some (find (is_event row.event_id) db.processed) ≡ false
    → IsConsistent (recorded s now i row db)
recorded-IsConsistent s now i row db c new =
    let e = positions-recorded s now i row db c new in
    record {
      same_ids = rw e (
          unfold recorded in
          rw (
            position_ids-append db.positions row,
            processed_ids-append db.processed _,
            c.same_ids,
          ));
      once =
          unfold recorded in
          rw (processed_ids-append db.processed _) (
            Distinct-append row.event_id (processed_ids db.processed)
              (ground (arith, find-has_event row.event_id db.processed)) c.once);
      state = λ v. rw e (unfold recorded in state_step v row db.current db.positions (c.state v));
      counted =
          unfold recorded in
          omega (
            arith,
            total-upsert_version now i.envelope.schema_version i.envelope.event_type db.versions,
            length-append {0} db.processed (
                record {
                  event_id = row.event_id;
                  processed_at = now;
                  consumer_id = s.consumer_id;
                  partition = i.partition;
                  offset = i.offset;
                }
                ∷ []),
            c.counted,
          );
    }

abbrev Changes : {A : Type 0} → TxEnv → Tx A → Db → Type 0
Changes {A} env body db =
    ((in_tx env body db).1 ≡ db)
    ⊎ ((a : A) × (db' : Db) × (body db ≡ ok (a, db')) × ((in_tx env body db).1 ≡ db'))

commit-Changes :
    {A : Type 0} (env : TxEnv) (body : Tx A) (db : Db) (f : CommitFate) (a : A) (db' : Db)
    → env.begin_fault ≡ none
    → body db ≡ ok (a, db')
    → env.commit ≡ f
    → Changes env body db
commit-Changes env body db commits a db' n b e = inr (a, db', b, ground (arith, b, n, e))
commit-Changes env body db (rolls_back x) a db' n b e = inl (ground (arith, b, n, e))
commit-Changes env body db (lost x) a db' n b e = inr (a, db', b, ground (arith, b, n, e))

-- A transaction changes the database to what its body made of it, or not at all.
pub in_tx-Changes : {A : Type 0} (env : TxEnv) (body : Tx A) (db : Db) → Changes env body db
in_tx-Changes env body db = elim (Result-cases (body db)) [
  | inr (e, b) ↦ inl (ground (arith, b))
  | inl (r, b) ↦ elim (Option-cases env.begin_fault) [
    | inr (x, n) ↦ inl (ground (arith, b, n))
    | inl n ↦ commit-Changes env body db env.commit r.0 r.1 n b refl
  ]
]

-- All or nothing: Apply leaves the database as it was, or it records the event in all four tables,
-- an event that was not recorded and whose row the schema allows.
pub apply-atomic :
    (s : Store) (env : TxEnv) (i : Input) (db : Db)
    → ((apply s env i db).1 ≡ db)
      ⊎ ((row : PositionRow) × (outcome : Outcome) × Recording s env i db row outcome
          × ((apply s env i db).1 ≡ recorded s env.now i row db))
unfolding apply
apply-atomic s env i db = elim (in_tx-Changes env (apply_body s env i) db) [
  | inl same ↦ inl same
  | inr (outcome, db', b, e) ↦ elim (apply_body-Body s env i db db' outcome b) [
    | inl (o, d, seen) ↦ inl (e ∙ d)
    | inr (row, r, d) ↦ inr (row, outcome, r, e ∙ d)
  ]
]

-- What an outcome that Apply returns stands for.
pub apply-Body :
    (s : Store) (env : TxEnv) (i : Input) (db : Db) (outcome : Outcome)
    → (apply s env i db).0 ≡ ok outcome
    → Body s env i db outcome (apply s env i db).1
unfolding apply
apply-Body s env i db outcome h = elim (Result-cases (apply_body s env i db)) [
  | inr (e, b) ↦ absurd (ground (arith, b))
  | inl (r, b) ↦ apply_body-Body s env i db _ outcome (ground (arith, b))
]

-- Apply keeps consistent tables consistent, whatever fails in its transaction or at its commit.
pub apply-IsConsistent :
    (s : Store) (env : TxEnv) (i : Input) (db : Db)
    → IsConsistent db
    → IsConsistent (apply s env i db).1
apply-IsConsistent s env i db c = elim (apply-atomic s env i db) [
  | inl same ↦ rw same c
  | inr (row, outcome, r, e) ↦ rw e (recorded-IsConsistent s env.now i row db c r.is_new)
]

pub IsConsistent-empty : IsConsistent empty
unfolding newest
IsConsistent-empty = record { same_ids = refl; once = tt; state = λ v. refl; counted = refl }

-- Deliveries, one transaction after the other.
unfoldable pub deliver : Store → List (TxEnv × Input) → Db → Db
deliver s [] db = db
deliver s ((env, i) ∷ ds) db = deliver s ds (apply s env i db).1

-- Consistent tables are consistent after any deliveries, repeated and failing ones included.
pub deliver-IsConsistent :
    (s : Store) (ds : List (TxEnv × Input)) (db : Db)
    → IsConsistent db
    → IsConsistent (deliver s ds db)
unfolding deliver
deliver-IsConsistent s [] db c = c
deliver-IsConsistent s ((env, i) ∷ ds) db c =
    deliver-IsConsistent s ds (apply s env i db).1 (apply-IsConsistent s env i db c)

-- Apply leaves the dead letters alone.
pub dead_letters-apply :
    (s : Store) (env : TxEnv) (i : Input) (db : Db)
    → (apply s env i db).1.dead_letters ≡ db.dead_letters
dead_letters-apply s env i db = elim (apply-atomic s env i db) [
  | inl same ↦ rw same
  | inr (row, outcome, r, e) ↦ rw e (unfold recorded in refl)
]

-- What is said of the other tables holds whatever the dead letters are.
pub IsConsistent-others :
    (db db' : Db)
    → record db' { dead_letters = [] } ≡ record db { dead_letters = [] }
    → IsConsistent db
    → IsConsistent db'
IsConsistent-others db db' e c =
    let p : db'.positions ≡ db.positions = ap (λ (x : Db). x.positions) e in
    let q : db'.processed ≡ db.processed = ap (λ (x : Db). x.processed) e in
    let k : db'.current ≡ db.current = ap (λ (x : Db). x.current) e in
    let n : db'.versions ≡ db.versions = ap (λ (x : Db). x.versions) e in
    record {
      same_ids = rw (p, q) c.same_ids;
      once = rw q c.once;
      state = λ v. rw (k, p) (c.state v);
      counted = rw (n, q) c.counted;
    }
