-- ===== src/Migrations/Steps.antt =====
-- How an Up changes the database: each transaction takes one whole step or none, and what stands
-- before the loop creates the bookkeeping table at most.
use event_stream_platform.Prelude.{
  ℕ, ◌≡◌, refl, sym, ap, ◌⊎◌, inl, inr, String, false, Option, none, some, List, [], ◌∷◌, ◌++◌,
  arith, Option-cases, Result, ok, Result-cases,
}
use mathlib.Core.Path.{subst}
use event_stream_platform.Sink.Transaction.{DbError, CommitFate, commits, rolls_back, lost, TxEnv}
use event_stream_platform.Migrations.Files.{Migration, File, Error, load}
use event_stream_platform.Migrations.Status.{
  Row, Db, Report, nothing, ReadEnv, has_version, row_of, created, ensure_table, status, status_of,
}
use event_stream_platform.Migrations.Up.{
  UpEnv, insert_row, ended, begin_func, migrate_body, run_up, up,
}

module _ {S : Type 0} (exec : String → S → Result DbError S) where
  fate_cases :
      (fate : CommitFate) (db db' : Db S)
      → ((ended fate db (ok db')).1 ≡ db) ⊎ ((ended fate db (ok db')).1 ≡ db')
  fate_cases commits db db' = inr refl
  fate_cases (rolls_back e) db db' = inl refl
  fate_cases (lost e) db db' = inr refl

  -- A transaction's statements add one record, of the migration that they ran.
  pub record Step (m : Migration) (now : ℕ) (db db' : Db S) : Type 0 where
    pub rows : List Row
    pub before : db.table ≡ some rows
    pub made : exec m.body db.schema ≡ ok db'.schema
    pub is_new : has_version m.version rows ≡ false
    pub after : db'.table ≡ some (rows ++ row_of m now ∷ [])

  migrate_body-Step :
      (env : TxEnv) (m : Migration) (db db' : Db S)
      → migrate_body exec env m db ≡ ok db'
      → Step m env.now db db'
  unfolding migrate_body insert_row
  migrate_body-Step env m db db' h = elim (Option-cases db.table) [
    | inl t ↦ absurd (ground (arith, t))
    | inr (rows, t) ↦ record {
      rows = rows;
      before = t;
      made = ground (arith, t);
      is_new = ground (arith, t);
      after = ground (arith, t);
    }
  ]

  ended-Step :
      (env : TxEnv) (m : Migration) (db db' : Db S)
      → Step m env.now db db'
      → ((ended env.commit db (ok db')).1 ≡ db) ⊎ Step m env.now db (ended env.commit db (ok db')).1
  ended-Step env m db db' x = elim (fate_cases env.commit db db') [
    | inl e ↦ inl e
    | inr e ↦ inr (subst (Step m env.now db) (sym e) x)
  ]

  fate_done :
      (fate : CommitFate) (db db' : Db S)
      → (ended fate db (ok db')).0 ≡ none
      → (ended fate db (ok db')).1 ≡ db'
  fate_done commits db db' h = refl
  fate_done (rolls_back e) db db' h = absurd (ground arith)
  fate_done (lost e) db db' h = absurd (ground arith)

  ended_done :
      (env : TxEnv) (m : Migration) (db db' : Db S)
      → Step m env.now db db'
      → (ended env.commit db (ok db')).0 ≡ none
      → Step m env.now db (ended env.commit db (ok db')).1
  ended_done env m db db' x h = subst (Step m env.now db) (sym (fate_done env.commit db db' h)) x

  -- A transaction leaves the database as it was, or takes the step.
  pub begin_func-Step :
      (env : TxEnv) (m : Migration) (db : Db S)
      → ((begin_func env (migrate_body exec env m) db).1 ≡ db)
        ⊎ Step m env.now db (begin_func env (migrate_body exec env m) db).1
  unfolding migrate_body
  begin_func-Step env m db = elim (Option-cases env.begin_fault) [
    | inr (e, b) ↦ inl (rw b refl)
    | inl b ↦ elim (Result-cases (migrate_body exec env m db)) [
      | inr (e, r) ↦ inl (rw (b, r) refl)
      | inl (db', r) ↦ rw (b, r) (ended-Step env m db db' (migrate_body-Step env m db db' r))
    ]
  ]

  -- One that returned no error took it.
  pub begin_func_done :
      (env : TxEnv) (m : Migration) (db : Db S)
      → (begin_func env (migrate_body exec env m) db).0 ≡ none
      → Step m env.now db (begin_func env (migrate_body exec env m) db).1
  unfolding migrate_body
  begin_func_done env m db h = elim (Option-cases env.begin_fault) [
    | inr (e, b) ↦ absurd (ground (arith, b))
    | inl b ↦ elim (Result-cases (migrate_body exec env m db)) [
      | inr (e, r) ↦ absurd (ground (arith, b, r))
      | inl (db', r) ↦
          rw (b, r) (ended_done env m db db' (migrate_body-Step env m db db' r) (rw (b, r) at h))
    ]
  ]

  -- The table may have been created, and nothing else has changed.
  abbrev pub Prepared : Db S → Db S → Type 0
  Prepared db db' = (db' ≡ db) ⊎ (db' ≡ created db)

  ensure_table-Prepared :
      (fate : CommitFate) (db db' : Db S) → Prepared db db' → Prepared db (ensure_table fate db').1
  unfolding ensure_table
  ensure_table-Prepared commits db db' (inl e) = inr (ap (λ d. created d) e)
  ensure_table-Prepared commits db db' (inr e) = inr (ap (λ d. created d) e)
  ensure_table-Prepared (rolls_back e) db db' h = h
  ensure_table-Prepared (lost f) db db' (inl e) = inr (ap (λ d. created d) e)
  ensure_table-Prepared (lost f) db db' (inr e) = inr (ap (λ d. created d) e)

  status-Prepared :
      (env : ReadEnv) (files : Option (List File)) (db db' : Db S)
      → Prepared db db'
      → Prepared db (status env files db').1
  unfolding status
  status-Prepared env files db db' h =
      let p = ensure_table-Prepared env.create db db' h in
      elim (Option-cases (ensure_table env.create db').0) [
        | inl q ↦ rw (q, status) p
        | inr (e, q) ↦ rw (q, status) p
      ]

  status_ok :
      (env : ReadEnv) (files : Option (List File)) (db : Db S) (report : Report)
      → (status env files db).0 ≡ ok report
      → status_of env files (status env files db).1 ≡ ok report
  unfolding status
  status_ok env files db report h = elim (Option-cases (ensure_table env.create db).0) [
    | inl q ↦ rw (q, status) (rw (q, status) at h)
    | inr (e, q) ↦ absurd (ground (arith, q))
  ]

  -- How an Up ends: early, with an error and at most the table created, or with its loop, over what
  -- load returned, from the report of a Status that read the table.
  pub data UpEnd (env : UpEnv) (files : Option (List File)) (db : Db S) : Type 0 where
    early :
        (e : Error)
        → ((up exec env files db).0 ≡ (nothing, some e))
        → Prepared db (up exec env files db).1
        → UpEnd env files db
    looped :
        (all : List Migration) (report : Report) (db' : Db S)
        → load files ≡ ok all
        → status_of env.status files db' ≡ ok report
        → Prepared db db'
        → up exec env files db ≡ run_up exec env all report db'
        → UpEnd env files db

  pub up-UpEnd : (env : UpEnv) (files : Option (List File)) (db : Db S) → UpEnd env files db
  unfolding up
  up-UpEnd env files db =
      let db1 = (ensure_table env.create db).1 in
      let p1 = ensure_table-Prepared env.create db db (inl refl) in
      let db2 = (status env.status files db1).1 in
      let p2 = status-Prepared env.status files db db1 p1 in
      elim (Option-cases (ensure_table env.create db).0) [
        | inr (e, q) ↦ early e (rw (q, up) refl) (rw (q, up) p1)
        | inl q ↦ elim (Result-cases (load files)) [
          | inr (e, l) ↦ early e (rw (q, l, up) refl) (rw (q, l, up) p1)
          | inl (all, l) ↦ elim (Result-cases (status env.status files db1).0) [
            | inr (e, c) ↦ early e (rw (q, l, c, up) refl) (rw (q, l, c, up) p2)
            | inl (report, c) ↦
                looped all report db2 l (status_ok env.status files db1 report c) p2
                  (rw (q, l, c, up) refl)
          ]
        ]
      ]
