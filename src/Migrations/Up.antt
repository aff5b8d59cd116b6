-- ===== src/Migrations/Up.antt =====
-- internal/platform/migrations/migrations.go: Up. What a migration's statements do to the schema is a
-- parameter.
use event_stream_platform.Prelude.{
  ℕ, suc, String, Bool, true, false, Option, none, some, List, [], ◌∷◌, ◌++◌, str_eq, if◌then◌else◌,
  Result, ok, err, ◌>>=◌, ◌>>◌,
}
use Prim.Native.String.{len}
use event_stream_platform.Sink.Transaction.{DbError, CommitFate, commits, rolls_back, lost, TxEnv}
use event_stream_platform.Migrations.Files.{
  Migration, File, Failure, applying, recording, transacting, Error, failed, load,
}
use event_stream_platform.Migrations.Status.{
  Row, Db, Applied, Report, nothing, ReadEnv, has_version, undefined_table, unique_violation,
  row_of, failing, ensure_table, status,
}

-- One Up: its own creation of the table, its Status, the transactions of its migrations, and the clock.
pub record UpEnv : Type 0 where
  pub create : CommitFate
  pub status : ReadEnv
  pub tx : ℕ → TxEnv
  pub clock : ℕ → ℕ

-- done[version]
abbrev pub is_done : List Applied → String → Bool
is_done [] v = false
is_done (a ∷ rest) v = if str_eq a.version v then true else is_done rest v

-- INSERT INTO schema_migrations, whose key is the version.
unfoldable pub insert_row : Row → Option (List Row) → Result DbError (List Row)
insert_row r none = err undefined_table
insert_row r (some rows) =
    if has_version r.version rows then err unique_violation else ok (rows ++ r ∷ [])

abbrev pub wrapped : {A : Type 0} → (DbError → Failure) → Result DbError A → Result Failure A
wrapped wrap (ok a) = ok a
wrapped wrap (err e) = err (wrap e)

module _ {S : Type 0} where
  abbrev pub ended : CommitFate → Db S → Result Failure (Db S) → Option Failure × Db S
  ended fate db (err e) = (some e, db)
  ended commits db (ok db') = (none, db')
  ended (rolls_back e) db (ok db') = (some (transacting e), db)
  ended (lost e) db (ok db') = (some (transacting e), db')

  -- pgx.BeginFunc
  abbrev pub begin_func : TxEnv → (Db S → Result Failure (Db S)) → Db S → Option Failure × Db S
  begin_func env body db = elim env.begin_fault [
    | some e ↦ (some (transacting e), db)
    | none ↦ ended env.commit db (body db)
  ]

  module _ (exec : String → S → Result DbError S) where
    -- The statements of one migration and its bookkeeping insert.
    unfoldable pub migrate_body : TxEnv → Migration → Db S → Result Failure (Db S)
    migrate_body env m db = do
      failing (env.fault 0) applying
      schema ← wrapped applying (exec m.body db.schema)
      failing (env.fault 1) recording
      rows ← wrapped recording (insert_row (row_of m env.now) db.table)
      ok (record { schema = schema; table = some rows })

    -- The loop of Up over the migrations that are not done.
    unfoldable pub apply_all :
        UpEnv → List Applied → ℕ → List Migration → Db S → (List Applied × Option Error) × Db S
    apply_all env done i [] db = (([], none), db)
    apply_all env done i (m ∷ ms) db =
        let skipped = apply_all env done i ms db in
        let (fault, db') = begin_func (env.tx i) (migrate_body (env.tx i) m) db in
        let ((applied, e), db'') = apply_all env done (suc i) ms db' in
        let a : Applied = record {
          version = m.version;
          name = m.name;
          bytes = len m.body;
          applied_at = env.clock i;
        } in
        if is_done done m.version then skipped else elim fault [
          | some f ↦ (([], some (failed m.version m.name f)), db')
          | none ↦ ((a ∷ applied, e), db'')
        ]

    abbrev pub run_up : UpEnv → List Migration → Report → Db S → (Report × Option Error) × Db S
    run_up env all current db =
        let ((applied, e), db') = apply_all env current.applied 0 all db in
        ((record { applied = applied; pending = [] }, e), db')

    unfoldable pub up : UpEnv → Option (List File) → Db S → (Report × Option Error) × Db S
    up env files db =
        let (fault, db1) = ensure_table env.create db in
        let (current, db2) = status env.status files db1 in
        elim fault [
          | some e ↦ ((nothing, some e), db1)
          | none ↦ elim (load files) [
            | err e ↦ ((nothing, some e), db1)
            | ok all ↦ elim current [
              | err e ↦ ((nothing, some e), db2)
              | ok report ↦ run_up env all report db2
            ]
          ]
        ]
