-- ===== src/Migrations/Status.antt =====
-- internal/platform/migrations/migrations.go: ensureTable and Status. The schema
-- is a parameter; the bookkeeping table stands beside it.
use event_stream_platform.Prelude.{
  ℕ, suc, String, Bool, Option, none, some, List, [], ◌∷◌, str_eq, Result, ok, err, ◌>>=◌, ◌>>◌,
}
use Prim.Native.String.{len}
use event_stream_platform.Sink.Tables.{find, is_some}
use event_stream_platform.Sink.Transaction.{DbError, pg, CommitFate, commits, rolls_back, lost}
use event_stream_platform.Migrations.Files.{
  Migration, File, Error, create_table, query, scan, iterate, load,
}

-- A row of schema_migrations.
pub record Row : Type 0 where
  pub version : String
  pub name : String
  pub checksum : String
  pub applied_at : ℕ

-- The database: its schema, and schema_migrations where it exists.
pub record Db (S : Type 0) : Type 0 where
  pub schema : S
  pub table : Option (List Row)

pub record Applied : Type 0 where
  pub version : String
  pub name : String
  pub bytes : ℕ
  pub applied_at : ℕ

pub record Pending : Type 0 where
  pub version : String
  pub name : String
  pub bytes : ℕ

-- The source's Result.
pub record Report : Type 0 where
  pub applied : List Applied
  pub pending : List Pending

abbrev pub nothing : Report
nothing = record { applied = []; pending = [] }

-- What the world does to the statements of one Status: the creation of the table, the query, the scan
-- of each row, and the end of the rows.
pub record ReadEnv : Type 0 where
  pub create : CommitFate
  pub query : Option DbError
  pub scan : ℕ → Option DbError
  pub iterate : Option DbError

abbrev pub is_version : String → Row → Bool
is_version v r = str_eq r.version v

abbrev pub has_version : String → List Row → Bool
has_version v rows = is_some (find (is_version v) rows)

abbrev pub undefined_table : DbError
undefined_table = pg "42P01"

abbrev pub unique_violation : DbError
unique_violation = pg "23505"

abbrev pub row_of : Migration → ℕ → Row
row_of m now = record { version = m.version; name = m.name; checksum = ""; applied_at = now }

abbrev pub rows_of : Option (List Row) → List Row
rows_of none = []
rows_of (some rows) = rows

abbrev pub failing {ℓ} : {E : Type ℓ} → Option DbError → (DbError → E) → Result E (Unit {0})
failing none wrap = ok tt
failing (some e) wrap = err (wrap e)

unfoldable pub scan_rows : (ℕ → Option DbError) → ℕ → List Row → Result Error (List Row)
scan_rows fault i [] = ok []
scan_rows fault i (r ∷ rs) = do
  failing (fault i) scan
  rest ← scan_rows fault (suc i) rs
  ok (r ∷ rest)

-- The rows of `SELECT version, name, applied_at FROM schema_migrations`.
unfoldable pub read_rows : ReadEnv → Option (List Row) → Result Error (List Row)
read_rows env none = err (query undefined_table)
read_rows env (some table) = do
  failing env.query query
  rows ← scan_rows env.scan 0 table
  failing env.iterate iterate
  ok rows

-- A migration in what is applied, or in what is pending.
abbrev pub listed : Migration → Option Row → Report → Report
listed m (some r) rest = record rest {
  applied =
      record { version = r.version; name = r.name; bytes = len m.body; applied_at = r.applied_at }
      ∷ rest.applied;
}
listed m none rest = record rest {
  pending = record { version = m.version; name = m.name; bytes = len m.body } ∷ rest.pending;
}

unfoldable pub report_of : List Row → List Migration → Report
report_of rows [] = nothing
report_of rows (m ∷ ms) = listed m (find (is_version m.version) rows) (report_of rows ms)

module _ {S : Type 0} where
  abbrev pub created : Db S → Db S
  created db = record db { table = some (rows_of db.table) }

  -- CREATE TABLE IF NOT EXISTS.
  unfoldable pub ensure_table : CommitFate → Db S → Option Error × Db S
  ensure_table commits db = (none, created db)
  ensure_table (rolls_back e) db = (some (create_table e), db)
  ensure_table (lost e) db = (some (create_table e), created db)

  unfoldable pub status_of : ReadEnv → Option (List File) → Db S → Result Error Report
  status_of env files db = do
    all ← load files
    rows ← read_rows env db.table
    ok (report_of rows all)

  unfoldable pub status : ReadEnv → Option (List File) → Db S → Result Error Report × Db S
  status env files db =
      let (fault, db') = ensure_table env.create db in
      elim fault [ some e ↦ (err e, db') | none ↦ (status_of env files db', db') ]
