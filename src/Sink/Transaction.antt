-- ===== src/Sink/Transaction.antt =====
-- internal/platform/db: InTx, and what the sink relies on of pgx and Postgres, as a record that the
-- functions take. Postgres runs the transactions that touch one row one after the other, so the
-- database goes from state to state, one transaction at a time.
use event_stream_platform.Prelude.{ℕ, ◌≤◌, ◌≡◌, String, Option, none, some, Result, ok, err}
use event_stream_platform.Event.Float.{Float64}
use event_stream_platform.Sink.Tables.{Db}

-- A *pgconn.PgError with its SQLSTATE, or any other error.
pub data DbError : Type 0 where
  pg : String → DbError
  other : DbError

-- How pgx and Postgres take a value into a column: the value that is stored, or the error.
pub record Postgres : Type 0 where
  pub uuid : String → Result DbError ℕ
  pub show_uuid : ℕ → String
  pub text : String → Option DbError
  pub real : Float64 → Result DbError Float64
  pub stamp : ℕ → ℕ

-- A timestamptz keeps the order of instants up to its precision, which it loses once, and the uuid that is read back
-- is the one that was stored.
pub record PostgresLaws (p : Postgres) : Type 0 where
  pub stamp_mono : (a b : ℕ) → a ≤ b → p.stamp a ≤ p.stamp b
  pub stamp_idem : (a : ℕ) → p.stamp (p.stamp a) ≡ p.stamp a
  pub uuid_back : (u : ℕ) → p.uuid (p.show_uuid u) ≡ ok u

-- What becomes of a COMMIT: done, not done, or done with the acknowledgement lost.
pub data CommitFate : Type 0 where
  commits : CommitFate
  rolls_back lost : DbError → CommitFate

-- What the world adds to one transaction: the time of its start, the failure of its BEGIN or of a
-- statement, and the fate of its COMMIT.
pub record TxEnv : Type 0 where
  pub now : ℕ
  pub begin_fault : Option DbError
  pub fault : ℕ → Option DbError
  pub commit : CommitFate

abbrev pub Tx : Type 0 → Type 0
Tx A = Db → Result DbError (A × Db)

abbrev pub finish : {A : Type 0} → CommitFate → Db → Result DbError (A × Db) → Result DbError A × Db
finish fate db (err e) = (err e, db)
finish commits db (ok (a, db')) = (ok a, db')
finish (rolls_back e) db (ok (a, db')) = (err e, db)
finish (lost e) db (ok (a, db')) = (err e, db')

-- BEGIN, the statements, and COMMIT, or ROLLBACK where one of them failed.
abbrev pub in_tx : {A : Type 0} → TxEnv → Tx A → Db → Result DbError A × Db
in_tx env body db = elim env.begin_fault [
  | some e ↦ (err e, db)
  | none ↦ finish env.commit db (body db)
]

-- Statements that the world lets through.
abbrev pub healthy : ℕ → TxEnv
healthy now = record { now = now; begin_fault = none; fault = λ _. none; commit = commits }
