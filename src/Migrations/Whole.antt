-- ===== src/Migrations/Whole.antt =====
-- Up applies migrations whole: whatever fails, the schema is what the texts of the recorded migrations'
-- files made of it, each once and in the order of their records.
use event_stream_platform.Prelude.{
  ℕ, suc, ◌≡◌, sym, ap, inl, inr, String, false, Option, none, some, List, [], ◌∷◌, ◌++◌, All,
  All-map, Holds, Holds-All, Bool-cases, Option-cases, Result, ok,
}
use mathlib.Core.Path.{subst}
use event_stream_platform.Sink.Transaction.{DbError, TxEnv}
use event_stream_platform.Migrations.Files.{Migration, File, load}
use event_stream_platform.Migrations.Origins.{IsFrom, entries, load-IsFrom}
use event_stream_platform.Migrations.Status.{Row, Db, Applied, has_version, row_of, created}
use event_stream_platform.Migrations.Up.{UpEnv, begin_func, migrate_body, is_done, apply_all, up}
use event_stream_platform.Migrations.Steps.{
  Step, begin_func-Step, Prepared, early, looped, up-UpEnd,
}

module _ {S : Type 0} (exec : String → S → Result DbError S) (start : S) (known : List File) where
  -- A database that only migrations of known files have touched.
  pub data Migrated : Db S → Type 0 where
    untouched : Migrated (record { schema = start; table = none })
    prepared : Migrated (record { schema = start; table = some [] })
    migrated :
        {s s' : S} {rows : List Row} (m : Migration) (now : ℕ)
        → Migrated (record { schema = s; table = some rows })
        → IsFrom known m
        → exec m.body s ≡ ok s'
        → has_version m.version rows ≡ false
        → Migrated (record { schema = s'; table = some (rows ++ row_of m now ∷ []) })

  created-Migrated : (db : Db S) → Migrated db → Migrated (created db)
  created-Migrated _ untouched = prepared
  created-Migrated _ prepared = prepared
  created-Migrated _ (migrated m now h k e n) = migrated m now h k e n

  Step-Migrated :
      (m : Migration) (now : ℕ) (db db' : Db S)
      → IsFrom known m
      → Step exec m now db db'
      → Migrated db
      → Migrated db'
  Step-Migrated m now db db' k x h = subst Migrated same (
      migrated m now (subst Migrated (ap (λ t. record db { table = t }) x.before) h) k x.made
        x.is_new)
    where
      same : record db' { table = some (x.rows ++ row_of m now ∷ []) } ≡ db'
      same = ap (λ t. record db' { table = t }) (sym x.after)

  begin_func-Migrated :
      (env : TxEnv) (m : Migration) (db : Db S)
      → IsFrom known m
      → Migrated db
      → Migrated (begin_func env (migrate_body exec env m) db).1
  begin_func-Migrated env m db k h = elim (begin_func-Step exec env m db) [
    | inl e ↦ subst Migrated (sym e) h
    | inr x ↦ Step-Migrated m env.now db _ k x h
  ]

  apply_all-Migrated :
      (env : UpEnv) (done : List Applied) (i : ℕ) (ms : List Migration) (db : Db S)
      → All (IsFrom known) ms
      → Migrated db
      → Migrated (apply_all exec env done i ms db).1
  unfolding apply_all
  apply_all-Migrated env done i [] db k h = h
  apply_all-Migrated env done i (m ∷ ms) db from h =
      let moved = begin_func-Migrated (env.tx i) m db from.0 h in
      elim (Bool-cases (is_done done m.version)) [
        | inl q ↦ rw q (apply_all-Migrated env done i ms db from.1 h)
        | inr q ↦
            elim (Option-cases (begin_func (env.tx i) (migrate_body exec (env.tx i) m) db).0) [
              | inl f ↦ rw (q, f) (apply_all-Migrated env done (suc i) ms _ from.1 moved)
              | inr (f, k) ↦ rw (q, k) moved
            ]
      ]

  Prepared-Migrated : (db db' : Db S) → Prepared exec db db' → Migrated db → Migrated db'
  Prepared-Migrated db db' (inl e) h = subst Migrated (sym e) h
  Prepared-Migrated db db' (inr e) h = subst Migrated (sym e) (created-Migrated db h)

  -- The files of a directory are known, so what load makes of it is from known files.
  load-known :
      (files : Option (List File)) (all : List Migration)
      → All (λ f. Holds f known) (entries files)
      → load files ≡ ok all
      → All (IsFrom known) all
  load-known files all h l =
      All-map (IsFrom (entries files)) (IsFrom known)
        (λ m x. record {
          file = x.file;
          is_there = Holds-All (λ f. Holds f known) (entries files) h x.is_there;
          is_sql = x.is_sql;
          body = x.body;
          version = x.version;
          name = x.name;
        })
        all (load-IsFrom files all l)

-- Whatever a run of Up meets, a failure of any statement, of a BEGIN or of a COMMIT, a lost
-- acknowledgement included: where the files of its directory are among the known ones, if only
-- migrations of known files have touched the database, that is so after the run. Its schema is what
-- the texts of known SQL files made of the first one, one for each record of the bookkeeping table, in
-- the order of the records and under the version that the file's name begins with; so no migration is
-- half applied, applied twice, or applied and not recorded.
pub up-Migrated :
    {S : Type 0} (exec : String → S → Result DbError S) (start : S) (known : List File)
    (env : UpEnv) (files : Option (List File)) (db : Db S)
    → All (λ f. Holds f known) (entries files)
    → Migrated exec start known db
    → Migrated exec start known (up exec env files db).1
up-Migrated exec start known env files db k h = elim (up-UpEnd exec env files db) [
  | early e q p ↦ Prepared-Migrated exec start known db _ p h
  | looped all report db' l c p q ↦
      subst (λ r. Migrated exec start known r.1) (sym q)
        (apply_all-Migrated exec start known env report.applied 0 all db'
          (load-known exec start known files all k l)
          (Prepared-Migrated exec start known db db' p h))
]
