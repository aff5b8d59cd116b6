-- ===== src/Migrations/Once.antt =====
-- Up applies, in order, a prefix of what is pending, and what it has applied it never applies again.
use event_stream_platform.Prelude.{
  ℕ, ◌≤◌, ◌≡◌, ◌⊎◌, Option-cases, sym, ap, ◌∙◌, inl, inr, String, Option, some, List, ◌++◌, length,
  take, arith, Result, ok,
}
use mathlib.Core.Path.{subst}
use mathlib.Core.List.{append-nil}
use event_stream_platform.Sink.Transaction.{DbError}
use event_stream_platform.Migrations.Files.{Migration, File, Error, load}
use event_stream_platform.Migrations.Status.{Row, Db, Report, rows_of, report_of}
use event_stream_platform.Migrations.Up.{UpEnv, run_up, up}
use event_stream_platform.Migrations.Steps.{Prepared, early, looped, up-UpEnd}
use event_stream_platform.Migrations.Listed.{
  versions, pending_versions, todo, todo_of_report, status_of_ok,
}
use event_stream_platform.Migrations.Progress.{apply_all-Progress}

module _ {S : Type 0} (exec : String → S → Result DbError S) where
  Prepared-rows : (db db' : Db S) → Prepared exec db db' → rows_of db'.table ≡ rows_of db.table
  Prepared-rows db db' (inl e) = ap (λ (d : Db S). rows_of d.table) e
  Prepared-rows db db' (inr e) = ap (λ (d : Db S). rows_of d.table) e

  -- What the theorem says of a run's outcome.
  IsPrefix : List Row → List Migration → (Report × Option Error) × Db S → Type 0
  IsPrefix rows all r =
      (count : ℕ) × ((versions (rows_of r.1.table)
          ≡ versions rows ++ take count (pending_versions rows all))
        × (((e : Error) × (r.0.1 ≡ some e)) ⊎ (length (pending_versions rows all) ≤ count)))

  run_up-IsPrefix :
      (env : UpEnv) (all : List Migration) (report : Report) (db : Db S) (rows : List Row)
      → db.table ≡ some rows
      → report ≡ report_of rows all
      → IsPrefix rows all (run_up exec env all report db)
  unfolding IsPrefix
  run_up-IsPrefix env all report db rows t r =
      let x = apply_all-Progress exec env report.applied 0 all db rows t in
      let work : todo report.applied all ≡ pending_versions rows all =
        todo_of_report rows all report r in
      (
        x.count,
        (
          ap (λ o. versions (rows_of o)) x.after
              ∙ x.added
              ∙ ap (λ w. versions rows ++ take x.count w) work,
          elim (Option-cases (run_up exec env all report db).0.1) [
            | inl n ↦ inr (subst (λ w. length w ≤ x.count) work (x.complete n))
            | inr e ↦ inl e
          ],
        ),
      )

-- Where the directory loads, a run of Up adds to the recorded versions a prefix, in order, of those
-- that were pending, whatever fails: it stops at the first failure, and skips nothing before it. A run
-- that returns no error has applied all of them.
pub up_prefix :
    {S : Type 0} (exec : String → S → Result DbError S) (env : UpEnv) (files : Option (List File))
    (db : Db S) (all : List Migration)
    → load files ≡ ok all
    → (count : ℕ) × ((versions (rows_of (up exec env files db).1.table)
          ≡ versions (rows_of db.table) ++ take count (pending_versions (rows_of db.table) all))
        × (((e : Error) × ((up exec env files db).0.1 ≡ some e))
            ⊎ (length (pending_versions (rows_of db.table) all) ≤ count)))
unfolding IsPrefix
up_prefix exec env files db all l = elim (up-UpEnd exec env files db) [
  | early e q p ↦
      (0, (ap versions (Prepared-rows exec db _ p) ∙ sym (append-nil _), inl (e, ap (λ o. o.1) q)))
  | looped all' report db' l' c p q ↦
      let (rows, t, r) = status_of_ok env.status files db' all' report l' c in
      let before : rows ≡ rows_of db.table =
        sym (ap (λ o. rows_of o) t) ∙ Prepared-rows exec db db' p in
      let same : all' ≡ all = ground (arith, l, l') in
      subst (λ o. IsPrefix exec (rows_of db.table) all o) (sym q)
        (rw (sym before, sym same) (run_up-IsPrefix exec env all' report db' rows t r))
]
