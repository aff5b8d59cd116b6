-- ===== src/Migrations/Idle.antt =====
-- A run of Up that returned no error leaves nothing for the next.
use event_stream_platform.Prelude.{
  ℕ, ◌≡◌, refl, sym, ap, ◌∙◌, inl, inr, String, true, Option, none, some, List, [], ◌∷◌, ◌++◌,
  arith, str_eq, eq_iff, All, All-map, Holds, here, there, Holds-append, Holds-append_right,
  take_all, Bool-cases, Option-cases, Result, ok, Result-cases,
}
use mathlib.Core.Path.{subst}
use event_stream_platform.Sink.Tables.{find}
use event_stream_platform.Sink.Transaction.{DbError}
use event_stream_platform.Migrations.Files.{Migration, File, Error, load}
use event_stream_platform.Migrations.Status.{
  Row, Db, Applied, Report, is_version, has_version, rows_of, report_of,
}
use event_stream_platform.Migrations.Up.{UpEnv, is_done, apply_all, run_up, up}
use event_stream_platform.Migrations.Steps.{Prepared, early, looped, up-UpEnd}
use event_stream_platform.Migrations.Listed.{
  versions, pending_versions, todo, todo_of_report, status_of_ok,
}
use event_stream_platform.Migrations.Progress.{apply_all-Progress}

Holds-versions :
    (v : String) (rows : List Row) → has_version v rows ≡ true → Holds v (versions rows)
Holds-versions v [] h = absurd (ground arith)
Holds-versions v (r ∷ rs) h = elim (Bool-cases (str_eq r.version v)) [
  | inl q ↦ here (sym ((eq_iff r.version v).0 q))
  | inr q ↦ there (Holds-versions v rs (rw q at h))
]

has_version-Holds :
    (v : String) (rows : List Row) → Holds v (versions rows) → has_version v rows ≡ true
has_version-Holds v [] h = elim h [ ]
has_version-Holds v (r ∷ rs) (here e) = rw ((eq_iff r.version v).1 (sym e)) refl
has_version-Holds v (r ∷ rs) (there h) = elim (Bool-cases (str_eq r.version v)) [
  | inl q ↦ rw q refl
  | inr q ↦ rw q (has_version-Holds v rs h)
]

Holds-insert : (v w : String) (xs ys : List String) → Holds v (xs ++ ys) → Holds v (xs ++ w ∷ ys)
Holds-insert v w [] ys h = there h
Holds-insert v w (x ∷ xs) ys (here e) = here e
Holds-insert v w (x ∷ xs) ys (there h) = there (Holds-insert v w xs ys h)

-- Each migration is recorded or pending.
All-listed :
    (rows : List Row) (all : List Migration)
    → All (λ m. Holds m.version (versions rows ++ pending_versions rows all)) all
unfolding report_of
All-listed rows [] = tt
All-listed rows (m ∷ ms) = elim (Option-cases (find (is_version m.version) rows)) [
  | inl q ↦
      let step : pending_versions rows (m ∷ ms) ≡ m.version ∷ pending_versions rows ms =
        rw q refl in
      (
        rw step (Holds-append_right m.version (versions rows) _ (here refl)),
        All-map (λ x. Holds x.version (versions rows ++ pending_versions rows ms))
            (λ x. Holds x.version (versions rows ++ pending_versions rows (m ∷ ms)))
            (λ x h. rw step (Holds-insert x.version m.version (versions rows) _ h)) ms
            (All-listed rows ms),
      )
  | inr (r, q) ↦
      let step : pending_versions rows (m ∷ ms) ≡ pending_versions rows ms = rw q refl in
      (
        Holds-append m.version (versions rows) _ (Holds-versions m.version rows (rw q refl)),
        All-map (λ x. Holds x.version (versions rows ++ pending_versions rows ms))
            (λ x. Holds x.version (versions rows ++ pending_versions rows (m ∷ ms)))
            (λ x h. rw step h) ms (All-listed rows ms),
      )
]

-- A migration that is recorded is not pending.
nothing_pending :
    (rows : List Row) (all : List Migration)
    → All (λ m. has_version m.version rows ≡ true) all
    → pending_versions rows all ≡ []
unfolding report_of
nothing_pending rows [] h = refl
nothing_pending rows (m ∷ ms) h = elim (Option-cases (find (is_version m.version) rows)) [
  | inl q ↦ absurd (ground (arith, q, h.0))
  | inr (r, q) ↦ rw q (nothing_pending rows ms h.1)
]

module _ {S : Type 0} (exec : String → S → Result DbError S) where
  apply_all_idle :
      (env : UpEnv) (done : List Applied) (i : ℕ) (ms : List Migration) (db : Db S)
      → todo done ms ≡ []
      → apply_all exec env done i ms db ≡ (([], none), db)
  unfolding apply_all todo
  apply_all_idle env done i [] db h = refl
  apply_all_idle env done i (m ∷ ms) db h = elim (Bool-cases (is_done done m.version)) [
    | inl q ↦ rw q (apply_all_idle env done i ms db (rw q at h))
    | inr q ↦ absurd (ground (arith, q, h))
  ]

  -- The table records every migration.
  record IsComplete (all : List Migration) (db : Db S) : Type 0 where
    rows : List Row
    stands : db.table ≡ some rows
    recorded : All (λ m. has_version m.version rows ≡ true) all

  run_up-IsComplete :
      (env : UpEnv) (all : List Migration) (report : Report) (db : Db S) (rows : List Row)
      → db.table ≡ some rows
      → report ≡ report_of rows all
      → (run_up exec env all report db).0.1 ≡ none
      → IsComplete all (run_up exec env all report db).1
  run_up-IsComplete env all report db rows t r n =
      let x = apply_all-Progress exec env report.applied 0 all db rows t in
      let work : todo report.applied all ≡ pending_versions rows all =
        todo_of_report rows all report r in
      let listed : versions x.rows' ≡ versions rows ++ pending_versions rows all =
        x.added ∙ ap (λ w. versions rows ++ w) (take_all x.count _ (x.complete n) ∙ work) in
      record {
        rows = x.rows';
        stands = x.after;
        recorded =
            All-map (λ m. Holds m.version (versions rows ++ pending_versions rows all))
              (λ m. has_version m.version x.rows' ≡ true)
              (λ m h. has_version-Holds m.version x.rows' (rw listed h)) all (All-listed rows all);
      }

  up-IsComplete :
      (env : UpEnv) (files : Option (List File)) (db : Db S) (all : List Migration)
      → load files ≡ ok all
      → (up exec env files db).0.1 ≡ none
      → IsComplete all (up exec env files db).1
  up-IsComplete env files db all l n = elim (up-UpEnd exec env files db) [
    | early e q p ↦ absurd (ground (arith, ap (λ o. o.1) q, n))
    | looped all' report db' l' c p q ↦
        let (rows, t, r) = status_of_ok env.status files db' all' report l' c in
        let same : all' ≡ all = ground (arith, l, l') in
        subst (λ o. IsComplete all o.1) (sym q)
          (subst (λ a. IsComplete a (run_up exec env all' report db').1) same
            (run_up-IsComplete env all' report db' rows t r (rw q at n)))
  ]

  Prepared-same :
      (db db' : Db S) (rows : List Row) → db.table ≡ some rows → Prepared exec db db' → db' ≡ db
  Prepared-same db db' rows t (inl e) = e
  Prepared-same db db' rows t (inr e) =
      e ∙ ap (λ o. record db { table = o }) (ap (λ o. some (rows_of o)) t ∙ sym t)

  -- Nothing is left to do.
  up_idle :
      (env : UpEnv) (files : Option (List File)) (db : Db S) (all : List Migration)
      → load files ≡ ok all
      → IsComplete all db
      → ((up exec env files db).1 ≡ db) × ((up exec env files db).0.0.applied ≡ [])
  up_idle env files db all l x = elim (up-UpEnd exec env files db) [
    | early e q p ↦ (Prepared-same db _ x.rows x.stands p, rw q refl)
    | looped all' report db' l' c p q ↦
        let (rows, t, r) = status_of_ok env.status files db' all' report l' c in
        let same : all' ≡ all = ground (arith, l, l') in
        let kept : db' ≡ db = Prepared-same db db' x.rows x.stands p in
        let found : rows ≡ x.rows = ground (arith, t, ap (λ (d : Db S). d.table) kept, x.stands) in
        let none_left : pending_versions rows all' ≡ [] =
          rw (found, same) (nothing_pending x.rows all x.recorded) in
        let idle = todo_of_report rows all' report r ∙ none_left in
        let ran =
          q
          ∙ ap
              (λ (o : (List Applied × Option Error) × Db S).
                ((record { applied = o.0.0; pending = [] }, o.0.1), o.1))
              (apply_all_idle env report.applied 0 all' db' idle) in
        (
          ap (λ (o : (Report × Option Error) × Db S). o.1) ran ∙ kept,
          ap (λ (o : (Report × Option Error) × Db S). o.0.0.applied) ran,
        )
  ]

-- Up is idempotent. After a run that returned no error, whatever the next run over the same files
-- meets, it applies nothing, and the database stays as it is.
pub up_once :
    {S : Type 0} (exec : String → S → Result DbError S) (first second : UpEnv)
    (files : Option (List File)) (db : Db S)
    → (up exec first files db).0.1 ≡ none
    → ((up exec second files (up exec first files db).1).1 ≡ (up exec first files db).1)
      × ((up exec second files (up exec first files db).1).0.0.applied ≡ [])
up_once exec first second files db n = elim (Result-cases (load files)) [
  | inl (all, l) ↦
      up_idle exec second files (up exec first files db).1 all l
        (up-IsComplete exec first files db all l n)
  | inr (e, l) ↦ elim (up-UpEnd exec first files db) [
    | early e' q p ↦ absurd (ground (arith, ap (λ o. o.1) q, n))
    | looped all' report db' l' c p q ↦ absurd (ground (arith, l, l'))
  ]
]
