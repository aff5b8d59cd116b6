-- ===== src/Migrations/Listed.antt =====
-- What Status lists as applied and as pending, against the rows of the table.
use event_stream_platform.Prelude.{
  ℕ, suc, ◌≡◌, refl, sym, ap, ◌∙◌, inl, inr, String, true, Option, none, some, List, [], ◌∷◌, map,
  arith, str_eq, eq_iff, if◌then◌else◌, All, All-map, Bool-cases, Option-cases, ok, Result-cases,
}
use event_stream_platform.Sink.Tables.{find}
use event_stream_platform.Sink.Transaction.{DbError}
use event_stream_platform.Migrations.Files.{Migration, File, load}
use event_stream_platform.Migrations.Status.{
  Row, Db, ReadEnv, Applied, Report, is_version, has_version, status_of, report_of, read_rows,
  scan_rows,
}
use event_stream_platform.Migrations.Up.{is_done}

abbrev pub versions : List Row → List String
versions rows = map (λ r. r.version) rows

-- The versions of the migrations that are not recorded.
abbrev pub pending_versions : List Row → List Migration → List String
pending_versions rows all = map (λ p. p.version) (report_of rows all).pending

find-is_version :
    (v : String) (rows : List Row) (r : Row) → find (is_version v) rows ≡ some r → r.version ≡ v
find-is_version v [] r h = absurd (ground arith)
find-is_version v (x ∷ xs) r h = elim (Bool-cases (str_eq x.version v)) [
  | inl q ↦ ground (arith, eq_iff x.version v)
  | inr q ↦ find-is_version v xs r (ground (arith, q))
]

-- What Status lists as applied is what is recorded.
is_done-report_of :
    (rows : List Row) (all : List Migration) (v : String)
    → is_done (report_of rows all).applied v ≡ true
    → has_version v rows ≡ true
unfolding report_of
is_done-report_of rows [] v h = absurd (ground arith)
is_done-report_of rows (m ∷ ms) v h = elim (Option-cases (find (is_version m.version) rows)) [
  | inl q ↦ is_done-report_of rows ms v (rw q at h)
  | inr (r, q) ↦
      let same = find-is_version m.version rows r q in
      elim (Bool-cases (str_eq r.version v)) [
        | inl k ↦ let e : v ≡ m.version = sym ((eq_iff r.version v).0 k) ∙ same in rw (e, q) refl
        | inr k ↦ is_done-report_of rows ms v (ground (arith, q, k))
      ]
]

IsKnown : List Row → List Applied → Migration → Type 0
IsKnown rows applied m = has_version m.version rows ≡ true → is_done applied m.version ≡ true

report_of-IsKnown :
    (rows : List Row) (all : List Migration) → All (IsKnown rows (report_of rows all).applied) all
unfolding report_of IsKnown
report_of-IsKnown rows [] = tt
report_of-IsKnown rows (m ∷ ms) = elim (Option-cases (find (is_version m.version) rows)) [
  | inl q ↦ (
    λ h. absurd (ground (arith, q)),
    All-map (IsKnown rows (report_of rows ms).applied)
        (IsKnown rows (report_of rows (m ∷ ms)).applied) (λ x f h. ground (arith, q, f h)) ms
        (report_of-IsKnown rows ms),
  )
  | inr (r, q) ↦
      let same = (eq_iff r.version m.version).1 (find-is_version m.version rows r q) in
      (
        λ h. rw (q, same) refl,
        All-map (IsKnown rows (report_of rows ms).applied)
            (IsKnown rows (report_of rows (m ∷ ms)).applied) (λ x f h. ground (arith, q, f h)) ms
            (report_of-IsKnown rows ms),
      )
]

-- The versions that the loop of Up does not pass over.
unfoldable pub todo : List Applied → List Migration → List String
todo done [] = []
todo done (m ∷ ms) = if is_done done m.version then todo done ms else m.version ∷ todo done ms

todo-pending :
    (rows : List Row) (done : List Applied) (ms : List Migration)
    → ((v : String) → is_done done v ≡ true → has_version v rows ≡ true)
    → All (IsKnown rows done) ms
    → todo done ms ≡ pending_versions rows ms
unfolding todo IsKnown report_of
todo-pending rows done [] f h = refl
todo-pending rows done (m ∷ ms) f h =
    let rest = todo-pending rows done ms f h.1 in
    elim (Option-cases (find (is_version m.version) rows)) [
      | inr (r, q) ↦ rw (h.0 (rw q refl), q) rest
      | inl q ↦ elim (Bool-cases (is_done done m.version)) [
        | inl k ↦ absurd (ground (arith, q, f m.version k))
        | inr k ↦ rw (k, q) (ap (◌∷◌ m.version) rest)
      ]
    ]

-- What Up passes over is what the Status before it found.
pub todo_of_report :
    (rows : List Row) (all : List Migration) (report : Report)
    → report ≡ report_of rows all
    → todo report.applied all ≡ pending_versions rows all
todo_of_report rows all report r = rw r (
    todo-pending rows (report_of rows all).applied all (is_done-report_of rows all)
      (report_of-IsKnown rows all))

-- The rows that a successful read returns are those of the table.
scan_rows_ok :
    (fault : ℕ → Option DbError) (i : ℕ) (table rows : List Row)
    → scan_rows fault i table ≡ ok rows
    → rows ≡ table
unfolding scan_rows
scan_rows_ok fault i [] rows h = ground arith
scan_rows_ok fault i (r ∷ rs) rows h = elim (Option-cases (fault i)) [
  | inr (e, q) ↦ absurd (ground (arith, q))
  | inl q ↦ elim (Result-cases (scan_rows fault (suc i) rs)) [
    | inr (e, k) ↦ absurd (ground (arith, q, k))
    | inl (rest, k) ↦ ground (arith, q, k, scan_rows_ok fault (suc i) rs rest k)
  ]
]

read_rows_ok :
    (env : ReadEnv) (table : Option (List Row)) (rows : List Row)
    → read_rows env table ≡ ok rows
    → table ≡ some rows
unfolding read_rows
read_rows_ok env none rows h = absurd (ground arith)
read_rows_ok env (some table) rows h = elim (Option-cases env.query) [
  | inr (e, q) ↦ absurd (ground (arith, q))
  | inl q ↦ elim (Result-cases (scan_rows env.scan 0 table)) [
    | inr (e, k) ↦ absurd (ground (arith, q, k))
    | inl (got, k) ↦ elim (Option-cases env.iterate) [
      | inr (e, j) ↦ absurd (ground (arith, q, k, j))
      | inl j ↦ ground (arith, q, k, j, scan_rows_ok env.scan 0 table got k)
    ]
  ]
]

pub status_of_ok :
    {S : Type 0} (env : ReadEnv) (files : Option (List File)) (db : Db S) (all : List Migration)
    (report : Report)
    → load files ≡ ok all
    → status_of env files db ≡ ok report
    → (rows : List Row) × (db.table ≡ some rows) × (report ≡ report_of rows all)
unfolding status_of
status_of_ok env files db all report l h = elim (Result-cases (read_rows env db.table)) [
  | inr (e, q) ↦ absurd (ground (arith, l, q))
  | inl (rows, q) ↦ (rows, read_rows_ok env db.table rows q, ground (arith, l, q))
]
