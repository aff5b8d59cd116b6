-- ===== src/Migrations/Progress.antt =====
-- What the loop of Up records: a prefix, in order, of what it has to do.
use event_stream_platform.Prelude.{
  ℕ, suc, ◌≤◌, ◌≡◌, refl, sym, ap, ◌∙◌, inl, inr, String, Option, none, some, List, [], ◌∷◌, ◌++◌,
  length, take, arith, Bool-cases, Option-cases, Result,
}
use mathlib.Core.List.{append-nil}
use event_stream_platform.Sink.Transaction.{DbError, TxEnv}
use event_stream_platform.Migrations.Files.{Migration, Error}
use event_stream_platform.Migrations.Status.{Row, Db, Applied, row_of}
use event_stream_platform.Migrations.Up.{UpEnv, begin_func, migrate_body, is_done, apply_all}
use event_stream_platform.Migrations.Steps.{Step, begin_func-Step, begin_func_done}
use event_stream_platform.Migrations.Listed.{versions, todo}

added_one :
    (m : Migration) (now : ℕ) (rows : List Row) (vs : List String)
    → versions (rows ++ row_of m now ∷ []) ++ vs ≡ versions rows ++ m.version ∷ vs
added_one m now [] vs = refl
added_one m now (r ∷ rs) vs = ap (◌∷◌ r.version) (added_one m now rs vs)

some_injective {ℓ} : {A : Type ℓ} (a b : A) → some a ≡ some b → a ≡ b
some_injective a b h = ground arith

-- The loop records a prefix, in order, of what it has to do, and all of it where it fails nowhere.
pub record Progress (rows : List Row) (table : Option (List Row)) (e : Option Error)
    (work : List String) : Type 0 where
  pub rows' : List Row
  pub count : ℕ
  pub after : table ≡ some rows'
  pub added : versions rows' ≡ versions rows ++ take count work
  pub complete : e ≡ none → length work ≤ count

module _ {S : Type 0} (exec : String → S → Result DbError S) where
  Step-table :
      (m : Migration) (now : ℕ) (db db' : Db S) (rows : List Row)
      → db.table ≡ some rows
      → Step exec m now db db'
      → db'.table ≡ some (rows ++ row_of m now ∷ [])
  Step-table m now db db' rows t x =
      let same : x.rows ≡ rows = some_injective _ _ (sym x.before ∙ t) in
      x.after ∙ ap (λ r. some (r ++ row_of m now ∷ [])) same

  more :
      (db : Db S) (rows : List Row) (m : Migration) (now : ℕ) (db' : Db S)
      (table : Option (List Row)) (e : Option Error) (work : List String)
      → db.table ≡ some rows
      → Step exec m now db db'
      → ((rows' : List Row) → db'.table ≡ some rows' → Progress rows' table e work)
      → Progress rows table e (m.version ∷ work)
  more db rows m now db' table e work t x rest =
      let p = rest _ (Step-table m now db db' rows t x) in
      record {
        rows' = p.rows';
        count = suc p.count;
        after = p.after;
        added = p.added ∙ added_one m now rows (take p.count work);
        complete = λ n. omega (arith, p.complete n);
      }

  stopped :
      (env : TxEnv) (db : Db S) (rows : List Row) (m : Migration) (e : Error) (work : List String)
      → db.table ≡ some rows
      → Progress rows
          (begin_func env (migrate_body exec env m) db).1.table
          (some e)
          (m.version ∷ work)
  stopped env db rows m e work t = elim (begin_func-Step exec env m db) [
    | inl same ↦ record {
      rows' = rows;
      count = 0;
      after = ap (λ (d : Db S). d.table) same ∙ t;
      added = sym (append-nil _);
      complete = λ n. absurd (ground (arith, n));
    }
    | inr x ↦ record {
      rows' = rows ++ row_of m env.now ∷ [];
      count = 1;
      after = Step-table m env.now db _ rows t x;
      added = sym (append-nil _) ∙ added_one m env.now rows [];
      complete = λ n. absurd (ground (arith, n));
    }
  ]

  pub apply_all-Progress :
      (env : UpEnv) (done : List Applied) (i : ℕ) (ms : List Migration) (db : Db S)
      (rows : List Row)
      → db.table ≡ some rows
      → Progress rows
          (apply_all exec env done i ms db).1.table
          (apply_all exec env done i ms db).0.1
          (todo done ms)
  unfolding apply_all todo
  apply_all-Progress env done i [] db rows t = record {
    rows' = rows;
    count = 0;
    after = t;
    added = sym (append-nil _);
    complete = λ e. omega arith;
  }
  apply_all-Progress env done i (m ∷ ms) db rows t = elim (Bool-cases (is_done done m.version)) [
    | inl q ↦ rw q (apply_all-Progress env done i ms db rows t)
    | inr q ↦ elim (Option-cases (begin_func (env.tx i) (migrate_body exec (env.tx i) m) db).0) [
      | inl f ↦
          rw (q, f)
            (more db rows m (env.tx i).now _ _ _ _ t (begin_func_done exec (env.tx i) m db f)
              (λ rows' t'. apply_all-Progress env done (suc i) ms _ rows' t'))
      | inr (f, k) ↦ rw (q, k) (stopped (env.tx i) db rows m _ _ t)
    ]
  ]
