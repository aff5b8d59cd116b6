-- ===== src/Migrations/Origins.antt =====
-- What load returns is what stands in the files: nothing is made up.
use event_stream_platform.Prelude.{
  ◌+◌, ◌≡◌, refl, inl, inr, false, Option, none, some, List, [], ◌∷◌, arith, All, All-map, Holds,
  here, there, Bool-cases, Option-cases, ok, Result-cases,
}
use mathlib.Core.Path.{subst}
use Prim.Native.String.{slice, find, len}
use event_stream_platform.Migrations.Files.{
  Migration, File, lt_text, migration_of, is_skipped, read_all, insert_version, sort_versions,
  some_embedded, load, trim_suffix,
}

-- The body of the migration is the content of one of the files, an SQL file whose name is the version,
-- an underscore, the migration's name and the suffix, if it has one.
pub record IsFrom (files : List File) (m : Migration) : Type 0 where
  pub file : File
  pub is_there : Holds file files
  pub is_sql : is_skipped file ≡ false
  pub body : file.content ≡ some m.body
  pub version : m.version ≡ slice file.name 0 (find file.name "_")
  pub name : m.name ≡ trim_suffix (slice file.name (find file.name "_" + 1) (len file.name)) ".sql"

abbrev pub entries : Option (List File) → List File
entries none = []
entries (some files) = files

IsFrom-there : (f : File) (fs : List File) (m : Migration) → IsFrom fs m → IsFrom (f ∷ fs) m
IsFrom-there f fs m x = record {
  file = x.file;
  is_there = there x.is_there;
  is_sql = x.is_sql;
  body = x.body;
  version = x.version;
  name = x.name;
}

migration_of-IsFrom :
    (f : File) (fs : List File) (m : Migration)
    → is_skipped f ≡ false
    → migration_of f ≡ ok m
    → IsFrom (f ∷ fs) m
unfolding migration_of
migration_of-IsFrom f fs m q h = elim (Option-cases f.content) [
  | inl c ↦ absurd (ground (arith, c))
  | inr (body, c) ↦ record {
    file = f;
    is_there = here refl;
    is_sql = q;
    body = ground (arith, c);
    version = ground (arith, c);
    name = ground (arith, c);
  }
]

read_all-IsFrom : (fs : List File) (ms : List Migration) → read_all fs ≡ ok ms → All (IsFrom fs) ms
unfolding read_all
read_all-IsFrom [] ms h =
    let none_read : [] ≡ ms = ground arith in subst (All (IsFrom [])) none_read tt
read_all-IsFrom (f ∷ fs) ms h = elim (Bool-cases (is_skipped f)) [
  | inl q ↦
      All-map (IsFrom fs) (IsFrom (f ∷ fs)) (IsFrom-there f fs) ms
        (read_all-IsFrom fs ms (ground (arith, q)))
  | inr q ↦ elim (Result-cases (migration_of f)) [
    | inr (e, k) ↦ absurd (ground (arith, q, k))
    | inl (m, k) ↦ elim (Result-cases (read_all fs)) [
      | inr (e, r) ↦ absurd (ground (arith, q, k, r))
      | inl (rest, r) ↦
          let same : m ∷ rest ≡ ms = ground (arith, q, k, r) in
          subst (All (IsFrom (f ∷ fs))) same (
            migration_of-IsFrom f fs m q k,
            All-map (IsFrom fs) (IsFrom (f ∷ fs)) (IsFrom-there f fs) rest
                (read_all-IsFrom fs rest r),
          )
    ]
  ]
]

All-insert_version :
    (P : Migration → Type 0) (m : Migration) (ms : List Migration)
    → P m
    → All P ms
    → All P (insert_version m ms)
unfolding insert_version
All-insert_version P m [] p h = (p, tt)
All-insert_version P m (x ∷ xs) p h = elim (Bool-cases (lt_text x.version m.version)) [
  | inl q ↦ rw q (h.0, All-insert_version P m xs p h.1)
  | inr q ↦ rw q (p, h)
]

All-sort_versions :
    (P : Migration → Type 0) (ms : List Migration) → All P ms → All P (sort_versions ms)
unfolding sort_versions
All-sort_versions P [] h = tt
All-sort_versions P (m ∷ ms) h =
    All-insert_version P m (sort_versions ms) h.0 (All-sort_versions P ms h.1)

some_embedded_same : (out ms : List Migration) → some_embedded out ≡ ok ms → out ≡ ms
some_embedded_same [] ms h = absurd (ground arith)
some_embedded_same (m ∷ out) ms h = ground arith

pub load-IsFrom :
    (files : Option (List File)) (ms : List Migration)
    → load files ≡ ok ms
    → All (IsFrom (entries files)) ms
unfolding load
load-IsFrom none ms h = absurd (ground arith)
load-IsFrom (some files) ms h = elim (Result-cases (read_all files)) [
  | inr (e, k) ↦ absurd (ground (arith, k))
  | inl (out, k) ↦
      subst (All (IsFrom files)) (some_embedded_same (sort_versions out) ms (ground (arith, k)))
        (All-sort_versions (IsFrom files) out (read_all-IsFrom files out k))
]
