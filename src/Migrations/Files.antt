-- ===== src/Migrations/Files.antt =====
-- internal/platform/migrations/migrations.go: load, which reads and orders the embedded files.
use event_stream_platform.Prelude.{
  ◌+◌, ◌-◌, ◌==◌, ltb, leb, String, Bool, true, false, not, ◌&&◌, ◌||◌, Option, List, [], ◌∷◌,
  str_eq, if◌then◌else◌, Result, ok, err, or_fail, ◌>>=◌,
}
use Prim.Native.String.{len, slice, find, compare}
use Prim.Native.Nat.{Ordering}
use event_stream_platform.Sink.Transaction.{DbError}

pub record Migration : Type 0 where
  pub version : String
  pub name : String
  pub body : String

-- An entry of the embedded directory; its content is missing where reading it fails.
pub record File : Type 0 where
  pub name : String
  pub is_dir : Bool
  pub content : Option String

-- What was being done when a migration failed, beside its BEGIN and its COMMIT.
pub data Failure : Type 0 where
  applying recording transacting : DbError → Failure

pub data Error : Type 0 where
  read_dir none_embedded : Error
  read_file bad_name : String → Error
  create_table query scan iterate : DbError → Error
  failed : (version name : String) → Failure → Error

abbrev pub lt_text : String → String → Bool
lt_text s t = elim (compare s t) [ Ordering.lt ↦ true | _ ↦ false ]

-- strings.HasSuffix and strings.TrimSuffix.
unfoldable pub has_suffix : String → String → Bool
has_suffix s t = leb (len t) (len s) && str_eq (slice s (len s - len t) (len s)) t

unfoldable pub trim_suffix : String → String → String
trim_suffix s t = if has_suffix s t then slice s 0 (len s - len t) else s

-- The version and the name of a file, or the error of a name without a version.
unfoldable pub migration_of : File → Result Error Migration
migration_of f = do
  body ← or_fail f.content (read_file f.name)
  let index = find f.name "_" in
      if (index == 0) || ltb (len f.name) index
      then err (bad_name f.name)
      else ok (record {
        version = slice f.name 0 index;
        name = trim_suffix (slice f.name (index + 1) (len f.name)) ".sql";
        body = body;
      })

unfoldable pub is_skipped : File → Bool
is_skipped f = f.is_dir || not (has_suffix f.name ".sql")

unfoldable pub read_all : List File → Result Error (List Migration)
read_all [] = ok []
read_all (f ∷ fs) =
    let rest = read_all fs in
    if is_skipped f then rest else do m ← migration_of f; ms ← rest; ok (m ∷ ms)

-- sort.Slice on the versions; equal ones keep their order here, which sort.Slice leaves open.
unfoldable pub insert_version : Migration → List Migration → List Migration
insert_version m [] = m ∷ []
insert_version m (x ∷ xs) =
    let rest = insert_version m xs in if lt_text x.version m.version then x ∷ rest else m ∷ x ∷ xs

unfoldable pub sort_versions : List Migration → List Migration
sort_versions [] = []
sort_versions (m ∷ ms) = insert_version m (sort_versions ms)

abbrev pub some_embedded : List Migration → Result Error (List Migration)
some_embedded [] = err none_embedded
some_embedded (m ∷ ms) = ok (m ∷ ms)

-- `none` is a failure of fs.ReadDir.
unfoldable pub load : Option (List File) → Result Error (List Migration)
load files = do
  entries ← or_fail files read_dir
  out ← read_all entries
  some_embedded (sort_versions out)
