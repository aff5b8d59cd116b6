-- ===== src/Examples/Deploys.antt =====
-- internal/platform/migrations on small directories of files.
use event_stream_platform.Prelude.{
  ◌*◌, ap, true, ℕ, ◌≤◌, ◌≡◌, ◌⊎◌, refl, String, false, none, some, List, [], ◌∷◌, ◌++◌, length,
  take, str_eq, if◌then◌else◌, All, here, there, Result, ok, err,
}
use event_stream_platform.Sink.Transaction.{DbError, other, commits, healthy}
use event_stream_platform.Migrations.Files.{
  Migration, File, Error, has_suffix, trim_suffix, migration_of, is_skipped, read_all,
  insert_version, sort_versions, load, failed, recording, bad_name,
}
use event_stream_platform.Migrations.Ordered.{IsOrdered, IsLoaded, load_complete}
use event_stream_platform.Migrations.Status.{
  Db, ReadEnv, ensure_table, status, status_of, read_rows, scan_rows, report_of, rows_of,
  unique_violation,
}
use event_stream_platform.Migrations.Up.{UpEnv, insert_row, migrate_body, apply_all, up}
use event_stream_platform.Migrations.Whole.{Migrated, untouched, up-Migrated}
use event_stream_platform.Migrations.Listed.{versions, pending_versions}
use event_stream_platform.Migrations.Once.{up_prefix}
use event_stream_platform.Migrations.Idle.{up_once}
use event_stream_platform.Event.Types.{second}
use event_stream_platform.Prelude.Int.{pos, int32}
use event_stream_platform.Topics.Ensure.{
  TopicSpec, Topic, done, refused, ensure_each, ensure_topics,
}
use event_stream_platform.Topics.Once.{AllEnsured, ensure_topics_once}

abbrev file : String → String → File
file name body = record { name = name; is_dir = false; content = some body }

abbrev directory : List File
directory =
    file "0001_init.sql" "create" ∷ file "0002_more.sql" "alter" ∷ file "notes.txt" "text" ∷ []

abbrev loaded : List Migration
loaded =
    record { version = "0001"; name = "init"; body = "create" }
    ∷ record { version = "0002"; name = "more"; body = "alter" }
    ∷ []

directory_loads : load (some directory) ≡ ok loaded
unfolding load read_all is_skipped has_suffix migration_of trim_suffix sort_versions insert_version
directory_loads = refl

-- A file without a version fails the load.
unversioned : load (some (file "init.sql" "create" ∷ [])) ≡ err (bad_name "init.sql")
unfolding load read_all is_skipped has_suffix migration_of trim_suffix sort_versions insert_version
unversioned = refl

load_complete_example : (1 ≤ length loaded) × IsOrdered loaded × All (IsLoaded loaded) directory
load_complete_example = load_complete directory loaded directory_loads

-- A schema is the list of what was run.
abbrev exec : String → List String → Result DbError (List String)
exec body s = if str_eq body "broken" then err other else ok (s ++ body ∷ [])

abbrev reads : ReadEnv
reads = record { create = commits; query = none; scan = λ i. none; iterate = none }

abbrev quiet : UpEnv
quiet = record { create = commits; status = reads; tx = λ i. healthy i; clock = λ i. i }

abbrev fresh : Db (List String)
fresh = record { schema = []; table = none }

-- A directory that a further file was added to later.
abbrev later : List File
later = file "0003_last.sql" "drop" ∷ directory

up-Migrated_example : Migrated exec [] later (up exec quiet (some directory) fresh).1
up-Migrated_example =
    up-Migrated exec [] later quiet (some directory) fresh
      (there (here refl), (there (there (here refl)), (there (there (there (here refl))), tt)))
      untouched

up_prefix_example :
    (count : ℕ) × ((versions (rows_of (up exec quiet (some directory) fresh).1.table)
        ≡ versions (rows_of fresh.table)
          ++ take count (pending_versions (rows_of fresh.table) loaded))
      × (((e : Error) × ((up exec quiet (some directory) fresh).0.1 ≡ some e))
          ⊎ (length (pending_versions (rows_of fresh.table) loaded) ≤ count)))
up_prefix_example = up_prefix exec quiet (some directory) fresh loaded directory_loads

first_run : (up exec quiet (some directory) fresh).0.1 ≡ none
unfolding up load read_all is_skipped has_suffix migration_of trim_suffix sort_versions
    insert_version ensure_table status status_of read_rows scan_rows report_of apply_all
    migrate_body insert_row
first_run = refl

up_once_example :
    ((up exec quiet (some directory) (up exec quiet (some directory) fresh).1).1
      ≡ (up exec quiet (some directory) fresh).1)
    × ((up exec quiet (some directory) (up exec quiet (some directory) fresh).1).0.0.applied ≡ [])
up_once_example = up_once exec quiet quiet (some directory) fresh first_run

-- Two files of one version: the first Up fails on the second file, and the next Up passes it over.
abbrev twice : List File
twice = file "0001_init.sql" "create" ∷ file "0001_other.sql" "alter" ∷ []

twice_fails :
    (up exec quiet (some twice) fresh).0.1
    ≡ some (failed "0001" "other" (recording unique_violation))
unfolding up load read_all is_skipped has_suffix migration_of trim_suffix sort_versions
    insert_version ensure_table status status_of read_rows scan_rows report_of apply_all
    migrate_body insert_row
twice_fails = refl

twice_passes :
    let db = (up exec quiet (some twice) fresh).1 in
    ((up exec quiet (some twice) db).0.1 ≡ none) × (db.schema ≡ "create" ∷ [])
unfolding up load read_all is_skipped has_suffix migration_of trim_suffix sort_versions
    insert_version ensure_table status status_of read_rows scan_rows report_of apply_all
    migrate_body insert_row
twice_passes = (refl, refl)

-- Two topics, the first of which is there; the other is asked for by two runs at once.
abbrev specs : List TopicSpec
specs =
    record { name = "vehicle.events"; partitions = pos 6; retention = pos (72 * 3600 * second) }
    ∷ record { name = "vehicle.events.dlq"; partitions = pos 1; retention = pos 0 }
    ∷ []

abbrev listed_topics : List Topic
listed_topics = record { name = "vehicle.events"; partitions = pos 3; retention_ms = none } ∷ []

abbrev both : List Topic
both =
    listed_topics
    ++ record { name = "vehicle.events.dlq"; partitions = pos 1; retention_ms = none } ∷ []

ensured :
    ensure_topics true (λ n. done) specs listed_topics
    ≡ record { topics = both; created = "vehicle.events.dlq" ∷ []; error = none }
unfolding ensure_topics ensure_each int32
ensured = refl

ensure_topics_once_example :
    ((added : List Topic) × ((ensure_topics true (λ n. done) specs listed_topics).topics
        ≡ listed_topics ++ added))
    × AllEnsured specs (ensure_topics true (λ n. done) specs listed_topics).topics
    × (ensure_topics true
          (λ n. refused)
          specs
          (ensure_topics true (λ n. done) specs listed_topics).topics
        ≡ record {
          topics = (ensure_topics true (λ n. done) specs listed_topics).topics;
          created = [];
          error = none;
        })
ensure_topics_once_example =
    ensure_topics_once true (λ n. done) (λ n. refused) specs listed_topics
      (ap (λ e. e.error) ensured)
