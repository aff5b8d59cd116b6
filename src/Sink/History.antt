-- ===== src/Sink/History.antt =====
-- What vehicle_positions says about a vehicle, and what may be said of the tables together.
use event_stream_platform.Prelude.{
  ℕ, ◌+◌, ◌≡◌, refl, ◌≢◌, String, Option, none, some, List, [], ◌∷◌, ◌++◌, map, length, ltb, str_eq,
  if◌then◌else◌, All,
}
use event_stream_platform.Sink.Tables.{Db, ProcessedRow, PositionRow, CurrentRow, VersionRow, find}
use event_stream_platform.Sink.Apply.{current_of, is_vehicle}

-- The newest row of a vehicle: of rows with one time, the first.
abbrev pub newer : String → Option PositionRow → PositionRow → Option PositionRow
newer v none r = if str_eq r.vehicle_id v then some r else none
newer v (some b) r =
    if str_eq r.vehicle_id v then (if ltb b.event_ts r.event_ts then some r else some b) else some b

unfoldable pub newest_from : String → Option PositionRow → List PositionRow → Option PositionRow
newest_from v acc [] = acc
newest_from v acc (r ∷ rs) = newest_from v (newer v acc r) rs

unfoldable pub newest : String → List PositionRow → Option PositionRow
unfolding newest_from
newest v rows = newest_from v none rows

newest_from-append :
    (v : String) (acc : Option PositionRow) (rows : List PositionRow) (r : PositionRow)
    → newest_from v acc (rows ++ r ∷ []) ≡ newer v (newest_from v acc rows) r
unfolding newest_from
newest_from-append v acc [] r = refl
newest_from-append v acc (x ∷ rows) r = newest_from-append v (newer v acc x) rows r

pub newest-append :
    (v : String) (rows : List PositionRow) (r : PositionRow)
    → newest v (rows ++ r ∷ []) ≡ newer v (newest v rows) r
unfolding newest
newest-append v rows r = newest_from-append v none rows r

abbrev pub current_option : Option PositionRow → Option CurrentRow
current_option none = none
current_option (some r) = some (current_of r)

abbrev pub processed_ids : List ProcessedRow → List ℕ
processed_ids = map (λ r. r.event_id)

abbrev pub position_ids : List PositionRow → List ℕ
position_ids = map (λ r. r.event_id)

-- No two entries of a list are the same.
abbrev pub Distinct : List ℕ → Type 0
Distinct [] = Unit {0}
Distinct (x ∷ xs) = All (λ y. x ≢ y) xs × Distinct xs

abbrev pub total : List VersionRow → ℕ
total [] = 0
total (r ∷ rs) = r.event_count + total rs

-- The tables agree: the history has exactly the events that are recorded as processed, each once;
-- the current row of a vehicle is its newest row of the history, and there is one exactly when the
-- history has a row; and the counters add up to the events.
pub record IsConsistent (db : Db) : Type 0 where
  pub same_ids : position_ids db.positions ≡ processed_ids db.processed
  pub once : Distinct (processed_ids db.processed)
  pub state : (v : String) → find (is_vehicle v) db.current ≡ current_option (newest v db.positions)
  pub counted : total db.versions ≡ length db.processed
