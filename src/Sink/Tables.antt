-- ===== src/Sink/Tables.antt =====
-- The schema of internal/platform/migrations/*.sql: each table as the list of its rows, oldest
-- first. A uuid column holds a 128-bit number, in the order that Postgres gives it; a timestamptz
-- column holds what Postgres keeps of an instant. Rows are searched by a test on their key.
use event_stream_platform.Prelude.{
  ℕ, String, Bool, true, false, Option, none, some, List, [], ◌∷◌, if◌then◌else◌,
}
use event_stream_platform.Prelude.Int.{ℤ}
use event_stream_platform.Event.Float.{Float64}
use event_stream_platform.Event.Types.{Bytes}

pub record ProcessedRow : Type 0 where
  pub event_id : ℕ
  pub processed_at : ℕ
  pub consumer_id : String
  pub partition : ℕ
  pub offset : ℕ

pub record PositionRow : Type 0 where
  pub event_id : ℕ
  pub vehicle_id : String
  pub route_id : String
  pub lat : Float64
  pub lon : Float64
  pub speed_kph : Option Float64
  pub bearing_deg : Option Float64
  pub event_ts : ℕ
  pub produced_at : ℕ
  pub ingested_at : ℕ
  pub partition : ℕ
  pub offset : ℕ
  pub sequence : ℤ

pub record CurrentRow : Type 0 where
  pub vehicle_id : String
  pub route_id : String
  pub lat : Float64
  pub lon : Float64
  pub speed_kph : Option Float64
  pub bearing_deg : Option Float64
  pub last_event_ts : ℕ
  pub last_event_id : ℕ
  pub updated_at : ℕ

pub record VersionRow : Type 0 where
  pub schema_version : ℤ
  pub event_type : String
  pub first_seen_at : ℕ
  pub last_seen_at : ℕ
  pub event_count : ℕ

-- CHECK (state IN ('dead', 'replayed')) leaves two values.
pub data DeadState : Type 0 where
  dead replayed : DeadState

-- CHECK (reason IN (…)), likewise.
pub data DeadReason : Type 0 where
  decode unknown_version retries_exhausted unknown : DeadReason

pub record DeadRow : Type 0 where
  pub event_id : ℕ
  pub raw_payload : Bytes
  pub error : String
  pub reason : DeadReason
  pub attempts : ℕ
  pub first_failed_at : ℕ
  pub last_failed_at : ℕ
  pub topic : String
  pub partition : ℕ
  pub offset : ℕ
  pub state : DeadState
  pub replayed_at : Option ℕ

pub record Db : Type 0 where
  pub processed : List ProcessedRow
  pub positions : List PositionRow
  pub current : List CurrentRow
  pub versions : List VersionRow
  pub dead_letters : List DeadRow

abbrev pub empty : Db
empty = record { processed = []; positions = []; current = []; versions = []; dead_letters = [] }

module _ {ℓ} {R : Type ℓ} where
  -- SELECT … WHERE p, for a test on a unique key.
  abbrev pub find : (R → Bool) → List R → Option R
  find p [] = none
  find p (r ∷ rs) = if p r then some r else find p rs

  -- UPDATE … SET f WHERE p, for such a test.
  abbrev pub update : (R → Bool) → (R → R) → List R → List R
  update p f [] = []
  update p f (r ∷ rs) = if p r then f r ∷ rs else r ∷ update p f rs

abbrev pub is_some {ℓ} : {A : Type ℓ} → Option A → Bool
is_some none = false
is_some (some a) = true
