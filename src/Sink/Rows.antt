-- ===== src/Sink/Rows.antt =====
-- Laws of the tables' reads and writes.
use event_stream_platform.Prelude.{
  ℕ, ◌+◌, ◌≡◌, refl, ap, ◌≢◌, inl, inr, String, Bool, true, false, Option, none, some, List, [],
  ◌∷◌, ◌++◌, map, arith, ltb, ◌==◌, str_eq, if◌then◌else◌, eq_iff, All, All-append, Bool-cases,
}
use event_stream_platform.Prelude.Int.{ℤ}
use event_stream_platform.Sink.Tables.{
  ProcessedRow, PositionRow, CurrentRow, VersionRow, find, update, is_some,
}
use event_stream_platform.Sink.Apply.{
  is_vehicle, is_position, is_event, is_version, upsert_current, upsert_version,
}
use event_stream_platform.Sink.History.{processed_ids, position_ids, Distinct, total}

abbrev pub has : ℕ → List ℕ → Bool
has a [] = false
has a (x ∷ xs) = if x == a then true else has a xs

pub find-has_event :
    (id : ℕ) (rows : List ProcessedRow)
    → is_some (find (is_event id) rows) ≡ has id (processed_ids rows)
find-has_event id [] = refl
find-has_event id (r ∷ rows) = ground (arith, find-has_event id rows)

pub find-has_position :
    (id : ℕ) (rows : List PositionRow)
    → is_some (find (is_position id) rows) ≡ has id (position_ids rows)
find-has_position id [] = refl
find-has_position id (r ∷ rows) = ground (arith, find-has_position id rows)

has-All : (a : ℕ) (xs : List ℕ) → has a xs ≡ false → All (λ y. y ≢ a) xs
has-All a [] h = tt
has-All a (x ∷ xs) h = ground (arith, has-All a xs)

pub Distinct-append :
    (a : ℕ) (xs : List ℕ) → has a xs ≡ false → Distinct xs → Distinct (xs ++ a ∷ [])
Distinct-append a [] h d = (tt, tt)
Distinct-append a (x ∷ xs) h d = (
  All-append (λ y. x ≢ y) xs (a ∷ []) d.0 (ground arith),
  Distinct-append a xs (ground arith) d.1,
)

pub find-append {ℓ} :
    {R : Type ℓ} (p : R → Bool) (rows : List R) (r : R)
    → find p (rows ++ r ∷ [])
      ≡ elim (find p rows) [ none ↦ if p r then some r else none | some x ↦ some x ]
find-append p [] r = refl
find-append p (x ∷ rows) r = ground (arith, find-append p rows r)

-- Writing a vehicle's row leaves the rows of the others.
find-update_vehicle :
    (v : String) (r : CurrentRow) (rows : List CurrentRow)
    → find (is_vehicle v) (update (is_vehicle r.vehicle_id) (λ _. r) rows) ≡ (
        if str_eq r.vehicle_id v
        then (if is_some (find (is_vehicle v) rows) then some r else none)
        else find (is_vehicle v) rows)
find-update_vehicle v r [] = ground arith
find-update_vehicle v r (x ∷ rows) = ground (
  arith,
  find-update_vehicle v r rows,
  eq_iff r.vehicle_id v,
  eq_iff x.vehicle_id v,
  eq_iff x.vehicle_id r.vehicle_id,
)

-- The row that the guarded upsert leaves.
abbrev pub guarded : Option CurrentRow → CurrentRow → CurrentRow
guarded none r = r
guarded (some old) r = if ltb old.last_event_ts r.last_event_ts then r else old

pub find-upsert_current :
    (v : String) (r : CurrentRow) (rows : List CurrentRow)
    → find (is_vehicle v) (upsert_current r rows).1 ≡ (
        if str_eq r.vehicle_id v
        then some (guarded (find (is_vehicle v) rows) r)
        else find (is_vehicle v) rows)
unfolding upsert_current
find-upsert_current v r rows =
    ground (
      arith,
      find-update_vehicle v r rows,
      eq_iff r.vehicle_id v,
      find-append (is_vehicle v) rows r,
    )

pub affected-upsert_current :
    (r : CurrentRow) (rows : List CurrentRow)
    → (upsert_current r rows).0 ≡ elim (find (is_vehicle r.vehicle_id) rows) [
      | none ↦ true
      | some old ↦ ltb old.last_event_ts r.last_event_ts
    ]
unfolding upsert_current
affected-upsert_current r rows = ground arith

total-append :
    (rows : List VersionRow) (r : VersionRow) → total (rows ++ r ∷ []) ≡ total rows + r.event_count
total-append [] r = omega arith
total-append (x ∷ rows) r = omega (arith, total-append rows r)

total-update :
    (p : VersionRow → Bool) (now : ℕ) (rows : List VersionRow)
    → is_some (find p rows) ≡ true
    → total (update p (λ r. record r { event_count = r.event_count + 1; last_seen_at = now }) rows)
      ≡ total rows + 1
total-update p now [] h = cc
total-update p now (x ∷ rows) h = ground (arith, total-update p now rows)

pub total-upsert_version :
    (now : ℕ) (v : ℤ) (t : String) (rows : List VersionRow)
    → total (upsert_version now v t rows) ≡ total rows + 1
unfolding upsert_version
total-upsert_version now v t rows = elim (Bool-cases (is_some (find (is_version v t) rows))) [
  | inl y ↦ rw y (total-update (is_version v t) now rows y)
  | inr n ↦ rw n (total-append rows _)
]

map-append_one {ℓ κ} :
    {A : Type ℓ} {B : Type κ} (f : A → B) (xs : List A) (x : A)
    → map f (xs ++ x ∷ []) ≡ map f xs ++ f x ∷ []
map-append_one f [] x = refl
map-append_one f (y ∷ xs) x = ap (◌∷◌ (f y)) (map-append_one f xs x)

pub processed_ids-append :
    (rows : List ProcessedRow) (r : ProcessedRow)
    → processed_ids (rows ++ r ∷ []) ≡ processed_ids rows ++ r.event_id ∷ []
processed_ids-append = map-append_one (λ r. r.event_id)

pub position_ids-append :
    (rows : List PositionRow) (r : PositionRow)
    → position_ids (rows ++ r ∷ []) ≡ position_ids rows ++ r.event_id ∷ []
position_ids-append = map-append_one (λ r. r.event_id)
