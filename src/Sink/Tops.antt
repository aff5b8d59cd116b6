-- ===== src/Sink/Tops.antt =====
-- The newest row of a vehicle in its history: it is one of its rows, and no other is newer.
use event_stream_platform.Prelude.{
  ◌≤◌, ◌≡◌, str_eq, Bool-cases, ◌≢◌, ◌⊎◌, inl, inr, String, Option, none, some, List, [], ◌∷◌,
  arith, ltb, eq_iff, All, Holds, here, there,
}
use event_stream_platform.Sink.Tables.{PositionRow}
use event_stream_platform.Sink.History.{newest, newest_from, newer}

-- No row of the vehicle is newer than `b`, where there is one.
abbrev pub Tops : String → Option PositionRow → PositionRow → Type 0
Tops v none r = r.vehicle_id ≢ v
Tops v (some b) r = r.vehicle_id ≡ v → r.event_ts ≤ b.event_ts

abbrev pub OfVehicle : String → Option PositionRow → Type 0
OfVehicle v none = Unit {0}
OfVehicle v (some b) = b.vehicle_id ≡ v

Tops-newer :
    (v : String) (acc : Option PositionRow) (r x : PositionRow)
    → Tops v acc x
    → Tops v (newer v acc r) x
Tops-newer v none r x h = ground (arith, eq_iff r.vehicle_id v)
Tops-newer v (some b) r x h = ground (arith, eq_iff r.vehicle_id v)

Tops-newer_self :
    (v : String) (acc : Option PositionRow) (r : PositionRow) → Tops v (newer v acc r) r
Tops-newer_self v none r = ground (arith, eq_iff r.vehicle_id v)
Tops-newer_self v (some b) r = ground (arith, eq_iff r.vehicle_id v)

OfVehicle-newer :
    (v : String) (acc : Option PositionRow) (r : PositionRow)
    → OfVehicle v acc
    → OfVehicle v (newer v acc r)
OfVehicle-newer v none r h = ground (arith, eq_iff r.vehicle_id v)
OfVehicle-newer v (some b) r h = ground (arith, eq_iff r.vehicle_id v)

Tops-newest_from :
    (v : String) (acc : Option PositionRow) (rows : List PositionRow) (x : PositionRow)
    → Tops v acc x
    → Tops v (newest_from v acc rows) x
unfolding newest_from
Tops-newest_from v acc [] x h = h
Tops-newest_from v acc (r ∷ rows) x h =
    Tops-newest_from v (newer v acc r) rows x (Tops-newer v acc r x h)

All-newest_from :
    (v : String) (acc : Option PositionRow) (rows : List PositionRow)
    → All (Tops v (newest_from v acc rows)) rows
unfolding newest_from
All-newest_from v acc [] = tt
All-newest_from v acc (r ∷ rows) = (
  Tops-newest_from v (newer v acc r) rows r (Tops-newer_self v acc r),
  All-newest_from v (newer v acc r) rows,
)

OfVehicle-newest_from :
    (v : String) (acc : Option PositionRow) (rows : List PositionRow)
    → OfVehicle v acc
    → OfVehicle v (newest_from v acc rows)
unfolding newest_from
OfVehicle-newest_from v acc [] h = h
OfVehicle-newest_from v acc (r ∷ rows) h =
    OfVehicle-newest_from v (newer v acc r) rows (OfVehicle-newer v acc r h)

pub All-Tops-newest : (v : String) (rows : List PositionRow) → All (Tops v (newest v rows)) rows
unfolding newest
All-Tops-newest v rows = All-newest_from v none rows

pub OfVehicle-newest : (v : String) (rows : List PositionRow) → OfVehicle v (newest v rows)
unfolding newest
OfVehicle-newest v rows = OfVehicle-newest_from v none rows tt

pub Holds-Tops :
    (v : String) (o : Option PositionRow) (rows : List PositionRow) (r : PositionRow)
    → All (Tops v o) rows
    → Holds r rows
    → Tops v o r
Holds-Tops v o [] r a h = elim h [ ]
Holds-Tops v o (x ∷ rows) r a (here e) = rw e a.0
Holds-Tops v o (x ∷ rows) r a (there h) = Holds-Tops v o rows r a.1 h

Holds-newer :
    (v : String) (acc : Option PositionRow) (r b : PositionRow)
    → newer v acc r ≡ some b
    → (acc ≡ some b) ⊎ (b ≡ r)
Holds-newer v none r b h = elim (Bool-cases (str_eq r.vehicle_id v)) [
  | inl q ↦ inr (ground (arith, h, q))
  | inr q ↦ absurd (ground (arith, h, q))
]
Holds-newer v (some a) r b h = elim (Bool-cases (str_eq r.vehicle_id v)) [
  | inr q ↦ inl (ground (arith, h, q))
  | inl q ↦ elim (Bool-cases (ltb a.event_ts r.event_ts)) [
    | inl k ↦ inr (ground (arith, h, q, k))
    | inr k ↦ inl (ground (arith, h, q, k))
  ]
]

Holds-newest_from :
    (v : String) (acc : Option PositionRow) (rows : List PositionRow) (b : PositionRow)
    → newest_from v acc rows ≡ some b
    → (acc ≡ some b) ⊎ Holds b rows
unfolding newest_from
Holds-newest_from v acc [] b h = inl h
Holds-newest_from v acc (r ∷ rows) b h = elim (Holds-newest_from v (newer v acc r) rows b h) [
  | inr k ↦ inr (there k)
  | inl k ↦ elim (Holds-newer v acc r b k) [ inl e ↦ inl e | inr e ↦ inr (here e) ]
]

pub Holds-newest :
    (v : String) (rows : List PositionRow) (b : PositionRow) → newest v rows ≡ some b → Holds b rows
unfolding newest
Holds-newest v rows b h = elim (Holds-newest_from v none rows b h) [
  | inl e ↦ absurd (ground (arith, e))
  | inr k ↦ k
]
