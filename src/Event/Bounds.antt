-- ===== src/Event/Bounds.antt =====
-- What validate of Event/Validate means, stated without its tests.
use event_stream_platform.Prelude.{
  ◌≡◌, ◌≢◌, ◌↔◌, Bool, false, ◌||◌, Option, none, some, arith, eq_iff,
}
use event_stream_platform.Prelude.Int.{ℤ, pos, negsuc, ◌≤ℤ◌}
use event_stream_platform.Event.Float.{
  Float64, finite, inf, nan, units, Within, IsFinite, lt_float, whole,
}
use event_stream_platform.Event.Types.{VehiclePosition, IsNumeric, IsFiniteOption, zero_time}
use event_stream_platform.Event.Validate.{validate, speed_error, bearing_error}

-- Not negative; below 360.
abbrev pub IsSpeed : Option Float64 → Type 0
IsSpeed none = Unit {0}
IsSpeed (some (finite a)) = units (pos 0) ≤ℤ a
IsSpeed (some _) = ⊥

abbrev pub IsBearing : Option Float64 → Type 0
IsBearing none = Unit {0}
IsBearing (some (finite a)) = (units (pos 0) ≤ℤ a) × ¬ (units (pos 360) ≤ℤ a)
IsBearing (some _) = ⊥

pub record IsSound (v : VehiclePosition) : Type 0 where
  pub vehicle : v.vehicle_id ≢ ""
  pub route : v.route_id ≢ ""
  pub lat : Within (negsuc 89) (pos 90) v.lat
  pub lon : Within (negsuc 179) (pos 180) v.lon
  pub speed : IsSpeed v.speed_kph
  pub bearing : IsBearing v.bearing_deg
  pub time : v.event_ts ≢ zero_time

outside : ℤ → ℤ → Float64 → Bool
outside lo hi f = lt_float f (whole lo) || lt_float (whole hi) f

outside_iff : (lo hi : ℤ) (f : Float64) → IsFinite f → (outside lo hi f ≡ false) ↔ Within lo hi f
unfolding outside
outside_iff lo hi (finite a) n = ground arith
outside_iff lo hi (inf b) n = absurd n
outside_iff lo hi nan n = absurd n

IsSpeed-iff : (o : Option Float64) → IsFiniteOption o → (speed_error o ≡ none) ↔ IsSpeed o
IsSpeed-iff none n = ground arith
IsSpeed-iff (some (finite a)) n = ground arith
IsSpeed-iff (some (inf b)) n = absurd n
IsSpeed-iff (some nan) n = absurd n

IsBearing-iff : (o : Option Float64) → IsFiniteOption o → (bearing_error o ≡ none) ↔ IsBearing o
IsBearing-iff none n = ground arith
IsBearing-iff (some (finite a)) n = ground arith
IsBearing-iff (some (inf b)) n = absurd n
IsBearing-iff (some nan) n = absurd n

-- A position whose numbers are all finite passes validate exactly when it is sound: both
-- identifiers are there, the coordinates, the speed and the bearing are in range, and it has a time.
pub validate-iff-IsSound : (v : VehiclePosition) → IsNumeric v → (validate v ≡ none) ↔ IsSound v
unfolding validate outside
validate-iff-IsSound v n = (
  λ h. record {
    vehicle = ground (arith, eq_iff v.vehicle_id "");
    route = ground (arith, eq_iff v.route_id "");
    lat = (outside_iff (negsuc 89) (pos 90) v.lat n.lat).0 (ground arith);
    lon = (outside_iff (negsuc 179) (pos 180) v.lon n.lon).0 (ground arith);
    speed = (IsSpeed-iff v.speed_kph n.speed).0 (ground arith);
    bearing = (IsBearing-iff v.bearing_deg n.bearing).0 (ground arith);
    time = ground arith;
  },
  λ s. ground (
    arith,
    eq_iff v.vehicle_id "",
    eq_iff v.route_id "",
    (outside_iff (negsuc 89) (pos 90) v.lat n.lat).1 s.lat,
    (outside_iff (negsuc 179) (pos 180) v.lon n.lon).1 s.lon,
    (IsSpeed-iff v.speed_kph n.speed).1 s.speed,
    (IsBearing-iff v.bearing_deg n.bearing).1 s.bearing,
  ),
)
