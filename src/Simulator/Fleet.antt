-- ===== src/Simulator/Fleet.antt =====
-- internal/simulator/simulator.go: NewFleet and Step. math/rand and fmt's "veh-%04d" are parameters.
use event_stream_platform.Prelude.{
  ℕ, ◌≤◌, zero, suc, ◌+◌, ◌%◌, ◌^◌, String, Option, none, some, List, [], ◌∷◌, ◌++◌, length,
  get_elem?, drop, ltb, ◌==◌, if◌then◌else◌, Result, ok, err,
}
use event_stream_platform.Prelude.Int.{ℤ, pos, ltb_ℤ, pos_part}
use event_stream_platform.Simulator.Geometry.{Floats, Route, Geometry}
use event_stream_platform.Simulator.Track.{◌>>=?◌, at}

-- A rand.Rand over rand.NewSource of a seed: Int63n of a positive bound, and Float64.
pub record Random (F : Type 0) : Type 1 where
  pub State : Type 0
  pub start : ℤ → State
  pub int63n : State → ℕ → ℕ × State
  pub float64 : State → F × State

-- Int63n answers in [0, n).
pub record RandomLaws {F : Type 0} (rng : Random F) : Type 0 where
  pub below : (s : rng.State) (n : ℕ) → suc (rng.int63n s (suc n)).0 ≤ suc n

pub record Vehicle (F : Type 0) : Type 0 where
  pub id : String
  pub route : Route F
  pub offset : F
  pub base_speed_kph : F
  pub phase : F
  pub sequence : ℕ
  pub elapsed : F

pub record Observation (F : Type 0) : Type 0 where
  pub vehicle_id : String
  pub route_id : String
  pub lat : F
  pub lon : F
  pub speed_kph : F
  pub bearing_deg : F
  pub sequence : ℕ

pub record Fleet (F : Type 0) : Type 0 where
  pub geometry : Geometry F
  pub vehicles : List (Vehicle F)
  pub elapsed : F
  pub out : List (Observation F)

pub record FleetConfig : Type 0 where
  pub seed : ℤ
  pub vehicles : ℤ

pub data FleetError : Type 0 where
  no_geometry : FleetError
  too_small : ℤ → FleetError

module _ {F : Type 0} (fl : Floats F) where
  module _ (rng : Random F) (name : ℕ → String) where
    -- The vehicle at index i, on a route of the geometry's; none is there where the index of the
    -- route is out of range.
    unfoldable pub place : List (Route F) → ℕ → rng.State → Option (Vehicle F × rng.State)
    place routes i s =
        let (k, s1) = rng.int63n s (length routes) in
        let (a, s2) = rng.float64 s1 in
        let (b, s3) = rng.float64 s2 in
        let (c, s4) = rng.float64 s3 in
        get_elem? routes ((i + k) % length routes) >>=? λ route. some (
          record {
            id = name (i + 1);
            route = route;
            offset = fl.times a route.length;
            base_speed_kph = fl.plus (fl.of_nat 15) (fl.times b (fl.of_nat 70));
            phase = fl.times (fl.times c (fl.of_nat 2)) fl.pi;
            sequence = 0;
            elapsed = fl.of_nat 0;
          },
          s4,
        )

    -- The loop of NewFleet, for n vehicles from index i on.
    unfoldable pub place_all : List (Route F) → ℕ → ℕ → rng.State → Option (List (Vehicle F))
    place_all routes i zero s = some []
    place_all routes i (suc n) s =
        place routes i s >>=? λ p. place_all routes (suc i) n p.1 >>=? λ vs. some (p.0 ∷ vs)

    abbrev pub fleet_of : Geometry F → List (Vehicle F) → Fleet F
    fleet_of g vs = record { geometry = g; vehicles = vs; elapsed = fl.of_nat 0; out = [] }

    -- `none` for the geometry is a nil pointer; `none` for the result is a panic.
    unfoldable pub new_fleet :
        Option (Geometry F) → FleetConfig → Option (Result FleetError (Fleet F))
    new_fleet none cfg = some (err no_geometry)
    new_fleet (some g) cfg =
        if length g.routes == 0
        then some (err no_geometry)
        else if ltb_ℤ cfg.vehicles (pos 1)
        then some (err (too_small cfg.vehicles))
        else (place_all g.routes 0 (pos_part cfg.vehicles) (rng.start cfg.seed) >>=? λ vs.
            some (ok (fleet_of g vs)))

  unfoldable pub speed_at : Vehicle F → F → F
  speed_at v elapsed =
      let wave = fl.sin (fl.plus (fl.over elapsed (fl.of_nat 20)) v.phase) in
      fl.times v.base_speed_kph (fl.plus (fl.of_nat 1) (fl.times (fl.decimal 25 2) wave))

  -- math.Round(x*10) / 10
  abbrev pub tenths : F → F
  tenths x = fl.over (fl.round (fl.times x (fl.of_nat 10))) (fl.of_nat 10)

  -- One vehicle in the loop of Step; its sequence is a uint64.
  unfoldable pub move : F → Vehicle F → Option (Observation F × Vehicle F)
  move dt v =
      let elapsed = fl.plus v.elapsed dt in
      let speed = speed_at v elapsed in
      let offset = fl.plus v.offset (fl.times (fl.over speed (fl.decimal 36 1)) dt) in
      let sequence = (v.sequence + 1) % 2 ^ 64 in
      at fl v.route offset >>=? λ found. some (
        record {
          vehicle_id = v.id;
          route_id = v.route.id;
          lat = found.0.lat;
          lon = found.0.lon;
          speed_kph = tenths speed;
          bearing_deg = tenths found.1;
          sequence = sequence;
        },
        record v { elapsed = elapsed; offset = offset; sequence = sequence },
      )

  unfoldable pub move_all : F → List (Vehicle F) → Option (List (Observation F) × List (Vehicle F))
  move_all dt [] = some ([], [])
  move_all dt (v ∷ vs) =
      move dt v >>=? λ m. move_all dt vs >>=? λ rest. some (m.0 ∷ rest.0, m.1 ∷ rest.1)

  -- The slice that is returned is the front of `out`, which is made anew only where it is too short.
  unfoldable pub step : F → Fleet F → Option (List (Observation F) × Fleet F)
  step dt f = move_all dt f.vehicles >>=? λ m.
      let kept = if ltb (length f.out) (length f.vehicles) then [] else f.out in
      some (
        m.0,
        record f {
          vehicles = m.1;
          elapsed = fl.plus f.elapsed dt;
          out = m.0 ++ drop (length f.vehicles) kept;
        },
      )
