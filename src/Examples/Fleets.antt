-- ===== src/Examples/Fleets.antt =====
-- internal/simulator on one route, with whole numbers in place of the floating-point ones.
use event_stream_platform.Prelude.{
  ℕ, suc, ◌+◌, ◌-◌, ◌*◌, ◌≡◌, refl, String, none, some, List, [], ◌∷◌, ltb, leb, ◌==◌, min, ok, err,
}
use event_stream_platform.Prelude.Int.{pos, pos_part}
use event_stream_platform.Simulator.Geometry.{
  Floats, Point, Route, Geometry, Json, haversine, legs, prepare, prepare_all, parse_geometry,
  too_few,
}
use event_stream_platform.Simulator.Fleet.{Random, FleetConfig, Fleet, new_fleet}
use event_stream_platform.Simulator.Runs.{Reporting, new_fleet-Reporting}

abbrev numbers : Floats ℕ
numbers = record {
  plus = λ a b. a + b;
  minus = λ a b. a - b;
  times = λ a b. a * b;
  over = λ a b. a;
  lt = ltb;
  le = leb;
  same = λ a b. a == b;
  decimal = λ m n. m;
  of_nat = λ n. n;
  pi = 3;
  sin = λ a. a;
  cos = λ a. a;
  asin = λ a. suc a;
  sqrt = λ a. a;
  round = λ a. a;
  least = λ a b. min a b;
  modulo = λ a b. a;
  atan2 = λ a b. a;
  search = λ xs x. 1;
}

abbrev point : ℕ → ℕ → Point ℕ
point lat lon = record { lat = lat; lon = lon }

abbrev route : String → List (Point ℕ) → Route ℕ
route id points = record {
  id = id;
  name = "";
  points = points;
  cumulative = [];
  segments = [];
  length = 0;
}

abbrev json : List (Route ℕ) → Json ℕ
json routes = record {
  trim = λ s. s;
  numbers = λ s. none;
  object = λ s. none;
  document = λ read text. some (record { note = []; routes = routes });
}

abbrev circle : List (Route ℕ)
circle = route "r-1" (point 1 1 ∷ point 2 2 ∷ []) ∷ []

abbrev distance : ℕ
distance = haversine numbers (point 1 1) (point 2 2)

abbrev geometry : Geometry ℕ
geometry = record {
  note = [];
  routes =
      record (route "r-1" (point 1 1 ∷ point 2 2 ∷ [])) {
        cumulative = 0 ∷ distance ∷ [];
        segments = distance ∷ [];
        length = distance;
      }
      ∷ [];
}

parsed : parse_geometry numbers (json circle) "" ≡ ok geometry
unfolding parse_geometry prepare_all prepare legs haversine
parsed = refl

-- One point is too few, and an identifier is used once.
too_short :
    parse_geometry numbers (json (route "r-1" (point 1 1 ∷ []) ∷ [])) "" ≡ err (too_few "r-1" 1)
unfolding parse_geometry prepare_all
too_short = refl

abbrev rng : Random ℕ
rng = record { State = ℕ; start = pos_part; int63n = λ s n. (0, s + 1); float64 = λ s. (0, s + 1) }

abbrev config : FleetConfig
config = record { seed = pos 42; vehicles = pos 3 }

new_fleet-Reporting_example :
    (f : Fleet ℕ) × ((new_fleet numbers rng (λ n. "veh") (some geometry) config ≡ some (ok f))
      × Reporting numbers (1 ∷ 1 ∷ []) 1 3 f)
new_fleet-Reporting_example =
    new_fleet-Reporting numbers rng (λ n. "veh") (json circle) "" geometry config (1 ∷ 1 ∷ []) 1
      parsed refl
