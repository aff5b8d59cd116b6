-- ===== src/Simulator/Geometry.antt =====
-- internal/simulator/simulator.go: points, and what ParseGeometry makes of the routes. Go's float64 arithmetic and package math are
-- a parameter, as is encoding/json.
use event_stream_platform.Prelude.{
  ℕ, suc, String, Bool, true, false, ◌&&◌, Option, List, [], ◌∷◌, length, ltb, ◌==◌, str_eq,
  if◌then◌else◌, Result, ok, err, or_fail, ◌>>=◌, ◌>>◌,
}
use text.Mathlib.Text.{starts_with}

-- The operations of a float64 that the package uses, and the constants that it writes. `decimal m n`
-- is m / 10 ^ n.
pub record Floats (F : Type 0) : Type 0 where
  pub plus : F → F → F
  pub minus : F → F → F
  pub times : F → F → F
  pub over : F → F → F
  pub lt : F → F → Bool
  pub le : F → F → Bool
  pub same : F → F → Bool
  pub decimal : ℕ → ℕ → F
  pub of_nat : ℕ → F
  pub pi : F
  pub sin : F → F
  pub cos : F → F
  pub asin : F → F
  pub sqrt : F → F
  pub round : F → F
  pub least : F → F → F
  pub modulo : F → F → F
  pub atan2 : F → F → F
  pub search : List F → F → ℕ

pub record Point (F : Type 0) : Type 0 where
  pub lat : F
  pub lon : F

pub record Route (F : Type 0) : Type 0 where
  pub id : String
  pub name : String
  pub points : List (Point F)
  pub cumulative : List F
  pub segments : List F
  pub length : F

pub record Geometry (F : Type 0) : Type 0 where
  pub note : List String
  pub routes : List (Route F)

pub data PointError : Type 0 where
  not_json : PointError
  not_a_pair : ℕ → PointError

pub data GeometryError : Type 0 where
  unparsed no_routes : GeometryError
  no_id : ℕ → GeometryError
  repeated : String → GeometryError
  too_few : String → ℕ → GeometryError
  no_length : String → GeometryError

-- What the package takes from strings and encoding/json: a decoder of the document calls
-- UnmarshalJSON for each point.
pub record Json (F : Type 0) : Type 0 where
  pub trim : String → String
  pub numbers : String → Option (List F)
  pub object : String → Option (Point F)
  pub document : (String → Result PointError (Point F)) → String → Option (Geometry F)

module _ {F : Type 0} where
  abbrev pub pair_point : List F → Result PointError (Point F)
  pair_point (lat ∷ lon ∷ []) = ok (record { lat = lat; lon = lon })
  pair_point pair = err (not_a_pair (length pair))

  unfoldable pub unmarshal_point : Json F → String → Result PointError (Point F)
  unmarshal_point j raw =
      if starts_with (j.trim raw) "["
      then (or_fail (j.numbers raw) not_json >>= pair_point)
      else or_fail (j.object raw) not_json

module _ {F : Type 0} (fl : Floats F) where
  abbrev pub half : F → F
  half x = fl.over x (fl.of_nat 2)

  abbrev pub radians : F → F
  radians x = fl.over (fl.times x fl.pi) (fl.of_nat 180)

  -- earthRadiusM
  abbrev pub earth_radius_m : F
  earth_radius_m = fl.decimal 63710088 1

  unfoldable pub haversine : Point F → Point F → F
  haversine a b =
      let lat1 = radians a.lat in
      let lat2 = radians b.lat in
      let d_lat = radians (fl.minus b.lat a.lat) in
      let d_lon = radians (fl.minus b.lon a.lon) in
      let h = fl.plus (fl.times (fl.sin (half d_lat)) (fl.sin (half d_lat))) (
        fl.times (fl.times (fl.times (fl.cos lat1) (fl.cos lat2)) (fl.sin (half d_lon)))
          (fl.sin (half d_lon))) in
      fl.times (fl.times (fl.of_nat 2) earth_radius_m)
        (fl.asin (fl.least (fl.of_nat 1) (fl.sqrt h)))

  unfoldable pub bearing : Point F → Point F → F
  bearing a b =
      let lat1 = radians a.lat in
      let lat2 = radians b.lat in
      let d_lon = radians (fl.minus b.lon a.lon) in
      let y = fl.times (fl.sin d_lon) (fl.cos lat2) in
      let x =
        fl.minus (fl.times (fl.cos lat1) (fl.sin lat2))
          (fl.times (fl.times (fl.sin lat1) (fl.cos lat2)) (fl.cos d_lon)) in
      if fl.same x (fl.of_nat 0) && fl.same y (fl.of_nat 0)
      then fl.of_nat 0
      else fl.modulo
          (fl.plus (fl.over (fl.times (fl.atan2 y x) (fl.of_nat 180)) fl.pi) (fl.of_nat 360))
          (fl.of_nat 360)

  -- The loop of prepare, from a running total: the lengths of the segments, the totals, the last.
  unfoldable pub legs : List (Point F) → F → List F × (List F × F)
  legs [] total = ([], ([], total))
  legs (p ∷ []) total = ([], ([], total))
  legs (p ∷ q ∷ ps) total =
      let d = haversine p q in
      let (segments, (totals, end)) = legs (q ∷ ps) (fl.plus total d) in
      (d ∷ segments, (fl.plus total d ∷ totals, end))

  -- prepare, of a route that has a point.
  unfoldable pub prepare : Route F → Result GeometryError (Route F)
  prepare r =
      let (segments, (totals, total)) = legs r.points (fl.of_nat 0) in
      if fl.le total (fl.of_nat 0)
      then err (no_length r.id)
      else ok (record r { segments = segments; cumulative = fl.of_nat 0 ∷ totals; length = total })

  abbrev pub is_seen : String → List String → Bool
  is_seen id [] = false
  is_seen id (x ∷ xs) = if str_eq x id then true else is_seen id xs

  abbrev pub refuse_if : Bool → GeometryError → Result GeometryError (Unit {0})
  refuse_if test e = if test then err e else ok tt

  -- The loop of ParseGeometry, over the routes from index i on.
  unfoldable pub prepare_all :
      List String → ℕ → List (Route F) → Result GeometryError (List (Route F))
  prepare_all seen i [] = ok []
  prepare_all seen i (r ∷ rs) = do
    refuse_if (str_eq r.id "") (no_id i)
    refuse_if (is_seen r.id seen) (repeated r.id)
    refuse_if (ltb (length r.points) 2) (too_few r.id (length r.points))
    route ← prepare r
    rest ← prepare_all (r.id ∷ seen) (suc i) rs
    ok (route ∷ rest)

  unfoldable pub parse_geometry : Json F → String → Result GeometryError (Geometry F)
  parse_geometry j text = do
    g ← or_fail (j.document (unmarshal_point j) text) unparsed
    refuse_if (length g.routes == 0) no_routes
    routes ← prepare_all [] 0 g.routes
    ok (record g { routes = routes })
