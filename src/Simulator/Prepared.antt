-- ===== src/Simulator/Prepared.antt =====
-- What ParseGeometry lets through is prepared, and At never indexes out of range on it.
use event_stream_platform.Prelude.{
  ℕ, suc, ◌+◌, ◌≤◌, ◌≡◌, refl, ap, inl, inr, String, some, List, [], ◌∷◌, length, get_elem?-within,
  arith, All, Bool-cases, Option-cases, ok, Result-cases,
}
use event_stream_platform.Simulator.Geometry.{
  Floats, Point, Route, Geometry, Json, legs, prepare, prepare_all, parse_geometry, unmarshal_point,
}
use event_stream_platform.Simulator.Track.{wrap, segment_at, at}

-- The derived distances stand beside the points, of which there are two at least.
pub record IsPrepared {F : Type 0} (r : Route F) : Type 0 where
  pub enough : 2 ≤ length r.points
  pub segments : length r.segments + 1 ≡ length r.points
  pub cumulative : length r.cumulative ≡ length r.points

points-cases :
    {A : Type 0} (xs : List A) → 2 ≤ length xs → (x : A) × ((rest : List A) × (xs ≡ x ∷ rest))
points-cases [] h = absurd (omega arith)
points-cases (x ∷ xs) h = (x, (xs, refl))

module _ {F : Type 0} (fl : Floats F) where
  length-legs :
      (p : Point F) (ps : List (Point F)) (total : F)
      → (length (legs fl (p ∷ ps) total).0 ≡ length ps)
        × (length (legs fl (p ∷ ps) total).1.0 ≡ length ps)
  unfolding legs
  length-legs p [] total = (refl, refl)
  length-legs p (q ∷ ps) total =
      let (a, b) = length-legs q ps (fl.plus total _) in (ap suc a, ap suc b)

  prepare-IsPrepared : (r r' : Route F) → 2 ≤ length r.points → prepare fl r ≡ ok r' → IsPrepared r'
  unfolding prepare
  prepare-IsPrepared r r' h e =
      let (p, (ps, q)) = points-cases r.points h in
      let (a, b) = length-legs p ps (fl.of_nat 0) in
      let kept : r'.points ≡ r.points = ground arith in
      let segments : r'.segments ≡ (legs fl r.points (fl.of_nat 0)).0 = ground arith in
      let cumulative : r'.cumulative ≡ fl.of_nat 0 ∷ (legs fl r.points (fl.of_nat 0)).1.0 =
        ground arith in
      record {
        enough = rw kept h;
        segments = rw (segments, kept, q) (omega (arith, a));
        cumulative = rw (cumulative, kept, q) (omega (arith, b));
      }

  -- The index of the segment is one of a segment.
  segment_at_within :
      (r : Route F) (off : F) → IsPrepared r → suc (segment_at fl r off) ≤ length r.segments
  unfolding segment_at
  segment_at_within r off h = let enough = h.enough in let segments = h.segments in ground arith

  pub at_total :
      (r : Route F) (offset : F) → IsPrepared r → (x : Point F × F) × (at fl r offset ≡ some x)
  unfolding at
  at_total r offset h =
      let off = wrap fl r offset in
      let i = segment_at fl r off in
      let inside = segment_at_within r off h in
      let (p, p_at) = get_elem?-within r.points 0 (omega (arith, h.enough)) in
      let (seg, seg_at) = get_elem?-within r.segments i inside in
      let (a, a_at) = get_elem?-within r.points i (omega (arith, inside, h.segments)) in
      let (b, b_at) = get_elem?-within r.points (suc i) (omega (arith, inside, h.segments)) in
      let (from, from_at) =
        get_elem?-within r.cumulative i (omega (arith, inside, h.segments, h.cumulative)) in
      elim (Option-cases (at fl r offset)) [
        | inr x ↦ x
        | inl n ↦ elim (Bool-cases (fl.le r.length (fl.of_nat 0))) [
          | inl q ↦ absurd (ground (arith, n, q, p_at))
          | inr q ↦ elim (Bool-cases (fl.le seg (fl.of_nat 0))) [
            | inl k ↦ absurd (ground (arith, n, q, seg_at, a_at, b_at, k))
            | inr k ↦ absurd (ground (arith, n, q, seg_at, a_at, b_at, k, from_at))
          ]
        ]
      ]

  prepare_all-IsPrepared :
      (seen : List String) (i : ℕ) (rs rs' : List (Route F))
      → prepare_all fl seen i rs ≡ ok rs'
      → All IsPrepared rs' × (length rs' ≡ length rs)
  unfolding prepare_all
  prepare_all-IsPrepared seen i [] rs' h = let none : rs' ≡ [] = ground arith in rw none (tt, refl)
  prepare_all-IsPrepared seen i (r ∷ rs) rs' h = elim (Result-cases (prepare fl r)) [
    | inr (e, q) ↦ absurd (ground (arith, q))
    | inl (route, q) ↦ elim (Result-cases (prepare_all fl (r.id ∷ seen) (suc i) rs)) [
      | inr (e, k) ↦ absurd (ground (arith, q, k))
      | inl (rest, k) ↦
          let same : rs' ≡ route ∷ rest = ground (arith, q, k) in
          let enough : 2 ≤ length r.points = ground (arith, q, k) in
          let (all, count) = prepare_all-IsPrepared (r.id ∷ seen) (suc i) rs rest k in
          rw same ((prepare-IsPrepared r route enough q, all), ap suc count)
    ]
  ]

  pub parse_geometry-IsPrepared :
      (j : Json F) (text : String) (g : Geometry F)
      → parse_geometry fl j text ≡ ok g
      → All IsPrepared g.routes × (1 ≤ length g.routes)
  unfolding parse_geometry
  parse_geometry-IsPrepared j text g h = elim (Option-cases (j.document (unmarshal_point j) text)) [
    | inl q ↦ absurd (ground (arith, q))
    | inr (read, q) ↦ elim (Result-cases (prepare_all fl [] 0 read.routes)) [
      | inr (e, k) ↦ absurd (ground (arith, q, k))
      | inl (routes, k) ↦
          let same : g.routes ≡ routes = ground (arith, q, k) in
          let some_read : 1 ≤ length read.routes = ground (arith, q, k) in
          let (all, count) = prepare_all-IsPrepared [] 0 read.routes routes k in
          rw same (all, omega (arith, count, some_read))
    ]
  ]
