-- ===== src/Simulator/Track.antt =====
-- internal/simulator/simulator.go: At. sort.SearchFloat64s is a parameter.
use event_stream_platform.Prelude.{
  ℕ, suc, ◌-◌, Option, none, some, length, get_elem?, leb, if◌then◌else◌,
}
use event_stream_platform.Simulator.Geometry.{Floats, Point, Route, bearing}

-- An index out of range panics.
infixl 5 ◌>>=?◌
abbrev pub ◌>>=?◌ : {A B : Type 0} → Option A → (A → Option B) → Option B
none >>=? f = none
some a >>=? f = f a

module _ {F : Type 0} (fl : Floats F) where
  -- Wrapped into [0, length).
  abbrev pub wrap : Route F → F → F
  wrap r offset =
      let off = fl.modulo offset r.length in
      if fl.lt off (fl.of_nat 0) then fl.plus off r.length else off

  -- The index of the segment; an index below 0 is 0.
  unfoldable pub segment_at : Route F → F → ℕ
  segment_at r off =
      let i = fl.search r.cumulative off - 1 in
      if leb (length r.segments) i then length r.segments - 1 else i

  abbrev pub clamped : F → F
  clamped t =
      if fl.lt t (fl.of_nat 0)
      then fl.of_nat 0
      else if fl.lt (fl.of_nat 1) t
      then fl.of_nat 1
      else t

  unfoldable pub between : Point F → Point F → F → Point F
  between a b t = record {
    lat = fl.plus a.lat (fl.times (fl.minus b.lat a.lat) t);
    lon = fl.plus a.lon (fl.times (fl.minus b.lon a.lon) t);
  }

  unfoldable pub at : Route F → F → Option (Point F × F)
  at r offset =
      if fl.le r.length (fl.of_nat 0)
      then (get_elem? r.points 0 >>=? λ p. some (p, fl.of_nat 0))
      else (let off = wrap r offset in
          let i = segment_at r off in
          get_elem? r.segments i >>=? λ seg. get_elem? r.points i >>=? λ a.
          get_elem? r.points (suc i) >>=? λ b.
          (if fl.le seg (fl.of_nat 0)
            then some (a, bearing fl a b)
            else (get_elem? r.cumulative i >>=? λ from.
                some (between a b (clamped (fl.over (fl.minus off from) seg)), bearing fl a b))))
