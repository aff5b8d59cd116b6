-- ===== src/Simulator/Moves.antt =====
-- NewFleet places its vehicles, and Step moves each of them once.
use event_stream_platform.Prelude.{
  ℕ, zero, suc, ◌+◌, ◌%◌, ◌^◌, ◌≤◌, ◌≡◌, refl, ap, inl, inr, String, some, List, [], ◌∷◌, map,
  length, get_elem?-within, get_elem?-Holds, arith, All, Holds-All, Option-cases,
}
use event_stream_platform.Simulator.Geometry.{Floats, Route}
use event_stream_platform.Simulator.Fleet.{
  Random, Vehicle, Observation, Fleet, place, place_all, speed_at, move, move_all, step,
}
use event_stream_platform.Simulator.Prepared.{IsPrepared, at_total}
use native.Mathlib.Nat.{mod-lt}

-- A vehicle on a prepared route that has reported n times.
pub record Reported {F : Type 0} (n : ℕ) (v : Vehicle F) : Type 0 where
  pub route : IsPrepared v.route
  pub count : v.sequence ≡ n % 2 ^ 64

module _ {F : Type 0} (fl : Floats F) where
  module _ (rng : Random F) (name : ℕ → String) where
    place_total :
        (routes : List (Route F)) (i : ℕ) (s : rng.State)
        → All IsPrepared routes
        → 1 ≤ length routes
        → (x : Vehicle F × rng.State) × ((place fl rng name routes i s ≡ some x) × Reported 0 x.0)
    unfolding place
    place_total routes i s all h =
        let k = (rng.int63n s (length routes)).0 in
        let (route, found) =
          get_elem?-within routes ((i + k) % length routes) (mod-lt (i + k) (omega (arith, h))) in
        let prepared : IsPrepared route =
          Holds-All IsPrepared routes all (get_elem?-Holds routes _ route found) in
        elim (Option-cases (place fl rng name routes i s)) [
          | inl n ↦ absurd (ground (arith, n, found))
          | inr (x, q) ↦
              let same : x.0.route ≡ route = ground (arith, q, found) in
              let fresh : x.0.sequence ≡ 0 = ground (arith, q, found) in
              (x, (q, record { route = rw same prepared; count = fresh }))
        ]

    pub place_all_total :
        (routes : List (Route F)) (i n : ℕ) (s : rng.State)
        → All IsPrepared routes
        → 1 ≤ length routes
        → (vs : List (Vehicle F)) × ((place_all fl rng name routes i n s ≡ some vs)
            × (All (Reported 0) vs × (length vs ≡ n)))
    unfolding place_all
    place_all_total routes i zero s all h = ([], (refl, (tt, refl)))
    place_all_total routes i (suc n) s all h =
        let (x, (q, ready)) = place_total routes i s all h in
        let (vs, (k, (rest, count))) = place_all_total routes (suc i) n x.1 all h in
        (x.0 ∷ vs, (rw (q, k) refl, ((ready, rest), ap suc count)))

  -- A move reports the vehicle under its next number.
  record Move (n : ℕ) (v : Vehicle F) (o : Observation F) (v' : Vehicle F) : Type 0 where
    ready : Reported (n + 1) v'
    id : v'.id ≡ v.id
    named : o.vehicle_id ≡ v.id
    number : o.sequence ≡ (n + 1) % 2 ^ 64

  move_total :
      (n : ℕ) (dt : F) (v : Vehicle F)
      → Reported n v
      → (m : Observation F × Vehicle F) × ((move fl dt v ≡ some m) × Move n v m.0 m.1)
  unfolding move
  move_total n dt v h =
      let (found, q) =
        at_total fl v.route
          (fl.plus v.offset
            (fl.times (fl.over (speed_at fl v (fl.plus v.elapsed dt)) (fl.decimal 36 1)) dt))
          h.route in
      let number : (v.sequence + 1) % 2 ^ 64 ≡ (n + 1) % 2 ^ 64 = omega (arith, h.count) in
      elim (Option-cases (move fl dt v)) [
        | inl k ↦ absurd (ground (arith, k, q))
        | inr (m, k) ↦
            let same : m.1.route ≡ v.route = ground (arith, k, q) in
            (
              m,
              (
                k,
                record {
                  ready = record { route = rw same h.route; count = ground (arith, k, q, number) };
                  id = ground (arith, k, q);
                  named = ground (arith, k, q);
                  number = ground (arith, k, q, number);
                },
              ),
            )
      ]

  -- The vehicles of a list, moved.
  pub record Moves (n : ℕ) (vs : List (Vehicle F)) (os : List (Observation F))
      (vs' : List (Vehicle F)) : Type 0 where
    pub ready : All (Reported (n + 1)) vs'
    pub ids : map (λ v. v.id) vs' ≡ map (λ v. v.id) vs
    pub named : map (λ o. o.vehicle_id) os ≡ map (λ v. v.id) vs
    pub numbers : All (λ o. o.sequence ≡ (n + 1) % 2 ^ 64) os
    pub count : length os ≡ length vs
    pub count' : length vs' ≡ length vs

  move_all_total :
      (n : ℕ) (dt : F) (vs : List (Vehicle F))
      → All (Reported n) vs
      → (m : List (Observation F) × List (Vehicle F)) × ((move_all fl dt vs ≡ some m)
          × Moves n vs m.0 m.1)
  unfolding move_all
  move_all_total n dt [] h = (
    ([], []),
    (
      refl,
      record { ready = tt; ids = refl; named = refl; numbers = tt; count = refl; count' = refl },
    ),
  )
  move_all_total n dt (v ∷ vs) h =
      let (m, (q, one)) = move_total n dt v h.0 in
      let (rest, (k, all)) = move_all_total n dt vs h.1 in
      (
        (m.0 ∷ rest.0, m.1 ∷ rest.1),
        (
          rw (q, k) refl,
          record {
            ready = (one.ready, all.ready);
            ids = cc (one.id, all.ids);
            named = cc (one.named, all.named);
            numbers = (one.number, all.numbers);
            count = ap suc all.count;
            count' = ap suc all.count';
          },
        ),
      )

  pub step_total :
      (n : ℕ) (dt : F) (f : Fleet F)
      → All (Reported n) f.vehicles
      → (r : List (Observation F) × Fleet F) × ((step fl dt f ≡ some r)
          × Moves n f.vehicles r.0 r.1.vehicles)
  unfolding step
  step_total n dt f h =
      let (m, (q, moves)) = move_all_total n dt f.vehicles h in
      elim (Option-cases (step fl dt f)) [
        | inl k ↦ absurd (ground (arith, k, q))
        | inr (r, k) ↦
            let os : r.0 ≡ m.0 = ground (arith, k, q) in
            let vs : r.1.vehicles ≡ m.1 = ground (arith, k, q) in (r, (k, rw (os, vs) moves))
      ]
