-- ===== src/Simulator/Runs.antt =====
-- The fleet never indexes out of range, and each step has one report of each vehicle.
use event_stream_platform.Prelude.{
  ℕ, suc, ◌+◌, ◌%◌, ◌^◌, ◌≡◌, refl, ◌∙◌, String, false, Option, some, List, [], ◌∷◌, map, length,
  arith, All, ok,
}
use event_stream_platform.Prelude.Int.{pos, ltb_ℤ, pos_part}
use event_stream_platform.Simulator.Geometry.{Floats, Geometry, Json, parse_geometry}
use event_stream_platform.Simulator.Track.{◌>>=?◌}
use event_stream_platform.Simulator.Fleet.{
  Random, Observation, Fleet, FleetConfig, fleet_of, new_fleet, step,
}
use event_stream_platform.Simulator.Prepared.{parse_geometry-IsPrepared}
use mathlib.Core.Path.{subst}
use event_stream_platform.Simulator.Moves.{Reported, place_all_total, step_total}

module _ {F : Type 0} (fl : Floats F) where
  -- Steps, one after the other.
  unfoldable pub run_steps : List F → Fleet F → Option (Fleet F)
  run_steps [] f = some f
  run_steps (dt ∷ dts) f = step fl dt f >>=? λ r. run_steps dts r.1

  record Ran (n : ℕ) (f f' : Fleet F) : Type 0 where
    ready : All (Reported n) f'.vehicles
    ids : map (λ v. v.id) f'.vehicles ≡ map (λ v. v.id) f.vehicles
    count : length f'.vehicles ≡ length f.vehicles

  run_steps_total :
      (n : ℕ) (dts : List F) (f : Fleet F)
      → All (Reported n) f.vehicles
      → (f' : Fleet F) × ((run_steps dts f ≡ some f') × Ran (n + length dts) f f')
  unfolding run_steps
  run_steps_total n [] f h = (
    f,
    (
      refl,
      record {
        ready = subst (λ k. All (Reported k) f.vehicles) (omega arith) h;
        ids = refl;
        count = refl;
      },
    ),
  )
  run_steps_total n (dt ∷ dts) f h =
      let (r, (q, moves)) = step_total fl n dt f h in
      let (f', (k, ran)) = run_steps_total (n + 1) dts r.1 moves.ready in
      let total : n + 1 + length dts ≡ n + suc (length dts) = omega arith in
      (
        f',
        (
          rw q k,
          record {
            ready = subst (λ k. All (Reported k) f'.vehicles) total ran.ready;
            ids = ran.ids ∙ moves.ids;
            count = ran.count ∙ moves.count';
          },
        ),
      )

  -- What a step returns after some others.
  pub record Reporting (dts : List F) (dt : F) (vehicles : ℕ) (f : Fleet F) : Type 0 where
    pub before : Fleet F
    pub ran : run_steps dts f ≡ some before
    pub answer : List (Observation F) × Fleet F
    pub stepped : step fl dt before ≡ some answer
    pub named : map (λ o. o.vehicle_id) answer.0 ≡ map (λ v. v.id) f.vehicles
    pub numbered : All (λ o. o.sequence ≡ (length dts + 1) % 2 ^ 64) answer.0
    pub count : length answer.0 ≡ vehicles

-- A fleet of at least one vehicle over a geometry that ParseGeometry returned never panics, whatever the
-- floating-point arithmetic, the random numbers and the durations are: NewFleet returns a fleet, and
-- after any number of steps the next returns exactly one observation of each of its vehicles, in the
-- fleet's order, all under the number of the step (a uint64), so no report is missing or repeated.
pub new_fleet-Reporting :
    {F : Type 0} (fl : Floats F) (rng : Random F) (name : ℕ → String) (j : Json F) (text : String)
    (g : Geometry F) (cfg : FleetConfig) (dts : List F) (dt : F)
    → parse_geometry fl j text ≡ ok g
    → ltb_ℤ cfg.vehicles (pos 1) ≡ false
    → (f : Fleet F) × ((new_fleet fl rng name (some g) cfg ≡ some (ok f))
        × Reporting fl dts dt (pos_part cfg.vehicles) f)
unfolding new_fleet
new_fleet-Reporting fl rng name j text g cfg dts dt p h =
    let (prepared, some_route) = parse_geometry-IsPrepared fl j text g p in
    let (vs, (placed, (ready, count))) =
      place_all_total fl rng name g.routes 0 (pos_part cfg.vehicles) (rng.start cfg.seed) prepared
        some_route in
    let f = fleet_of fl rng name g vs in
    let (f', (ran, after)) = run_steps_total fl 0 dts f ready in
    let (answer, (stepped, moves)) =
      step_total fl (length dts) dt f'
        (subst (λ k. All (Reported k) f'.vehicles) (omega arith) after.ready) in
    (
      f,
      (
        ground (arith, some_route, h, placed),
        record {
          before = f';
          ran = ran;
          answer = answer;
          stepped = stepped;
          named = moves.named ∙ after.ids;
          numbered = moves.numbers;
          count = moves.count ∙ after.count ∙ count;
        },
      ),
    )
