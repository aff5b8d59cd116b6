-- ===== src/Http/Agree.antt =====
-- What /readyz answers does not depend on the order in which the checks end.
use event_stream_platform.Prelude.{ℕ, ◌≡◌, String, Option, some, List, All}
use event_stream_platform.Http.Checks.{Check}

-- Checks that share a name or a gauge with this one have its outcome: with names and gauges of their
-- own, all do.
pub record IsOwn (fn : Check → Option String) (r : Check) (checks : List Check) : Type 0 where
  pub name : All (λ c. c.name ≡ r.name → fn c ≡ fn r) checks
  pub gauge : All (λ c. (g : ℕ) → c.gauge ≡ some g → r.gauge ≡ some g → fn c ≡ fn r) checks
