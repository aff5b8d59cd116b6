-- ===== src/Http/Checks.antt =====
-- internal/platform/httpserver/httpserver.go: Check, runChecks, the handler of /readyz, and what New and
-- Start decide. A context, a listener and the answers of the dependencies are parameters.
use event_stream_platform.Prelude.{
  ℕ, ◌*◌, String, Bool, true, false, not, ◌&&◌, Option, none, some, List, [], ◌∷◌, length, str_eq,
  ◌==◌, if◌then◌else◌, Result, ok, err,
}
use event_stream_platform.Prelude.Int.{ℤ, pos, ltb_ℤ, leb_ℤ}
use event_stream_platform.Event.Types.{second}

-- A check and the identity of its gauge, where it has one.
pub record Check : Type 0 where
  pub name : String
  pub gauge : Option ℕ

-- The map of results, the verdict, and the values of the gauges.
pub record Checked : Type 0 where
  pub results : String → Option String
  pub all_passed : Bool
  pub gauges : ℕ → ℕ

abbrev pub put : String → String → (String → Option String) → String → Option String
put n v m = λ x. if str_eq x n then some v else m x

abbrev pub set_gauge : Option ℕ → ℕ → (ℕ → ℕ) → ℕ → ℕ
set_gauge none v m = m
set_gauge (some g) v m = λ x. if x == g then v else m x

abbrev pub gauge_value : Option String → ℕ
gauge_value none = 1
gauge_value (some e) = 0

-- What one result, an error's text or none, does.
abbrev pub settle : Check → Option String → Checked → Checked
settle c none s = record s {
  results = put c.name "ok" s.results;
  gauges = set_gauge c.gauge (gauge_value none) s.gauges;
}
settle c (some e) s = record {
  results = put c.name e s.results;
  all_passed = false;
  gauges = set_gauge c.gauge (gauge_value (some e)) s.gauges;
}

-- The results as they arrive: the goroutines end in any order.
unfoldable pub collect : (Check → Option String) → (arrivals : List Check) → Checked → Checked
collect fn [] s = s
collect fn (c ∷ cs) s = collect fn cs (settle c (fn c) s)

unfoldable pub run_checks :
    (Check → Option String) → (arrivals checks : List Check) → (gauges : ℕ → ℕ) → Checked
run_checks fn arrivals checks gauges =
    let nothing : Checked = record { results = λ n. none; all_passed = true; gauges = gauges } in
    if length checks == 0 then nothing else collect fn arrivals nothing

-- The answer of /readyz.
pub record Ready : Type 0 where
  pub code : ℕ
  pub status : String
  pub checks : String → Option String

unfoldable pub readyz : Checked → Ready
readyz s =
    if s.all_passed
    then record { code = 200; status = "ready"; checks = s.results }
    else record { code = 503; status = "not_ready"; checks = s.results }

pub record ServerConfig : Type 0 where
  pub has_logger : Bool
  pub checks : List Check
  pub probe_interval : ℤ
  pub probe_timeout : ℤ

pub data ServerError : Type 0 where
  nil_logger no_listener : ServerError

unfoldable pub new : (listens : Bool) → ServerConfig → Result ServerError ServerConfig
new listens c =
    if not c.has_logger
    then err nil_logger
    else if not listens
    then err no_listener
    else ok (record c {
      probe_timeout = if leb_ℤ c.probe_timeout (pos 0) then pos (3 * second) else c.probe_timeout;
    })

-- Whether Start runs the background prober.
unfoldable pub has_prober : ServerConfig → Bool
has_prober c = ltb_ℤ (pos 0) c.probe_interval && not (length c.checks == 0)
