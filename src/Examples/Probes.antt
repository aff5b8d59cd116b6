-- ===== src/Examples/Probes.antt =====
-- internal/platform/httpserver: three checks, of which one fails and ends first.
use event_stream_platform.Prelude.{String, Option, none, some, List, [], ◌∷◌, str_eq, if◌then◌else◌}
use event_stream_platform.Http.Checks.{Check}

abbrev postgres : Check
postgres = record { name = "postgres"; gauge = some 0 }

abbrev broker : Check
broker = record { name = "broker"; gauge = some 1 }

abbrev redis : Check
redis = record { name = "redis"; gauge = none }

abbrev outcome : Check → Option String
outcome c = if str_eq c.name "broker" then some "timed out" else none

abbrev checks : List Check
checks = postgres ∷ broker ∷ redis ∷ []

abbrev arrivals : List Check
arrivals = broker ∷ postgres ∷ redis ∷ []
