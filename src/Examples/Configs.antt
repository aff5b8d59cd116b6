-- ===== src/Examples/Configs.antt =====
-- internal/platform/config at concrete environments.
use event_stream_platform.Prelude.{
  ◌+◌, ◌-◌, ◌*◌, ◌^◌, ◌≡◌, ◌⊎◌, true, false, refl, inl, String, none, some, List, [], ◌∷◌, arith,
  str_eq, if◌then◌else◌, Holds, here, there, ok, err,
}
use event_stream_platform.Prelude.Int.{pos, negsuc, int32, eq_ℤ, ◌≤ℤ◌}
use event_stream_platform.Event.Types.{second}
use event_stream_platform.Config.Types.{
  Config, service, producer, Problem, not_an_integer, required, short_api_key,
}
use event_stream_platform.Config.Env.{
  Environ, Parsers, split_non_empty, trim_each, parse_level, env_string, env_required, env_int,
  env_duration,
}
use event_stream_platform.Config.Load.{
  load_sections, load_url, load_postgres, load_redis, load_broker, load_ingest, load_consumer,
  load_simulator, load_gateway,
}
use event_stream_platform.Config.Check.{
  validate, check_pool, check_broker, check_consumer, check_gateway, check_simulator, check_access,
  load_for, load,
}
use event_stream_platform.Config.Valid.{IsValid, load_for-IsValid}
use event_stream_platform.Config.Malformed.{int_keys, integer}
use event_stream_platform.Config.Reports.{load_for_reports}
use event_stream_platform.Config.Wiring.{
  worker_options, events_options, gateway_options, load_wires,
}
use event_stream_platform.Ingest.Handler as Handler
use event_stream_platform.Gateway.Hub as Hub
use event_stream_platform.Consumer.State as State

-- Texts without blanks, in lower case and without commas.
abbrev parsers : Parsers
parsers = record {
  trim = λ v. v;
  lower = λ v. v;
  split = λ v. v ∷ [];
  atoi = λ v. if str_eq v "0" then some (pos 0) else if str_eq v "12" then some (pos 12) else none;
  duration = λ v. if str_eq v "1s" then some (pos second) else none;
}

abbrev with_value : String → String → Environ → Environ
with_value key value e = λ k. if str_eq k key then some value else e k

abbrev production : Environ
production = with_value "DATABASE_URL" "postgres://db" (
    with_value "APP_ENV" "prod" (
      with_value "INGEST_API_KEY" "0123456789abcdef"
        (with_value "CONSUMER_MAX_RETRIES" "0" (λ k. none))))

abbrev loaded : Config
loaded = (load_sections parsers production service).0

named_topic : str_eq loaded.broker.raw_topic "" ≡ false
unfolding load_sections load_broker env_string
named_topic = refl

body_limit : pos 1 ≤ℤ loaded.ingest.max_body_bytes
unfolding load_sections load_ingest env_int
body_limit = omega arith

sim_rate : Holds "SIM_RATE" int_keys
sim_rate = there (there (there (there (there (there (there (there (there (there (here refl))))))))))

production_loads : load parsers production ≡ ok loaded
unfolding load load_for load_sections load_url load_postgres load_redis load_broker load_ingest
    load_consumer load_simulator load_gateway parse_level env_string env_required env_int
    env_duration int32 split_non_empty trim_each validate check_pool check_broker check_consumer
    check_gateway check_simulator check_access
production_loads = refl

-- The constructors of the consumer, the ingest handler and the hub take it.
load_wires_example :
    (State.new
        (record { client = true; store = true; dead_letterer = true; logger = true })
        (worker_options loaded)
      ≡ ok (record (worker_options loaded) {
        max_retries =
            if eq_ℤ loaded.consumer.max_retries (pos 0) then pos 5 else loaded.consumer.max_retries;
      }))
    × (Handler.new true true (events_options loaded) ≡ ok (events_options loaded))
    × (Hub.new true true true (gateway_options loaded)
        ≡ ok (record (gateway_options loaded) {
          replay_limit = pos 1000;
          heartbeat_interval = pos (15 * second);
        }))
load_wires_example = load_wires parsers production loaded production_loads named_topic body_limit

load_for-IsValid_example :
    IsValid loaded × ((service ≡ producer) ⊎ (str_eq loaded.postgres.url "" ≡ false))
load_for-IsValid_example =
    load_for-IsValid parsers production service loaded (unfold load in production_loads)

-- A rate that is not a number, beside a missing database URL and a short key.
abbrev broken : Environ
broken = with_value "SIM_RATE" "fast" (with_value "INGEST_API_KEY" "short" (λ k. none))

load_for_reports_example :
    (problems : List Problem) × (load_for parsers broken service ≡ err problems)
    × Holds (not_an_integer "SIM_RATE" "fast") problems
load_for_reports_example =
    load_for_reports parsers broken service (not_an_integer "SIM_RATE" "fast") (
      inl (
        integer "SIM_RATE" "fast" sim_rate
          (record { is_set = refl; not_blank = refl; fails = refl })))

-- All three are reported.
broken_reports :
    load_for parsers broken service
    ≡ err (required "DATABASE_URL" ∷ not_an_integer "SIM_RATE" "fast" ∷ short_api_key ∷ [])
unfolding load_for load_sections load_url load_postgres load_redis load_broker load_ingest
    load_consumer load_simulator load_gateway parse_level env_string env_required env_int
    env_duration int32 split_non_empty trim_each validate check_pool check_broker check_consumer
    check_gateway check_simulator check_access
broken_reports = refl

-- The pool's sizes wrap around.
int32_wraps : int32 (pos (2 ^ 32 + 3)) ≡ pos 3
unfolding int32
int32_wraps = refl

int32_negative : int32 (pos (2 ^ 31)) ≡ negsuc (2 ^ 31 - 1)
unfolding int32
int32_negative = refl
