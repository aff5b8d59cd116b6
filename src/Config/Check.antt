-- ===== src/Config/Check.antt =====
-- internal/platform/config/config.go: the semantic validation at the end of LoadFor, in its order.
use event_stream_platform.Prelude.{
  String, Bool, not, ◌&&◌, List, [], ◌∷◌, ◌++◌, length, ltb, str_eq, ◌==◌, if◌then◌else◌, Result,
  ok, err,
}
use event_stream_platform.Prelude.Int.{ℤ, pos, ltb_ℤ, leb_ℤ}
use Prim.Native.String.{len}
use event_stream_platform.Config.Types.{
  Postgres, Broker, Consumer, Simulator, Gateway, Config, Role, service, Problem, pool_minimum,
  no_seeds, below_one, below_zero, no_backoff, backoff_below_base, no_ingest_url, no_api_key,
  short_api_key, unknown_env,
}
use event_stream_platform.Config.Env.{Environ, Parsers}
use event_stream_platform.Config.Load.{load_sections}

-- `if test { errs = append(errs, problem) }`
abbrev pub report : Bool → Problem → List Problem
report test problem = if test then problem ∷ [] else []

abbrev pub at_least_one : String → ℤ → List Problem
at_least_one key n = report (ltb_ℤ n (pos 1)) (below_one key n)

unfoldable pub check_pool : Postgres → List Problem
check_pool c = report (ltb_ℤ c.max_conns c.min_conns) (pool_minimum c.min_conns c.max_conns)

unfoldable pub check_broker : Broker → List Problem
check_broker c =
    report (length c.seed_brokers == 0) no_seeds
    ++ at_least_one "BROKER_RAW_PARTITIONS" c.raw_parts
    ++ at_least_one "BROKER_DLQ_PARTITIONS" c.dlq_parts

unfoldable pub check_consumer : Consumer → List Problem
check_consumer c =
    at_least_one "CONSUMER_BATCH_SIZE" c.batch_size
    ++ report (ltb_ℤ c.max_retries (pos 0)) (below_zero "CONSUMER_MAX_RETRIES" c.max_retries)
    ++ report (leb_ℤ c.retry_backoff_base (pos 0)) no_backoff
    ++ report (ltb_ℤ c.retry_backoff_max c.retry_backoff_base)
        (backoff_below_base c.retry_backoff_max c.retry_backoff_base)

unfoldable pub check_gateway : Gateway → List Problem
check_gateway c =
    at_least_one "GATEWAY_CLIENT_BUFFER" c.client_buffer
    ++ at_least_one "GATEWAY_MAX_CLIENTS" c.max_clients

unfoldable pub check_simulator : Simulator → List Problem
check_simulator c =
    at_least_one "SIM_VEHICLES" c.vehicles
    ++ at_least_one "SIM_RATE" c.rate
    ++ at_least_one "SIM_BATCH" c.batch_size
    ++ at_least_one "SIM_WORKERS" c.workers
    ++ at_least_one "SIM_STEP_MS" c.step_ms
    ++ report (str_eq c.ingest_url "") no_ingest_url

-- The API key and APP_ENV.
unfoldable pub check_access : Config → List Problem
check_access c =
    let key = c.ingest.api_key in
    report (str_eq key "" && str_eq c.env "prod") no_api_key
    ++ report (not (str_eq key "") && ltb (len key) 16) short_api_key
    ++ report (not (str_eq c.env "dev") && not (str_eq c.env "prod")) (unknown_env c.env)

unfoldable pub validate : Config → List Problem
validate c =
    check_pool c.postgres
    ++ check_broker c.broker
    ++ at_least_one "INGEST_MAX_BATCH" c.ingest.max_batch_size
    ++ check_consumer c.consumer
    ++ check_gateway c.gateway
    ++ check_simulator c.simulator
    ++ check_access c

-- `if len(errs) > 0 { return Config{}, ... }`
abbrev pub settle : Config → List Problem → Result (List Problem) Config
settle c [] = ok c
settle c (problem ∷ problems) = err (problem ∷ problems)

unfoldable pub load_for : Parsers → Environ → Role → Result (List Problem) Config
load_for p e role = let (c, errs) = load_sections p e role in settle c (errs ++ validate c)

unfoldable pub load : Parsers → Environ → Result (List Problem) Config
load p e = load_for p e service

unfoldable pub is_dev : Config → Bool
is_dev c = str_eq c.env "dev"
