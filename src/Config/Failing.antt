-- ===== src/Config/Failing.antt =====
-- What is wrong with a configuration that was read, said without the code: the sizes, durations, names
-- and keys that LoadFor must not accept, and the problem that each is. All of them are among those that
-- the validation names.
use event_stream_platform.Prelude.{
  ◌<◌, ◌≡◌, ◌≢◌, refl, String, Bool, true, List, [], ◌∷◌, ◌++◌, length, arith, str_eq, eq_iff, All,
  Holds, here, Holds-All, Holds-append, Holds-append_right, ltb, not, ◌&&◌, ◌==◌,
}
use event_stream_platform.Prelude.Int.{ℤ, pos, ◌≤ℤ◌, ◌<ℤ◌, ltb_ℤ, leb_ℤ}
use Prim.Native.String.{len}
use event_stream_platform.Config.Types.{
  Config, Problem, pool_minimum, no_seeds, below_one, below_zero, no_backoff, backoff_below_base,
  no_ingest_url, no_api_key, short_api_key, unknown_env,
}
use event_stream_platform.Config.Check.{
  report, at_least_one, check_pool, check_broker, check_consumer, check_gateway, check_simulator,
  check_access, validate,
}

-- The variables whose values must be at least 1.
abbrev pub sized : Config → List (String × ℤ)
sized c =
    ("BROKER_RAW_PARTITIONS", c.broker.raw_parts)
    ∷ ("BROKER_DLQ_PARTITIONS", c.broker.dlq_parts)
    ∷ ("INGEST_MAX_BATCH", c.ingest.max_batch_size)
    ∷ ("CONSUMER_BATCH_SIZE", c.consumer.batch_size)
    ∷ ("GATEWAY_CLIENT_BUFFER", c.gateway.client_buffer)
    ∷ ("GATEWAY_MAX_CLIENTS", c.gateway.max_clients)
    ∷ ("SIM_VEHICLES", c.simulator.vehicles)
    ∷ ("SIM_RATE", c.simulator.rate)
    ∷ ("SIM_BATCH", c.simulator.batch_size)
    ∷ ("SIM_WORKERS", c.simulator.workers)
    ∷ ("SIM_STEP_MS", c.simulator.step_ms)
    ∷ []

pub data Failing (c : Config) : Problem → Type 0 where
  pool :
      c.postgres.max_conns <ℤ c.postgres.min_conns
      → Failing c (pool_minimum c.postgres.min_conns c.postgres.max_conns)
  seeds : c.broker.seed_brokers ≡ [] → Failing c no_seeds
  size :
      (key : String) (n : ℤ) → Holds (key, n) (sized c) → n <ℤ pos 1 → Failing c (below_one key n)
  retries :
      c.consumer.max_retries <ℤ pos 0
      → Failing c (below_zero "CONSUMER_MAX_RETRIES" c.consumer.max_retries)
  base : c.consumer.retry_backoff_base ≤ℤ pos 0 → Failing c no_backoff
  max :
      c.consumer.retry_backoff_max <ℤ c.consumer.retry_backoff_base
      → Failing c (backoff_below_base c.consumer.retry_backoff_max c.consumer.retry_backoff_base)
  url : c.simulator.ingest_url ≡ "" → Failing c no_ingest_url
  open_ingest : c.ingest.api_key ≡ "" → c.env ≡ "prod" → Failing c no_api_key
  short_key : c.ingest.api_key ≢ "" → len c.ingest.api_key < 16 → Failing c short_api_key
  env : c.env ≢ "dev" → c.env ≢ "prod" → Failing c (unknown_env c.env)

Names : List Problem → String × ℤ → Type 0
Names problems x = x.1 <ℤ pos 1 → Holds (below_one x.0 x.1) problems

Names-append : (xs ys : List Problem) (x : String × ℤ) → Names xs x → Names (xs ++ ys) x
unfolding Names
Names-append xs ys x h k = Holds-append _ xs ys (h k)

Names-append_right : (xs ys : List Problem) (x : String × ℤ) → Names ys x → Names (xs ++ ys) x
unfolding Names
Names-append_right xs ys x h k = Holds-append_right _ xs ys (h k)

report-Holds : (test : Bool) (problem : Problem) → test ≡ true → Holds problem (report test problem)
report-Holds test problem h = rw h (here refl)

at_least_one-Names : (key : String) (n : ℤ) → Names (at_least_one key n) (key, n)
unfolding Names
at_least_one-Names key n k = report-Holds _ _ (ground (arith, k))

ruleset sizes = (Names-append, Names-append_right, at_least_one-Names)

ruleset checks = (Holds-append, Holds-append_right, report-Holds)

sized-Names : (c : Config) → All (Names (validate c)) (sized c)
unfolding validate check_broker check_consumer check_gateway check_simulator
sized-Names c = search sizes depth 40 fits 20000

pub Failing-Holds :
    (c : Config) (problem : Problem) → Failing c problem → Holds problem (validate c)
unfolding Names validate check_pool check_broker check_consumer check_gateway check_simulator
    check_access
Failing-Holds c _ (pool h) =
    let t : ltb_ℤ c.postgres.max_conns c.postgres.min_conns ≡ true = ground (arith, h) in
    search checks depth 40 fits 20000
Failing-Holds c _ (seeds h) =
    let t : (length c.broker.seed_brokers == 0) ≡ true = rw h (ground arith) in
    search checks depth 40 fits 20000
Failing-Holds c _ (size key n k h) = Holds-All (Names (validate c)) (sized c) (sized-Names c) k h
Failing-Holds c _ (retries h) =
    let t : ltb_ℤ c.consumer.max_retries (pos 0) ≡ true = ground (arith, h) in
    search checks depth 40 fits 20000
Failing-Holds c _ (base h) =
    let t : leb_ℤ c.consumer.retry_backoff_base (pos 0) ≡ true = ground (arith, h) in
    search checks depth 40 fits 20000
Failing-Holds c _ (max h) =
    let t : ltb_ℤ c.consumer.retry_backoff_max c.consumer.retry_backoff_base ≡ true =
      ground (arith, h) in
    search checks depth 40 fits 20000
Failing-Holds c _ (url h) =
    let t : str_eq c.simulator.ingest_url "" ≡ true = (eq_iff c.simulator.ingest_url "").1 h in
    search checks depth 40 fits 20000
Failing-Holds c _ (open_ingest k h) =
    let t : (str_eq c.ingest.api_key "" && str_eq c.env "prod") ≡ true =
      ground (arith, (eq_iff c.ingest.api_key "").1 k, (eq_iff c.env "prod").1 h) in
    search checks depth 40 fits 20000
Failing-Holds c _ (short_key k h) =
    let t : (not (str_eq c.ingest.api_key "") && ltb (len c.ingest.api_key) 16) ≡ true =
      ground (arith, eq_iff c.ingest.api_key "", k, h) in
    search checks depth 40 fits 20000
Failing-Holds c _ (env k h) =
    let t : (not (str_eq c.env "dev") && not (str_eq c.env "prod")) ≡ true =
      ground (arith, eq_iff c.env "dev", eq_iff c.env "prod", k, h) in
    search checks depth 40 fits 20000
