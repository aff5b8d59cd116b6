-- ===== src/Config/Valid.antt =====
-- LoadFor returns a configuration only when every check of it passed, and it returns one whenever
-- nothing is to be reported.
use event_stream_platform.Prelude.{
  ◌≤◌, ◌≡◌, refl, sym, ◌⊎◌, inl, inr, String, Bool, true, false, List, [], ◌∷◌, ◌++◌, length, arith,
  str_eq, eq_iff, All, Bool-cases, ok,
}
use event_stream_platform.Prelude.Int.{ℤ, pos, ltb_ℤ, ◌≤ℤ◌}
use Prim.Native.String.{len}
use event_stream_platform.Config.Types.{
  Broker, Consumer, Simulator, Gateway, Config, Role, service, producer, Problem, below_one,
}
use event_stream_platform.Config.Env.{Environ, Parsers, trim_each, split_non_empty, env_required}
use event_stream_platform.Config.Load.{load_sections, load_broker, load_postgres, load_url}
use event_stream_platform.Config.Check.{
  report, at_least_one, check_pool, check_broker, check_consumer, check_gateway, check_simulator,
  check_access, validate, settle, load_for,
}

append_nil {ℓ} : {A : Type ℓ} (xs ys : List A) → (xs ++ ys) ≡ [] → (xs ≡ []) × (ys ≡ [])
append_nil [] ys h = (refl, h)
append_nil (x ∷ xs) ys h = absurd (ground arith)

report_nil : (test : Bool) (problem : Problem) → report test problem ≡ [] → test ≡ false
report_nil true problem h = absurd (ground arith)
report_nil false problem h = refl

at_least_one_nil : (key : String) (n : ℤ) → at_least_one key n ≡ [] → pos 1 ≤ℤ n
at_least_one_nil key n h = ground (arith, report_nil (ltb_ℤ n (pos 1)) (below_one key n) h)

-- The checks of the broker's section.
pub record BrokerFits (c : Broker) : Type 0 where
  pub seeds : 1 ≤ length c.seed_brokers
  pub named : All (λ seed. str_eq seed "" ≡ false) c.seed_brokers
  pub raw : pos 1 ≤ℤ c.raw_parts
  pub dlq : pos 1 ≤ℤ c.dlq_parts

pub record ConsumerFits (c : Consumer) : Type 0 where
  pub batch : pos 1 ≤ℤ c.batch_size
  pub retries : pos 0 ≤ℤ c.max_retries
  pub base : pos 1 ≤ℤ c.retry_backoff_base
  pub max : c.retry_backoff_base ≤ℤ c.retry_backoff_max

pub record GatewayFits (c : Gateway) : Type 0 where
  pub buffer : pos 1 ≤ℤ c.client_buffer
  pub clients : pos 1 ≤ℤ c.max_clients

pub record SimulatorFits (c : Simulator) : Type 0 where
  pub vehicles : pos 1 ≤ℤ c.vehicles
  pub rate : pos 1 ≤ℤ c.rate
  pub batch : pos 1 ≤ℤ c.batch_size
  pub workers : pos 1 ≤ℤ c.workers
  pub step : pos 1 ≤ℤ c.step_ms
  pub url : str_eq c.ingest_url "" ≡ false

-- No endpoint without a key in production, and no key that is short.
pub record AccessFits (c : Config) : Type 0 where
  pub env : (c.env ≡ "dev") ⊎ (c.env ≡ "prod")
  pub guarded : c.env ≡ "prod" → 16 ≤ len c.ingest.api_key
  pub long : str_eq c.ingest.api_key "" ≡ false → 16 ≤ len c.ingest.api_key

pub record IsValid (c : Config) : Type 0 where
  pub pool : c.postgres.min_conns ≤ℤ c.postgres.max_conns
  pub broker : BrokerFits c.broker
  pub batch : pos 1 ≤ℤ c.ingest.max_batch_size
  pub consumer : ConsumerFits c.consumer
  pub gateway : GatewayFits c.gateway
  pub simulator : SimulatorFits c.simulator
  pub access : AccessFits c

check_consumer-ConsumerFits : (c : Consumer) → check_consumer c ≡ [] → ConsumerFits c
unfolding check_consumer
check_consumer-ConsumerFits c h = record {
  batch = ground arith;
  retries = ground arith;
  base = ground arith;
  max = ground arith;
}

check_gateway-GatewayFits : (c : Gateway) → check_gateway c ≡ [] → GatewayFits c
unfolding check_gateway
check_gateway-GatewayFits c h = record { buffer = ground arith; clients = ground arith }

check_simulator-SimulatorFits : (c : Simulator) → check_simulator c ≡ [] → SimulatorFits c
unfolding check_simulator
check_simulator-SimulatorFits c h = record {
  vehicles = ground arith;
  rate = ground arith;
  batch = ground arith;
  workers = ground arith;
  step = ground arith;
  url = ground arith;
}

trim_each-All :
    (p : Parsers) (parts : List String) → All (λ seed. str_eq seed "" ≡ false) (trim_each p parts)
unfolding trim_each
trim_each-All p [] = tt
trim_each-All p (part ∷ parts) = elim (Bool-cases (str_eq (p.trim part) "")) [
  | inl q ↦ rw q (trim_each-All p parts)
  | inr q ↦ rw q (q, trim_each-All p parts)
]

check_broker-BrokerFits :
    (c : Broker)
    → All (λ seed. str_eq seed "" ≡ false) c.seed_brokers
    → check_broker c ≡ []
    → BrokerFits c
unfolding check_broker
check_broker-BrokerFits c named h = record {
  seeds = ground arith;
  named = named;
  raw = ground arith;
  dlq = ground arith;
}

check_access-AccessFits : (c : Config) → check_access c ≡ [] → AccessFits c
unfolding check_access
check_access-AccessFits c h = record {
  env = ground (arith, eq_iff c.env "dev", eq_iff c.env "prod");
  guarded = λ q. ground (arith, eq_iff c.env "prod");
  long = λ q. ground arith;
}

settle_ok :
    (c d : Config) (problems : List Problem) → settle c problems ≡ ok d → (problems ≡ []) × (d ≡ c)
settle_ok c d [] h = (refl, ground arith)
settle_ok c d (problem ∷ problems) h = absurd (ground arith)

-- What validate checked, once what was read is known to have named seed brokers.
validate-IsValid :
    (c : Config)
    → All (λ seed. str_eq seed "" ≡ false) c.broker.seed_brokers
    → validate c ≡ []
    → IsValid c
unfolding validate
validate-IsValid c named h =
    let (rest, access) = append_nil _ (check_access c) h in
    let (rest, simulator) = append_nil _ (check_simulator c.simulator) rest in
    let (rest, gateway) = append_nil _ (check_gateway c.gateway) rest in
    let (rest, consumer) = append_nil _ (check_consumer c.consumer) rest in
    let (rest, batch) =
      append_nil _ (at_least_one "INGEST_MAX_BATCH" c.ingest.max_batch_size) rest in
    let (pool, broker) = append_nil (check_pool c.postgres) (check_broker c.broker) rest in
    record {
      pool = unfold check_pool in ground (arith, pool);
      broker = check_broker-BrokerFits c.broker named broker;
      batch = at_least_one_nil "INGEST_MAX_BATCH" c.ingest.max_batch_size batch;
      consumer = check_consumer-ConsumerFits c.consumer consumer;
      gateway = check_gateway-GatewayFits c.gateway gateway;
      simulator = check_simulator-SimulatorFits c.simulator simulator;
      access = check_access-AccessFits c access;
    }

-- A service's database URL is required, and what is returned of it is not blank.
load_url_service :
    (p : Parsers) (e : Environ)
    → (load_url p e service).1 ≡ []
    → str_eq (load_url p e service).0 "" ≡ false
unfolding load_url env_required
load_url_service p e h = ground arith

load_sections_url :
    (p : Parsers) (e : Environ)
    → (load_sections p e service).1 ≡ []
    → str_eq (load_sections p e service).0.postgres.url "" ≡ false
unfolding load_sections load_postgres
load_sections_url p e h =
    load_url_service p e (append_nil _ _ (append_nil _ _ (append_nil _ _ h).1).0).0

role_cases : (role : Role) → (role ≡ producer) ⊎ (role ≡ service)
role_cases producer = inl refl
role_cases service = inr refl

-- A configuration that LoadFor returns passed every check: the pool can have its minimum, there is a
-- seed broker and none has a blank name, each size that must be at least 1 is, the backoffs are
-- ordered, and in production there is an API key, of at least 16 bytes. A service also has a
-- database URL.
pub load_for-IsValid :
    (p : Parsers) (e : Environ) (role : Role) (c : Config)
    → load_for p e role ≡ ok c
    → IsValid c × ((role ≡ producer) ⊎ (str_eq c.postgres.url "" ≡ false))
unfolding load_for
load_for-IsValid p e role c h =
    let (nothing, same) = settle_ok (load_sections p e role).0 c _ h in
    let (read, checked) = append_nil (load_sections p e role).1 _ nothing in
    let named : All (λ seed. str_eq seed "" ≡ false)
        (load_sections p e role).0.broker.seed_brokers =
      unfold load_sections load_broker split_non_empty in trim_each-All p _ in
    (
      rw same (validate-IsValid (load_sections p e role).0 named checked),
      elim (role_cases role) [
        | inl q ↦ inl q
        | inr q ↦ inr (rw same (rw q (load_sections_url p e (rw (sym q) read))))
      ],
    )
