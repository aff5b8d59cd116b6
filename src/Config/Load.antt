-- ===== src/Config/Load.antt =====
-- internal/platform/config/config.go: LoadFor, section by section, and its semantic validation.
use event_stream_platform.Prelude.{◌*◌, ◌^◌, String, []}
use event_stream_platform.Prelude.Int.{pos, int32}
use event_stream_platform.Config.Types.{
  seconds, milliseconds, Postgres, Redis, Broker, Ingest, Consumer, Simulator, Gateway, Config,
  Role, service, producer,
}
use event_stream_platform.Config.Env.{
  Environ, Parsers, Loader, ◌>>=◌, split_non_empty, parse_level, env_string, env_required, env_int,
  env_duration,
}

module _ (p : Parsers) (e : Environ) where
  unfoldable pub load_url : Role → Loader String
  load_url producer = (env_string p e "DATABASE_URL" "", [])
  load_url service = env_required p e "DATABASE_URL"

  unfoldable pub load_postgres : Role → Loader Postgres
  load_postgres role = do
    url ← load_url role
    max_conns ← env_int p e "DB_MAX_CONNS" (pos 10)
    min_conns ← env_int p e "DB_MIN_CONNS" (pos 1)
    lifetime ← env_duration p e "DB_MAX_CONN_LIFETIME" (seconds 3600)
    timeout ← env_duration p e "DB_CONNECT_TIMEOUT" (seconds 5)
    (
      record {
        url = url;
        max_conns = int32 max_conns;
        min_conns = int32 min_conns;
        max_conn_lifetime = lifetime;
        connect_timeout = timeout;
      },
      [],
    )

  unfoldable pub load_redis : Loader Redis
  load_redis = do
    dial ← env_duration p e "REDIS_DIAL_TIMEOUT" (seconds 2)
    read ← env_duration p e "REDIS_READ_TIMEOUT" (seconds 3)
    write ← env_duration p e "REDIS_WRITE_TIMEOUT" (seconds 3)
    (
      record {
        url = env_string p e "REDIS_URL" "redis://localhost:6380/0";
        dial_timeout = dial;
        read_timeout = read;
        write_timeout = write;
        channel = env_string p e "REDIS_CHANNEL" "telemetry:live";
      },
      [],
    )

  unfoldable pub load_broker : Loader Broker
  load_broker = do
    raw ← env_int p e "BROKER_RAW_PARTITIONS" (pos 6)
    dlq ← env_int p e "BROKER_DLQ_PARTITIONS" (pos 3)
    retention ← env_duration p e "BROKER_RETENTION" (seconds 86400)
    dlq_retention ← env_duration p e "BROKER_DLQ_RETENTION" (seconds 604800)
    (
      record {
        seed_brokers = split_non_empty p (env_string p e "BROKER_SEEDS" "localhost:19092");
        raw_topic = env_string p e "BROKER_RAW_TOPIC" "telemetry.raw.v1";
        dlq_topic = env_string p e "BROKER_DLQ_TOPIC" "telemetry.dlq.v1";
        raw_parts = raw;
        dlq_parts = dlq;
        retention = retention;
        dlq_retention = dlq_retention;
      },
      [],
    )

  unfoldable pub load_ingest : Loader Ingest
  load_ingest = do
    shutdown ← env_duration p e "INGEST_SHUTDOWN_TIMEOUT" (seconds 15)
    read ← env_duration p e "INGEST_READ_TIMEOUT" (seconds 15)
    write ← env_duration p e "INGEST_WRITE_TIMEOUT" (seconds 30)
    idle ← env_duration p e "INGEST_IDLE_TIMEOUT" (seconds 60)
    body ← env_int p e "INGEST_MAX_BODY_BYTES" (pos (2 * 2 ^ 20))
    batch ← env_int p e "INGEST_MAX_BATCH" (pos 500)
    (
      record {
        addr = env_string p e "INGEST_ADDR" ":8081";
        shutdown_timeout = shutdown;
        read_timeout = read;
        write_timeout = write;
        idle_timeout = idle;
        max_body_bytes = body;
        max_batch_size = batch;
        api_key = env_string p e "INGEST_API_KEY" "";
      },
      [],
    )

  unfoldable pub load_consumer : Loader Consumer
  load_consumer = do
    batch ← env_int p e "CONSUMER_BATCH_SIZE" (pos 200)
    commit ← env_duration p e "CONSUMER_COMMIT_INTERVAL" (seconds 1)
    shutdown ← env_duration p e "CONSUMER_SHUTDOWN_TIMEOUT" (seconds 30)
    retries ← env_int p e "CONSUMER_MAX_RETRIES" (pos 5)
    base ← env_duration p e "CONSUMER_RETRY_BACKOFF_BASE" (milliseconds 250)
    max ← env_duration p e "CONSUMER_RETRY_BACKOFF_MAX" (seconds 30)
    (
      record {
        group = env_string p e "CONSUMER_GROUP" "sink-v1";
        metrics_addr = env_string p e "CONSUMER_METRICS_ADDR" ":9091";
        batch_size = batch;
        commit_interval = commit;
        shutdown_timeout = shutdown;
        max_retries = retries;
        retry_backoff_base = base;
        retry_backoff_max = max;
      },
      [],
    )

  unfoldable pub load_simulator : Loader Simulator
  load_simulator = do
    vehicles ← env_int p e "SIM_VEHICLES" (pos 40)
    seed ← env_int p e "SIM_SEED" (pos 42)
    rate ← env_int p e "SIM_RATE" (pos 200)
    batch ← env_int p e "SIM_BATCH" (pos 20)
    workers ← env_int p e "SIM_WORKERS" (pos 8)
    step ← env_int p e "SIM_STEP_MS" (pos 1000)
    duration ← env_duration p e "SIM_DURATION" (pos 0)
    (
      record {
        ingest_url = env_string p e "SIM_INGEST_URL" "http://localhost:8081/v1/events";
        vehicles = vehicles;
        seed = seed;
        rate = rate;
        batch_size = batch;
        workers = workers;
        step_ms = step;
        duration = duration;
        api_key = env_string p e "INGEST_API_KEY" "";
      },
      [],
    )

  unfoldable pub load_gateway : Loader Gateway
  load_gateway = do
    buffer ← env_int p e "GATEWAY_CLIENT_BUFFER" (pos 256)
    window ← env_duration p e "GATEWAY_REPLAY_WINDOW" (seconds 900)
    clients ← env_int p e "GATEWAY_MAX_CLIENTS" (pos 1000)
    shutdown ← env_duration p e "GATEWAY_SHUTDOWN_TIMEOUT" (seconds 15)
    read ← env_duration p e "GATEWAY_READ_TIMEOUT" (seconds 15)
    write ← env_duration p e "GATEWAY_WRITE_TIMEOUT" (pos 0)
    (
      record {
        addr = env_string p e "GATEWAY_ADDR" ":8082";
        client_buffer = buffer;
        replay_window = window;
        max_clients = clients;
        shutdown_timeout = shutdown;
        read_timeout = read;
        write_timeout = write;
      },
      [],
    )

  -- What LoadFor reads, with the variables that it could not.
  unfoldable pub load_sections : Role → Loader Config
  load_sections role = do
    level ← parse_level p (env_string p e "LOG_LEVEL" "info")
    postgres ← load_postgres role
    redis ← load_redis
    broker ← load_broker
    ingest ← load_ingest
    consumer ← load_consumer
    simulator ← load_simulator
    gateway ← load_gateway
    (
      record {
        env = env_string p e "APP_ENV" "dev";
        log_level = level;
        postgres = postgres;
        redis = redis;
        broker = broker;
        ingest = ingest;
        consumer = consumer;
        gateway = gateway;
        simulator = simulator;
      },
      [],
    )
