-- ===== src/Config/Types.antt =====
-- internal/platform/config/config.go: the configuration, and the problems that LoadFor reports.
use event_stream_platform.Prelude.{ℕ, ◌*◌, String, List}
use event_stream_platform.Prelude.Int.{ℤ, pos}

-- slog.Level.
pub data Level : Type 0 where
  debug info warn error : Level

-- Durations are numbers of nanoseconds.
abbrev pub seconds : ℕ → ℤ
seconds n = pos (n * 1000000000)

abbrev pub milliseconds : ℕ → ℤ
milliseconds n = pos (n * 1000000)

pub record Postgres : Type 0 where
  pub url : String
  pub max_conns : ℤ
  pub min_conns : ℤ
  pub max_conn_lifetime : ℤ
  pub connect_timeout : ℤ

pub record Redis : Type 0 where
  pub url : String
  pub dial_timeout : ℤ
  pub read_timeout : ℤ
  pub write_timeout : ℤ
  pub channel : String

pub record Broker : Type 0 where
  pub seed_brokers : List String
  pub raw_topic : String
  pub dlq_topic : String
  pub raw_parts : ℤ
  pub dlq_parts : ℤ
  pub retention : ℤ
  pub dlq_retention : ℤ

pub record Ingest : Type 0 where
  pub addr : String
  pub shutdown_timeout : ℤ
  pub read_timeout : ℤ
  pub write_timeout : ℤ
  pub idle_timeout : ℤ
  pub max_body_bytes : ℤ
  pub max_batch_size : ℤ
  pub api_key : String

pub record Consumer : Type 0 where
  pub group : String
  pub metrics_addr : String
  pub batch_size : ℤ
  pub commit_interval : ℤ
  pub shutdown_timeout : ℤ
  pub max_retries : ℤ
  pub retry_backoff_base : ℤ
  pub retry_backoff_max : ℤ

pub record Simulator : Type 0 where
  pub ingest_url : String
  pub vehicles : ℤ
  pub seed : ℤ
  pub rate : ℤ
  pub batch_size : ℤ
  pub workers : ℤ
  pub step_ms : ℤ
  pub duration : ℤ
  pub api_key : String

pub record Gateway : Type 0 where
  pub addr : String
  pub client_buffer : ℤ
  pub replay_window : ℤ
  pub max_clients : ℤ
  pub shutdown_timeout : ℤ
  pub read_timeout : ℤ
  pub write_timeout : ℤ

pub record Config : Type 0 where
  pub env : String
  pub log_level : Level
  pub postgres : Postgres
  pub redis : Redis
  pub broker : Broker
  pub ingest : Ingest
  pub consumer : Consumer
  pub gateway : Gateway
  pub simulator : Simulator

pub data Role : Type 0 where
  service producer : Role

-- One entry of `errs`: the format of its text, with the arguments.
pub data Problem : Type 0 where
  required : String → Problem
  not_an_integer not_a_duration : String → String → Problem
  unknown_level : String → Problem
  pool_minimum : ℤ → ℤ → Problem
  no_seeds : Problem
  below_one below_zero : String → ℤ → Problem
  no_backoff : Problem
  backoff_below_base : ℤ → ℤ → Problem
  no_ingest_url no_api_key short_api_key : Problem
  unknown_env : String → Problem
