-- ===== src/Config/Wiring.antt =====
-- cmd/consumer, cmd/ingest and cmd/gateway: what run makes of the configuration that config.Load
-- returned, and that the constructors take it.
use event_stream_platform.Prelude.{◌*◌, ◌≡◌, true, false, arith, str_eq, if◌then◌else◌, ok}
use event_stream_platform.Prelude.Int.{pos, eq_ℤ, ◌≤ℤ◌}
use event_stream_platform.Consumer.State.{new, with_defaults}
use event_stream_platform.Event.Types.{second}
use event_stream_platform.Config.Types.{Config, service}
use event_stream_platform.Config.Env.{Environ, Parsers}
use event_stream_platform.Config.Check.{load}
use event_stream_platform.Config.Valid.{load_for-IsValid}
use event_stream_platform.Ingest.Handler as Handler
use event_stream_platform.Gateway.Hub as Hub
use event_stream_platform.Consumer.State as State

unfoldable pub worker_options : Config → State.Options
worker_options c = record {
  topic = c.broker.raw_topic;
  batch_size = c.consumer.batch_size;
  max_retries = c.consumer.max_retries;
  backoff_base = c.consumer.retry_backoff_base;
  backoff_max = c.consumer.retry_backoff_max;
}

unfoldable pub events_options : Config → Handler.Options
events_options c = record {
  topic = c.broker.raw_topic;
  source = "ingest";
  api_key = c.ingest.api_key;
  max_body_bytes = c.ingest.max_body_bytes;
  max_batch_size = c.ingest.max_batch_size;
}

-- The fields that run leaves out are zero.
unfoldable pub gateway_options : Config → Hub.Options
gateway_options c = record {
  client_buffer = c.gateway.client_buffer;
  max_clients = c.gateway.max_clients;
  replay_limit = pos 0;
  heartbeat_interval = pos 0;
}

-- Every binary starts with the numbers it was configured with. With a configuration that Load returned,
-- whose topic is named and whose body limit is at least 1, the constructors of the consumer, the ingest
-- handler and the hub return, and change nothing of it, but that a consumer configured with no retry
-- gets 5, and that the hub's two limits that are not configured get their defaults.
pub load_wires :
    (p : Parsers) (e : Environ) (c : Config)
    → load p e ≡ ok c
    → str_eq c.broker.raw_topic "" ≡ false
    → pos 1 ≤ℤ c.ingest.max_body_bytes
    → (State.new
          (record { client = true; store = true; dead_letterer = true; logger = true })
          (worker_options c)
        ≡ ok (record (worker_options c) {
          max_retries =
              if eq_ℤ c.consumer.max_retries (pos 0) then pos 5 else c.consumer.max_retries;
        }))
      × (Handler.new true true (events_options c) ≡ ok (events_options c))
      × (Hub.new true true true (gateway_options c)
          ≡ ok (record (gateway_options c) {
            replay_limit = pos 1000;
            heartbeat_interval = pos (15 * second);
          }))
unfolding load State.new with_defaults Handler.new Hub.new worker_options events_options
    gateway_options
load_wires p e c h topic body =
    let valid = (load_for-IsValid p e service c h).0 in
    let batch = valid.consumer.batch in
    let retries = valid.consumer.retries in
    let base = valid.consumer.base in
    let max = valid.consumer.max in
    let events = valid.batch in
    let buffer = valid.gateway.buffer in
    let clients = valid.gateway.clients in (ground arith, ground arith, ground arith)
