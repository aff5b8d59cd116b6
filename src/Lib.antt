-- ===== src/Lib.antt =====
-- An event-stream platform for vehicle telemetry. Producers submit batches over HTTP
-- (internal/ingest), which validates each event (internal/event) and produces it to a Kafka topic
-- under its vehicle's key (internal/platform/broker). A consumer (internal/consumer) polls the
-- topic, applies each event to Postgres in one transaction (internal/sink), offers it to a live bus
-- (internal/fanout), refuses what it cannot apply to a dead-letter topic and table, and commits the
-- offsets of each partition's handled prefix. A gateway (internal/gateway) streams the bus to
-- viewers and resumes them from the sink's history. An operator puts dead letters back on the topic
-- (internal/replay). Every binary is configured by the environment (internal/platform/config),
-- migrations make the schema (internal/platform/migrations), and a fleet of simulated vehicles
-- produces a stream to measure with (internal/simulator).
--
-- Prelude has what the modules share: Boolean tests on the native numbers, lists measured by them,
-- signed integers, and Go's pair of a value and an error as Result. Event models
-- internal/event/envelope.go and observation.go: Types the data, Validate the validators, Accept
-- decode, build, marshal and accept. A float64 is a number of units of 2^-1074, an infinity or not a
-- number. encoding/json and uuid.Parse are the parameter Codec, and CodecLaws what is relied on.
-- Fanout models Position.Validate and Publish of internal/fanout/fanout.go, Fanout.Subscriber its
-- Frames, whose messages a parameter parses, Broker Record and Produce of
-- internal/platform/broker/produce.go; the log is the list of the records that the brokers hold.
--
-- Sink models internal/sink over tables that are lists of rows: Tables the rows, Transaction what a
-- transaction does where BEGIN, a statement or COMMIT fails or the acknowledgement of COMMIT is
-- lost, Apply store.go, DeadLetters deadletter.go, Views the reads of store.go and replay_view.go.
-- Postgres's conversions of a value to a column are a parameter. Transactions run one after the
-- other, as the unique keys serialize them. Consumer models internal/consumer: State the options and
-- the world, Backoff, Refuse, One and Batch the functions of consumer.go and deadletter.go, Run the
-- loop over what is polled. The retry loop runs on fuel of one more than MaxRetries, which is always
-- enough. What the world adds to a record or an attempt is a function that the theorems quantify
-- over. Ingest models internal/ingest/handler.go with the replies of internal/platform/httperr,
-- Replay internal/replay/replay.go; in a replay other clients may change the tables before the mark.
-- Gateway models internal/gateway/gateway.go: Hub the set of clients with their buffered channels as
-- steps in any order, Replay the frames that a reconnecting client is written and the current
-- position of a vehicle. Pipeline puts ingest and the consumer together, Examples runs the
-- components at concrete inputs.
--
-- Config models internal/platform/config: Types the configuration, Env the readers of one variable,
-- whose second result is what they append to the errors, Load what LoadFor reads, Check what it
-- refuses, and Wiring the options that cmd/consumer, cmd/ingest and cmd/gateway make of it.
-- Trimming, splitting, numbers and durations are parsed by the parameter Parsers. Migrations models
-- internal/platform/migrations: Files load, Status the bookkeeping table, Up the transactions; the
-- schema and what a migration's statements do to it are parameters, so is the outcome of each BEGIN,
-- statement and COMMIT, and one Up runs at a time. Topics models EnsureTopics of
-- internal/platform/broker/broker.go, with the brokers' answers a parameter. Http models the
-- readiness checks of internal/platform/httpserver, whose results arrive in any order, and RequestId
-- the identifiers of internal/platform/reqid. Simulator models internal/simulator: Geometry what
-- ParseGeometry makes of the routes, Track the movement on a route, Fleet NewFleet and Step. The
-- arithmetic of float64 and the package math are the parameter Floats, math/rand is Random; an index
-- out of range is an answer that is missing.
--
-- Times are nanoseconds from the year 1 and not negative. The messages of errors, logging and the
-- histograms are left out; the counters that count events are part of the states. Not modelled are
-- the heartbeat and the deadline of a stream, the rest of the HTTP server, which is net/http, the
-- flags and signals of the commands, and the pacing of cmd/simulate.
pub mod Prelude
pub mod Event
pub mod Fanout
pub mod Broker
pub mod Topics
pub mod Sink
pub mod Config
pub mod Migrations
pub mod Consumer
pub mod Ingest
pub mod Replay
pub mod Gateway
pub mod Simulator
pub mod Http
pub mod Pipeline
pub mod Examples
