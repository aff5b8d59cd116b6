-- ===== src/Config/Malformed.antt =====
-- The variables that LoadFor cannot read, said without the code: not set, blank, naming no level, or with a
-- text that does not parse. Each is among the problems of what LoadFor reads.
use event_stream_platform.Prelude.{
  ◌≡◌, ◌≢◌, refl, sym, eq_iff, inl, inr, String, false, Option, none, some, List, [], ◌∷◌, ◌++◌,
  arith, str_eq, All, Bool-cases, Holds, here, Holds-All, Holds-append, Holds-append_right,
}
use mathlib.Core.Path.{subst}
use event_stream_platform.Prelude.Int.{ℤ}
use event_stream_platform.Config.Types.{
  Role, service, Problem, required, unknown_level, not_an_integer, not_a_duration,
}
use event_stream_platform.Config.Env.{
  Environ, Parsers, Loader, env_string, env_required, parse_level, env_int, env_duration,
}
use event_stream_platform.Config.Load.{
  load_sections, load_url, load_postgres, load_redis, load_broker, load_ingest, load_consumer,
  load_simulator, load_gateway,
}

-- The variables of each section that are read as an integer, or as a duration.
abbrev pub int_keys : List String
int_keys =
    "DB_MAX_CONNS" ∷ "DB_MIN_CONNS" ∷ "BROKER_RAW_PARTITIONS" ∷ "BROKER_DLQ_PARTITIONS"
    ∷ "INGEST_MAX_BODY_BYTES" ∷ "INGEST_MAX_BATCH" ∷ "CONSUMER_BATCH_SIZE" ∷ "CONSUMER_MAX_RETRIES"
    ∷ "SIM_VEHICLES" ∷ "SIM_SEED" ∷ "SIM_RATE" ∷ "SIM_BATCH" ∷ "SIM_WORKERS" ∷ "SIM_STEP_MS"
    ∷ "GATEWAY_CLIENT_BUFFER" ∷ "GATEWAY_MAX_CLIENTS" ∷ []

abbrev pub duration_keys : List String
duration_keys =
    "DB_MAX_CONN_LIFETIME" ∷ "DB_CONNECT_TIMEOUT" ∷ "REDIS_DIAL_TIMEOUT" ∷ "REDIS_READ_TIMEOUT"
    ∷ "REDIS_WRITE_TIMEOUT" ∷ "BROKER_RETENTION" ∷ "BROKER_DLQ_RETENTION"
    ∷ "INGEST_SHUTDOWN_TIMEOUT" ∷ "INGEST_READ_TIMEOUT" ∷ "INGEST_WRITE_TIMEOUT"
    ∷ "INGEST_IDLE_TIMEOUT" ∷ "CONSUMER_COMMIT_INTERVAL" ∷ "CONSUMER_SHUTDOWN_TIMEOUT"
    ∷ "CONSUMER_RETRY_BACKOFF_BASE" ∷ "CONSUMER_RETRY_BACKOFF_MAX" ∷ "SIM_DURATION"
    ∷ "GATEWAY_REPLAY_WINDOW" ∷ "GATEWAY_SHUTDOWN_TIMEOUT" ∷ "GATEWAY_READ_TIMEOUT"
    ∷ "GATEWAY_WRITE_TIMEOUT" ∷ []

-- A variable's text that is not blank and does not parse.
pub record IsGarbled (p : Parsers) (e : Environ) (parse : String → Option ℤ) (key raw : String)
    : Type 0 where
  pub is_set : e key ≡ some raw
  pub not_blank : str_eq (p.trim raw) "" ≡ false
  pub fails : parse (p.trim raw) ≡ none

-- What LOG_LEVEL may say, once trimmed and in lower case.
abbrev pub level_names : List String
level_names = "debug" ∷ "info" ∷ "" ∷ "warn" ∷ "warning" ∷ "error" ∷ []

pub data Malformed (p : Parsers) (e : Environ) (role : Role) : Problem → Type 0 where
  unset : role ≡ service → e "DATABASE_URL" ≡ none → Malformed p e role (required "DATABASE_URL")
  blank :
      (raw : String)
      → role ≡ service
      → e "DATABASE_URL" ≡ some raw
      → p.trim raw ≡ ""
      → Malformed p e role (required "DATABASE_URL")
  level :
      (raw : String)
      → e "LOG_LEVEL" ≡ some raw
      → All (λ name. p.lower (p.trim (p.trim raw)) ≢ name) level_names
      → Malformed p e role (unknown_level (p.trim raw))
  integer :
      (key raw : String)
      → Holds key int_keys
      → IsGarbled p e p.atoi key raw
      → Malformed p e role (not_an_integer key raw)
  duration :
      (key raw : String)
      → Holds key duration_keys
      → IsGarbled p e p.duration key raw
      → Malformed p e role (not_a_duration key raw)

Reported :
    (p : Parsers) (e : Environ)
    → (String → Option ℤ)
    → (String → String → Problem)
    → List Problem
    → String
    → Type 0
Reported p e parse problem problems key =
    (raw : String) → IsGarbled p e parse key raw → Holds (problem key raw) problems

only-Holds :
    (problem : Problem) (problems : List Problem) → problems ≡ problem ∷ [] → Holds problem problems
only-Holds problem problems h = rw h (here refl)

module _ (p : Parsers) (e : Environ) where
  module _ (parse : String → Option ℤ) (problem : String → String → Problem) (key : String)
      (xs ys : List Problem) where
    Reported-append : Reported p e parse problem xs key → Reported p e parse problem (xs ++ ys) key
    unfolding Reported
    Reported-append h raw g = Holds-append _ xs ys (h raw g)

    Reported-append_right :
        Reported p e parse problem ys key → Reported p e parse problem (xs ++ ys) key
    unfolding Reported
    Reported-append_right h raw g = Holds-append_right _ xs ys (h raw g)

  env_int-Reported :
      (key : String) (def : ℤ) → Reported p e p.atoi not_an_integer (env_int p e key def).1 key
  unfolding Reported env_int
  env_int-Reported key def raw g = only-Holds _ _ (ground (arith, g.is_set, g.not_blank, g.fails))

  env_duration-Reported :
      (key : String) (def : ℤ)
      → Reported p e p.duration not_a_duration (env_duration p e key def).1 key
  unfolding Reported env_duration
  env_duration-Reported key def raw g =
      only-Holds _ _ (ground (arith, g.is_set, g.not_blank, g.fails))

  ruleset reports =
      (Reported-append, Reported-append_right, env_int-Reported, env_duration-Reported)

  int_keys-Reported :
      (role : Role) → All (Reported p e p.atoi not_an_integer (load_sections p e role).1) int_keys
  unfolding load_sections load_postgres load_broker load_ingest load_consumer load_simulator
      load_gateway
  int_keys-Reported role = search reports depth 40 fits 20000

  duration_keys-Reported :
      (role : Role)
      → All (Reported p e p.duration not_a_duration (load_sections p e role).1) duration_keys
  unfolding load_sections load_postgres load_redis load_broker load_ingest load_consumer
      load_simulator load_gateway
  duration_keys-Reported role = search reports depth 40 fits 20000

str_eq_no : (s t : String) → s ≢ t → str_eq s t ≡ false
str_eq_no s t h = elim (Bool-cases (str_eq s t)) [
  | inl q ↦ absurd (h ((eq_iff s t).0 q))
  | inr q ↦ q
]

parse_level-Holds :
    (p : Parsers) (raw : String)
    → All (λ name. p.lower (p.trim raw) ≢ name) level_names
    → Holds (unknown_level raw) (parse_level p raw).1
unfolding parse_level
parse_level-Holds p raw (a, (b, (c, (d, (e, (f, z)))))) =
    let name = p.lower (p.trim raw) in
    rw
      (
        str_eq_no name "debug" a,
        str_eq_no name "info" b,
        str_eq_no name "" c,
        str_eq_no name "warn" d,
        str_eq_no name "warning" e,
        str_eq_no name "error" f,
      )
      (here refl)

-- The problems of the level and of the database URL are those of LoadFor.
module _ (p : Parsers) (e : Environ) where
  url-Holds :
      (problem : Problem)
      → Holds problem (load_url p e service).1
      → Holds problem (load_sections p e service).1
  unfolding load_sections load_postgres
  url-Holds problem h = Holds-append_right _ _ _ (Holds-append _ _ _ (Holds-append _ _ _ h))

  unset-Holds :
      e "DATABASE_URL" ≡ none → Holds (required "DATABASE_URL") (load_sections p e service).1
  unfolding load_url env_required
  unset-Holds h =
      let named : env_required p e "DATABASE_URL" ≡ ("", required "DATABASE_URL" ∷ []) =
        ground (arith, h) in
      url-Holds _
        (subst (λ (l : Loader String). Holds (required "DATABASE_URL") l.1) (sym named) (here refl))

  blank-Holds :
      (raw : String)
      → e "DATABASE_URL" ≡ some raw
      → p.trim raw ≡ ""
      → Holds (required "DATABASE_URL") (load_sections p e service).1
  unfolding load_url env_required
  blank-Holds raw h k =
      let named : env_required p e "DATABASE_URL" ≡ ("", required "DATABASE_URL" ∷ []) =
        ground (arith, h, (eq_iff (p.trim raw) "").1 k) in
      url-Holds _
        (subst (λ (l : Loader String). Holds (required "DATABASE_URL") l.1) (sym named) (here refl))

  level-Holds :
      (role : Role) (raw : String)
      → e "LOG_LEVEL" ≡ some raw
      → All (λ name. p.lower (p.trim (p.trim raw)) ≢ name) level_names
      → Holds (unknown_level (p.trim raw)) (load_sections p e role).1
  unfolding load_sections env_string
  level-Holds role raw h k =
      let text : env_string p e "LOG_LEVEL" "info" ≡ p.trim raw = ground (arith, h) in
      let found : Holds (unknown_level (p.trim raw))
          (parse_level p (env_string p e "LOG_LEVEL" "info")).1 =
        rw text (parse_level-Holds p (p.trim raw) k) in
      Holds-append _ _ _ found

pub Malformed-Holds :
    (p : Parsers) (e : Environ) (role : Role) (problem : Problem)
    → Malformed p e role problem
    → Holds problem (load_sections p e role).1
unfolding Reported
Malformed-Holds p e _ _ (unset r h) = rw r (unset-Holds p e h)
Malformed-Holds p e _ _ (blank raw r h k) = rw r (blank-Holds p e raw h k)
Malformed-Holds p e role _ (level raw h k) = level-Holds p e role raw h k
Malformed-Holds p e role _ (integer key raw k g) =
    Holds-All (Reported p e p.atoi not_an_integer (load_sections p e role).1) int_keys
      (int_keys-Reported p e role) k raw g
Malformed-Holds p e role _ (duration key raw k g) =
    Holds-All (Reported p e p.duration not_a_duration (load_sections p e role).1) duration_keys
      (duration_keys-Reported p e role) k raw g
