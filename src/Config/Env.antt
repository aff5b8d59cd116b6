-- ===== src/Config/Env.antt =====
-- internal/platform/config/config.go: the readers of one environment variable. What they append to
-- `errs` is the second component of a Loader, in the order of the calls.
use event_stream_platform.Prelude.{
  String, Option, none, some, List, [], ◌∷◌, ◌++◌, str_eq, if◌then◌else◌,
}
use event_stream_platform.Prelude.Int.{ℤ}
use event_stream_platform.Config.Types.{
  Level, debug, info, warn, error, Problem, required, not_an_integer, not_a_duration, unknown_level,
}

-- The process environment: os.LookupEnv.
abbrev pub Environ : Type 0
Environ = String → Option String

-- What the code takes from strings, strconv and time: strings.TrimSpace, strings.ToLower,
-- strings.Split on ",", strconv.Atoi and time.ParseDuration, with `none` for an error.
pub record Parsers : Type 0 where
  pub trim : String → String
  pub lower : String → String
  pub split : String → List String
  pub atoi : String → Option ℤ
  pub duration : String → Option ℤ

abbrev pub Loader : Type 0 → Type 0
Loader A = A × List Problem

infixl 5 ◌>>=◌
abbrev pub ◌>>=◌ : {A B : Type 0} → Loader A → (A → Loader B) → Loader B
m >>= f = ((f m.0).0, m.1 ++ (f m.0).1)

-- The parts of a list that are not empty once trimmed.
unfoldable pub trim_each : Parsers → List String → List String
trim_each p [] = []
trim_each p (part ∷ parts) =
    let rest = trim_each p parts in if str_eq (p.trim part) "" then rest else p.trim part ∷ rest

unfoldable pub split_non_empty : Parsers → String → List String
split_non_empty p v = trim_each p (p.split v)

unfoldable pub parse_level : Parsers → String → Loader Level
parse_level p raw =
    let name = p.lower (p.trim raw) in
    if str_eq name "debug"
    then (debug, [])
    else if str_eq name "info"
    then (info, [])
    else if str_eq name ""
    then (info, [])
    else if str_eq name "warn"
    then (warn, [])
    else if str_eq name "warning"
    then (warn, [])
    else if str_eq name "error"
    then (error, [])
    else (info, unknown_level raw ∷ [])

-- A variable's value, parsed, or the default where there is none.
abbrev pub parsed : (String → Option ℤ) → Problem → ℤ → String → Loader ℤ
parsed parse problem def text = elim (parse text) [ none ↦ (def, problem ∷ []) | some n ↦ (n, []) ]

module _ (p : Parsers) (e : Environ) where
  unfoldable pub env_string : String → String → String
  env_string key def = elim (e key) [ none ↦ def | some v ↦ p.trim v ]

  unfoldable pub env_required : String → Loader String
  env_required key = elim (e key) [
    | none ↦ ("", required key ∷ [])
    | some v ↦ if str_eq (p.trim v) "" then ("", required key ∷ []) else (p.trim v, [])
  ]

  unfoldable pub env_int : String → ℤ → Loader ℤ
  env_int key def = elim (e key) [
    | none ↦ (def, [])
    | some raw ↦
        if str_eq (p.trim raw) ""
        then (def, [])
        else parsed p.atoi (not_an_integer key raw) def (p.trim raw)
  ]

  unfoldable pub env_duration : String → ℤ → Loader ℤ
  env_duration key def = elim (e key) [
    | none ↦ (def, [])
    | some raw ↦
        if str_eq (p.trim raw) ""
        then (def, [])
        else parsed p.duration (not_a_duration key raw) def (p.trim raw)
  ]
