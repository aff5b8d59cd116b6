-- ===== src/Config/Reports.antt =====
-- LoadFor reports every problem in one pass: each variable that it cannot read and each check that
-- fails is in the one error it returns, whatever else is wrong.
use event_stream_platform.Prelude.{
  ◌≡◌, refl, ◌⊎◌, inl, inr, List, [], ◌∷◌, ◌++◌, Holds, Holds-append, Holds-append_right, err,
}
use event_stream_platform.Config.Types.{Config, Role, Problem}
use event_stream_platform.Config.Env.{Environ, Parsers}
use event_stream_platform.Config.Load.{load_sections}
use event_stream_platform.Config.Check.{validate, settle, load_for}
use event_stream_platform.Config.Malformed.{Malformed, Malformed-Holds}
use event_stream_platform.Config.Failing.{Failing, Failing-Holds}

settle-Holds :
    (c : Config) (problem : Problem) (problems : List Problem)
    → Holds problem problems
    → settle c problems ≡ err problems
settle-Holds c problem [] h = elim h [ ]
settle-Holds c problem (first ∷ rest) h = refl

-- Each problem is reported, whatever the others are. Where DATABASE_URL of a service is not set or
-- blank, LOG_LEVEL names no level, or a variable that is read as an integer or a duration has a text
-- that is not blank and does not parse; or where a size of what was read is below 1, the pool's maximum
-- below its minimum, no seed broker named, the retries or the backoffs out of range, the ingest URL
-- empty, the API key missing in production or short, or APP_ENV neither dev nor prod: LoadFor returns
-- an error, and that problem is one of those it names.
pub load_for_reports :
    (p : Parsers) (e : Environ) (role : Role) (problem : Problem)
    → Malformed p e role problem ⊎ Failing (load_sections p e role).0 problem
    → (problems : List Problem) × (load_for p e role ≡ err problems) × Holds problem problems
unfolding load_for
load_for_reports p e role problem h =
    let found : Holds problem ((load_sections p e role).1 ++ validate (load_sections p e role).0) =
      elim h [
        | inl m ↦ Holds-append _ _ _ (Malformed-Holds p e role problem m)
        | inr v ↦ Holds-append_right _ _ _ (Failing-Holds _ problem v)
      ] in
    (_, settle-Holds (load_sections p e role).0 problem _ found, found)
