-- ===== src/Consumer/Backoff.antt =====
-- internal/consumer/consumer.go: backoff and isPermanent.
use event_stream_platform.Prelude.{
  ℕ, zero, suc, ◌+◌, ◌-◌, ◌*◌, ◌^◌, Bool, true, false, ltb, leb, str_eq, if◌then◌else◌,
}
use text.Mathlib.Text.{starts_with}
use event_stream_platform.Prelude.Int.{ℤ, pos, negsuc, ltb_ℤ}
use event_stream_platform.Sink.Transaction.{DbError, pg, other}
use event_stream_platform.Consumer.State.{Options}

-- `d *= 2` of an int64.
unfoldable pub double64 : ℤ → ℤ
double64 (pos n) = if ltb (2 * n) (2 ^ 63) then pos (2 * n) else negsuc (2 ^ 64 - 2 * n - 1)
double64 (negsuc n) =
    if leb (2 * n + 2) (2 ^ 63) then negsuc (2 * n + 1) else pos (2 ^ 64 - 2 * n - 2)

-- `for i := 1; i < attempt && d < max; i++ { d *= 2 }`, by the rounds that `i` leaves.
unfoldable pub doublings : ℕ → ℤ → ℤ → ℤ
doublings zero top d = d
doublings (suc n) top d = let rest = doublings n top (double64 d) in if ltb_ℤ d top then rest else d

unfoldable pub backoff : Options → ℕ → ℤ
backoff o attempt =
    let d = doublings (attempt - 1) o.backoff_max o.backoff_base in
    if ltb_ℤ o.backoff_max d then o.backoff_max else d

unfoldable pub is_permanent : DbError → Bool
is_permanent (pg code) =
    if starts_with code "23"
    then true
    else if starts_with code "22"
    then true
    else if starts_with code "08"
    then false
    else if str_eq code "40001"
    then false
    else if str_eq code "40P01"
    then false
    else false
is_permanent other = false
