-- ===== src/Ingest/Handler.antt =====
-- internal/ingest/handler.go: New and authorized; internal/platform/httperr/httperr.go: the replies.
-- The messages of the replies, which are for a developer, and the request id are left out.
use event_stream_platform.Prelude.{
  ℕ, String, Bool, true, not, Option, none, some, List, str_eq, if◌then◌else◌, Result, ok, err,
}
use Prim.Native.String.{len, slice}
use text.Mathlib.Text.{starts_with}
use event_stream_platform.Prelude.Int.{ℤ, pos, ltb_ℤ}
use event_stream_platform.Event.Types.{Bytes, Rejection}

-- The fields of Options that the handler reads.
pub record Options : Type 0 where
  pub topic : String
  pub source : String
  pub api_key : String
  pub max_body_bytes : ℤ
  pub max_batch_size : ℤ

pub data NewError : Type 0 where
  nil_publisher no_topic nil_logger small_batch small_body : NewError

unfoldable pub new : (has_publisher has_logger : Bool) → Options → Result NewError Options
new has_publisher has_logger o =
    if not has_publisher
    then err nil_publisher
    else if str_eq o.topic ""
    then err no_topic
    else if not has_logger
    then err nil_logger
    else if ltb_ℤ o.max_batch_size (pos 1)
    then err small_batch
    else if ltb_ℤ o.max_body_bytes (pos 1)
    then err small_body
    else ok (record o { source = if str_eq o.source "" then "ingest" else o.source })

-- A request: the headers X-API-Key and Authorization, empty where there is none, and the body.
pub record Request : Type 0 where
  pub api_key : String
  pub authorization : String
  pub body : Bytes

unfoldable pub trim_prefix : String → String → String
trim_prefix s p = if starts_with s p then slice s (len p) (len s) else s

unfoldable pub authorized : Options → Request → Bool
unfolding trim_prefix
authorized o r =
    let bearer =
      if starts_with r.authorization "Bearer "
      then trim_prefix r.authorization "Bearer "
      else r.api_key in
    let got = if str_eq r.api_key "" then bearer else r.api_key in
    if str_eq o.api_key "" then true else str_eq got o.api_key

-- The replies: an error by its status and code, with the structured details, or the 202.
pub data Reply : Type 0 where
  failed :
      (status : ℕ)
      → (code : String) → (field : Option String) → (limit : Option ℤ) → (received : Option ℕ)
      → Reply
  submitted : (accepted : ℕ) → List Rejection → Reply

abbrev pub unauthorized : Reply
unauthorized = failed 401 "unauthorized" none none none

abbrev pub invalid_body : String → Reply
invalid_body field =
    failed 400 "validation_failed" (if str_eq field "" then none else some field) none none

abbrev pub too_large : ℤ → Reply
too_large limit = failed 413 "payload_too_large" none (some limit) none

abbrev pub batch_too_large : ℤ → ℕ → Reply
batch_too_large limit received =
    failed 400 "validation_failed" (some "events") (some limit) (some received)

abbrev pub unavailable : Reply
unavailable = failed 503 "broker_unavailable" none none none

abbrev pub internal : Reply
internal = failed 500 "internal_error" none none none

abbrev pub status_of : Reply → ℕ
status_of (failed status code field limit received) = status
status_of (submitted accepted rejected) = 202
