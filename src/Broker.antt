-- ===== src/Broker.antt =====
-- internal/platform/broker/produce.go: Record and Produce. The log is the list of what the broker
-- holds, oldest first; the world says of each record whether the broker wrote it and whether it
-- acknowledged it, which may differ.
pub mod Durable
use event_stream_platform.Prelude.{
  ℕ, zero, suc, ◌+◌, ◌-◌, ◌*◌, ◌^◌, ◌≤◌, ◌<◌, min, ◌≡◌, refl, sym, ◌∙◌, ap, ◌≢◌, ◌↔◌, ◌⊎◌, inl, inr,
  String, Bool, true, false, not, ◌&&◌, ◌||◌, Option, none, some, List, [], ◌∷◌, ◌++◌, map, length,
  take, drop, length-append, take-append-drop, take_all, length-take, arith, ltb, leb, ◌==◌, str_eq,
  if◌then◌else◌, eq_iff, All, All-append, All-map, ==_iff, Bool-cases, Option-cases, Result, ok,
  err, check, or_fail, ◌>>=◌, ◌>>◌, Result-cases,
}
use text.Mathlib.Text.{is_le}
use Prim.Native.String.{compare}
use event_stream_platform.Event.Types.{Bytes}

pub record Record : Type 0 where
  pub key : String
  pub value : Bytes
  pub headers : List (String × String)

pub record LogRecord : Type 0 where
  pub topic : String
  pub key : String
  pub value : Bytes
  pub headers : List (String × String)

pub data BrokerError : Type 0 where
  no_topic : BrokerError
  not_acknowledged : ℕ → ℕ → BrokerError

pub record Fate : Type 0 where
  pub is_written : Bool
  pub is_acknowledged : Bool

-- sort.Strings on the keys of the headers
unfoldable pub insert_header : String × String → List (String × String) → List (String × String)
insert_header h [] = h ∷ []
insert_header h (x ∷ xs) = if is_le (compare h.0 x.0) then h ∷ x ∷ xs else x ∷ insert_header h xs

unfoldable pub sort_headers : List (String × String) → List (String × String)
unfolding insert_header
sort_headers [] = []
sort_headers (h ∷ hs) = insert_header h (sort_headers hs)

unfoldable pub wire : String → Record → LogRecord
unfolding sort_headers
wire topic r = record {
  topic = topic;
  key = r.key;
  value = r.value;
  headers = sort_headers r.headers;
}

-- What ProduceSync adds to the log, and how many records it did not get acknowledged.
unfoldable pub written : String → (ℕ → Fate) → ℕ → List Record → List LogRecord
unfolding wire
written topic fate i [] = []
written topic fate i (r ∷ rs) =
    let rest = written topic fate (suc i) rs in
    if (fate i).is_written then wire topic r ∷ rest else rest

unfoldable pub failed : (ℕ → Fate) → ℕ → List Record → ℕ
failed fate i [] = 0
failed fate i (r ∷ rs) =
    let rest = failed fate (suc i) rs in if (fate i).is_acknowledged then rest else suc rest

unfoldable pub produce :
    String
    → (ℕ → Fate)
    → List Record
    → List LogRecord
    → Result BrokerError (Unit {0}) × List LogRecord
produce topic fate [] log = (ok tt, log)
produce topic fate (r ∷ rs) log =
    if str_eq topic ""
    then (err no_topic, log)
    else let n = failed fate 0 (r ∷ rs) in
      (
        if n == 0 then ok tt else err (not_acknowledged n (length (r ∷ rs))),
        log ++ written topic fate 0 (r ∷ rs),
      )

-- What an acknowledgement is worth: an acknowledged record has been written.
pub record FateLaws (fate : ℕ → Fate) : Type 0 where
  pub acknowledged : (i : ℕ) → (fate i).is_acknowledged ≡ true → (fate i).is_written ≡ true
