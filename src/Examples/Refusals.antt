-- ===== src/Examples/Refusals.antt =====
-- The reads and the refusals of internal/sink at concrete inputs, and internal/replay.
use event_stream_platform.Prelude.{
  ℕ, ◌≤◌, ◌≡◌, refl, ◌≢◌, ◌⊎◌, true, none, some, List, [], ◌∷◌, ◌++◌, map, length, All, Holds, here,
  there, ok,
}
use event_stream_platform.Prelude.Int.{pos}
use event_stream_platform.Broker.{Record, wire, produce, failed}
use event_stream_platform.Broker.Durable.{produce_all}
use event_stream_platform.Sink.Tables.{Db, empty, PositionRow, DeadRow, dead, unknown}
use event_stream_platform.Sink.Transaction.{healthy}
use event_stream_platform.Sink.Views.{select_since, comes_after}
use event_stream_platform.Sink.Resume.{
  IsOrdered, NotAfter, select_since-IsOrdered, select_since_complete,
}
use event_stream_platform.Sink.DeadLetters.{
  DeadLetter, record_dead_letter, dead_letter_body, dead_row, reason_of, upsert_dead_letter,
}
use event_stream_platform.Sink.Refusals.{IsDead, IsReplayConsistent, record_dead_letter-IsDead}
use event_stream_platform.Replay.Queue.{mark_replayed}
use event_stream_platform.Replay.Replayer.{ReplayEnv}
use event_stream_platform.Replay.Marks.{Replaying, replay-Replaying}
use event_stream_platform.Replay.States.{
  mark_replayed_once, mark_replayed-IsReplayConsistent, record_dead_letter-IsReplayConsistent,
}
use event_stream_platform.Examples.Fixtures.{store, at, place, fine, fine-FateLaws}

abbrev row : ℕ → ℕ → PositionRow
row id ts = record {
  event_id = id;
  vehicle_id = "bus-7";
  route_id = "r-1";
  lat = place;
  lon = place;
  speed_kph = none;
  bearing_deg = none;
  event_ts = ts;
  produced_at = ts;
  ingested_at = ts;
  partition = 0;
  offset = id;
  sequence = pos id;
}

-- Two reports of one second and one later.
abbrev rows : List PositionRow
rows = row 3 7 ∷ row 2 5 ∷ row 1 5 ∷ []

select_since-IsOrdered_example :
    All (λ r. (comes_after 5 1 r ≡ true) × Holds r rows) (select_since 5 1 1 rows)
    × IsOrdered (select_since 5 1 1 rows)
    × (length (select_since 5 1 1 rows) ≤ 1)
select_since-IsOrdered_example = select_since-IsOrdered 5 1 1 rows

select_since_complete_example :
    Holds (row 2 5) (select_since 5 1 1 rows)
    ⊎ ((length (select_since 5 1 1 rows) ≡ 1)
        × All (λ s. NotAfter s (row 2 5)) (select_since 5 1 1 rows))
select_since_complete_example = select_since_complete 5 1 1 rows (row 2 5) (there (here refl)) refl

abbrev letter : DeadLetter
letter = record {
  event_id = "id-1";
  key = "bus-7";
  payload = some (9 ∷ []);
  error = "no";
  reason = "decode";
  attempts = 1;
  topic = "vehicle.events";
  partition = 0;
  offset = 4;
  first_seen = 0;
}

abbrev refused : Db
refused = (record_dead_letter store (healthy (at 300)) letter empty).1

refused_ok : (record_dead_letter store (healthy (at 300)) letter empty).0 ≡ ok tt
unfolding record_dead_letter dead_letter_body dead_row reason_of upsert_dead_letter
refused_ok = refl

record_dead_letter-IsDead_example : IsDead store "id-1" refused
record_dead_letter-IsDead_example =
    record_dead_letter-IsDead store (healthy (at 300)) letter empty tt refused_ok

record_dead_letter-IsReplayConsistent_example : All IsReplayConsistent refused.dead_letters
record_dead_letter-IsReplayConsistent_example =
    record_dead_letter-IsReplayConsistent store (healthy (at 300)) letter empty tt

abbrev waiting : DeadRow
waiting = record {
  event_id = 1;
  raw_payload = 9 ∷ [];
  error = "no";
  reason = unknown;
  attempts = 1;
  first_failed_at = 3;
  last_failed_at = 3;
  topic = "vehicle.events";
  partition = 0;
  offset = 4;
  state = dead;
  replayed_at = none;
}

abbrev queue : Db
queue = record empty { dead_letters = waiting ∷ [] }

mark_replayed-IsReplayConsistent_example :
    All IsReplayConsistent (mark_replayed store (healthy (at 301)) "id-1" queue).1.dead_letters
mark_replayed-IsReplayConsistent_example =
    mark_replayed-IsReplayConsistent store (healthy (at 301)) "id-1" queue
      (((λ h. refl), (λ h. refl)), tt)

marked_ok : (mark_replayed store (healthy (at 301)) "id-1" queue).0 ≡ ok true
unfolding mark_replayed
marked_ok = refl

mark_replayed_once_example :
    (mark_replayed store
      (healthy (at 302))
      "id-1"
      (mark_replayed store (healthy (at 301)) "id-1" queue).1).0
    ≢ ok true
mark_replayed_once_example =
    mark_replayed_once store (healthy (at 301)) (healthy (at 302)) "id-1" queue (tt, tt) marked_ok

abbrev operator : ReplayEnv
operator = record { read_fault = none; produce = fine; meanwhile = λ db. db; tx = healthy (at 303) }

replay-Replaying_example :
    Replaying store (λ n. "4") operator "id-1" (record { log = []; db = queue })
replay-Replaying_example =
    replay-Replaying store (λ n. "4") operator "id-1" (record { log = []; db = queue })
      fine-FateLaws

abbrev two_records : List Record
two_records =
    record { key = "a"; value = 1 ∷ []; headers = ("y", "2") ∷ ("x", "1") ∷ [] }
    ∷ record { key = "b"; value = 2 ∷ []; headers = [] }
    ∷ []

produced_ok : (produce "vehicle.events" fine two_records []).0 ≡ ok tt
unfolding produce failed
produced_ok = refl

produce_all_example :
    (produce "vehicle.events" fine two_records []).1 ≡ [] ++ map (wire "vehicle.events") two_records
produce_all_example = produce_all "vehicle.events" fine two_records [] tt fine-FateLaws produced_ok
