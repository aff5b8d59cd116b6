-- ===== src/Topics/Ensure.antt =====
-- internal/platform/broker/broker.go: EnsureTopics. The brokers' answers are a parameter.
use event_stream_platform.Prelude.{
  ℕ, ◌/◌, String, Bool, true, false, Option, none, some, List, [], ◌∷◌, ◌++◌, str_eq, if◌then◌else◌,
}
use event_stream_platform.Prelude.Int.{ℤ, pos, ltb_ℤ, pos_part, int32}

-- A duration is a number of nanoseconds.
pub record TopicSpec : Type 0 where
  pub name : String
  pub partitions : ℤ
  pub retention : ℤ

-- A topic of the brokers': retention.ms is a text of milliseconds where it was set.
pub record Topic : Type 0 where
  pub name : String
  pub partitions : ℤ
  pub retention_ms : Option ℕ

-- An answer to CreateTopics of one name: done, there already (the topic of another run that came
-- first), refused by the broker, or no answer.
pub data Answer : Type 0 where
  done refused unanswered : Answer
  exists_already : Topic → Answer

pub data TopicError : Type 0 where
  no_list : TopicError
  not_created : String → TopicError

-- The topics after a call, those that it created, and its error.
pub record Ensured : Type 0 where
  pub topics : List Topic
  pub created : List String
  pub error : Option TopicError

abbrev pub has_topic : String → List Topic → Bool
has_topic n [] = false
has_topic n (t ∷ ts) = if str_eq t.name n then true else has_topic n ts

abbrev pub topic_of : TopicSpec → Topic
topic_of s = record {
  name = s.name;
  partitions = int32 s.partitions;
  retention_ms = if ltb_ℤ (pos 0) s.retention then some (pos_part s.retention / 1000000) else none;
}

-- One topic that is missing: the call for it and what its answer leaves.
abbrev pub create_topic : TopicSpec → Answer → Ensured → Ensured
create_topic s done e = record e {
  topics = e.topics ++ topic_of s ∷ [];
  created = e.created ++ s.name ∷ [];
}
create_topic s (exists_already t) e = record e {
  topics = e.topics ++ record t { name = s.name } ∷ [];
}
create_topic s refused e = record e { error = some (not_created s.name) }
create_topic s unanswered e = record e { error = some (not_created s.name) }

-- The loop over the specs, against the topics that were listed first.
unfoldable pub ensure_each : List Topic → (String → Answer) → List TopicSpec → Ensured → Ensured
ensure_each existing answer [] e = e
ensure_each existing answer (s ∷ ss) e =
    let skipped = ensure_each existing answer ss e in
    let made = create_topic s (answer s.name) e in
    let went_on = ensure_each existing answer ss made in
    if has_topic s.name existing
    then skipped
    else elim made.error [ none ↦ went_on | some x ↦ made ]

unfoldable pub ensure_topics :
    (lists : Bool) (answer : String → Answer) → List TopicSpec → List Topic → Ensured
ensure_topics lists answer specs existing =
    let start : Ensured = record { topics = existing; created = []; error = none } in
    if lists then ensure_each existing answer specs start else record start { error = some no_list }
