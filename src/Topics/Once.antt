-- ===== src/Topics/Once.antt =====
-- EnsureTopics loses no topic, ends with all that it was asked for, and is idempotent.
use event_stream_platform.Prelude.{
  eq_iff, ◌⊎◌, inl, inr, sym, ◌∙◌, ap, arith, All, Bool-cases, Option-cases, ◌≡◌, refl, String,
  Bool, true, false, none, List, [], ◌∷◌, ◌++◌, str_eq, if◌then◌else◌,
}
use mathlib.Core.List.{append-nil, append_assoc}
use event_stream_platform.Topics.Ensure.{
  TopicSpec, Topic, Answer, done, refused, unanswered, exists_already, Ensured, has_topic, topic_of,
  create_topic, ensure_each, ensure_topics,
}

-- Every spec has its topic.
abbrev pub AllEnsured : List TopicSpec → List Topic → Type 0
AllEnsured ss ts = All (λ s. has_topic s.name ts ≡ true) ss

has_topic-append :
    (n : String) (xs ys : List Topic)
    → has_topic n (xs ++ ys) ≡ (if has_topic n xs then true else has_topic n ys)
has_topic-append n [] ys = refl
has_topic-append n (x ∷ xs) ys = ground (arith, has_topic-append n xs ys)

-- What a run of the loop makes of the topics: more of them, and all that it was asked for where it
-- ends without an error.
record Grown (existing : List Topic) (ss : List TopicSpec) (e e' : Ensured) : Type 0 where
  added : List Topic
  kept : e'.topics ≡ e.topics ++ added
  complete : e'.error ≡ none → AllEnsured ss e'.topics

has_last :
    (n : String) (b : Bool) → (if b then true else (if str_eq n n then true else false)) ≡ true
has_last n true = refl
has_last n false = rw ((eq_iff n n).1 refl) refl

-- A call without an error adds the topic, and one with an error adds nothing.
create_topic-added :
    (s : TopicSpec) (a : Answer) (e : Ensured)
    → (create_topic s a e).error ≡ none
    → (t : Topic) × (((create_topic s a e).topics ≡ e.topics ++ t ∷ []) × (t.name ≡ s.name))
create_topic-added s done e h = (topic_of s, (refl, refl))
create_topic-added s (exists_already t) e h = (record t { name = s.name }, (refl, refl))
create_topic-added s refused e h = absurd (ground arith)
create_topic-added s unanswered e h = absurd (ground arith)

create_topic-refused :
    (s : TopicSpec) (a : Answer) (e : Ensured)
    → e.error ≡ none
    → ((create_topic s a e).topics ≡ e.topics) ⊎ ((create_topic s a e).error ≡ none)
create_topic-refused s done e h = inr h
create_topic-refused s (exists_already t) e h = inr h
create_topic-refused s refused e h = inl refl
create_topic-refused s unanswered e h = inl refl

ensure_each-Grown :
    (existing : List Topic) (answer : String → Answer) (ss : List TopicSpec) (e : Ensured)
    → e.error ≡ none
    → ((n : String) → has_topic n existing ≡ true → has_topic n e.topics ≡ true)
    → Grown existing ss e (ensure_each existing answer ss e)
unfolding ensure_each
ensure_each-Grown existing answer [] e z f = record {
  added = [];
  kept = sym (append-nil e.topics);
  complete = λ n. tt;
}
ensure_each-Grown existing answer (s ∷ ss) e z f = elim (Bool-cases (has_topic s.name existing)) [
  | inl q ↦
      let x = ensure_each-Grown existing answer ss e z f in
      let still : has_topic s.name (ensure_each existing answer ss e).topics ≡ true =
        rw (x.kept, has_topic-append s.name e.topics x.added, f s.name q) refl in
      rw q (record { added = x.added; kept = x.kept; complete = λ n. (still, x.complete n) })
  | inr q ↦
      let made = create_topic s (answer s.name) e in
      elim (Option-cases made.error) [
        | inr (x, k) ↦
            let same : made.topics ≡ e.topics = elim (create_topic-refused s (answer s.name) e z) [
              | inl h ↦ h
              | inr h ↦ absurd (ground (arith, h, k))
            ] in
            rw (q, k, ensure_each)
              (record {
                added = [];
                kept = same ∙ sym (append-nil e.topics);
                complete = λ n. absurd (ground (arith, n, k));
              })
        | inl k ↦
            let (t, (grown, named)) = create_topic-added s (answer s.name) e k in
            let before : (n : String)
                → has_topic n existing ≡ true
                → has_topic n made.topics ≡ true =
              λ n h. rw (grown, has_topic-append n e.topics (t ∷ []), f n h) refl in
            let x = ensure_each-Grown existing answer ss made k before in
            let there : has_topic s.name made.topics ≡ true =
              rw (grown, has_topic-append s.name e.topics (t ∷ []), named)
                (has_last s.name (has_topic s.name e.topics)) in
            let still : has_topic s.name (ensure_each existing answer ss made).topics ≡ true =
              rw (x.kept, has_topic-append s.name made.topics x.added, there) refl in
            rw (q, k, ensure_each)
              (record {
                added = t ∷ x.added;
                kept =
                    x.kept ∙ ap (λ l. l ++ x.added) grown ∙ append_assoc e.topics (t ∷ []) x.added;
                complete = λ n. (still, x.complete n);
              })
      ]
]

ensure_each_idle :
    (existing : List Topic) (answer : String → Answer) (ss : List TopicSpec) (e : Ensured)
    → AllEnsured ss existing
    → ensure_each existing answer ss e ≡ e
unfolding ensure_each
ensure_each_idle existing answer [] e h = refl
ensure_each_idle existing answer (s ∷ ss) e h = rw h.0 (ensure_each_idle existing answer ss e h.1)

-- Whatever the brokers answer, EnsureTopics takes no topic away and reconfigures none.
ensure_topics_grows :
    (lists : Bool) (answer : String → Answer) (specs : List TopicSpec) (existing : List Topic)
    → (added : List Topic) × ((ensure_topics lists answer specs existing).topics
        ≡ existing ++ added)
unfolding ensure_topics
ensure_topics_grows false answer specs existing = ([], sym (append-nil existing))
ensure_topics_grows true answer specs existing =
    let x =
      ensure_each-Grown existing answer specs
        (record { topics = existing; created = []; error = none }) refl (λ n h. h) in
    (x.added, x.kept)

ensure_topics_complete :
    (lists : Bool) (answer : String → Answer) (specs : List TopicSpec) (existing : List Topic)
    → (ensure_topics lists answer specs existing).error ≡ none
    → AllEnsured specs (ensure_topics lists answer specs existing).topics
unfolding ensure_topics
ensure_topics_complete false answer specs existing n = absurd (ground (arith, n))
ensure_topics_complete true answer specs existing n =
    (ensure_each-Grown existing answer specs
        (record { topics = existing; created = []; error = none }) refl (λ n h. h)).complete
      n

-- Where EnsureTopics returns no error: the topics after it are those before it, none of them
-- reconfigured, and some more; every spec has its topic; and running it again, whatever would be
-- answered, creates nothing and changes nothing.
pub ensure_topics_once :
    (lists : Bool) (answer again : String → Answer) (specs : List TopicSpec) (existing : List Topic)
    → (ensure_topics lists answer specs existing).error ≡ none
    → let first = ensure_topics lists answer specs existing in
      ((added : List Topic) × (first.topics ≡ existing ++ added))
      × AllEnsured specs first.topics
      × (ensure_topics true again specs first.topics
          ≡ record { topics = first.topics; created = []; error = none })
unfolding ensure_topics
ensure_topics_once lists answer again specs existing n =
    let all = ensure_topics_complete lists answer specs existing n in
    (ensure_topics_grows lists answer specs existing, all, ensure_each_idle _ again specs _ all)
