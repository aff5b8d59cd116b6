-- ===== src/Replay/States.antt =====
-- The states of the dead letters: dead until replayed, and replayed at a time.
use event_stream_platform.Prelude.{
  ℕ, ◌≡◌, refl, sym, ◌∙◌, ap, ◌≢◌, inl, inr, String, Bool, true, false, some, List, [], ◌∷◌, ◌++◌,
  map, arith, All, All-append, ==_iff, Bool-cases, Option-cases, ok,
}
use event_stream_platform.Sink.Tables.{Db, DeadRow, find, update}
use event_stream_platform.Sink.Transaction.{TxEnv}
use event_stream_platform.Sink.Apply.{Store}
use event_stream_platform.Sink.DeadLetters.{
  DeadLetter, is_dead_letter, waits, refused_again, record_dead_letter, upsert_dead_letter,
}
use event_stream_platform.Sink.Refusals.{
  IsReplayConsistent, record_dead_letter-atomic, dead_row-fields,
}
use event_stream_platform.Sink.History.{Distinct}
use event_stream_platform.Replay.Queue.{mark, mark_replayed, is_waiting, touches}
use event_stream_platform.Replay.Marks.{unchanged, marked, mark_replayed-Marking, update-waiting}

All-update {ℓ} :
    (P : DeadRow → Type ℓ) (p : DeadRow → Bool) (f : DeadRow → DeadRow) (rows : List DeadRow)
    → ((r : DeadRow) → P r → P (f r))
    → All P rows
    → All P (update p f rows)
All-update P p f [] k h = tt
All-update P p f (r ∷ rows) k h = elim (Bool-cases (p r)) [
  | inl q ↦ rw q (k r h.0, h.1)
  | inr q ↦ rw q (h.0, All-update P p f rows k h.1)
]

mark-IsReplayConsistent : (now : ℕ) (r : DeadRow) → IsReplayConsistent (mark now r)
mark-IsReplayConsistent now r = ((λ h. absurd (ground arith)), (λ h. absurd (ground arith)))

-- If every dead letter is dead exactly as long as it has no time of replay, then this is so after
-- MarkReplayed too.
pub mark_replayed-IsReplayConsistent :
    (s : Store) (env : TxEnv) (event_id : String) (db : Db)
    → All IsReplayConsistent db.dead_letters
    → All IsReplayConsistent (mark_replayed s env event_id db).1.dead_letters
mark_replayed-IsReplayConsistent s env event_id db h =
    elim (mark_replayed-Marking s env event_id db) [
      | unchanged same other ↦ rw same h
      | marked id u e t ↦ rw e (
          All-update IsReplayConsistent (is_waiting id) (mark env.now) db.dead_letters
            (λ r k. mark-IsReplayConsistent env.now r) h)
    ]

refused_again-IsReplayConsistent :
    (now : ℕ) (row r : DeadRow)
    → IsReplayConsistent (refused_again now row.error row.reason row.attempts r)
unfolding refused_again
refused_again-IsReplayConsistent now row r = ((λ h. refl), (λ h. refl))

upsert-IsReplayConsistent :
    (env : TxEnv) (row : DeadRow) (rows rows' : List DeadRow)
    → upsert_dead_letter env row rows ≡ ok rows'
    → IsReplayConsistent row
    → All IsReplayConsistent rows
    → All IsReplayConsistent rows'
upsert-IsReplayConsistent env row rows rows' e k h =
    elim (Option-cases (find (is_dead_letter row.event_id) rows)) [
      | inl n ↦
          let q : rows' ≡ rows ++ row ∷ [] = unfold upsert_dead_letter in ground (arith, n) in
          rw q (All-append IsReplayConsistent rows (row ∷ []) h (k, tt))
      | inr (old, n) ↦
          let q : rows'
              ≡ update (is_dead_letter row.event_id)
                  (refused_again env.now row.error row.reason row.attempts) rows =
            unfold upsert_dead_letter in ground (arith, n) in
          rw q (
            All-update IsReplayConsistent _ _ rows
              (λ r z. refused_again-IsReplayConsistent env.now row r) h)
    ]

-- If every dead letter is dead exactly as long as it has no time of replay, then this is so after
-- RecordDeadLetter too, also where it refuses a replayed event again.
pub record_dead_letter-IsReplayConsistent :
    (s : Store) (env : TxEnv) (dl : DeadLetter) (db : Db)
    → All IsReplayConsistent db.dead_letters
    → All IsReplayConsistent (record_dead_letter s env dl db).1.dead_letters
record_dead_letter-IsReplayConsistent s env dl db h = elim (record_dead_letter-atomic s env dl db) [
  | inl same ↦ rw same h
  | inr r ↦
      let f = dead_row-fields s env dl r.row r.converted in
      rw r.result (
        upsert-IsReplayConsistent env r.row db.dead_letters r.rows r.upserted
          ((λ z. f.2), (λ z. f.1)) h)
]

-- The identifiers of the dead letters, the primary key of the table.
abbrev pub dead_ids : List DeadRow → List ℕ
dead_ids = map (λ r. r.event_id)

absent :
    (id : ℕ) (rows : List DeadRow)
    → All (λ y. id ≢ y) (dead_ids rows)
    → touches (find (is_waiting id) rows) ≡ false
absent id [] h = refl
absent id (r ∷ rows) h = ground (arith, h.0, absent id rows h.1)

found_waiting :
    (id : ℕ) (rows : List DeadRow)
    → Distinct (dead_ids rows)
    → touches (find (is_waiting id) rows) ≡ true
    → (old : DeadRow) × ((find (is_dead_letter id) rows ≡ some old) × (waits old ≡ true))
found_waiting id [] d h = absurd (ground arith)
found_waiting id (r ∷ rows) d h = elim (Bool-cases (is_dead_letter id r)) [
  | inr q ↦
      let (old, k) = found_waiting id rows d.1 (ground (arith, q)) in
      (old, (ground (arith, q, k.0), k.1))
  | inl q ↦ elim (Bool-cases (waits r)) [
    | inl k ↦ (r, (ground (arith, q), k))
    | inr k ↦
        let same : r.event_id ≡ id = (==_iff r.event_id id).0 q in
        absurd (ground (arith, q, k, absent id rows (rw (sym same) d.0)))
  ]
]

-- When no two dead letters have one identifier: if MarkReplayed answers that it was the one, then the
-- event's row was dead, and is now replayed at the time of the transaction.
pub mark_replayed-flips :
    (s : Store) (env : TxEnv) (event_id : String) (db : Db)
    → Distinct (dead_ids db.dead_letters)
    → (mark_replayed s env event_id db).0 ≡ ok true
    → (id : ℕ) × ((old : DeadRow) × ((s.postgres.uuid event_id ≡ ok id)
          × (find (is_dead_letter id) db.dead_letters ≡ some old)
          × (waits old ≡ true)
          × (find (is_dead_letter id) (mark_replayed s env event_id db).1.dead_letters
              ≡ some (mark env.now old))))
mark_replayed-flips s env event_id db d h = elim (mark_replayed-Marking s env event_id db) [
  | unchanged same other ↦ absurd (other h)
  | marked id u e t ↦
      let (old, k) = found_waiting id db.dead_letters d (t h) in
      (
        id,
        (
          old,
          (
            u,
            k.0,
            k.1,
            rw e (update-waiting id env.now db.dead_letters old k.0 ∙ ground (arith, k.1)),
          ),
        ),
      )
]

dead_ids-update :
    (p : DeadRow → Bool) (now : ℕ) (rows : List DeadRow)
    → dead_ids (update p (mark now) rows) ≡ dead_ids rows
dead_ids-update p now [] = refl
dead_ids-update p now (r ∷ rows) = elim (Bool-cases (p r)) [
  | inl q ↦ rw q refl
  | inr q ↦ rw q (ap (λ ids. r.event_id ∷ ids) (dead_ids-update p now rows))
]

mark_replayed-ids :
    (s : Store) (env : TxEnv) (event_id : String) (db : Db)
    → dead_ids (mark_replayed s env event_id db).1.dead_letters ≡ dead_ids db.dead_letters
mark_replayed-ids s env event_id db = elim (mark_replayed-Marking s env event_id db) [
  | unchanged same other ↦ rw same refl
  | marked id u e t ↦ rw e (dead_ids-update (is_waiting id) env.now db.dead_letters)
]

-- When no two dead letters have one identifier: after a MarkReplayed that answered that it was the
-- one, a second MarkReplayed of the same event does not answer so.
pub mark_replayed_once :
    (s : Store) (env env' : TxEnv) (event_id : String) (db : Db)
    → Distinct (dead_ids db.dead_letters)
    → (mark_replayed s env event_id db).0 ≡ ok true
    → (mark_replayed s env' event_id (mark_replayed s env event_id db).1).0 ≢ ok true
mark_replayed_once s env env' event_id db d h k =
    let (id, (old, a)) = mark_replayed-flips s env event_id db d h in
    let db' = (mark_replayed s env event_id db).1 in
    let d' : Distinct (dead_ids db'.dead_letters) = rw (mark_replayed-ids s env event_id db) d in
    let (id', (old', b)) = mark_replayed-flips s env' event_id db' d' k in
    let same : id' ≡ id = ground (arith, a.0, b.0) in
    let found : find (is_dead_letter id) db'.dead_letters ≡ some old' = rw (sym same) b.1 in
    absurd (ground (arith, found, a.3, b.2))
