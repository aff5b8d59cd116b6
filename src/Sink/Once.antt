-- ===== src/Sink/Once.antt =====
-- The effect of a delivery happens once: what the deduplication record makes of a redelivery.
use event_stream_platform.Prelude.{
  ℕ, ◌≡◌, refl, ◌∙◌, ap, ◌↔◌, ◌⊎◌, inl, inr, true, List, [], ◌∷◌, arith, ok,
}
use event_stream_platform.Sink.Tables.{Db, PositionRow, find, is_some}
use event_stream_platform.Sink.Transaction.{TxEnv}
use event_stream_platform.Sink.Apply.{Store, Input, Outcome, duplicate, is_event, recorded, apply}
use event_stream_platform.Sink.Consistent.{apply-atomic, apply-Body, deliver}
use event_stream_platform.Sink.Rows.{find-append}

-- The event is recorded: its identifier is a uuid that processed_events holds.
pub record IsRecorded (s : Store) (i : Input) (db : Db) : Type 0 where
  pub id : ℕ
  pub reads : s.postgres.uuid i.envelope.event_id ≡ ok id
  pub present : is_some (find (is_event id) db.processed) ≡ true

-- A recorded event changes nothing any more, whatever else it carries and whatever fails.
pub apply_recorded :
    (s : Store) (env : TxEnv) (i : Input) (db : Db) → IsRecorded s i db → (apply s env i db).1 ≡ db
apply_recorded s env i db h = elim (apply-atomic s env i db) [
  | inl same ↦ same
  | inr (row, outcome, r, e) ↦
      let same : row.event_id ≡ h.id = ground (arith, r.id, h.reads) in
      absurd (
        ground
          (arith, r.is_new, h.present, ap (λ x. is_some (find (is_event x) db.processed)) same))
]

recorded_present :
    (s : Store) (now : ℕ) (i : Input) (row : PositionRow) (db : Db) (id : ℕ)
    → ((is_some (find (is_event id) db.processed) ≡ true) ⊎ (row.event_id ≡ id))
    → is_some (find (is_event id) (recorded s now i row db).processed) ≡ true
unfolding recorded
recorded_present s now i row db id h = rw (find-append (is_event id) db.processed _) (ground arith)

-- Once Apply has returned an outcome, of whatever kind, the event is recorded.
pub apply-IsRecorded :
    (s : Store) (env : TxEnv) (i : Input) (db : Db) (outcome : Outcome)
    → (apply s env i db).0 ≡ ok outcome
    → IsRecorded s i (apply s env i db).1
apply-IsRecorded s env i db outcome h = elim (apply-Body s env i db outcome h) [
  | inl (o, e, (id, u, seen)) ↦ record { id = id; reads = u; present = rw e seen }
  | inr (row, r, e) ↦ record {
    id = row.event_id;
    reads = r.id;
    present = rw e (recorded_present s env.now i row db row.event_id (inr refl));
  }
]

-- Nothing that Apply does makes a recorded event unrecorded.
pub IsRecorded-apply :
    (s : Store) (env : TxEnv) (i j : Input) (db : Db)
    → IsRecorded s j db
    → IsRecorded s j (apply s env i db).1
IsRecorded-apply s env i j db h = elim (apply-atomic s env i db) [
  | inl same ↦ rw same h
  | inr (row, outcome, r, e) ↦ record {
    id = h.id;
    reads = h.reads;
    present = rw e (recorded_present s env.now i row db h.id (inl h.present));
  }
]

IsRecorded-deliver :
    (s : Store) (ds : List (TxEnv × Input)) (j : Input) (db : Db)
    → IsRecorded s j db
    → IsRecorded s j (deliver s ds db)
unfolding deliver
IsRecorded-deliver s [] j db h = h
IsRecorded-deliver s ((env, i) ∷ ds) j db h =
    IsRecorded-deliver s ds j (apply s env i db).1 (IsRecorded-apply s env i j db h)

-- A redelivered event has no second effect: once Apply has returned an outcome for an event, then
-- after any further deliveries another delivery under an identifier that Postgres reads as the same
-- uuid leaves the database as it is.
pub apply_redelivered :
    (s : Store) (env env' : TxEnv) (i j : Input) (db : Db) (outcome : Outcome)
    (ds : List (TxEnv × Input))
    → (apply s env i db).0 ≡ ok outcome
    → s.postgres.uuid j.envelope.event_id ≡ s.postgres.uuid i.envelope.event_id
    → let db' = deliver s ds (apply s env i db).1 in (apply s env' j db').1 ≡ db'
apply_redelivered s env env' i j db outcome ds h same =
    let r =
      IsRecorded-deliver s ds i (apply s env i db).1 (apply-IsRecorded s env i db outcome h) in
    apply_recorded s env' j _ (record { id = r.id; reads = same ∙ r.reads; present = r.present })

-- An outcome that Apply returns is `duplicate` exactly if the event was recorded before.
pub apply-duplicate_iff :
    (s : Store) (env : TxEnv) (i : Input) (db : Db) (outcome : Outcome)
    → (apply s env i db).0 ≡ ok outcome
    → (outcome ≡ duplicate) ↔ IsRecorded s i db
apply-duplicate_iff s env i db outcome h = elim (apply-Body s env i db outcome h) [
  | inl (o, e, (id, u, seen)) ↦ ((λ _. record { id = id; reads = u; present = seen }), (λ _. o))
  | inr (row, r, e) ↦ (
    (λ o. absurd (ground (arith, r.outcome_is))),
    λ k.
        let same : row.event_id ≡ k.id = ground (arith, r.id, k.reads) in
        absurd (
          ground
            (arith, r.is_new, k.present, ap (λ x. is_some (find (is_event x) db.processed)) same)),
  )
]
