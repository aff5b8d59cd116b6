-- ===== src/Consumer/Loop.antt =====
-- What Run keeps from round to round.
use event_stream_platform.Prelude.{
  ◌≡◌, refl, ap, ◌∙◌, inl, inr, Bool, true, false, some, List, [], ◌∷◌, length, arith, ◌==◌, All,
  Bool-cases, Option-cases,
}
use event_stream_platform.Broker.{FateLaws}
use event_stream_platform.Sink.History.{IsConsistent}
use event_stream_platform.Consumer.State.{KRecord, Consumer, World}
use event_stream_platform.Consumer.Handled.{
  IsHandled, Later, Later-refl, Later-trans, IsHandled-Later,
}
use event_stream_platform.Consumer.Groups.{IsPoll}
use event_stream_platform.Consumer.Commits.{process_batch-Committed}
use event_stream_platform.Consumer.Run.{Poll, Running, batch_of, run_round, run}

-- The records of a poll differ in partition or offset, and an acknowledged produce has been written.
pub record IsSound (p : Poll) : Type 0 where
  pub fates : (r : KRecord) → FateLaws (p.batch.one r).produce
  pub distinct : IsPoll p.records

-- No rebalance is blocked any more, and what was recorded, refused or on the log still is.
pub record Kept (c : Consumer) (s s' : Running) : Type 0 where
  pub released : s'.is_blocking ≡ false
  pub later : Later c.store s.world s'.world

batch_of_total :
    (c : Consumer) (p : Poll) (w : World)
    → IsSound p
    → (w' : World) × ((batch_of c p w ≡ some w') × Later c.store w w')
batch_of_total c p w h = elim (Bool-cases (length p.records == 0)) [
  | inl q ↦ (w, (rw q refl, Later-refl c.store w))
  | inr q ↦
      let (w', (e, k)) = process_batch-Committed c p.batch p.records w h.fates h.distinct in
      (w', (rw q e, k.later))
]

run_round_total :
    (c : Consumer) (p : Poll) (s : Running)
    → IsSound p
    → s.is_blocking ≡ false
    → (x : Bool × Running) × ((run_round c p s ≡ some x) × Kept c s x.1)
unfolding run_round
run_round_total c p s h free =
    let (w', (e, later)) = batch_of_total c p s.world h in
    elim (Option-cases (run_round c p s)) [
      | inl q ↦ absurd (ground (arith, q, e))
      | inr (x, q) ↦ elim (Bool-cases p.ends_before) [
        | inl b ↦
            let same : x.1 ≡ s = ground (arith, q, b) in
            (
              x,
              (q, record { released = rw same free; later = rw same (Later-refl c.store s.world) }),
            )
        | inr b ↦
            let world : x.1.world ≡ w' = ground (arith, q, b, e) in
            (x, (q, record { released = ground (arith, q, b, e); later = rw world later }))
      ]
    ]

run_total :
    (c : Consumer) (ps : List Poll) (s : Running)
    → All IsSound ps
    → s.is_blocking ≡ false
    → (x : Bool × Running) × ((run c ps s ≡ some x) × Kept c s x.1)
unfolding run
run_total c [] s h free =
    ((true, s), (refl, record { released = free; later = Later-refl c.store s.world }))
run_total c (p ∷ ps) s h free =
    let (x, (e, kept)) = run_round_total c p s h.0 free in
    elim (Bool-cases x.0) [
      | inr q ↦
          let over : run_round c p s ≡ some (false, x.1) = e ∙ ap (λ b. some (b, x.1)) q in
          ((false, x.1), (rw (over, run) refl, kept))
      | inl q ↦
          let more : run_round c p s ≡ some (true, x.1) = e ∙ ap (λ b. some (b, x.1)) q in
          let (y, (k, rest)) = run_total c ps x.1 h.1 kept.released in
          (
            y,
            (
              rw (more, run) k,
              record { released = rest.released; later = Later-trans kept.later rest.later },
            ),
          )
    ]

-- Run, whatever its polls return and whichever way they end: when an acknowledged produce has been
-- written and the records of each poll differ in partition or offset, every round of it ends, no round
-- leaves the group's rebalances blocked, the tables of the sink stay consistent, and a record that
-- was handled before, applied or refused, is handled still.
pub run-Kept :
    (c : Consumer) (ps : List Poll) (s : Running) (r : KRecord)
    → All IsSound ps
    → s.is_blocking ≡ false
    → IsConsistent s.world.db
    → IsHandled c r s.world
    → (x : Bool × Running) × ((run c ps s ≡ some x)
        × ((x.1.is_blocking ≡ false) × IsConsistent x.1.world.db × IsHandled c r x.1.world))
run-Kept c ps s r sound free consistent handled =
    let (x, (e, kept)) = run_total c ps s sound free in
    (
      x,
      (
        e,
        (
          kept.released,
          kept.later.db.consistent consistent,
          IsHandled-Later c r s.world x.1.world kept.later handled,
        ),
      ),
    )
