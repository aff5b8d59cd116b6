-- ===== src/Consumer/Prefix.antt =====
-- A run over the group of one partition: the prefix that it has handled.
use event_stream_platform.Prelude.{
  ◌≡◌, refl, ◌∙◌, ap, inl, inr, true, false, Option, some, List, [], ◌∷◌, ◌++◌, arith, All,
  Bool-cases,
}
use event_stream_platform.Broker.{FateLaws}
use event_stream_platform.Sink.Apply.{Store}
use event_stream_platform.Consumer.State.{KRecord, Consumer, World}
use event_stream_platform.Consumer.One.{process_one}
use event_stream_platform.Consumer.Batch.{BatchEnv, run_group}
use event_stream_platform.Consumer.Ends.{process_one_total}
use event_stream_platform.Consumer.Grows.{Grows}
use event_stream_platform.Consumer.Handled.{
  IsHandled, Later, Later-refl, Later-trans, IsHandled-Later, Outcomes,
}
use event_stream_platform.Consumer.Sound.{process_one-Outcomes}
use event_stream_platform.Consumer.Groups.{last_of}

Grows-Later : {s : Store} {w w' : World} → Grows s w w' → Later s w w'
Grows-Later g = record { db = g.db; log = g.log }

-- What a run over a group has done: a prefix is handled.
pub record Prefix (c : Consumer) (rs : List KRecord) (last : Option KRecord) (w : World)
    (x : Option KRecord × World) : Type 0 where
  pub done : List KRecord
  pub rest : List KRecord
  pub split : rs ≡ done ++ rest
  pub ends : last_of last done ≡ x.0
  pub handled : All (λ r. IsHandled c r x.1) done
  pub later : Later c.store w x.1
  pub commits : x.1.commits ≡ w.commits

nothing_done :
    (c : Consumer) (rs : List KRecord) (last : Option KRecord) (w w' : World)
    → Later c.store w w'
    → w'.commits ≡ w.commits
    → Prefix c rs last w (last, w')
nothing_done c rs last w w' g k = record {
  done = [];
  rest = rs;
  split = refl;
  ends = refl;
  handled = tt;
  later = g;
  commits = k;
}

module _ (c : Consumer) (env : BatchEnv) (laws : (r : KRecord) → FateLaws (env.one r).produce) where
  one_more :
      (r : KRecord) (rs : List KRecord) (last : Option KRecord) (w w' : World)
      (x : Option KRecord × World)
      → Outcomes c r w (true, w')
      → Prefix c rs (some r) w' x
      → Prefix c (r ∷ rs) last w x
  one_more r rs last w w' x o p = record {
    done = r ∷ p.done;
    rest = p.rest;
    split = ap (◌∷◌ r) p.split;
    ends = p.ends;
    handled = (IsHandled-Later c r w' x.1 p.later (o.handled refl), p.handled);
    later = Later-trans (Grows-Later o.grows) p.later;
    commits = p.commits ∙ o.grows.commits;
  }

  pub run_group-Prefix :
      (rs : List KRecord) (last : Option KRecord) (w : World)
      → (x : Option KRecord × World) × ((run_group c env rs last w ≡ some x) × Prefix c rs last w x)
  run_group-Prefix [] last w = (
    (last, w),
    (unfold run_group in refl, nothing_done c [] last w w (Later-refl c.store w) refl),
  )
  run_group-Prefix (r ∷ rs) last w = elim (Bool-cases (env.is_cancelled r)) [
    | inl q ↦ (
      (last, w),
      (
        unfold run_group in ground (arith, q),
        nothing_done c (r ∷ rs) last w w (Later-refl c.store w) refl,
      ),
    )
    | inr q ↦
        let (y, e) = process_one_total c (env.one r) r w in
        let o = process_one-Outcomes c (env.one r) r w y (laws r) e in
        elim (Bool-cases y.0) [
          | inl t ↦
              let is : process_one c (env.one r) r w ≡ some (true, y.1) = e ∙ ground arith in
              let step : run_group c env (r ∷ rs) last w ≡ run_group c env rs (some r) y.1 =
                unfold run_group in ground (arith, q, is) in
              let (x, more) = run_group-Prefix rs (some r) y.1 in
              (
                x,
                (
                  step ∙ more.0,
                  one_more r rs last w y.1 x
                      (record { grows = o.grows; handled = λ k. o.handled t }) more.1,
                ),
              )
          | inr t ↦
              let is : process_one c (env.one r) r w ≡ some (false, y.1) = e ∙ ground arith in
              (
                (last, y.1),
                (
                  unfold run_group in ground (arith, q, is),
                  nothing_done c (r ∷ rs) last w y.1 (Grows-Later o.grows) o.grows.commits,
                ),
              )
        ]
  ]
