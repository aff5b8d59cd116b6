-- ===== src/Consumer/Commits.antt =====
-- What processBatch commits: the prefix of each partition that has been handled.
use event_stream_platform.Prelude.{
  ℕ, ◌≤◌, ◌<◌, ◌≡◌, refl, sym, ◌∙◌, ◌⊎◌, inl, inr, ◌&&◌, Option, none, some, List, [], ◌∷◌, ◌++◌,
  arith, leb, ◌==◌, if◌then◌else◌, All, All-append, All-map, Holds, Holds-All, here, there, ==_iff,
  Bool-cases,
}
use mathlib.Core.Path.{subst}
use event_stream_platform.Broker.{FateLaws}
use event_stream_platform.Sink.Apply.{Store}
use event_stream_platform.Sink.History.{IsConsistent}
use event_stream_platform.Consumer.State.{KRecord, Consumer, World}
use event_stream_platform.Consumer.Batch.{
  BatchEnv, group_of, commit_prefix, run_partitions, partitions_of, process_batch,
}
use event_stream_platform.Consumer.Handled.{
  IsHandled, Later, Later-refl, Later-trans, IsHandled-Later,
}
use event_stream_platform.Consumer.Groups.{
  IsPoll, IsRising, group_of-IsRising, Holds-group, last_of-rest,
}
use event_stream_platform.Consumer.Prefix.{Prefix, run_group-Prefix}

All-Later :
    (c : Consumer) (w w' : World) (rs : List KRecord)
    → Later c.store w w'
    → All (λ r. IsHandled c r w) rs
    → All (λ r. IsHandled c r w') rs
All-Later c w w' rs g h = All-map _ _ (λ r k. IsHandled-Later c r w w' g k) rs h

-- The records of partition p up to an offset.
abbrev pub upto : ℕ → ℕ → List KRecord → List KRecord
upto p top [] = []
upto p top (r ∷ rs) =
    if r.partition == p && leb r.offset top then r ∷ upto p top rs else upto p top rs

-- A committed offset stands for records that are all handled.
abbrev pub IsCovered : Consumer → World → List KRecord → ℕ × ℕ → Type 0
IsCovered c w rs (p, top) = All (λ r. IsHandled c r w) (upto p top rs)

All-upto {ℓ} :
    (P : KRecord → Type ℓ) (p top : ℕ) (rs : List KRecord)
    → ((r : KRecord) → Holds r rs → r.partition ≡ p → r.offset ≤ top → P r)
    → All P (upto p top rs)
All-upto P p top [] f = tt
All-upto P p top (r ∷ rs) f =
    let rest = All-upto P p top rs (λ x h. f x (there h)) in
    elim (Bool-cases (r.partition == p)) [
      | inr q ↦ rw q rest
      | inl q ↦ elim (Bool-cases (leb r.offset top)) [
        | inr k ↦ rw (q, k) rest
        | inl k ↦ rw (q, k) (f r (here refl) ((==_iff r.partition p).0 q) (ground arith), rest)
      ]
    ]

Holds-split : (x : KRecord) (xs ys : List KRecord) → Holds x (xs ++ ys) → Holds x xs ⊎ Holds x ys
Holds-split x [] ys h = inr h
Holds-split x (y ∷ xs) ys (here e) = inl (here e)
Holds-split x (y ∷ xs) ys (there h) = elim (Holds-split x xs ys h) [
  | inl k ↦ inl (there k)
  | inr k ↦ inr k
]

-- The last record of a handled prefix covers the offsets of its partition up to its own.
Prefix-IsCovered :
    (c : Consumer) (rs : List KRecord) (p : ℕ) (r : KRecord) (w w' : World)
    → IsPoll rs
    → Prefix c (group_of p rs) none w (some r, w')
    → IsCovered c w' rs (p, r.offset)
Prefix-IsCovered c rs p r w w' d x =
    let rising : IsRising (x.done ++ x.rest) = rw (sym x.split) (group_of-IsRising p rs d) in
    All-upto (λ y. IsHandled c y w') p r.offset rs
      (λ y h same below.
        let inside : Holds y (group_of p rs) = rw (sym same) (Holds-group y rs h) in
        let parts : Holds y (x.done ++ x.rest) = rw (sym x.split) inside in
        elim (Holds-split y x.done x.rest parts) [
          | inl k ↦ Holds-All (λ z. IsHandled c z w') x.done x.handled k
          | inr k ↦
              let above : r.offset < y.offset =
                Holds-All (λ (z : KRecord). r.offset < z.offset) x.rest
                  (last_of-rest r x.done x.rest rising x.ends) k in
              absurd (omega (arith, above, below))
        ])

All-IsCovered :
    (c : Consumer) (w w' : World) (rs : List KRecord) (ks : List (ℕ × ℕ))
    → Later c.store w w'
    → All (IsCovered c w rs) ks
    → All (IsCovered c w' rs) ks
All-IsCovered c w w' rs ks g h =
    All-map (IsCovered c w rs) (IsCovered c w' rs) (λ k a. All-Later c w w' (upto k.0 k.1 rs) g a)
      ks h

with_commits-Later :
    (s : Store) (w : World) (ks : List (ℕ × ℕ)) → Later s w (record w { commits = ks })
with_commits-Later s w ks = let same = Later-refl s w in record { db = same.db; log = same.log }

-- One partition of a batch.
pub record Committed (c : Consumer) (rs : List KRecord) (w w' : World) : Type 0 where
  pub later : Later c.store w w'
  pub covered : All (IsCovered c w rs) w.commits → All (IsCovered c w' rs) w'.commits

Prefix-All-IsCovered :
    (c : Consumer) (rs : List KRecord) (p : ℕ) (o : Option KRecord) (w w' : World)
    → Prefix c (group_of p rs) none w (o, w')
    → All (IsCovered c w rs) w.commits
    → All (IsCovered c w' rs) w'.commits
Prefix-All-IsCovered c rs p o w w' x h =
    subst (λ ks. All (IsCovered c w' rs) ks) (sym x.commits)
      (All-IsCovered c w w' rs w.commits x.later h)

commit_prefix-Committed :
    (c : Consumer) (env : BatchEnv) (rs : List KRecord) (p : ℕ) (w : World)
    (x : Option KRecord × World)
    → IsPoll rs
    → Prefix c (group_of p rs) none w x
    → Committed c rs w (commit_prefix env p x)
commit_prefix-Committed c env rs p w (none, w') d x = record {
  later = unfold commit_prefix in x.later;
  covered = λ h. unfold commit_prefix in Prefix-All-IsCovered c rs p none w w' x h;
}
commit_prefix-Committed c env rs p w (some r, w') d x = elim (Bool-cases (env.commit_fails p)) [
  | inl f ↦
      let same : commit_prefix env p (some r, w') ≡ w' =
        unfold commit_prefix in ground (arith, f) in
      rw same
        (record { later = x.later; covered = λ h. Prefix-All-IsCovered c rs p (some r) w w' x h })
  | inr f ↦
      let ks = w'.commits ++ (p, r.offset) ∷ [] in
      let same : commit_prefix env p (some r, w') ≡ record w' { commits = ks } =
        unfold commit_prefix in ground (arith, f) in
      let g = with_commits-Later c.store w' ks in
      rw same (record {
        later = Later-trans x.later g;
        covered = λ h.
            All-IsCovered c w' (record w' { commits = ks }) rs ks g
              (All-append (IsCovered c w' rs) w'.commits ((p, r.offset) ∷ [])
                (Prefix-All-IsCovered c rs p (some r) w w' x h)
                (Prefix-IsCovered c rs p r w w' d x, tt));
      })
]

run_partitions-Committed :
    (c : Consumer) (env : BatchEnv) (rs : List KRecord) (ps : List ℕ) (w : World)
    → ((r : KRecord) → FateLaws (env.one r).produce)
    → IsPoll rs
    → (w' : World) × ((run_partitions c env rs ps w ≡ some w') × Committed c rs w w')
unfolding run_partitions
run_partitions-Committed c env rs [] w laws d =
    (w, (refl, record { later = Later-refl c.store w; covered = λ h. h }))
run_partitions-Committed c env rs (p ∷ ps) w laws d =
    let (x, (e, prefix)) = run_group-Prefix c env laws (group_of p rs) none w in
    let now = commit_prefix-Committed c env rs p w x d prefix in
    let step : run_partitions c env rs (p ∷ ps) w
        ≡ run_partitions c env rs ps (commit_prefix env p x) =
      rw (e, run_partitions) refl in
    let (w', (more, rest)) = run_partitions-Committed c env rs ps (commit_prefix env p x) laws d in
    (
      w',
      (
        step ∙ more,
        record {
          later = Later-trans now.later rest.later;
          covered = λ h. rest.covered (now.covered h);
        },
      ),
    )

pub process_batch-Committed :
    (c : Consumer) (env : BatchEnv) (rs : List KRecord) (w : World)
    → ((r : KRecord) → FateLaws (env.one r).produce)
    → IsPoll rs
    → (w' : World) × ((process_batch c env rs w ≡ some w') × Committed c rs w w')
unfolding process_batch
process_batch-Committed c env rs w laws d =
    run_partitions-Committed c env rs (partitions_of rs) w laws d

-- When an acknowledged produce has been written and the records of the poll differ in partition or
-- offset: processBatch ends, and in the world that it leaves, if every offset committed before stood
-- for handled records of the poll, then so does every offset committed after it. An offset of a
-- partition stands for the records of that partition up to it; a record is handled if the sink has
-- recorded its event, or its own bytes are on the dead-letter topic and its refusal waits in
-- dead_letters.
pub process_batch-IsCovered :
    (c : Consumer) (env : BatchEnv) (rs : List KRecord) (w : World)
    → ((r : KRecord) → FateLaws (env.one r).produce)
    → IsPoll rs
    → All (IsCovered c w rs) w.commits
    → (w' : World) × ((process_batch c env rs w ≡ some w') × All (IsCovered c w' rs) w'.commits)
process_batch-IsCovered c env rs w laws d h =
    let (w', (e, k)) = process_batch-Committed c env rs w laws d in (w', (e, k.covered h))

-- When an acknowledged produce has been written and the records of the poll differ in partition or
-- offset: a batch keeps the tables of the sink consistent, whatever the world adds to it.
pub process_batch-IsConsistent :
    (c : Consumer) (env : BatchEnv) (rs : List KRecord) (w : World)
    → ((r : KRecord) → FateLaws (env.one r).produce)
    → IsPoll rs
    → IsConsistent w.db
    → (w' : World) × ((process_batch c env rs w ≡ some w') × IsConsistent w'.db)
process_batch-IsConsistent c env rs w laws d h =
    let (w', (e, k)) = process_batch-Committed c env rs w laws d in
    (w', (e, k.later.db.consistent h))
