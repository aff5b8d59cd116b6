-- ===== src/Consumer/Batch.antt =====
-- internal/consumer/consumer.go: processBatch. The records of one poll differ in their partition or
-- their offset, so that what the world adds to a record is a function of the record.
use event_stream_platform.Prelude.{
  ℕ, Bool, true, false, Option, none, some, List, [], ◌∷◌, ◌++◌, ltb, leb, ◌==◌, if◌then◌else◌,
}
use event_stream_platform.Consumer.State.{KRecord, Consumer, World, OneEnv}
use event_stream_platform.Consumer.One.{process_one}

pub record BatchEnv : Type 0 where
  pub one : KRecord → OneEnv
  pub is_cancelled : KRecord → Bool
  pub commit_fails : ℕ → Bool

-- The keys of the map byPartition, sorted.
unfoldable pub insert_partition : ℕ → List ℕ → List ℕ
insert_partition p [] = p ∷ []
insert_partition p (q ∷ qs) =
    if p == q then q ∷ qs else (if ltb p q then p ∷ q ∷ qs else q ∷ insert_partition p qs)

unfoldable pub partitions_of : List KRecord → List ℕ
partitions_of [] = []
partitions_of (r ∷ rs) = insert_partition r.partition (partitions_of rs)

-- sort.Slice by offset
unfoldable pub insert_record : KRecord → List KRecord → List KRecord
insert_record r [] = r ∷ []
insert_record r (x ∷ xs) = if leb r.offset x.offset then r ∷ x ∷ xs else x ∷ insert_record r xs

-- byPartition[p], sorted
unfoldable pub group_of : ℕ → List KRecord → List KRecord
group_of p [] = []
group_of p (r ∷ rs) =
    let rest = group_of p rs in if r.partition == p then insert_record r rest else rest

-- The loop over one group: the last record that is finished with, and what has become of the world.
unfoldable pub run_group :
    Consumer → BatchEnv → List KRecord → Option KRecord → World → Option (Option KRecord × World)
run_group c env [] last w = some (last, w)
run_group c env (r ∷ rs) last w =
    if env.is_cancelled r then some (last, w) else elim (process_one c (env.one r) r w) [
      | none ↦ none
      | some (true, w') ↦ run_group c env rs (some r) w'
      | some (false, w') ↦ some (last, w')
    ]

-- CommitRecords of the last good record.
unfoldable pub commit_prefix : BatchEnv → ℕ → Option KRecord × World → World
commit_prefix env p (none, w) = w
commit_prefix env p (some r, w) =
    if env.commit_fails p then w else record w { commits = w.commits ++ (p, r.offset) ∷ [] }

unfoldable pub run_partitions : Consumer → BatchEnv → List KRecord → List ℕ → World → Option World
run_partitions c env rs [] w = some w
run_partitions c env rs (p ∷ ps) w = elim (run_group c env (group_of p rs) none w) [
  | none ↦ none
  | some done ↦ run_partitions c env rs ps (commit_prefix env p done)
]

unfoldable pub process_batch : Consumer → BatchEnv → List KRecord → World → Option World
process_batch c env rs w = run_partitions c env rs (partitions_of rs) w
