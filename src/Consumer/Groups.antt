-- ===== src/Consumer/Groups.antt =====
-- The groups of a batch: the records of one partition, by rising offset.
use event_stream_platform.Prelude.{
  ℕ, ◌<◌, ◌≡◌, ap, ◌≢◌, ◌⊎◌, inl, inr, Bool, true, not, ◌&&◌, Option, none, some, List, [], ◌∷◌,
  ◌++◌, arith, leb, ◌==◌, All, All-map, Holds, here, there, ==_iff, Bool-cases,
}
use event_stream_platform.Consumer.State.{KRecord}
use event_stream_platform.Consumer.Batch.{insert_record, group_of}

-- Two records of one poll: another partition or another offset.
unfoldable pub differ : KRecord → KRecord → Bool
differ r s = not (r.partition == s.partition && r.offset == s.offset)

abbrev pub IsPoll : List KRecord → Type 0
IsPoll [] = Unit
IsPoll (r ∷ rs) = All (λ s. differ r s ≡ true) rs × IsPoll rs

abbrev pub IsRising : List KRecord → Type 0
IsRising [] = Unit
IsRising (r ∷ rs) = All (λ (s : KRecord). r.offset < s.offset) rs × IsRising rs

Holds-insert :
    (x r : KRecord) (xs : List KRecord) → ((x ≡ r) ⊎ Holds x xs) → Holds x (insert_record r xs)
unfolding insert_record
Holds-insert x r [] (inl e) = here e
Holds-insert x r [] (inr h) = elim h [ ]
Holds-insert x r (y ∷ ys) h = elim (Bool-cases (leb r.offset y.offset)) [
  | inl q ↦ rw q (elim h [ inl e ↦ here e | inr k ↦ there k ])
  | inr q ↦ rw q (elim h [
    | inl e ↦ there (Holds-insert x r ys (inl e))
    | inr (here e) ↦ here e
    | inr (there k) ↦ there (Holds-insert x r ys (inr k))
  ])
]

All-insert {ℓ} :
    (P : KRecord → Type ℓ) (r : KRecord) (xs : List KRecord)
    → P r
    → All P xs
    → All P (insert_record r xs)
unfolding insert_record
All-insert P r [] p h = (p, tt)
All-insert P r (y ∷ ys) p h = elim (Bool-cases (leb r.offset y.offset)) [
  | inl q ↦ rw q (p, h)
  | inr q ↦ rw q (h.0, All-insert P r ys p h.1)
]

insert_record-IsRising :
    (r : KRecord) (xs : List KRecord)
    → All (λ (s : KRecord). r.offset ≢ s.offset) xs
    → IsRising xs
    → IsRising (insert_record r xs)
unfolding insert_record
insert_record-IsRising r [] n h = (tt, tt)
insert_record-IsRising r (y ∷ ys) n h = elim (Bool-cases (leb r.offset y.offset)) [
  | inl q ↦
      let lt : r.offset < y.offset = ground (arith, n.0, q) in
      rw q (
        (
          lt,
          All-map (λ (s : KRecord). y.offset < s.offset) (λ (s : KRecord). r.offset < s.offset)
              (λ s k. omega (arith, k, lt)) ys h.0,
        ),
        h,
      )
  | inr q ↦ rw q (
    All-insert (λ (s : KRecord). y.offset < s.offset) r ys (ground (arith, q)) h.0,
    insert_record-IsRising r ys n.1 h.1,
  )
]

All-group {ℓ} :
    (P : KRecord → Type ℓ) (p : ℕ) (rs : List KRecord)
    → All P rs
    → All (λ (s : KRecord). (s.partition ≡ p) × P s) (group_of p rs)
unfolding group_of
All-group P p [] h = tt
All-group P p (r ∷ rs) h = elim (Bool-cases (r.partition == p)) [
  | inl q ↦
      rw q (All-insert _ r (group_of p rs) ((==_iff r.partition p).0 q, h.0) (All-group P p rs h.1))
  | inr q ↦ rw q (All-group P p rs h.1)
]

pub group_of-IsRising : (p : ℕ) (rs : List KRecord) → IsPoll rs → IsRising (group_of p rs)
unfolding group_of
group_of-IsRising p [] h = tt
group_of-IsRising p (r ∷ rs) h = elim (Bool-cases (r.partition == p)) [
  | inl q ↦ rw q (
      insert_record-IsRising r (group_of p rs)
        (All-map (λ (s : KRecord). (s.partition ≡ p) × (differ r s ≡ true))
          (λ (s : KRecord). r.offset ≢ s.offset)
          (λ s k. unfold differ in ground (arith, q, k.0, k.1)) _
          (All-group (λ s. differ r s ≡ true) p rs h.0))
        (group_of-IsRising p rs h.1))
  | inr q ↦ rw q (group_of-IsRising p rs h.1)
]

pub Holds-group : (x : KRecord) (rs : List KRecord) → Holds x rs → Holds x (group_of x.partition rs)
unfolding group_of
Holds-group x [] h = elim h [ ]
Holds-group x (r ∷ rs) h = elim (Bool-cases (r.partition == x.partition)) [
  | inl q ↦
      rw q (Holds-insert x r _ (elim h [ here e ↦ inl e | there k ↦ inr (Holds-group x rs k) ]))
  | inr q ↦ rw q (elim h [
    | here e ↦ absurd (ground (arith, q, ap (λ (y : KRecord). y.partition) e))
    | there k ↦ Holds-group x rs k
  ])
]

-- The last record of a list, or what was there before.
abbrev pub last_of : Option KRecord → List KRecord → Option KRecord
last_of last [] = last
last_of last (r ∷ rs) = last_of (some r) rs

after :
    (q r : KRecord) (done rest : List KRecord)
    → All (λ (s : KRecord). q.offset < s.offset) (done ++ rest)
    → IsRising (done ++ rest)
    → last_of (some q) done ≡ some r
    → All (λ (s : KRecord). r.offset < s.offset) rest
after q r [] rest a h e = let same : r ≡ q = ground arith in rw same a
after q r (x ∷ done) rest a h e = after x r done rest h.0 h.1 e

-- What comes after the last record that a rising list's prefix ends with.
pub last_of-rest :
    (r : KRecord) (done rest : List KRecord)
    → IsRising (done ++ rest)
    → last_of none done ≡ some r
    → All (λ (s : KRecord). r.offset < s.offset) rest
last_of-rest r [] rest h e = absurd (ground arith)
last_of-rest r (x ∷ done) rest h e = after x r done rest h.0 h.1 e
