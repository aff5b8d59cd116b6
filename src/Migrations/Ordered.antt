-- ===== src/Migrations/Ordered.antt =====
-- What load returns: every SQL file of the directory, in the order of the versions.
use event_stream_platform.Prelude.{
  ℕ, ◌≤◌, ◌≡◌, refl, sym, ◌⊎◌, inl, inr, String, true, false, some, List, [], ◌∷◌, length, arith,
  All, All-map, Holds, here, there, Bool-cases, ok, Result-cases,
}
use mathlib.Core.Path.{subst}
use Prim.Native.String.{compare, then, [], ◌∷◌}
use Prim.Native.String.compare
use Prim.Native.Nat.{Ordering, compare as compare_ℕ}
use Prim.Native.Char.{code}
use event_stream_platform.Migrations.Files.{
  Migration, File, lt_text, migration_of, is_skipped, read_all, insert_version, sort_versions,
  some_embedded, load,
}

-- The order of the texts the other way round.
turn : Ordering → Ordering
turn Ordering.lt = Ordering.gt
turn Ordering.eq = Ordering.eq
turn Ordering.gt = Ordering.lt

turn-compare_ℕ : (a b : ℕ) → compare_ℕ b a ≡ turn (compare_ℕ a b)
unfolding turn
turn-compare_ℕ a b = ground arith

turn-then : (o p : Ordering) → then (turn o) (turn p) ≡ turn (then o p)
unfolding turn
turn-then Ordering.lt p = refl
turn-then Ordering.eq p = refl
turn-then Ordering.gt p = refl

turn-compare : (s t : String) → compare t s ≡ turn (compare s t)
unfolding turn
turn-compare [] [] = refl
turn-compare [] (d ∷ t) = rw (compare.cons-nil d t, compare.nil-cons d t) refl
turn-compare (c ∷ s) [] = rw (compare.cons-nil c s, compare.nil-cons c s) refl
turn-compare (c ∷ s) (d ∷ t) =
    rw
      (
        compare.cons-cons c d s t,
        compare.cons-cons d c t s,
        turn-compare_ℕ (code c) (code d),
        turn-compare s t,
      )
      (turn-then (compare_ℕ (code c) (code d)) (compare s t))

lt_text_asym : (s t : String) → lt_text s t ≡ true → lt_text t s ≡ false
unfolding turn
lt_text_asym s t h = ground (arith, turn-compare s t)

-- Neighbours are in the order of the versions.
abbrev pub IsOrdered : List Migration → Type 0
IsOrdered [] = Unit
IsOrdered (m ∷ []) = Unit
IsOrdered (m ∷ x ∷ xs) = (lt_text x.version m.version ≡ false) × IsOrdered (x ∷ xs)

insert_version-IsOrdered :
    (m : Migration) (ms : List Migration) → IsOrdered ms → IsOrdered (insert_version m ms)
unfolding insert_version
insert_version-IsOrdered m [] h = tt
insert_version-IsOrdered m (x ∷ []) h = elim (Bool-cases (lt_text x.version m.version)) [
  | inl q ↦ rw q (lt_text_asym x.version m.version q, tt)
  | inr q ↦ rw q (q, tt)
]
insert_version-IsOrdered m (x ∷ y ∷ ys) h =
    let rest = insert_version-IsOrdered m (y ∷ ys) h.1 in
    elim (Bool-cases (lt_text x.version m.version)) [
      | inr q ↦ rw q (q, h)
      | inl q ↦ elim (Bool-cases (lt_text y.version m.version)) [
        | inl k ↦ rw (q, k) (h.0, rw k at rest)
        | inr k ↦ rw (q, k) (lt_text_asym x.version m.version q, (k, h.1))
      ]
    ]

sort_versions-IsOrdered : (ms : List Migration) → IsOrdered (sort_versions ms)
unfolding sort_versions
sort_versions-IsOrdered [] = tt
sort_versions-IsOrdered (m ∷ ms) =
    insert_version-IsOrdered m (sort_versions ms) (sort_versions-IsOrdered ms)

Holds-insert_version :
    (x m : Migration) (ms : List Migration) → (x ≡ m) ⊎ Holds x ms → Holds x (insert_version m ms)
unfolding insert_version
Holds-insert_version x m [] (inl e) = here e
Holds-insert_version x m [] (inr h) = elim h [ ]
Holds-insert_version x m (y ∷ ys) h = elim (Bool-cases (lt_text y.version m.version)) [
  | inr q ↦ rw q (elim h [ inl e ↦ here e | inr k ↦ there k ])
  | inl q ↦ rw q (elim h [
    | inl e ↦ there (Holds-insert_version x m ys (inl e))
    | inr (here e) ↦ here e
    | inr (there k) ↦ there (Holds-insert_version x m ys (inr k))
  ])
]

Holds-sort_versions :
    (x : Migration) (ms : List Migration) → Holds x ms → Holds x (sort_versions ms)
unfolding sort_versions
Holds-sort_versions x [] h = elim h [ ]
Holds-sort_versions x (m ∷ ms) h =
    Holds-insert_version x m (sort_versions ms)
      (elim h [ here e ↦ inl e | there k ↦ inr (Holds-sort_versions x ms k) ])

-- The migration of a file that is not passed over is in the list.
abbrev pub IsLoaded : List Migration → File → Type 0
IsLoaded ms f = is_skipped f ≡ false → (m : Migration) × (migration_of f ≡ ok m) × Holds m ms

read_all-IsLoaded :
    (fs : List File) (ms : List Migration) → read_all fs ≡ ok ms → All (IsLoaded ms) fs
unfolding read_all
read_all-IsLoaded [] ms h = tt
read_all-IsLoaded (f ∷ fs) ms h = elim (Bool-cases (is_skipped f)) [
  | inl q ↦ (λ k. absurd (ground arith), read_all-IsLoaded fs ms (ground arith))
  | inr q ↦ elim (Result-cases (migration_of f)) [
    | inr (e, k) ↦ absurd (ground arith)
    | inl (m, k) ↦ elim (Result-cases (read_all fs)) [
      | inr (e, r) ↦ absurd (ground arith)
      | inl (rest, r) ↦
          let same : m ∷ rest ≡ ms = ground arith in
          subst (λ l. All (IsLoaded l) (f ∷ fs)) same
            (
              λ o. (m, k, here refl),
              All-map (IsLoaded rest) (IsLoaded (m ∷ rest))
                  (λ g i o. let (x, made, held) = i o in (x, made, there held)) fs
                  (read_all-IsLoaded fs rest r),
            )
    ]
  ]
]

some_embedded_ok :
    (out ms : List Migration) → some_embedded out ≡ ok ms → (ms ≡ out) × (1 ≤ length ms)
some_embedded_ok [] ms h = absurd (ground arith)
some_embedded_ok (m ∷ out) ms h = (ground arith, ground arith)

-- Where load succeeds, it returns at least one migration, the migrations are in the order of their
-- versions, and no file is silently ignored: each that is not a directory and ends in .sql follows
-- the naming rule and is among them.
pub load_complete :
    (files : List File) (ms : List Migration)
    → load (some files) ≡ ok ms
    → (1 ≤ length ms) × IsOrdered ms × All (IsLoaded ms) files
unfolding load
load_complete files ms h = elim (Result-cases (read_all files)) [
  | inr (e, k) ↦ absurd (ground arith)
  | inl (out, k) ↦
      let same : (ms ≡ sort_versions out) × (1 ≤ length ms) =
        some_embedded_ok (sort_versions out) ms (ground arith) in
      rw same.0 (
        rw (sym same.0) same.1,
        sort_versions-IsOrdered out,
        All-map (IsLoaded out) (IsLoaded (sort_versions out))
            (λ g i o. let (x, made, held) = i o in (x, made, Holds-sort_versions x out held)) files
            (read_all-IsLoaded files out k),
      )
]
