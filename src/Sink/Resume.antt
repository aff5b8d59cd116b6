-- ===== src/Sink/Resume.antt =====
-- What PositionsSince returns: the rows after the resume point, in the order of (event_ts, event_id),
-- and a prefix of them at the limit.
use event_stream_platform.Prelude.{
  ℕ, zero, suc, ◌≤◌, ◌≡◌, refl, sym, ◌⊎◌, inl, inr, true, false, List, [], ◌∷◌, length, take,
  length-take, arith, All, All-map, Holds, here, there, Bool-cases,
}
use event_stream_platform.Sink.Tables.{PositionRow}
use event_stream_platform.Sink.Views.{
  comes_after, rows_after, insert_ordered, order_rows, select_since,
}

-- Row r does not come after row s.
abbrev pub NotAfter : PositionRow → PositionRow → Type 0
NotAfter r s = comes_after s.event_ts s.event_id r ≡ false

abbrev pub IsOrdered : List PositionRow → Type 0
IsOrdered [] = Unit
IsOrdered (r ∷ rs) = All (λ s. NotAfter r s) rs × IsOrdered rs

NotAfter-trans : (r s t : PositionRow) → NotAfter r s → NotAfter s t → NotAfter r t
NotAfter-trans r s t p q = ground arith

after-NotAfter : (r s : PositionRow) → comes_after r.event_ts r.event_id s ≡ true → NotAfter r s
after-NotAfter r s h = ground arith

All-insert {ℓ} :
    (P : PositionRow → Type ℓ) (r : PositionRow) (xs : List PositionRow)
    → P r
    → All P xs
    → All P (insert_ordered r xs)
unfolding insert_ordered
All-insert P r [] p h = (p, tt)
All-insert P r (x ∷ xs) p h = elim (Bool-cases (comes_after r.event_ts r.event_id x)) [
  | inl q ↦ rw q (p, h)
  | inr q ↦ rw q (h.0, All-insert P r xs p h.1)
]

insert_ordered-IsOrdered :
    (r : PositionRow) (xs : List PositionRow) → IsOrdered xs → IsOrdered (insert_ordered r xs)
unfolding insert_ordered
insert_ordered-IsOrdered r [] h = (tt, tt)
insert_ordered-IsOrdered r (x ∷ xs) h = elim (Bool-cases (comes_after r.event_ts r.event_id x)) [
  | inl q ↦ rw q (
    (
      after-NotAfter r x q,
      All-map (λ s. NotAfter x s) (λ s. NotAfter r s)
          (λ s k. NotAfter-trans r x s (after-NotAfter r x q) k) xs h.0,
    ),
    h,
  )
  | inr q ↦ rw q (All-insert (λ s. NotAfter x s) r xs q h.0, insert_ordered-IsOrdered r xs h.1)
]

order_rows-IsOrdered : (rows : List PositionRow) → IsOrdered (order_rows rows)
unfolding order_rows
order_rows-IsOrdered [] = tt
order_rows-IsOrdered (r ∷ rs) = insert_ordered-IsOrdered r (order_rows rs) (order_rows-IsOrdered rs)

All-order {ℓ} :
    (P : PositionRow → Type ℓ) (rows : List PositionRow) → All P rows → All P (order_rows rows)
unfolding order_rows
All-order P [] h = tt
All-order P (r ∷ rs) h = All-insert P r (order_rows rs) h.0 (All-order P rs h.1)

All-rows_after :
    (ts id : ℕ) (rows : List PositionRow)
    → All (λ r. (comes_after ts id r ≡ true) × Holds r rows) (rows_after ts id rows)
unfolding rows_after
All-rows_after ts id [] = tt
All-rows_after ts id (r ∷ rs) =
    let rest =
      All-map (λ x. (comes_after ts id x ≡ true) × Holds x rs)
        (λ x. (comes_after ts id x ≡ true) × Holds x (r ∷ rs)) (λ x k. (k.0, there k.1)) _
        (All-rows_after ts id rs) in
    elim (Bool-cases (comes_after ts id r)) [
      | inl q ↦ rw q ((q, here refl), rest)
      | inr q ↦ rw q rest
    ]

All-take {ℓ} :
    (P : PositionRow → Type ℓ) (n : ℕ) (xs : List PositionRow) → All P xs → All P (take n xs)
All-take P zero xs h = tt
All-take P (suc n) [] h = tt
All-take P (suc n) (x ∷ xs) h = (h.0, All-take P n xs h.1)

take-IsOrdered : (n : ℕ) (xs : List PositionRow) → IsOrdered xs → IsOrdered (take n xs)
take-IsOrdered zero xs h = tt
take-IsOrdered (suc n) [] h = tt
take-IsOrdered (suc n) (x ∷ xs) h = (All-take (λ s. NotAfter x s) n xs h.0, take-IsOrdered n xs h.1)

-- The rows that a resume selects are rows of the history strictly after the point (ts, id), ordered
-- by (event_ts, event_id), and at most as many as the limit.
pub select_since-IsOrdered :
    (ts id limit : ℕ) (rows : List PositionRow)
    → All (λ r. (comes_after ts id r ≡ true) × Holds r rows) (select_since ts id limit rows)
      × IsOrdered (select_since ts id limit rows)
      × (length (select_since ts id limit rows) ≤ limit)
unfolding select_since
select_since-IsOrdered ts id limit rows = (
  All-take _ limit _ (All-order _ _ (All-rows_after ts id rows)),
  take-IsOrdered limit _ (order_rows-IsOrdered (rows_after ts id rows)),
  omega (arith, length-take limit (order_rows (rows_after ts id rows))),
)

Holds-insert :
    (x r : PositionRow) (xs : List PositionRow)
    → ((x ≡ r) ⊎ Holds x xs)
    → Holds x (insert_ordered r xs)
unfolding insert_ordered
Holds-insert x r [] (inl e) = here e
Holds-insert x r [] (inr h) = elim h [ ]
Holds-insert x r (y ∷ ys) h = elim (Bool-cases (comes_after r.event_ts r.event_id y)) [
  | inl q ↦ rw q (elim h [ inl e ↦ here e | inr k ↦ there k ])
  | inr q ↦ rw q (elim h [
    | inl e ↦ there (Holds-insert x r ys (inl e))
    | inr (here e) ↦ here e
    | inr (there k) ↦ there (Holds-insert x r ys (inr k))
  ])
]

Holds-order : (x : PositionRow) (rows : List PositionRow) → Holds x rows → Holds x (order_rows rows)
unfolding order_rows
Holds-order x [] h = elim h [ ]
Holds-order x (r ∷ rs) h =
    Holds-insert x r (order_rows rs)
      (elim h [ here e ↦ inl e | there k ↦ inr (Holds-order x rs k) ])

Holds-rows_after :
    (ts id : ℕ) (x : PositionRow) (rows : List PositionRow)
    → Holds x rows
    → comes_after ts id x ≡ true
    → Holds x (rows_after ts id rows)
unfolding rows_after
Holds-rows_after ts id x [] h a = elim h [ ]
Holds-rows_after ts id x (r ∷ rs) (here e) a =
    let k : comes_after ts id r ≡ true = rw (sym e) a in rw k (here e)
Holds-rows_after ts id x (r ∷ rs) (there h) a = elim (Bool-cases (comes_after ts id r)) [
  | inl q ↦ rw q (there (Holds-rows_after ts id x rs h a))
  | inr q ↦ rw q (Holds-rows_after ts id x rs h a)
]

before-All :
    (x y : PositionRow) (ys : List PositionRow)
    → All (λ s. NotAfter y s) ys
    → Holds x ys
    → NotAfter y x
before-All x y [] a h = elim h [ ]
before-All x y (z ∷ ys) a (here e) = rw e a.0
before-All x y (z ∷ ys) a (there h) = before-All x y ys a.1 h

Holds-take :
    (x : PositionRow) (n : ℕ) (xs : List PositionRow)
    → IsOrdered xs
    → Holds x xs
    → Holds x (take n xs) ⊎ ((length (take n xs) ≡ n) × All (λ s. NotAfter s x) (take n xs))
Holds-take x zero xs o h = inr (refl, tt)
Holds-take x (suc n) [] o h = elim h [ ]
Holds-take x (suc n) (y ∷ ys) o (here e) = inl (here e)
Holds-take x (suc n) (y ∷ ys) o (there h) = elim (Holds-take x n ys o.1 h) [
  | inl k ↦ inl (there k)
  | inr (k, a) ↦ inr (omega (arith, k), (before-All x y ys o.0 h, a))
]

-- No row of the history after the point (ts, id) is skipped: a resume selects it, or the selection is
-- as long as the limit and no row of it comes after the one left out.
pub select_since_complete :
    (ts id limit : ℕ) (rows : List PositionRow) (r : PositionRow)
    → Holds r rows
    → comes_after ts id r ≡ true
    → Holds r (select_since ts id limit rows)
      ⊎ ((length (select_since ts id limit rows) ≡ limit)
          × All (λ s. NotAfter s r) (select_since ts id limit rows))
unfolding select_since
select_since_complete ts id limit rows r h a =
    Holds-take r limit _ (order_rows-IsOrdered (rows_after ts id rows))
      (Holds-order r _ (Holds-rows_after ts id r rows h a))
