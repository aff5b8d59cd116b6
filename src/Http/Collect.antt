-- ===== src/Http/Collect.antt =====
-- What runChecks has of each check when the last result has come.
use event_stream_platform.Prelude.{
  ℕ, ◌≡◌, ◌↔◌, refl, sym, ap, ◌∙◌, ◌⊎◌, inl, inr, String, true, false, Option, none, some, List, [],
  ◌∷◌, str_eq, ◌==◌, eq_iff, if◌then◌else◌, All, Holds, here, there, arith, Bool-cases,
  Option-cases,
}
use event_stream_platform.Http.Checks.{Check, Checked, set_gauge, gauge_value, settle, collect}

-- The text of a result.
abbrev pub text : Option String → String
text none = "ok"
text (some e) = e

-- A gauge, if there is one, has the value.
abbrev pub GaugeIs : Option ℕ → ℕ → (ℕ → ℕ) → Type 0
GaugeIs none v m = Unit
GaugeIs (some g) v m = m g ≡ v

sets_gauge : (c : Check) (g : ℕ) → (c.gauge ≡ some g) ⊎ ¬ (c.gauge ≡ some g)
sets_gauge c g = elim (Option-cases c.gauge) [
  | inl q ↦ inr (λ h. ground (arith, q, h))
  | inr (x, q) ↦ elim (Bool-cases (x == g)) [
    | inl k ↦ inl (ground (arith, q, k))
    | inr k ↦ inr (λ h. ground (arith, q, k, h))
  ]
]

set_own : (o : Option ℕ) (g v : ℕ) (m : ℕ → ℕ) → o ≡ some g → set_gauge o v m g ≡ v
set_own o g v m h = rw h (ground arith)

set_other : (o : Option ℕ) (g v : ℕ) (m : ℕ → ℕ) → ¬ (o ≡ some g) → set_gauge o v m g ≡ m g
set_other none g v m h = refl
set_other (some x) g v m h = elim (Bool-cases (g == x)) [
  | inl k ↦ absurd (h (ground (arith, k)))
  | inr k ↦ rw k refl
]

module _ (fn : Check → Option String) where
  settle-results :
      (c : Check) (s : Checked) (n : String)
      → (settle c (fn c) s).results n
        ≡ (if str_eq n c.name then some (text (fn c)) else s.results n)
  settle-results c s n = elim (Option-cases (fn c)) [ inl q ↦ rw q refl | inr (e, q) ↦ rw q refl ]

  settle-gauges :
      (c : Check) (s : Checked)
      → (settle c (fn c) s).gauges ≡ set_gauge c.gauge (gauge_value (fn c)) s.gauges
  settle-gauges c s = elim (Option-cases (fn c)) [ inl q ↦ rw q refl | inr (e, q) ↦ rw q refl ]

  -- The last result under a name stands, and all of them agree.
  pub collect-results :
      (cs : List Check) (s : Checked) (n v : String)
      → All (λ c. c.name ≡ n → text (fn c) ≡ v) cs
      → ((c : Check) × Holds c cs × (c.name ≡ n)) ⊎ (s.results n ≡ some v)
      → (collect fn cs s).results n ≡ some v
  unfolding collect
  collect-results [] s n v own (inl (c, h, e)) = elim h [ ]
  collect-results [] s n v own (inr e) = e
  collect-results (c ∷ cs) s n v own o = elim (Bool-cases (str_eq n c.name)) [
    | inl q ↦
        let now : (settle c (fn c) s).results n ≡ some v =
          settle-results c s n ∙ rw q (ap some (own.0 (sym ((eq_iff n c.name).0 q)))) in
        collect-results cs (settle c (fn c) s) n v own.1 (inr now)
    | inr q ↦
        let same : (settle c (fn c) s).results n ≡ s.results n = settle-results c s n ∙ rw q refl in
        collect-results cs (settle c (fn c) s) n v own.1 (elim o [
          | inr e ↦ inr (same ∙ e)
          | inl (d, here e, k) ↦
              let named : n ≡ c.name = sym k ∙ ap (λ (x : Check). x.name) e in
              absurd (ground (arith, q, (eq_iff n c.name).1 named))
          | inl (d, there h, k) ↦ inl (d, h, k)
        ])
  ]

  -- So does the last value of a gauge.
  pub collect-gauges :
      (cs : List Check) (s : Checked) (g v : ℕ)
      → All (λ c. c.gauge ≡ some g → gauge_value (fn c) ≡ v) cs
      → ((c : Check) × Holds c cs × (c.gauge ≡ some g)) ⊎ (s.gauges g ≡ v)
      → (collect fn cs s).gauges g ≡ v
  unfolding collect
  collect-gauges [] s g v own (inl (c, h, e)) = elim h [ ]
  collect-gauges [] s g v own (inr e) = e
  collect-gauges (c ∷ cs) s g v own o =
      collect-gauges cs (settle c (fn c) s) g v own.1 (elim (sets_gauge c g) [
        | inl e ↦
            let now : (settle c (fn c) s).gauges g ≡ v =
              ap (λ m. m g) (settle-gauges c s) ∙ set_own c.gauge g _ s.gauges e ∙ own.0 e in
            inr now
        | inr e ↦ elim o [
          | inr k ↦ inr (ap (λ m. m g) (settle-gauges c s) ∙ set_other c.gauge g _ s.gauges e ∙ k)
          | inl (d, here k, q) ↦ absurd (e (ap (λ (x : Check). x.gauge) (sym k) ∙ q))
          | inl (d, there h, q) ↦ inl (d, h, q)
        ]
      ])

  pub collect-all_passed :
      (cs : List Check) (s : Checked)
      → (collect fn cs s).all_passed ≡ true ↔ ((s.all_passed ≡ true) × All (λ c. fn c ≡ none) cs)
  unfolding collect
  collect-all_passed [] s = (λ h. (h, tt), λ h. h.0)
  collect-all_passed (c ∷ cs) s = elim (Option-cases (fn c)) [
    | inl q ↦
        let more = collect-all_passed cs (settle c (fn c) s) in
        let same : (settle c (fn c) s).all_passed ≡ s.all_passed = rw q refl in
        (λ h. (sym same ∙ (more.0 h).0, (q, (more.0 h).1)), λ h. more.1 (same ∙ h.0, h.1.1))
    | inr (e, q) ↦
        let more = collect-all_passed cs (settle c (fn c) s) in
        let failed : (settle c (fn c) s).all_passed ≡ false = rw q refl in
        (λ h. absurd (ground (arith, failed, (more.0 h).0)), λ h. absurd (ground (arith, q, h.1.0)))
  ]
