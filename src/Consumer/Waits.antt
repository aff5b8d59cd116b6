-- ===== src/Consumer/Waits.antt =====
-- The bounds of the waits between attempts.
use event_stream_platform.Prelude.{
  ℕ, zero, suc, ◌+◌, ◌-◌, ◌*◌, ◌^◌, ◌≤◌, ◌<◌, min, ◌≡◌, refl, sym, ◌∙◌, ap, inl, inr, false, arith,
  ltb, if◌then◌else◌, Bool-cases,
}
use event_stream_platform.Prelude.Int.{ℤ, pos, ltb_ℤ}
use event_stream_platform.Consumer.State.{Options}
use event_stream_platform.Consumer.Backoff.{double64, doublings, backoff}

-- The limit that ends backoff.
abbrev capped : ℕ → ℤ → ℤ
capped top d = if ltb_ℤ (pos top) d then pos top else d

times_power : (d n : ℕ) → d * 2 ^ (suc n) ≡ 2 * d * 2 ^ n
times_power d n = grind arith

at_least : (d n : ℕ) → d ≤ d * 2 ^ n
at_least d zero = grind arith
at_least d (suc n) = let k = at_least d n in omega (arith, k, times_power d n)

double64_small : (d : ℕ) → d < 2 ^ 62 → double64 (pos d) ≡ pos (2 * d)
unfolding double64
double64_small d h = ground arith

stays : (top d : ℕ) → ltb d top ≡ false → (m : ℕ) → d ≤ m → capped top (pos d) ≡ pos (min m top)
stays top d q m h = ground arith

capped-doublings :
    (n top d : ℕ)
    → top ≤ 2 ^ 62
    → capped top (doublings n (pos top) (pos d)) ≡ pos (min (d * 2 ^ n) top)
capped-doublings zero top d h = unfold doublings in ground arith
capped-doublings (suc n) top d h = elim (Bool-cases (ltb d top)) [
  | inl q ↦
      let small : d < 2 ^ 62 = ground arith in
      let step : doublings (suc n) (pos top) (pos d) ≡ doublings n (pos top) (pos (2 * d)) =
        unfold doublings in ground (arith, q, double64_small d small) in
      ap (capped top) step
      ∙ capped-doublings n top (2 * d) h
      ∙ ap (λ m. pos (min m top)) (sym (times_power d n))
  | inr q ↦
      let stop : doublings (suc n) (pos top) (pos d) ≡ pos d =
        unfold doublings in ground (arith, q) in
      ap (capped top) stop ∙ stays top d q (d * 2 ^ suc n) (at_least d (suc n))
]

-- With a base and a maximum that are not negative, and a maximum of at most 2 ^ 62 nanoseconds (146
-- years): the wait after attempt n + 1 is the base doubled n times, or the maximum if that is less,
-- computed in int64 without overflow.
pub backoff-doubles :
    (o : Options) (base top n : ℕ)
    → o.backoff_base ≡ pos base
    → o.backoff_max ≡ pos top
    → top ≤ 2 ^ 62
    → backoff o (n + 1) ≡ pos (min (base * 2 ^ n) top)
backoff-doubles o base top n b m h =
    let previous : n + 1 - 1 ≡ n = omega arith in
    let step : backoff o (n + 1) ≡ capped top (doublings n (pos top) (pos base)) =
      unfold backoff in rw (b, m, previous) refl in
    step ∙ capped-doublings n top base h
