-- ===== src/Gateway/Resume.antt =====
-- What a resume writes, case by case.
use event_stream_platform.Prelude.{
  ℕ, suc, ◌+◌, ◌≤◌, ◌<◌, ◌≡◌, ◌≢◌, ◌⊎◌, eq_iff, refl, sym, true, ◌∙◌, ap, inl, inr, String, Bool,
  false, ◌&&◌, none, some, List, [], ◌∷◌, ◌++◌, map, length, arith, ltb, str_eq, if◌then◌else◌,
  Bool-cases, Option-cases, ok, err, Result-cases,
}
use event_stream_platform.Prelude.Int.{ℤ, pos, negsuc, pos_part, ltb_ℤ}
use event_stream_platform.Fanout.{Frame}
use event_stream_platform.Gateway.Hub.{Options}
use event_stream_platform.Gateway.Replay.{
  History, control, position, Resume, only, and_frame, write_all, replay_since, replay_known,
  replay_from, replay,
}

-- The event that a client says it saw last.
abbrev pub resume_id : String → String → String
resume_id header query = if str_eq header "" then query else header

-- The window is set and the time has left it, or one of the two is not so.
abbrev pub IsPast : ℤ → ℕ → ℕ → Type 0
IsPast window now ts = (1 ≤ pos_part window) × (ts + pos_part window < now)

abbrev pub IsWithin : ℤ → ℕ → ℕ → Type 0
IsWithin window now ts = (pos_part window ≡ 0) ⊎ (now ≤ ts + pos_part window)

-- The frames, of which the first has the number i, can be written.
abbrev pub Written : (ℕ → Bool) → ℕ → List Frame → Type 0
Written can_write i [] = Unit
Written can_write i (f ∷ fs) = (can_write i ≡ true) × Written can_write (suc i) fs

-- What a resume answers, case by case: the client's last event, whether the history knows its time,
-- whether that is within the window, whether the frames since can be read, and which can be written.
pub data Resumes (o : Options) (window : ℤ) (now : ℕ) (history : History) (can_write : ℕ → Bool)
    (last_id : String) (r : Resume) : Type 0 where
  fresh : last_id ≡ "" → r ≡ only "ready" → Resumes o window now history can_write last_id r
  unresolved :
      last_id ≢ ""
      → history.position_time last_id ≡ err tt
      → r ≡ only "error"
      → Resumes o window now history can_write last_id r
  unknown :
      last_id ≢ ""
      → history.position_time last_id ≡ ok none
      → r ≡ only "reset"
      → Resumes o window now history can_write last_id r
  past :
      (ts : ℕ)
      → last_id ≢ ""
      → history.position_time last_id ≡ ok (some ts)
      → IsPast window now ts
      → r ≡ only "reset"
      → Resumes o window now history can_write last_id r
  unread :
      (ts : ℕ)
      → last_id ≢ ""
      → history.position_time last_id ≡ ok (some ts)
      → IsWithin window now ts
      → history.positions_since ts last_id (pos_part o.replay_limit) ≡ err tt
      → r ≡ only "error"
      → Resumes o window now history can_write last_id r
  broken :
      (ts : ℕ) (first missed : List Frame) (f : Frame)
      → last_id ≢ ""
      → history.position_time last_id ≡ ok (some ts)
      → IsWithin window now ts
      → history.positions_since ts last_id (pos_part o.replay_limit) ≡ ok (first ++ f ∷ missed)
      → Written can_write 0 first
      → can_write (length first) ≡ false
      → r ≡ record { written = map position first; sent = length first }
      → Resumes o window now history can_write last_id r
  resumed :
      (ts : ℕ) (frames : List Frame)
      → last_id ≢ ""
      → history.position_time last_id ≡ ok (some ts)
      → IsWithin window now ts
      → history.positions_since ts last_id (pos_part o.replay_limit) ≡ ok frames
      → Written can_write 0 frames
      → r ≡ record { written = map position frames ++ control "resumed" ∷ []; sent = length frames }
      → Resumes o window now history can_write last_id r

-- The two ends of the loop over the frames.
data Writes (can_write : ℕ → Bool) (i : ℕ) (frames : List Frame) (r : Resume) : Type 0 where
  stopped :
      (first missed : List Frame) (f : Frame)
      → frames ≡ first ++ f ∷ missed
      → Written can_write i first
      → can_write (i + length first) ≡ false
      → r ≡ record { written = map position first; sent = length first }
      → Writes can_write i frames r
  finished :
      Written can_write i frames
      → r ≡ record { written = map position frames ++ control "resumed" ∷ []; sent = length frames }
      → Writes can_write i frames r

write_all-Writes :
    (can_write : ℕ → Bool) (i : ℕ) (frames : List Frame)
    → Writes can_write i frames (write_all can_write i frames)
unfolding write_all
write_all-Writes can_write i [] = finished tt refl
write_all-Writes can_write i (f ∷ fs) = elim (Bool-cases (can_write i)) [
  | inr q ↦
      let here : i ≡ i + 0 = omega arith in
      stopped [] fs f refl tt (ap can_write (sym here) ∙ q) (ground (arith, q))
  | inl q ↦
      let step : write_all can_write i (f ∷ fs) ≡ and_frame f (write_all can_write (suc i) fs) =
        ground (arith, q) in
      elim (write_all-Writes can_write (suc i) fs) [
        | stopped first missed g e w n r ↦
            let next : i + suc (length first) ≡ suc i + length first = omega arith in
            stopped (f ∷ first) missed g (ap (λ xs. f ∷ xs) e) (q, w) (ap can_write next ∙ n)
              (step ∙ ground (arith, r))
        | finished w r ↦ finished (q, w) (step ∙ ground (arith, r))
      ]
]

-- The test of the window decides.
window_cases :
    (window : ℤ) (now ts : ℕ)
    → let test = ltb_ℤ (pos 0) window && ltb (ts + pos_part window) now in
      (test ≡ true) × IsPast window now ts ⊎ (test ≡ false) × IsWithin window now ts
window_cases (negsuc n) now ts = inr (ground arith, inl refl)
window_cases (pos w) now ts = elim (Bool-cases (ltb 0 w)) [
  | inr q ↦ inr (ground (arith, q), inl (ground (arith, q)))
  | inl q ↦ elim (Bool-cases (ltb (ts + w) now)) [
    | inl k ↦ inl (ground (arith, q, k), (ground (arith, q), ground (arith, k)))
    | inr k ↦ inr (ground (arith, q, k), inr (ground (arith, k)))
  ]
]

module _ (o : Options) (window : ℤ) (now : ℕ) (history : History) (can_write : ℕ → Bool)
    (last_id : String) where
  since-Resumes :
      (ts : ℕ)
      → last_id ≢ ""
      → history.position_time last_id ≡ ok (some ts)
      → IsWithin window now ts
      → Resumes o window now history can_write last_id (replay_since o history can_write last_id ts)
  since-Resumes ts named t within =
      elim (Result-cases (history.positions_since ts last_id (pos_part o.replay_limit))) [
        | inr (e, p) ↦ unread ts named t within p (unfold replay_since in ground (arith, p))
        | inl (frames, p) ↦
            let same : replay_since o history can_write last_id ts ≡ write_all can_write 0 frames =
              unfold replay_since in ground (arith, p) in
            elim (write_all-Writes can_write 0 frames) [
              | stopped first missed f e w n r ↦
                  let from : 0 + length first ≡ length first = omega arith in
                  broken ts first missed f named t within (p ∙ ap ok e) w
                    (ap can_write (sym from) ∙ n) (same ∙ r)
              | finished w r ↦ resumed ts frames named t within p w (same ∙ r)
            ]
      ]

  from-Resumes :
      last_id ≢ ""
      → Resumes o window now history can_write last_id
          (replay_from o window now history can_write last_id)
  from-Resumes named = elim (Result-cases (history.position_time last_id)) [
    | inr (e, t) ↦ unresolved named t (unfold replay_from in ground (arith, t))
    | inl (x, t) ↦ elim (Option-cases x) [
      | inl n ↦ unknown named (t ∙ ap ok n) (unfold replay_from in ground (arith, t, n))
      | inr (ts, n) ↦
          let known : replay_from o window now history can_write last_id
              ≡ replay_known o window now history can_write last_id ts =
            unfold replay_from in ground (arith, t, n) in
          elim (window_cases window now ts) [
            | inl (q, old) ↦
                past ts named (t ∙ ap ok n) old (known ∙ (unfold replay_known in rw q refl))
            | inr (q, within) ↦
                let same : replay_known o window now history can_write last_id ts
                    ≡ replay_since o history can_write last_id ts =
                  unfold replay_known in rw q refl in
                rw (known ∙ same) (since-Resumes ts named (t ∙ ap ok n) within)
          ]
    ]
  ]

-- What a reconnecting client is written. Without a last event: `ready`. With one whose time could not
-- be read: `error`; that the history does not know, or that is older than the window, where one is set:
-- `reset`. Else, if the history since could not be read: `error`; if all its frames can be written: all
-- of them, in order and without one left out, and then `resumed`; and if one cannot: those before the
-- first that cannot, and no `resumed`. The count is that of the frames written.
pub replay-Resumes :
    (o : Options) (window : ℤ) (now : ℕ) (history : History) (can_write : ℕ → Bool)
    (header query : String)
    → Resumes o window now history can_write
        (resume_id header query)
        (replay o window now history can_write header query)
replay-Resumes o window now history can_write header query =
    let id = resume_id header query in
    elim (Bool-cases (str_eq id "")) [
      | inl q ↦ fresh ((eq_iff id "").0 q) (unfold replay in rw q refl)
      | inr q ↦
          let named : id ≢ "" = λ e. ground (arith, q, (eq_iff id "").1 e) in
          let same : replay o window now history can_write header query
              ≡ replay_from o window now history can_write id =
            unfold replay in rw q refl in
          rw same (from-Resumes o window now history can_write id named)
    ]
