-- ===== src/Broker/Durable.antt =====
-- What an answer of Produce stands for.
use event_stream_platform.Prelude.{
  ℕ, suc, ◌≡◌, refl, sym, inl, inr, String, false, List, [], ◌∷◌, ◌++◌, map, arith, str_eq,
  Bool-cases, ok,
}
use mathlib.Core.List.{append-nil}
use event_stream_platform.Broker.{Record, LogRecord, Fate, FateLaws, wire, written, failed, produce}

-- Records that are all acknowledged are all written, in order.
written_all :
    (topic : String) (fate : ℕ → Fate) (i : ℕ) (recs : List Record)
    → FateLaws fate
    → failed fate i recs ≡ 0
    → written topic fate i recs ≡ map (wire topic) recs
unfolding failed written
written_all topic fate i [] l h = refl
written_all topic fate i (r ∷ rs) l h = elim (Bool-cases (fate i).is_acknowledged) [
  | inl a ↦
      let b = l.acknowledged i a in
      let more = written_all topic fate (suc i) rs l (ground (arith, a)) in rw (b, more) refl
  | inr a ↦ absurd (ground (arith, a))
]

-- When an acknowledged record has been written: a Produce that reports no error has appended all of
-- its records to the log, in their order, each on the topic with its headers sorted.
pub produce_all :
    (topic : String) (fate : ℕ → Fate) (recs : List Record) (log : List LogRecord) (u : Unit {0})
    → FateLaws fate
    → (produce topic fate recs log).0 ≡ ok u
    → (produce topic fate recs log).1 ≡ log ++ map (wire topic) recs
unfolding produce
produce_all topic fate [] log u l h = sym (append-nil log)
produce_all topic fate (r ∷ rs) log u l h =
    let named : str_eq topic "" ≡ false = ground arith in
    let none_failed : failed fate 0 (r ∷ rs) ≡ 0 = ground arith in
    rw (named, written_all topic fate 0 (r ∷ rs) l none_failed) refl
