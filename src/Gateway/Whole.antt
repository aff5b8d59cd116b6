-- ===== src/Gateway/Whole.antt =====
-- What the clients of the gateway are sent: all of the bus from where they joined, without a gap.
use event_stream_platform.Prelude.{
  ℕ, zero, suc, ◌≤◌, ◌<◌, ◌≡◌, refl, sym, ◌∙◌, ap, ◌⊎◌, inl, inr, true, List, [], ◌∷◌, ◌++◌, length,
  drop, length-append, arith, ltb, ◌==◌, All, Bool-cases,
}
use mathlib.Core.List.{append-nil, append_assoc}
use event_stream_platform.Prelude.Int.{pos_part}
use event_stream_platform.Fanout.{Frame}
use event_stream_platform.Gateway.Hub.{
  Options, Client, Hub, buffer, push, offer_each, split_out, receive, receive_of,
}

-- What a client has been sent, and is about to receive.
abbrev pub sent : Client → List Frame
sent c = c.received ++ c.queue

-- A client that has been sent the whole bus since it joined.
pub record IsWhole (bus : List Frame) (c : Client) : Type 0 where
  pub joined : c.joined ≤ length bus
  pub all : sent c ≡ drop c.joined bus

-- A client that has been sent an unbroken beginning of that.
pub record IsCut (bus : List Frame) (c : Client) : Type 0 where
  pub joined : c.joined ≤ length bus
  pub missed : List Frame
  pub first : sent c ++ missed ≡ drop c.joined bus

abbrev pub Fits : Options → Client → Type 0
Fits o c = length c.queue ≤ buffer o

-- The clients of a hub: within the limits, and without gaps.
pub record IsOrderly (o : Options) (h : Hub) : Type 0 where
  pub limit : length h.clients ≤ pos_part o.max_clients
  pub fits : All (Fits o) h.clients
  pub whole : All (IsWhole h.bus) h.clients
  pub cut : All (IsCut h.bus) h.closed

pub IsWhole-IsCut : (bus : List Frame) (c : Client) → IsWhole bus c → IsCut bus c
IsWhole-IsCut bus c w = record {
  joined = w.joined;
  missed = [];
  first = append-nil (sent c) ∙ w.all;
}

drop-append : (n : ℕ) (xs ys : List Frame) → n ≤ length xs → drop n (xs ++ ys) ≡ drop n xs ++ ys
drop-append zero xs ys h = refl
drop-append (suc n) [] ys h = absurd (omega arith)
drop-append (suc n) (x ∷ xs) ys h = drop-append n xs ys (omega arith)

longer : (n : ℕ) (bus : List Frame) (f : Frame) → n ≤ length bus → n ≤ length (bus ++ f ∷ [])
longer n bus f h = omega (arith, length-append bus (f ∷ []), h)

pub push-IsWhole :
    (bus : List Frame) (f : Frame) (c : Client) → IsWhole bus c → IsWhole (bus ++ f ∷ []) (push f c)
push-IsWhole bus f c w = record {
  joined = longer c.joined bus f w.joined;
  all =
      sym (append_assoc c.received c.queue (f ∷ []))
      ∙ ap (λ xs. xs ++ f ∷ []) w.all
      ∙ sym (drop-append c.joined bus (f ∷ []) w.joined);
}

pub IsCut-append :
    (bus : List Frame) (f : Frame) (c : Client) → IsCut bus c → IsCut (bus ++ f ∷ []) c
IsCut-append bus f c w = record {
  joined = longer c.joined bus f w.joined;
  missed = w.missed ++ f ∷ [];
  first =
      sym (append_assoc (sent c) w.missed (f ∷ []))
      ∙ ap (λ xs. xs ++ f ∷ []) w.first
      ∙ sym (drop-append c.joined bus (f ∷ []) w.joined);
}

queue-cases : (q : List Frame) → (q ≡ []) ⊎ ((f : Frame) × ((fs : List Frame) × (q ≡ f ∷ fs)))
queue-cases [] = inl refl
queue-cases (f ∷ fs) = inr (f, (fs, refl))

receive-sent :
    (c : Client)
    → (sent (receive c) ≡ sent c)
      × ((receive c).joined ≡ c.joined)
      × (length (receive c).queue ≤ length c.queue)
receive-sent c = elim (queue-cases c.queue) [
  | inl e ↦
      let same : receive c ≡ c = unfold receive in ground (arith, e) in
      (
        ap sent same,
        ap (λ (x : Client). x.joined) same,
        omega (arith, ap (λ (x : Client). length x.queue) same),
      )
  | inr (f, (fs, e)) ↦
      let same : receive c ≡ record c { queue = fs; received = c.received ++ f ∷ [] } =
        unfold receive in ground (arith, e) in
      (
        ap sent same ∙ append_assoc c.received (f ∷ []) fs ∙ ap (λ q. c.received ++ q) (sym e),
        ap (λ (x : Client). x.joined) same,
        omega (arith, ap (λ (x : Client). length x.queue) same, ap length e),
      )
]

pub receive-IsWhole : (bus : List Frame) (c : Client) → IsWhole bus c → IsWhole bus (receive c)
receive-IsWhole bus c w =
    let (a, j, q) = receive-sent c in
    record { joined = omega (arith, j, w.joined); all = a ∙ w.all ∙ ap (λ n. drop n bus) (sym j) }

pub receive-IsCut : (bus : List Frame) (c : Client) → IsCut bus c → IsCut bus (receive c)
receive-IsCut bus c w =
    let (a, j, q) = receive-sent c in
    record {
      joined = omega (arith, j, w.joined);
      missed = w.missed;
      first = ap (λ xs. xs ++ w.missed) a ∙ w.first ∙ ap (λ n. drop n bus) (sym j);
    }

pub receive-Fits : (o : Options) (c : Client) → Fits o c → Fits o (receive c)
receive-Fits o c h = omega (arith, (receive-sent c).2, h)

pub All-receive {ℓ} :
    (P : Client → Type ℓ) (id : ℕ) (cs : List Client)
    → ((c : Client) → P c → P (receive c))
    → All P cs
    → All P (receive_of id cs)
unfolding receive_of
All-receive P id [] f h = tt
All-receive P id (c ∷ cs) f h = elim (Bool-cases (c.id == id)) [
  | inl q ↦ rw q (f c h.0, All-receive P id cs f h.1)
  | inr q ↦ rw q (h.0, All-receive P id cs f h.1)
]

pub length-receive_of : (id : ℕ) (cs : List Client) → length (receive_of id cs) ≡ length cs
unfolding receive_of
length-receive_of id [] = refl
length-receive_of id (c ∷ cs) = omega (arith, length-receive_of id cs)

pub All-split_out {ℓ} :
    (P : Client → Type ℓ) (id : ℕ) (cs : List Client)
    → All P cs
    → All P (split_out id cs).0 × All P (split_out id cs).1
unfolding split_out
All-split_out P id [] h = (tt, tt)
All-split_out P id (c ∷ cs) h = elim (Bool-cases (c.id == id)) [
  | inl q ↦ let k = All-split_out P id cs h.1 in rw q (k.0, (h.0, k.1))
  | inr q ↦ let k = All-split_out P id cs h.1 in rw q ((h.0, k.0), k.1)
]

pub length-split_out : (id : ℕ) (cs : List Client) → length (split_out id cs).0 ≤ length cs
unfolding split_out
length-split_out id [] = omega arith
length-split_out id (c ∷ cs) = ground (arith, length-split_out id cs)

room :
    (o : Options) (f : Frame) (c : Client)
    → ltb (length c.queue) (buffer o) ≡ true
    → Fits o (push f c)
room o f c q =
    let lt : length c.queue < buffer o = ground (arith, q) in
    omega (arith, length-append c.queue (f ∷ []), lt)

-- What a frame offered to the clients leaves of those kept and those dropped.
pub offer_each-All :
    (o : Options) (bus : List Frame) (f : Frame) (cs : List Client)
    → All (IsWhole bus) cs
    → All (IsWhole (bus ++ f ∷ [])) (offer_each (buffer o) f cs).0
      × All (IsCut (bus ++ f ∷ [])) (offer_each (buffer o) f cs).1
      × All (Fits o) (offer_each (buffer o) f cs).0
      × (length (offer_each (buffer o) f cs).0 ≤ length cs)
unfolding offer_each
offer_each-All o bus f [] h = (tt, tt, tt, omega arith)
offer_each-All o bus f (c ∷ cs) h =
    let k = offer_each-All o bus f cs h.1 in
    elim (Bool-cases (ltb (length c.queue) (buffer o))) [
      | inl q ↦ rw q ((push-IsWhole bus f c h.0, k.0), k.1, (room o f c q, k.2), omega (arith, k.3))
      | inr q ↦
          rw q (k.0, (IsCut-append bus f c (IsWhole-IsCut bus c h.0), k.1), k.2, omega (arith, k.3))
    ]
