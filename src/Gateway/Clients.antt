-- ===== src/Gateway/Clients.antt =====
-- No step of the gateway breaks its limits or leaves a gap in what a client is sent.
use event_stream_platform.Prelude.{
  ℕ, ◌+◌, ◌≤◌, ◌≡◌, refl, sym, inl, inr, List, [], ◌∷◌, ◌++◌, length, drop, arith, All, All-append,
  All-map, Bool-cases,
}
use event_stream_platform.Prelude.Int.{pos, pos_part, leb_ℤ}
use event_stream_platform.Fanout.{Frame}
use event_stream_platform.Gateway.Hub.{
  Options, Client, Hub, register, broadcast, unregister, shutdown, Step, registers, broadcasts,
  unregisters, shuts_down, receives, Reaches, starts, steps,
}
use event_stream_platform.Gateway.Whole.{
  IsWhole, IsCut, Fits, IsOrderly, IsWhole-IsCut, IsCut-append, receive-IsWhole, receive-IsCut,
  receive-Fits, All-receive, length-receive_of, All-split_out, length-split_out, offer_each-All,
}

drop_all : (bus : List Frame) → drop (length bus) bus ≡ []
drop_all [] = refl
drop_all (f ∷ bus) = drop_all bus

joins :
    (h : Hub)
    → IsWhole h.bus (record { id = h.next; queue = []; received = []; joined = length h.bus })
joins h = record { joined = omega arith; all = sym (drop_all h.bus) }

register-IsOrderly : (o : Options) (h : Hub) → IsOrderly o h → IsOrderly o (register o h).1
unfolding register
register-IsOrderly o h i = elim (Bool-cases (leb_ℤ o.max_clients (pos (length h.clients)))) [
  | inl q ↦
      rw (q, register) (record { limit = i.limit; fits = i.fits; whole = i.whole; cut = i.cut })
  | inr q ↦
      let below : length h.clients + 1 ≤ pos_part o.max_clients = ground (arith, q) in
      rw (q, register)
        (record {
          limit = omega (arith, below);
          fits = (omega arith, i.fits);
          whole = (joins h, i.whole);
          cut = i.cut;
        })
]

broadcast-IsOrderly :
    (o : Options) (f : Frame) (h : Hub) → IsOrderly o h → IsOrderly o (broadcast o f h)
unfolding broadcast
broadcast-IsOrderly o f h i =
    let k = offer_each-All o h.bus f h.clients i.whole in
    record {
      limit = omega (arith, k.3, i.limit);
      fits = k.2;
      whole = k.0;
      cut = All-append (IsCut (h.bus ++ f ∷ [])) _ h.closed k.1 (
          All-map (IsCut h.bus) (IsCut (h.bus ++ f ∷ [])) (λ c w. IsCut-append h.bus f c w) h.closed
            i.cut);
    }

All-IsCut : (bus : List Frame) (cs : List Client) → All (IsWhole bus) cs → All (IsCut bus) cs
All-IsCut bus cs h = All-map (IsWhole bus) (IsCut bus) (λ c w. IsWhole-IsCut bus c w) cs h

unregister-IsOrderly :
    (o : Options) (id : ℕ) (h : Hub) → IsOrderly o h → IsOrderly o (unregister id h)
unfolding unregister
unregister-IsOrderly o id h i =
    let whole = All-split_out (IsWhole h.bus) id h.clients i.whole in
    record {
      limit = omega (arith, length-split_out id h.clients, i.limit);
      fits = (All-split_out (Fits o) id h.clients i.fits).0;
      whole = whole.0;
      cut = All-append (IsCut h.bus) _ h.closed (All-IsCut h.bus _ whole.1) i.cut;
    }

shutdown-IsOrderly : (o : Options) (h : Hub) → IsOrderly o h → IsOrderly o (shutdown h)
unfolding shutdown
shutdown-IsOrderly o h i = record {
  limit = omega arith;
  fits = tt;
  whole = tt;
  cut = All-append (IsCut h.bus) h.clients h.closed (All-IsCut h.bus h.clients i.whole) i.cut;
}

-- Every step of the gateway and of its handlers keeps the hub orderly: at most MaxClients clients, at
-- most ClientBuffer frames waiting for each, every client sent the whole bus since it joined, and
-- every client that was dropped an unbroken beginning of that.
pub Step-IsOrderly : (o : Options) (h h' : Hub) → IsOrderly o h → Step o h h' → IsOrderly o h'
Step-IsOrderly o h _ i (registers _) = register-IsOrderly o h i
Step-IsOrderly o h _ i (broadcasts f _) = broadcast-IsOrderly o f h i
Step-IsOrderly o h _ i (unregisters id _) = unregister-IsOrderly o id h i
Step-IsOrderly o h _ i (shuts_down _) = shutdown-IsOrderly o h i
Step-IsOrderly o h _ i (receives id _) = record {
  limit = omega (arith, length-receive_of id h.clients, i.limit);
  fits = All-receive (Fits o) id h.clients (receive-Fits o) i.fits;
  whole = All-receive (IsWhole h.bus) id h.clients (receive-IsWhole h.bus) i.whole;
  cut = All-receive (IsCut h.bus) id h.closed (receive-IsCut h.bus) i.cut;
}

-- In every hub that the gateway can reach, in whatever order clients come and go, frames arrive and
-- handlers receive: there are at most MaxClients clients with at most ClientBuffer frames waiting, a
-- client has been sent every frame since it joined, in order, and a client that was dropped has been
-- sent a beginning of them without a gap.
pub Reaches-IsOrderly : (o : Options) (h : Hub) → Reaches o h → IsOrderly o h
Reaches-IsOrderly o h starts = record { limit = omega arith; fits = tt; whole = tt; cut = tt }
Reaches-IsOrderly o h' (steps {h} r s) = Step-IsOrderly o h h' (Reaches-IsOrderly o h r) s
