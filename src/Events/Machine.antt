-- ===== src/Events/Machine.antt =====
-- What the connection management promises, apart from nodes, buffers and calls: a machine that counts
-- connections. The handlers of wsbenchmark.c and of the programs that share them implement it.
use rdma_pmem.Prelude.{
  true, ap, sym, ℕ, zero, suc, ◌≡◌, ◌⊎◌, refl, not, ◌||◌, List, [], ◌∷◌, ◌++◌, arith, inl, inr,
}
use rdma_pmem.Prelude.Int.{ℤ, pos, is_zero, incr, decr}
use rdma_pmem.World.{
  Ptr, EventType, addr_resolved, route_resolved, connect_request, established, addr_error,
  route_error, connect_error, unreachable, rejected, disconnected, device_removal, other_event,
  Event, get_cm_event, ack_cm_event, Trace, World, ok, pure, call, ◌>>◌,
}
use mathlib.Core.List.{append_assoc}
use rdma_pmem.World.After
use rdma_pmem.World.After.{After}
use rdma_pmem.Node.{Config}
use rdma_pmem.Setup.{deref}
use rdma_pmem.Events.{
  Test, Variant, node_at, set_node, establish, count_connect_error, addr_handler, start_connection,
  route_handler, connect_handler, prepare_connection, refuse_connection, dispatch, cma_handler,
  next_event, event_loop,
}
use rdma_pmem.Events.Quiet.{acked_events, QuietVariant, cma_handler-IsQuiet}

-- the connections that are not settled yet, and those that are open
pub record Tally : Type 0 where
  pub pending : ℤ
  pub opened : ℤ

abbrev pub tally : Test → Tally
tally test = record { pending = test.connects_left; opened = test.disconnects_left }

-- an event of the connection manager that ends an attempt
pub data IsFailure : EventType → Type 0 where
  addr : IsFailure addr_error
  route : IsFailure route_error
  connection : IsFailure connect_error
  unreached : IsFailure unreachable
  refused : IsFailure rejected

-- an event that a handler answers with work that may fail
pub data IsProgress : EventType → Type 0 where
  address : IsProgress addr_resolved
  path : IsProgress route_resolved
  request : IsProgress connect_request

-- an event that changes nothing
pub data IsNotice : EventType → Type 0 where
  device : IsNotice device_removal
  other : IsNotice other_event

-- One event: it opens a connection, ends an attempt, moves one on, or closes a connection. The work
-- on a connection may fail, which ends the attempt.
pub data Step (s : Tally) : EventType → Tally → Type 0 where
  opens : Step s established (record { pending = decr s.pending; opened = incr s.opened })
  fails : {k : EventType} → IsFailure k → Step s k (record s { pending = decr s.pending })
  moves_on : {k : EventType} → IsProgress k → Step s k s
  gives_up : {k : EventType} → IsProgress k → Step s k (record s { pending = decr s.pending })
  closes : Step s disconnected (record s { opened = decr s.opened })
  notices : {k : EventType} → IsNotice k → Step s k s

-- a sequence of events, the newest first
pub data Steps (s : Tally) : List EventType → Tally → Type 0 where
  here : Steps s [] s
  next :
      {ks : List EventType} {u v : Tally} {k : EventType}
      → Steps s ks u
      → Step u k v
      → Steps s (k ∷ ks) v

abbrev given_up : Tally → Tally
given_up s = record s { pending = decr s.pending }

-- the attempt moves on, or is given up
abbrev Goes : Test → ℤ × Test → Type 0
Goes test r = (tally r.1 ≡ tally test) ⊎ (tally r.1 ≡ given_up (tally test))

progress-Step :
    {k : EventType} (test : Test) (r : ℤ × Test)
    → IsProgress k
    → Goes test r
    → Step (tally test) k (tally r.1)
progress-Step test r p (inl e) = rw e (moves_on p)
progress-Step test r p (inr e) = rw e (gives_up p)

abbrev opened_test : Test → Test
opened_test test = record test {
  connects_left = decr test.connects_left;
  disconnects_left = incr test.disconnects_left;
}

module _ (v : Variant) (c : Config) (w : World) where
  addr_handler-Goes :
      (i : ℕ) (test : Test) (t : Trace) → After (λ r t'. Goes test r) (addr_handler c i test w t)
  unfolding addr_handler count_connect_error
  addr_handler-Goes i test t = After.intro _ λ r s e. ground arith

  route_handler-Goes :
      (i : ℕ) (test : Test) (t : Trace) → After (λ r t'. Goes test r) (route_handler v c i test w t)
  unfolding route_handler start_connection count_connect_error
  route_handler-Goes i test t = After.intro _ λ r s e. ground arith

  connect_handler-Goes :
      (id : Ptr) (test : Test) (t : Trace)
      → After (λ r t'. Goes test r) (connect_handler v c id test w t)
  unfolding connect_handler prepare_connection refuse_connection count_connect_error
  connect_handler-Goes id test t = After.intro _ λ r s e. ground arith

  -- the handlers take the step of their event
  dispatch-Step :
      (k : EventType) (e : Event) (test : Test) (t : Trace)
      → After (λ r t'. Step (tally test) k (tally r.1)) (dispatch v c k e test w t)
  unfolding dispatch count_connect_error establish
  dispatch-Step addr_resolved e test t =
      After.bind w (λ i. addr_handler c i test) (After.any (deref (test.context e.id) w t))
        λ i s any. After.mono (addr_handler-Goes i test s) λ r s p. progress-Step test r address p
  dispatch-Step route_resolved e test t =
      After.bind w (λ i. route_handler v c i test) (After.any (deref (test.context e.id) w t))
        λ i s any. After.mono (route_handler-Goes i test s) λ r s p. progress-Step test r path p
  dispatch-Step connect_request e test t =
      After.mono (connect_handler-Goes e.id test t) λ r s p. progress-Step test r request p
  dispatch-Step established e test t =
      After.bind w (λ i. establish v c i test) (After.any (deref (test.context e.id) w t))
        λ i s any.
          After.bind w
            (λ node. pure (pos 0, opened_test (set_node test i (record node { connected = true }))))
            (After.any (node_at test i w s)) λ node s any. After.returned opens
  dispatch-Step disconnected e test t = After.returned closes
  dispatch-Step device_removal e test t = After.returned (notices device)
  dispatch-Step other_event e test t = After.returned (notices other)
  dispatch-Step addr_error e test t = After.returned (fails addr)
  dispatch-Step route_error e test t = After.returned (fails route)
  dispatch-Step connect_error e test t = After.returned (fails connection)
  dispatch-Step unreachable e test t = After.returned (fails unreached)
  dispatch-Step rejected e test t = After.returned (fails refused)

-- The machine goes from the one state to the other by the events that are acknowledged in between.
pub record Implements (test : Test) (t : Trace) (test' : Test) (t' : Trace) : Type 0 where
  pub events : List EventType
  pub steps : Steps (tally test) events (tally test')
  pub acknowledged : acked_events t' ≡ events ++ acked_events t

Steps-append :
    {s u v : Tally} {ks ls : List EventType} → Steps s ks u → Steps u ls v → Steps s (ls ++ ks) v
Steps-append first here = first
Steps-append first (next rest step) = next (Steps-append first rest) step

Implements-trans :
    {a b d : Test} {t s r : Trace} → Implements a t b s → Implements b s d r → Implements a t d r
Implements-trans {t} first rest = record {
  events = rest.events ++ first.events;
  steps = Steps-append first.steps rest.steps;
  acknowledged =
      rw (rest.acknowledged, first.acknowledged)
        (sym (append_assoc rest.events first.events (acked_events t)));
}

module _ (v : Variant) (c : Config) (w : World) (quiet : QuietVariant w v) where
  next_event-Implements :
      (test : Test) (t : Trace) → After (λ r t'. Implements test t r.1 t') (next_event v c test w t)
  unfolding next_event cma_handler
  next_event-Implements test t =
      let got = get_cm_event test.channel ∷ t in
      let e = w.event got in
      let none : Implements test t test t = record {
        events = [];
        steps = here;
        acknowledged = refl;
      } in
      After.test w (is_zero (w.int got)) _ _ got
        (λ success.
          After.bind w (λ r. do call (ack_cm_event e); pure (r.0, r.1))
            (After.intro {Q = λ r s. (cma_handler v c e test w got ≡ ok r s)} _ λ r s eq. eq)
            λ r s eq. After.returned (record {
              events = e.event ∷ [];
              steps = next here (After.apply (dispatch-Step v c w e.event e test got) _ _ eq);
              acknowledged =
                  ap (λ es. e.event ∷ es)
                    (rw eq at
                      ((cma_handler-IsQuiet v quiet c e test (acked_events t)).keep got refl));
            }))
        λ failed. After.returned (record { events = []; steps = here; acknowledged = refl })

  pub event_loop-Implements :
      (left : Test → ℤ) (fuel : ℕ) (ret : ℤ) (test : Test) (t : Trace)
      → After (λ r t'. Implements test t r.1 t') (event_loop v c left fuel ret test w t)
  unfolding event_loop
  event_loop-Implements left zero ret test t = After.unfinished
  event_loop-Implements left (suc fuel) ret test t =
      After.test w (is_zero (left test) || not (is_zero ret)) _ _ t
        (λ stop. After.returned (record { events = []; steps = here; acknowledged = refl }))
        λ go.
          After.bind w (λ r. event_loop v c left fuel r.0 r.1) (next_event-Implements test t)
            λ r s first.
              After.mono (event_loop-Implements left fuel r.0 r.1 s)
                λ r' t' rest. Implements-trans first rest
