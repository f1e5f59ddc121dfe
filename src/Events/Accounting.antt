-- ===== src/Events/Accounting.antt =====
-- The counters of connect_events and disconnect_events against the events.
use rdma_pmem.Prelude.{List, [], ℕ, zero, suc, ◌+◌, ◌≡◌, refl, true, not, ◌||◌, ◌∷◌, arith}
use rdma_pmem.Prelude.Int.{ℤ, pos, pos_part, neg_part, is_zero, incr_parts, decr_parts, is_zero→eq}
use rdma_pmem.World.{
  Ptr, EventType, addr_resolved, route_resolved, connect_request, established, addr_error,
  route_error, connect_error, unreachable, rejected, disconnected, device_removal, other_event,
  Event, get_cm_event, ack_cm_event, Trace, World, ok, pure, call, ◌>>◌,
}
use rdma_pmem.World.After
use rdma_pmem.World.After.{After}
use rdma_pmem.Node.{Config}
use rdma_pmem.Setup.{deref}
use rdma_pmem.Events.{
  Test, Variant, addr_handler, start_connection, route_handler, prepare_connection, connect_handler,
  dispatch, cma_handler, next_event, event_loop, connect_events, disconnect_events,
}
use rdma_pmem.Events.Quiet.{acked_events, QuietVariant, cma_handler-IsQuiet}

-- the events that settle one connection of the program, by success or by failure
-- the weights of the acknowledged events, added up
abbrev weigh : (EventType → ℕ) → List EventType → ℕ
weigh g [] = 0
weigh g (k ∷ rest) = g k + weigh g rest

abbrev pub acked : (EventType → ℕ) → Trace → ℕ
acked g t = weigh g (acked_events t)

abbrev pub settles : EventType → ℕ
settles established = 1
settles addr_error = 1
settles route_error = 1
settles connect_error = 1
settles unreachable = 1
settles rejected = 1
settles _ = 0

abbrev pub opens : EventType → ℕ
opens established = 1
opens _ = 0

abbrev pub closes : EventType → ℕ
closes disconnected = 1
closes _ = 0

-- `b` is `a` and `gain`, less `loss`
abbrev pub Moved : ℤ → ℤ → (gain loss : ℕ) → Type 0
Moved a b gain loss = pos_part b + neg_part a + loss ≡ neg_part b + pos_part a + gain

-- what one event does to the counters
record Counted (test : Test) (e : EventType) (r : ℤ × Test) : Type 0 where
  connects : is_zero r.0 ≡ true → Moved test.connects_left r.1.connects_left 0 (settles e)
  disconnects :
      is_zero r.0 ≡ true → Moved test.disconnects_left r.1.disconnects_left (opens e) (closes e)

-- the counters stay, if the result is 0
abbrev Same : Test → ℤ × Test → Type 0
Same test r =
    is_zero r.0 ≡ true
    → (r.1.connects_left ≡ test.connects_left) × (r.1.disconnects_left ≡ test.disconnects_left)

module _ (v : Variant) (c : Config) (w : World) where
  route_handler-Same :
      (i : ℕ) (test : Test) (t : Trace) → After (λ r s. Same test r) (route_handler v c i test w t)
  unfolding route_handler start_connection
  route_handler-Same i test t = After.intro _ λ r s e z. ground arith

  connect_handler-Same :
      (id : Ptr) (test : Test) (t : Trace)
      → After (λ r s. Same test r) (connect_handler v c id test w t)
  unfolding connect_handler prepare_connection
  connect_handler-Same id test t = After.intro _ λ r s e z. ground arith

  Same-Counted :
      (test : Test) {r : ℤ × Test} (e : EventType)
      → settles e ≡ 0
      → opens e ≡ 0
      → closes e ≡ 0
      → Same test r
      → Counted test e r
  Same-Counted test {r} e a b d s = record {
    connects = λ z. let (p, q) = s z in rw p (omega (arith, a));
    disconnects = λ z. let (p, q) = s z in rw q (omega (arith, b, d));
  }

  dispatch-Counted :
      (k : EventType) (e : Event) (test : Test) (t : Trace)
      → After (λ r s. Counted test k r) (dispatch v c k e test w t)
  unfolding dispatch
  dispatch-Counted addr_resolved e test t =
      unfold addr_handler in After.intro _ λ r s eq. ground arith
  dispatch-Counted route_resolved e test t =
      After.bind w (λ i. route_handler v c i test) (After.any (deref (test.context e.id) w t))
        λ i s any.
          After.mono (route_handler-Same i test s)
            λ r s p. Same-Counted test route_resolved refl refl refl p
  dispatch-Counted connect_request e test t =
      After.mono (connect_handler-Same e.id test t)
        λ r s p. Same-Counted test connect_request refl refl refl p
  dispatch-Counted established e test t =
      After.intro _
        λ r s eq. ground (arith, incr_parts test.disconnects_left, decr_parts test.connects_left)
  dispatch-Counted disconnected e test t = After.returned (record {
    connects = λ z. omega arith;
    disconnects = λ z. omega (arith, decr_parts test.disconnects_left);
  })
  dispatch-Counted device_removal e test t =
      After.returned (record { connects = λ z. omega arith; disconnects = λ z. omega arith })
  dispatch-Counted other_event e test t =
      After.returned (record { connects = λ z. omega arith; disconnects = λ z. omega arith })
  dispatch-Counted addr_error e test t = After.returned (record {
    connects = λ z. omega (arith, decr_parts test.connects_left);
    disconnects = λ z. omega arith;
  })
  dispatch-Counted _ e test t = After.returned (record {
    connects = λ z. omega (arith, decr_parts test.connects_left);
    disconnects = λ z. omega arith;
  })

-- the counters over a stretch of the run, against the events acknowledged in it
pub record Accounts (test : Test) (t : Trace) (test' : Test) (t' : Trace) : Type 0 where
  pub connects :
      pos_part test'.connects_left + neg_part test.connects_left + acked settles t'
      ≡ neg_part test'.connects_left + pos_part test.connects_left + acked settles t
  pub disconnects :
      pos_part test'.disconnects_left
        + neg_part test.disconnects_left
        + (acked closes t' + acked opens t)
      ≡ neg_part test'.disconnects_left
        + pos_part test.disconnects_left
        + (acked opens t' + acked closes t)

module _ (v : Variant) (c : Config) (w : World) (quiet : QuietVariant w v) where
  cma_handler-Counted :
      (e : Event) (test : Test) (t : Trace) {r : ℤ × Test} {s : Trace}
      → cma_handler v c e test w t ≡ ok r s
      → Counted test e.event r
  unfolding cma_handler
  cma_handler-Counted e test t eq = After.apply (dispatch-Counted v c w e.event e test t) _ _ eq

  quiet_lem :
      (e : Event) (test : Test) (t : Trace) {r : ℤ × Test} {s : Trace}
      → cma_handler v c e test w t ≡ ok r s
      → acked_events s ≡ acked_events t
  quiet_lem e test t eq =
      rw eq at ((cma_handler-IsQuiet v quiet c e test (acked_events t)).keep t refl)

  next_event-Accounts :
      (test : Test) (t : Trace)
      → After (λ r t'. is_zero r.0 ≡ true → Accounts test t r.1 t') (next_event v c test w t)
  unfolding next_event
  next_event-Accounts test t =
      let got = get_cm_event test.channel ∷ t in
      let e = w.event got in
      After.test w (is_zero (w.int got)) _ _ got
        (λ success.
          After.bind w (λ r. do call (ack_cm_event e); pure (r.0, r.1))
            (After.intro {Q = λ r s. (cma_handler v c e test w got ≡ ok r s)} _ λ r s eq. eq)
            λ r s eq. After.returned λ z.
              let counted = cma_handler-Counted e test got eq in
              let same = quiet_lem e test got eq in
              record {
                connects = rw same (omega (arith, counted.connects z));
                disconnects = rw same (omega (arith, counted.disconnects z));
              })
        λ failed. After.returned λ z. omega arith

  -- the loop over the counter `left`: where it returns 0 that counter is 0
  event_loop-Accounts :
      (left : Test → ℤ) (fuel : ℕ) (ret : ℤ) (test : Test) (t : Trace)
      → After
          (λ r t'.
            is_zero r.0 ≡ true
            → (is_zero ret ≡ true) × (is_zero (left r.1) ≡ true) × Accounts test t r.1 t')
          (event_loop v c left fuel ret test w t)
  unfolding event_loop
  event_loop-Accounts left zero ret test t = After.unfinished
  event_loop-Accounts left (suc fuel) ret test t =
      After.test w (is_zero (left test) || not (is_zero ret)) _ _ t
        (λ stop. After.returned λ z. (z, ground arith, omega arith))
        λ go.
          After.bind w (λ r. event_loop v c left fuel r.0 r.1) (next_event-Accounts test t)
            λ r s p. After.mono (event_loop-Accounts left fuel r.0 r.1 s) λ r' t' q z.
              let (zero_ret, ended, rest) = q z in
              let first = p zero_ret in (ground arith, ended, omega (arith, first, rest))

  module _ (fuel : ℕ) (test : Test) (t : Trace) {r : ℤ × Test} {t' : Trace} where
    -- Where connect_events returns 0, no connection is left to settle; the counter of connections
    -- has gone down by the settling events (established, or failed) that it acknowledged, and the
    -- counter of disconnects has gone up by the established ones and down by the disconnects. It is
    -- assumed that the program's init_node and first receive acknowledge no event.
    pub connect_events-Accounts :
        connect_events v c fuel test w t ≡ ok r t'
        → is_zero r.0 ≡ true
        → (r.1.connects_left ≡ pos 0) × Accounts test t r.1 t'
    unfolding connect_events
    connect_events-Accounts e z =
        let (zero_ret, ended, all) =
          After.apply (event_loop-Accounts (λ s. s.connects_left) fuel (pos 0) test t) r t' e z in
        (is_zero→eq _ ended, all)

    -- Where disconnect_events returns 0, no disconnect is awaited, and the two counters have moved
    -- by the events that it acknowledged, as for connect_events.
    pub disconnect_events-Accounts :
        disconnect_events v c fuel test w t ≡ ok r t'
        → is_zero r.0 ≡ true
        → (r.1.disconnects_left ≡ pos 0) × Accounts test t r.1 t'
    unfolding disconnect_events
    disconnect_events-Accounts e z =
        let (zero_ret, ended, all) =
          After.apply (event_loop-Accounts (λ s. s.disconnects_left) fuel (pos 0) test t) r t' e
            z in
        (is_zero→eq _ ended, all)
