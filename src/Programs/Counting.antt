-- ===== src/Programs/Counting.antt =====
-- What becomes of `message_count`, which says whether rbenchmark.c does any work.
use rdma_pmem.Prelude.{
  ℕ, zero, suc, if◌then◌else◌, ◌+◌, ◌==◌, true, false, [], Option, none, some, ◌≡◌, ◌⊎◌, inl, refl,
  not, ◌||◌, ◌∷◌, arith,
}
use rdma_pmem.Prelude.Int.{ℤ, pos, is_zero}
use rdma_pmem.World.{
  alloc_pd, calloc, create_cq, create_qp, connect, accept, get_cm_event, ack_cm_event, call, pure,
  ◌>>◌, Ptr, Mapping, EventType, addr_resolved, route_resolved, connect_request, established,
  disconnected, Event, Trace, World, ok,
}
use rdma_pmem.World.After
use rdma_pmem.World.After.{After}
use rdma_pmem.Node.{Config, Node, plain_statistics_size, no_statistics}
use rdma_pmem.Setup
use rdma_pmem.Post.{post_recv_metadata}
use rdma_pmem.Setup.{deref, create_metadata, print_metadata}
use rdma_pmem.Events.{
  Test, count_connect_error, start_connection, prepare_connection, refuse_connection, dispatch,
  establish, next_event, cma_handler, addr_handler, route_handler, connect_handler, event_loop,
  connect_events,
}
use rdma_pmem.Rb
use rdma_pmem.Programs.{rb}

-- how many connections were asked for or accepted
abbrev pub asked : Trace → ℕ
asked [] = 0
asked (connect id ∷ t) = asked t + 1
asked (accept id ∷ t) = asked t + 1
asked (x ∷ t) = asked t

-- The count is what it was, and no connection was asked for or accepted or the messages are not
-- empty; or the messages are empty, and it is 0.
abbrev pub Counts : Config → ℤ → Trace → ℤ → Trace → Type 0
Counts c before t after t' =
    ((after ≡ before) × (asked t' ≡ asked t))
    ⊎ (((c.message_size == 0) ≡ false) × (after ≡ before))
    ⊎ (((c.message_size == 0) ≡ true) × (after ≡ pos 0))

Counts-trans :
    (c : Config) (a b d : ℤ) (t u v : Trace)
    → Counts c a t b u
    → Counts c b u d v
    → Counts c a t d v
Counts-trans c a b d t u v h g = ground (arith, h, g)

deref-same :
    {A : Type 0} (o : Option A) (w : World) (t : Trace) → After (λ a s. s ≡ t) (deref o w t)
deref-same none w t = After.faulted
deref-same (some a) w t = After.returned refl

module _ (c : Config) (w : World) where
  metadata_asked :
      (node : Node) (t : Trace) → After (λ r t'. asked t' ≡ asked t) (create_metadata node w t)
  unfolding create_metadata
  metadata_asked node t = After.intro _ λ r t' e. ground arith

  print_asked :
      (node : Node) (t : Trace) → After (λ r t'. asked t' ≡ asked t) (print_metadata c node w t)
  unfolding print_metadata
  print_asked node t = After.intro _ λ r t' e. ground arith

  message_asked :
      (pmem : Mapping) (node : Node) (t : Trace)
      → After (λ r t'. asked t' ≡ asked t) (Setup.create_message c pmem node w t)
  unfolding Setup.create_message
  message_asked pmem node t = After.intro _ λ r t' e. ground arith

  recv_asked :
      (node : Node) (t : Trace) → After (λ r t'. asked t' ≡ asked t) (post_recv_metadata node w t)
  unfolding post_recv_metadata
  recv_asked node t = After.intro _ λ r t' e. ground arith

  -- a result of 0 comes with a count that is 0 where the messages are empty
  abbrev pub Resets : ℤ → Trace → ℤ × Node × ℤ → Trace → Type 0
  Resets count t r t' =
      (asked t' ≡ asked t)
      × ((is_zero r.0 ≡ false) × (r.2 ≡ count)
          ⊎ ((c.message_size == 0) ≡ false) × (r.2 ≡ count)
          ⊎ ((c.message_size == 0) ≡ true) × (r.2 ≡ pos 0))

  create_message-Resets :
      (pmem : Mapping) (count : ℤ) (node : Node) (t : Trace)
      → After (Resets count t) (Rb.create_message c pmem count node w t)
  unfolding Rb.create_message
  create_message-Resets pmem count node t =
      let now = if c.message_size == 0 then pos 0 else count in
      After.test w (is_zero now) _ _ t (λ z. After.returned (ground arith))
        λ n.
          After.bind w (λ r. pure (r.0, r.1, now)) (message_asked pmem node t)
            λ r s same. After.returned (ground (arith, same))

  init_buffers-Resets :
      (pmem : Mapping) (count : ℤ) (node : Node) (t : Trace)
      → After (Resets count t) (Rb.init_buffers c pmem count node w t)
  unfolding Rb.init_buffers
  init_buffers-Resets pmem count node t =
      After.bind w
        (λ r.
          if not (is_zero r.0)
          then pure (r.0, r.1, count)
          else do print_metadata c r.1; Rb.create_message c pmem count r.1)
        (metadata_asked node t)
        λ r s same.
          After.test w (not (is_zero r.0)) _ _ s (λ z. After.returned (ground (arith, same, z)))
            λ n.
              After.bind w (λ _. Rb.create_message c pmem count r.1) (print_asked r.1 s)
                λ _ s' same'.
                  After.mono (create_message-Resets pmem count r.1 s')
                    λ r' t' done. ground (arith, done, same, same')

  buffers-Counts :
      (pmem : Mapping) (count : ℤ) (node : Node) (t : Trace) {r : ℤ × Node × ℤ} {t' : Trace}
      → Rb.init_buffers c pmem count node w t ≡ ok r t'
      → Resets count t r t'
  buffers-Counts pmem count node t = After.apply (init_buffers-Resets pmem count node t) _ _

  init_node-Resets :
      (pmem : Mapping) (count : ℤ) (node : Node) (t : Trace)
      → After (Resets count t) (Rb.init_node c pmem count node w t)
  unfolding Rb.init_node
  init_node-Resets pmem count node t =
      let pd_at = alloc_pd node.cma_id ∷ calloc plain_statistics_size ∷ t in
      let send_at = create_cq node.cma_id (Rb.queue_size count) 0 ∷ pd_at in
      let recv_at = create_cq node.cma_id (Rb.queue_size count) 0 ∷ send_at in
      let made = record node {
        stats = w.ptr (calloc plain_statistics_size ∷ t);
        statistics = no_statistics;
        pd = w.ptr pd_at;
        send_cq = w.ptr send_at;
        recv_cq = w.ptr recv_at;
      } in
      let qp_at = create_qp node.cma_id made.pd (Rb.qp_attr count made) ∷ recv_at in
      After.intro _ λ r t' e. ground (arith, buffers-Counts pmem count made qp_at {r = r} {t' = t'})

  init_node-Counts :
      (pmem : Mapping) (count : ℤ) (node : Node) (t : Trace) {r : ℤ × Node × ℤ} {t' : Trace}
      → Rb.init_node c pmem count node w t ≡ ok r t'
      → Resets count t r t'
  init_node-Counts pmem count node t = After.apply (init_node-Resets pmem count node t) _ _

  recv-Counts :
      (node : Node) (t : Trace) {r : ℤ} {t' : Trace}
      → post_recv_metadata node w t ≡ ok r t'
      → asked t' ≡ asked t
  recv-Counts node t = After.apply (recv_asked node t) _ _

  abbrev Keeps : Test → Trace → ℤ × Test → Trace → Type 0
  Keeps test t r t' = Counts c test.message_count t r.1.message_count t'

  addr_handler-Counts :
      (i : ℕ) (test : Test) (t : Trace) → After (Keeps test t) (addr_handler c i test w t)
  unfolding addr_handler count_connect_error
  addr_handler-Counts i test t = After.intro _ λ r s e. ground arith

  start_connection-Counts :
      (i : ℕ) (node : Node) (test : Test) (t : Trace)
      → After (Keeps test t) (start_connection rb c i node test w t)
  unfolding start_connection count_connect_error
  start_connection-Counts i node test t =
      After.intro _ λ r s e. grind (arith, init_node-Counts, recv-Counts)

  connect_handler-Counts :
      (id : Ptr) (test : Test) (t : Trace) → After (Keeps test t) (connect_handler rb c id test w t)
  unfolding connect_handler prepare_connection refuse_connection count_connect_error
  connect_handler-Counts id test t =
      After.intro _ λ r s e. grind (arith, init_node-Counts, recv-Counts)

  dispatch-Counts :
      (k : EventType) (e : Event) (test : Test) (t : Trace)
      → After (Keeps test t) (dispatch rb c k e test w t)
  unfolding dispatch route_handler
  dispatch-Counts addr_resolved e test t =
      After.bind w (λ i. addr_handler c i test) (deref-same (test.context e.id) w t)
        λ i s same. rw same (addr_handler-Counts i test t)
  dispatch-Counts route_resolved e test t =
      After.bind w (λ i. route_handler rb c i test) (deref-same (test.context e.id) w t)
        λ i s same.
          After.bind w (λ node. start_connection rb c i node test) (deref-same _ w s)
            λ node s' same'. rw same' (rw same (start_connection-Counts i node test t))
  dispatch-Counts connect_request e test t = connect_handler-Counts e.id test t
  dispatch-Counts established e test t = unfold establish in After.intro _ λ r s e. ground arith
  dispatch-Counts disconnected e test t = After.returned (inl (refl, refl))
  dispatch-Counts _ e test t = unfold count_connect_error in After.returned (inl (refl, refl))

  next_event-Counts : (test : Test) (t : Trace) → After (Keeps test t) (next_event rb c test w t)
  unfolding next_event cma_handler
  next_event-Counts test t =
      let got = get_cm_event test.channel ∷ t in
      let e = w.event got in
      After.test w (is_zero (w.int got)) _ _ got
        (λ success.
          After.bind w (λ r. do call (ack_cm_event e); pure (r.0, r.1))
            (dispatch-Counts e.event e test got) λ r s p. After.returned p)
        λ failed. After.returned (inl (refl, refl))

  event_loop-Counts :
      (left : Test → ℤ) (fuel : ℕ) (ret : ℤ) (test : Test) (t : Trace)
      → After (Keeps test t) (event_loop rb c left fuel ret test w t)
  unfolding event_loop
  event_loop-Counts left zero ret test t = After.unfinished
  event_loop-Counts left (suc fuel) ret test t =
      After.test w (is_zero (left test) || not (is_zero ret)) _ _ t
        (λ stop. After.returned (inl (refl, refl)))
        λ go.
          After.bind w (λ r. event_loop rb c left fuel r.0 r.1) (next_event-Counts test t)
            λ r s first.
              After.mono (event_loop-Counts left fuel r.0 r.1 s)
                λ r' t' rest. Counts-trans c _ r.1.message_count _ t s t' first rest

-- Where connect_events of rbenchmark.c returns with messages that are not empty, `message_count` is
-- what it was. With empty messages it is 0, or it is what it was and no connection was asked for or
-- accepted.
pub connect_events-Counts :
    (c : Config) (fuel : ℕ) (test : Test) (w : World) (t : Trace) {r : ℤ × Test} {t' : Trace}
    → connect_events rb c fuel test w t ≡ ok r t'
    → Counts c test.message_count t r.1.message_count t'
unfolding connect_events
connect_events-Counts c fuel test w t {r} {t'} =
    After.apply (event_loop-Counts c w (λ s. s.connects_left) fuel (pos 0) test t) r t'
