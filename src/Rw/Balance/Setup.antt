-- ===== src/Rw/Balance/Setup.antt =====
-- The events that the client of rwbenchmark takes while it sets a connection up.
use rdma_pmem.Prelude.{
  ℕ, ◌+◌, ◌≡◌, ◌⊎◌, inl, inr, refl, if◌then◌else◌, not, false, Bool-cases, Option, none, some,
  is_some, ◌∷◌, arith,
}
use rdma_pmem.Prelude.Int.{ℤ, pos, is_zero, negate}
use rdma_pmem.World.{
  Ptr, Mr, local_write, EventType, Event, addr_resolved, route_resolved, established, Trace, World,
  Cmd, ok, crash, call_int, call_ptr, trace_of, get_cm_event, ack_cm_event, errno, ◌>>=◌, connect,
  resolve_addr, resolve_route, post_recv_sge, load_qp, create_qp, req_notify_cq, create_cq,
  create_comp_channel, alloc_pd, create_id, create_event_channel,
}
use rdma_pmem.World.Keeps
use rdma_pmem.World.Keeps.{Keeps}
use rdma_pmem.Node.{is_null, failure, enomem, metadata_size}
use rdma_pmem.Ws.Resources.{ErrnoIsSet}
use rdma_pmem.Rw.{Text, Client, sge_of, is_event, process_rdma_cm_event, acknowledge}
use rdma_pmem.Rw.Init.{
  qp_attr, then_client, checked, allocated, await_event, connect_client, post_metadata, pre_post,
  create_pair, create_queue, create_channel, create_resources, find_route, create_client_id,
  open_channel, resolve_server,
}
use rdma_pmem.Rw.Init
use rdma_pmem.Rw.Worker
use rdma_pmem.Rw.Balance.{
  came, acks, Balanced, alloc_dst-Balanced, allocated-Balanced, checked-Balanced, exchange-Balanced,
  get_addr-Balanced, register-Balanced, set_src-Balanced, then_client-Balanced,
}

module _ (w : World) (errno_set : ErrnoIsSet w) where
  -- no event is left to acknowledge, or the one that was expected is
  process_cases :
      (channel : Ptr) (expected : EventType) (cm_event : Option Event) (t : Trace)
      → Balanced w t
      → ((r : ℤ × Option Event) × (t' : Trace) × (process_rdma_cm_event channel expected cm_event w
              t
            ≡ ok r t')
          × (is_zero r.0 ≡ false)
          × Balanced w t')
        ⊎ ((e : Event) × (t' : Trace) × (process_rdma_cm_event channel expected cm_event w t
              ≡ ok (pos 0, some e) t')
            × (came w t' ≡ acks t' + 1))
  unfolding process_rdma_cm_event
  process_cases channel expected cm_event t p =
      let got = get_cm_event channel ∷ t in
      let e = w.event got in
      elim (Bool-cases (is_zero (w.int got))) [
        | inr bad ↦ inl (
          (negate (w.int (errno ∷ got)), cm_event),
          errno ∷ got,
          ground (arith, bad),
          ground (arith, errno_set got),
          ground (arith, bad, p),
        )
        | inl good ↦ elim (Bool-cases (is_zero e.status)) [
          | inr bad ↦ inl (
            (negate e.status, some e),
            ack_cm_event e ∷ got,
            ground (arith, good, bad),
            ground (arith, bad),
            ground (arith, good, p),
          )
          | inl fine ↦ elim (Bool-cases (is_event e.event expected)) [
            | inr other ↦ inl (
              (failure, some e),
              ack_cm_event e ∷ got,
              ground (arith, good, fine, other),
              refl,
              ground (arith, good, p),
            )
            | inl same ↦ inr (e, got, ground (arith, good, fine, same), ground (arith, good, p))
          ]
        ]
      ]

  await_event-Balanced :
      (client : Client) (expected : EventType) (cm_event : Option Event)
      {rest : Option Event → Cmd (ℤ × Client)}
      → ((cm_event : Option Event) → Keeps w (Balanced w) (rest cm_event))
      → Keeps w (Balanced w) (await_event client expected cm_event rest)
  unfolding await_event acknowledge
  await_event-Balanced client expected cm_event {rest} h = Keeps.step _ λ t p.
      let run = process_rdma_cm_event client.cm_event_channel expected cm_event w t in
      let after : ℤ × Option Event → Cmd (ℤ × Client) =
        λ r. then_client r.0 client (do ret ← acknowledge r.1; checked ret client (rest r.1)) in
      elim (process_cases client.cm_event_channel expected cm_event t p) [
        | inl (r, t', e, bad, q) ↦ Keeps.after_ok w (Balanced w) run after e (rw bad q)
        | inr (x, t', e, q) ↦ Keeps.after_ok w (Balanced w) run after e (
            (checked-Balanced (w.int (ack_cm_event x ∷ t')) client (h (some x))).keep
              (ack_cm_event x ∷ t') q)
      ]

  connect_client-Balanced :
      (cm_event : Option Event) (client : Client)
      → Keeps w (Balanced w) (connect_client cm_event client)
  unfolding connect_client
  connect_client-Balanced cm_event client =
      Keeps.bind (Keeps.step (call_int (connect client.cm_client_id)) λ t p. p) λ ret.
        checked-Balanced ret client
          (await_event-Balanced client established cm_event λ e. Keeps.pure-Keeps (pos 0, client))

  post_metadata-Balanced :
      (mr : Option Mr) (cm_event : Option Event) (client : Client)
      → Keeps w (Balanced w) (post_metadata mr cm_event client)
  unfolding post_metadata
  post_metadata-Balanced none cm_event client = Keeps.pure-Keeps (enomem, client)
  post_metadata-Balanced (some mr) cm_event client =
      Keeps.bind (Keeps.step (call_int (post_recv_sge client.client_qp (sge_of mr))) λ t p. p)
        λ ret. then_client-Balanced ret client (connect_client-Balanced cm_event client)

  pre_post-Balanced :
      (cm_event : Option Event) (client : Client) → Keeps w (Balanced w) (pre_post cm_event client)
  unfolding pre_post
  pre_post-Balanced cm_event client =
      Keeps.bind (register-Balanced client.pd client.server_metadata metadata_size local_write)
        λ mr. post_metadata-Balanced mr cm_event (record client { server_metadata_mr = mr })

  create_pair-Balanced :
      (cm_event : Option Event) (client : Client)
      → Keeps w (Balanced w) (create_pair cm_event client)
  unfolding create_pair
  create_pair-Balanced cm_event client =
      Keeps.bind (Keeps.step (call_int (req_notify_cq client.client_cq)) λ t p. p) λ ret.
        checked-Balanced ret client (
          Keeps.bind
            (Keeps.step (call_int (create_qp client.cm_client_id client.pd (qp_attr client)))
              λ t p. p)
            λ ret. checked-Balanced ret client (
              Keeps.bind (Keeps.step (call_ptr (load_qp client.cm_client_id)) λ t p. p)
                λ qp. pre_post-Balanced cm_event (record client { client_qp = qp })))

  create_queue-Balanced :
      (cm_event : Option Event) (client : Client)
      → Keeps w (Balanced w) (create_queue cm_event client)
  unfolding create_queue
  create_queue-Balanced cm_event client =
      Keeps.bind
        (Keeps.step (call_ptr (create_cq client.cm_client_id 16 client.io_completion_channel))
          λ t p. p)
        λ cq.
          let made = record client { client_cq = cq } in
          allocated-Balanced cq made (create_pair-Balanced cm_event made)

  create_resources-Balanced :
      (cm_event : Option Event) (client : Client)
      → Keeps w (Balanced w) (create_resources cm_event client)
  unfolding create_resources create_channel
  create_resources-Balanced cm_event client =
      Keeps.branch (is_null client.cm_client_id) (Keeps.step crash λ t p. p) (
        Keeps.bind (Keeps.step (call_ptr (alloc_pd client.cm_client_id)) λ t p. p) λ pd.
          let made = record client { pd = pd } in
          allocated-Balanced pd made (
            Keeps.bind (Keeps.step (call_ptr (create_comp_channel client.cm_client_id)) λ t p. p)
              λ channel.
                let made = record made { io_completion_channel = channel } in
                allocated-Balanced channel made (create_queue-Balanced cm_event made)))

  resolve_server-Balanced : (client : Client) → Keeps w (Balanced w) (resolve_server client)
  unfolding resolve_server find_route
  resolve_server-Balanced client =
      Keeps.bind (Keeps.step (call_int (resolve_addr client.cm_client_id)) λ t p. p) λ ret.
        checked-Balanced ret client (
          await_event-Balanced client addr_resolved none λ cm_event.
            Keeps.bind (Keeps.step (call_int (resolve_route client.cm_client_id)) λ t p. p) λ ret.
              checked-Balanced ret client (
                await_event-Balanced client route_resolved cm_event
                  λ cm_event. create_resources-Balanced cm_event client))

  connection-Balanced : (client : Client) → Keeps w (Balanced w) (Init.init client)
  unfolding Init.init open_channel create_client_id
  connection-Balanced client = Keeps.bind (get_addr-Balanced client.server_addr) λ ret.
      then_client-Balanced ret client (
        Keeps.branch (not (is_some client.server_port)) (Keeps.step crash λ t p. p) (
          Keeps.bind (Keeps.step (call_ptr create_event_channel) λ t p. p) λ channel.
            let opened = record client { cm_event_channel = channel } in
            allocated-Balanced channel opened (
              Keeps.bind
                (Keeps.step {A = ℤ × Ptr}
                  (λ w t. let t' = create_id channel ∷ t in ok (w.int t', w.ptr t') t') λ t p. p)
                λ r.
                  let made = record opened {
                    cm_client_id = if is_zero r.0 then r.1 else client.cm_client_id;
                  } in
                  checked-Balanced r.0 made (resolve_server-Balanced made))))

  setup-Balanced :
      (fuel : ℕ) (str : Text) (client : Client) → Keeps w (Balanced w) (Worker.init fuel str client)
  unfolding Worker.init
  setup-Balanced fuel str client = Keeps.bind (set_src-Balanced str client) λ r.
      then_client-Balanced r.0 r.1 (
        Keeps.bind (alloc_dst-Balanced str r.1) λ r. then_client-Balanced r.0 r.1 (
          Keeps.bind (connection-Balanced r.1)
            λ r. then_client-Balanced r.0 r.1 (exchange-Balanced fuel r.1)))

-- If errno is set by a call that fails, then whatever the server and the libraries do, and whatever
-- its outcome, a worker of rwbenchmark that sets its client up acknowledges as many events as come,
-- if that is so of the trace before.
pub init-Balanced :
    (w : World) (fuel : ℕ) (str : Text) (client : Client) (t : Trace)
    → ErrnoIsSet w
    → Balanced w t
    → Balanced w (trace_of (Worker.init fuel str client w t))
init-Balanced w fuel str client t errno_set p =
    (setup-Balanced w errno_set fuel str client).keep t p
