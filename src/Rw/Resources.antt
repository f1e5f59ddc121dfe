-- ===== src/Rw/Resources.antt =====
-- What Client::init of rwbenchmark has acquired where it returns 0.
use rdma_pmem.Prelude.{◌≡◌, refl, true, false, not, Option, none, some, is_some, ◌∷◌, if◌then◌else◌}
use rdma_pmem.Prelude.Int.{ℤ, pos, is_zero}
use rdma_pmem.World.{
  Mr, EventType, Event, addr_resolved, route_resolved, established, local_write, connect,
  post_recv_sge, req_notify_cq, create_qp, load_qp, create_cq, create_comp_channel, alloc_pd,
  resolve_addr, resolve_route, create_event_channel, create_id, Trace, World, Cmd, ok, pure, ◌>>=◌,
  crash, call_int, call_ptr,
}
use rdma_pmem.World.After
use rdma_pmem.World.After.{After}
use rdma_pmem.Node.{is_null, metadata_size}
use rdma_pmem.Ws.Resources.{ErrnoIsSet}
use rdma_pmem.Rw.{
  Client, sge_of, rdma_buffer_register, process_rdma_cm_event, acknowledge, get_addr,
}
use rdma_pmem.Rw.Init.{
  qp_attr, then_client, checked, allocated, connect_client, post_metadata, pre_post, create_pair,
  create_queue, create_channel, create_resources, find_route, create_client_id, open_channel,
  await_event, resolve_server,
}
use rdma_pmem.Rw.Init
use rdma_pmem.Rw.Steps.{
  Succeeds, then_client-Succeeds, made-Succeeds, checked-Succeeds, allocated-Succeeds,
}

-- what is made before the queues
record HasBase (client : Client) : Type 0 where
  cm_event_channel : is_null client.cm_event_channel ≡ false
  cm_client_id : is_null client.cm_client_id ≡ false
  pd : is_null client.pd ≡ false
  io_completion_channel : is_null client.io_completion_channel ≡ false

-- The queue pair of the client's id is what it holds directly behind a call of rdma_create_qp that
-- returns 0, for the id, the domain and the queue that the client has.
abbrev pub HasPair : World → Client → Type 0
HasPair w client =
    (s : Trace) × (let made = create_qp client.cm_client_id client.pd (qp_attr client) ∷ s in
      (is_zero (w.int made) ≡ true)
      × (client.client_qp ≡ w.ptr (load_qp client.cm_client_id ∷ made)))

pub record HasAll (w : World) (client : Client) : Type 0 where
  pub cm_event_channel : is_null client.cm_event_channel ≡ false
  pub cm_client_id : is_null client.cm_client_id ≡ false
  pub pd : is_null client.pd ≡ false
  pub io_completion_channel : is_null client.io_completion_channel ≡ false
  pub client_cq : is_null client.client_cq ≡ false
  pub client_qp : HasPair w client
  pub server_metadata_mr : is_some client.server_metadata_mr ≡ true

module _ (w : World) (errno_set : ErrnoIsSet w) where
  await_event-Succeeds :
      (client : Client) (expected : EventType) (cm_event : Option Event)
      (rest : Option Event → Cmd (ℤ × Client)) (t : Trace)
      → ((cm_event : Option Event) (s : Trace) → After (Succeeds (HasAll w)) (rest cm_event w s))
      → After (Succeeds (HasAll w)) (await_event client expected cm_event rest w t)
  unfolding await_event
  await_event-Succeeds client expected cm_event rest t h =
      After.bind w
        (λ r. then_client r.0 client (do ret ← acknowledge r.1; checked ret client (rest r.1)))
        (After.any (process_rdma_cm_event client.cm_event_channel expected cm_event w t))
        λ r s any. then_client-Succeeds w errno_set (HasAll w) r.0 client _ s (
          After.bind w (λ ret. checked ret client (rest r.1)) (After.any (acknowledge r.1 w s))
            λ ret s any. checked-Succeeds w errno_set (HasAll w) ret client (rest r.1) s (h r.1 s))

  connect_client-Succeeds :
      (cm_event : Option Event) (client : Client) (t : Trace)
      → HasAll w client
      → After (Succeeds (HasAll w)) (connect_client cm_event client w t)
  unfolding connect_client
  connect_client-Succeeds cm_event client t has =
      let at = connect client.cm_client_id ∷ t in
      checked-Succeeds w errno_set (HasAll w) (w.int at) client
        (await_event client established cm_event λ e. pure (pos 0, client)) at
        (await_event-Succeeds client established cm_event (λ e. pure (pos 0, client)) at
          λ e s. After.returned λ z. has)

  post_metadata-Succeeds :
      (mr : Option Mr) (cm_event : Option Event) (client : Client) (t : Trace)
      → (is_some mr ≡ true → HasAll w client)
      → After (Succeeds (HasAll w)) (post_metadata mr cm_event client w t)
  unfolding post_metadata
  post_metadata-Succeeds none cm_event client t has = After.returned λ z. cc
  post_metadata-Succeeds (some mr) cm_event client t has =
      let at = post_recv_sge client.client_qp (sge_of mr) ∷ t in
      then_client-Succeeds w errno_set (HasAll w) (w.int at) client (connect_client cm_event client)
        at (connect_client-Succeeds cm_event client at (has refl))

  pre_post-Succeeds :
      (cm_event : Option Event) (client : Client) (t : Trace)
      → HasBase client
      → is_null client.client_cq ≡ false
      → HasPair w client
      → After (Succeeds (HasAll w)) (pre_post cm_event client w t)
  unfolding pre_post
  pre_post-Succeeds cm_event client t base cq pair =
      After.bind w (λ mr. post_metadata mr cm_event (record client { server_metadata_mr = mr }))
        (After.any
          (rdma_buffer_register client.pd client.server_metadata metadata_size local_write w t))
        λ mr s any.
          post_metadata-Succeeds mr cm_event (record client { server_metadata_mr = mr }) s
            λ registered. record {
              cm_event_channel = base.cm_event_channel;
              cm_client_id = base.cm_client_id;
              pd = base.pd;
              io_completion_channel = base.io_completion_channel;
              client_cq = cq;
              client_qp = pair;
              server_metadata_mr = registered;
            }

  create_pair-Succeeds :
      (cm_event : Option Event) (client : Client) (t : Trace)
      → HasBase client
      → is_null client.client_cq ≡ false
      → After (Succeeds (HasAll w)) (create_pair cm_event client w t)
  unfolding create_pair
  create_pair-Succeeds cm_event client t base cq =
      let asked = req_notify_cq client.client_cq ∷ t in
      let create = create_qp client.cm_client_id client.pd (qp_attr client) in
      let made = create ∷ asked in
      let post : Cmd (ℤ × Client) = do
        qp ← call_ptr (load_qp client.cm_client_id)
        pre_post cm_event (record client { client_qp = qp })
      in let qp_at = load_qp client.cm_client_id ∷ made in
        checked-Succeeds w errno_set (HasAll w) (w.int asked) client
          (do ret ← call_int create; checked ret client post) asked
          (made-Succeeds w errno_set (HasAll w) (w.int made) client post made λ z.
            (pre_post-Succeeds cm_event (record client { client_qp = w.ptr qp_at }) qp_at
              (record {
                cm_event_channel = base.cm_event_channel;
                cm_client_id = base.cm_client_id;
                pd = base.pd;
                io_completion_channel = base.io_completion_channel;
              })
              cq (asked, (z, refl))))

  create_queue-Succeeds :
      (cm_event : Option Event) (client : Client) (t : Trace)
      → HasBase client
      → After (Succeeds (HasAll w)) (create_queue cm_event client w t)
  unfolding create_queue
  create_queue-Succeeds cm_event client t base =
      let at = create_cq client.cm_client_id 16 client.io_completion_channel ∷ t in
      let made = record client { client_cq = w.ptr at } in
      allocated-Succeeds w errno_set (HasAll w) (w.ptr at) made (create_pair cm_event made) at λ cq.
        create_pair-Succeeds cm_event made at
          (record {
            cm_event_channel = base.cm_event_channel;
            cm_client_id = base.cm_client_id;
            pd = base.pd;
            io_completion_channel = base.io_completion_channel;
          })
          cq

  with_pd-Succeeds :
      (cm_event : Option Event) (client : Client) (t : Trace)
      → is_null client.cm_event_channel ≡ false
      → is_null client.cm_client_id ≡ false
      → is_null client.pd ≡ false
      → After (Succeeds (HasAll w)) (create_channel cm_event client w t)
  unfolding create_channel
  with_pd-Succeeds cm_event client t channel_made id_made pd_made =
      let at = create_comp_channel client.cm_client_id ∷ t in
      let made = record client { io_completion_channel = w.ptr at } in
      allocated-Succeeds w errno_set (HasAll w) (w.ptr at) made (create_queue cm_event made) at
        λ io_made. create_queue-Succeeds cm_event made at (record {
          cm_event_channel = channel_made;
          cm_client_id = id_made;
          pd = pd_made;
          io_completion_channel = io_made;
        })

  create_resources-Succeeds :
      (cm_event : Option Event) (client : Client) (t : Trace)
      → is_null client.cm_event_channel ≡ false
      → After (Succeeds (HasAll w)) (create_resources cm_event client w t)
  unfolding create_resources
  create_resources-Succeeds cm_event client t channel_made =
      let at = alloc_pd client.cm_client_id ∷ t in
      let made = record client { pd = w.ptr at } in
      After.test w (is_null client.cm_client_id) crash
        (do
          pd ← call_ptr (alloc_pd client.cm_client_id)
          let client = record client { pd = pd }
          allocated pd client (create_channel cm_event client))
        t (λ null. After.faulted)
        λ id_made.
          allocated-Succeeds w errno_set (HasAll w) (w.ptr at) made (create_channel cm_event made)
            at λ pd_made. with_pd-Succeeds cm_event made at channel_made id_made pd_made

  resolve_route-Succeeds :
      (cm_event : Option Event) (client : Client) (t : Trace)
      → is_null client.cm_event_channel ≡ false
      → After (Succeeds (HasAll w)) (find_route cm_event client w t)
  unfolding find_route
  resolve_route-Succeeds cm_event client t channel_made =
      let at = resolve_route client.cm_client_id ∷ t in
      let rest : Option Event → Cmd (ℤ × Client) = λ e. create_resources e client in
      checked-Succeeds w errno_set (HasAll w) (w.int at) client
        (await_event client route_resolved cm_event rest) at
        (await_event-Succeeds client route_resolved cm_event rest at
          λ e s. create_resources-Succeeds e client s channel_made)

  resolve_server-Succeeds :
      (client : Client) (t : Trace)
      → is_null client.cm_event_channel ≡ false
      → After (Succeeds (HasAll w)) (resolve_server client w t)
  unfolding resolve_server
  resolve_server-Succeeds client t channel_made =
      let at = resolve_addr client.cm_client_id ∷ t in
      let rest : Option Event → Cmd (ℤ × Client) = λ e. find_route e client in
      checked-Succeeds w errno_set (HasAll w) (w.int at) client
        (await_event client addr_resolved none rest) at
        (await_event-Succeeds client addr_resolved none rest at
          λ e s. resolve_route-Succeeds e client s channel_made)

  create_id-Succeeds :
      (client : Client) (t : Trace)
      → is_null client.cm_event_channel ≡ false
      → After (Succeeds (HasAll w)) (create_client_id client w t)
  unfolding create_client_id
  create_id-Succeeds client t channel_made =
      let at = create_id client.cm_event_channel ∷ t in
      let made = record client {
        cm_client_id = if is_zero (w.int at) then w.ptr at else client.cm_client_id;
      } in
      checked-Succeeds w errno_set (HasAll w) (w.int at) made (resolve_server made) at
        (resolve_server-Succeeds made at channel_made)

  open_channel-Succeeds :
      (client : Client) (t : Trace) → After (Succeeds (HasAll w)) (open_channel client w t)
  unfolding open_channel
  open_channel-Succeeds client t =
      let at = create_event_channel ∷ t in
      let opened = record client { cm_event_channel = w.ptr at } in
      allocated-Succeeds w errno_set (HasAll w) (w.ptr at) opened (create_client_id opened) at
        λ made. create_id-Succeeds opened at made

  init-Succeeds : (client : Client) (t : Trace) → After (Succeeds (HasAll w)) (Init.init client w t)
  unfolding Init.init
  init-Succeeds client t =
      let start : Cmd (ℤ × Client) =
        if not (is_some client.server_port) then crash else open_channel client in
      After.bind w (λ ret. then_client ret client start)
        (After.any (get_addr client.server_addr w t))
        λ ret s any. then_client-Succeeds w errno_set (HasAll w) ret client start s (
          After.test w (not (is_some client.server_port)) crash (open_channel client) s
            (λ throws. After.faulted) λ parsed. open_channel-Succeeds client s)

-- If errno is set by a call that fails, Client::init of rwbenchmark returns 0 only with the
-- channels, the id, the protection domain, the completion queue and the region for the server's
-- metadata acquired, and with a queue pair that rdma_create_qp has made.
pub rw_init-HasAll :
    (w : World) (client : Client) (t : Trace) {r : ℤ × Client} {t' : Trace}
    → ErrnoIsSet w
    → Init.init client w t ≡ ok r t'
    → is_zero r.0 ≡ true
    → HasAll w r.1
rw_init-HasAll w client t {r} {t'} errno_set e =
    After.apply (init-Succeeds w errno_set client t) r t' e
