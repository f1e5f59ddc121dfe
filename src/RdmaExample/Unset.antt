-- ===== src/RdmaExample/Unset.antt =====
-- What main of rdma-example/src/client.cpp makes of a set_src that fails.
use rdma_pmem.Prelude.{
  ℕ, ◌+◌, ◌≡◌, refl, if◌then◌else◌, not, true, false, Option, none, some, is_some, List, ◌∷◌, arith,
}
use rdma_pmem.Prelude.Int.{ℤ, pos, is_zero}
use rdma_pmem.World.{
  Ptr, Mr, connect as rdma_connect, post_recv_sge, req_notify_cq, create_qp, load_qp, alloc_pd,
  create_comp_channel, create_cq, resolve_addr, resolve_route, create_event_channel, EventType,
  Event, addr_resolved, route_resolved, established, local_write, calloc, free, operator_new,
  create_id, Trace, World, Cmd, ok, fault, call_int, call_ptr, pure, ◌>>=◌,
}
use rdma_pmem.World.Ensures
use rdma_pmem.World.Ensures.{Ensures, Ends}
use rdma_pmem.Node.{is_null, enomem, metadata_size}
use rdma_pmem.Rw.{
  Text, Client, new_client, minus_errno, process_rdma_cm_event, acknowledge, sge_of,
  rdma_buffer_register, get_addr,
}
use rdma_pmem.Rw.Init.{
  qp_attr, then_client, checked, allocated, await_event, connect_client, post_metadata, pre_post,
  create_pair, create_queue, create_channel, create_resources, find_route, resolve_server,
  create_client_id, open_channel,
}
use rdma_pmem.Rw.Init
use rdma_pmem.Rw.Transfer.{set_src, alloc_dst, exchange_metadata_with_server}
use rdma_pmem.Rw.Worker.{Opt, Options, parse}
use rdma_pmem.RdmaExample.Client.{connect, use_client, client_main}

-- commands whose client has the source buffer `src` where they return
module _ (w : World) (src : Ptr) where
  abbrev Leaves : Cmd (ℤ × Client) → Type 0
  Leaves = Ensures w (λ t. Unit {0}) (λ r. r.1.src ≡ src)

  returns : (ret : ℤ) (client : Client) → client.src ≡ src → Leaves (pure (ret, client))
  returns ret client e = Ensures.pure-Ensures (ret, client) e

  errno-Leaves :
      (client : Client) → client.src ≡ src → Leaves (do code ← minus_errno; pure (code, client))
  errno-Leaves client e = Ensures.next (Ensures.any_run minus_errno) λ code. returns code client e

  then_client-Leaves :
      (ret : ℤ) (client : Client) {rest : Cmd (ℤ × Client)}
      → client.src ≡ src
      → Leaves rest
      → Leaves (then_client ret client rest)
  then_client-Leaves ret client e h = Ensures.branch (is_zero ret) h (returns ret client e)

  checked-Leaves :
      (ret : ℤ) (client : Client) {rest : Cmd (ℤ × Client)}
      → client.src ≡ src
      → Leaves rest
      → Leaves (checked ret client rest)
  checked-Leaves ret client e h = Ensures.branch (is_zero ret) h (errno-Leaves client e)

  allocated-Leaves :
      (p : Ptr) (client : Client) {rest : Cmd (ℤ × Client)}
      → client.src ≡ src
      → Leaves rest
      → Leaves (allocated p client rest)
  allocated-Leaves p client e h = Ensures.branch (is_null p) (errno-Leaves client e) h

  await_event-Leaves :
      (client : Client) (expected : EventType) (cm_event : Option Event)
      {rest : Option Event → Cmd (ℤ × Client)}
      → client.src ≡ src
      → ((cm_event : Option Event) → Leaves (rest cm_event))
      → Leaves (await_event client expected cm_event rest)
  unfolding await_event
  await_event-Leaves client expected cm_event e h =
      Ensures.next
        (Ensures.any_run (process_rdma_cm_event client.cm_event_channel expected cm_event))
        λ r. then_client-Leaves r.0 client e (
          Ensures.next (Ensures.any_run (acknowledge r.1))
            λ ret. checked-Leaves ret client e (h r.1))

  connect_client-Leaves :
      (cm_event : Option Event) (client : Client)
      → client.src ≡ src
      → Leaves (connect_client cm_event client)
  unfolding connect_client
  connect_client-Leaves cm_event client e =
      Ensures.next (Ensures.any_run (call_int (rdma_connect client.cm_client_id))) λ ret.
        checked-Leaves ret client e
          (await_event-Leaves client established cm_event e λ cm_event. returns (pos 0) client e)

  post_metadata-Leaves :
      (mr : Option Mr) (cm_event : Option Event) (client : Client)
      → client.src ≡ src
      → Leaves (post_metadata mr cm_event client)
  unfolding post_metadata
  post_metadata-Leaves none cm_event client e = returns enomem client e
  post_metadata-Leaves (some mr) cm_event client e =
      Ensures.next (Ensures.any_run (call_int (post_recv_sge client.client_qp (sge_of mr))))
        λ ret. then_client-Leaves ret client e (connect_client-Leaves cm_event client e)

  create_pair-Leaves :
      (cm_event : Option Event) (client : Client)
      → client.src ≡ src
      → Leaves (create_pair cm_event client)
  unfolding create_pair pre_post
  create_pair-Leaves cm_event client e =
      Ensures.next (Ensures.any_run (call_int (req_notify_cq client.client_cq))) λ ret.
        checked-Leaves ret client e (
          Ensures.next
            (Ensures.any_run (call_int (create_qp client.cm_client_id client.pd (qp_attr client))))
            λ ret. checked-Leaves ret client e (
              Ensures.next (Ensures.any_run (call_ptr (load_qp client.cm_client_id))) λ qp.
                Ensures.next
                  (Ensures.any_run (
                    rdma_buffer_register client.pd client.server_metadata metadata_size
                      local_write))
                  λ mr.
                    post_metadata-Leaves mr cm_event
                      (record client { client_qp = qp; server_metadata_mr = mr }) e))

  create_resources-Leaves :
      (cm_event : Option Event) (client : Client)
      → client.src ≡ src
      → Leaves (create_resources cm_event client)
  unfolding create_resources create_channel create_queue
  create_resources-Leaves cm_event client e =
      Ensures.branch (is_null client.cm_client_id) Ensures.crash-Ensures (
        Ensures.next (Ensures.any_run (call_ptr (alloc_pd client.cm_client_id))) λ pd.
          let owned = record client { pd = pd } in
          allocated-Leaves pd owned e (
            Ensures.next (Ensures.any_run (call_ptr (create_comp_channel client.cm_client_id)))
              λ channel.
                let told = record owned { io_completion_channel = channel } in
                allocated-Leaves channel told e (
                  Ensures.next
                    (Ensures.any_run (call_ptr (create_cq client.cm_client_id 16 channel)))
                    λ cq.
                      let queued = record told { client_cq = cq } in
                      allocated-Leaves cq queued e (create_pair-Leaves cm_event queued e))))

  resolve_server-Leaves : (client : Client) → client.src ≡ src → Leaves (resolve_server client)
  unfolding resolve_server find_route
  resolve_server-Leaves client e =
      Ensures.next (Ensures.any_run (call_int (resolve_addr client.cm_client_id))) λ ret.
        checked-Leaves ret client e (
          await_event-Leaves client addr_resolved none e λ cm_event.
            Ensures.next (Ensures.any_run (call_int (resolve_route client.cm_client_id))) λ ret.
              checked-Leaves ret client e (
                await_event-Leaves client route_resolved cm_event e
                  λ cm_event. create_resources-Leaves cm_event client e))

  init-Leaves : (client : Client) → client.src ≡ src → Leaves (Init.init client)
  unfolding Init.init open_channel create_client_id
  init-Leaves client e = Ensures.next (Ensures.any_run (get_addr client.server_addr)) λ ret.
      then_client-Leaves ret client e (
        Ensures.branch (not (is_some client.server_port)) Ensures.crash-Ensures (
          Ensures.next (Ensures.any_run (call_ptr create_event_channel)) λ channel.
            let opened = record client { cm_event_channel = channel } in
            allocated-Leaves channel opened e (
              Ensures.next
                (Ensures.any_run {A = ℤ × Ptr}
                  λ w t. let t' = create_id channel ∷ t in ok (w.int t', w.ptr t') t')
                λ r.
                  let named = record opened {
                    cm_client_id = if is_zero r.0 then r.1 else opened.cm_client_id;
                  } in
                  checked-Leaves r.0 named e (resolve_server-Leaves named e))))

  -- exchange_metadata_with_server of a client without a source buffer
  exchange_metadata_faults :
      (fuel : ℕ) (client : Client) (t : Trace)
      → is_null src ≡ true
      → client.src ≡ src
      → exchange_metadata_with_server fuel client w t ≡ fault t
  unfolding exchange_metadata_with_server
  exchange_metadata_faults fuel client t null e = rw (e, null) refl

-- where the two allocations stand, and the client behind them
module _ (o : Options) (w : World) (t : Trace) where
  abbrev pub src_at : Trace
  src_at = calloc (o.text.size + 1) ∷ operator_new ∷ t

  abbrev pub dst_at : Trace
  dst_at = calloc (o.text.size + 1) ∷ free (w.ptr src_at) ∷ src_at

  abbrev pub unset_client :
      (stol : Text → Option ℕ) (client_metadata server_metadata : Ptr) → Client
  unset_client stol client_metadata server_metadata =
      let client =
        new_client client_metadata server_metadata o.server_addr.c_str (stol o.server_port) in
      record client { src = w.ptr src_at; dst = w.ptr dst_at }

connect_faults :
    (fuel : ℕ) (client : Client) (w : World) (t : Trace) {c : Client} {t' : Trace}
    → is_null client.src ≡ true
    → Init.init client w t ≡ ok (pos 0, c) t'
    → connect fuel client w t ≡ fault t'
unfolding connect
connect_faults fuel client w t {c} {t'} null e = ground (
  arith,
  e,
  exchange_metadata_faults w client.src fuel c t' null
      (Ensures.at_return ((init-Leaves w client.src client refl).run t tt) (pos 0, c) t' e),
)

-- If the allocation of the source buffer fails, and that of the other one does not, main of the
-- client of rdma-example goes on, and where init makes the connection it faults.
pub client_main_faults_without_src :
    (fuel : ℕ) (stol : Text → Option ℕ) (client_metadata server_metadata : Ptr)
    (defaults o : Options) (opts : List Opt) (w : World) (t : Trace) {c : Client} {t' : Trace}
    → parse defaults opts ≡ some o
    → is_null (w.ptr (operator_new ∷ t)) ≡ false
    → is_null (w.ptr (src_at o w t)) ≡ true
    → is_null (w.ptr (dst_at o w t)) ≡ false
    → Init.init (unset_client o w t stol client_metadata server_metadata) w (dst_at o w t)
      ≡ ok (pos 0, c) t'
    → client_main fuel stol client_metadata server_metadata defaults opts w t ≡ fault t'
unfolding client_main use_client set_src alloc_dst
client_main_faults_without_src fuel stol client_metadata server_metadata defaults o opts w t {c}
      {t'} read new src dst e =
    ground (
      arith,
      read,
      new,
      src,
      dst,
      connect_faults fuel (unset_client o w t stol client_metadata server_metadata) w (dst_at o w t)
          src e,
    )
