-- ===== src/Rw/Init.antt =====
-- Client::init of rwbenchmark/src/client.cpp, in the parts that its comments name.
use rdma_pmem.Prelude.{if◌then◌else◌, not, Option, none, some, is_some, ◌∷◌, false}
use rdma_pmem.Prelude.Int.{ℤ, pos, is_zero}
use rdma_pmem.World.{
  Ptr, Mr, Event, local_write, QpAttr, EventType, addr_resolved, route_resolved, established,
  alloc_pd, create_comp_channel, create_cq, req_notify_cq, create_qp, load_qp, post_recv_sge,
  create_event_channel, create_id, resolve_addr, resolve_route, connect, Cmd, ok, pure, ◌>>=◌,
  crash, call_int, call_ptr,
}
use rdma_pmem.Node.{is_null, enomem, metadata_size}
use rdma_pmem.Rw.{
  Client, sge_of, minus_errno, or_errno, get_addr, rdma_buffer_register, process_rdma_cm_event,
  acknowledge,
}

-- the rest, or `return ret` if `ret` is not 0
abbrev pub then_client {ℓ} : {S : Type ℓ} → ℤ → S → Cmd (ℤ × S) → Cmd (ℤ × S)
then_client ret state rest = if is_zero ret then rest else pure (ret, state)

-- the rest, or `return -errno`
abbrev pub checked {ℓ} : {S : Type ℓ} → ℤ → S → Cmd (ℤ × S) → Cmd (ℤ × S)
checked ret state rest = or_errno ret (λ code. (code, state)) rest

-- the same of a pointer
abbrev pub allocated {ℓ} : {S : Type ℓ} → Ptr → S → Cmd (ℤ × S) → Cmd (ℤ × S)
allocated p state rest = if is_null p then (do code ← minus_errno; pure (code, state)) else rest

-- the wait for an event of this type and its acknowledgement, before the rest; `cm_event` is the
-- variable of that name
unfoldable pub await_event :
    Client → EventType → Option Event → (rest : Option Event → Cmd (ℤ × Client)) → Cmd (ℤ × Client)
await_event client expected cm_event rest = do
  (ret, cm_event) ← process_rdma_cm_event client.cm_event_channel expected cm_event
  then_client ret client (do ret ← acknowledge cm_event; checked ret client (rest cm_event))

-- from "connects to the RDMA server" on
unfoldable pub connect_client : Option Event → Client → Cmd (ℤ × Client)
connect_client cm_event client = do
  ret ← call_int (connect client.cm_client_id)
  checked ret client (await_event client established cm_event λ cm_event. pure (pos 0, client))

-- the receive of the server's metadata, if its region is registered
unfoldable pub post_metadata : Option Mr → Option Event → Client → Cmd (ℤ × Client)
post_metadata none cm_event client = pure (enomem, client)
post_metadata (some mr) cm_event client = do
  ret ← call_int (post_recv_sge client.client_qp (sge_of mr))
  then_client ret client (connect_client cm_event client)

-- "pre-post receive buffer before rdma-connect"
unfoldable pub pre_post : Option Event → Client → Cmd (ℤ × Client)
pre_post cm_event client = do
  mr ← rdma_buffer_register client.pd client.server_metadata metadata_size local_write
  post_metadata mr cm_event (record client { server_metadata_mr = mr })

-- `qp_init_attr`
abbrev pub qp_attr : Client → QpAttr
qp_attr client = record {
  max_send_wr = 8;
  max_recv_wr = 8;
  sq_sig_all = false;
  send_cq = client.client_cq;
  recv_cq = client.client_cq;
}

-- the queue pair of a client with a completion queue
unfoldable pub create_pair : Option Event → Client → Cmd (ℤ × Client)
create_pair cm_event client = do
  ret ← call_int (req_notify_cq client.client_cq)
  checked ret client (do
    ret ← call_int (create_qp client.cm_client_id client.pd (qp_attr client))
    checked ret client (do
      qp ← call_ptr (load_qp client.cm_client_id)
      pre_post cm_event (record client { client_qp = qp })))

-- the completion queue
unfoldable pub create_queue : Option Event → Client → Cmd (ℤ × Client)
create_queue cm_event client = do
  cq ← call_ptr (create_cq client.cm_client_id 16 client.io_completion_channel)
  let client = record client { client_cq = cq }
  allocated cq client (create_pair cm_event client)

-- the completion channel
unfoldable pub create_channel : Option Event → Client → Cmd (ℤ × Client)
create_channel cm_event client = do
  channel ← call_ptr (create_comp_channel client.cm_client_id)
  let client = record client { io_completion_channel = channel }
  allocated channel client (create_queue cm_event client)

-- the protection domain
unfoldable pub create_resources : Option Event → Client → Cmd (ℤ × Client)
create_resources cm_event client = if is_null client.cm_client_id then crash else do
  pd ← call_ptr (alloc_pd client.cm_client_id)
  let client = record client { pd = pd }
  allocated pd client (create_channel cm_event client)

-- the route to the server
unfoldable pub find_route : Option Event → Client → Cmd (ℤ × Client)
find_route cm_event client = do
  ret ← call_int (resolve_route client.cm_client_id)
  checked ret client
      (await_event client route_resolved cm_event λ cm_event. create_resources cm_event client)

-- the address of the server
unfoldable pub resolve_server : Client → Cmd (ℤ × Client)
resolve_server client = do
  ret ← call_int (resolve_addr client.cm_client_id)
  checked ret client (await_event client addr_resolved none λ cm_event. find_route cm_event client)

unfoldable pub create_client_id : Client → Cmd (ℤ × Client)
create_client_id client = do
  (ret, id) ← λ w t. let t' = create_id client.cm_event_channel ∷ t in ok (w.int t', w.ptr t') t'
  let client = record client { cm_client_id = if is_zero ret then id else client.cm_client_id }
  checked ret client (resolve_server client)

-- "prepare connection"
unfoldable pub open_channel : Client → Cmd (ℤ × Client)
open_channel client = do
  channel ← call_ptr create_event_channel
  let client = record client { cm_event_channel = channel }
  allocated channel client (create_client_id client)

unfoldable pub init : Client → Cmd (ℤ × Client)
init client = do
  ret ← get_addr client.server_addr
  then_client ret client (if not (is_some client.server_port) then crash else open_channel client)
