-- ===== src/RdmaExample/Server.antt =====
-- class Server and main of rdma-example/src/server.cpp, which serves one client. Its members for the
-- connection, and exchange_metadata_with_client, are those of class ClientSession of
-- rwbenchmark/src/server.cpp, but its constructor sets all pointers to NULL, so that no member is uninitialised.
use rdma_pmem.Prelude.{ℕ, if◌then◌else◌, not, Option, none, some, is_some, List, ◌∷◌}
use rdma_pmem.Prelude.Int.{ℤ, pos, is_zero}
use rdma_pmem.World.{
  Ptr, Mr, Event, connect_request, established, disconnected, free, load_bytes, dealloc_pd,
  create_event_channel, destroy_event_channel, create_id, destroy_id, destroy_qp, destroy_cq,
  destroy_comp_channel, get_peer_addr, bind_addr, listen, accept, Cmd, ok, pure, ◌>>=◌, ◌>>◌, crash,
  call, call_int, call_ptr,
}
use rdma_pmem.Node.{is_null}
use rdma_pmem.Setup.{deref}
use rdma_pmem.Rw.{
  Text, or_errno, get_addr, rdma_buffer_deregister, process_rdma_cm_event, acknowledge,
}
use rdma_pmem.Rw.Init.{then_client, checked, allocated}
use rdma_pmem.Rw.Session.{Session, einval, set_up, exchange_metadata}
use rdma_pmem.Rw.Server.{Opt, parse, allocate}

-- `server_port` is what std::stol makes of that string, `none` where it throws
pub record Server : Type 0 where
  pub server_addr : Ptr
  pub server_port : Option ℕ
  pub cm_event_channel : Ptr
  pub cm_server_id : Ptr
  pub session : Session

-- the members of the connection, those of type rdma_buffer_attr at these addresses
abbrev pub null_session : (client_metadata server_metadata : Ptr) → Session
null_session client_metadata server_metadata = record {
  cm_client_id = 0;
  pd = some 0;
  cq = some 0;
  qp = some 0;
  io_completion_channel = some 0;
  client_metadata_mr = some none;
  server_buffer_mr = some none;
  server_metadata_mr = some none;
  client_metadata = client_metadata;
  server_metadata = server_metadata;
}

-- the constructor
abbrev pub new_server :
    (client_metadata server_metadata server_addr : Ptr) (server_port : Option ℕ) → Server
new_server client_metadata server_metadata server_addr server_port = record {
  server_addr = server_addr;
  server_port = server_port;
  cm_event_channel = 0;
  cm_server_id = 0;
  session = null_session client_metadata server_metadata;
}

unfoldable pub print_buffer : Session → Cmd (Unit {0})
print_buffer s = do
  region ← deref s.server_buffer_mr
  buffer ← deref region
  call (load_bytes buffer.addr buffer.length)

-- init from rdma_accept on; a wait that fails returns -errno, and not its result
unfoldable pub accept_client : (cm_event_channel : Ptr) → Option Event → Session → Cmd (ℤ × Session)
accept_client channel cm_event s = do
  ret ← call_int (accept s.cm_client_id)
  checked ret s (do
    (ret, cm_event) ← process_rdma_cm_event channel established cm_event
    checked ret s (do
      ret ← acknowledge cm_event
      checked ret s (do call (get_peer_addr s.cm_client_id); pure (pos 0, s))))

-- "setup client resources" and what follows
unfoldable pub set_client_up : Option Event → Server → Cmd (ℤ × Server)
set_client_up cm_event server =
    if is_null server.session.cm_client_id then pure (einval, server) else do
      (ret, s) ← set_up (accept_client server.cm_event_channel cm_event) server.session
      pure (ret, record server { session = s })

-- the wait for a client, and what follows it
unfoldable pub await_client : Server → Cmd (ℤ × Server)
await_client server = do
  (ret, cm_event) ← process_rdma_cm_event server.cm_event_channel connect_request none
  then_client ret server (do
    event ← deref cm_event
    let server = record server { session = record server.session { cm_client_id = event.id } }
    ret ← acknowledge cm_event
    checked ret server (set_client_up cm_event server))

-- the server's id, with its address, and what follows it
unfoldable pub create_server_id : Server → Cmd (ℤ × Server)
create_server_id server = do
  (ret, id) ← λ w t. let t' = create_id server.cm_event_channel ∷ t in ok (w.int t', w.ptr t') t'
  let server = record server { cm_server_id = if is_zero ret then id else server.cm_server_id }
  checked ret server (do
    ret ← call_int (bind_addr server.cm_server_id)
    checked ret server
        (do ret ← call_int (listen server.cm_server_id); checked ret server (await_client server)))

-- "start server"
unfoldable pub open_channel : Server → Cmd (ℤ × Server)
open_channel server = do
  channel ← call_ptr create_event_channel
  let server = record server { cm_event_channel = channel }
  allocated channel server (create_server_id server)

unfoldable pub init : Server → Cmd (ℤ × Server)
init server = do
  ret ← get_addr server.server_addr
  then_client ret server (if not (is_some server.server_port) then crash else open_channel server)

unfoldable pub exchange_metadata_with_client : (fuel : ℕ) → Server → Cmd (ℤ × Server)
exchange_metadata_with_client fuel server = do
  (ret, s) ← exchange_metadata fuel server.session
  pure (ret, record server { session = s })

-- of common.cpp
unfoldable pub rdma_buffer_free : Option Mr → Cmd (Unit {0})
rdma_buffer_free none = pure tt
rdma_buffer_free (some mr) = do rdma_buffer_deregister (some mr); call (free mr.addr)

-- "Destroy memory buffers"
unfoldable pub release_buffers : Session → Cmd (Unit {0})
release_buffers s = do
  buffer ← deref s.server_buffer_mr
  rdma_buffer_free buffer
  mr ← deref s.server_metadata_mr
  rdma_buffer_deregister mr
  mr ← deref s.client_metadata_mr
  rdma_buffer_deregister mr

-- "We free all the resources"
unfoldable pub release : Server → Cmd (Unit {0})
release server = do
  let s = server.session
  call (destroy_qp s.cm_client_id)
  call (destroy_id s.cm_client_id)
  cq ← deref s.cq
  call (destroy_cq cq)
  channel ← deref s.io_completion_channel
  call (destroy_comp_channel channel)
  release_buffers s
  pd ← deref s.pd
  call (dealloc_pd pd)
  call (destroy_id server.cm_server_id)
  call (destroy_event_channel server.cm_event_channel)

unfoldable pub cleanup : Server → Cmd ℤ
cleanup server = do
  (ret, cm_event) ← process_rdma_cm_event server.cm_event_channel disconnected none
  if not (is_zero ret) then pure ret else do
    ret ← acknowledge cm_event
    or_errno ret (λ code. code) (do release server; pure (pos 0))

-- main behind the constructor
unfoldable pub serve_client : (fuel : ℕ) → Server → Cmd ℤ
serve_client fuel server = do
  (ret, server) ← init server
  if not (is_zero ret) then pure ret else do
    (ret, server) ← exchange_metadata_with_client fuel server
    if not (is_zero ret) then pure ret else do print_buffer server.session; cleanup server

-- main, whose options are those of rwbenchmark/src/server.cpp; `layout` has the addresses of the two
-- members that the adapter reads and writes
unfoldable pub server_main :
    (fuel : ℕ)
    → (stol : Text → Option ℕ) → (empty : Text) → (client_metadata server_metadata : Ptr) → List Opt
    → Cmd ℤ
server_main fuel stol empty client_metadata server_metadata opts =
    elim (parse empty empty opts) as (λ o. Cmd ℤ) [
      | none ↦ pure (pos 0)
      | some (addr, port) ↦ (do
        allocate
        serve_client fuel (new_server client_metadata server_metadata addr.c_str (stol port)))
    ]
