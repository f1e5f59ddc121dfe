-- ===== src/Rw/Server.antt =====
-- class Server and main of rwbenchmark/src/server.cpp. Its handlers read an event behind its
-- acknowledgement, which frees it: such a read ends the program, or gives what the freed memory
-- holds, as the world has it (`freed_event`). So too the `context` of an id that teardown has
-- destroyed.
use rdma_pmem.Prelude.{
  ℕ, zero, suc, ◌+◌, ◌==◌, if◌then◌else◌, not, Option, none, some, is_some, List, [], ◌∷◌,
}
use rdma_pmem.Prelude.Int.{ℤ, pos, is_zero, negate}
use rdma_pmem.World.{
  Ptr, EventType, connect_request, established, disconnected, Event, operator_new, load_freed_event,
  load_freed_context, get_peer_addr, create_event_channel, create_id, bind_addr, listen, accept,
  ack_cm_event, Cmd, ok, fault, pure, ◌>>=◌, ◌>>◌, crash, exhausted, call, call_int, call_ptr,
}
use rdma_pmem.Node.{is_null}
use rdma_pmem.Setup.{deref}
use rdma_pmem.Rw.{Text, get_addr, get_event}
use rdma_pmem.Rw.Init.{then_client, checked, allocated}
use rdma_pmem.Rw.Session.{Session, new_session, einval, exchange_metadata, teardown}

-- where a ClientSession has its two members of type rdma_buffer_attr
pub record Layout : Type 0 where
  pub client_metadata : ℕ
  pub server_metadata : ℕ

-- `server_port` is what std::stol makes of that string, `none` where it throws; `context` has, for
-- an id, the number that its `context` points to. `sessions` is a map without null pointers.
pub record Server : Type 0 where
  pub server_addr : Ptr
  pub server_port : Option ℕ
  pub cm_event_channel : Ptr
  pub cm_server_id : Ptr
  pub connections : ℕ
  pub sessions : List (ℕ × Session)
  pub context : Ptr → Option ℕ

-- the constructor
abbrev pub new_server : (server_addr : Ptr) (server_port : Option ℕ) → Server
new_server server_addr server_port = record {
  server_addr = server_addr;
  server_port = server_port;
  cm_event_channel = 0;
  cm_server_id = 0;
  connections = 0;
  sessions = [];
  context = λ id. none;
}

-- `sessions[k]->`; a missing key gives a null pointer, and its use is a fault
unfoldable pub find_session : ℕ → List (ℕ × Session) → Option Session
find_session k [] = none
find_session k ((j, s) ∷ rest) = if j == k then some s else find_session k rest

-- `sessions[k] = ...`
unfoldable pub set_session : ℕ → Session → List (ℕ × Session) → List (ℕ × Session)
set_session k s [] = (k, s) ∷ []
set_session k s ((j, old) ∷ rest) =
    if j == k then (k, s) ∷ rest else (j, old) ∷ set_session k s rest

-- `sessions.erase(k)`
unfoldable pub erase_session : ℕ → List (ℕ × Session) → List (ℕ × Session)
erase_session k [] = []
erase_session k ((j, s) ∷ rest) =
    let others = erase_session k rest in if j == k then others else (j, s) ∷ others

-- `event->id` of an event that is acknowledged
abbrev pub freed_id : Cmd Ptr
freed_id w t =
    let t' = load_freed_event ∷ t in
    elim (w.freed_event t') [ none ↦ fault t' | some e ↦ ok e.id t' ]

-- `*(int *)id->context` of an id that is destroyed
abbrev pub freed_key : Cmd ℕ
freed_key w t =
    let t' = load_freed_context ∷ t in
    elim (w.freed_context t') [ none ↦ fault t' | some k ↦ ok k t' ]

-- `new`; std::bad_alloc is not caught
abbrev pub allocate : Cmd Ptr
allocate = do p ← call_ptr operator_new; if is_null p then crash else pure p

-- handle_connect_request from the creation of the session on
unfoldable pub accept_client : Layout → Ptr → Server → Cmd (ℤ × Server)
accept_client layout cm_client_id server = do
  p ← allocate
  let session = new_session (p + layout.client_metadata) (p + layout.server_metadata) cm_client_id
  let k = server.connections
  let server = record server { connections = k + 1 }
  allocate
  let old = server.context
  let server = record server { context = λ id. if id == cm_client_id then some k else old id }
  ret ← call_int (accept cm_client_id)
  checked ret server
      (pure (pos 0, record server { sessions = set_session k session server.sessions }))

unfoldable pub handle_connect_request : Layout → Event → Server → Cmd (ℤ × Server)
handle_connect_request layout event server = do
  ret ← call_int (ack_cm_event event)
  checked ret server (do
    id ← freed_id
    if is_null id then pure (einval, server) else do id ← freed_id; accept_client layout id server)

-- the session of the connection that an acknowledged event is about, with its key
unfoldable pub session_of : Server → Cmd (ℕ × Session)
session_of server = do
  id ← freed_id
  k ← deref (server.context id)
  s ← deref (find_session k server.sessions)
  pure (k, s)

unfoldable pub handle_connection_established : (fuel : ℕ) → Event → Server → Cmd (ℤ × Server)
handle_connection_established fuel event server = do
  ret ← call_int (ack_cm_event event)
  checked ret server (do
    id ← freed_id
    call (get_peer_addr id)
    (k, s) ← session_of server
    (ignored, s) ← exchange_metadata fuel s
    pure (ret, record server { sessions = set_session k s server.sessions }))

unfoldable pub handle_disconnect : Event → Server → Cmd (ℤ × Server)
handle_disconnect event server = do
  ret ← call_int (ack_cm_event event)
  checked ret server (do
    (k, s) ← session_of server
    ret ← teardown s
    then_client ret server (do
      id ← freed_id
      k ← freed_key
      pure (pos 0, record server { sessions = erase_session k server.sessions })))

-- the `switch`
unfoldable pub dispatch : Layout → (fuel : ℕ) → EventType → Event → Server → Cmd (ℤ × Server)
dispatch layout fuel connect_request event server = handle_connect_request layout event server
dispatch layout fuel established event server = handle_connection_established fuel event server
dispatch layout fuel disconnected event server = handle_disconnect event server
dispatch layout fuel _ event server = pure (pos 0, server)

-- the `while` loop; `ret` is not 0 where it ends, but for the results of errno
unfoldable pub serve : Layout → (fuel : ℕ) → (ret : ℤ) → Server → Cmd (ℤ × Server)
serve layout zero ret server = exhausted
serve layout (suc fuel) ret server = if not (is_zero ret) then pure (ret, server) else do
  (ret, event) ← get_event server.cm_event_channel
  checked ret server (
      if not (is_zero event.status)
      then (do call (ack_cm_event event); pure (negate event.status, server))
      else do
        (ret, server) ← dispatch layout fuel event.event event server
        serve layout fuel ret server)

-- run from the channel on
unfoldable pub start_server : Layout → (fuel : ℕ) → Server → Cmd (ℤ × Server)
start_server layout fuel server = do
  channel ← call_ptr create_event_channel
  let server = record server { cm_event_channel = channel }
  allocated channel server (do
    (ret, id) ← λ w t. let t' = create_id channel ∷ t in ok (w.int t', w.ptr t') t'
    let server = record server { cm_server_id = if is_zero ret then id else server.cm_server_id }
    checked ret server (do
      ret ← call_int (bind_addr server.cm_server_id)
      checked ret server
          (do ret ← call_int (listen server.cm_server_id); serve layout fuel ret server)))

unfoldable pub run : Layout → (fuel : ℕ) → Server → Cmd (ℤ × Server)
run layout fuel server = do
  ret ← get_addr server.server_addr
  then_client ret server
      (if not (is_some server.server_port) then crash else start_server layout fuel server)

-- what getopt_long yields
pub data Opt : Type 0 where
  opt_a opt_p : Text → Opt
  opt_unknown : Opt

-- the loop over the options, from the strings so far; `none` is the usage
unfoldable pub parse : (server_addr server_port : Text) → List Opt → Option (Text × Text)
parse addr port [] = some (addr, port)
parse addr port (opt_a arg ∷ rest) = parse arg port rest
parse addr port (opt_p arg ∷ rest) = parse addr arg rest
parse addr port (opt_unknown ∷ rest) = none

-- main, with what std::stol makes of a string, and the empty string: the exit status
unfoldable pub server_main :
    Layout → (fuel : ℕ) → (stol : Text → Option ℕ) → (empty : Text) → List Opt → Cmd ℤ
server_main layout fuel stol empty opts = elim (parse empty empty opts) as (λ o. Cmd ℤ) [
  | none ↦ pure (pos 0)
  | some (addr, port) ↦ (do
    allocate
    (ret, server) ← run layout fuel (new_server addr.c_str (stol port))
    pure ret)
]
