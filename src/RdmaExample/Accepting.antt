-- ===== src/RdmaExample/Accepting.antt =====
-- What the server of rdma-example holds while it waits for its client.
use rdma_pmem.Prelude.{Option, none, is_some, not, ◌∷◌, if◌then◌else◌}
use rdma_pmem.Prelude.Int.{ℤ, pos, is_zero}
use rdma_pmem.World.{
  Ptr, Event, connect_request, established, Trace, World, Call, get_peer_addr, accept, bind_addr,
  listen, create_id, create_event_channel, Cmd, ok, call_ptr,
}
use rdma_pmem.World.Triple
use rdma_pmem.World.Triple.{Triple}
use rdma_pmem.World.After
use rdma_pmem.Node.{is_null}
use rdma_pmem.Rw.Init.{then_client, checked, allocated}
use rdma_pmem.Rw.Session.{Session, einval}
use rdma_pmem.RdmaExample.Server.{
  Server, accept_client, set_client_up, await_client, create_server_id, open_channel, init,
}
use rdma_pmem.RdmaExample.Resources.{IsQuiet}
use rdma_pmem.RdmaExample.Quiet.{
  process-Keeps, acknowledge-Keeps, get_addr-Keeps, int-Keeps, call-Keeps,
}
use rdma_pmem.RdmaExample.Holding.{
  Room, Bare, RoomAfter, Room-Quiet, Bare-Quiet, deref-Triple, checked-Room, set_up-Room,
}

module _ (w : World) (t₀ : Trace) where
  accept_client-Room :
      (channel : Ptr) (cm_event : Option Event) (s : Session)
      → Triple w (Room w t₀ s) (accept_client channel cm_event s) (RoomAfter w t₀)
  unfolding accept_client
  accept_client-Room channel cm_event s =
      let quiet = Room-Quiet w t₀ s in
      Triple.next (Triple.kept (int-Keeps quiet (accept s.cm_client_id) tt)) λ ret.
        checked-Room w t₀ ret s (
          Triple.next (Triple.kept (process-Keeps quiet channel established cm_event)) λ r.
            checked-Room w t₀ r.0 s (
              Triple.next (Triple.kept (acknowledge-Keeps quiet r.1)) λ ret.
                checked-Room w t₀ ret s (
                  Triple.next (Triple.kept (call-Keeps quiet (get_peer_addr s.cm_client_id) tt))
                    λ done. Triple.pure-Triple (pos 0, s) λ t p. p)))

  -- the same of the server that has the session
  abbrev pub ServerBare : Server → Trace → Type 0
  ServerBare server = Bare w t₀ server.session

  abbrev pub ServerRoom : ℤ × Server → Trace → Type 0
  ServerRoom r = Room w t₀ r.1.session

  quiet_server :
      (server : Server) (c : Call) (t : Trace)
      → IsQuiet c
      → ServerBare server t
      → ServerBare server (c ∷ t)
  quiet_server server = Bare-Quiet w t₀ server.session

  checked-Server :
      (ret : ℤ) (server : Server) {rest : Cmd (ℤ × Server)}
      → Triple w (ServerBare server) rest ServerRoom
      → Triple w (ServerBare server) (checked ret server rest) ServerRoom
  checked-Server ret server h =
      Triple.branch (is_zero ret) (λ z. h) λ z. Triple.step _ λ t p. After.returned p.0

  then_client-Server :
      (ret : ℤ) (server : Server) {rest : Cmd (ℤ × Server)}
      → Triple w (ServerBare server) rest ServerRoom
      → Triple w (ServerBare server) (then_client ret server rest) ServerRoom
  then_client-Server ret server h =
      Triple.branch (is_zero ret) (λ z. h) λ z. Triple.pure-Triple (ret, server) λ t p. p.0

  allocated-Server :
      (a : Ptr) (server : Server) {rest : Cmd (ℤ × Server)}
      → Triple w (ServerBare server) rest ServerRoom
      → Triple w (ServerBare server) (allocated a server rest) ServerRoom
  allocated-Server a server h =
      Triple.branch (is_null a) (λ z. Triple.step _ λ t p. After.returned p.0) λ z. h

  set_client_up-Room :
      (cm_event : Option Event) (server : Server)
      → Triple w (ServerBare server) (set_client_up cm_event server) ServerRoom
  unfolding set_client_up
  set_client_up-Room cm_event server =
      Triple.branch (is_null server.session.cm_client_id)
        (λ z. Triple.pure-Triple (einval, server) λ t p. p.0)
        λ z.
          Triple.bind
            (set_up-Room w t₀ (accept_client server.cm_event_channel cm_event)
              (accept_client-Room server.cm_event_channel cm_event) server.session)
            λ r. Triple.pure-Triple (r.0, record server { session = r.1 }) λ t p. p

  await_client-Room :
      (server : Server) → Triple w (ServerBare server) (await_client server) ServerRoom
  unfolding await_client
  await_client-Room server =
      Triple.next
        (Triple.kept
          (process-Keeps (quiet_server server) server.cm_event_channel connect_request none))
        λ r. then_client-Server r.0 server (
          Triple.next (deref-Triple r.1) λ event.
            let named = record server {
              session = record server.session { cm_client_id = event.id };
            } in
            Triple.next (Triple.kept (acknowledge-Keeps (quiet_server named) r.1))
              λ ret. checked-Server ret named (set_client_up-Room r.1 named))

  create_server_id-Room :
      (server : Server) → Triple w (ServerBare server) (create_server_id server) ServerRoom
  unfolding create_server_id
  create_server_id-Room server =
      Triple.next
        (Triple.step {A = ℤ × Ptr} {Q = λ r. ServerBare server}
          (λ w t. let t' = create_id server.cm_event_channel ∷ t in ok (w.int t', w.ptr t') t')
          λ t p. After.returned p)
        λ r.
          let named = record server {
            cm_server_id = if is_zero r.0 then r.1 else server.cm_server_id;
          } in
          checked-Server r.0 named (
            Triple.next
              (Triple.kept (int-Keeps (quiet_server named) (bind_addr named.cm_server_id) tt))
              λ ret. checked-Server ret named (
                Triple.next
                  (Triple.kept (int-Keeps (quiet_server named) (listen named.cm_server_id) tt))
                  λ ret. checked-Server ret named (await_client-Room named)))

  open_channel-Room :
      (server : Server) → Triple w (ServerBare server) (open_channel server) ServerRoom
  unfolding open_channel
  open_channel-Room server =
      Triple.next
        (Triple.step {Q = λ r. ServerBare server} (call_ptr create_event_channel)
          λ t p. After.returned p)
        λ channel.
          let opened = record server { cm_event_channel = channel } in
          allocated-Server channel opened (create_server_id-Room opened)

  pub init-Room : (server : Server) → Triple w (ServerBare server) (init server) ServerRoom
  unfolding init
  init-Room server =
      Triple.next (Triple.kept (get_addr-Keeps (quiet_server server) server.server_addr)) λ ret.
        then_client-Server ret server (
          Triple.branch (not (is_some server.server_port)) (λ z. Triple.crash-Triple)
            λ z. open_channel-Room server)
