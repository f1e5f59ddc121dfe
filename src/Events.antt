-- ===== src/Events.antt =====
-- Connection management: `struct benchmark` and the event handlers of
-- pmrdmabenchmark/src/wsbenchmark.c, which the other programs share. What they do not share is a
-- `Variant`. A handler that writes the global `test` returns the new one with its result.
pub mod Accounting
pub mod Machine
pub mod Quiet
use rdma_pmem.Prelude.{
  Bool, ℕ, zero, suc, ◌+◌, ◌==◌, if◌then◌else◌, true, not, ◌||◌, Option, some, List, get_elem?, set,
  ◌∷◌,
}
use rdma_pmem.Prelude.Int.{ℤ, pos, is_zero, incr, decr, eqb_ℤ}
use rdma_pmem.World.{
  Ptr, Mapping, EventType, addr_resolved, route_resolved, connect_request, established, addr_error,
  route_error, connect_error, unreachable, rejected, disconnected, device_removal, other_event,
  Event, errno, set_option, resolve_route, connect, accept, reject, disconnect, get_cm_event,
  ack_cm_event, Cmd, ok, pure, ◌>>=◌, ◌>>◌, crash, exhausted, call, call_int,
}
use rdma_pmem.Node.{Config, Node, is_null, enomem}
use rdma_pmem.Setup.{deref, when}
use rdma_pmem.Post.{post_recv_metadata}

-- `struct benchmark`, the globals of the mapped file, and the field `context` of each
-- `struct rdma_cm_id` that points to a node (by its index). `nodes` is what `nodes_ptr` points to,
-- and empty where that is NULL or freed, so that an access is a fault.
pub record Test : Type 0 where
  pub channel : Ptr
  pub nodes_ptr : Ptr
  pub nodes : List Node
  pub conn_index : ℕ
  pub connects_left : ℤ
  pub disconnects_left : ℤ
  pub rai : Ptr
  pub pmem : Mapping
  pub message_count : ℤ
  pub context : Ptr → Option ℕ

-- where the programs differ
pub record Variant : Type 0 where
  -- `sizeof *test.nodes`
  pub node_size : ℕ
  -- it may set `message_count`
  pub init_node : Config → Mapping → (message_count : ℤ) → Node → Cmd (ℤ × Node × ℤ)
  -- what the server posts before it accepts a connection
  pub post_first_recv : Node → Cmd ℤ
  -- the server's thread for one connection, if it has one
  pub server_worker : Option (ℕ → Config → Node → Cmd (Unit {0}))
  pub worker : ℕ → Config → Node → Cmd Node
  -- whether it measures the part from the send on
  pub measures_send : Bool
  -- whether it does its work only if `message_count` is not 0
  pub counts_messages : Bool

-- a program whose init_node leaves `message_count`
abbrev pub uncounted :
    (Config → Mapping → Node → Cmd (ℤ × Node)) → Config → Mapping → ℤ → Node → Cmd (ℤ × Node × ℤ)
uncounted init c pmem count node = do (ret, node) ← init c pmem node; pure (ret, node, count)

-- `test.nodes[i]` is read and written
abbrev pub node_at : Test → ℕ → Cmd Node
node_at test i = deref (get_elem? test.nodes i)

abbrev pub set_node : Test → ℕ → Node → Test
set_node test i node = record test { nodes = set test.nodes i node }

-- `cma_id->context`, as the index of a node
abbrev context_of : Test → Ptr → Cmd ℕ
context_of test id = deref (test.context id)

abbrev pub set_context : Test → Ptr → ℕ → Test
set_context test id i =
    let old = test.context in record test { context = λ p. if p == id then some i else old p }

unfoldable pub count_connect_error : Test → Test
count_connect_error test = record test { connects_left = decr test.connects_left }

unfoldable pub addr_handler : Config → ℕ → Test → Cmd (ℤ × Test)
unfolding count_connect_error
addr_handler c i test = do
  node ← node_at test i
  when c.set_tos (do call_int (set_option node.cma_id); pure tt)
  ret ← call_int (resolve_route node.cma_id)
  pure (ret, if is_zero ret then test else count_connect_error test)

-- route_handler: its label `err`
abbrev refuse_route : ℤ → Test → Cmd (ℤ × Test)
refuse_route ret test = pure (ret, count_connect_error test)

module _ (v : Variant) (c : Config) where
  -- route_handler from the call of init_node on
  unfoldable pub start_connection : ℕ → Node → Test → Cmd (ℤ × Test)
  unfolding count_connect_error
  start_connection i node test = do
    (ret, node, count) ← v.init_node c test.pmem test.message_count node
    let test = set_node (record test { message_count = count }) i node
    if not (is_zero ret) then refuse_route ret test else do
      ret ← post_recv_metadata node
      if not (is_zero ret) then refuse_route ret test else if is_null test.rai then crash else do
        ret ← call_int (connect node.cma_id)
        if is_zero ret then pure (pos 0, test) else refuse_route ret test

  unfoldable pub route_handler : ℕ → Test → Cmd (ℤ × Test)
  unfolding start_connection
  route_handler i test = do node ← node_at test i; start_connection i node test

  -- connect_handler: its label `err2`, and `err1` below it
  unfoldable pub refuse_connection : ℤ → Ptr → ℕ → Node → Test → Cmd (ℤ × Test)
  unfolding count_connect_error
  refuse_connection ret cma_id i node test = do
    call (reject cma_id)
    pure (ret, count_connect_error (set_node test i (record node { cma_id = 0 })))

  -- connect_handler from the call of init_node on
  unfoldable pub prepare_connection : Ptr → ℕ → Node → Test → Cmd (ℤ × Test)
  unfolding refuse_connection
  prepare_connection cma_id i node test = do
    (ret, node, count) ← v.init_node c test.pmem test.message_count node
    let test = set_node (record test { message_count = count }) i node
    if not (is_zero ret) then refuse_connection ret cma_id i node test else do
      ret ← v.post_first_recv node
      if not (is_zero ret) then refuse_connection ret cma_id i node test else do
        ret ← call_int (accept node.cma_id)
        if is_zero ret then pure (pos 0, test) else refuse_connection ret cma_id i node test

  unfoldable pub connect_handler : Ptr → Test → Cmd (ℤ × Test)
  unfolding prepare_connection
  connect_handler cma_id test =
      if eqb_ℤ (pos test.conn_index) c.connections
      then (do call (reject cma_id); pure (enomem, test))
      else do
        let i = test.conn_index
        node ← node_at test i
        let node = record node { cma_id = cma_id }
        let test = set_context (set_node (record test { conn_index = i + 1 }) i node) cma_id i
        prepare_connection cma_id i node test

  -- RDMA_CM_EVENT_ESTABLISHED
  unfoldable pub establish : ℕ → Test → Cmd (ℤ × Test)
  establish i test = do
    node ← node_at test i
    let test = set_node test i (record node { connected = true })
    pure (
      pos 0,
      record test {
        connects_left = decr test.connects_left;
        disconnects_left = incr test.disconnects_left;
      },
    )

  -- the `switch` of cma_handler
  unfoldable pub dispatch : EventType → Event → Test → Cmd (ℤ × Test)
  unfolding route_handler connect_handler addr_handler establish
  dispatch addr_resolved e test = do i ← context_of test e.id; addr_handler c i test
  dispatch route_resolved e test = do i ← context_of test e.id; route_handler i test
  dispatch connect_request e test = connect_handler e.id test
  dispatch established e test = do i ← context_of test e.id; establish i test
  dispatch addr_error e test = pure (e.status, count_connect_error test)
  dispatch route_error e test = pure (e.status, count_connect_error test)
  dispatch connect_error e test = pure (e.status, count_connect_error test)
  dispatch unreachable e test = pure (e.status, count_connect_error test)
  dispatch rejected e test = pure (e.status, count_connect_error test)
  dispatch disconnected e test = do
    call (disconnect e.id)
    pure (pos 0, record test { disconnects_left = decr test.disconnects_left })
  dispatch device_removal e test = pure (pos 0, test)
  dispatch other_event e test = pure (pos 0, test)

  unfoldable pub cma_handler : Event → Test → Cmd (ℤ × Test)
  unfolding dispatch
  cma_handler e test = dispatch e.event e test

  -- one round of the loops of connect_events and disconnect_events
  unfoldable pub next_event : Test → Cmd (ℤ × Test)
  unfolding cma_handler
  next_event test = do
    (ret, event) ← λ w t. let t' = get_cm_event test.channel ∷ t in ok (w.int t', w.event t') t'
    if is_zero ret
        then (do (ret, test) ← cma_handler event test; call (ack_cm_event event); pure (ret, test))
        else do code ← call_int errno; pure (code, test)

  -- `while (left && !ret)`
  unfoldable pub event_loop : (Test → ℤ) → (fuel : ℕ) → ℤ → Test → Cmd (ℤ × Test)
  unfolding next_event
  event_loop left zero ret test = exhausted
  event_loop left (suc fuel) ret test =
      if is_zero (left test) || not (is_zero ret)
      then pure (ret, test)
      else do (ret, test) ← next_event test; event_loop left fuel ret test

  unfoldable pub connect_events : (fuel : ℕ) → Test → Cmd (ℤ × Test)
  unfolding event_loop
  connect_events fuel test = event_loop (λ s. s.connects_left) fuel (pos 0) test

  unfoldable pub disconnect_events : (fuel : ℕ) → Test → Cmd (ℤ × Test)
  unfolding event_loop
  disconnect_events fuel test = event_loop (λ s. s.disconnects_left) fuel (pos 0) test
