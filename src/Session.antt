-- ===== src/Session.antt =====
-- A whole run: run_server, run_client and main of pmrdmabenchmark/src/wsbenchmark.c, which the other
-- programs share. A thread of the client runs where it is joined: it writes its own node only. A
-- thread of the server writes no field that the other functions read, so run_server only records
-- that it is started and cancelled.
pub mod Nodes
pub mod Allocation
pub mod Placement
use rdma_pmem.Prelude.{
  Bool, true, is_some, ℕ, zero, suc, ◌+◌, ◌*◌, ltb, if◌then◌else◌, Bool, true, false, not, none,
  List, [], ◌∷◌, u32, u64,
}
use rdma_pmem.Prelude.Int.{ℤ, pos, is_zero, to_unsigned, to_uint64}
use rdma_pmem.World.{
  Ptr, malloc, free, create_id, destroy_id, resolve_addr, bind_addr, listen, disconnect,
  load_src_addr, destroy_event_channel, freeaddrinfo, pmem_map_file, pthread_create, pthread_cancel,
  pthread_join, nanosleep, store_begin, store_stop, Cmd, ok, pure, ◌>>=◌, ◌>>◌, crash, call,
  call_int, call_ptr,
}
use rdma_pmem.Node.{Config, Statistics, Node, fresh_node, is_null, node_count, enomem}
use rdma_pmem.Setup.{when, print_metadata, server_set_metadata, destroy_node}
use rdma_pmem.Post.{post_send_metadata}
use rdma_pmem.Poll.{CqIndex, send_cq_index, recv_cq_index, cq_of, poll_loop}
use rdma_pmem.Stats.{total_stats, print_stats}
use rdma_pmem.Options.{Options}
use rdma_pmem.Common.Addr.{get_rdma_addr}
use rdma_pmem.Common.Wait.{create_first_event_channel}
use rdma_pmem.Events.{
  Test, Variant, node_at, set_node, set_context, count_connect_error, connect_events,
  disconnect_events,
}
use rdma_pmem.Session.Nodes.{each_node, all_nodes, alloc_nodes, destroy_nodes, poll_one_wc}

-- run_server: the part after connect_events
exchange_metadata : (fuel : ℕ) → Config → Test → Cmd ℤ
unfolding each_node poll_one_wc
exchange_metadata fuel c test = do
  ret ← all_nodes (λ node. do server_set_metadata c node; post_send_metadata c node) c test
  if is_zero ret then poll_one_wc fuel c send_cq_index test else pure ret

-- `if (message_count)`, where the program has it
abbrev works : Variant → Test → Bool
works v test = if v.counts_messages then not (is_zero test.message_count) else true

-- run_server: from the start of the threads to their end
serve_until_disconnected : Variant → (fuel : ℕ) → Config → Test → Cmd (ℤ × Test)
unfolding each_node
serve_until_disconnected v fuel c test = do
  when (is_some v.server_worker)
      (do all_nodes (λ node. do call (pthread_create node.id); pure (pos 0)) c test; pure tt)
  (ret, test) ← disconnect_events v c fuel test
  when (is_some v.server_worker)
      (do all_nodes (λ node. do call (pthread_cancel node.id); pure (pos 0)) c test; pure tt)
  pure (ret, test)

-- run_server: the part after connect_events
serve_connections : Variant → (fuel : ℕ) → Config → Test → Cmd (ℤ × Test)
unfolding exchange_metadata serve_until_disconnected
serve_connections v fuel c test = do
  ret ← if works v test then exchange_metadata fuel c test else pure (pos 0)
  if is_zero ret then serve_until_disconnected v fuel c test else pure (ret, test)

-- run_server: the part between `rdma_create_id` and the label `out`
listen_and_serve : Variant → (fuel : ℕ) → Options → Ptr → Test → Cmd (ℤ × Test)
unfolding serve_connections
listen_and_serve v fuel o listen_id test = do
  let c = o.config
  (ret, rai) ← get_rdma_addr o.src_addr o.dst_addr o.port o.hints
  let test = record test { rai = rai }
  if not (is_zero ret) then pure (ret, test) else if is_null rai then crash else do
    call (load_src_addr rai)
    ret ← call_int (bind_addr listen_id)
    if not (is_zero ret) then pure (ret, test) else do
      ret ← call_int (listen listen_id)
      if not (is_zero ret) then pure (ret, test) else do
        (ret, test) ← connect_events v c fuel test
        if not (is_zero ret) then pure (ret, test) else serve_connections v fuel c test

unfoldable pub run_server : Variant → (fuel : ℕ) → Options → Test → Cmd (ℤ × Test)
unfolding listen_and_serve
run_server v fuel o test = do
  (ret, listen_id) ← λ w t. let t' = create_id test.channel ∷ t in ok (w.int t', w.ptr t') t'
  if not (is_zero ret) then pure (ret, test) else do
    (ret, test) ← listen_and_serve v fuel o listen_id test
    call (destroy_id listen_id)
    pure (ret, test)

-- run_client: the threads are joined in turn; the statistics that they leave
join_workers : Variant → (fuel : ℕ) → Config → (k i : ℕ) → Test → Cmd (Test × List Statistics)
join_workers v fuel c zero i test = pure (test, [])
join_workers v fuel c (suc k) i test = do
  node ← node_at test i
  node ← v.worker fuel c node
  call (pthread_join i)
  (test, rest) ← join_workers v fuel c k (i + 1) (set_node test i node)
  pure (test, node.statistics ∷ rest)

-- run_client: the measurement
measure : Variant → (fuel : ℕ) → Options → Test → Cmd (ℤ × Test)
unfolding each_node join_workers
measure v fuel o test = do
  let c = o.config
  all_nodes (λ node. do call (pthread_create node.id); pure (pos 0)) c test
  call (nanosleep o.prepare_time)
  call store_begin
  call (nanosleep o.sleep_time)
  call store_stop
  (test, stats) ← join_workers v fuel c (node_count c) 0 test
  total ← total_stats c stats
  print_stats v.measures_send c total
  pure (pos 0, test)

-- run_client: from "receiving metadata" to the printed figures
receive_and_measure : Variant → (fuel : ℕ) → Options → Test → Cmd (ℤ × Test)
unfolding each_node poll_one_wc measure
receive_and_measure v fuel o test = do
  let c = o.config
  ret ← poll_one_wc fuel c recv_cq_index test
  if not (is_zero ret) then pure (ret, test) else do
    all_nodes (λ node. do print_metadata c node; pure (pos 0)) c test
    measure v fuel o test

-- run_client: from connect_events to the label `disc`
connect_and_measure : Variant → (fuel : ℕ) → Options → Test → Cmd (ℤ × Test)
unfolding receive_and_measure
connect_and_measure v fuel o test = do
  let c = o.config
  (ret, test) ← connect_events v c fuel test
  if not (is_zero ret)
      then pure (ret, test)
      else if works v test
      then receive_and_measure v fuel o test
      else pure (pos 0, test)

-- run_client: what is under the label `disc`
disconnect_all : Variant → (fuel : ℕ) → Config → ℤ → Test → Cmd (ℤ × Test)
unfolding each_node
disconnect_all v fuel c ret test = do
  all_nodes (λ node. do call (disconnect node.cma_id); pure (pos 0)) c test
  (ret2, test) ← disconnect_events v c fuel test
  pure (if is_zero ret2 then ret else ret2, test)

unfoldable pub run_client : Variant → (fuel : ℕ) → Options → Test → Cmd (ℤ × Test)
unfolding connect_and_measure disconnect_all each_node
run_client v fuel o test = do
  let c = o.config
  (ret, rai) ← get_rdma_addr o.src_addr o.dst_addr o.port o.hints
  let test = record test { rai = rai }
  if not (is_zero ret) then pure (ret, test) else do
    ret ←
        all_nodes (λ node. if is_null rai then crash else call_int (resolve_addr node.cma_id)) c
          test
    if not (is_zero ret)
        then pure (ret, count_connect_error test)
        else do (ret, test) ← connect_and_measure v fuel o test; disconnect_all v fuel c ret test

-- `test` as main sets it up
abbrev pub initial_test : Config → Ptr → Test
initial_test c channel = record {
  channel = channel;
  nodes_ptr = 0;
  nodes = [];
  conn_index = 0;
  connects_left = c.connections;
  disconnects_left = pos 0;
  rai = 0;
  pmem = record { base = 0; mapped_len = 0; is_pmem = false };
  message_count = c.message_count;
  context = λ id. none;
}

-- main from the loop over the options on: the exit status
unfoldable pub run_main : Variant → (fuel : ℕ) → Options → (uninit : ℤ) → Cmd ℤ
unfolding run_server run_client alloc_nodes destroy_nodes
run_main v fuel o uninit = do
  let c = o.config
  let is_client = not (is_null o.dst_addr)
  channel ← create_first_event_channel
  if is_null channel then pure (pos 1) else do
    (ret, test) ← alloc_nodes v c is_client uninit (initial_test c channel)
    if not (is_zero ret) then pure (pos 1) else do
      let hints = o.hints
      (ret, test) ←
          if is_client
          then run_client v fuel o test
          else run_server v fuel (record o { hints = record hints { passive = true } }) test
      destroy_nodes c test
      call (destroy_event_channel channel)
      when (not (is_null test.rai)) (call (freeaddrinfo test.rai))
      pure ret
