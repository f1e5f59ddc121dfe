-- ===== src/Scenarios/Threads.antt =====
-- Runs of the threads of wsbenchmark.c and wibenchmark.c, and the theorems at those runs.
use rdma_pmem.Prelude.{
  ◌+◌, ◌≤◌, ◌<◌, ltb, leb, Bool, ◌≡◌, refl, ◌==◌, ◌||◌, if◌then◌else◌, true, [], ◌∷◌, arith,
}
use rdma_pmem.Prelude.Int.{ℤ, pos}
use rdma_pmem.World.{wc_recv_rdma_with_imm, poll_cq, load_stop, Trace, World, Run, ok, trace_of}
use rdma_pmem.Node.{Node}
use rdma_pmem.Setup.{create_metadata, create_flush_buffers, create_message, print_metadata}
use rdma_pmem.Stats.{record_sample}
use rdma_pmem.Options.{wi_parse}
use rdma_pmem.Post.{post_send_write, load_server, post_recv_notification, post_send_flush}
use rdma_pmem.Ws
use rdma_pmem.Wi
use rdma_pmem.Wi.Persistence.{persists, wi_server_persists_nothing}
use rdma_pmem.Wi.Protocol
use rdma_pmem.Wi.Protocol.{wi_server_worker-Ordered}
use rdma_pmem.Client.{ws_worker}
use rdma_pmem.Client.Figures.{stop_reads, Records}
use rdma_pmem.Client.Figures.Rounds.{sample_readings, ws_worker-Records}
use rdma_pmem.Client.Protocol.{Armed, ws_worker-Armed}
use rdma_pmem.Poll.{send_cq_index, node_poll_n_cq, poll_loop, get_time_ns}
use rdma_pmem.Poll.Progress.{collected, polls, node_poll_n_cq-Collects, node_poll_n_cq_returns}
use rdma_pmem.Scenarios.{demo, config, node, value_of, made, libc, arguments, options_of}

-- a client whose node has its buffers and knows the server's
ws_worker-Armed_example : Armed demo made.1 (trace_of (ws_worker 9 config made.1 demo []))
ws_worker-Armed_example = ws_worker-Armed demo made.1 9 config [] tt

abbrev write_world : World
write_world = record demo { wc_opcode = λ t. wc_recv_rdma_with_imm }

wi_server_worker-Ordered_example :
    Protocol.Ordered write_world config made.1
      (trace_of (Wi.server_worker 3 config made.1 write_world []))
wi_server_worker-Ordered_example = wi_server_worker-Ordered write_world config made.1 3 [] tt

-- the first two polls yield nothing
abbrev slow_int : Trace → ℤ
slow_int (poll_cq cq n ∷ t) = if ltb (polls t) 2 || (n == 0) then pos 0 else pos 1
slow_int _ = pos 0

abbrev slow : World
slow = record demo { int = slow_int }

abbrev wait : Run ℤ
wait = node_poll_n_cq 6 1 node send_cq_index 3 slow []

five_calls : polls (trace_of wait) ≡ 5
unfolding node_poll_n_cq poll_loop
five_calls = refl

node_poll_n_cq-Collects_example :
    (collected slow 0 [] + 3 ≤ collected slow 0 (trace_of wait))
    × (collected slow 0 (trace_of wait) < collected slow 0 [] + 3 + 1)
unfolding node_poll_n_cq poll_loop
node_poll_n_cq-Collects_example =
    node_poll_n_cq-Collects 6 1 node send_cq_index 3 slow [] {ret = pos 0} {t' = trace_of wait}
      (λ cq n t. ground arith) refl (omega arith) refl refl

node_poll_n_cq_returns_example :
    (t' : Trace) × (node_poll_n_cq 6 1 node send_cq_index 3 slow [] ≡ ok (pos 0) t')
node_poll_n_cq_returns_example =
    node_poll_n_cq_returns 6 1 node send_cq_index 3 2 slow []
      (record { works = λ t. ground arith; yields = λ t h. ground arith }) (omega arith)

-- a client that makes two rounds
abbrev two_flags : Trace → Bool
two_flags (load_stop ∷ t) = leb 2 (stop_reads t)
two_flags _ = true

abbrev two_reads : World
two_reads = record demo { flag = two_flags }

abbrev client_run : Run Node
client_run = ws_worker 9 config made.1 two_reads []

client_rounds : (value_of node client_run).statistics.ops ≡ 2
unfolding Ws.init_node Ws.init_queues Ws.init_buffers Ws.init_flush create_metadata
    create_flush_buffers create_message print_metadata ws_worker post_send_write load_server
    post_recv_notification post_send_flush node_poll_n_cq poll_loop get_time_ns record_sample
client_rounds = refl

ws_worker-Records_example :
    Records two_reads sample_readings record_sample made.1 []
      (value_of node client_run)
      (trace_of client_run)
unfolding Ws.init_node Ws.init_queues Ws.init_buffers Ws.init_flush create_metadata
    create_flush_buffers create_message print_metadata ws_worker post_send_write load_server
    post_recv_notification post_send_flush node_poll_n_cq poll_loop get_time_ns
ws_worker-Records_example =
    ws_worker-Records 9 config made.1 two_reads [] {node' = value_of node client_run}
      {t' = trace_of client_run} refl

-- `--pmem` is among the arguments
wi_server_persists_nothing_example :
    persists (
      trace_of
        (Wi.server_worker 3 (options_of (wi_parse libc 0 arguments)).config made.1 write_world []))
    ≡ 0
unfolding wi_parse
wi_server_persists_nothing_example =
    wi_server_persists_nothing libc 0 arguments {o = options_of (wi_parse libc 0 arguments)} 3
      made.1 write_world [] refl
