-- ===== src/Scenarios.antt =====
-- One behaviour of the outside world, runs of the programs in it, and the theorems at those runs.
pub mod Threads
pub mod Sessions
pub mod Transfers
pub mod Serving
pub mod Servers
pub mod Interleavings
use rdma_pmem.Prelude.{
  ℕ, ◌+◌, ◌≤◌, ◌<◌, ◌⊎◌, ltb, leb, Bool, ◌≡◌, refl, ◌==◌, ◌||◌, if◌then◌else◌, true, false, Option,
  none, some, List, [], ◌∷◌, length, arith, u64,
}
use rdma_pmem.Prelude.Int.{ℤ, pos, is_zero}
use rdma_pmem.World.{
  Ptr, Mr, Mapping, wc_recv, wc_recv_rdma_with_imm, EventType, connect_request, established,
  disconnected, poll_cq, errno, load_stop, reg_mr, free, ack_cm_event, Trace, World, Run, ok, fault,
  out_of_fuel, trace_of,
}
use rdma_pmem.Node.{Config, Node, Statistics, no_statistics, fresh_node, failure}
use rdma_pmem.Setup.{
  create_metadata, create_flush_buffers, create_message, print_metadata, destroy_node,
}
use rdma_pmem.Setup.Regions.{create_message-disjoint}
use rdma_pmem.Setup.Release.{frees, owned, destroy_node-frees, create_metadata_not_destroyed}
use rdma_pmem.Stats.{Sample, record_sample, record_all, Report, print_stats}
use rdma_pmem.Stats.Jitter.{total, variation, duration, send_duration, record_all_fresh}
use rdma_pmem.Stats.Reports.{Reports, print_stats-Reports}
use rdma_pmem.Options.{
  Opt, opt_pmem, opt_c, opt_v, Libc, Options, Parsed, parsed, ws_parse, wi_parse, default_options,
}
use rdma_pmem.Programs.{Program}
use rdma_pmem.Programs.Pmem.{parse_use_pmem}
use rdma_pmem.Common.Buf.{Verifier, format_buf, verify_buf}
use rdma_pmem.Common.Buf.RoundTrip.{verdict, format_buf-verify_buf}
use rdma_pmem.Common.Sizes.{size_str}
use rdma_pmem.Common.Sizes.Rounding.{Says, size_str-Says}
use rdma_pmem.Post.{
  post_recv_flush, post_send_write, load_server, post_recv_notification, post_send_flush,
}
use rdma_pmem.Ws
use rdma_pmem.Wi
use rdma_pmem.Wi.Persistence.{persists, wi_server_persists_nothing}
use rdma_pmem.Wi.Protocol
use rdma_pmem.Wi.Protocol.{wi_server_worker-Ordered}
use rdma_pmem.Client.{ws_worker}
use rdma_pmem.Client.Figures.{stop_reads, Records}
use rdma_pmem.Client.Figures.Rounds.{ws_worker-Records}
use rdma_pmem.Client.Protocol.{Armed, ws_worker-Armed}
use rdma_pmem.Poll.{send_cq_index, node_poll_n_cq, poll_loop, get_time_ns}
use rdma_pmem.Poll.Progress.{collected, polls, node_poll_n_cq-Collects, node_poll_n_cq_returns}
use rdma_pmem.Ws.Protocol.{Ordered, server_worker-Ordered}
use rdma_pmem.Ws.Resources.{HasAll, pair_at, init_node-HasAll}
use rdma_pmem.Events.{Test, connect_events, disconnect_events}
use rdma_pmem.Events.Accounting.{Accounts, connect_events-Accounts, disconnect_events-Accounts}
use rdma_pmem.Session.{initial_test}
use rdma_pmem.Session.Nodes.{alloc_nodes}
use rdma_pmem.Session.Placement.{create_message-within}
use rdma_pmem.Session.Allocation.{alloc_nodes_reports_success}
use rdma_pmem.Programs.{ws}
use rdma_pmem.Programs.Quiet.{ws-Quiet}

-- every call succeeds: a poll yields one completion, and each pointer is new
abbrev demo_int : Trace → ℤ
demo_int (poll_cq cq n ∷ t) = pos 1
demo_int (errno ∷ t) = pos 5
demo_int _ = pos 0

abbrev demo_ptr : Trace → Ptr
demo_ptr t = length t + 100

abbrev demo_mr : Trace → Option Mr
demo_mr (reg_mr pd addr size access ∷ t) =
    some (record { addr = addr; length = size; lkey = 1; rkey = 2 })
demo_mr _ = none

-- a connection is asked for and made, and then it ends
abbrev pub count_acked : Trace → ℕ
count_acked [] = 0
count_acked (ack_cm_event e ∷ t) = count_acked t + 1
count_acked (x ∷ t) = count_acked t

abbrev demo_kind : ℕ → EventType
demo_kind n = if n == 0 then connect_request else if n == 1 then established else disconnected

abbrev demo : World
demo = record {
  int = demo_int;
  ptr = demo_ptr;
  mr = demo_mr;
  attr = λ t. record { address = 1000; length = 64; key = 7 };
  wc_opcode = λ t. wc_recv;
  event = λ t. record { event = demo_kind (count_acked t); id = 900; status = pos 0 };
  mapping = λ t. record { base = 5000; mapped_len = 4096; is_pmem = true };
  time = λ t. record { tv_sec = pos 1; tv_nsec = length t };
  source_addr = λ t. record { addr = 1; len = 16 };
  flag = λ t. true;
  size = λ t. 5;
  wc_status = λ t i. 0;
  freed_event = λ t. some (record { event = established; id = 900; status = pos 0 });
  freed_context = λ t. some 0;
}

abbrev config : Config
config = record {
  no_ack = true;
  connections = pos 1;
  message_size = 64;
  use_pmem = true;
  debug_log = false;
  csv_output = true;
  set_tos = false;
  message_count = pos 1;
}

abbrev mapping : Mapping
mapping = record { base = 5000; mapped_len = 4096; is_pmem = true }

abbrev node : Node
node = let n = fresh_node 0 in record n { cma_id = 900; connected = true }

abbrev value_of {ℓ} : {A : Type ℓ} → A → Run A → A
value_of other (ok a t) = a
value_of other (fault t) = other
value_of other (out_of_fuel t) = other

abbrev made : ℤ × Node
made = value_of (pos 1, node) (Ws.init_node config mapping node demo [])

abbrev made_at : Trace
made_at = trace_of (Ws.init_node config mapping node demo [])

made_returns : is_zero made.0 ≡ true
unfolding Ws.init_node Ws.init_queues Ws.init_buffers Ws.init_flush create_metadata
    create_flush_buffers create_message print_metadata
made_returns = refl

init_node-HasAll_example : HasAll made.1 × (is_zero (demo.int (pair_at config node demo [])) ≡ true)
unfolding Ws.init_node Ws.init_queues Ws.init_buffers Ws.init_flush create_metadata
    create_flush_buffers create_message print_metadata
init_node-HasAll_example =
    init_node-HasAll config mapping node demo [] {r = made} {t' = made_at} (λ t. refl) refl refl

server_worker-Ordered_example :
    Ordered demo config made.1 (trace_of (Ws.server_worker 3 config made.1 demo []))
server_worker-Ordered_example = server_worker-Ordered demo config made.1 3 [] tt

-- the nodes of a server, whose file is mapped, and the buffer of the first
abbrev allocated : Run (ℤ × Test)
allocated = alloc_nodes ws config false (pos 0) (initial_test config 1) demo []

abbrev with_nodes : Test
with_nodes = (value_of (pos 1, initial_test config 1) allocated).1

abbrev placed : ℤ × Node
placed = value_of (pos 1, node) (create_message config with_nodes.pmem node demo [])

create_message-within_example :
    (with_nodes.pmem.base ≤ placed.1.mem)
    × (placed.1.mem + 64 ≤ with_nodes.pmem.base + with_nodes.pmem.mapped_len)
unfolding alloc_nodes create_message
create_message-within_example =
    create_message-within ws config false (pos 0) (initial_test config 1) 1 node (fresh_node 0) demo
      [] [] {r = value_of (pos 1, initial_test config 1) allocated} {q = placed}
      {t' = trace_of allocated} {s' = trace_of (create_message config with_nodes.pmem node demo [])}
      refl refl (omega arith) (omega arith) refl refl refl (omega arith) refl

abbrev pair : Config
pair = record config { connections = pos 2 }

abbrev second : Node
second = record node { id = 1 }

abbrev buffer_of : Node → ℤ × Node
buffer_of n = value_of (pos 1, n) (create_message pair mapping n demo [])

create_message-disjoint_example : (buffer_of node).1.mem + 64 ≤ (buffer_of second).1.mem
unfolding create_message
create_message-disjoint_example =
    create_message-disjoint pair mapping 2 refl refl (omega arith) demo node second [] []
      {r = buffer_of node} {q = buffer_of second}
      {t' = trace_of (create_message pair mapping node demo [])}
      {s' = trace_of (create_message pair mapping second demo [])} (omega arith) (omega arith) refl
      refl

destroy_node-frees_example :
    (t' : Trace) × (destroy_node config made.1 demo [] ≡ ok tt t')
    × (frees made.1.src_mem t' ≡ 0 + owned config made.1 made.1.src_mem)
unfolding Ws.init_node Ws.init_queues Ws.init_buffers Ws.init_flush create_metadata
    create_flush_buffers create_message print_metadata
destroy_node-frees_example =
    destroy_node-frees config made.1 demo [] made.1.src_mem refl (refl, refl, refl)

-- no memory is registered
abbrev unregistered : World
unregistered = record demo { mr = λ t. none }

create_metadata_not_destroyed_example :
    (r : ℤ × Node) × (t' : Trace) × (t'' : Trace) × (create_metadata node unregistered [] ≡ ok r t')
    × (is_zero r.0 ≡ false)
    × (frees 101 t' ≡ frees 101 [] + 1)
    × (destroy_node config r.1 unregistered t' ≡ fault t'')
create_metadata_not_destroyed_example =
    create_metadata_not_destroyed config node unregistered [] refl refl refl refl refl

abbrev samples : List Sample
samples =
    record { start = 10; send_start = 12; finish = 20 }
    ∷ record { start = 30; send_start = 31; finish = 47 }
    ∷ []

record_all_fresh_example :
    let stats = record_all record_sample no_statistics samples in
    (stats.ops ≡ u64 (length samples))
    × (stats.latency ≡ u64 (total duration samples))
    × (stats.jitter
        ≡ u64 (variation duration 10 (record { start = 30; send_start = 31; finish = 47 } ∷ [])))
    × (stats.send_latency ≡ u64 (total send_duration samples))
    × (stats.send_jitter
        ≡ u64
            (variation send_duration 8 (record { start = 30; send_start = 31; finish = 47 } ∷ [])))
record_all_fresh_example =
    record_all_fresh (record { start = 10; send_start = 12; finish = 20 })
      (record { start = 30; send_start = 31; finish = 47 } ∷ []) (omega arith)

samples_figures : (record_all record_sample no_statistics samples).jitter ≡ 7
unfolding record_all record_sample
samples_figures = refl

abbrev two_rounds : Statistics
two_rounds = record no_statistics { ops = 2; latency = 27; jitter = 7 }

print_stats-Reports_example :
    ((r : Report) × (1 < 2)
      × (print_stats true config two_rounds demo [] ≡ ok r [])
      × Reports two_rounds 1 r)
    ⊎ ((2 ≤ 1) × (print_stats true config two_rounds demo [] ≡ fault []))
print_stats-Reports_example = print_stats-Reports true config two_rounds demo [] (omega arith)

-- `atoi` and the others on made-up pointers
abbrev libc : Libc
libc = record {
  atoi = λ p. pos p;
  strtoul = λ p. p;
  strncasecmp = λ s p n. pos 1;
  strlen = λ p. 20;
}

abbrev arguments : List Opt
arguments = opt_c 3 ∷ opt_pmem 77 ∷ opt_v ∷ []

abbrev options_of : Parsed → Options
options_of (parsed o) = o
options_of _ = default_options true 0

parse_use_pmem_example : (options_of (ws_parse libc 0 arguments)).config.use_pmem ≡ true
unfolding ws_parse
parse_use_pmem_example =
    parse_use_pmem Program.wsbenchmark libc 0 arguments {o = options_of (ws_parse libc 0 arguments)}
      refl

format_buf-verify_buf_example :
    (r : ℕ × List ℕ) × (format_buf 255 (pos 2) (0 ∷ 0 ∷ 9 ∷ []) ≡ some r)
    × (verify_buf (record { expected = 255; total_bytes = 4 }) (pos 2) r.1
        ≡ some (verdict 255 r.0 (pos 2) (record { expected = 255; total_bytes = 4 })))
format_buf-verify_buf_example =
    format_buf-verify_buf 255 (record { expected = 255; total_bytes = 4 }) (pos 2) (0 ∷ 0 ∷ 9 ∷ [])
      (omega arith) (omega arith)

size_str-Says_example : Says (size_str (pos 1536)) 1536
size_str-Says_example = size_str-Says 1536

abbrev unmapped : World
unmapped = record demo { mapping = λ t. record { base = 0; mapped_len = 0; is_pmem = false } }

alloc_nodes_reports_success_example :
    (test' : Test) × (t' : Trace) × (alloc_nodes ws config true
        (pos 3)
        (initial_test config 1)
        unmapped
        []
      ≡ ok (pos 0, test') (free test'.nodes_ptr ∷ t'))
    × (test'.nodes ≡ [])
alloc_nodes_reports_success_example =
    alloc_nodes_reports_success ws config (pos 3) (initial_test config 1) unmapped [] refl refl
      (λ s n. ground arith) (λ s. refl) (λ s. refl)

-- the server of one connection, before and after it is made
abbrev listening : Test
listening =
    let test = initial_test config 1 in record test { nodes = fresh_node 0 ∷ []; pmem = mapping }

abbrev connected : ℤ × Test
connected = value_of (pos 1, listening) (connect_events ws config 9 listening demo [])

abbrev connected_at : Trace
connected_at = trace_of (connect_events ws config 9 listening demo [])

connect_events-Accounts_example :
    (connected.1.connects_left ≡ pos 0) × Accounts listening [] connected.1 connected_at
unfolding connect_events Ws.init_node Ws.init_queues Ws.init_buffers Ws.init_flush create_metadata
    create_flush_buffers create_message print_metadata post_recv_flush
connect_events-Accounts_example =
    connect_events-Accounts ws config demo (ws-Quiet demo) 9 listening [] {r = connected}
      {t' = connected_at} refl refl

abbrev ended : ℤ × Test
ended = value_of (pos 1, listening) (disconnect_events ws config 9 connected.1 demo connected_at)

abbrev ended_at : Trace
ended_at = trace_of (disconnect_events ws config 9 connected.1 demo connected_at)

disconnect_events-Accounts_example :
    (ended.1.disconnects_left ≡ pos 0) × Accounts connected.1 connected_at ended.1 ended_at
unfolding connect_events disconnect_events Ws.init_node Ws.init_queues Ws.init_buffers Ws.init_flush
    create_metadata create_flush_buffers create_message print_metadata post_recv_flush
disconnect_events-Accounts_example =
    disconnect_events-Accounts ws config demo (ws-Quiet demo) 9 connected.1 connected_at {r = ended}
      {t' = ended_at} refl refl
