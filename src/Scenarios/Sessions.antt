-- ===== src/Scenarios/Sessions.antt =====
-- Runs of the programs whose servers have no threads, and the theorems about all five programs.
use rdma_pmem.Prelude.{leb, Bool, ◌≡◌, refl, true, [], ◌∷◌}
use rdma_pmem.Prelude.Int.{ℤ, pos}
use rdma_pmem.World.{load_stop, Trace, World, Run, ok, trace_of}
use rdma_pmem.Node.{Config, Node, Statistics}
use rdma_pmem.Setup.{create_metadata, create_message, print_metadata}
use rdma_pmem.Stats.{record_sample, record_all}
use rdma_pmem.Ws
use rdma_pmem.Client.Figures.{stop_reads}
use rdma_pmem.Events.{Test, connect_events}
use mathlib.Core.List.{map}
use rdma_pmem.Stats.{record_plain, total_stats}
use rdma_pmem.Stats.Plain.{plain, Agree, record_plain_agrees}
use rdma_pmem.Stats.Totals.{Totals, total_stats-Totals}
use rdma_pmem.Wr
use rdma_pmem.Wr.{wr_worker, wb_worker}
use rdma_pmem.Wr.Protocol.{Flushing, wr_worker-Flushing}
use rdma_pmem.Rb
use rdma_pmem.Events.Machine.{Implements}
use rdma_pmem.Programs.{Program, wr, rb}
use rdma_pmem.Programs.Machine.{connect_events-Implements}
use rdma_pmem.Programs.Counting.{Counts, connect_events-Counts}
use rdma_pmem.Scenarios.{demo, config, value_of, made, listening, two_rounds, samples}

-- the server of wrbenchmark.c with one connection, before and after it is made
abbrev wr_connected : ℤ × Test
wr_connected = value_of (pos 1, listening) (connect_events wr config 9 listening demo [])

abbrev wr_connected_at : Trace
wr_connected_at = trace_of (connect_events wr config 9 listening demo [])

connect_events-Implements_example : Implements listening [] wr_connected.1 wr_connected_at
unfolding connect_events Wr.init_node Wr.init_buffers create_metadata create_message print_metadata
connect_events-Implements_example =
    connect_events-Implements Program.wrbenchmark config 9 listening demo [] {r = wr_connected}
      {t' = wr_connected_at} refl

abbrev two_flags : Trace → Bool
two_flags (load_stop ∷ t) = leb 2 (stop_reads t)
two_flags _ = true

-- a client that makes two rounds
abbrev two_reads : World
two_reads = record demo { flag = two_flags }

abbrev writer : Run Node
writer = wb_worker 9 config made.1 two_reads []

-- the same with the flushing read
wr_worker-Flushing_example :
    Flushing two_reads config made.1 (trace_of (wr_worker 9 config made.1 two_reads []))
wr_worker-Flushing_example = wr_worker-Flushing two_reads config made.1 9 [] refl tt

record_plain_agrees_example :
    Agree
      (record_all record_plain two_rounds (map plain samples))
      (record_all record_sample two_rounds samples)
record_plain_agrees_example = record_plain_agrees two_rounds samples

total_stats-Totals_example :
    (total : Statistics) × (total_stats config (two_rounds ∷ []) demo [] ≡ ok total [])
    × Totals config (two_rounds ∷ []) total
total_stats-Totals_example = total_stats-Totals config (two_rounds ∷ []) demo [] refl

-- the server of rbenchmark.c, with empty messages
abbrev empty_messages : Config
empty_messages = record config { message_size = 0 }

abbrev rb_connected : Run (ℤ × Test)
rb_connected = connect_events rb empty_messages 9 listening demo []

rb_connected_count : (value_of (pos 1, listening) rb_connected).1.message_count ≡ pos 0
unfolding connect_events Rb.init_node Rb.init_buffers Rb.create_message create_metadata
    print_metadata
rb_connected_count = refl

connect_events-Counts_example :
    Counts empty_messages
      (pos 1)
      []
      (value_of (pos 1, listening) rb_connected).1.message_count
      (trace_of rb_connected)
unfolding connect_events Rb.init_node Rb.init_buffers Rb.create_message create_metadata
    print_metadata
connect_events-Counts_example =
    connect_events-Counts empty_messages 9 listening demo []
      {r = value_of (pos 1, listening) rb_connected} {t' = trace_of rb_connected} refl
