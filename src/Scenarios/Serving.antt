-- ===== src/Scenarios/Serving.antt =====
-- A session of the server of rwbenchmark, and the theorems about it at that run.
use rdma_pmem.Prelude.{◌+◌, ◌≡◌, refl, ◌==◌, if◌then◌else◌, some, []}
use rdma_pmem.Prelude.Int.{ℤ, pos}
use rdma_pmem.World.{Mr, Trace, Run, ok, trace_of}
use rdma_pmem.Setup.Release.{frees}
use rdma_pmem.Rw.{
  rdma_buffer_register, process_work_completion_events, reap_events, reap, after_reap,
}
use rdma_pmem.Rw.Release.{deregistered}
use rdma_pmem.Rw.Session.{
  Session, new_session, create_channel, create_queue, create_pair, use_pair, post_metadata, set_up,
  setup_connection, rdma_buffer_alloc, describe_buffer, send_metadata, exchange_metadata, teardown,
}
use rdma_pmem.Rw.Session.Serving.{IsReady, exchange_metadata-teardown}
use rdma_pmem.Rw.Session.Setup.{setup_connection-IsReady}
use rdma_pmem.Scenarios.{value_of}
use rdma_pmem.Scenarios.Transfers.{answering}

abbrev session : Session
session = new_session 50 60 900

abbrev prepared : Run (ℤ × Session)
prepared = setup_connection session answering []

abbrev ready : Session
ready = (value_of (pos 1, session) prepared).1

setup_connection-IsReady_example : IsReady ready
unfolding setup_connection set_up create_channel create_queue create_pair use_pair post_metadata
    rdma_buffer_register
setup_connection-IsReady_example =
    setup_connection-IsReady answering session [] {r = value_of (pos 1, session) prepared}
      {t' = trace_of prepared} (λ t. refl) refl refl

ready-IsReady : IsReady ready
unfolding setup_connection set_up create_channel create_queue create_pair use_pair post_metadata
    rdma_buffer_register
ready-IsReady = record {
  pd = (_, refl, refl);
  cq = (_, refl, refl);
  qp = (_, refl, refl);
  channel = (_, refl, refl);
  metadata = (_, refl);
}

abbrev exchanged : Run (ℤ × Session)
exchanged = exchange_metadata 9 ready answering []

abbrev serving : Session
serving = (value_of (pos 1, session) exchanged).1

exchange_metadata-teardown_example :
    (buffer : Mr) × (t : Trace) × (serving.server_buffer_mr ≡ some (some buffer))
    × (teardown serving answering (trace_of exchanged) ≡ ok (pos 0) t)
    × (frees 7 t ≡ frees 7 (trace_of exchanged) + (if buffer.addr == 7 then 1 else 0))
    × (deregistered t ≡ deregistered (trace_of exchanged) + 3)
unfolding setup_connection set_up create_channel create_queue create_pair use_pair post_metadata
    rdma_buffer_register exchange_metadata process_work_completion_events reap_events reap
    after_reap rdma_buffer_alloc describe_buffer send_metadata
exchange_metadata-teardown_example =
    exchange_metadata-teardown 9 ready answering [] 7 {r = value_of (pos 1, session) exchanged}
      {t' = trace_of exchanged} (λ t. refl) ready-IsReady refl refl
