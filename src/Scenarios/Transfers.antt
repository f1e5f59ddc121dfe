-- ===== src/Scenarios/Transfers.antt =====
-- Runs of the client of rwbenchmark, and the theorems about it at those runs.
use rdma_pmem.Prelude.{
  ℕ, ◌+◌, ◌≡◌, ◌⊎◌, refl, ◌==◌, if◌then◌else◌, Option, some, none, [], ◌∷◌, true,
}
use rdma_pmem.Prelude.Int.{ℤ, pos}
use rdma_pmem.World.{
  EventType, addr_resolved, route_resolved, established, disconnected, host_lookup, Trace, World,
  Run, ok, fault, trace_of,
}
use rdma_pmem.Setup.Release.{frees}
use rdma_pmem.Rw.{
  Text, Client, new_client, get_addr, rdma_buffer_register, rdma_buffer_deregister,
  process_rdma_cm_event, acknowledge, process_work_completion_events, reap_events, reap, after_reap,
}
use rdma_pmem.Rw.Init
use rdma_pmem.Rw.Init.{
  await_event, connect_client, post_metadata, pre_post, create_pair, create_queue, create_channel,
  create_resources, find_route, resolve_server, create_client_id, open_channel,
}
use rdma_pmem.Rw.Balance.{Balanced, came, acks}
use rdma_pmem.Rw.Balance.Setup.{init-Balanced}
use rdma_pmem.Rw.Resources.{HasAll, rw_init-HasAll}
use rdma_pmem.Rw.Completions.{Completes, Fails, process_work_completion_events-Ends}
use rdma_pmem.Rw.Transfer
use rdma_pmem.Rw.Cleanup
use rdma_pmem.Rw.Cleanup.{cleanup}
use rdma_pmem.Rw.Release.{deregistered, regions, one, cleanup-Releases, cleanup_acknowledges_twice}
use rdma_pmem.Rw.Startup.{dst_at, main_faults_without_server}
use rdma_pmem.Rw.Worker
use rdma_pmem.Rw.Worker.{Options, Opt, opt_a, Outcome, compared, rw_main}
use rdma_pmem.Scenarios.{demo, count_acked, value_of}

-- the server is found and answers, and the connection ends
abbrev next_kind : ℕ → EventType
next_kind n =
    if n == 0
    then addr_resolved
    else if n == 1
    then route_resolved
    else if n == 2
    then established
    else disconnected

abbrev pub answering : World
answering = record demo {
  event = λ t. record { event = next_kind (count_acked t); id = 900; status = pos 0 };
}

abbrev text : Text
text = record { c_str = 40; size = 5 }

abbrev client : Client
client = new_client 50 60 70 (some 2000)

abbrev connected : Run (ℤ × Client)
connected = Init.init client answering []

rw_init-HasAll_example : HasAll answering (value_of (pos 1, client) connected).1
unfolding Init.init get_addr rdma_buffer_register process_rdma_cm_event acknowledge await_event
    connect_client post_metadata pre_post create_pair create_queue create_channel create_resources
    find_route resolve_server create_client_id open_channel
rw_init-HasAll_example =
    rw_init-HasAll answering client [] {r = value_of (pos 1, client) connected}
      {t' = trace_of connected} (λ t. refl) refl refl

init-Balanced_example : Balanced answering (trace_of (Worker.init 9 text client answering []))
init-Balanced_example = init-Balanced answering 9 text client [] (λ t. refl) refl

abbrev two_completions : Run ℤ
two_completions = process_work_completion_events 9 80 2 answering []

process_work_completion_events-Ends_example :
    Completes answering 2 [] (pos 2) (trace_of two_completions)
    ⊎ Fails [] (pos 2) (trace_of two_completions)
unfolding process_work_completion_events reap_events reap after_reap
process_work_completion_events-Ends_example =
    process_work_completion_events-Ends answering 9 80 2 [] {ret = pos 2}
      {t' = trace_of two_completions} (λ t. refl) refl

-- the client that is connected, with its buffers and their regions
abbrev equipped : Client
equipped = record client {
  cm_event_channel = 101;
  cm_client_id = 102;
  pd = 103;
  io_completion_channel = 104;
  client_cq = 105;
  client_qp = 106;
  server_metadata_mr = some (record { addr = 60; length = 16; lkey = 1; rkey = 2 });
  client_src_mr = some (record { addr = 7; length = 64; lkey = 1; rkey = 2 });
  src = 7;
  dst = 8;
}

abbrev ending : World
ending = record answering { event = λ t. record { event = disconnected; id = 102; status = pos 0 } }

cleanup-Releases_example :
    (t' : Trace) × (cleanup equipped ending [] ≡ ok (pos 0) t')
    × (frees 7 t' ≡ 0 + one (equipped.src == 7) + one (equipped.dst == 7))
    × (deregistered t' ≡ 0 + regions equipped)
cleanup-Releases_example =
    cleanup-Releases equipped ending [] 7
      (record {
        cm_event_channel = refl;
        cm_client_id = refl;
        client_cq = refl;
        io_completion_channel = refl;
        pd = refl;
      })
      refl

-- the first event of this world is no disconnect
cleanup_acknowledges_twice_example :
    (came answering (trace_of (cleanup equipped answering [])) ≡ 0 + 1)
    × (acks (trace_of (cleanup equipped answering [])) ≡ 0 + 2)
cleanup_acknowledges_twice_example = cleanup_acknowledges_twice equipped answering [] refl refl

abbrev defaults : Options
defaults = record {
  server_addr = record { c_str = 41; size = 9 };
  server_port = record { c_str = 42; size = 4 };
  text = text;
}

abbrev unknown_server : Text
unknown_server = record { c_str = 43; size = 3 }

abbrev asked : Options
asked = record defaults { server_addr = unknown_server }

-- no address is found
abbrev missing_int : Trace → ℤ
missing_int (host_lookup name ∷ t) = ℤ.negsuc 1
missing_int _ = pos 0

abbrev offline : World
offline = record answering { int = missing_int }

main_faults_without_server_example :
    rw_main 9 (λ s. some 2000) 50 60 defaults (opt_a unknown_server ∷ []) offline []
    ≡ fault (
        host_lookup 43
        ∷ dst_at 9 (λ s. some 2000) 50 60 defaults asked (opt_a unknown_server ∷ []) offline [])
unfolding Worker.parse
main_faults_without_server_example =
    main_faults_without_server 9 (λ s. some 2000) 50 60 defaults asked (opt_a unknown_server ∷ [])
      offline [] refl refl refl refl

-- the whole program
abbrev whole : Run (Option Outcome)
whole = rw_main 9 (λ s. some 2000) 50 60 defaults [] answering []

whole_compares : value_of none whole ≡ some (compared true)
unfolding rw_main Worker.init Worker.run Worker.parse Transfer.set_src Transfer.alloc_dst
    Transfer.exchange_metadata_with_server Transfer.send_metadata Transfer.swap_metadata
    Transfer.send_write Transfer.send_read Transfer.transfer Transfer.complete Transfer.cmp_data
    Init.init get_addr rdma_buffer_register process_rdma_cm_event acknowledge await_event
    connect_client post_metadata pre_post create_pair create_queue create_channel create_resources
    find_route resolve_server create_client_id open_channel process_work_completion_events
    reap_events reap after_reap cleanup Cleanup.await_disconnect Cleanup.release
    Cleanup.release_buffers rdma_buffer_deregister
whole_compares = refl
