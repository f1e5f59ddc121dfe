-- ===== src/Scenarios/Servers.antt =====
-- Runs of the servers of rwbenchmark and rdma-example and of the client of rdma-example, and the
-- theorems about them at those runs.
use rdma_pmem.Prelude.{◌+◌, ◌≡◌, refl, some, List, [], ◌∷◌, length}
use rdma_pmem.Prelude.Int.{ℤ, pos}
use rdma_pmem.World.{Ptr, calloc, Trace, World, Run, fault, trace_of}
use rdma_pmem.Rw.{
  Text, Client, get_addr, rdma_buffer_register, rdma_buffer_deregister, process_rdma_cm_event,
  acknowledge, process_work_completion_events, reap_events, reap, after_reap,
}
use rdma_pmem.Rw.Init
use rdma_pmem.Rw.Init.{
  await_event, connect_client, post_metadata, pre_post, create_pair, create_queue, create_channel,
  create_resources, find_route, resolve_server, create_client_id, open_channel,
}
use rdma_pmem.Rw.Release.{deregistered}
use rdma_pmem.Rw.Session
use rdma_pmem.Rw.Worker
use rdma_pmem.Rw.Worker.{Options}
use rdma_pmem.Rw.Server
use rdma_pmem.Rw.Server.{Layout, Opt, opt_a, opt_p}
use rdma_pmem.RdmaExample.Server as Example
use rdma_pmem.RdmaExample.Client.{client_main}
use rdma_pmem.RdmaExample.Resources.{registered, callocs, freed}
use rdma_pmem.RdmaExample.Released.{server_main-Releases}
use rdma_pmem.RdmaExample.Unset.{dst_at, unset_client, client_main_faults_without_src}
use rdma_pmem.Scenarios.{demo, value_of}
use rdma_pmem.Scenarios.Transfers.{answering}

abbrev address : Text
address = record { c_str = 70; size = 9 }

abbrev port : Text
port = record { c_str = 80; size = 4 }

abbrev empty : Text
empty = record { c_str = 0; size = 0 }

abbrev server_options : List Opt
server_options = opt_a address ∷ opt_p port ∷ []

-- a client connects, and disconnects when it has its buffer
abbrev served : Run ℤ
served = Example.server_main 9 (λ str. some 2000) empty 50 60 server_options demo []

server_main-Releases_example :
    (registered demo (trace_of served) + 0 ≡ 0 + deregistered (trace_of served))
    × (callocs demo (trace_of served) + 0 ≡ 0 + freed (trace_of served))
unfolding Example.server_main Server.parse Example.serve_client Example.init get_addr
    Example.open_channel Example.create_server_id Example.await_client process_rdma_cm_event
    acknowledge Example.set_client_up Session.set_up Session.create_channel Session.create_queue
    Session.create_pair Session.use_pair rdma_buffer_register Session.post_metadata
    Example.accept_client Example.cleanup Example.exchange_metadata_with_client Example.print_buffer
    Example.rdma_buffer_free Example.release Example.release_buffers Session.describe_buffer
    Session.exchange_metadata Session.rdma_buffer_alloc Session.send_metadata after_reap
    process_work_completion_events rdma_buffer_deregister reap reap_events
server_main-Releases_example =
    server_main-Releases demo 9 (λ str. some 2000) empty 50 60 server_options []
      {t' = trace_of served} (λ t. refl) refl

abbrev options : Options
options = record {
  server_addr = address;
  server_port = port;
  text = record { c_str = 40; size = 5 };
}

-- the first allocation of 6 bytes fails
abbrev short_ptr : Trace → Ptr
short_ptr (calloc n ∷ new ∷ []) = 0
short_ptr t = length t + 100

abbrev short : World
short = record answering { ptr = short_ptr }

abbrev unset : Client
unset = unset_client options short [] (λ str. some 2000) 50 60

abbrev set_up : Run (ℤ × Client)
set_up = Init.init unset short (dst_at options short [])

client_main_faults_without_src_example :
    client_main 9 (λ str. some 2000) 50 60 options [] short [] ≡ fault (trace_of set_up)
unfolding Init.init Worker.parse get_addr open_channel create_client_id resolve_server await_event
    process_rdma_cm_event acknowledge find_route create_resources create_channel create_queue
    create_pair pre_post rdma_buffer_register post_metadata connect_client
client_main_faults_without_src_example =
    client_main_faults_without_src 9 (λ str. some 2000) 50 60 options options [] short []
      {c = (value_of (pos 1, unset) set_up).1} {t' = trace_of set_up} refl refl refl refl refl
