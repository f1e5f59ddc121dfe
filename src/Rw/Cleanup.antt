-- ===== src/Rw/Cleanup.antt =====
-- Client::cleanup of rwbenchmark/src/client.cpp.
use rdma_pmem.Prelude.{if◌then◌else◌, Option, none, some, ◌∷◌}
use rdma_pmem.Prelude.Int.{ℤ, pos, is_zero}
use rdma_pmem.World.{
  Ptr, Call, Event, load_freed_event, crash, ok, fault, disconnected, free, dealloc_pd, destroy_cq,
  destroy_comp_channel, destroy_event_channel, destroy_id, destroy_qp, disconnect, Cmd, pure, ◌>>=◌,
  ◌>>◌, call,
}
use rdma_pmem.Node.{is_null}
use rdma_pmem.Rw.{Client, process_rdma_cm_event, acknowledge, rdma_buffer_deregister}

-- a call that follows its pointer
abbrev pub follow : Ptr → Call → Cmd (Unit {0})
follow p c = if is_null p then crash else call c

-- "Destroy memory buffers" and the buffers themselves
unfoldable pub release_buffers : Client → Cmd (Unit {0})
release_buffers client = do
  rdma_buffer_deregister client.server_metadata_mr
  rdma_buffer_deregister client.client_metadata_mr
  rdma_buffer_deregister client.client_src_mr
  rdma_buffer_deregister client.client_dst_mr
  call (free client.src)
  call (free client.dst)

-- from "Destroy QP" on
unfoldable pub release : Client → Cmd (Unit {0})
release client = do
  follow client.cm_client_id (destroy_qp client.cm_client_id)
  follow client.cm_client_id (destroy_id client.cm_client_id)
  follow client.client_cq (destroy_cq client.client_cq)
  follow client.io_completion_channel (destroy_comp_channel client.io_completion_channel)
  release_buffers client
  follow client.pd (dealloc_pd client.pd)
  follow client.cm_event_channel (destroy_event_channel client.cm_event_channel)

-- rdma_ack_cm_event follows the event; where process_rdma_cm_event has failed with an event, it has
-- acknowledged and so freed it, and the world says whether its memory can still be followed
abbrev pub follow_event : (ret : ℤ) → Option Event → Cmd (Unit {0})
follow_event ret none w t = ok tt t
follow_event ret (some e) w t =
    if is_zero ret
    then ok tt t
    else let t' = load_freed_event ∷ t in
      elim (w.freed_event t') [ none ↦ fault t' | some freed ↦ ok tt t' ]

-- the disconnect, with the event that says so
unfoldable pub await_disconnect : Client → Cmd (Unit {0})
await_disconnect client = do
  follow client.cm_client_id (disconnect client.cm_client_id)
  (ret, cm_event) ← process_rdma_cm_event client.cm_event_channel disconnected none
  acknowledge cm_event
  follow_event ret cm_event

unfoldable pub cleanup : Client → Cmd ℤ
cleanup client = do await_disconnect client; release client; pure (pos 0)
