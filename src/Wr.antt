-- ===== src/Wr.antt =====
-- The parts of pmrdmabenchmark/src/wrbenchmark.c and wbenchmark.c that the other programs do not
-- share: init_node, which the two have in common, and the rounds of their clients. Their servers
-- have no threads: the client of wrbenchmark.c flushes its write by a read, and that of
-- wbenchmark.c not at all.
pub mod Protocol
use rdma_pmem.Prelude.{ℕ, if◌then◌else◌, not, ◌||◌, Option, some}
use rdma_pmem.Prelude.Int.{ℤ, pos, is_zero}
use rdma_pmem.World.{
  Mapping, calloc, alloc_pd, create_cq, create_qp, Cmd, pure, ◌>>=◌, ◌>>◌, crash, call_int,
  call_ptr,
}
use rdma_pmem.Node.{Config, Node, is_null, enomem, plain_statistics_size, no_statistics}
use rdma_pmem.Setup.{print_metadata, create_metadata, create_message}
use rdma_pmem.Post.{post_send_write, post_send_read}
use rdma_pmem.Poll.{send_cq_index, node_poll_n_cq, get_time_ns}
use rdma_pmem.Stats.{PlainSample, record_plain}
use rdma_pmem.Ws.{qp_attr}
use rdma_pmem.Client.{and_then, worker}

-- init_node from "allocate metadata buffer and mr" on
unfoldable pub init_buffers : Config → Mapping → Node → Cmd (ℤ × Node)
init_buffers c pmem node = do
  (ret, node) ← create_metadata node
  if not (is_zero ret)
      then pure (ret, node)
      else do print_metadata c node; create_message c pmem node

unfoldable pub init_node : Config → Mapping → Node → Cmd (ℤ × Node)
init_node c pmem node = do
  stats ← call_ptr (calloc plain_statistics_size)
  let node = record node { stats = stats; statistics = no_statistics }
  if is_null stats then pure (enomem, node) else if is_null node.cma_id then crash else do
    pd ← call_ptr (alloc_pd node.cma_id)
    let node = record node { pd = pd }
    if is_null pd then pure (enomem, node) else do
      send ← call_ptr (create_cq node.cma_id 1 0)
      recv ← call_ptr (create_cq node.cma_id 1 0)
      let node = record node { send_cq = send; recv_cq = recv }
      if is_null send || is_null recv then pure (enomem, node) else do
        ret ← call_int (create_qp node.cma_id node.pd (qp_attr c node))
        if not (is_zero ret) then pure (ret, node) else init_buffers c pmem node

-- wrbenchmark.c, one round; `none` is `return NULL`
unfoldable pub wr_round : (fuel : ℕ) → Config → Node → Cmd (Option PlainSample)
wr_round fuel c node = do
  start ← get_time_ns
  and_then (post_send_write c node) (
      and_then (if c.no_ack then pure (pos 0) else node_poll_n_cq fuel 8 node send_cq_index 1) (
        and_then (post_send_read c node) (
          and_then (node_poll_n_cq fuel 8 node send_cq_index 1)
            (do finish ← get_time_ns; pure (some (record { start = start; finish = finish }))))))

-- wbenchmark.c, one round
unfoldable pub wb_round : (fuel : ℕ) → Config → Node → Cmd (Option PlainSample)
wb_round fuel c node = do
  start ← get_time_ns
  and_then (post_send_write c node) (
      and_then (node_poll_n_cq fuel 8 node send_cq_index 1)
        (do finish ← get_time_ns; pure (some (record { start = start; finish = finish }))))

unfoldable pub wr_worker : (fuel : ℕ) → Config → Node → Cmd Node
unfolding worker wr_round
wr_worker = worker record_plain wr_round

unfoldable pub wb_worker : (fuel : ℕ) → Config → Node → Cmd Node
unfolding worker wb_round
wb_worker = worker record_plain wb_round
