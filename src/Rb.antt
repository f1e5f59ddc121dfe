-- ===== src/Rb.antt =====
-- The parts of pmrdmabenchmark/src/rbenchmark.c that the other programs do not share. It measures
-- reads, and `message_count`, an option, says whether it does: init_node sets it to 0 where the
-- messages are empty.
use rdma_pmem.Prelude.{ℕ, ◌==◌, if◌then◌else◌, false, not, ◌||◌, Option, some, true}
use rdma_pmem.Prelude.Int.{ℤ, pos, is_zero, to_unsigned}
use rdma_pmem.World.{
  Mapping, QpAttr, wr_rdma_read, calloc, alloc_pd, create_cq, create_qp, Cmd, pure, ◌>>=◌, ◌>>◌,
  crash, call_int, call_ptr,
}
use rdma_pmem.Node.{Config, Node, is_null, enomem, plain_statistics_size, no_statistics}
use rdma_pmem.Setup
use rdma_pmem.Setup.{deref, print_metadata, create_metadata}
use rdma_pmem.Post.{load_server, submit_send, rdma_request}
use rdma_pmem.Poll.{send_cq_index, node_poll_n_cq, get_time_ns}
use rdma_pmem.Stats.{PlainSample, record_plain}
use rdma_pmem.Client.{and_then, worker}

-- `message_count` is what create_message leaves
unfoldable pub create_message : Config → Mapping → (message_count : ℤ) → Node → Cmd (ℤ × Node × ℤ)
create_message c pmem message_count node = do
  let count = if c.message_size == 0 then pos 0 else message_count
  if is_zero count
      then pure (pos 0, node, count)
      else do (ret, node) ← Setup.create_message c pmem node; pure (ret, node, count)

-- init_node from "allocate metadata buffer and mr" on
unfoldable pub init_buffers : Config → Mapping → ℤ → Node → Cmd (ℤ × Node × ℤ)
init_buffers c pmem count node = do
  (ret, node) ← create_metadata node
  if not (is_zero ret)
      then pure (ret, node, count)
      else do print_metadata c node; create_message c pmem count node

-- `cqe`, as its 32 bits
abbrev pub queue_size : (message_count : ℤ) → ℕ
queue_size count = if is_zero count then 1 else to_unsigned count

abbrev pub qp_attr : ℤ → Node → QpAttr
qp_attr count node = record {
  max_send_wr = queue_size count;
  max_recv_wr = queue_size count;
  sq_sig_all = true;
  send_cq = node.send_cq;
  recv_cq = node.recv_cq;
}

unfoldable pub init_node : Config → Mapping → (message_count : ℤ) → Node → Cmd (ℤ × Node × ℤ)
init_node c pmem count node = do
  stats ← call_ptr (calloc plain_statistics_size)
  let node = record node { stats = stats; statistics = no_statistics }
  if is_null stats then pure (enomem, node, count) else if is_null node.cma_id then crash else do
    pd ← call_ptr (alloc_pd node.cma_id)
    let node = record node { pd = pd }
    if is_null pd then pure (enomem, node, count) else do
      send ← call_ptr (create_cq node.cma_id (queue_size count) 0)
      recv ← call_ptr (create_cq node.cma_id (queue_size count) 0)
      let node = record node { send_cq = send; recv_cq = recv }
      if is_null send || is_null recv then pure (enomem, node, count) else do
        ret ← call_int (create_qp node.cma_id node.pd (qp_attr count node))
        if not (is_zero ret) then pure (ret, node, count) else init_buffers c pmem count node

-- the read of a whole message into the node's buffer
unfoldable pub post_send_read : Config → Node → Cmd ℤ
unfolding load_server
post_send_read c node =
    if node.connected
    then (do
      mr ← deref node.mr
      attr ← load_server node
      submit_send node (rdma_request node wr_rdma_read false node.mem c.message_size mr attr 0))
    else pure (pos 0)

-- one round; `none` is `return NULL`
unfoldable pub rb_round : (fuel : ℕ) → Config → Node → Cmd (Option PlainSample)
rb_round fuel c node = do
  start ← get_time_ns
  and_then (post_send_read c node) (
      and_then (node_poll_n_cq fuel 8 node send_cq_index 1)
        (do finish ← get_time_ns; pure (some (record { start = start; finish = finish }))))

unfoldable pub rb_worker : (fuel : ℕ) → Config → Node → Cmd Node
unfolding worker rb_round
rb_worker = worker record_plain rb_round
