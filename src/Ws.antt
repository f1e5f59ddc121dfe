-- ===== src/Ws.antt =====
-- The parts of pmrdmabenchmark/src/wsbenchmark.c that the other programs do not share: init_node,
-- and the thread that serves one connection.
pub mod Protocol
pub mod Resources
use rdma_pmem.Prelude.{ℕ, zero, suc, if◌then◌else◌, Bool, true, false, not, ◌||◌, ◌&&◌}
use rdma_pmem.Prelude.Int.{ℤ, pos, is_zero, is_neg, negate, eqb_ℤ}
use rdma_pmem.World.{
  Mapping, QpAttr, calloc, alloc_pd, create_comp_channel, create_cq, req_notify_cq, create_qp,
  errno, pmem_persist, WcOpcode, wc_recv, Cmd, pure, ◌>>=◌, ◌>>◌, crash, exhausted, call, call_int,
  call_ptr,
}
use rdma_pmem.Node.{Config, Node, is_null, enomem, statistics_size, no_statistics}
use rdma_pmem.Setup.{print_metadata, create_metadata, create_flush_buffers, create_message, when}
use rdma_pmem.Post.{post_recv_flush, post_send_notification}
use rdma_pmem.Poll.{send_cq_index, node_poll_n_cq, poll_one}

abbrev pub qp_attr : Config → Node → QpAttr
qp_attr c node = record {
  max_send_wr = if c.no_ack then 2 else 1;
  max_recv_wr = 1;
  sq_sig_all = not c.no_ack;
  send_cq = node.send_cq;
  recv_cq = node.recv_cq;
}

-- init_node from "allocate flush_request buffer and mr" on
unfoldable pub init_flush : Config → Mapping → Node → Cmd (ℤ × Node)
init_flush c pmem node = do
  (ret, node) ← create_flush_buffers node
  if not (is_zero ret) then pure (ret, node) else create_message c pmem node

-- init_node from "allocate metadata buffer and mr" on
unfoldable pub init_buffers : Config → Mapping → Node → Cmd (ℤ × Node)
init_buffers c pmem node = do
  (ret, node) ← create_metadata node
  if not (is_zero ret) then pure (ret, node) else do print_metadata c node; init_flush c pmem node

-- init_node from the creation of the completion queues on
unfoldable pub init_queues : Config → Mapping → Node → Cmd (ℤ × Node)
init_queues c pmem node = do
  send ← call_ptr (create_cq node.cma_id 1 0)
  recv ← call_ptr (create_cq node.cma_id 1 node.comp_channel)
  let node = record node { send_cq = send; recv_cq = recv }
  if is_null send || is_null recv then pure (enomem, node) else do
    asked ← call_int (req_notify_cq recv)
    if not (is_zero asked) then pure (pos 1, node) else do
      ret ← call_int (create_qp node.cma_id node.pd (qp_attr c node))
      if not (is_zero ret) then pure (ret, node) else init_buffers c pmem node

unfoldable pub init_node : Config → Mapping → Node → Cmd (ℤ × Node)
init_node c pmem node = do
  stats ← call_ptr (calloc statistics_size)
  let node = record node { stats = stats; statistics = no_statistics }
  if is_null stats then pure (enomem, node) else if is_null node.cma_id then crash else do
    pd ← call_ptr (alloc_pd node.cma_id)
    let node = record node { pd = pd }
    if is_null pd then pure (enomem, node) else do
      channel ← call_ptr (create_comp_channel node.cma_id)
      let node = record node { comp_channel = channel }
      if is_null channel
          then (do code ← call_int errno; pure (negate code, node))
          else init_queues c pmem node

abbrev pub is_recv : WcOpcode → Bool
is_recv wc_recv = true
is_recv _ = false

-- server_worker: the notification, and the wait for its completion
notify : (fuel : ℕ) → Config → Node → Cmd Bool
notify fuel c node = do
  ret ← post_send_notification c node
  if not (is_zero ret)
      then pure false
      else do ret ← node_poll_n_cq fuel 1 node send_cq_index 1; pure (is_zero ret)

-- server_worker: what follows the call of post_recv_flush, which returned `ret`
persist : (fuel : ℕ) → Config → Node → ℤ → Cmd Bool
unfolding notify
persist fuel c node ret =
    if not (is_zero ret)
    then pure false
    else do when c.use_pmem (call (pmem_persist node.mem c.message_size)); notify fuel c node

-- server_worker: what follows a completed flush request; `true` if the thread goes on
answer : (fuel : ℕ) → Config → Node → Cmd Bool
unfolding persist
answer fuel c node = do ret ← post_recv_flush node; persist fuel c node ret

-- server_worker: one round of `while (true)`
serve : (fuel : ℕ) → Config → Node → Cmd Bool
unfolding answer
serve fuel c node = do
  (ret, opcode) ← poll_one node.recv_cq
  if is_neg ret
      then pure false
      else if eqb_ℤ ret (pos 1) && is_recv opcode
      then answer fuel c node
      else pure true

-- the fuel bounds the rounds and the polls of each round; the thread returns when a call fails
unfoldable pub server_worker : (fuel : ℕ) → Config → Node → Cmd (Unit {0})
unfolding serve
server_worker zero c node = exhausted
server_worker (suc fuel) c node = do
  go_on ← serve fuel c node
  if go_on then server_worker fuel c node else pure tt
