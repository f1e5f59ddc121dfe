-- ===== src/Wi.antt =====
-- The parts of pmrdmabenchmark/src/wibenchmark.c that the other programs do not share: its buffers,
-- init_node, and the thread that serves one connection. The client writes with immediate data, so
-- the server needs no request in a buffer.
pub mod Protocol
pub mod Persistence
use rdma_pmem.Prelude.{ℕ, zero, suc, if◌then◌else◌, Bool, true, false, not, ◌||◌, ◌&&◌, is_some}
use rdma_pmem.Prelude.Int.{ℤ, pos, is_zero, is_neg, eqb_ℤ}
use rdma_pmem.World.{
  Mapping, local_write, calloc, free, alloc_pd, create_cq, create_qp, pmem_persist, WcOpcode,
  wc_recv_rdma_with_imm, Cmd, pure, ◌>>=◌, ◌>>◌, crash, exhausted, call, call_int, call_ptr,
}
use rdma_pmem.Node.{
  Config, Node, is_null, failure, enomem, flush_notification_size, statistics_size, no_statistics,
}
use rdma_pmem.Setup.{print_metadata, create_metadata, create_message, register, when}
use rdma_pmem.Post.{post_recv_imm, post_send_notification}
use rdma_pmem.Poll.{send_cq_index, node_poll_n_cq, poll_one}
use rdma_pmem.Ws.{qp_attr}

unfoldable pub create_flush_buffers : Node → Cmd (ℤ × Node)
create_flush_buffers node = do
  buffer ← call_ptr (calloc flush_notification_size)
  let node = record node { flush_notification_buff = buffer }
  if is_null buffer then pure (failure, node) else do
    mr ← register node.pd buffer flush_notification_size local_write
    let node = record node { flush_notification_buff_mr = mr }
    if is_some mr then pure (pos 0, node) else (do call (free buffer); pure (failure, node))

-- init_node from "allocate metadata buffer and mr" on
unfoldable pub init_buffers : Config → Mapping → Node → Cmd (ℤ × Node)
init_buffers c pmem node = do
  (ret, node) ← create_metadata node
  if not (is_zero ret) then pure (ret, node) else do
    print_metadata c node
    (ret, node) ← create_flush_buffers node
    if not (is_zero ret) then pure (ret, node) else create_message c pmem node

unfoldable pub init_node : Config → Mapping → Node → Cmd (ℤ × Node)
init_node c pmem node = do
  stats ← call_ptr (calloc statistics_size)
  let node = record node { stats = stats; statistics = no_statistics }
  if is_null stats then pure (enomem, node) else if is_null node.cma_id then crash else do
    pd ← call_ptr (alloc_pd node.cma_id)
    let node = record node { pd = pd }
    if is_null pd then pure (enomem, node) else do
      send ← call_ptr (create_cq node.cma_id 1 0)
      recv ← call_ptr (create_cq node.cma_id 1 0)
      let node = record node { send_cq = send; recv_cq = recv }
      if is_null send || is_null recv then pure (enomem, node) else do
        ret ← call_int (create_qp node.cma_id node.pd (qp_attr c node))
        if not (is_zero ret) then pure (ret, node) else init_buffers c pmem node

abbrev pub is_recv_imm : WcOpcode → Bool
is_recv_imm wc_recv_rdma_with_imm = true
is_recv_imm _ = false

-- server_worker: what follows the completion of a write with immediate data
answer : (fuel : ℕ) → Config → Node → Cmd Bool
answer fuel c node = do
  when c.use_pmem (call (pmem_persist node.mem c.message_size))
  ret ← post_recv_imm node
  if not (is_zero ret) then pure false else do
    ret ← post_send_notification c node
    if not (is_zero ret)
        then pure false
        else do ret ← node_poll_n_cq fuel 8 node send_cq_index 1; pure (is_zero ret)

-- server_worker: one round of `while (true)`; `true` if the thread goes on
serve : (fuel : ℕ) → Config → Node → Cmd Bool
unfolding answer
serve fuel c node = do
  (ret, opcode) ← poll_one node.recv_cq
  if is_neg ret
      then pure false
      else if eqb_ℤ ret (pos 1) && is_recv_imm opcode
      then answer fuel c node
      else pure true

unfoldable pub server_worker : (fuel : ℕ) → Config → Node → Cmd (Unit {0})
unfolding serve
server_worker zero c node = exhausted
server_worker (suc fuel) c node = do
  go_on ← serve fuel c node
  if go_on then server_worker fuel c node else pure tt
