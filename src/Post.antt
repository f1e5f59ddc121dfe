-- ===== src/Post.antt =====
-- The work requests of pmrdmabenchmark/src/wsbenchmark.c, post_recv_metadata to post_send_write,
-- and those of wibenchmark.c and wrbenchmark.c that differ. The fields that C leaves
-- uninitialised for an opcode that does not use them are 0.
pub mod Outcomes
use rdma_pmem.Prelude.{ℕ, if◌then◌else◌, Bool, false, ◌∷◌}
use rdma_pmem.Prelude.Int.{ℤ, pos}
use rdma_pmem.World.{
  Ptr, Mr, BufferAttr, Opcode, wr_send, wr_rdma_write, wr_rdma_read, wr_rdma_write_with_imm, RecvWr,
  SendWr, post_recv, post_send, load_metadata, Cmd, ok, pure, ◌>>=◌, crash, call_int,
}
use rdma_pmem.Node.{
  Config, Node, is_null, metadata_size, flush_request_size, flush_notification_size,
}
use rdma_pmem.Setup.{deref}

-- `ibv_post_recv(node->cma_id->qp, ...)` and `ibv_post_send(node->cma_id->qp, ...)`
abbrev pub submit_recv : Node → RecvWr → Cmd ℤ
submit_recv node wr = if is_null node.cma_id then crash else call_int (post_recv node.cma_id wr)

abbrev pub submit_send : Node → SendWr → Cmd ℤ
submit_send node wr = if is_null node.cma_id then crash else call_int (post_send node.cma_id wr)

-- a receive of `length` bytes at `addr` in the region `mr`
abbrev pub recv_request : Node → ℕ → Ptr → ℕ → Mr → RecvWr
recv_request node offset addr length mr = record {
  node = node.id;
  offset = offset;
  num_sge = 1;
  addr = addr;
  length = length;
  lkey = mr.lkey;
}

-- a send of `length` bytes at `addr` in the region `mr`
abbrev pub send_request : Node → ℕ → Bool → Ptr → ℕ → Mr → SendWr
send_request node offset signaled addr length mr = record {
  node = node.id;
  offset = offset;
  opcode = wr_send;
  signaled = signaled;
  addr = addr;
  length = length;
  lkey = mr.lkey;
  rkey = 0;
  remote_addr = 0;
  imm_data = 0;
}

unfoldable pub post_recv_metadata : Node → Cmd ℤ
post_recv_metadata node = do
  mr ← deref node.server_metadata_mr
  submit_recv node (recv_request node 0 node.server_metadata metadata_size mr)

unfoldable pub post_recv_flush : Node → Cmd ℤ
post_recv_flush node = do
  mr ← deref node.flush_request_buff_mr
  submit_recv node (recv_request node 100 node.flush_request_buff flush_request_size mr)

-- the offset of the request's id is 200 in wsbenchmark.c and 0 in wibenchmark.c
unfoldable pub post_recv_notification : ℕ → Node → Cmd ℤ
post_recv_notification offset node = do
  mr ← deref node.flush_notification_buff_mr
  submit_recv node
      (recv_request node offset node.flush_notification_buff flush_notification_size mr)

-- wibenchmark.c: a receive with no buffer, for the immediate data
unfoldable pub post_recv_imm : Node → Cmd ℤ
post_recv_imm node =
    submit_recv node
      (record { node = node.id; offset = 0; num_sge = 0; addr = 0; length = 0; lkey = 0 })

unfoldable pub post_send_metadata : Config → Node → Cmd ℤ
post_send_metadata c node =
    if node.connected
    then (do
      mr ← deref node.server_metadata_mr
      submit_send node (send_request node 0 c.no_ack node.server_metadata metadata_size mr))
    else pure (pos 0)

unfoldable pub post_send_notification : Config → Node → Cmd ℤ
post_send_notification c node =
    if node.connected
    then (do
      mr ← deref node.flush_notification_buff_mr
      submit_send node
          (send_request node 100 c.no_ack node.flush_notification_buff flush_notification_size mr))
    else pure (pos 0)

unfoldable pub post_send_flush : Config → Node → Cmd ℤ
post_send_flush c node =
    if node.connected
    then (do
      mr ← deref node.flush_request_buff_mr
      submit_send node
          (send_request node 200 c.no_ack node.flush_request_buff flush_request_size mr))
    else pure (pos 0)

-- the server's address and key, which it sent to the metadata buffer
unfoldable pub load_server : Node → Cmd BufferAttr
load_server node = if is_null node.server_metadata then crash else λ w t.
    let t' = load_metadata node.server_metadata ∷ t in ok (w.attr t') t'

-- the request of an RDMA operation between a local buffer and the server's region
abbrev pub rdma_request : Node → Opcode → Bool → Ptr → ℕ → Mr → BufferAttr → ℕ → SendWr
rdma_request node opcode signaled addr length mr attr imm = record {
  node = node.id;
  offset = 0;
  opcode = opcode;
  signaled = signaled;
  addr = addr;
  length = length;
  lkey = mr.lkey;
  rkey = attr.key;
  remote_addr = attr.address;
  imm_data = imm;
}

unfoldable pub post_send_write : Config → Node → Cmd ℤ
unfolding load_server
post_send_write c node =
    if node.connected
    then (do
      mr ← deref node.src_mem_mr
      attr ← load_server node
      submit_send node (rdma_request node wr_rdma_write false mr.addr c.message_size mr attr 0))
    else pure (pos 0)

-- wibenchmark.c
unfoldable pub post_send_write_with_imm : Config → Node → Cmd ℤ
unfolding load_server
post_send_write_with_imm c node =
    if node.connected
    then (do
      mr ← deref node.src_mem_mr
      attr ← load_server node
      submit_send node
          (rdma_request node wr_rdma_write_with_imm false mr.addr c.message_size mr attr 4321))
    else pure (pos 0)

-- wrbenchmark.c: the read of no bytes that flushes the writes before it
unfoldable pub post_send_read : Config → Node → Cmd ℤ
unfolding load_server
post_send_read c node =
    if node.connected
    then (do
      mr ← deref node.mr
      attr ← load_server node
      submit_send node (rdma_request node wr_rdma_read c.no_ack node.mem 0 mr attr 0))
    else pure (pos 0)
