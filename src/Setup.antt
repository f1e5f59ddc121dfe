-- ===== src/Setup.antt =====
-- The buffers of a node (pmrdmabenchmark/src/wsbenchmark.c, create_message to
-- create_flush_buffers, and destroy_node): a function that writes fields of the node returns the
-- new node with its result.
pub mod Outcomes
pub mod Regions
pub mod Release
use rdma_pmem.Prelude.{
  ℕ, ◌+◌, ◌*◌, if◌then◌else◌, Bool, false, not, Option, none, some, is_some, ◌∷◌, u32,
}
use rdma_pmem.Prelude.Int.{ℤ, pos}
use rdma_pmem.World.{
  Ptr, Mr, Mapping, Access, local_write, local_remote_write, malloc, calloc, free, reg_mr, dereg_mr,
  load_metadata, store_metadata, load_qp, destroy_qp, destroy_cq, dealloc_pd, destroy_id, Cmd, ok,
  pure, ◌>>=◌, ◌>>◌, crash, call, call_ptr,
}
use rdma_pmem.Node.{
  Config, Node, is_null, failure, metadata_size, flush_request_size, flush_notification_size,
}

-- `ibv_reg_mr`; `none` is NULL
abbrev pub register : Ptr → Ptr → ℕ → Access → Cmd (Option Mr)
register pd addr length access w t = let t' = reg_mr pd addr length access ∷ t in ok (w.mr t') t'

-- a member of `*mr` is read
abbrev pub deref {ℓ} : {A : Type ℓ} → Option A → Cmd A
deref none = crash
deref (some a) = pure a

-- `ibv_dereg_mr`, which follows its argument
abbrev pub deregister : Option Mr → Cmd (Unit {0})
deregister none = crash
deregister (some mr) = call (dereg_mr (some mr))

-- create_message: its label `err`
release_message : Config → Node → Cmd (ℤ × Node)
release_message c node = do
  if c.use_pmem then pure tt else call (free node.mem)
  pure (failure, node)

-- create_message from "source buffer" on
create_source : Config → Node → Cmd (ℤ × Node)
unfolding release_message
create_source c node = do
  src ← call_ptr (malloc c.message_size)
  let node = record node { src_mem = src }
  if is_null src then pure (failure, node) else do
    mr ← register node.pd src c.message_size local_write
    let node = record node { src_mem_mr = mr }
    if is_some mr then pure (pos 0, node) else release_message c node

-- create_message: where the buffer for the remote operations lies
message_address : Config → Mapping → Node → Cmd Ptr
message_address c pmem node =
    if c.use_pmem
    then pure (pmem.base + u32 (c.message_size * node.id))
    else call_ptr (malloc c.message_size)

unfoldable pub create_message : Config → Mapping → Node → Cmd (ℤ × Node)
unfolding message_address create_source
create_message c pmem node = do
  mem ← message_address c pmem node
  let node = record node { mem = mem }
  if is_null mem
      then pure (failure, node)
      else if (if c.use_pmem then not pmem.is_pmem else false)
      then pure (failure, node)
      else do
        mr ← register node.pd mem c.message_size local_remote_write
        let node = record node { mr = mr }
        if is_some mr then create_source c node else release_message c node

-- print_metadata reads the buffer for its message
unfoldable pub print_metadata : Config → Node → Cmd (Unit {0})
print_metadata c node =
    if c.debug_log
    then (if is_null node.server_metadata then crash else call (load_metadata node.server_metadata))
    else pure tt

unfoldable pub server_set_metadata : Config → Node → Cmd (Unit {0})
unfolding print_metadata
server_set_metadata c node = if is_null node.server_metadata then crash else do
  mr ← deref node.mr
  call (
      store_metadata node.server_metadata
        (record { address = mr.addr; length = u32 mr.length; key = mr.rkey }))
  print_metadata c node

unfoldable pub create_metadata : Node → Cmd (ℤ × Node)
create_metadata node = do
  buffer ← call_ptr (calloc metadata_size)
  let node = record node { server_metadata = buffer }
  if is_null buffer then pure (failure, node) else do
    mr ← register node.pd buffer metadata_size local_write
    let node = record node { server_metadata_mr = mr }
    if is_some mr then pure (pos 0, node) else (do call (free buffer); pure (failure, node))

-- create_flush_buffers: its label `err`
release_flush_buffers : Node → Cmd (ℤ × Node)
release_flush_buffers node = do
  call (free node.flush_request_buff)
  call (free node.flush_notification_buff)
  pure (failure, node)

-- create_flush_buffers: the notification buffer
create_notification_buffer : Node → Cmd (ℤ × Node)
unfolding release_flush_buffers
create_notification_buffer node = do
  buffer ← call_ptr (calloc flush_notification_size)
  let node = record node { flush_notification_buff = buffer }
  if is_null buffer then pure (failure, node) else do
    mr ← register node.pd buffer flush_notification_size local_write
    let node = record node { flush_notification_buff_mr = mr }
    if is_some mr then pure (pos 0, node) else release_flush_buffers node

unfoldable pub create_flush_buffers : Node → Cmd (ℤ × Node)
unfolding create_notification_buffer
create_flush_buffers node = do
  buffer ← call_ptr (calloc flush_request_size)
  let node = record node { flush_request_buff = buffer }
  if is_null buffer then pure (failure, node) else do
    mr ← register node.pd buffer flush_request_size local_write
    let node = record node { flush_request_buff_mr = mr }
    if is_some mr then create_notification_buffer node else release_flush_buffers node

abbrev pub when : Bool → Cmd (Unit {0}) → Cmd (Unit {0})
when b m = if b then m else pure tt

-- destroy_node from `if (node->mem)` to `if (node->stats)`
destroy_buffers : Config → Node → Cmd (Unit {0})
destroy_buffers c node = do
  when (not (is_null node.mem))
      (do deregister node.mr; when (not c.use_pmem) (call (free node.mem)))
  when (not (is_null node.src_mem)) (do deregister node.src_mem_mr; call (free node.src_mem))
  when (not (is_null node.server_metadata))
      (do deregister node.server_metadata_mr; call (free node.server_metadata))
  when (not (is_null node.stats)) (call (free node.stats))

unfoldable pub destroy_node : Config → Node → Cmd (Unit {0})
unfolding destroy_buffers
destroy_node c node = if is_null node.cma_id then pure tt else do
  qp ← call_ptr (load_qp node.cma_id)
  when (not (is_null qp)) (call (destroy_qp node.cma_id))
  when (not (is_null node.send_cq)) (call (destroy_cq node.send_cq))
  when (not (is_null node.recv_cq)) (call (destroy_cq node.recv_cq))
  destroy_buffers c node
  when (not (is_null node.pd)) (call (dealloc_pd node.pd))
  call (destroy_id node.cma_id)
