-- ===== src/Rw/Session.antt =====
-- class ClientSession of rwbenchmark/src/server.cpp, one connection of the server. The functions
-- that this file shares with common.cpp are the same text. The constructor leaves all members but
-- cm_client_id uninitialised. What such a member holds is up to the world, and goes to the calls
-- that get it.
pub mod Serving
pub mod Setup
use rdma_pmem.Prelude.{ℕ, if◌then◌else◌, not, false, Option, none, some, ◌∷◌, u32}
use rdma_pmem.Prelude.Int.{ℤ, pos, eqb_ℤ}
use rdma_pmem.World.{
  Ptr, Mr, BufferAttr, QpAttr, Access, local_write, local_remote_write, wr_send, calloc, free,
  load_metadata, store_metadata, alloc_pd, create_comp_channel, create_cq, req_notify_cq, create_qp,
  load_qp, post_recv_sge, post_send_sge, destroy_qp, destroy_id, destroy_cq, destroy_comp_channel,
  dealloc_pd, dereg_mr, load_uninitialised, Cmd, ok, pure, ◌>>=◌, ◌>>◌, crash, call, call_int,
  call_ptr,
}
use rdma_pmem.Node.{is_null, enomem, metadata_size}
use rdma_pmem.Setup.{deref, deregister}
use rdma_pmem.Rw.{
  sge_of, or_errno, rdma_buffer_register, rdma_buffer_deregister, process_work_completion_events,
}
use rdma_pmem.Rw.Init.{then_client, checked, allocated}
use rdma_pmem.Rw.Transfer.{load_attr, described}

-- `none` is an uninitialised member; a region may also be NULL. `client_metadata` and
-- `server_metadata` are the addresses of the two members of type rdma_buffer_attr.
pub record Session : Type 0 where
  pub cm_client_id : Ptr
  pub pd : Option Ptr
  pub cq : Option Ptr
  pub qp : Option Ptr
  pub io_completion_channel : Option Ptr
  pub client_metadata_mr : Option (Option Mr)
  pub server_buffer_mr : Option (Option Mr)
  pub server_metadata_mr : Option (Option Mr)
  pub client_metadata : Ptr
  pub server_metadata : Ptr

-- the constructor of an object with these members' addresses
abbrev pub new_session : (client_metadata server_metadata cm_client_id : Ptr) → Session
new_session client_metadata server_metadata cm_client_id = record {
  cm_client_id = cm_client_id;
  pd = none;
  cq = none;
  qp = none;
  io_completion_channel = none;
  client_metadata_mr = none;
  server_buffer_mr = none;
  server_metadata_mr = none;
  client_metadata = client_metadata;
  server_metadata = server_metadata;
}

-- the value of a pointer member
abbrev pub value_of : Option Ptr → Cmd Ptr
value_of none = call_ptr load_uninitialised
value_of (some p) = pure p

-- the same of a region
abbrev pub region_of : Option (Option Mr) → Cmd (Option Mr)
region_of none w t = let t' = load_uninitialised ∷ t in ok (w.mr t') t'
region_of (some mr) w t = ok mr t

-- `-EINVAL`
abbrev pub einval : ℤ
einval = ℤ.negsuc 21

-- `qp_init_attr`
abbrev pub qp_attr : (cq : Ptr) → QpAttr
qp_attr cq = record {
  max_send_wr = 8;
  max_recv_wr = 8;
  sq_sig_all = false;
  send_cq = cq;
  recv_cq = cq;
}

-- setup_connection with `rest` in place of its last `return`: Server::init of
-- rdma-example/src/server.cpp has the same text, and goes on
module _ (rest : Session → Cmd (ℤ × Session)) where
  -- the receive of the client's metadata, if its region is registered
  unfoldable pub post_metadata : Option Mr → (qp : Ptr) → Session → Cmd (ℤ × Session)
  post_metadata none qp s = pure (enomem, s)
  post_metadata (some mr) qp s = do
    ret ← call_int (post_recv_sge qp (sge_of mr))
    then_client ret s (rest s)

  -- from the read of the queue pair on
  unfoldable pub use_pair : (pd qp : Ptr) → Session → Cmd (ℤ × Session)
  use_pair pd qp s = if is_null qp then pure (einval, s) else do
    mr ← rdma_buffer_register pd s.client_metadata metadata_size local_write
    post_metadata mr qp (record s { client_metadata_mr = some mr })

  -- the queue pair, and what follows it
  unfoldable pub create_pair : (pd cq : Ptr) → Session → Cmd (ℤ × Session)
  create_pair pd cq s = do
    ret ← call_int (create_qp s.cm_client_id pd (qp_attr cq))
    checked ret s
        (do qp ← call_ptr (load_qp s.cm_client_id); use_pair pd qp (record s { qp = some qp }))

  -- the completion queue, and what follows it
  unfoldable pub create_queue : (pd channel : Ptr) → Session → Cmd (ℤ × Session)
  create_queue pd channel s = do
    cq ← call_ptr (create_cq s.cm_client_id 16 channel)
    let s = record s { cq = some cq }
    allocated cq s (do ret ← call_int (req_notify_cq cq); checked ret s (create_pair pd cq s))

  -- the completion channel, and what follows it
  unfoldable pub create_channel : (pd : Ptr) → Session → Cmd (ℤ × Session)
  create_channel pd s = do
    channel ← call_ptr (create_comp_channel s.cm_client_id)
    let s = record s { io_completion_channel = some channel }
    allocated channel s (create_queue pd channel s)

  unfoldable pub set_up : Session → Cmd (ℤ × Session)
  set_up s = if is_null s.cm_client_id then crash else do
    pd ← call_ptr (alloc_pd s.cm_client_id)
    let s = record s { pd = some pd }
    allocated pd s (create_channel pd s)

unfoldable pub setup_connection : Session → Cmd (ℤ × Session)
setup_connection = set_up λ s. pure (pos 0, s)

unfoldable pub rdma_buffer_alloc : (pd : Ptr) → (size : ℕ) → Access → Cmd (Option Mr)
rdma_buffer_alloc pd size access = if is_null pd then pure none else do
  buf ← call_ptr (calloc size)
  if is_null buf then pure none else do
    mr ← rdma_buffer_register pd buf size access
    elim mr as (λ mr. Cmd (Option Mr)) [
      | none ↦ (do call (free buf); pure none)
      | some mr ↦ pure (some mr)
    ]

-- "send metadata", of the server's buffer
unfoldable pub send_metadata :
    (fuel : ℕ) → Option Mr → (channel : Ptr) → Session → Cmd (ℤ × Session)
send_metadata fuel none channel s = pure (enomem, s)
send_metadata fuel (some mr) channel s = do
  qp ← value_of s.qp
  ret ← call_int (
      post_send_sge qp wr_send
        (record { addr = s.server_metadata; length = metadata_size; lkey = mr.lkey }) none)
  checked ret s (do
    ret ← process_work_completion_events fuel channel 1
    pure (if eqb_ℤ ret (pos 1) then pos 0 else ret, s))

-- exchange_metadata from the allocation of the server's buffer on
unfoldable pub describe_buffer :
    (fuel : ℕ) → Option Mr → (pd channel : Ptr) → Session → Cmd (ℤ × Session)
describe_buffer fuel none pd channel s = pure (enomem, s)
describe_buffer fuel (some buffer) pd channel s = do
  call (store_metadata s.server_metadata (described buffer))
  mr ← rdma_buffer_register pd s.server_metadata metadata_size local_write
  send_metadata fuel mr channel (record s { server_metadata_mr = some mr })

unfoldable pub exchange_metadata : (fuel : ℕ) → Session → Cmd (ℤ × Session)
exchange_metadata fuel s = do
  channel ← value_of s.io_completion_channel
  ret ← process_work_completion_events fuel channel 1
  if not (eqb_ℤ ret (pos 1)) then pure (ret, s) else do
    attr ← load_attr s.client_metadata
    pd ← value_of s.pd
    buffer ← rdma_buffer_alloc pd attr.length local_remote_write
    describe_buffer fuel buffer pd channel (record s { server_buffer_mr = some buffer })

unfoldable pub teardown : Session → Cmd ℤ
teardown s = do
  call (destroy_qp s.cm_client_id)
  call (destroy_id s.cm_client_id)
  cq ← value_of s.cq
  call (destroy_cq cq)
  channel ← value_of s.io_completion_channel
  call (destroy_comp_channel channel)
  region ← region_of s.server_buffer_mr
  buffer ← deref region
  call (dereg_mr (some buffer))
  call (free buffer.addr)
  mr ← region_of s.server_metadata_mr
  deregister mr
  mr ← region_of s.client_metadata_mr
  deregister mr
  pd ← value_of s.pd
  call (dealloc_pd pd)
  pure (pos 0)
