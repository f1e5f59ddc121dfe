-- ===== src/Setup/Outcomes.antt =====
-- When the functions that make a node's buffers succeed.
use rdma_pmem.Prelude.{◌≡◌, true, false, is_some, arith}
use rdma_pmem.Prelude.Int.{ℤ, is_zero}
use rdma_pmem.World.{Mapping, Trace, World, ok}
use rdma_pmem.Node.{Config, Node, is_null}
use rdma_pmem.Setup.{create_message, create_metadata, create_flush_buffers}

-- the fields that create_message leaves alone
pub record KeepsSetup (node node' : Node) : Type 0 where
  pub id : node'.id ≡ node.id
  pub cma_id : node'.cma_id ≡ node.cma_id
  pub connected : node'.connected ≡ node.connected
  pub pd : node'.pd ≡ node.pd
  pub send_cq : node'.send_cq ≡ node.send_cq
  pub recv_cq : node'.recv_cq ≡ node.recv_cq
  pub stats : node'.stats ≡ node.stats
  pub comp_channel : node'.comp_channel ≡ node.comp_channel

pub record HasMetadata (node : Node) : Type 0 where
  pub server_metadata : is_null node.server_metadata ≡ false
  pub server_metadata_mr : is_some node.server_metadata_mr ≡ true

pub record HasFlushBuffers (node : Node) : Type 0 where
  pub flush_request_buff : is_null node.flush_request_buff ≡ false
  pub flush_request_buff_mr : is_some node.flush_request_buff_mr ≡ true
  pub flush_notification_buff : is_null node.flush_notification_buff ≡ false
  pub flush_notification_buff_mr : is_some node.flush_notification_buff_mr ≡ true

pub record HasMessage (node : Node) : Type 0 where
  pub mem : is_null node.mem ≡ false
  pub mr : is_some node.mr ≡ true
  pub src_mem : is_null node.src_mem ≡ false
  pub src_mem_mr : is_some node.src_mem_mr ≡ true

module _ (node : Node) (w : World) (t : Trace) {r : ℤ × Node} {t' : Trace} where
  pub create_metadata_ok :
      create_metadata node w t ≡ ok r t'
      → is_zero r.0 ≡ true
      → HasMetadata r.1 × KeepsSetup node r.1
  unfolding create_metadata
  create_metadata_ok e z = ground arith

  pub create_flush_buffers_ok :
      create_flush_buffers node w t ≡ ok r t'
      → is_zero r.0 ≡ true
      → HasFlushBuffers r.1 × KeepsSetup node r.1 × (HasMetadata node → HasMetadata r.1)
  unfolding create_flush_buffers
  create_flush_buffers_ok e z = ground arith

  pub create_message_ok :
      (c : Config) (pmem : Mapping)
      → create_message c pmem node w t ≡ ok r t'
      → is_zero r.0 ≡ true
      → HasMessage r.1
        × KeepsSetup node r.1
        × (HasMetadata node → HasMetadata r.1)
        × (HasFlushBuffers node → HasFlushBuffers r.1)
  unfolding create_message
  create_message_ok c pmem e z = ground arith
