-- ===== src/Node.antt =====
-- The data of pmrdmabenchmark/src/wsbenchmark.c: the options, `struct statistics` and
-- `struct benchmark_node`. A node of wibenchmark.c is one whose flush request buffer and completion
-- channel stay NULL. A pointer to memory that only the program uses comes with what it points to.
use rdma_pmem.Prelude.{ℕ, ◌==◌, Bool, false, Option, none}
use rdma_pmem.Prelude.Int.{ℤ, pos_part}
use rdma_pmem.World.{Ptr, Mr}

-- the options, and the macro NO_ACK
pub record Config : Type 0 where
  pub no_ack : Bool
  pub connections : ℤ
  pub message_size : ℕ
  pub use_pmem : Bool
  pub debug_log : Bool
  pub csv_output : Bool
  pub set_tos : Bool
  -- `message_count`, which only rbenchmark.c has
  pub message_count : ℤ

pub record Statistics : Type 0 where
  pub ops : ℕ
  pub latency : ℕ
  pub last_latency : ℕ
  pub jitter : ℕ
  pub elapsed_nanoseconds : ℕ
  pub send_latency : ℕ
  pub last_send_latency : ℕ
  pub send_jitter : ℕ

-- `memset` to 0, and what `calloc` gives
abbrev pub no_statistics : Statistics
no_statistics = record {
  ops = 0;
  latency = 0;
  last_latency = 0;
  jitter = 0;
  elapsed_nanoseconds = 0;
  send_latency = 0;
  last_send_latency = 0;
  send_jitter = 0;
}

pub record Node : Type 0 where
  pub id : ℕ
  pub cma_id : Ptr
  pub connected : Bool
  pub pd : Ptr
  pub send_cq : Ptr
  pub recv_cq : Ptr
  pub mr : Option Mr
  pub src_mem_mr : Option Mr
  pub server_metadata_mr : Option Mr
  pub flush_request_buff_mr : Option Mr
  pub flush_notification_buff_mr : Option Mr
  pub stats : Ptr
  pub statistics : Statistics
  pub server_metadata : Ptr
  pub flush_request_buff : Ptr
  pub flush_notification_buff : Ptr
  pub comp_channel : Ptr
  pub src_mem : Ptr
  pub mem : Ptr

-- a node as `memset` and the loop of `alloc_nodes` leave it
abbrev pub fresh_node : ℕ → Node
fresh_node i = record {
  id = i;
  cma_id = 0;
  connected = false;
  pd = 0;
  send_cq = 0;
  recv_cq = 0;
  mr = none;
  src_mem_mr = none;
  server_metadata_mr = none;
  flush_request_buff_mr = none;
  flush_notification_buff_mr = none;
  stats = 0;
  statistics = no_statistics;
  server_metadata = 0;
  flush_request_buff = 0;
  flush_notification_buff = 0;
  comp_channel = 0;
  src_mem = 0;
  mem = 0;
}

-- `p == NULL`
abbrev pub is_null : Ptr → Bool
is_null p = p == 0

-- `i < connections` holds for so many `i` from 0
abbrev pub node_count : Config → ℕ
node_count c = pos_part c.connections

-- `-1`, `-ENOMEM`
abbrev pub failure : ℤ
failure = ℤ.negsuc 0

abbrev pub enomem : ℤ
enomem = ℤ.negsuc 11

-- sizes of the packed structures, and of `struct statistics`
abbrev pub metadata_size : ℕ
metadata_size = 16

abbrev pub flush_request_size : ℕ
flush_request_size = 12

abbrev pub flush_notification_size : ℕ
flush_notification_size = 9

abbrev pub statistics_size : ℕ
statistics_size = 64

-- without the three figures of the part from the send on
abbrev pub plain_statistics_size : ℕ
plain_statistics_size = 40
