-- ===== src/World.antt =====
-- What the programs take from outside: the C library, libibverbs, librdmacm, libpmem and the other
-- threads. Every call of one of them, and every access to memory that a device or another thread
-- writes, is recorded in a trace. What it returns is a function of the trace up to and including
-- it, so a `World` is any behaviour of that outside code that depends on the past.
pub mod Keeps
pub mod After
pub mod Ensures
pub mod Triple
use rdma_pmem.Prelude.{ℕ, Bool, Option, List, ◌∷◌}
use rdma_pmem.Prelude.Int.{ℤ}

-- a pointer; 0 is NULL
abbrev pub Ptr : Type 0
Ptr = ℕ

-- `struct ibv_mr`
pub record Mr : Type 0 where
  pub addr : Ptr
  pub length : ℕ
  pub lkey : ℕ
  pub rkey : ℕ

pub data Access : Type 0 where
  local_write local_remote_write : Access

pub data Opcode : Type 0 where
  wr_send wr_rdma_write wr_rdma_read wr_rdma_write_with_imm : Opcode

-- the opcodes of work completions that the programs tell apart
pub data WcOpcode : Type 0 where
  wc_recv wc_recv_rdma_with_imm wc_other : WcOpcode

-- `struct ibv_recv_wr` with its one or no `struct ibv_sge`; the work request's id is the address
-- of node `node` plus `offset`
pub record RecvWr : Type 0 where
  pub node : ℕ
  pub offset : ℕ
  pub num_sge : ℕ
  pub addr : Ptr
  pub length : ℕ
  pub lkey : ℕ

-- `struct ibv_send_wr` with its `struct ibv_sge`
pub record SendWr : Type 0 where
  pub node : ℕ
  pub offset : ℕ
  pub opcode : Opcode
  pub signaled : Bool
  pub addr : Ptr
  pub length : ℕ
  pub lkey : ℕ
  pub rkey : ℕ
  pub remote_addr : ℕ
  pub imm_data : ℕ

-- a `struct ibv_sge` that the programs of rwbenchmark fill; the request that holds it has id 0
pub record Sge : Type 0 where
  pub addr : Ptr
  pub length : ℕ
  pub lkey : ℕ

-- `struct rdma_buffer_attr`
pub record BufferAttr : Type 0 where
  pub address : ℕ
  pub length : ℕ
  pub key : ℕ

-- the fields of `struct ibv_qp_init_attr` that are not zero, less its context and type and the
-- numbers of scatter/gather elements, which are constants of each program
pub record QpAttr : Type 0 where
  pub max_send_wr : ℕ
  pub max_recv_wr : ℕ
  pub sq_sig_all : Bool
  pub send_cq : Ptr
  pub recv_cq : Ptr

pub data EventType : Type 0 where
  addr_resolved route_resolved connect_request established : EventType
  addr_error route_error connect_error unreachable rejected : EventType
  disconnected device_removal other_event : EventType

-- `struct rdma_cm_event`
pub record Event : Type 0 where
  pub event : EventType
  pub id : Ptr
  pub status : ℤ

-- the outcome of `pmem_map_file`
pub record Mapping : Type 0 where
  pub base : Ptr
  pub mapped_len : ℕ
  pub is_pmem : Bool

-- `struct timespec`
pub record Timespec : Type 0 where
  pub tv_sec : ℤ
  pub tv_nsec : ℕ

-- the source address of a `struct rdma_addrinfo`: `ai_src_addr` and `ai_src_len`
pub record SourceAddr : Type 0 where
  pub addr : Ptr
  pub len : ℕ

pub data PortSpace : Type 0 where
  ps_tcp ps_ib : PortSpace

-- `struct rdma_addrinfo` as `rdma_getaddrinfo` reads it; `ai_flags` is its three bits, and
-- `family_ib` says that `ai_family` is AF_IB
pub record Hints : Type 0 where
  pub passive : Bool
  pub numeric_host : Bool
  pub family : Bool
  pub family_ib : Bool
  pub port_space : PortSpace
  pub source : SourceAddr

pub data Call : Type 0 where
  malloc : ℕ → Call
  calloc : ℕ → Call
  free : Ptr → Call
  -- `new`, of an object of a fixed size
  operator_new : Call
  -- memory that a call of outside code has freed is read: an event, and what a `context` points to
  load_freed_event load_freed_context : Call
  -- a member that the constructor leaves uninitialised
  load_uninitialised : Call
  -- strings, and memory that the adapter writes
  load_bytes : Ptr → ℕ → Call
  strncpy : Ptr → Ptr → ℕ → Call
  strlen : Ptr → Call
  strcmp : Ptr → Ptr → Call
  -- getaddrinfo of the sockets, the read of its result, and freeaddrinfo
  host_lookup host_address host_release : Ptr → Call
  errno : Call
  clock_gettime : Call
  nanosleep : Timespec → Call
  -- atomic flags and threads
  load_begin load_stop store_begin store_stop : Call
  pthread_create pthread_cancel pthread_join : ℕ → Call
  -- memory that the network adapter writes, and fields of a `struct rdma_cm_id`
  load_metadata : Ptr → Call
  store_metadata : Ptr → BufferAttr → Call
  load_qp : Ptr → Call
  -- libibverbs
  alloc_pd create_comp_channel : Ptr → Call
  dealloc_pd destroy_cq : Ptr → Call
  create_cq : Ptr → ℕ → Ptr → Call
  req_notify_cq : Ptr → Call
  reg_mr : Ptr → Ptr → ℕ → Access → Call
  dereg_mr : Option Mr → Call
  post_recv : Ptr → RecvWr → Call
  post_send : Ptr → SendWr → Call
  poll_cq : Ptr → ℕ → Call
  destroy_comp_channel get_cq_event : Ptr → Call
  ack_cq_events : Ptr → ℕ → Call
  post_recv_sge : Ptr → Sge → Call
  -- a signaled request; `none` where the request names no remote memory
  post_send_sge : Ptr → Opcode → Sge → (remote : Option BufferAttr) → Call
  -- librdmacm
  create_event_channel : Call
  destroy_event_channel : Ptr → Call
  getaddrinfo : Ptr → Ptr → Hints → Call
  load_src_addr : Ptr → Call
  freeaddrinfo : Ptr → Call
  create_id : Ptr → Call
  destroy_id : Ptr → Call
  create_qp : Ptr → Ptr → QpAttr → Call
  destroy_qp : Ptr → Call
  set_option resolve_addr resolve_route get_peer_addr : Ptr → Call
  bind_addr listen connect accept reject disconnect : Ptr → Call
  get_cm_event : Ptr → Call
  ack_cm_event : Event → Call
  -- the same of NULL
  ack_no_event : Call
  -- libpmem
  pmem_map_file : Call
  pmem_persist : Ptr → ℕ → Call
  -- the socket library
  rs_poll : Call

-- the newest call first
abbrev pub Trace : Type 0
Trace = List Call

pub record World : Type 0 where
  pub int : Trace → ℤ
  pub ptr : Trace → Ptr
  pub mr : Trace → Option Mr
  pub attr : Trace → BufferAttr
  pub wc_opcode : Trace → WcOpcode
  pub event : Trace → Event
  pub mapping : Trace → Mapping
  pub time : Trace → Timespec
  pub source_addr : Trace → SourceAddr
  pub flag : Trace → Bool
  pub size : Trace → ℕ
  -- the status of each completion that a poll yields
  pub wc_status : Trace → ℕ → ℕ
  -- what freed memory holds; `none` where its read ends the program
  pub freed_event : Trace → Option Event
  pub freed_context : Trace → Option ℕ

-- `fault`: a NULL or freed pointer is followed, a division by zero is made, or an exception is not
-- caught
pub data Run {ℓ} (A : Type ℓ) : Type ℓ where
  ok : A → Trace → Run A
  fault : Trace → Run A
  out_of_fuel : Trace → Run A

abbrev pub Cmd {ℓ} : Type ℓ → Type ℓ
Cmd A = World → Trace → Run A

abbrev pub pure {ℓ} : {A : Type ℓ} → A → Cmd A
pure a w t = ok a t

infixl 5 ◌>>=◌ ◌>>◌
abbrev pub ◌>>=◌ {ℓ κ} : {A : Type ℓ} {B : Type κ} → Cmd A → (A → Cmd B) → Cmd B
◌>>=◌ m f w t = elim (m w t) [
  | ok a s ↦ f a w s
  | fault s ↦ fault s
  | out_of_fuel s ↦ out_of_fuel s
]

abbrev pub ◌>>◌ {ℓ κ} : {A : Type ℓ} {B : Type κ} → Cmd A → Cmd B → Cmd B
m >> k = m >>= λ _. k

abbrev pub crash {ℓ} : {A : Type ℓ} → Cmd A
crash w t = fault t

abbrev pub exhausted {ℓ} : {A : Type ℓ} → Cmd A
exhausted w t = out_of_fuel t

-- a call whose result is not used, and calls by the kind of their result
abbrev pub call : Call → Cmd (Unit {0})
call c w t = ok tt (c ∷ t)

abbrev pub call_int : Call → Cmd ℤ
call_int c w t = ok (w.int (c ∷ t)) (c ∷ t)

abbrev pub call_ptr : Call → Cmd Ptr
call_ptr c w t = ok (w.ptr (c ∷ t)) (c ∷ t)

abbrev pub call_flag : Call → Cmd Bool
call_flag c w t = ok (w.flag (c ∷ t)) (c ∷ t)

abbrev pub call_size : Call → Cmd ℕ
call_size c w t = ok (w.size (c ∷ t)) (c ∷ t)

-- where a run stands, whatever its outcome
abbrev pub trace_of {ℓ} : {A : Type ℓ} → Run A → Trace
trace_of (ok a t) = t
trace_of (fault t) = t
trace_of (out_of_fuel t) = t
