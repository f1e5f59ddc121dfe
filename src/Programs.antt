-- ===== src/Programs.antt =====
-- The five programs of pmrdmabenchmark/src: what each passes to the code that
-- they share, and the whole programs. `sizeof *test.nodes` is that of a 64-bit machine.
pub mod Quiet
pub mod Machine
pub mod Figures
pub mod Counting
pub mod Pmem
use rdma_pmem.Prelude.{ℕ, Bool, true, false, some, none}
use rdma_pmem.Prelude.Int.{ℤ, pos}
use rdma_pmem.World.{Cmd, pure}
use rdma_pmem.Node.{Config}
use rdma_pmem.Post.{post_recv_flush, post_recv_imm}
use rdma_pmem.Client.{ws_worker, wi_worker}
use rdma_pmem.Ws
use rdma_pmem.Wi
use rdma_pmem.Wr
use rdma_pmem.Wr.{wr_worker, wb_worker}
use rdma_pmem.Rb
use rdma_pmem.Rb.{rb_worker}
use rdma_pmem.Options.{Options}
use rdma_pmem.Events.{Test, Variant, uncounted}
use rdma_pmem.Session.Nodes.{alloc_nodes}
use rdma_pmem.Session.{run_server, run_client, run_main}

abbrev pub ws : Variant
ws = record {
  node_size = 144;
  init_node = uncounted Ws.init_node;
  post_first_recv = post_recv_flush;
  server_worker = some Ws.server_worker;
  worker = ws_worker;
  measures_send = true;
  counts_messages = false;
}

abbrev pub wr : Variant
wr = record {
  node_size = 104;
  init_node = uncounted Wr.init_node;
  post_first_recv = λ node. pure (pos 0);
  server_worker = none;
  worker = wr_worker;
  measures_send = false;
  counts_messages = false;
}

abbrev pub wb : Variant
wb = record {
  node_size = 104;
  init_node = uncounted Wr.init_node;
  post_first_recv = λ node. pure (pos 0);
  server_worker = none;
  worker = wb_worker;
  measures_send = false;
  counts_messages = false;
}

abbrev pub rb : Variant
rb = record {
  node_size = 104;
  init_node = Rb.init_node;
  post_first_recv = λ node. pure (pos 0);
  server_worker = none;
  worker = rb_worker;
  measures_send = false;
  counts_messages = true;
}

abbrev pub wi : Variant
wi = record {
  node_size = 120;
  init_node = uncounted Wi.init_node;
  post_first_recv = post_recv_imm;
  server_worker = some Wi.server_worker;
  worker = wi_worker;
  measures_send = true;
  counts_messages = false;
}

pub data Program : Type 0 where
  wsbenchmark wibenchmark wrbenchmark wbenchmark rbenchmark : Program

abbrev pub variant : Program → Variant
variant Program.wsbenchmark = ws
variant Program.wibenchmark = wi
variant Program.wrbenchmark = wr
variant Program.wbenchmark = wb
variant Program.rbenchmark = rb

pub ws_main : (fuel : ℕ) → Options → (uninit : ℤ) → Cmd ℤ
unfolding run_main
ws_main = run_main ws

pub wi_alloc_nodes : Config → (is_client : Bool) → (uninit : ℤ) → Test → Cmd (ℤ × Test)
unfolding alloc_nodes
wi_alloc_nodes = alloc_nodes wi

pub wi_run_server : (fuel : ℕ) → Options → Test → Cmd (ℤ × Test)
unfolding run_server
wi_run_server = run_server wi

pub wi_run_client : (fuel : ℕ) → Options → Test → Cmd (ℤ × Test)
unfolding run_client
wi_run_client = run_client wi

pub wi_main : (fuel : ℕ) → Options → (uninit : ℤ) → Cmd ℤ
unfolding run_main
wi_main = run_main wi

-- wrbenchmark.c
pub wr_alloc_nodes : Config → (is_client : Bool) → (uninit : ℤ) → Test → Cmd (ℤ × Test)
unfolding alloc_nodes
wr_alloc_nodes = alloc_nodes wr

pub wr_run_server : (fuel : ℕ) → Options → Test → Cmd (ℤ × Test)
unfolding run_server
wr_run_server = run_server wr

pub wr_run_client : (fuel : ℕ) → Options → Test → Cmd (ℤ × Test)
unfolding run_client
wr_run_client = run_client wr

pub wr_main : (fuel : ℕ) → Options → (uninit : ℤ) → Cmd ℤ
unfolding run_main
wr_main = run_main wr

-- wbenchmark.c
pub wb_alloc_nodes : Config → (is_client : Bool) → (uninit : ℤ) → Test → Cmd (ℤ × Test)
unfolding alloc_nodes
wb_alloc_nodes = alloc_nodes wb

pub wb_run_server : (fuel : ℕ) → Options → Test → Cmd (ℤ × Test)
unfolding run_server
wb_run_server = run_server wb

pub wb_run_client : (fuel : ℕ) → Options → Test → Cmd (ℤ × Test)
unfolding run_client
wb_run_client = run_client wb

pub wb_main : (fuel : ℕ) → Options → (uninit : ℤ) → Cmd ℤ
unfolding run_main
wb_main = run_main wb

-- rbenchmark.c
pub rb_alloc_nodes : Config → (is_client : Bool) → (uninit : ℤ) → Test → Cmd (ℤ × Test)
unfolding alloc_nodes
rb_alloc_nodes = alloc_nodes rb

pub rb_run_server : (fuel : ℕ) → Options → Test → Cmd (ℤ × Test)
unfolding run_server
rb_run_server = run_server rb

pub rb_run_client : (fuel : ℕ) → Options → Test → Cmd (ℤ × Test)
unfolding run_client
rb_run_client = run_client rb

pub rb_main : (fuel : ℕ) → Options → (uninit : ℤ) → Cmd ℤ
unfolding run_main
rb_main = run_main rb
