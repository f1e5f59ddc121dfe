-- ===== src/Rw/Startup.antt =====
-- What main of rwbenchmark/src/client.cpp makes of a worker whose init fails.
use rdma_pmem.Prelude.{ℕ, ◌+◌, ◌≡◌, false, Option, some, List, ◌∷◌, arith}
use rdma_pmem.Prelude.Int.{is_zero}
use rdma_pmem.World.{Ptr, calloc, strncpy, host_lookup, fault, Trace, World}
use rdma_pmem.Node.{is_null}
use rdma_pmem.Rw.{Text, get_addr}
use rdma_pmem.Rw.Init
use rdma_pmem.Rw.Transfer.{set_src, alloc_dst, send_write}
use rdma_pmem.Rw.Worker.{Opt, Options, parse, run, rw_main}
use rdma_pmem.Rw.Worker

module _ (fuel : ℕ) (stol : Text → Option ℕ) (client_metadata server_metadata : Ptr)
    (defaults o : Options) (opts : List Opt) (w : World) (t : Trace) where
  abbrev pub src_at : Trace
  src_at = calloc (o.text.size + 1) ∷ t

  abbrev pub dst_at : Trace
  dst_at = calloc (o.text.size + 1) ∷ strncpy (w.ptr src_at) o.text.c_str (o.text.size + 1) ∷ src_at

  -- If the address of the server is not found, with both buffers allocated, then main of rwbenchmark
  -- goes on with a client that has no region of its source buffer, and faults.
  pub main_faults_without_server :
      parse defaults opts ≡ some o
      → is_null (w.ptr src_at) ≡ false
      → is_null (w.ptr dst_at) ≡ false
      → is_zero (w.int (host_lookup o.server_addr.c_str ∷ dst_at)) ≡ false
      → rw_main fuel stol client_metadata server_metadata defaults opts w t
        ≡ fault (host_lookup o.server_addr.c_str ∷ dst_at)
  unfolding rw_main Worker.init set_src alloc_dst Init.init get_addr run send_write
  main_faults_without_server read src dst missing = ground (arith, read, src, dst, missing)
