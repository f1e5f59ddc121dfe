-- ===== src/RdmaExample/Client.antt =====
-- main of rdma-example/src/client.cpp.
use rdma_pmem.Prelude.{ℕ, if◌then◌else◌, not, Option, none, some, List}
use rdma_pmem.Prelude.Int.{ℤ, pos, is_zero}
use rdma_pmem.World.{Ptr, Cmd, pure, ◌>>=◌, ◌>>◌}
use rdma_pmem.Rw.{Text, Client, new_client}
use rdma_pmem.Rw.Init
use rdma_pmem.Rw.Transfer.{
  set_src, alloc_dst, exchange_metadata_with_server, send_write, send_read, cmp_data,
}
use rdma_pmem.Rw.Cleanup.{cleanup}
use rdma_pmem.Rw.Worker.{Opt, Options, parse}
use rdma_pmem.Rw.Server.{allocate}

-- main from the write on; the result of cmp_data is only printed
unfoldable pub write_and_read : (fuel : ℕ) → Client → Cmd ℤ
write_and_read fuel client = do
  ret ← send_write fuel client
  if not (is_zero ret) then pure ret else do
    (ret, client) ← send_read fuel client
    if not (is_zero ret) then pure ret else do cmp_data client; cleanup client

-- main from the connection on
unfoldable pub connect : (fuel : ℕ) → Client → Cmd ℤ
connect fuel client = do
  (ret, client) ← Init.init client
  if not (is_zero ret) then pure ret else do
    (ret, client) ← exchange_metadata_with_server fuel client
    if not (is_zero ret) then pure ret else write_and_read fuel client

-- main behind the constructor: the result of set_src is overwritten
unfoldable pub use_client : (fuel : ℕ) → Text → Client → Cmd ℤ
use_client fuel str client = do
  (ignored, client) ← set_src str client
  (ret, client) ← alloc_dst str client
  if not (is_zero ret) then pure ret else connect fuel client

-- main, with what std::stol makes of a string, and the addresses of the two members of the client
-- that the adapter reads and writes
unfoldable pub client_main :
    (fuel : ℕ)
    → (stol : Text → Option ℕ) → (client_metadata server_metadata : Ptr) → (defaults : Options)
    → List Opt
    → Cmd ℤ
client_main fuel stol client_metadata server_metadata defaults opts =
    elim (parse defaults opts) as (λ o. Cmd ℤ) [
      | none ↦ pure (pos 0)
      | some o ↦ (do
        allocate
        use_client fuel o.text
            (new_client client_metadata server_metadata o.server_addr.c_str (stol o.server_port)))
    ]
