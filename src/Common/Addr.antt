-- ===== src/Common/Addr.antt =====
-- get_rdma_addr of pmrdmabenchmark/src/common.c. `*rai` is returned with the result; it is NULL
-- where the code leaves it alone.
use rdma_pmem.Prelude.{if◌then◌else◌, true, false, not, ◌∷◌}
use rdma_pmem.Prelude.Int.{ℤ, is_zero}
use rdma_pmem.World.{
  Ptr, SourceAddr, Hints, getaddrinfo, load_src_addr, freeaddrinfo, Cmd, ok, pure, ◌>>=◌, ◌>>◌,
  call,
}
use rdma_pmem.Node.{is_null}

-- `rdma_getaddrinfo(node, service, hints, &res)`
abbrev pub lookup_addr : Ptr → Ptr → Hints → Cmd (ℤ × Ptr)
lookup_addr node service hints w t =
    let t' = getaddrinfo node service hints ∷ t in
    ok (w.int t', if is_zero (w.int t') then w.ptr t' else 0) t'

-- `res->ai_src_addr` and `res->ai_src_len`
abbrev pub source_of : Ptr → Cmd SourceAddr
source_of res w t = let t' = load_src_addr res ∷ t in ok (w.source_addr t') t'

pub get_rdma_addr : (src dst port : Ptr) → Hints → Cmd (ℤ × Ptr)
get_rdma_addr src dst port hints =
    if hints.passive
    then lookup_addr src port hints
    else if is_null src
    then lookup_addr dst port hints
    else do
      (ret, res) ← lookup_addr src 0 (record hints { passive = true })
      if not (is_zero ret) then pure (ret, 0) else do
        source ← source_of res
        (ret, rai) ← lookup_addr dst port (record hints { passive = false; source = source })
        call (freeaddrinfo res)
        pure (ret, rai)
