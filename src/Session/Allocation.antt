-- ===== src/Session/Allocation.antt =====
-- A failure of alloc_nodes that is reported as a success.
use rdma_pmem.Prelude.{
  ℕ, ◌*◌, ◌≡◌, ◌==◌, if◌then◌else◌, some, u64, refl, true, false, [], ◌∷◌, arith,
}
use rdma_pmem.Prelude.Int.{ℤ, pos, to_uint64}
use rdma_pmem.World.{Trace, World, malloc, create_id, pmem_map_file, destroy_id, free, ok}
use rdma_pmem.Node.{Config, is_null}
use rdma_pmem.Events.{Test, Variant}
use rdma_pmem.Session.Nodes.{alloc_nodes}

-- A client of one connection, whose allocations and whose id are made, but whose file is not
-- mapped: alloc_nodes returns 0, with the nodes freed.
pub alloc_nodes_reports_success :
    (v : Variant) (c : Config) (uninit : ℤ) (test : Test) (w : World) (t : Trace)
    → c.connections ≡ pos 1
    → c.use_pmem ≡ true
    → ((s : Trace) (n : ℕ) → is_null (w.ptr (malloc n ∷ s)) ≡ false)
    → ((s : Trace) → w.int (create_id test.channel ∷ s) ≡ pos 0)
    → ((s : Trace) → is_null (w.mapping (pmem_map_file ∷ s)).base ≡ true)
    → (test' : Test) × (t' : Trace) × (alloc_nodes v c true uninit test w t
        ≡ ok (pos 0, test') (free test'.nodes_ptr ∷ t'))
      × (test'.nodes ≡ [])
unfolding alloc_nodes
alloc_nodes_reports_success v c uninit test w t one pmem allocated made unmapped =
    let size = u64 (v.node_size * to_uint64 c.connections) in
    let threads_size = u64 (8 * to_uint64 c.connections) in
    let nodes_at = malloc size ∷ t in
    let threads_at = malloc threads_size ∷ nodes_at in
    let created = create_id test.channel ∷ threads_at in
    let mapped = pmem_map_file ∷ created in
    let old = test.context in
    let test' = record test {
      nodes_ptr = w.ptr nodes_at;
      nodes = [];
      pmem = w.mapping mapped;
      context = λ p. if p == w.ptr created then some 0 else old p;
    } in
    (
      test',
      destroy_id (w.ptr created) ∷ mapped,
      ground (
        arith,
        allocated t size,
        allocated nodes_at threads_size,
        made threads_at,
        unmapped created,
      ),
      refl,
    )
