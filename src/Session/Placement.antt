-- ===== src/Session/Placement.antt =====
-- Where the buffers of the nodes that alloc_nodes leaves lie in the mapped file.
use rdma_pmem.Prelude.{
  ℕ, ◌+◌, ◌*◌, ◌^◌, ◌≤◌, ◌<◌, ◌≡◌, ◌⊎◌, inl, inr, Bool, true, some, [], get_elem?, arith,
}
use rdma_pmem.Prelude.Int.{ℤ, pos, is_zero}
use rdma_pmem.World.{Trace, World, ok}
use rdma_pmem.Node.{Config, Node}
use rdma_pmem.Setup.{create_message}
use rdma_pmem.Setup.Regions.{FitsTest, message-inside}
use rdma_pmem.Events.{Test, Variant}
use rdma_pmem.Session.Nodes.{alloc_nodes}

-- alloc_nodes returns 0 with a mapping that is long enough, or with the nodes freed
alloc_nodes-Fits :
    (v : Variant) (c : Config) (is_client : Bool) (uninit : ℤ) (test : Test) (w : World) (t : Trace)
    {r : ℤ × Test} {t' : Trace}
    → c.use_pmem ≡ true
    → alloc_nodes v c is_client uninit test w t ≡ ok r t'
    → is_zero r.0 ≡ true
    → (r.1.nodes ≡ []) ⊎ FitsTest c r.1.pmem
unfolding alloc_nodes
alloc_nodes-Fits v c is_client uninit test w t mapped e z = ground (arith, mapped, e, z)

-- With persistent memory and a number of connections `n` whose buffers take less than 4 GiB
-- together: if alloc_nodes returns 0 and has not freed the nodes, then the buffer that
-- create_message gives a node below `n` lies inside the mapped file.
pub create_message-within :
    (v : Variant) (c : Config) (is_client : Bool) (uninit : ℤ) (test : Test) (n : ℕ) (node : Node)
    (old : Node) (w : World) (t s : Trace) {r : ℤ × Test} {q : ℤ × Node} {t' s' : Trace}
    → c.use_pmem ≡ true
    → c.connections ≡ pos n
    → c.message_size * n < 2 ^ 32
    → n < 2 ^ 32
    → alloc_nodes v c is_client uninit test w t ≡ ok r t'
    → is_zero r.0 ≡ true
    → get_elem? r.1.nodes node.id ≡ some old
    → node.id < n
    → create_message c r.1.pmem node w s ≡ ok q s'
    → (r.1.pmem.base ≤ q.1.mem) × (q.1.mem + c.message_size ≤ r.1.pmem.base + r.1.pmem.mapped_len)
create_message-within v c is_client uninit test n node old w t s {r} mapped count small nb e z found
      below made =
    elim (alloc_nodes-Fits v c is_client uninit test w t mapped e z) [
      | inl freed ↦ (let gone = rw freed at found in cc)
      | inr fits ↦ message-inside c r.1.pmem n mapped count small node w s below made nb fits
    ]
