-- ===== src/Setup/Regions.antt =====
-- Where the nodes' buffers lie in a mapped file.
use rdma_pmem.Prelude.{ℕ, ◌+◌, ◌*◌, ◌^◌, ◌≤◌, ◌<◌, ◌≡◌, true, false, ltb, ltb_false→le, arith, u32}
use rdma_pmem.Prelude.Int.{ℤ, pos, to_unsigned}
use rdma_pmem.World.{Mapping, Trace, World, ok}
use rdma_pmem.Node.{Config, Node}
use rdma_pmem.Setup.{create_message}

-- the test of alloc_nodes on the length of the mapped file passes
abbrev pub FitsTest : Config → Mapping → Type 0
FitsTest c pmem = ltb pmem.mapped_len (u32 (c.message_size * to_unsigned c.connections)) ≡ false

create_message_mem :
    (c : Config) (pmem : Mapping) (node : Node) (w : World) (t : Trace) {r : ℤ × Node} {t' : Trace}
    → c.use_pmem ≡ true
    → create_message c pmem node w t ≡ ok r t'
    → r.1.mem ≡ pmem.base + u32 (c.message_size * node.id)
unfolding create_message
create_message_mem c pmem node w t h e = ground arith

mul_mono : (m i n : ℕ) → i < n → m * i + m ≤ m * n
mul_mono m i n h = grind arith

module _ (c : Config) (pmem : Mapping) (n : ℕ) (mapped : c.use_pmem ≡ true)
    (count : c.connections ≡ pos n) (small : c.message_size * n < 2 ^ 32) where
  exact : (i : ℕ) → i < n → u32 (c.message_size * i) ≡ c.message_size * i
  exact i h = omega (arith, mul_mono c.message_size i n h)

  module _ (node : Node) (w : World) (t : Trace) {r : ℤ × Node} {t' : Trace} (below : node.id < n)
      (made : create_message c pmem node w t ≡ ok r t') where
    address : r.1.mem ≡ pmem.base + c.message_size * node.id
    address = omega (arith, create_message_mem c pmem node w t mapped made, exact node.id below)

    -- the same, if the mapping passes the test of alloc_nodes
    pub message-inside :
        n < 2 ^ 32
        → FitsTest c pmem
        → (pmem.base ≤ r.1.mem) × (r.1.mem + c.message_size ≤ pmem.base + pmem.mapped_len)
    message-inside nb fits =
        let connections : to_unsigned c.connections ≡ n = rw count (omega arith) in
        let long = rw connections at (ltb_false→le _ _ fits) in
        (omega (arith, address), omega (arith, address, mul_mono c.message_size node.id n below))

  -- With persistent memory and buffers that take less than 4 GiB together, the buffers that
  -- create_message gives to two different nodes do not overlap.
  pub create_message-disjoint :
      (w : World) (a b : Node) (t s : Trace) {r q : ℤ × Node} {t' s' : Trace}
      → a.id < b.id
      → b.id < n
      → create_message c pmem a w t ≡ ok r t'
      → create_message c pmem b w s ≡ ok q s'
      → r.1.mem + c.message_size ≤ q.1.mem
  create_message-disjoint w a b t s h k made made' =
      let first = address a w t (omega arith) made in
      let second = address b w s k made' in
      omega (arith, first, second, mul_mono c.message_size a.id b.id h)
