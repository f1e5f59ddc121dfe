-- ===== src/Session/Nodes.antt =====
-- The nodes of a session: alloc_nodes, destroy_nodes and poll_one_wc of
-- pmrdmabenchmark/src/wsbenchmark.c, which the other programs share.
use rdma_pmem.Prelude.{
  ℕ, zero, suc, ◌+◌, ◌*◌, ltb, if◌then◌else◌, Bool, not, List, [], ◌∷◌, u32, u64,
}
use rdma_pmem.Prelude.Int.{ℤ, pos, is_zero, to_unsigned, to_uint64}
use rdma_pmem.World.{
  malloc, free, create_id, destroy_id, pmem_map_file, Cmd, ok, pure, ◌>>=◌, ◌>>◌, call, call_ptr,
}
use rdma_pmem.Node.{Config, Node, fresh_node, is_null, node_count, enomem}
use rdma_pmem.Setup.{destroy_node}
use rdma_pmem.Poll.{CqIndex, cq_of, poll_loop}
use rdma_pmem.Events.{Test, Variant, node_at, set_node, set_context}

-- the nodes after `memset`
abbrev blank_nodes : ℕ → List Node
blank_nodes zero = []
blank_nodes (suc k) = fresh_node 0 ∷ blank_nodes k

-- alloc_nodes: the loop over `i`, with `k` rounds left. The result is `ret` and `i` where the loop
-- ends; `is_client` says that `dst_addr` is set.
create_ids : (is_client : Bool) → (ret : ℤ) → (k i : ℕ) → Test → Cmd (ℤ × ℕ × Test)
create_ids is_client ret zero i test = pure (ret, i, test)
create_ids is_client ret (suc k) i test = do
  node ← node_at test i
  let named = record node { id = i }
  if not is_client then create_ids is_client ret k (i + 1) (set_node test i named) else do
    (r, id) ← λ w t. let t' = create_id test.channel ∷ t in ok (w.int t', w.ptr t') t'
    if not (is_zero r)
        then pure (r, i, set_node test i named)
        else create_ids is_client r k (i + 1)
            (set_context (set_node test i (record named { cma_id = id })) id i)

-- `while (--i >= 0) rdma_destroy_id(test.nodes[i].cma_id)`
destroy_ids : (i : ℕ) → Test → Cmd (Unit {0})
destroy_ids zero test = pure tt
destroy_ids (suc i) test = do
  node ← node_at test i
  call (destroy_id node.cma_id)
  destroy_ids i test

-- alloc_nodes: its label `err`
release_nodes : ℤ → ℕ → Test → Cmd (ℤ × Test)
unfolding destroy_ids
release_nodes ret i test = do
  destroy_ids i test
  call (free test.nodes_ptr)
  pure (ret, record test { nodes = [] })

-- alloc_nodes: the mapping of the file
map_pmem : Config → ℤ → ℕ → Test → Cmd (ℤ × Test)
unfolding release_nodes
map_pmem c ret i test = do
  m ← λ w t. let t' = pmem_map_file ∷ t in ok (w.mapping t') t'
  let test = record test { pmem = m }
  if is_null m.base
      then release_nodes ret i test
      else if ltb m.mapped_len (u32 (c.message_size * to_unsigned c.connections))
      then release_nodes ret i test
      else pure (pos 0, test)

-- `uninit` is what the variable `ret` holds before it is assigned
unfoldable pub alloc_nodes :
    Variant → Config → (is_client : Bool) → (uninit : ℤ) → Test → Cmd (ℤ × Test)
unfolding create_ids map_pmem
alloc_nodes v c is_client uninit test = do
  nodes ← call_ptr (malloc (u64 (v.node_size * to_uint64 c.connections)))
  let test = record test { nodes_ptr = nodes }
  if is_null nodes then pure (enomem, test) else do
    let test = record test { nodes = blank_nodes (node_count c) }
    threads ← call_ptr (malloc (u64 (8 * to_uint64 c.connections)))
    if is_null threads then pure (enomem, test) else do
      (ret, i, test) ← create_ids is_client uninit (node_count c) 0 test
      if ltb i (node_count c)
          then release_nodes ret i test
          else if c.use_pmem
          then map_pmem c ret i test
          else pure (pos 0, test)

-- `for (i = ...; i < connections; i++)` with `k` rounds left, until `f` is not 0
unfoldable pub each_node : (Node → Cmd ℤ) → (k i : ℕ) → Test → Cmd ℤ
each_node f zero i test = pure (pos 0)
each_node f (suc k) i test = do
  node ← node_at test i
  ret ← f node
  if is_zero ret then each_node f k (i + 1) test else pure ret

abbrev pub all_nodes : (Node → Cmd ℤ) → Config → Test → Cmd ℤ
all_nodes f c test = each_node f (node_count c) 0 test

unfoldable pub destroy_nodes : Config → Test → Cmd (Unit {0})
unfolding each_node
destroy_nodes c test = do
  all_nodes (λ node. do destroy_node c node; pure (pos 0)) c test
  call (free test.nodes_ptr)

unfoldable pub poll_one_wc : (fuel : ℕ) → Config → CqIndex → Test → Cmd ℤ
unfolding each_node
poll_one_wc fuel c index test =
    all_nodes
      (λ node. if node.connected then poll_loop fuel (cq_of node index) 1 1 0 else pure (pos 0)) c
      test
