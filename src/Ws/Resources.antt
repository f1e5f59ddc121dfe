-- ===== src/Ws/Resources.antt =====
-- What init_node of wsbenchmark.c has acquired when it returns 0.
use rdma_pmem.Prelude.{◌≡◌, true, false, not, if◌then◌else◌, arith, ◌∷◌}
use rdma_pmem.Prelude.Int.{ℤ, is_zero}
use rdma_pmem.World.{
  Mapping, Trace, World, Run, ok, fault, out_of_fuel, Cmd, pure, ◌>>◌, errno, create_cq,
  req_notify_cq, create_qp, create_comp_channel, alloc_pd, calloc,
}
use rdma_pmem.Node.{Config, Node, is_null, statistics_size, no_statistics}
use rdma_pmem.Setup.Outcomes.{
  HasMetadata, HasFlushBuffers, HasMessage, KeepsSetup, create_metadata_ok, create_flush_buffers_ok,
  create_message_ok,
}
use rdma_pmem.Setup.{print_metadata, create_message}
use rdma_pmem.Ws.{qp_attr, init_flush, init_buffers, init_queues, init_node}
use rdma_pmem.World.After
use rdma_pmem.World.After.{After}

pub record HasAll (node : Node) : Type 0 where
  pub stats : is_null node.stats ≡ false
  pub pd : is_null node.pd ≡ false
  pub comp_channel : is_null node.comp_channel ≡ false
  pub send_cq : is_null node.send_cq ≡ false
  pub recv_cq : is_null node.recv_cq ≡ false
  pub metadata : HasMetadata node
  pub flush_buffers : HasFlushBuffers node
  pub message : HasMessage node

-- where init_queues creates the queue pair, in a run in which all before succeeds
abbrev queues_pair_at : Config → Node → World → Trace → Trace
queues_pair_at c node w t =
    let send_at = create_cq node.cma_id 1 0 ∷ t in
    let recv_at = create_cq node.cma_id 1 node.comp_channel ∷ send_at in
    let made = record node { send_cq = w.ptr send_at; recv_cq = w.ptr recv_at } in
    create_qp node.cma_id node.pd (qp_attr c made) ∷ req_notify_cq (w.ptr recv_at) ∷ recv_at

-- the same of init_node
abbrev pub pair_at : Config → Node → World → Trace → Trace
pair_at c node w t =
    let pd_at = alloc_pd node.cma_id ∷ calloc statistics_size ∷ t in
    let channel_at = create_comp_channel node.cma_id ∷ pd_at in
    queues_pair_at c (record node { pd = w.ptr pd_at; comp_channel = w.ptr channel_at }) w
      channel_at

-- `errno` is not 0 behind a call that failed.
abbrev pub ErrnoIsSet : World → Type 0
ErrnoIsSet w = (t : Trace) → is_zero (w.int (errno ∷ t)) ≡ false

record HasQueues (node : Node) : Type 0 where
  send_cq : is_null node.send_cq ≡ false
  recv_cq : is_null node.recv_cq ≡ false

-- all parts but the three that come first, which stay
record HasRest (node node' : Node) : Type 0 where
  queues : HasQueues node'
  metadata : HasMetadata node'
  flush_buffers : HasFlushBuffers node'
  message : HasMessage node'
  stats : node'.stats ≡ node.stats
  pd : node'.pd ≡ node.pd
  comp_channel : node'.comp_channel ≡ node.comp_channel

-- the parts that the buffers' creation adds
record HasBuffers (node node' : Node) : Type 0 where
  metadata : HasMetadata node'
  flush_buffers : HasFlushBuffers node'
  message : HasMessage node'
  setup : KeepsSetup node node'

abbrev Succeeds : (Node → Type 0) → ℤ × Node → Trace → Type 0
Succeeds P r t = is_zero r.0 ≡ true → P r.1

-- a function that makes parts of the node, and what follows if it returns 0
made_then :
    (P Q : Node → Type 0) (w : World) {run : Run (ℤ × Node)} (next : Node → Cmd (ℤ × Node))
    → After (Succeeds P) run
    → ((made : Node) (s : Trace) → P made → After (Succeeds Q) (next made w s))
    → After (Succeeds Q) (elim run [
      | ok r s ↦ (if not (is_zero r.0) then pure (r.0, r.1) else next r.1) w s
      | fault s ↦ fault s
      | out_of_fuel s ↦ out_of_fuel s
    ])
made_then P Q w next h more =
    After.bind w (λ r. if not (is_zero r.0) then pure (r.0, r.1) else next r.1) h
      λ r s p.
        After.test w (not (is_zero r.0)) (pure (r.0, r.1)) (next r.1) s
          (λ e. After.returned λ z. ground arith) (λ e. more r.1 s (p (ground arith)))

module _ (c : Config) (pmem : Mapping) (node : Node) (w : World) (t : Trace) where
  init_flush_after :
      HasMetadata node → After (Succeeds (HasBuffers node)) (init_flush c pmem node w t)
  unfolding init_flush
  init_flush_after h =
      made_then (λ made. HasFlushBuffers made × KeepsSetup node made × HasMetadata made)
        (HasBuffers node) w (create_message c pmem)
        (After.intro _ λ r s e z.
          let (buffers, keeps, metadata) = create_flush_buffers_ok node w t e z in
          (buffers, keeps, metadata h))
        λ made s (buffers, keeps, metadata).
          After.intro _
            λ r s' e z. let all = create_message_ok made w s c pmem e z in ground (arith, all)

module _ (c : Config) (pmem : Mapping) (node : Node) (w : World) (t : Trace) where
  init_buffers_after : After (Succeeds (HasBuffers node)) (init_buffers c pmem node w t)
  unfolding init_buffers print_metadata
  init_buffers_after =
      made_then (λ made. HasMetadata made × KeepsSetup node made) (HasBuffers node) w
        (λ made. do print_metadata c made; init_flush c pmem made)
        (After.intro _ λ r s e z. create_metadata_ok node w t e z)
        λ made s (metadata, keeps).
          After.bind w (λ _. init_flush c pmem made) (After.any (print_metadata c made w s))
            λ _ s' _.
              After.mono (init_flush_after c pmem made w s' metadata)
                λ r t' p z. let all = p z in ground (arith, all)

module _ (c : Config) (pmem : Mapping) (node : Node) (w : World) (t : Trace) {r : ℤ × Node}
    {t' : Trace} where
  init_queues_ok :
      init_queues c pmem node w t ≡ ok r t'
      → is_zero r.0 ≡ true
      → HasRest node r.1 × (is_zero (w.int (queues_pair_at c node w t)) ≡ true)
  unfolding init_queues
  init_queues_ok e z =
      let send_at = create_cq node.cma_id 1 0 ∷ t in
      let recv_at = create_cq node.cma_id 1 node.comp_channel ∷ send_at in
      let made = record node { send_cq = w.ptr send_at; recv_cq = w.ptr recv_at } in
      let asked_at = req_notify_cq (w.ptr recv_at) ∷ recv_at in
      let qp_at = create_qp node.cma_id node.pd (qp_attr c made) ∷ asked_at in
      let buffers = After.apply (init_buffers_after c pmem made w qp_at) r t' in
      ground (arith, buffers)

module _ (c : Config) (pmem : Mapping) (node : Node) (w : World) (t : Trace) {r : ℤ × Node}
    {t' : Trace} where
  -- If `errno` is set by a call that fails, then init_node of wsbenchmark.c returns 0 only with the
  -- statistics, the domain, the channel, the queues and all buffers and regions of the node
  -- acquired, and with a queue pair: the call of rdma_create_qp returned 0.
  pub init_node-HasAll :
      ErrnoIsSet w
      → init_node c pmem node w t ≡ ok r t'
      → is_zero r.0 ≡ true
      → HasAll r.1 × (is_zero (w.int (pair_at c node w t)) ≡ true)
  unfolding init_node
  init_node-HasAll set e z =
      let stats_at = calloc statistics_size ∷ t in
      let pd_at = alloc_pd node.cma_id ∷ stats_at in
      let channel_at = create_comp_channel node.cma_id ∷ pd_at in
      let made = record node {
        stats = w.ptr stats_at;
        statistics = no_statistics;
        pd = w.ptr pd_at;
        comp_channel = w.ptr channel_at;
      } in
      ground (arith, init_queues_ok c pmem made w channel_at {r = r} {t' = t'}, set channel_at)
