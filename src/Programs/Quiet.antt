-- ===== src/Programs/Quiet.antt =====
-- The functions that the programs pass on acknowledge no event.
use rdma_pmem.Prelude.{◌∷◌, not, if◌then◌else◌, arith}
use rdma_pmem.Prelude.Int.{ℤ, pos, is_zero}
use rdma_pmem.World.{
  Mapping, World, Cmd, create_cq, req_notify_cq, create_qp, calloc, alloc_pd, create_comp_channel,
  pure, ◌>>=◌,
}
use rdma_pmem.World.Keeps
use rdma_pmem.World.Keeps.{Keeps}
use rdma_pmem.Node.{Config, Node, statistics_size, plain_statistics_size, no_statistics}
use rdma_pmem.Setup.{create_metadata, create_flush_buffers, create_message, print_metadata}
use rdma_pmem.Post.{post_recv_flush, post_recv_imm}
use rdma_pmem.Events.Quiet.{IsQuiet, QuietVariant}
use rdma_pmem.Ws
use rdma_pmem.Ws.{qp_attr}
use rdma_pmem.Wi
use rdma_pmem.Wr
use rdma_pmem.Rb
use rdma_pmem.Rb.{queue_size}
use rdma_pmem.Programs.{Program, variant, ws, wi}

module _ {w : World} where
  create_metadata-IsQuiet : (node : Node) → IsQuiet w (create_metadata node)
  unfolding create_metadata
  create_metadata-IsQuiet node es = Keeps.step _ (λ t p. ground arith)

  create_message-IsQuiet :
      (c : Config) (pmem : Mapping) (node : Node) → IsQuiet w (create_message c pmem node)
  unfolding create_message
  create_message-IsQuiet c pmem node es = Keeps.step _ (λ t p. ground arith)

  print_metadata-IsQuiet : (c : Config) (node : Node) → IsQuiet w (print_metadata c node)
  unfolding print_metadata
  print_metadata-IsQuiet c node es = Keeps.step _ (λ t p. ground arith)

  -- a function of the node, and what follows if it returns 0
  then-IsQuiet :
      (m : Cmd (ℤ × Node)) (next : Node → Cmd (ℤ × Node))
      → IsQuiet w m
      → ((node : Node) → IsQuiet w (next node))
      → IsQuiet w (m >>= λ r. if not (is_zero r.0) then pure (r.0, r.1) else next r.1)
  then-IsQuiet m next h k es =
      Keeps.bind (h es) λ r. Keeps.branch (not (is_zero r.0)) (Keeps.pure-Keeps _) (k r.1 es)

  module _ (c : Config) (pmem : Mapping) where
    flush-IsQuiet : (node : Node) → IsQuiet w (Ws.init_flush c pmem node)
    unfolding Ws.init_flush create_flush_buffers
    flush-IsQuiet node =
        then-IsQuiet (create_flush_buffers node) _ (λ es. Keeps.step _ (λ t p. ground arith))
          (create_message-IsQuiet c pmem)

    buffers-IsQuiet : (node : Node) → IsQuiet w (Ws.init_buffers c pmem node)
    unfolding Ws.init_buffers
    buffers-IsQuiet node =
        then-IsQuiet (create_metadata node) _ (create_metadata-IsQuiet node)
          λ node es. Keeps.bind (print_metadata-IsQuiet c node es) (λ _. flush-IsQuiet node es)

    queues-IsQuiet : (node : Node) → IsQuiet w (Ws.init_queues c pmem node)
    unfolding Ws.init_queues
    queues-IsQuiet node es = Keeps.step _ λ t p.
        let send_at = create_cq node.cma_id 1 0 ∷ t in
        let recv_at = create_cq node.cma_id 1 node.comp_channel ∷ send_at in
        let made = record node { send_cq = w.ptr send_at; recv_cq = w.ptr recv_at } in
        let asked_at = req_notify_cq (w.ptr recv_at) ∷ recv_at in
        let qp_at = create_qp node.cma_id node.pd (qp_attr c made) ∷ asked_at in
        ground (arith, (buffers-IsQuiet made es).keep qp_at)

    init_node-IsQuiet : (node : Node) → IsQuiet w (Ws.init_node c pmem node)
    unfolding Ws.init_node
    init_node-IsQuiet node es = Keeps.step _ λ t p.
        let stats_at = calloc statistics_size ∷ t in
        let pd_at = alloc_pd node.cma_id ∷ stats_at in
        let channel_at = create_comp_channel node.cma_id ∷ pd_at in
        let made = record node {
          stats = w.ptr stats_at;
          statistics = no_statistics;
          pd = w.ptr pd_at;
          comp_channel = w.ptr channel_at;
        } in
        ground (arith, (queues-IsQuiet made es).keep channel_at)

    wi_flush-IsQuiet : (node : Node) → IsQuiet w (Wi.create_flush_buffers node)
    unfolding Wi.create_flush_buffers
    wi_flush-IsQuiet node es = Keeps.step _ (λ t p. ground arith)

    wi_buffers-IsQuiet : (node : Node) → IsQuiet w (Wi.init_buffers c pmem node)
    unfolding Wi.init_buffers
    wi_buffers-IsQuiet node =
        then-IsQuiet (create_metadata node) _ (create_metadata-IsQuiet node) λ node es.
          Keeps.bind (print_metadata-IsQuiet c node es) λ _.
            then-IsQuiet (Wi.create_flush_buffers node) _ (wi_flush-IsQuiet node)
              (create_message-IsQuiet c pmem) es

    wi_init_node-IsQuiet : (node : Node) → IsQuiet w (Wi.init_node c pmem node)
    unfolding Wi.init_node
    wi_init_node-IsQuiet node es = Keeps.step _ λ t p.
        let stats_at = calloc statistics_size ∷ t in
        let pd_at = alloc_pd node.cma_id ∷ stats_at in
        let send_at = create_cq node.cma_id 1 0 ∷ pd_at in
        let recv_at = create_cq node.cma_id 1 0 ∷ send_at in
        let made = record node {
          stats = w.ptr stats_at;
          statistics = no_statistics;
          pd = w.ptr pd_at;
          send_cq = w.ptr send_at;
          recv_cq = w.ptr recv_at;
        } in
        let qp_at = create_qp node.cma_id (w.ptr pd_at) (qp_attr c made) ∷ recv_at in
        ground (arith, (wi_buffers-IsQuiet made es).keep qp_at)

uncounted-IsQuiet :
    {w : World} (init : Node → Cmd (ℤ × Node))
    → ((node : Node) → IsQuiet w (init node))
    → (count : ℤ) (node : Node)
    → IsQuiet w (init node >>= λ r. pure {A = ℤ × Node × ℤ} (r.0, r.1, count))
uncounted-IsQuiet init h count node es = Keeps.bind (h node es) λ r. Keeps.pure-Keeps _

-- the programs whose servers have no threads
module _ {w : World} (c : Config) (pmem : Mapping) where
  plain_buffers-IsQuiet : (node : Node) → IsQuiet w (Wr.init_buffers c pmem node)
  unfolding Wr.init_buffers
  plain_buffers-IsQuiet node =
      then-IsQuiet (create_metadata node) _ (create_metadata-IsQuiet node) λ node es.
        Keeps.bind (print_metadata-IsQuiet c node es) (λ _. create_message-IsQuiet c pmem node es)

  wr_init_node-IsQuiet : (node : Node) → IsQuiet w (Wr.init_node c pmem node)
  unfolding Wr.init_node
  wr_init_node-IsQuiet node es = Keeps.step _ λ t p.
      let stats_at = calloc plain_statistics_size ∷ t in
      let pd_at = alloc_pd node.cma_id ∷ stats_at in
      let send_at = create_cq node.cma_id 1 0 ∷ pd_at in
      let recv_at = create_cq node.cma_id 1 0 ∷ send_at in
      let made = record node {
        stats = w.ptr stats_at;
        statistics = no_statistics;
        pd = w.ptr pd_at;
        send_cq = w.ptr send_at;
        recv_cq = w.ptr recv_at;
      } in
      let qp_at = create_qp node.cma_id (w.ptr pd_at) (qp_attr c made) ∷ recv_at in
      ground (arith, (plain_buffers-IsQuiet made es).keep qp_at)

  counted_message-IsQuiet :
      (count : ℤ) (node : Node) → IsQuiet w (Rb.create_message c pmem count node)
  unfolding Rb.create_message
  counted_message-IsQuiet count node es =
      Keeps.branch _ (Keeps.pure-Keeps (pos 0, node, _))
        (Keeps.bind (create_message-IsQuiet c pmem node es) λ r. Keeps.pure-Keeps _)

  counted_buffers-IsQuiet :
      (count : ℤ) (node : Node) → IsQuiet w (Rb.init_buffers c pmem count node)
  unfolding Rb.init_buffers
  counted_buffers-IsQuiet count node es = Keeps.bind (create_metadata-IsQuiet node es) λ r.
      Keeps.branch (not (is_zero r.0)) (Keeps.pure-Keeps _)
        (Keeps.bind (print_metadata-IsQuiet c r.1 es) (λ _. counted_message-IsQuiet count r.1 es))

  rb_init_node-IsQuiet : (count : ℤ) (node : Node) → IsQuiet w (Rb.init_node c pmem count node)
  unfolding Rb.init_node
  rb_init_node-IsQuiet count node es = Keeps.step _ λ t p.
      let stats_at = calloc plain_statistics_size ∷ t in
      let pd_at = alloc_pd node.cma_id ∷ stats_at in
      let send_at = create_cq node.cma_id (queue_size count) 0 ∷ pd_at in
      let recv_at = create_cq node.cma_id (queue_size count) 0 ∷ send_at in
      let made = record node {
        stats = w.ptr stats_at;
        statistics = no_statistics;
        pd = w.ptr pd_at;
        send_cq = w.ptr send_at;
        recv_cq = w.ptr recv_at;
      } in
      let qp_at = create_qp node.cma_id (w.ptr pd_at) (Rb.qp_attr count made) ∷ recv_at in
      ground (arith, (counted_buffers-IsQuiet count made es).keep qp_at)

pub ws-Quiet : (w : World) → QuietVariant w ws
unfolding post_recv_flush
ws-Quiet w = record {
  init_node = λ c pmem. uncounted-IsQuiet (Ws.init_node c pmem) (init_node-IsQuiet c pmem);
  post_first_recv = λ node es. Keeps.step _ (λ t p. ground arith);
}

pub wi-Quiet : (w : World) → QuietVariant w wi
unfolding post_recv_imm
wi-Quiet w = record {
  init_node = λ c pmem. uncounted-IsQuiet (Wi.init_node c pmem) (wi_init_node-IsQuiet c pmem);
  post_first_recv = λ node es. Keeps.step _ (λ t p. ground arith);
}

pub variant-Quiet : (w : World) (p : Program) → QuietVariant w (variant p)
variant-Quiet w Program.wsbenchmark = ws-Quiet w
variant-Quiet w Program.wibenchmark = wi-Quiet w
variant-Quiet w Program.wrbenchmark = record {
  init_node = λ c pmem. uncounted-IsQuiet (Wr.init_node c pmem) (wr_init_node-IsQuiet c pmem);
  post_first_recv = λ node es. Keeps.pure-Keeps (pos 0);
}
variant-Quiet w Program.wbenchmark = record {
  init_node = λ c pmem. uncounted-IsQuiet (Wr.init_node c pmem) (wr_init_node-IsQuiet c pmem);
  post_first_recv = λ node es. Keeps.pure-Keeps (pos 0);
}
variant-Quiet w Program.rbenchmark = record {
  init_node = λ c pmem count. rb_init_node-IsQuiet c pmem count;
  post_first_recv = λ node es. Keeps.pure-Keeps (pos 0);
}
