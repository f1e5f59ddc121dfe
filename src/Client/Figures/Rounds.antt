-- ===== src/Client/Figures/Rounds.antt =====
-- The rounds of wsbenchmark.c, the flag that ends them and the times that they read.
use rdma_pmem.Prelude.{refl, ℕ, ◌≡◌, List, [], ◌∷◌, arith}
use rdma_pmem.Prelude.Int.{pos}
use rdma_pmem.World.{Trace, World, ok}
use rdma_pmem.World.Keeps
use rdma_pmem.World.Keeps.{Keeps}
use rdma_pmem.World.After
use rdma_pmem.World.Triple
use rdma_pmem.World.Triple.{Triple}
use rdma_pmem.Node.{Config, Node}
use rdma_pmem.Post.{post_send_write, post_recv_notification, post_send_flush, load_server}
use rdma_pmem.Poll.{CqIndex, send_cq_index, recv_cq_index, node_poll_n_cq}
use rdma_pmem.Poll.Waiting.{node_poll_n_cq-Keeps}
use rdma_pmem.Stats.{Sample, record_sample}
use rdma_pmem.Client.{ws_round, ws_worker}
use rdma_pmem.Client.Figures.{At, Rounded, clock-At, and_then-Rounded, Records, worker-Records}

-- the times of a sample, the newest first
abbrev pub sample_readings : Sample → List ℕ
sample_readings s = s.finish ∷ s.send_start ∷ s.start ∷ []

module _ (w : World) (c : Config) (node : Node) (n : ℕ) (l : List ℕ) where
  write-At : Keeps w (At w n l) (post_send_write c node)
  unfolding post_send_write load_server
  write-At = Keeps.step _ (λ t p. ground (arith, p))

  receive-At : Keeps w (At w n l) (post_recv_notification 200 node)
  unfolding post_recv_notification
  receive-At = Keeps.step _ (λ t p. ground (arith, p))

  flush-At : Keeps w (At w n l) (post_send_flush c node)
  unfolding post_send_flush
  flush-At = Keeps.step _ (λ t p. ground (arith, p))

  wait-At : (fuel : ℕ) (index : CqIndex) → Keeps w (At w n l) (node_poll_n_cq fuel 1 node index 1)
  wait-At fuel index = node_poll_n_cq-Keeps (λ cq n t p. p) fuel 1 node index 1

module _ (w : World) (c : Config) (node : Node) (n : ℕ) (l : List ℕ) where
  ws_round-Rounded :
      (fuel : ℕ) → Triple w (At w n l) (ws_round fuel c node) (Rounded w sample_readings n l)
  unfolding ws_round
  ws_round-Rounded fuel = Triple.bind clock-At λ start.
      let l1 = start ∷ l in
      and_then-Rounded sample_readings (start ∷ []) (write-At w c node n l1) (
        and_then-Rounded sample_readings (start ∷ [])
          (Keeps.branch c.no_ack (Keeps.pure-Keeps (pos 0))
            (wait-At w c node n l1 fuel send_cq_index))
          (Triple.bind clock-At λ send_start.
            let l2 = send_start ∷ l1 in
            and_then-Rounded sample_readings (send_start ∷ start ∷ []) (receive-At w c node n l2) (
              and_then-Rounded sample_readings (send_start ∷ start ∷ []) (flush-At w c node n l2) (
                and_then-Rounded sample_readings (send_start ∷ start ∷ [])
                  (wait-At w c node n l2 fuel send_cq_index)
                  (and_then-Rounded sample_readings (send_start ∷ start ∷ [])
                    (wait-At w c node n l2 fuel recv_cq_index)
                    (Triple.bind clock-At λ finish. Triple.pure-Triple _ λ t p. p))))))

-- the client's thread of wsbenchmark.c
pub ws_worker-Records :
    (fuel : ℕ) (c : Config) (node : Node) (w : World) (t : Trace) {node' : Node} {t' : Trace}
    → ws_worker fuel c node w t ≡ ok node' t'
    → Records w sample_readings record_sample node t node' t'
unfolding ws_worker record_sample
ws_worker-Records fuel c node w t {node'} {t'} e =
    After.apply
      (worker-Records sample_readings record_sample (λ s n x. refl) w ws_round c node
        (λ fuel s n l. ws_round-Rounded w c _ n l fuel) fuel t)
      node' t' e
