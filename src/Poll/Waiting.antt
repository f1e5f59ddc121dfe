-- ===== src/Poll/Waiting.antt =====
-- What node_poll_n_cq does to the trace.
use rdma_pmem.Prelude.{ℕ, zero, suc, ◌+◌, ◌∷◌, leb}
use rdma_pmem.Prelude.Int.{pos_part, is_neg}
use rdma_pmem.World.{Ptr, poll_cq, Trace, World, call_int}
use rdma_pmem.World.Keeps
use rdma_pmem.World.Keeps.{Keeps}
use rdma_pmem.Node.{Node}
use rdma_pmem.Poll.{CqIndex, poll_loop, node_poll_n_cq}

module _ {ℓ} {w : World} {P : Trace → Type ℓ}
    (polls : (cq : Ptr) (entries : ℕ) (t : Trace) → P t → P (poll_cq cq entries ∷ t)) where
  poll_loop-Keeps :
      (fuel : ℕ) (cq : Ptr) (entries n done : ℕ) → Keeps w P (poll_loop fuel cq entries n done)
  unfolding poll_loop
  poll_loop-Keeps zero cq entries n done = record { keep = λ t p. p }
  poll_loop-Keeps (suc fuel) cq entries n done = Keeps.branch (leb n done) (Keeps.pure-Keeps _) (
      Keeps.bind (Keeps.step (call_int (poll_cq cq entries)) (polls cq entries)) λ ret.
        Keeps.branch (is_neg ret) (Keeps.pure-Keeps ret)
          (poll_loop-Keeps fuel cq entries n (done + pos_part ret)))

  -- A property that each poll keeps is kept by the wait.
  pub node_poll_n_cq-Keeps :
      (fuel entries : ℕ) (node : Node) (index : CqIndex) (n : ℕ)
      → Keeps w P (node_poll_n_cq fuel entries node index n)
  unfolding node_poll_n_cq
  node_poll_n_cq-Keeps fuel entries node index n =
      Keeps.branch node.connected (poll_loop-Keeps fuel _ entries n 0) (Keeps.pure-Keeps _)
