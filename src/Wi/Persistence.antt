-- ===== src/Wi/Persistence.antt =====
-- What the server's thread of wibenchmark.c flushes to persistent memory, with the options that main
-- of wibenchmark.c passes on.
use rdma_pmem.Prelude.{ℕ, zero, suc, ◌≡◌, refl, ◌&&◌, true, false, not, List, [], ◌∷◌, arith}
use rdma_pmem.Prelude.Int.{pos, is_zero, is_neg, eqb_ℤ}
use rdma_pmem.World.{Ptr, pmem_persist, Trace, World, trace_of, call}
use rdma_pmem.World.Keeps
use rdma_pmem.World.Keeps.{Keeps}
use rdma_pmem.Node.{Config, Node}
use rdma_pmem.Setup.{when}
use rdma_pmem.Post.{post_recv_imm, post_send_notification}
use rdma_pmem.Poll.{send_cq_index, poll_one}
use rdma_pmem.Poll.Waiting.{node_poll_n_cq-Keeps}
use rdma_pmem.Wi.{is_recv_imm, answer, serve, server_worker}
use rdma_pmem.Options.{Opt, Libc, Options, parsed, wi_parse}
use rdma_pmem.Options.Pmem.{wi_parse_use_pmem}

-- the flushes to persistent memory
abbrev pub persists : Trace → ℕ
persists [] = 0
persists (pmem_persist p n ∷ t) = suc (persists t)
persists (x ∷ t) = persists t

module _ (w : World) (c : Config) (node : Node) (volatile : c.use_pmem ≡ false) (n : ℕ) where
  abbrev Same : Trace → Type 0
  Same t = persists t ≡ n

  flush-Same : Keeps w Same (when c.use_pmem (call (pmem_persist node.mem c.message_size)))
  flush-Same = Keeps.step _ (λ t p. ground arith)

  receive-Same : Keeps w Same (post_recv_imm node)
  unfolding post_recv_imm
  receive-Same = Keeps.step _ (λ t p. ground arith)

  send-Same : Keeps w Same (post_send_notification c node)
  unfolding post_send_notification
  send-Same = Keeps.step _ (λ t p. ground arith)

  answer-Same : (fuel : ℕ) → Keeps w Same (answer fuel c node)
  unfolding answer
  answer-Same fuel = Keeps.bind flush-Same λ _. Keeps.bind receive-Same λ ret.
      Keeps.branch (not (is_zero ret)) (Keeps.pure-Keeps _) (
        Keeps.bind send-Same λ ret. Keeps.branch (not (is_zero ret)) (Keeps.pure-Keeps _) (
          Keeps.bind (node_poll_n_cq-Keeps (λ cq n t p. p) fuel 8 node send_cq_index 1)
            λ ret. Keeps.pure-Keeps _))

  serve-Same : (fuel : ℕ) → Keeps w Same (serve fuel c node)
  unfolding serve
  serve-Same fuel = Keeps.bind (Keeps.step (poll_one node.recv_cq) (λ t p. p)) λ r.
      Keeps.branch (is_neg r.0) (Keeps.pure-Keeps false) (
        Keeps.branch (eqb_ℤ r.0 (pos 1) && is_recv_imm r.1) (answer-Same fuel)
          (Keeps.pure-Keeps true))

  server_worker-Same : (fuel : ℕ) → Keeps w Same (server_worker fuel c node)
  unfolding server_worker
  server_worker-Same zero = record { keep = λ t p. p }
  server_worker-Same (suc fuel) =
      Keeps.bind (serve-Same fuel)
        λ go_on. Keeps.branch go_on (server_worker-Same fuel) (Keeps.pure-Keeps tt)

-- With the options of any command line that wibenchmark.c accepts, --pmem or not, the server's
-- thread flushes nothing to persistent memory.
pub wi_server_persists_nothing :
    (libc : Libc) (port : Ptr) (args : List Opt) {o : Options} (fuel : ℕ) (node : Node) (w : World)
    (t : Trace)
    → wi_parse libc port args ≡ parsed o
    → persists (trace_of (server_worker fuel o.config node w t)) ≡ persists t
wi_server_persists_nothing libc port args {o} fuel node w t e =
    let volatile = wi_parse_use_pmem libc port args e in
    (server_worker-Same w o.config node volatile (persists t) fuel).keep t refl
