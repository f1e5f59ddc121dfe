-- ===== src/Wi/Protocol.antt =====
-- The order of what the server's thread of wibenchmark.c does: a flush notification says that the
-- bytes of a completed write are persistent, and that the next write finds a receive.
use rdma_pmem.Prelude.{
  ℕ, zero, suc, ◌≡◌, refl, ◌&&◌, Bool, true, false, not, if◌then◌else◌, inl, inr, [], ◌∷◌, arith,
  &&→left, &&→right,
}
use rdma_pmem.Prelude.Int.{ℤ, pos, is_zero, is_neg, eqb_ℤ, is_zero→eq, eqb_ℤ→eq}
use rdma_pmem.World.{
  post_recv, poll_cq, pmem_persist, RecvWr, Trace, World, Run, ok, pure, call, trace_of, Cmd, ◌>>=◌,
}
use rdma_pmem.World.Keeps
use rdma_pmem.World.Keeps.{Keeps}
use rdma_pmem.Node.{Config, Node}
use rdma_pmem.Setup.{when}
use rdma_pmem.Poll.{send_cq_index, node_poll_n_cq}
use rdma_pmem.Poll.Waiting.{node_poll_n_cq-Keeps}
use rdma_pmem.Post.{post_recv_imm, post_send_notification}
use rdma_pmem.Post.Outcomes.{post_recv_imm-Receives}
use rdma_pmem.Ws.Protocol.{is_notification, persist_calls}
use rdma_pmem.Wi.{is_recv_imm, answer, serve, server_worker}

-- The trace ends with: a poll that yields a completed write with immediate data, the flush to
-- persistent memory, and a new receive that is posted.
pub record Answers (w : World) (c : Config) (node : Node) (t : Trace) : Type 0 where
  pub before : Trace
  pub request : RecvWr
  pub sequence :
      t ≡ post_recv node.cma_id request ∷ persist_calls c node (poll_cq node.recv_cq 1 ∷ before)
  pub completed : w.int (poll_cq node.recv_cq 1 ∷ before) ≡ pos 1
  pub received : is_recv_imm (w.wc_opcode (poll_cq node.recv_cq 1 ∷ before)) ≡ true
  pub posted : w.int t ≡ pos 0

-- each notification comes right behind such a sequence
abbrev pub Ordered : World → Config → Node → Trace → Type 0
Ordered w c node [] = Unit
Ordered w c node (x ∷ t) = (is_notification node x ≡ true → Answers w c node t) × Ordered w c node t

module _ (w : World) (c : Config) (node : Node) where
  abbrev P : Trace → Type 0
  P = Ordered w c node

  wait-Ordered : (fuel : ℕ) → Keeps w P (node_poll_n_cq fuel 8 node send_cq_index 1)
  wait-Ordered fuel = node_poll_n_cq-Keeps (λ cq n t o. (λ e. cc, o)) fuel 8 node _ 1

  notification-Ordered :
      (t : Trace) → Answers w c node t → P t → P (trace_of (post_send_notification c node w t))
  unfolding post_send_notification
  notification-Ordered t a o = ground arith

  -- what follows the posting of the receive, which returned `ret`
  abbrev after_receive : (fuel : ℕ) → ℤ → Cmd Bool
  after_receive fuel ret = if not (is_zero ret) then pure false else do
    ret ← post_send_notification c node
    if not (is_zero ret)
        then pure false
        else do ret ← node_poll_n_cq fuel 8 node send_cq_index 1; pure (is_zero ret)

  after_receive-Ordered :
      (fuel : ℕ) (t : Trace)
      → Answers w c node t
      → P t
      → P (trace_of (after_receive fuel (pos 0) w t))
  after_receive-Ordered fuel t a o =
      Keeps.bind_run (post_send_notification c node w t) _ (notification-Ordered t a o) λ ret.
        Keeps.branch (not (is_zero ret)) (Keeps.pure-Keeps false)
          (Keeps.bind (wait-Ordered fuel) λ ret. Keeps.pure-Keeps (is_zero ret))

  abbrev flush : Trace → Run (Unit {0})
  flush t = when c.use_pmem (call (pmem_persist node.mem c.message_size)) w t

  flush_run : (t : Trace) → flush t ≡ ok tt (persist_calls c node t)
  flush_run t = ground arith

  persist_calls-Ordered : (t : Trace) → P t → P (persist_calls c node t)
  persist_calls-Ordered t o =
      elim c.use_pmem as (λ b. P (if b then pmem_persist node.mem c.message_size ∷ t else t)) [
        | true ↦ (λ e. cc, o)
        | false ↦ o
      ]

  module _ (fuel : ℕ) (t : Trace) (one : w.int (poll_cq node.recv_cq 1 ∷ t) ≡ pos 1)
      (recv : is_recv_imm (w.wc_opcode (poll_cq node.recv_cq 1 ∷ t)) ≡ true) (o : P t) where
    abbrev flushed : Trace
    flushed = persist_calls c node (poll_cq node.recv_cq 1 ∷ t)

    flushed-Ordered : P flushed
    flushed-Ordered = persist_calls-Ordered _ (λ e. cc, o)

    receive-Ordered : P (trace_of ((do ret ← post_recv_imm node; after_receive fuel ret) w flushed))
    receive-Ordered = elim (post_recv_imm-Receives w node flushed) [
      | inl e ↦
          Keeps.after_fault w P (post_recv_imm node w flushed) (after_receive fuel) e
            flushed-Ordered
      | inr (wr, e) ↦
          let posted = post_recv node.cma_id wr ∷ flushed in
          let rest : P posted = (λ e. cc, flushed-Ordered) in
          Keeps.after_ok w P (post_recv_imm node w flushed) (after_receive fuel) e (
            Keeps.on_test w P (not (is_zero (w.int posted))) (pure false) _ posted (λ e. rest)
              λ e.
                after_receive-Ordered fuel posted
                  (record {
                    before = t;
                    request = wr;
                    sequence = refl;
                    completed = one;
                    received = recv;
                    posted = is_zero→eq _ (ground arith);
                  })
                  rest)
    ]

    answer-Ordered : P (trace_of (answer fuel c node w (poll_cq node.recv_cq 1 ∷ t)))
    unfolding answer
    answer-Ordered =
        Keeps.after_ok w P (flush (poll_cq node.recv_cq 1 ∷ t))
          (λ _. do ret ← post_recv_imm node; after_receive fuel ret) (flush_run _) receive-Ordered

  serve-Ordered : (fuel : ℕ) → Keeps w P (serve fuel c node)
  unfolding serve
  serve-Ordered fuel = record {
    keep = λ t o.
        let polled = poll_cq node.recv_cq 1 ∷ t in
        let ret = w.int polled in
        let opcode = w.wc_opcode polled in
        Keeps.on_test w P (is_neg ret) (pure false) _ polled (λ e. (λ e. cc, o))
          λ e.
            Keeps.on_test w P (eqb_ℤ ret (pos 1) && is_recv_imm opcode) (answer fuel c node)
              (pure true) polled
              (λ both.
                answer-Ordered fuel t (eqb_ℤ→eq _ _ (&&→left _ _ both)) (&&→right _ _ both) o)
              (λ e. (λ e. cc, o));
  }

  server_worker-Keeps : (fuel : ℕ) → Keeps w P (server_worker fuel c node)
  unfolding server_worker
  server_worker-Keeps zero = record { keep = λ t o. o }
  server_worker-Keeps (suc fuel) =
      Keeps.bind (serve-Ordered fuel)
        λ go_on. Keeps.branch go_on (server_worker-Keeps fuel) (Keeps.pure-Keeps tt)

  -- Whatever the other side and the libraries do, each flush notification that the server's thread
  -- of wibenchmark.c sends comes right after a completed write with immediate data, with a mapped
  -- file the flush of the node's buffer, and the posting of the next receive. The trace before the
  -- thread starts has that property.
  pub wi_server_worker-Ordered :
      (fuel : ℕ) (t : Trace)
      → Ordered w c node t
      → Ordered w c node (trace_of (server_worker fuel c node w t))
  wi_server_worker-Ordered fuel t o = (server_worker-Keeps fuel).keep t o
