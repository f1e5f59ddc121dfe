-- ===== src/Ws/Protocol.antt =====
-- The order of what the server's thread of wsbenchmark.c does: a flush notification says that the
-- bytes of a completed request are persistent.
use rdma_pmem.Prelude.{
  ℕ, zero, suc, ◌≡◌, refl, ◌&&◌, ◌==◌, Bool, true, false, not, if◌then◌else◌, [], ◌∷◌, arith, inl,
  inr, &&→left, &&→right,
}
use rdma_pmem.Prelude.Int.{pos, is_zero, is_neg, eqb_ℤ, is_zero→eq, eqb_ℤ→eq}
use rdma_pmem.World.{
  Call, post_send, post_recv, poll_cq, pmem_persist, RecvWr, Trace, World, Run, ok, pure, call,
  trace_of,
}
use rdma_pmem.World.Keeps
use rdma_pmem.World.Keeps.{Keeps}
use rdma_pmem.Node.{Config, Node}
use rdma_pmem.Setup.{when}
use rdma_pmem.Poll.{send_cq_index, node_poll_n_cq}
use rdma_pmem.Poll.Waiting.{node_poll_n_cq-Keeps}
use rdma_pmem.Post.{post_recv_flush, post_send_notification}
use rdma_pmem.Post.Outcomes.{post_recv_flush-Receives}
use rdma_pmem.Ws.{is_recv, notify, persist, answer, serve, server_worker}

-- the call that sends a flush notification for the node
abbrev pub is_notification : Node → Call → Bool
is_notification node (post_send id wr) = (wr.node == node.id) && (wr.offset == 100)
is_notification node _ = false

-- with a mapped file, the whole buffer of the node is flushed
abbrev pub persist_calls : Config → Node → Trace → Trace
persist_calls c node t = if c.use_pmem then pmem_persist node.mem c.message_size ∷ t else t

-- The trace ends with: a poll that yields a completed receive, a new receive that is posted, and
-- the flush to persistent memory.
pub record Answers (w : World) (c : Config) (node : Node) (t : Trace) : Type 0 where
  pub before : Trace
  pub request : RecvWr
  pub sequence :
      t ≡ persist_calls c node (post_recv node.cma_id request ∷ poll_cq node.recv_cq 1 ∷ before)
  pub completed : w.int (poll_cq node.recv_cq 1 ∷ before) ≡ pos 1
  pub received : is_recv (w.wc_opcode (poll_cq node.recv_cq 1 ∷ before)) ≡ true
  pub posted : w.int (post_recv node.cma_id request ∷ poll_cq node.recv_cq 1 ∷ before) ≡ pos 0

-- each notification comes right behind such a sequence
abbrev pub Ordered : World → Config → Node → Trace → Type 0
Ordered w c node [] = Unit
Ordered w c node (x ∷ t) = (is_notification node x ≡ true → Answers w c node t) × Ordered w c node t

module _ (w : World) (c : Config) (node : Node) where
  wait-Ordered :
      (fuel : ℕ) → Keeps w (Ordered w c node) (node_poll_n_cq fuel 1 node send_cq_index 1)
  wait-Ordered fuel = node_poll_n_cq-Keeps (λ cq n t o. (λ e. cc, o)) fuel 1 node _ 1

  notification-Ordered :
      (t : Trace)
      → Answers w c node t
      → Ordered w c node t
      → Ordered w c node (trace_of (post_send_notification c node w t))
  unfolding post_send_notification
  notification-Ordered t a o = ground arith

  notify-Ordered :
      (fuel : ℕ) (t : Trace)
      → Answers w c node t
      → Ordered w c node t
      → Ordered w c node (trace_of (notify fuel c node w t))
  unfolding notify
  notify-Ordered fuel t a o =
      Keeps.bind_run (post_send_notification c node w t) _ (notification-Ordered t a o) λ ret.
        Keeps.branch (not (is_zero ret)) (Keeps.pure-Keeps false)
          (Keeps.bind (wait-Ordered fuel) λ ret. Keeps.pure-Keeps (is_zero ret))

  abbrev flush : Trace → Run (Unit {0})
  flush t = when c.use_pmem (call (pmem_persist node.mem c.message_size)) w t

  flush_run : (t : Trace) → flush t ≡ ok tt (persist_calls c node t)
  flush_run t = ground arith

  persist_calls-Ordered :
      (t : Trace) → Ordered w c node t → Ordered w c node (persist_calls c node t)
  persist_calls-Ordered t o =
      elim c.use_pmem
        as (λ b. Ordered w c node (if b then pmem_persist node.mem c.message_size ∷ t else t)) [
          | true ↦ (λ e. cc, o)
          | false ↦ o
        ]

  module _ (fuel : ℕ) (t : Trace) (one : w.int (poll_cq node.recv_cq 1 ∷ t) ≡ pos 1)
      (recv : is_recv (w.wc_opcode (poll_cq node.recv_cq 1 ∷ t)) ≡ true)
      (o : Ordered w c node t) where
    persist-Ordered :
        (wr : RecvWr)
        → let posted = post_recv node.cma_id wr ∷ poll_cq node.recv_cq 1 ∷ t in
          Ordered w c node (trace_of (persist fuel c node (w.int posted) w posted))
    unfolding persist
    persist-Ordered wr =
        let polled = poll_cq node.recv_cq 1 ∷ t in
        let posted = post_recv node.cma_id wr ∷ polled in
        let rest : Ordered w c node posted = (λ e. cc, (λ e. cc, o)) in
        Keeps.on_test w (Ordered w c node) (not (is_zero (w.int posted))) _ _ posted (λ e. rest)
          λ e.
            (let zero : w.int posted ≡ pos 0 = is_zero→eq _ (ground arith) in
              let before : Answers w c node (persist_calls c node posted) = record {
                before = t;
                request = wr;
                sequence = refl;
                completed = one;
                received = recv;
                posted = zero;
              } in
              let o' = persist_calls-Ordered posted rest in
              Keeps.after_ok w (Ordered w c node) (flush posted) (λ _. notify fuel c node)
                (flush_run posted) (notify-Ordered fuel _ before o'))

    answer-Ordered : Ordered w c node (trace_of (answer fuel c node w (poll_cq node.recv_cq 1 ∷ t)))
    unfolding answer
    answer-Ordered =
        let polled = poll_cq node.recv_cq 1 ∷ t in
        let run = post_recv_flush node w polled in
        elim (post_recv_flush-Receives w node polled) [
          | inl e ↦ Keeps.after_fault w (Ordered w c node) run (persist fuel c node) e (λ e. cc, o)
          | inr (wr, e) ↦
              Keeps.after_ok w (Ordered w c node) run (persist fuel c node) e (persist-Ordered wr)
        ]

  serve-Ordered : (fuel : ℕ) → Keeps w (Ordered w c node) (serve fuel c node)
  unfolding serve
  serve-Ordered fuel = record {
    keep = λ t o.
        let polled = poll_cq node.recv_cq 1 ∷ t in
        let ret = w.int polled in
        let opcode = w.wc_opcode polled in
        let P = Ordered w c node in
        Keeps.on_test w P (is_neg ret) (pure false) _ polled (λ e. (λ e. cc, o))
          λ e.
            Keeps.on_test w P (eqb_ℤ ret (pos 1) && is_recv opcode) (answer fuel c node) (pure true)
              polled
              (λ both.
                answer-Ordered fuel t (eqb_ℤ→eq _ _ (&&→left _ _ both)) (&&→right _ _ both) o)
              (λ e. (λ e. cc, o));
  }

  server_worker-Keeps : (fuel : ℕ) → Keeps w (Ordered w c node) (server_worker fuel c node)
  unfolding server_worker
  server_worker-Keeps zero = record { keep = λ t o. o }
  server_worker-Keeps (suc fuel) =
      Keeps.bind (serve-Ordered fuel)
        λ go_on. Keeps.branch go_on (server_worker-Keeps fuel) (Keeps.pure-Keeps tt)

  -- Whatever the other side and the libraries do, each flush notification that the server's thread
  -- sends comes right after a completed receive, the posting of the next one and, with a mapped
  -- file, the flush of the node's buffer. The trace before the thread starts has that property.
  pub server_worker-Ordered :
      (fuel : ℕ) (t : Trace)
      → Ordered w c node t
      → Ordered w c node (trace_of (server_worker fuel c node w t))
  server_worker-Ordered fuel t o = (server_worker-Keeps fuel).keep t o
