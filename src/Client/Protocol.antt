-- ===== src/Client/Protocol.antt =====
-- The order of what the client's thread of wsbenchmark.c does: the receive for the answer is posted
-- before the request that the server answers.
use rdma_pmem.Prelude.{
  ℕ, ◌≡◌, refl, ◌&&◌, ◌==◌, Bool, true, false, ◌⊎◌, inl, inr, [], ◌∷◌, arith, if◌then◌else◌,
  Bool-cases, Option-cases, Option, none,
}
use rdma_pmem.Prelude.Int.{ℤ, pos, is_zero, is_zero→eq}
use rdma_pmem.World.{Mr, Call, post_send, post_recv, Trace, World, Cmd, ok, fault, trace_of, pure}
use rdma_pmem.World.Keeps
use rdma_pmem.World.Keeps.{Keeps}
use rdma_pmem.Node.{Config, Node, Statistics, flush_notification_size, is_null}
use rdma_pmem.Stats.{Sample}
use rdma_pmem.Post.{
  recv_request, post_send_write, post_recv_notification, post_send_flush, load_server,
}
use rdma_pmem.Poll.{CqIndex, get_time_ns, send_cq_index, recv_cq_index, node_poll_n_cq}
use rdma_pmem.Poll.Waiting.{node_poll_n_cq-Keeps}
use rdma_pmem.Stats.{record_sample}
use rdma_pmem.Client.{and_then, ws_round, ws_worker}
use rdma_pmem.Client.Waiting.{
  and_then-Keeps, KeepsLoop, get_time_ns-Keeps, with_statistics, worker-Keeps,
}

-- the call that sends a flush request for the node
abbrev pub is_flush_request : Node → Call → Bool
is_flush_request node (post_send id wr) = (wr.node == node.id) && (wr.offset == 200)
is_flush_request node _ = false

-- The last call posted a receive into the node's notification buffer, with success.
pub record IsArmed (w : World) (node : Node) (t : Trace) : Type 0 where
  pub before : Trace
  pub region : Mr
  pub sequence :
      t
      ≡ post_recv node.cma_id
          (recv_request node 200 node.flush_notification_buff flush_notification_size region)
        ∷ before
  pub posted : w.int t ≡ pos 0

-- each flush request comes right behind such a call
abbrev pub Armed : World → Node → Trace → Type 0
Armed w node [] = Unit
Armed w node (x ∷ t) = (is_flush_request node x ≡ true → IsArmed w node t) × Armed w node t

module _ (w : World) (node : Node) (s : Statistics) where
  -- the node as a round finds it
  abbrev current : Node
  current = with_statistics node s

  loop : KeepsLoop (Armed w node)
  loop = record {
    clock = λ t a. (λ e. cc, a);
    begin = λ t a. (λ e. cc, a);
    stop = λ t a. (λ e. cc, a);
  }

  wait-Armed :
      (fuel : ℕ) (index : CqIndex) → Keeps w (Armed w node) (node_poll_n_cq fuel 1 current index 1)
  wait-Armed fuel index = node_poll_n_cq-Keeps (λ cq n t a. (λ e. cc, a)) fuel 1 current index 1

  write-Armed : (c : Config) → Keeps w (Armed w node) (post_send_write c current)
  unfolding post_send_write load_server
  write-Armed c = Keeps.step _ λ t a. ground arith

  -- the receive for the notification, in the region `mr`
  abbrev armed_at : Trace → Mr → Trace
  armed_at t mr =
      post_recv node.cma_id
        (recv_request node 200 node.flush_notification_buff flush_notification_size mr)
      ∷ t

  notification-Posts :
      (t : Trace)
      → (post_recv_notification 200 current w t ≡ fault t)
        ⊎ ((mr : Mr) × (post_recv_notification 200 current w t
              ≡ ok (w.int (armed_at t mr)) (armed_at t mr)))
  unfolding post_recv_notification
  notification-Posts t = elim (Option-cases node.flush_notification_buff_mr) [
    | inl e ↦ inl (ground arith)
    | inr (mr, e) ↦ elim (Bool-cases (is_null node.cma_id)) [
      | inl n ↦ inl (ground arith)
      | inr n ↦ inr (mr, ground arith)
    ]
  ]

  clock : Keeps w (Armed w node) get_time_ns
  clock = get_time_ns-Keeps loop

  flush-Armed :
      (c : Config) (t : Trace)
      → IsArmed w node t
      → Armed w node t
      → Armed w node (trace_of (post_send_flush c current w t))
  unfolding post_send_flush
  flush-Armed c t armed a = ground arith

  module _ (fuel : ℕ) (c : Config) where
    -- the waits behind the request, and the last time
    await-Armed :
        (rest : Cmd (Option Sample))
        → Keeps w (Armed w node) rest
        → Keeps w (Armed w node) (
            and_then
              (node_poll_n_cq fuel 1 current send_cq_index 1)
              (and_then (node_poll_n_cq fuel 1 current recv_cq_index 1) rest))
    await-Armed rest kept =
        and_then-Keeps (wait-Armed fuel send_cq_index)
          (and_then-Keeps (wait-Armed fuel recv_cq_index) kept)

    request-Armed :
        (rest : Cmd (Option Sample))
        → Keeps w (Armed w node) rest
        → Keeps w (Armed w node) (
            and_then
              (post_recv_notification 200 current)
              (and_then (post_send_flush c current) rest))
    request-Armed rest kept = Keeps.step _ λ t a.
        let P = Armed w node in
        let run = post_recv_notification 200 current w t in
        let next = and_then (post_send_flush c current) rest in
        let k : ℤ → Cmd (Option Sample) = λ ret. if is_zero ret then next else pure none in
        elim (notification-Posts t) [
          | inl e ↦ Keeps.after_fault w P run k e a
          | inr (mr, e) ↦ Keeps.after_ok w P run k e (
              Keeps.on_test w P (is_zero (w.int (armed_at t mr))) next (pure none) (armed_at t mr)
                (λ z.
                  Keeps.bind_run (post_send_flush c current w (armed_at t mr)) _
                    (flush-Armed c (armed_at t mr)
                      (record { before = t; region = mr; sequence = refl; posted = is_zero→eq _ z })
                      (λ e. cc, a))
                    (λ ret. Keeps.branch (is_zero ret) kept (Keeps.pure-Keeps none)))
                (λ z. (λ e. cc, a)))
        ]

    round-Armed : Keeps w (Armed w node) (ws_round fuel c current)
    unfolding ws_round
    round-Armed = Keeps.bind clock λ start. and_then-Keeps (write-Armed c) (
        and_then-Keeps
          (Keeps.branch c.no_ack (Keeps.pure-Keeps (pos 0)) (wait-Armed fuel send_cq_index))
          (Keeps.bind clock λ send_start.
            request-Armed _ (await-Armed _ (Keeps.bind clock λ finish. Keeps.pure-Keeps _))))

-- Whatever the other side and the libraries do, each flush request that the client's thread of
-- wsbenchmark.c sends comes right after a receive that was posted, with success, into the node's
-- notification buffer, if the trace before the thread starts has that property.
pub ws_worker-Armed :
    (w : World) (node : Node) (fuel : ℕ) (c : Config) (t : Trace)
    → Armed w node t
    → Armed w node (trace_of (ws_worker fuel c node w t))
unfolding ws_worker
ws_worker-Armed w node fuel c t a =
    (worker-Keeps (loop w node node.statistics) record_sample ws_round c node
        (λ fuel s. round-Armed w node s fuel c) fuel).keep
      t a
