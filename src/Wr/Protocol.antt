-- ===== src/Wr/Protocol.antt =====
-- The order of what the client's thread of wrbenchmark.c does: the read that flushes comes right after
-- the write that it is to flush.
use rdma_pmem.Prelude.{
  ◌≡◌, ◌⊎◌, inl, inr, refl, Bool, true, false, ℕ, [], ◌∷◌, arith, if◌then◌else◌, Bool-cases,
  Option-cases, Option, none,
}
use rdma_pmem.Prelude.Int.{ℤ, pos, is_zero, is_zero→eq}
use rdma_pmem.World.{
  Mr, BufferAttr, Opcode, wr_rdma_read, wr_rdma_write, Call, post_send, load_metadata, Trace, World,
  Run, Cmd, ok, fault, pure, trace_of,
}
use rdma_pmem.World.Keeps
use rdma_pmem.World.Keeps.{Keeps}
use rdma_pmem.Node.{Config, Node, Statistics, is_null}
use rdma_pmem.Stats.{PlainSample, record_plain}
use rdma_pmem.Post.{rdma_request, post_send_write, post_send_read, load_server}
use rdma_pmem.Poll.{get_time_ns, send_cq_index, node_poll_n_cq}
use rdma_pmem.Poll.Waiting.{node_poll_n_cq-Keeps}
use rdma_pmem.Client.{and_then}
use rdma_pmem.Client.Waiting.{
  and_then-Keeps, KeepsLoop, get_time_ns-Keeps, with_statistics, worker-Keeps,
}
use rdma_pmem.Wr.{wr_round, wr_worker}

abbrev is_read_opcode : Opcode → Bool
is_read_opcode wr_rdma_read = true
is_read_opcode _ = false

-- the call that sends an RDMA read
abbrev pub is_read : Call → Bool
is_read (post_send id wr) = is_read_opcode wr.opcode
is_read _ = false

-- The last work request was a write of the node's whole message, and it was accepted; only the
-- server's address was read since.
pub record IsWritten (w : World) (c : Config) (node : Node) (t : Trace) : Type 0 where
  pub before : Trace
  pub region : Mr
  pub server : BufferAttr
  pub sequence :
      t
      ≡ load_metadata node.server_metadata
        ∷ post_send node.cma_id
            (rdma_request node wr_rdma_write false region.addr c.message_size region server 0)
        ∷ before
  pub accepted :
      w.int (
        post_send node.cma_id
          (rdma_request node wr_rdma_write false region.addr c.message_size region server 0)
        ∷ before)
      ≡ pos 0

-- each read comes right behind such a write
abbrev pub Flushing : World → Config → Node → Trace → Type 0
Flushing w c node [] = Unit
Flushing w c node (x ∷ t) = (is_read x ≡ true → IsWritten w c node t) × Flushing w c node t

module _ (w : World) (c : Config) (node : Node) (s : Statistics) where
  -- the node as a round finds it
  abbrev current : Node
  current = with_statistics node s

  abbrev P : Trace → Type 0
  P = Flushing w c node

  loop : KeepsLoop P
  loop = record {
    clock = λ t p. (λ e. cc, p);
    begin = λ t p. (λ e. cc, p);
    stop = λ t p. (λ e. cc, p);
  }

  wait-Flushing : (fuel : ℕ) → Keeps w P (node_poll_n_cq fuel 8 current send_cq_index 1)
  wait-Flushing fuel =
      node_poll_n_cq-Keeps (λ cq n t p. (λ e. cc, p)) fuel 8 current send_cq_index 1

  clock : Keeps w P get_time_ns
  clock = get_time_ns-Keeps loop

  -- the trace after a write of the region `mr` is posted
  abbrev written_at : Trace → Mr → Trace
  written_at t mr =
      let at = load_metadata node.server_metadata ∷ t in
      post_send node.cma_id
        (rdma_request node wr_rdma_write false mr.addr c.message_size mr (w.attr at) 0)
      ∷ at

  -- The write is posted, or the node is not connected, or a NULL pointer is followed.
  abbrev Writes : Trace → Run ℤ → Type 0
  Writes t r =
      ((mr : Mr) × (r ≡ ok (w.int (written_at t mr)) (written_at t mr)))
      ⊎ (((s : Trace) × (r ≡ fault s) × P s) ⊎ ((node.connected ≡ false) × (r ≡ ok (pos 0) t)))

  write-Writes : (t : Trace) → P t → Writes t (post_send_write c current w t)
  unfolding post_send_write load_server
  write-Writes t p = elim (Bool-cases node.connected) [
    | inr e ↦ inr (inr (e, ground arith))
    | inl e ↦ elim (Option-cases node.src_mem_mr) [
      | inl m ↦ inr (inl (t, ground arith, p))
      | inr (mr, m) ↦ elim (Bool-cases (is_null node.server_metadata)) [
        | inl n ↦ inr (inl (t, ground arith, p))
        | inr n ↦ elim (Bool-cases (is_null node.cma_id)) [
          | inl z ↦ inr (inl (load_metadata node.server_metadata ∷ t, ground arith, (λ e. cc, p)))
          | inr z ↦ inl (mr, ground arith)
        ]
      ]
    ]
  ]

  -- the read after an accepted write, and the read that is not sent
  read-Flushing :
      (t : Trace) (mr : Mr)
      → w.int (written_at t mr) ≡ pos 0
      → P (written_at t mr)
      → P (trace_of (post_send_read c current w (written_at t mr)))
  unfolding post_send_read load_server
  read-Flushing t mr z p =
      let written : IsWritten w c node (load_metadata node.server_metadata ∷ written_at t mr) =
        record {
          before = load_metadata node.server_metadata ∷ t;
          region = mr;
          server = w.attr (load_metadata node.server_metadata ∷ t);
          sequence = refl;
          accepted = z;
        } in
      ground (arith, written)

  no_read-Flushing :
      (t : Trace) → node.connected ≡ false → P t → P (trace_of (post_send_read c current w t))
  unfolding post_send_read
  no_read-Flushing t e p =
      let run : post_send_read c current w t ≡ ok (pos 0) t = ground arith in rw run p

  module _ (fuel : ℕ) (rest : Cmd (Option PlainSample)) (kept : Keeps w P rest) where
    abbrev after_read : ℤ → Cmd (Option PlainSample)
    after_read ret = if is_zero ret then rest else pure none

    after_read-Flushing : (ret : ℤ) → Keeps w P (after_read ret)
    after_read-Flushing ret = Keeps.branch (is_zero ret) kept (Keeps.pure-Keeps none)

    abbrev after_write : ℤ → Cmd (Option PlainSample)
    after_write ret = if is_zero ret then and_then (post_send_read c current) rest else pure none

    flush-Flushing :
        Keeps w P (and_then (post_send_write c current) (and_then (post_send_read c current) rest))
    flush-Flushing = Keeps.step _ λ t p.
        let run = post_send_write c current w t in
        elim (write-Writes t p) [
          | inl (mr, e) ↦
              let sent : P (written_at t mr) = (λ e. cc, (λ e. cc, p)) in
              Keeps.after_ok w P run after_write e (
                Keeps.on_test w P (is_zero (w.int (written_at t mr))) _ (pure none)
                  (written_at t mr)
                  (λ z.
                    Keeps.bind_run (post_send_read c current w (written_at t mr)) after_read
                      (read-Flushing t mr (is_zero→eq _ z) sent) after_read-Flushing)
                  (λ z. sent))
          | inr (inl (s', e, q)) ↦ Keeps.after_fault w P run after_write e q
          | inr (inr (off, e)) ↦ Keeps.after_ok w P run after_write e (
              Keeps.bind_run (post_send_read c current w t) after_read (no_read-Flushing t off p)
                after_read-Flushing)
        ]

  round-Flushing : (fuel : ℕ) → c.no_ack ≡ true → Keeps w P (wr_round fuel c current)
  unfolding wr_round
  round-Flushing fuel no_ack = simp no_ack (
      Keeps.bind clock λ start.
        flush-Flushing fuel _
          (and_then-Keeps (wait-Flushing fuel) (Keeps.bind clock λ finish. Keeps.pure-Keeps _)))

-- With NO_ACK, whatever the other side and the libraries do, each RDMA read that the client's thread
-- of wrbenchmark.c sends comes right after a write of the node's whole message that was accepted, if
-- the trace before the thread starts has that property.
pub wr_worker-Flushing :
    (w : World) (c : Config) (node : Node) (fuel : ℕ) (t : Trace)
    → c.no_ack ≡ true
    → Flushing w c node t
    → Flushing w c node (trace_of (wr_worker fuel c node w t))
unfolding wr_worker
wr_worker-Flushing w c node fuel t no_ack p =
    (worker-Keeps (loop w c node node.statistics) record_plain wr_round c node
        (λ fuel s. round-Flushing w c node s fuel no_ack) fuel).keep
      t p
