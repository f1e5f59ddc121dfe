-- ===== src/Poll.antt =====
-- Waiting for completions: node_poll_n_cq of pmrdmabenchmark/src/wsbenchmark.c and of the programs
-- beside it, and the clock. A loop that waits takes fuel: the rounds it may make.
pub mod Waiting
pub mod Progress
use rdma_pmem.Prelude.{ℕ, zero, suc, ◌+◌, ◌*◌, leb, if◌then◌else◌, ◌∷◌, u64}
use rdma_pmem.Prelude.Int.{ℤ, pos, is_neg, pos_part, to_uint64}
use rdma_pmem.World.{
  Ptr, WcOpcode, clock_gettime, poll_cq, Cmd, ok, pure, ◌>>=◌, exhausted, call_int,
}
use rdma_pmem.Node.{Node}

pub data CqIndex : Type 0 where
  send_cq_index recv_cq_index : CqIndex

-- `node->cq[index]`
abbrev pub cq_of : Node → CqIndex → Ptr
cq_of node send_cq_index = node.send_cq
cq_of node recv_cq_index = node.recv_cq

-- the loop `for (done = ...; done < n; done += ret)` over `ibv_poll_cq(cq, entries, wc)`
unfoldable pub poll_loop : (fuel : ℕ) (cq : Ptr) (entries n done : ℕ) → Cmd ℤ
poll_loop zero cq entries n done = exhausted
poll_loop (suc fuel) cq entries n done = if leb n done then pure (pos 0) else do
  ret ← call_int (poll_cq cq entries)
  if is_neg ret then pure ret else poll_loop fuel cq entries n (done + pos_part ret)

-- `ibv_poll_cq(cq, 1, &wc)` with the opcode of the completion
abbrev pub poll_one : Ptr → Cmd (ℤ × WcOpcode)
poll_one cq w t = let t' = poll_cq cq 1 ∷ t in ok (w.int t', w.wc_opcode t') t'

-- wsbenchmark.c asks for 1 completion at a time and the other programs for 8
unfoldable pub node_poll_n_cq : (fuel entries : ℕ) → Node → CqIndex → ℕ → Cmd ℤ
unfolding poll_loop
node_poll_n_cq fuel entries node index n =
    if node.connected then poll_loop fuel (cq_of node index) entries n 0 else pure (pos 0)

unfoldable pub get_time_ns : Cmd ℕ
get_time_ns w t =
    let t' = clock_gettime ∷ t in
    let spec = w.time t' in ok (u64 (u64 (to_uint64 spec.tv_sec * 1_000_000_000) + spec.tv_nsec)) t'
