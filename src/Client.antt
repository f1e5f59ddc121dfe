-- ===== src/Client.antt =====
-- The client's thread for one connection: worker of pmrdmabenchmark/src/wsbenchmark.c and of
-- wibenchmark.c. The loop and its statistics are shared, also with the programs of Wr and Rb, and a
-- round is the program's own.
pub mod Waiting
pub mod Protocol
pub mod Figures
use rdma_pmem.Prelude.{ℕ, zero, suc, if◌then◌else◌, Bool, true, false, not, Option, none, some}
use rdma_pmem.Prelude.Int.{ℤ, is_zero}
use rdma_pmem.World.{load_begin, load_stop, Cmd, pure, ◌>>=◌, ◌>>◌, crash, exhausted, call_flag}
use rdma_pmem.Node.{Config, Node, Statistics, is_null}
use rdma_pmem.Stats.{Sample, sub64, record_sample, node_print_stats}
use rdma_pmem.Post.{
  post_send_write, post_send_write_with_imm, post_recv_notification, post_send_flush,
}
use rdma_pmem.Poll.{send_cq_index, recv_cq_index, node_poll_n_cq, get_time_ns}

-- a call whose result, if not 0, ends the thread
abbrev pub and_then {ℓ} : {S : Type ℓ} → Cmd ℤ → Cmd (Option S) → Cmd (Option S)
and_then m rest = do ret ← m; if is_zero ret then rest else pure none

-- wsbenchmark.c, one round; `none` is `return NULL`
pub ws_round : (fuel : ℕ) → Config → Node → Cmd (Option Sample)
ws_round fuel c node = do
  start ← get_time_ns
  and_then (post_send_write c node) (
      and_then (if c.no_ack then pure (ℤ.pos 0) else node_poll_n_cq fuel 1 node send_cq_index 1) (do
        send_start ← get_time_ns
        and_then (post_recv_notification 200 node) (
            and_then (post_send_flush c node) (
              and_then (node_poll_n_cq fuel 1 node send_cq_index 1) (
                and_then (node_poll_n_cq fuel 1 node recv_cq_index 1) (do
                  finish ← get_time_ns
                  pure (
                      some
                        (record { start = start; send_start = send_start; finish = finish }))))))))

-- wibenchmark.c, one round
unfoldable pub wi_round : (fuel : ℕ) → Config → Node → Cmd (Option Sample)
wi_round fuel c node = do
  start ← get_time_ns
  and_then (post_recv_notification 0 node) (
      and_then (post_send_write_with_imm c node) (
        and_then (if c.no_ack then pure (ℤ.pos 0) else node_poll_n_cq fuel 8 node send_cq_index 1)
          (do
            send_start ← get_time_ns
            and_then (node_poll_n_cq fuel 8 node recv_cq_index 1) (do
              finish ← get_time_ns
              pure (some (record { start = start; send_start = send_start; finish = finish }))))))

-- `while (!begin)`
pub wait_begin : (fuel : ℕ) → Cmd (Unit {0})
wait_begin zero = exhausted
wait_begin (suc fuel) = do begin ← call_flag load_begin; if begin then pure tt else wait_begin fuel

-- what a round reads is a sample of the type `S`, and `note` adds it to the statistics
abbrev pub Round {ℓ} : Type ℓ → Type ℓ
Round S = (fuel : ℕ) → Config → Node → Cmd (Option S)

abbrev pub set_elapsed : Node → ℕ → Node
set_elapsed node n =
    let stats = node.statistics in
    record node { statistics = record stats { elapsed_nanoseconds = n } }

-- worker: what follows `while (!stop)`
pub finish : Config → Bool × Node → Cmd Node
finish c (stopped, node) = if not stopped then pure node else do
  now ← get_time_ns
  let node = set_elapsed node (sub64 now node.statistics.elapsed_nanoseconds)
  if c.debug_log then (do node_print_stats node; pure node) else pure node

module _ {ℓ} {S : Type ℓ} (note : Statistics → S → Statistics) (round : Round S) where
  -- `while (!stop)`; `true` if the flag ended it, `false` if a call failed
  pub rounds : (fuel : ℕ) → Config → Node → Cmd (Bool × Node)
  rounds zero c node = exhausted
  rounds (suc fuel) c node = do
    stop ← call_flag load_stop
    if stop then pure (true, node) else do
      outcome ← round fuel c node
      elim outcome [
        | none ↦ pure (false, node)
        | some s ↦ rounds fuel c (record node { statistics = note node.statistics s })
      ]

  -- worker: what follows `while (!begin)`
  pub run_rounds : (fuel : ℕ) → Config → Node → Cmd Node
  unfolding rounds finish
  run_rounds fuel c node =
      if is_null node.stats
      then crash
      else do began ← get_time_ns; r ← rounds fuel c (set_elapsed node began); finish c r

  unfoldable pub worker : (fuel : ℕ) → Config → Node → Cmd Node
  unfolding wait_begin run_rounds
  worker fuel c node = do wait_begin fuel; run_rounds fuel c node

unfoldable pub ws_worker : (fuel : ℕ) → Config → Node → Cmd Node
unfolding worker ws_round
ws_worker = worker record_sample ws_round

unfoldable pub wi_worker : (fuel : ℕ) → Config → Node → Cmd Node
unfolding worker wi_round
wi_worker = worker record_sample wi_round
