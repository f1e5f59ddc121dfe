-- ===== src/Client/Waiting.antt =====
-- What a client's thread does to the trace, from what its rounds do.
use rdma_pmem.Prelude.{ℕ, zero, suc, ◌∷◌, ◌≡◌, arith, not, true, false, Option, none}
use rdma_pmem.Prelude.Int.{ℤ, is_zero}
use rdma_pmem.World.{Cmd, load_begin, load_stop, clock_gettime, Trace, World, call_flag, trace_of}
use rdma_pmem.World.Keeps
use rdma_pmem.World.Keeps.{Keeps}
use rdma_pmem.Node.{Config, Node, Statistics, is_null}
use rdma_pmem.Stats.{sub64, node_print_stats}
use rdma_pmem.Poll.{get_time_ns}
use rdma_pmem.Client.{and_then, Round, set_elapsed, wait_begin, rounds, finish, run_rounds, worker}

-- the calls of the thread outside a round
pub record KeepsLoop {ℓ} (P : Trace → Type ℓ) : Type ℓ where
  pub clock : (t : Trace) → P t → P (clock_gettime ∷ t)
  pub begin : (t : Trace) → P t → P (load_begin ∷ t)
  pub stop : (t : Trace) → P t → P (load_stop ∷ t)

abbrev pub with_statistics : Node → Statistics → Node
with_statistics node s = record node { statistics = s }

module _ {ℓ} {w : World} {P : Trace → Type ℓ} where
  -- a call that ends the round unless it returns 0
  pub and_then-Keeps {κ} :
      {S : Type κ} {m : Cmd ℤ} {rest : Cmd (Option S)}
      → Keeps w P m
      → Keeps w P rest
      → Keeps w P (and_then m rest)
  and_then-Keeps h g = Keeps.bind h λ ret. Keeps.branch (is_zero ret) g (Keeps.pure-Keeps none)

module _ {ℓ} {w : World} {P : Trace → Type ℓ} (loop : KeepsLoop P) where
  pub get_time_ns-Keeps : Keeps w P get_time_ns
  unfolding get_time_ns
  get_time_ns-Keeps = Keeps.step get_time_ns loop.clock

  wait_begin-Keeps : (fuel : ℕ) → Keeps w P (wait_begin fuel)
  unfolding wait_begin
  wait_begin-Keeps zero = record { keep = λ t p. p }
  wait_begin-Keeps (suc fuel) =
      Keeps.bind (Keeps.step (call_flag load_begin) loop.begin)
        λ begin. Keeps.branch begin (Keeps.pure-Keeps tt) (wait_begin-Keeps fuel)

  print-Keeps : (node : Node) → Keeps w P (node_print_stats node)
  unfolding node_print_stats
  print-Keeps node =
      Keeps.step _
        λ t p. let still : trace_of (node_print_stats node w t) ≡ t = ground arith in rw still p

  module _ {κ} {S : Type κ} (note : Statistics → S → Statistics) (round : Round S) (c : Config)
      (node : Node)
      (kept : (fuel : ℕ) (s : Statistics) → Keeps w P (round fuel c (with_statistics node s))) where
    rounds-Keeps :
        (fuel : ℕ) (s : Statistics) → Keeps w P (rounds note round fuel c (with_statistics node s))
    unfolding rounds
    rounds-Keeps zero s = record { keep = λ t p. p }
    rounds-Keeps (suc fuel) s = Keeps.bind (Keeps.step (call_flag load_stop) loop.stop) λ stop.
        Keeps.branch stop (Keeps.pure-Keeps (true, with_statistics node s)) (
          Keeps.bind (kept fuel s) λ outcome.
            Keeps.on_option outcome (Keeps.pure-Keeps (false, with_statistics node s))
              λ x. rounds-Keeps fuel (note s x))

    -- A property that the calls of the loop and each round keep is kept by the thread.
    pub worker-Keeps : (fuel : ℕ) → Keeps w P (worker note round fuel c node)
    unfolding worker run_rounds finish
    worker-Keeps fuel = Keeps.bind (wait_begin-Keeps fuel) λ _.
        Keeps.branch (is_null node.stats) (record { keep = λ t p. p })
          (Keeps.bind get_time_ns-Keeps λ began.
            Keeps.bind (rounds-Keeps fuel (set_elapsed node began).statistics) λ r.
              Keeps.branch (not r.0) (Keeps.pure-Keeps r.1) (
                Keeps.bind get_time_ns-Keeps λ now.
                  let after = set_elapsed r.1 (sub64 now r.1.statistics.elapsed_nanoseconds) in
                  Keeps.branch c.debug_log
                    (Keeps.bind (print-Keeps after) (λ _. Keeps.pure-Keeps after))
                    (Keeps.pure-Keeps after)))
