-- ===== src/Stats/Totals.antt =====
-- What the totals of run_client say about the statistics of the threads.
use rdma_pmem.Prelude.{ℕ, ◌+◌, ◌/◌, ◌^◌, ◌<◌, ◌≡◌, ap, refl, ◌==◌, false, List, [], ◌∷◌, arith, u64}
use rdma_pmem.Prelude.Int.{to_uint64}
use rdma_pmem.World.{Trace, World, ok}
use rdma_pmem.Node.{Config, Statistics, no_statistics}
use rdma_pmem.Stats.{add_stats, sum_stats, total_stats}

-- the sum of a figure over the threads, with no bound
unfoldable pub sum_of : (Statistics → ℕ) → List Statistics → ℕ
sum_of f [] = 0
sum_of f (s ∷ rest) = f s + sum_of f rest

-- the figures of `total` are the sums, modulo 2 ^ 64, added to those of `before`
record Adds (before total : Statistics) (stats : List Statistics) : Type 0 where
  ops : total.ops ≡ u64 (before.ops + sum_of (λ s. s.ops) stats)
  latency : total.latency ≡ u64 (before.latency + sum_of (λ s. s.latency) stats)
  jitter : total.jitter ≡ u64 (before.jitter + sum_of (λ s. s.jitter) stats)
  elapsed :
      total.elapsed_nanoseconds
      ≡ u64 (before.elapsed_nanoseconds + sum_of (λ s. s.elapsed_nanoseconds) stats)
  send_latency : total.send_latency ≡ u64 (before.send_latency + sum_of (λ s. s.send_latency) stats)
  send_jitter : total.send_jitter ≡ u64 (before.send_jitter + sum_of (λ s. s.send_jitter) stats)

abbrev IsSmall : Statistics → Type 0
IsSmall s =
    (s.ops < 2 ^ 64)
    × (s.latency < 2 ^ 64)
    × (s.jitter < 2 ^ 64)
    × (s.elapsed_nanoseconds < 2 ^ 64)
    × (s.send_latency < 2 ^ 64)
    × (s.send_jitter < 2 ^ 64)

add_stats-IsSmall : (a b : Statistics) → IsSmall (add_stats a b)
unfolding add_stats
add_stats-IsSmall a b = omega arith

sum_stats-Adds :
    (before : Statistics) (stats : List Statistics)
    → IsSmall before
    → Adds before (sum_stats before stats) stats
unfolding sum_stats sum_of add_stats
sum_stats-Adds before [] small = record {
  ops = omega arith;
  latency = omega arith;
  jitter = omega arith;
  elapsed = omega arith;
  send_latency = omega arith;
  send_jitter = omega arith;
}
sum_stats-Adds before (s ∷ rest) small =
    let ih = sum_stats-Adds (add_stats before s) rest (add_stats-IsSmall before s) in
    record {
      ops = omega (arith, ih.ops);
      latency = omega (arith, ih.latency);
      jitter = omega (arith, ih.jitter);
      elapsed = omega (arith, ih.elapsed);
      send_latency = omega (arith, ih.send_latency);
      send_jitter = omega (arith, ih.send_jitter);
    }

-- what run_client prints of the threads' statistics
pub record Totals (c : Config) (stats : List Statistics) (total : Statistics) : Type 0 where
  pub ops : total.ops ≡ u64 (sum_of (λ s. s.ops) stats)
  pub latency : total.latency ≡ u64 (sum_of (λ s. s.latency) stats)
  pub jitter : total.jitter ≡ u64 (sum_of (λ s. s.jitter) stats)
  pub elapsed :
      total.elapsed_nanoseconds
      ≡ u64 (sum_of (λ s. s.elapsed_nanoseconds) stats) / to_uint64 c.connections
  pub send_latency : total.send_latency ≡ u64 (sum_of (λ s. s.send_latency) stats)
  pub send_jitter : total.send_jitter ≡ u64 (sum_of (λ s. s.send_jitter) stats)

elapsed_sum :
    (stats : List Statistics)
    → (sum_stats no_statistics stats).elapsed_nanoseconds
      ≡ u64 (sum_of (λ s. s.elapsed_nanoseconds) stats)
elapsed_sum stats =
    let adds = sum_stats-Adds no_statistics stats (omega arith) in omega (arith, adds.elapsed)

-- If the number of connections is not 0, then total_stats returns the sums of the threads' figures,
-- modulo 2 ^ 64, and of the elapsed times the sum divided by the number of connections.
pub total_stats-Totals :
    (c : Config) (stats : List Statistics) (w : World) (t : Trace)
    → (to_uint64 c.connections == 0) ≡ false
    → (total : Statistics) × (total_stats c stats w t ≡ ok total t) × Totals c stats total
unfolding total_stats
total_stats-Totals c stats w t some_connection =
    let sum = sum_stats no_statistics stats in
    let adds = sum_stats-Adds no_statistics stats (omega arith) in
    (
      record sum { elapsed_nanoseconds = sum.elapsed_nanoseconds / to_uint64 c.connections },
      rw some_connection refl,
      record {
        ops = omega (arith, adds.ops);
        latency = omega (arith, adds.latency);
        jitter = omega (arith, adds.jitter);
        elapsed = ap (λ n. n / to_uint64 c.connections) (elapsed_sum stats);
        send_latency = omega (arith, adds.send_latency);
        send_jitter = omega (arith, adds.send_jitter);
      },
    )
