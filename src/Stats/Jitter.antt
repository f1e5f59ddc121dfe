-- ===== src/Stats/Jitter.antt =====
-- What the statistics of a client's thread say about the rounds that it made.
use rdma_pmem.Prelude.{ℕ, ◌+◌, ◌-◌, ◌^◌, ◌≤◌, ◌<◌, ◌≡◌, refl, List, [], ◌∷◌, length, arith, u64}
use rdma_pmem.Node.{Statistics, no_statistics}
use rdma_pmem.Stats.{Sample, sub64, labs_diff, jitter_step, record_sample, record_all}

-- the times of a round are in order, apart, and before the year 2262
pub record IsOrdered (s : Sample) : Type 0 where
  pub started : s.start ≤ s.send_start
  pub sent : s.send_start < s.finish
  pub bounded : s.finish < 2 ^ 63

abbrev pub AllOrdered : List Sample → Type 0
AllOrdered [] = Unit
AllOrdered (s ∷ rest) = IsOrdered s × AllOrdered rest

-- the sum of the durations, and of the distances between neighbours, with no bound
unfoldable pub total : (Sample → ℕ) → List Sample → ℕ
total f [] = 0
total f (s ∷ rest) = f s + total f rest

unfoldable pub distance : ℕ → ℕ → ℕ
distance a b = a - b + (b - a)

unfoldable pub variation : (Sample → ℕ) → ℕ → List Sample → ℕ
unfolding distance
variation f last [] = 0
variation f last (s ∷ rest) = distance last (f s) + variation f (f s) rest

abbrev pub duration : Sample → ℕ
duration s = s.finish - s.start

abbrev pub send_duration : Sample → ℕ
send_duration s = s.finish - s.send_start

labs_diff-distance : (a b : ℕ) → a < 2 ^ 63 → b < 2 ^ 63 → labs_diff a b ≡ distance a b
unfolding distance
labs_diff-distance a b h k = ground arith

sub64_lem : (a b : ℕ) → b ≤ a → a < 2 ^ 64 → sub64 a b ≡ a - b
sub64_lem a b h k = omega arith

-- the jitter behind a round with the latency `last`
module _ (f : Sample → ℕ) where
  variation_step :
      (j last : ℕ) (s : Sample) (rest : List Sample)
      → 0 < last
      → last < 2 ^ 63
      → f s < 2 ^ 63
      → u64 (jitter_step j last (f s) + variation f (f s) rest)
        ≡ u64 (j + variation f last (s ∷ rest))
  unfolding variation
  variation_step j last s rest h k l = ground (arith, labs_diff-distance last (f s))

pub record Figures (stats : Statistics) (before : Statistics) (last : ℕ) (send_last : ℕ)
    (rounds : List Sample) : Type 0 where
  pub ops : stats.ops ≡ u64 (before.ops + length rounds)
  pub latency : stats.latency ≡ u64 (before.latency + total duration rounds)
  pub jitter : stats.jitter ≡ u64 (before.jitter + variation duration last rounds)
  pub send_latency : stats.send_latency ≡ u64 (before.send_latency + total send_duration rounds)
  pub send_jitter :
      stats.send_jitter ≡ u64 (before.send_jitter + variation send_duration send_last rounds)

abbrev Small : Statistics → Type 0
Small s =
    (s.ops < 2 ^ 64)
    × (s.latency < 2 ^ 64)
    × (s.jitter < 2 ^ 64)
    × (s.send_latency < 2 ^ 64)
    × (s.send_jitter < 2 ^ 64)

-- what one ordered round adds
record Adds (stats next : Statistics) (s : Sample) : Type 0 where
  small : Small next
  ops : next.ops ≡ u64 (stats.ops + 1)
  latency : next.latency ≡ u64 (stats.latency + duration s)
  last_latency : next.last_latency ≡ duration s
  jitter : next.jitter ≡ jitter_step stats.jitter stats.last_latency (duration s)
  send_latency : next.send_latency ≡ u64 (stats.send_latency + send_duration s)
  last_send_latency : next.last_send_latency ≡ send_duration s
  send_jitter :
      next.send_jitter ≡ jitter_step stats.send_jitter stats.last_send_latency (send_duration s)

record_sample-Adds :
    (stats : Statistics) (s : Sample)
    → Small stats
    → IsOrdered s
    → Adds stats (record_sample stats s) s
unfolding record_sample
record_sample-Adds stats s small o =
    rw
      (
        sub64_lem s.finish s.start (omega arith) (omega arith),
        sub64_lem s.finish s.send_start (omega arith) (omega arith),
      )
      (record {
        small = ground arith;
        ops = refl;
        latency = refl;
        last_latency = refl;
        jitter = refl;
        send_latency = refl;
        last_send_latency = refl;
        send_jitter = refl;
      })

record_all-Figures :
    (stats : Statistics) (rounds : List Sample)
    → Small stats
    → (0 < stats.last_latency) × (stats.last_latency < 2 ^ 63)
    → (0 < stats.last_send_latency) × (stats.last_send_latency < 2 ^ 63)
    → AllOrdered rounds
    → Figures
        (record_all record_sample stats rounds)
        stats
        stats.last_latency
        stats.last_send_latency
        rounds
unfolding record_all total
record_all-Figures stats [] small l sl o = unfold variation in omega arith
record_all-Figures stats (s ∷ rest) small l sl (o, os) =
    let next = record_sample stats s in
    let adds = record_sample-Adds stats s small o in
    let ih =
      record_all-Figures next rest adds.small (omega (arith, adds)) (omega (arith, adds)) os in
    record {
      ops = omega (arith, ih, adds);
      latency = omega (arith, ih, adds);
      jitter =
          rw (ih.jitter, adds.jitter, adds.last_latency)
            (variation_step duration stats.jitter stats.last_latency s rest l.0 l.1 (omega arith));
      send_latency = omega (arith, ih, adds);
      send_jitter =
          rw (ih.send_jitter, adds.send_jitter, adds.last_send_latency)
            (variation_step send_duration stats.send_jitter stats.last_send_latency s rest sl.0 sl.1
              (omega arith));
    }

-- From fresh statistics, rounds whose times are in order and before 2 ^ 63 leave, modulo 2 ^ 64: their
-- number, the sum of their durations, the sum of the distances between neighbouring durations, and
-- both sums for the part from the send on.
pub record_all_fresh :
    (s : Sample) (rest : List Sample)
    → AllOrdered (s ∷ rest)
    → let stats = record_all record_sample no_statistics (s ∷ rest) in
      (stats.ops ≡ u64 (length (s ∷ rest)))
      × (stats.latency ≡ u64 (total duration (s ∷ rest)))
      × (stats.jitter ≡ u64 (variation duration (duration s) rest))
      × (stats.send_latency ≡ u64 (total send_duration (s ∷ rest)))
      × (stats.send_jitter ≡ u64 (variation send_duration (send_duration s) rest))
unfolding record_all total
record_all_fresh s rest (o, os) =
    let next = record_sample no_statistics s in
    let adds = record_sample-Adds no_statistics s (omega arith) o in
    let all =
      record_all-Figures next rest adds.small (omega (arith, adds)) (omega (arith, adds)) os in
    (
      omega (arith, adds, all),
      omega (arith, adds, all),
      rw (all.jitter, adds.jitter, adds.last_latency) (omega arith),
      omega (arith, adds, all),
      rw (all.send_jitter, adds.send_jitter, adds.last_send_latency) (omega arith),
    )
