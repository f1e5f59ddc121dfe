-- ===== src/Stats.antt =====
-- The figures of pmrdmabenchmark/src/wsbenchmark.c: what a round of a client thread adds to
-- `struct statistics`, the totals of run_client, and print_stats. The throughput, a `double`, is
-- left out. `labs((long)a - (long)b)` is taken of the 64-bit difference.
pub mod Jitter
pub mod Plain
pub mod Totals
pub mod Reports
use rdma_pmem.Prelude.{
  Bool, ℕ, ◌+◌, ◌-◌, ◌/◌, ◌^◌, ltb, ◌==◌, if◌then◌else◌, ◌||◌, List, [], ◌∷◌, u64,
}
use rdma_pmem.Prelude.Int.{to_uint64}
use rdma_pmem.World.{Cmd, pure, crash}
use rdma_pmem.Node.{Config, Statistics, no_statistics, Node}

-- a - b on uint64_t
abbrev pub sub64 : ℕ → ℕ → ℕ
sub64 a b = u64 (a + 2 ^ 64 - b)

abbrev pub labs_diff : ℕ → ℕ → ℕ
labs_diff a b = let d = sub64 a b in if ltb d (2 ^ 63) then d else 2 ^ 64 - d

-- the times that a round reads: `start`, `send_start` and `end`
pub record Sample : Type 0 where
  pub start : ℕ
  pub send_start : ℕ
  pub finish : ℕ

abbrev pub latency_of : Sample → ℕ
latency_of s = sub64 s.finish s.start

abbrev pub send_latency_of : Sample → ℕ
send_latency_of s = sub64 s.finish s.send_start

-- the step of a jitter sum from the last latency to this one
abbrev pub jitter_step : ℕ → ℕ → ℕ → ℕ
jitter_step sum last current = if last == 0 then sum else u64 (sum + labs_diff last current)

-- worker: the update of `node->stats` at the end of a round
unfoldable pub record_sample : Statistics → Sample → Statistics
record_sample stats s = record stats {
  ops = u64 (stats.ops + 1);
  latency = u64 (stats.latency + latency_of s);
  last_latency = latency_of s;
  jitter = jitter_step stats.jitter stats.last_latency (latency_of s);
  send_latency = u64 (stats.send_latency + send_latency_of s);
  last_send_latency = send_latency_of s;
  send_jitter = jitter_step stats.send_jitter stats.last_send_latency (send_latency_of s);
}

-- the times that a round of a program that does not measure the send reads
pub record PlainSample : Type 0 where
  pub start : ℕ
  pub finish : ℕ

abbrev pub plain_latency_of : PlainSample → ℕ
plain_latency_of s = sub64 s.finish s.start

-- the same in wrbenchmark.c, wbenchmark.c and rbenchmark.c
unfoldable pub record_plain : Statistics → PlainSample → Statistics
record_plain stats s = record stats {
  ops = u64 (stats.ops + 1);
  latency = u64 (stats.latency + plain_latency_of s);
  last_latency = plain_latency_of s;
  jitter = jitter_step stats.jitter stats.last_latency (plain_latency_of s);
}

-- the statistics after the rounds of a list, the first one first
unfoldable pub record_all {ℓ} :
    {S : Type ℓ} → (Statistics → S → Statistics) → Statistics → List S → Statistics
record_all note stats [] = stats
record_all note stats (s ∷ rest) = record_all note (note stats s) rest

-- run_client: one round of the loop over the nodes that makes the totals; the figures of the send,
-- of a program that does not measure it, are 0
unfoldable pub add_stats : Statistics → Statistics → Statistics
add_stats total stats = record total {
  latency = u64 (total.latency + stats.latency);
  ops = u64 (total.ops + stats.ops);
  jitter = u64 (total.jitter + stats.jitter);
  elapsed_nanoseconds = u64 (total.elapsed_nanoseconds + stats.elapsed_nanoseconds);
  send_latency = u64 (total.send_latency + stats.send_latency);
  send_jitter = u64 (total.send_jitter + stats.send_jitter);
}

unfoldable pub sum_stats : Statistics → List Statistics → Statistics
sum_stats total [] = total
sum_stats total (s ∷ rest) = sum_stats (add_stats total s) rest

-- run_client: the totals with the average time, `elapsed_nanoseconds / connections`
pub total_stats : Config → List Statistics → Cmd Statistics
unfolding sum_stats
total_stats c stats =
    let total = sum_stats no_statistics stats in
    let divisor = to_uint64 c.connections in
    if divisor == 0
    then crash
    else pure (record total { elapsed_nanoseconds = total.elapsed_nanoseconds / divisor })

-- the numbers that are printed
pub data Report : Type 0 where
  csv : (ops latency jitter send_latency send_jitter : ℕ) → Report
  plain_csv : (ops latency jitter : ℕ) → Report
  table : (ops latency jitter : ℕ) → Report

-- a division by zero ends the program; `measures_send` is false for the programs that print no
-- figures of the send
unfoldable pub print_stats : (measures_send : Bool) → Config → Statistics → Cmd Report
print_stats measures_send c stats =
    let below = sub64 stats.ops 1 in
    if stats.ops == 0 || below == 0
    then crash
    else if c.csv_output
    then (if measures_send
        then pure (
            csv stats.ops (stats.latency / stats.ops) (stats.jitter / below)
              (stats.send_latency / stats.ops) (stats.send_jitter / below))
        else pure (plain_csv stats.ops (stats.latency / stats.ops) (stats.jitter / below)))
    else pure (table stats.ops (stats.latency / stats.ops) (stats.jitter / below))

unfoldable pub node_print_stats : Node → Cmd Report
node_print_stats node =
    let stats = node.statistics in
    let below = sub64 stats.ops 1 in
    if stats.ops == 0 || below == 0
    then crash
    else pure (table stats.ops (stats.latency / stats.ops) (stats.jitter / below))
