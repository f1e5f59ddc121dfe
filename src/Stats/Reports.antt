-- ===== src/Stats/Reports.antt =====
-- When printing the figures divides by zero.
use mathlib.Core.Path.{subst}
use rdma_pmem.Prelude.{
  Bool, ℕ, zero, suc, ◌-◌, ◌⊎◌, refl, ◌+◌, ◌*◌, ◌/◌, ◌≤◌, ◌<◌, ◌^◌, ◌≡◌, inl, inr, Bool-cases,
  arith,
}
use rdma_pmem.World.{Trace, World, ok, fault}
use rdma_pmem.Node.{Config, Statistics}
use rdma_pmem.Stats.{Report, csv, plain_csv, table, print_stats}

-- `q` is the average of `sum` over `n`, rounded down
abbrev pub IsAverage : (sum n q : ℕ) → Type 0
IsAverage sum n q = (q * n ≤ sum) × (sum < q * n + n)

-- the latencies are averages over the rounds, and the jitters over the steps between rounds
abbrev pub Reports : Statistics → (steps : ℕ) → Report → Type 0
Reports stats steps (csv ops latency jitter send_latency send_jitter) =
    (ops ≡ stats.ops)
    × IsAverage stats.latency ops latency
    × IsAverage stats.jitter steps jitter
    × IsAverage stats.send_latency ops send_latency
    × IsAverage stats.send_jitter steps send_jitter
Reports stats steps (plain_csv ops latency jitter) =
    (ops ≡ stats.ops) × IsAverage stats.latency ops latency × IsAverage stats.jitter steps jitter
Reports stats steps (table ops latency jitter) =
    (ops ≡ stats.ops) × IsAverage stats.latency ops latency × IsAverage stats.jitter steps jitter

divides_by_zero :
    (measures_send : Bool) (c : Config) (stats : Statistics) (w : World) (t : Trace)
    → stats.ops ≤ 1
    → print_stats measures_send c stats w t ≡ fault t
unfolding print_stats
divides_by_zero measures_send c stats w t h = ground arith

prints :
    (measures_send : Bool) (c : Config) (stats : Statistics) (w : World) (t : Trace) (n : ℕ)
    → stats.ops ≡ suc (suc n)
    → stats.ops < 2 ^ 64
    → (r : Report) × (print_stats measures_send c stats w t ≡ ok r t) × Reports stats (suc n) r
unfolding print_stats
prints measures_send c stats w t n two h = elim (Bool-cases c.csv_output) [
  | inl e ↦ elim (Bool-cases measures_send) [
    | inl m ↦ (
      csv stats.ops (stats.latency / stats.ops) (stats.jitter / suc n)
          (stats.send_latency / stats.ops) (stats.send_jitter / suc n),
      ground arith,
      ground arith,
    )
    | inr m ↦ (
      plain_csv stats.ops (stats.latency / stats.ops) (stats.jitter / suc n),
      ground arith,
      ground arith,
    )
  ]
  | inr e ↦ (
    table stats.ops (stats.latency / stats.ops) (stats.jitter / suc n),
    ground arith,
    ground arith,
  )
]

-- With two rounds or more, of a count below 2 ^ 64, print_stats prints averages, and with fewer it
-- divides by zero.
pub print_stats-Reports :
    (measures_send : Bool) (c : Config) (stats : Statistics) (w : World) (t : Trace)
    → stats.ops < 2 ^ 64
    → ((r : Report) × (1 < stats.ops)
        × (print_stats measures_send c stats w t ≡ ok r t)
        × Reports stats (stats.ops - 1) r)
      ⊎ ((stats.ops ≤ 1) × (print_stats measures_send c stats w t ≡ fault t))
print_stats-Reports measures_send c stats w t small = by_count stats.ops refl
  where
    by_count :
        (n : ℕ)
        → stats.ops ≡ n
        → ((r : Report) × (1 < stats.ops)
            × (print_stats measures_send c stats w t ≡ ok r t)
            × Reports stats (stats.ops - 1) r)
          ⊎ ((stats.ops ≤ 1) × (print_stats measures_send c stats w t ≡ fault t))
    by_count zero e =
        inr (omega arith, divides_by_zero measures_send c stats w t (omega (arith, e)))
    by_count (suc zero) e =
        inr (omega arith, divides_by_zero measures_send c stats w t (omega (arith, e)))
    by_count (suc (suc n)) e =
        let (r, run, reports) = prints measures_send c stats w t n e small in
        let steps : suc n ≡ stats.ops - 1 = omega (arith, e) in
        inl (r, omega (arith, e), run, subst (λ k. Reports stats k r) steps reports)
