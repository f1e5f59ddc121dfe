-- ===== src/Scenarios/Interleavings.antt =====
-- An interleaving of main and two threads of a client, and the theorems about it there.
use rdma_pmem.Prelude.{◌≡◌, refl, List, [], ◌∷◌}
use mathlib.Core.List.{map}
use rdma_pmem.Node.{Statistics, no_statistics}
use rdma_pmem.Stats.{Sample, record_sample, add_stats, sum_stats}
use rdma_pmem.Interleaving.{Thread, Move, System, Step, initial, Reach}
use rdma_pmem.Interleaving.Lists.{Each}
use rdma_pmem.Interleaving.Phase.{Returned}
use rdma_pmem.Interleaving.Totals.{OwnRounds, totalled-Sums}

abbrev nodes : List Statistics
nodes = no_statistics ∷ no_statistics ∷ []

abbrev sample : Sample
sample = record { start = 10; send_start = 12; finish = 25 }

-- a run so far, and one step more
abbrev Runs : Type 0
Runs = (s : System) × Reach record_sample (initial nodes) s

-- both threads are created, and the second one makes a round before the first one begins
abbrev begun : Runs
begun = (
  _,
  Reach.later
      (Reach.later
        (Reach.later
          (Reach.later
            (Reach.later (Reach.later Reach.here (Step.creates 0 refl refl))
              (Step.creates 1 refl refl))
            (Step.begins refl))
          (Step.moves 1 refl refl (Move.begins 5 refl refl)))
        (Step.moves 1 refl refl (Move.goes_on refl refl)))
      (Step.moves 1 refl refl (Move.samples sample refl)),
)

-- the first one begins when `stop` is set, and makes no round
abbrev ended : Runs
ended = (
  _,
  Reach.later
      (Reach.later
        (Reach.later (Reach.later begun.1 (Step.stops refl))
          (Step.moves 0 refl refl (Move.begins 7 refl refl)))
        (Step.moves 1 refl refl (Move.stops 30 refl refl)))
      (Step.moves 0 refl refl (Move.stops 31 refl refl)),
)

abbrev stats_of : List Thread → Statistics
stats_of [] = no_statistics
stats_of (x ∷ rest) = x.statistics

abbrev rest_of : List Thread → List Thread
rest_of [] = []
rest_of (x ∷ rest) = rest

abbrev added : Runs
added = (
  _,
  Reach.later
      (Reach.later
        (Reach.later
          (Reach.later
            (Reach.later (Reach.later ended.1 (Step.joins 0 refl refl refl))
              (Step.joins 1 refl refl refl))
            (Step.joined refl))
          (Step.adds 0 no_statistics refl refl))
        (Step.adds 1 _ refl refl))
      (Step.totals _ refl),
)

abbrev sum_of_two : Statistics
sum_of_two =
    add_stats (add_stats no_statistics (stats_of added.0.threads))
      (stats_of (rest_of added.0.threads))

totalled-Sums_example :
    Each Returned added.0.threads
    × (sum_of_two ≡ sum_stats no_statistics (map (λ x. x.statistics) added.0.threads))
    × Each (OwnRounds record_sample nodes) added.0.threads
unfolding record_sample
totalled-Sums_example =
    totalled-Sums record_sample nodes added.0 sum_of_two (λ s n x. refl) added.1 refl
