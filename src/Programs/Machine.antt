-- ===== src/Programs/Machine.antt =====
-- The event loops of the five programs implement the machine of Events/Machine.
use rdma_pmem.Prelude.{ℕ, ◌≡◌}
use rdma_pmem.Prelude.Int.{ℤ, pos}
use rdma_pmem.World.{Trace, World, ok}
use rdma_pmem.World.After
use rdma_pmem.Node.{Config}
use rdma_pmem.Events.{Test, connect_events}
use rdma_pmem.Events.Machine.{Implements, event_loop-Implements}
use rdma_pmem.Programs.{Program, variant}
use rdma_pmem.Programs.Quiet.{variant-Quiet}

module _ (p : Program) (c : Config) (fuel : ℕ) (test : Test) (w : World) (t : Trace) {r : ℤ × Test}
    {t' : Trace} where
  -- In each of the five programs, whatever happens outside, a connect_events that returns, with any
  -- result, has taken the machine that counts connections from the counters before to those behind
  -- it, by one step for each event that was acknowledged, in their order.
  pub connect_events-Implements :
      connect_events (variant p) c fuel test w t ≡ ok r t' → Implements test t r.1 t'
  unfolding connect_events
  connect_events-Implements =
      After.apply
        (event_loop-Implements (variant p) c w (variant-Quiet w p) (λ s. s.connects_left) fuel
          (pos 0) test t)
        r t'
