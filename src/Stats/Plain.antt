-- ===== src/Stats/Plain.antt =====
-- The programs that do not measure the send record the other figures as the others do.
use rdma_pmem.Prelude.{◌≡◌, refl, List, [], ◌∷◌}
use mathlib.Core.List.{map}
use rdma_pmem.Node.{Statistics}
use rdma_pmem.Stats.{Sample, PlainSample, record_sample, record_plain, record_all}

-- the times that a program without the send reads of the same round
abbrev pub plain : Sample → PlainSample
plain s = record { start = s.start; finish = s.finish }

pub record Agree (a b : Statistics) : Type 0 where
  pub ops : a.ops ≡ b.ops
  pub latency : a.latency ≡ b.latency
  pub last_latency : a.last_latency ≡ b.last_latency
  pub jitter : a.jitter ≡ b.jitter

step-Agree :
    (a b : Statistics) (s : Sample)
    → Agree a b
    → Agree (record_plain a (plain s)) (record_sample b s)
unfolding record_plain record_sample
step-Agree a b s h = record {
  ops = rw h.ops refl;
  latency = rw h.latency refl;
  last_latency = refl;
  jitter = rw (h.jitter, h.last_latency) refl;
}

rounds-Agree :
    (a b : Statistics) (samples : List Sample)
    → Agree a b
    → Agree (record_all record_plain a (map plain samples)) (record_all record_sample b samples)
unfolding record_all
rounds-Agree a b [] h = h
rounds-Agree a b (s ∷ rest) h =
    rounds-Agree (record_plain a (plain s)) (record_sample b s) rest (step-Agree a b s h)

-- For any rounds, the programs that do not measure the send record the same number, latencies and
-- jitter as those that do.
pub record_plain_agrees :
    (stats : Statistics) (samples : List Sample)
    → Agree
        (record_all record_plain stats (map plain samples))
        (record_all record_sample stats samples)
record_plain_agrees stats samples =
    rounds-Agree stats stats samples
      (record { ops = refl; latency = refl; last_latency = refl; jitter = refl })
