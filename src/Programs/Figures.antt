-- ===== src/Programs/Figures.antt =====
-- What the client's thread of each program leaves in the statistics of its node.
use rdma_pmem.Prelude.{ℕ, List, [], ◌∷◌}
use rdma_pmem.World.{World}
use rdma_pmem.World.Keeps
use rdma_pmem.World.Keeps.{Keeps}
use rdma_pmem.World.After
use rdma_pmem.Node.{Node, Statistics}
use rdma_pmem.Stats.{Sample, PlainSample, record_sample, record_plain}
use rdma_pmem.World.Triple
use rdma_pmem.World.Triple.{Triple}
use rdma_pmem.Client.Figures.Rounds.{sample_readings}
use rdma_pmem.Rb
use rdma_pmem.Programs.{Program}

-- what a round of the program reads, and what it adds to the statistics
abbrev pub SampleOf : Program → Type 0
SampleOf Program.wsbenchmark = Sample
SampleOf Program.wibenchmark = Sample
SampleOf _ = PlainSample

abbrev pub note : (p : Program) → Statistics → SampleOf p → Statistics
note Program.wsbenchmark = record_sample
note Program.wibenchmark = record_sample
note Program.wrbenchmark = record_plain
note Program.wbenchmark = record_plain
note Program.rbenchmark = record_plain

abbrev pub plain_readings : PlainSample → List ℕ
plain_readings s = s.finish ∷ s.start ∷ []

-- the times in what a round of the program reads, the newest first
abbrev pub readings : (p : Program) → SampleOf p → List ℕ
readings Program.wsbenchmark = sample_readings
readings Program.wibenchmark = sample_readings
readings Program.wrbenchmark = plain_readings
readings Program.wbenchmark = plain_readings
readings Program.rbenchmark = plain_readings
