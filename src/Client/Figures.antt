-- ===== src/Client/Figures.antt =====
-- What a client's thread leaves in the statistics of its node, and the times that it reads.
pub mod Rounds
use rdma_pmem.Prelude.{
  ℕ, zero, suc, ◌+◌, ◌*◌, ◌≡◌, ◌⊎◌, inl, inr, refl, sym, not, [], ◌∷◌, ◌++◌, List, length, true,
  false, arith, none, some, Option, if◌then◌else◌, Bool, u64, Bool-cases,
}
use rdma_pmem.Prelude.Int.{ℤ, is_zero, to_uint64}
use mathlib.Core.List.{append_assoc}
use rdma_pmem.World.{
  load_begin, load_stop, clock_gettime, Timespec, Call, Trace, World, call_flag, trace_of, Cmd, ok,
  fault, pure, crash, ◌>>=◌,
}
use rdma_pmem.World.Keeps
use rdma_pmem.World.Keeps.{Keeps}
use rdma_pmem.World.After
use rdma_pmem.World.After.{After}
use rdma_pmem.World.Triple
use rdma_pmem.World.Triple.{Triple}
use rdma_pmem.Node.{Config, Node, Statistics, is_null}
use rdma_pmem.Stats.{sub64, record_all, node_print_stats}
use rdma_pmem.Poll.{get_time_ns}
use rdma_pmem.Client.{and_then, Round, set_elapsed, wait_begin, rounds, finish, run_rounds, worker}
use rdma_pmem.Client.Waiting.{with_statistics}

-- the reads of the flag that ends the rounds
abbrev pub stop_reads : Trace → ℕ
stop_reads [] = 0
stop_reads (load_stop ∷ t) = suc (stop_reads t)
stop_reads (x ∷ t) = stop_reads t

-- in 64 bits
abbrev nanoseconds : Timespec → ℕ
nanoseconds spec = u64 (u64 (to_uint64 spec.tv_sec * 1_000_000_000) + spec.tv_nsec)

-- the times read from the clock, the newest first
abbrev pub times : World → Trace → List ℕ
times w [] = []
times w (clock_gettime ∷ t) = nanoseconds (w.time (clock_gettime ∷ t)) ∷ times w t
times w (x ∷ t) = times w t

-- how often the flag was read so far, and the times
abbrev pub At : World → ℕ → List ℕ → Trace → Type 0
At w n l t = (stop_reads t ≡ n) × (times w t ≡ l)

-- A round that yields a sample has read the times in it; one that fails has read some times.
abbrev pub Rounded {ℓ} :
    {S : Type ℓ} → World → (S → List ℕ) → ℕ → List ℕ → Option S → Trace → Type 0
Rounded w readings n l none t = (stop_reads t ≡ n) × (part : List ℕ) × (times w t ≡ part ++ l)
Rounded w readings n l (some s) t = At w n (readings s ++ l) t

abbrev pub Timed {ℓ} : {S : Type ℓ} → World → (S → List ℕ) → Round S → Config → Node → Type ℓ
Timed w readings round c node =
    (fuel : ℕ) (s : Statistics) (n : ℕ) (l : List ℕ)
    → Triple w (At w n l) (round fuel c (with_statistics node s)) (Rounded w readings n l)

pub clock-At :
    {w : World} {n : ℕ} {l : List ℕ} → Triple w (At w n l) get_time_ns (λ now. At w n (now ∷ l))
unfolding get_time_ns
clock-At = Triple.step get_time_ns λ t p. After.returned (p.0, rw p.1 refl)

-- a call that ends the round unless it returns 0, behind the reads of `part`
pub and_then-Rounded {ℓ} :
    {S : Type ℓ} {w : World} {n : ℕ} {l : List ℕ} (readings : S → List ℕ) (part : List ℕ)
    {m : Cmd ℤ} {rest : Cmd (Option S)}
    → Keeps w (At w n (part ++ l)) m
    → Triple w (At w n (part ++ l)) rest (Rounded w readings n l)
    → Triple w (At w n (part ++ l)) (and_then m rest) (Rounded w readings n l)
and_then-Rounded readings part h g =
    Triple.next (Triple.kept h) λ ret.
      Triple.branch (is_zero ret) (λ z. g) λ z. Triple.pure-Triple none λ t p. (p.0, part, p.1)

-- the times read in rounds, the newest first
abbrev pub all_readings {ℓ} : {S : Type ℓ} → (S → List ℕ) → List S → List ℕ
all_readings readings [] = []
all_readings readings (x ∷ rest) = all_readings readings rest ++ readings x

-- The rounds leave their statistics, as many as the flag was read, less one, and the times read are
-- those in their samples and some of a round that failed.
abbrev Recorded {ℓ} :
    {S : Type ℓ}
    → World
    → (S → List ℕ)
    → (Statistics → S → Statistics)
    → Node
    → Statistics
    → Trace
    → Bool × Node
    → Trace
    → Type ℓ
Recorded {S} w readings note node s t r t' =
    (samples : List S) × (part : List ℕ) × (r.1 ≡ with_statistics node (record_all note s samples))
    × (stop_reads t' ≡ stop_reads t + length samples + 1)
    × (times w t' ≡ part ++ (all_readings readings samples ++ times w t))
    × (r.0 ≡ true → part ≡ [])

-- The thread returns: it leaves the statistics of as many rounds as it has read the flag, less one.
-- Before them it has read a time `began`, in them the times of their samples, and behind them the
-- time that the elapsed time reaches to; or a round has failed and the elapsed time is left as
-- `began`.
abbrev pub Records {ℓ} :
    {S : Type ℓ}
    → World
    → (S → List ℕ)
    → (Statistics → S → Statistics)
    → Node
    → Trace
    → Node
    → Trace
    → Type ℓ
Records {S} w readings note node t node' t' =
    (samples : List S) × (began : ℕ) × (elapsed : ℕ) × (node'
      ≡ set_elapsed (with_statistics node (record_all note node.statistics samples)) elapsed)
    × (stop_reads t' ≡ stop_reads t + length samples + 1)
    × (((now : ℕ) × (elapsed ≡ sub64 now began)
          × (times w t' ≡ now ∷ (all_readings readings samples ++ began ∷ times w t)))
        ⊎ ((part : List ℕ) × (elapsed ≡ began)
            × (times w t' ≡ part ++ (all_readings readings samples ++ began ∷ times w t))))

-- a round does not read the elapsed time
abbrev pub IgnoresElapsed {ℓ} : {S : Type ℓ} → (Statistics → S → Statistics) → Type ℓ
IgnoresElapsed {S} note =
    (s : Statistics) (n : ℕ) (x : S)
    → note (record s { elapsed_nanoseconds = n }) x
      ≡ (let all = note s x in record all { elapsed_nanoseconds = n })

record_all_elapsed {ℓ} :
    {S : Type ℓ} (note : Statistics → S → Statistics)
    → IgnoresElapsed note
    → (s : Statistics) (n : ℕ) (samples : List S)
    → record_all note (record s { elapsed_nanoseconds = n }) samples
      ≡ (let all = record_all note s samples in record all { elapsed_nanoseconds = n })
unfolding record_all
record_all_elapsed note ignores s n [] = refl
record_all_elapsed note ignores s n (x ∷ rest) =
    rw (ignores s n x) (record_all_elapsed note ignores (note s x) n rest)

-- the times of the first round, before those of the others
reads_before :
    (part rest first l now : List ℕ) {all : List ℕ}
    → all ≡ part ++ (rest ++ now)
    → now ≡ first ++ l
    → all ≡ part ++ ((rest ++ first) ++ l)
reads_before part rest first l now e f = rw (e, f, append_assoc rest first l) refl

module _ {ℓ} {S : Type ℓ} (readings : S → List ℕ) (note : Statistics → S → Statistics)
    (ignores : IgnoresElapsed note) (w : World) (round : Round S) (c : Config) (node : Node)
    (timed : Timed w readings round c node) where
  rounds-Recorded :
      (fuel : ℕ) (s : Statistics) (t : Trace)
      → After
          (Recorded w readings note node s t)
          (rounds note round fuel c (with_statistics node s) w t)
  unfolding rounds record_all
  rounds-Recorded zero s t = After.unfinished
  rounds-Recorded (suc fuel) s t =
      let at = load_stop ∷ t in
      let give_up : Cmd (Bool × Node) = pure (false, with_statistics node s) in
      let go_on : S → Cmd (Bool × Node) =
        λ x. rounds note round fuel c (with_statistics node (note s x)) in
      let next : Option S → Cmd (Bool × Node) =
        λ outcome. elim outcome as (λ x. Cmd (Bool × Node)) [ none ↦ give_up | some x ↦ go_on x ] in
      After.test w (w.flag at) _ _ at
        (λ stop. After.returned ([], [], refl, omega arith, refl, λ e. refl))
        λ go.
          After.bind w next ((timed fuel s (stop_reads at) (times w at)).run at (refl, refl))
            λ outcome t' made.
              step_on fuel s t (λ x. rounds-Recorded fuel (note s x)) outcome t' made
    where
      step_on :
          (fuel : ℕ) (s : Statistics) (t : Trace)
          → ((x : S) (t' : Trace)
              → After
                  (Recorded w readings note node (note s x) t')
                  (rounds note round fuel c (with_statistics node (note s x)) w t'))
          → (outcome : Option S) (t' : Trace)
          → Rounded w readings (suc (stop_reads t)) (times w t) outcome t'
          → After (Recorded w readings note node s t) (
              (elim outcome as (λ x. Cmd (Bool × Node)) [
                | none ↦ pure (false, with_statistics node s)
                | some x ↦ rounds note round fuel c (with_statistics node (note s x))
              ])
                w t')
      step_on fuel s t more none t' (count, part, read) =
          After.returned ([], part, refl, omega (arith, count), read, λ e. cc)
      step_on fuel s t more (some x) t' (count, read) =
          After.mono (more x t') λ r t'' (samples, part, e, counted, reads, full). (
            x ∷ samples,
            part,
            e,
            omega (arith, count, counted),
            reads_before part _ (readings x) (times w t) (times w t') reads read,
            full,
          )

  begin-At :
      (fuel : ℕ) (t : Trace)
      → After (λ a t'. At w (stop_reads t) (times w t) t') (wait_begin fuel w t)
  unfolding wait_begin
  begin-At zero t = After.unfinished
  begin-At (suc fuel) t =
      let at = load_begin ∷ t in
      After.test w (w.flag at) _ _ at (λ e. After.returned (refl, refl)) λ e. begin-At fuel at

  print_still : (n : Node) (t : Trace) → After (λ a t'. t' ≡ t) (node_print_stats n w t)
  unfolding node_print_stats
  print_still n t = After.intro (node_print_stats n w t) (λ a t' e. ground arith)

  -- what `finish` leaves where the flag has ended the rounds
  abbrev Ended : Node → Trace → Node → Trace → Type 0
  Ended n t node' t' =
      (now : ℕ) × (node' ≡ set_elapsed n (sub64 now n.statistics.elapsed_nanoseconds))
      × At w (stop_reads t) (now ∷ times w t) t'

  finish-Ended : (n : Node) (t : Trace) → After (Ended n t) (finish c (true, n) w t)
  unfolding finish
  finish-Ended n t =
      let end : ℕ → Node = λ now. set_elapsed n (sub64 now n.statistics.elapsed_nanoseconds) in
      let print : ℕ → Cmd Node = λ now. node_print_stats (end now) >>= λ _. pure (end now) in
      let stop : ℕ → Cmd Node = λ now. if c.debug_log then print now else pure (end now) in
      After.bind w stop (clock-At.run t (refl, refl)) λ now read at.
        After.test w c.debug_log (print now) (pure (end now)) read
          (λ e.
            After.bind w (λ _. pure (end now)) (print_still (end now) read)
              λ _ printed same. After.returned (now, refl, rw same at))
          λ e. After.returned (now, refl, at)

  run_rounds-Records :
      (fuel : ℕ) (t : Trace)
      → After (Records w readings note node t) (run_rounds note round fuel c node w t)
  unfolding run_rounds finish
  run_rounds-Records fuel t =
      let rest : ℕ → Cmd Node =
        λ began. rounds note round fuel c (set_elapsed node began) >>= finish c in
      After.test w (is_null node.stats) crash (get_time_ns >>= rest) t (λ e. After.faulted)
        λ e. After.bind w rest (clock-At.run t (refl, refl)) λ began read at.
          After.bind w (finish c) (rounds-Recorded fuel (set_elapsed node began).statistics read)
            λ r ended recorded. close t began read at r ended recorded
    where
      close :
          (t : Trace) (began : ℕ) (read : Trace)
          → At w (stop_reads t) (began ∷ times w t) read
          → (r : Bool × Node) (ended : Trace)
          → Recorded w readings note node (set_elapsed node began).statistics read r ended
          → After (Records w readings note node t) (finish c r w ended)
      close t began read (count, reads) (true, n) ended (samples, part, e, counted, all, full) =
          let elapsed = record_all_elapsed note ignores node.statistics began samples in
          After.mono (finish-Ended n ended) λ node' t' (now, end, (counts, last)). (
            samples,
            began,
            sub64 now began,
            rw (end, e, elapsed) refl,
            omega (arith, count, counted, counts),
            inl (now, refl, rw (last, all, full refl, reads) refl),
          )
      close t began read (count, reads) (false, n) ended (samples, part, e, counted, all, full) =
          let elapsed = record_all_elapsed note ignores node.statistics began samples in
          After.returned (
            samples,
            began,
            began,
            rw (e, elapsed) refl,
            omega (arith, count, counted),
            inr (part, refl, rw (all, reads) refl),
          )

  pub worker-Records :
      (fuel : ℕ) (t : Trace)
      → After (Records w readings note node t) (worker note round fuel c node w t)
  unfolding worker
  worker-Records fuel t =
      After.bind w (λ _. run_rounds note round fuel c node) (begin-At fuel t)
        λ _ begun (same, still).
          After.mono (run_rounds-Records fuel begun)
            λ node' t' (samples, began, elapsed, e, count, ends).
              (samples, began, elapsed, e, omega (arith, count, same), rw (sym still) ends)
