-- ===== src/Interleaving/Totals.antt =====
-- What the totals of run_client say about the threads, whatever their interleaving.
use rdma_pmem.Prelude.{
  ℕ, zero, suc, ◌≡◌, refl, ap, Bool, some, List, [], ◌∷◌, ◌++◌, get_elem?, arith,
}
use mathlib.Core.List.{map}
use mathlib.Core.Path.{subst}
use rdma_pmem.Node.{Statistics, no_statistics}
use rdma_pmem.Stats.{sub64, sum_stats, record_all}
use rdma_pmem.Interleaving.{Pc, Thread, with_elapsed, Move, totalled, System, Step, initial, Reach}
use rdma_pmem.Client.Figures.{IgnoresElapsed}
use rdma_pmem.Interleaving.Lists.{Each, Each-set}
use rdma_pmem.Interleaving.Phase.{IsSafe, Phase, Returned, step-IsSafe}

get_elem?-map {ℓ κ} :
    {A : Type ℓ} {B : Type κ} (f : A → B) (xs : List A) (i : ℕ) (y : B)
    → get_elem? (map f xs) i ≡ some y
    → (x : A) × (get_elem? xs i ≡ some x) × (y ≡ f x)
get_elem?-map f [] i y e = cc
get_elem?-map f (x ∷ xs) zero y e = (x, refl, cc)
get_elem?-map f (x ∷ xs) (suc i) y e = get_elem?-map f xs i y e

record_all-snoc {ℓ} :
    {S : Type ℓ} (note : Statistics → S → Statistics) (s : Statistics) (samples : List S) (x : S)
    → record_all note s (samples ++ x ∷ []) ≡ note (record_all note s samples) x
unfolding record_all
record_all-snoc note s [] x = refl
record_all-snoc note s (y ∷ rest) x = record_all-snoc note (note s y) rest x

module _ {ℓ} {S : Type ℓ} (note : Statistics → S → Statistics) (stats : List Statistics) where
  -- the statistics of a thread are those of some rounds of its own, from what its node had
  abbrev pub OwnRounds : ℕ → Thread → Type ℓ
  OwnRounds i x =
      (before : Statistics) × (samples : List S) × (n : ℕ) × (get_elem? stats i ≡ some before)
      × (x.statistics ≡ with_elapsed (record_all note before samples) n)

  Move-OwnRounds :
      {begin stop : Bool} {x y : Thread} (i : ℕ)
      → IgnoresElapsed note
      → Move note begin stop x y
      → OwnRounds i x
      → OwnRounds i y
  Move-OwnRounds i free (Move.spins a b) own = own
  Move-OwnRounds i free (Move.begins now a b) (before, xs, n, at, e) =
      (before, xs, now, at, rw e refl)
  Move-OwnRounds i free (Move.goes_on a b) own = own
  Move-OwnRounds i free (Move.samples s a) (before, xs, n, at, e) = (
    before,
    xs ++ s ∷ [],
    n,
    at,
    rw (e, record_all-snoc note before xs s) (free (record_all note before xs) n s),
  )
  Move-OwnRounds i free (Move.fails a) own = own
  Move-OwnRounds {x} i free (Move.stops now a b) (before, xs, n, at, e) = (
    before,
    xs,
    sub64 now x.statistics.elapsed_nanoseconds,
    at,
    ap (λ s. with_elapsed s (sub64 now x.statistics.elapsed_nanoseconds)) e,
  )

  step-OwnRounds :
      {s t : System}
      → IgnoresElapsed note
      → Step note s t
      → Each OwnRounds s.threads
      → Each OwnRounds t.threads
  step-OwnRounds {s} free (Step.moves i {x} {y} at run mv) own =
      Each-set OwnRounds s.threads i y (λ j z e ne. own j z e)
        (Move-OwnRounds i free mv (own i x at))
  step-OwnRounds {s} free (Step.creates k {x} e at) own =
      Each-set OwnRounds s.threads k (record { pc = Pc.waiting; statistics = x.statistics })
        (λ j z e ne. own j z e) (own k x at)
  step-OwnRounds free (Step.faults i at run f) own = own
  step-OwnRounds free (Step.begins e) own = own
  step-OwnRounds free (Step.stops e) own = own
  step-OwnRounds free (Step.joins k e at back) own = own
  step-OwnRounds free (Step.joined e) own = own
  step-OwnRounds free (Step.adds k total e at) own = own
  step-OwnRounds free (Step.totals total e) own = own

  pub Reach-IsSafe : {s : System} → Reach note (initial stats) s → IsSafe s
  Reach-IsSafe Reach.here = (refl, omega arith, λ i x at lt. absurd (omega arith))
  Reach-IsSafe (Reach.later r st) = step-IsSafe st (Reach-IsSafe r)

  Reach-OwnRounds :
      {s : System} → IgnoresElapsed note → Reach note (initial stats) s → Each OwnRounds s.threads
  unfolding record_all
  Reach-OwnRounds free Reach.here = λ i x at.
      let (before, found, same) =
        get_elem?-map (λ s. record { pc = Pc.not_created; statistics = s }) stats i x at in
      (before, [], before.elapsed_nanoseconds, found, ap (λ x. x.statistics) same)
  Reach-OwnRounds free (Reach.later r st) = step-OwnRounds free st (Reach-OwnRounds free r)

-- In whatever order main and the threads of run_client run, where main has added the statistics up
-- every thread has returned, the totals are the sum of what the threads have left, and each thread
-- has left the statistics of rounds of its own, added to what its node had, with an elapsed time; if
-- the update of the statistics does not read the elapsed time.
pub totalled-Sums {ℓ} :
    {S : Type ℓ} (note : Statistics → S → Statistics) (stats : List Statistics) (s : System)
    (total : Statistics)
    → IgnoresElapsed note
    → Reach note (initial stats) s
    → s.main ≡ totalled total
    → Each Returned s.threads
      × (total ≡ sum_stats no_statistics (map (λ x. x.statistics) s.threads))
      × Each (OwnRounds note stats) s.threads
totalled-Sums note stats s total free r e =
    let (back, sum) = subst (λ m. Phase m s.begin s.stop s.threads) e (Reach-IsSafe note stats r) in
    (back, sum, Reach-OwnRounds note stats free r)
