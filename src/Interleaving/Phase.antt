-- ===== src/Interleaving/Phase.antt =====
-- Where the threads of run_client stand, by where its main stands.
use rdma_pmem.Prelude.{
  ℕ, suc, ◌+◌, ◌≤◌, ◌<◌, ◌≡◌, refl, ap, sym, ◌∙◌, Bool-cases, ltb, ltb→lt, ltb_false→le, ◌⊎◌, inl,
  inr, Bool, true, false, some, List, length, get_elem?, set, arith,
}
use mathlib.Core.List.{map}
use mathlib.Core.Path.{subst}
use rdma_pmem.Node.{Statistics, no_statistics}
use rdma_pmem.Stats.{add_stats, sum_stats}
use rdma_pmem.Interleaving.{
  Pc, Thread, Move, Main, creating, measuring, joining, adding, totalled, crashed, System, Step,
}
use rdma_pmem.Interleaving.Lists.{
  Each, Each-set, length-set, get_elem?-lt, drop, drop-get_elem?, drop-length,
}

-- the sum over the threads from number `k` on
abbrev pub from_thread : ℕ → Statistics → List Thread → Statistics
from_thread k total threads = sum_stats total (map (λ x. x.statistics) (drop k threads))

abbrev pub created : Pc → Bool
created Pc.not_created = false
created _ = true

abbrev pub Returned : ℕ → Thread → Type 0
Returned i x = x.pc ≡ Pc.returned

-- what holds where main stands there: before `begin` each thread that is created waits, and no
-- thread is left to run where the statistics are added up
abbrev pub Phase : Main → (begin stop : Bool) → List Thread → Type 0
Phase (creating k) begin stop threads =
    (begin ≡ false) × (k ≤ length threads) × Each (λ i x. i < k → x.pc ≡ Pc.waiting) threads
Phase measuring begin stop threads = (begin ≡ true) × Each (λ i x. created x.pc ≡ true) threads
Phase (joining k) begin stop threads =
    (begin ≡ true)
    × (stop ≡ true)
    × (k ≤ length threads)
    × Each (λ i x. created x.pc ≡ true) threads
    × Each (λ i x. i < k → x.pc ≡ Pc.returned) threads
Phase (adding k total) begin stop threads =
    (k ≤ length threads)
    × Each Returned threads
    × (from_thread k total threads ≡ from_thread 0 no_statistics threads)
Phase crashed begin stop threads = Unit
Phase (totalled total) begin stop threads =
    Each Returned threads × (total ≡ from_thread 0 no_statistics threads)

abbrev pub IsSafe : System → Type 0
IsSafe s = Phase s.main s.begin s.stop s.threads

lt_or_eq : (i k : ℕ) → i < k + 1 → (i < k) ⊎ (i ≡ k)
lt_or_eq i k h = elim (Bool-cases (ltb i k)) [
  | inl lt ↦ inl (ltb→lt i k lt)
  | inr ge ↦ inr (omega (arith, ltb_false→le i k ge))
]

from_thread-add :
    (k : ℕ) (total : Statistics) (threads : List Thread) {x : Thread}
    → get_elem? threads k ≡ some x
    → from_thread (k + 1) (add_stats total x.statistics) threads ≡ from_thread k total threads
unfolding sum_stats
from_thread-add k total threads at =
    let next : k + 1 ≡ suc k = omega arith in rw (next, drop-get_elem? k threads at) refl

from_thread-length :
    (total : Statistics) (threads : List Thread)
    → from_thread (length threads) total threads ≡ total
unfolding sum_stats
from_thread-length total threads = rw (drop-length threads) refl

module _ {ℓ} {S : Type ℓ} {note : Statistics → S → Statistics} where
  Move-Returned :
      {begin stop : Bool} {x y : Thread} → Move note begin stop x y → x.pc ≡ Pc.returned → ⊥
  Move-Returned (Move.spins a b) h = cc
  Move-Returned (Move.begins now a b) h = cc
  Move-Returned (Move.goes_on a b) h = cc
  Move-Returned (Move.samples s a) h = cc
  Move-Returned (Move.fails a) h = cc
  Move-Returned (Move.stops now a b) h = cc

  Move-created :
      {begin stop : Bool} {x y : Thread}
      → Move note begin stop x y
      → created x.pc ≡ true
      → created y.pc ≡ true
  Move-created (Move.spins a b) h = h
  Move-created (Move.begins now a b) h = refl
  Move-created (Move.goes_on a b) h = refl
  Move-created (Move.samples s a) h = refl
  Move-created (Move.fails a) h = refl
  Move-created (Move.stops now a b) h = refl

  -- before `begin` is set, a thread that waits goes on waiting
  Move-waiting :
      {begin stop : Bool} {x y : Thread}
      → Move note begin stop x y
      → begin ≡ false
      → x.pc ≡ Pc.waiting
      → y.pc ≡ Pc.waiting
  Move-waiting (Move.spins a b) f h = h
  Move-waiting (Move.begins now a b) f h = cc
  Move-waiting (Move.goes_on a b) f h = cc
  Move-waiting (Move.samples s a) f h = cc
  Move-waiting (Move.fails a) f h = cc
  Move-waiting (Move.stops now a b) f h = cc

  moves-IsSafe :
      (m : Main) {begin stop : Bool} (threads : List Thread) (i : ℕ) {x y : Thread}
      → get_elem? threads i ≡ some x
      → Move note begin stop x y
      → Phase m begin stop threads
      → Phase m begin stop (set threads i y)
  moves-IsSafe (creating k) threads i {x} {y} at mv (b, le, all) = (
    b,
    omega (arith, length-set threads i y),
    Each-set (λ i x. i < k → x.pc ≡ Pc.waiting) threads i y (λ j z e ne. all j z e)
        λ lt. Move-waiting mv b (all i x at lt),
  )
  moves-IsSafe measuring threads i {x} {y} at mv (b, all) = (
    b,
    Each-set (λ i x. created x.pc ≡ true) threads i y (λ j z e ne. all j z e)
        (Move-created mv (all i x at)),
  )
  moves-IsSafe (joining k) threads i {x} {y} at mv (b, st, le, all, back) = (
    b,
    st,
    omega (arith, length-set threads i y),
    Each-set (λ i x. created x.pc ≡ true) threads i y (λ j z e ne. all j z e)
        (Move-created mv (all i x at)),
    Each-set (λ i x. i < k → x.pc ≡ Pc.returned) threads i y (λ j z e ne. back j z e)
        λ lt. absurd (Move-Returned mv (back i x at lt)),
  )
  moves-IsSafe (adding k total) threads i {x} at mv (le, back, sum) =
      absurd (Move-Returned mv (back i x at))
  moves-IsSafe crashed threads i at mv p = tt
  moves-IsSafe (totalled total) threads i {x} at mv (back, sum) =
      absurd (Move-Returned mv (back i x at))

  pub step-IsSafe : {s t : System} → Step note s t → IsSafe s → IsSafe t
  step-IsSafe {s} (Step.moves i at run mv) p = moves-IsSafe s.main s.threads i at mv p
  step-IsSafe (Step.faults i at run f) p = tt
  step-IsSafe {s} (Step.creates k {x} e at) p =
      let (b, le, all) = subst (λ m. Phase m s.begin s.stop s.threads) e p in
      let y : Thread = record { pc = Pc.waiting; statistics = x.statistics } in
      (
        b,
        omega (arith, length-set s.threads k y, get_elem?-lt s.threads k at),
        Each-set (λ i x. i < k + 1 → x.pc ≡ Pc.waiting) s.threads k y
            (λ j z f ne lt. all j z f (omega (arith, ne))) λ lt. refl,
      )
  step-IsSafe {s} (Step.begins e) p =
      let (b, le, all) = subst (λ m. Phase m s.begin s.stop s.threads) e p in
      (refl, λ i x at. ap created (all i x at (get_elem?-lt s.threads i at)))
  step-IsSafe {s} (Step.stops e) p =
      let (b, all) = subst (λ m. Phase m s.begin s.stop s.threads) e p in
      (b, refl, omega arith, all, λ i x at lt. absurd (omega arith))
  step-IsSafe {s} (Step.joins k {x} e at back_at) p =
      let (b, st, le, all, back) = subst (λ m. Phase m s.begin s.stop s.threads) e p in
      (
        b,
        st,
        omega (arith, get_elem?-lt s.threads k at),
        all,
        λ i z g lt. elim (lt_or_eq i k lt) [ inl l ↦ back i z g l | inr same ↦ cc ],
      )
  step-IsSafe {s} (Step.joined e) p =
      let (b, st, le, all, back) = subst (λ m. Phase m s.begin s.stop s.threads) e p in
      (omega arith, λ i x at. back i x at (get_elem?-lt s.threads i at), refl)
  step-IsSafe {s} (Step.adds k total {x} e at) p =
      let (le, back, sum) = subst (λ m. Phase m s.begin s.stop s.threads) e p in
      (omega (arith, get_elem?-lt s.threads k at), back, from_thread-add k total s.threads at ∙ sum)
  step-IsSafe {s} (Step.totals total e) p =
      let (le, back, sum) = subst (λ m. Phase m s.begin s.stop s.threads) e p in
      (back, sym (from_thread-length total s.threads) ∙ sum)
