-- ===== src/Interleaving.antt =====
-- The threads of run_client in pmrdmabenchmark, interleaved in any order: main creates a thread for
-- each node, sets `begin`, sets `stop`, joins the threads and adds their statistics up, and each
-- thread makes its rounds. A step is one access to what the threads share: the flags, the statistics
-- of a node, the creation and the end of a thread. What the calls of a round do is left open: it
-- yields a sample, fails, faults, or never ends, in that its thread makes no further step. `S` is what a round reads and `note` its update of the statistics.
pub mod Lists
pub mod Phase
pub mod Totals
use rdma_pmem.Prelude.{
  ℕ, ◌+◌, ◌≤◌, ◌≡◌, Bool, true, false, Option, some, List, length, get_elem?, set,
}
use mathlib.Core.List.{map}
use rdma_pmem.Node.{Statistics, no_statistics}
use rdma_pmem.Stats.{sub64, add_stats}

-- where a thread stands: `waiting` at `while (!begin)`, `testing` at `while (!stop)`, `rounding` in
-- the body of that loop
pub data Pc : Type 0 where
  not_created waiting testing rounding returned : Pc

-- a thread, with the statistics of its node
pub record Thread : Type 0 where
  pub pc : Pc
  pub statistics : Statistics

abbrev pub with_elapsed : Statistics → ℕ → Statistics
with_elapsed s n = record s { elapsed_nanoseconds = n }

-- worker: what a thread may do, with these flags
pub data Move {ℓ} {S : Type ℓ} (note : Statistics → S → Statistics) (begin stop : Bool) (x : Thread)
    : Thread → Type ℓ where
  spins : x.pc ≡ Pc.waiting → begin ≡ false → Move note begin stop x x
  begins :
      (now : ℕ)
      → x.pc ≡ Pc.waiting
      → begin ≡ true
      → Move note begin stop x
          (record { pc = Pc.testing; statistics = with_elapsed x.statistics now })
  goes_on :
      x.pc ≡ Pc.testing
      → stop ≡ false
      → Move note begin stop x (record { pc = Pc.rounding; statistics = x.statistics })
  samples :
      (s : S)
      → x.pc ≡ Pc.rounding
      → Move note begin stop x (record { pc = Pc.testing; statistics = note x.statistics s })
  fails :
      x.pc ≡ Pc.rounding
      → Move note begin stop x (record { pc = Pc.returned; statistics = x.statistics })
  stops :
      (now : ℕ)
      → x.pc ≡ Pc.testing
      → stop ≡ true
      → Move note begin stop x (record {
        pc = Pc.returned;
        statistics = with_elapsed x.statistics (sub64 now x.statistics.elapsed_nanoseconds);
      })

-- where the end of a thread is a fault of the program: in a round, or in node_print_stats, which
-- divides by `ops` and by `ops - 1`
pub data Faults (stop : Bool) (x : Thread) : Type 0 where
  in_round : x.pc ≡ Pc.rounding → Faults stop x
  at_print : x.pc ≡ Pc.testing → stop ≡ true → x.statistics.ops ≤ 1 → Faults stop x

-- where run_client stands: at pthread_create or pthread_join of a thread, or in between, at the sum
-- for `total_stats`, behind it, or at the end by a fault of a thread
pub data Main : Type 0 where
  creating : ℕ → Main
  measuring : Main
  joining : ℕ → Main
  adding : ℕ → Statistics → Main
  totalled : Statistics → Main
  crashed : Main

-- no fault has ended the program
abbrev pub runs : Main → Bool
runs crashed = false
runs _ = true

pub record System : Type 0 where
  pub begin : Bool
  pub stop : Bool
  pub main : Main
  pub threads : List Thread

pub data Step {ℓ} {S : Type ℓ} (note : Statistics → S → Statistics) (s : System)
    : System → Type ℓ where
  moves :
      (i : ℕ) {x y : Thread}
      → get_elem? s.threads i ≡ some x
      → runs s.main ≡ true
      → Move note s.begin s.stop x y
      → Step note s (record s { threads = set s.threads i y })
  faults :
      (i : ℕ) {x : Thread}
      → get_elem? s.threads i ≡ some x
      → runs s.main ≡ true
      → Faults s.stop x
      → Step note s (record s { main = crashed })
  creates :
      (k : ℕ) {x : Thread}
      → s.main ≡ creating k
      → get_elem? s.threads k ≡ some x
      → Step note s (record s {
        main = creating (k + 1);
        threads = set s.threads k (record { pc = Pc.waiting; statistics = x.statistics });
      })
  begins :
      s.main ≡ creating (length s.threads)
      → Step note s (record s { main = measuring; begin = true })
  stops : s.main ≡ measuring → Step note s (record s { main = joining 0; stop = true })
  joins :
      (k : ℕ) {x : Thread}
      → s.main ≡ joining k
      → get_elem? s.threads k ≡ some x
      → x.pc ≡ Pc.returned
      → Step note s (record s { main = joining (k + 1) })
  joined :
      s.main ≡ joining (length s.threads) → Step note s (record s { main = adding 0 no_statistics })
  adds :
      (k : ℕ) (total : Statistics) {x : Thread}
      → s.main ≡ adding k total
      → get_elem? s.threads k ≡ some x
      → Step note s (record s { main = adding (k + 1) (add_stats total x.statistics) })
  totals :
      (total : Statistics)
      → s.main ≡ adding (length s.threads) total
      → Step note s (record s { main = totalled total })

-- the threads of nodes with these statistics, before the first is created
abbrev pub initial : List Statistics → System
initial stats = record {
  begin = false;
  stop = false;
  main = creating 0;
  threads = map (λ s. record { pc = Pc.not_created; statistics = s }) stats;
}

pub data Reach {ℓ} {S : Type ℓ} (note : Statistics → S → Statistics) (s : System)
    : System → Type ℓ where
  here : Reach note s s
  later : {t u : System} → Reach note s t → Step note t u → Reach note s u
