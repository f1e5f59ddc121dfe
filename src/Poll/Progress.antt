-- ===== src/Poll/Progress.antt =====
-- What node_poll_n_cq has collected where it returns 0, and that it returns.
use rdma_pmem.Prelude.{
  ℕ, zero, suc, ◌+◌, ◌-◌, ◌≤◌, ◌<◌, ◌≡◌, ◌==◌, if◌then◌else◌, [], ◌∷◌, leb, Bool-cases, inl, inr,
  true, false, arith, refl, ==_refl,
}
use rdma_pmem.Prelude.Int.{ℤ, pos, pos_part, is_neg, is_zero}
use rdma_pmem.World.{Ptr, poll_cq, Trace, World, ok}
use rdma_pmem.World.After
use rdma_pmem.World.After.{After}
use rdma_pmem.Node.{Node}
use rdma_pmem.Poll.{CqIndex, cq_of, poll_loop, node_poll_n_cq}

leb_false→lt : {a b : ℕ} → leb a b ≡ false → b < a
leb_false→lt e = ground arith

-- the completions that the polls of a queue yielded
abbrev pub collected : World → Ptr → Trace → ℕ
collected w cq [] = 0
collected w cq (poll_cq q n ∷ t) =
    (if q == cq then pos_part (w.int (poll_cq q n ∷ t)) else 0) + collected w cq t
collected w cq (x ∷ t) = collected w cq t

-- the polls of any queue
abbrev pub polls : Trace → ℕ
polls [] = 0
polls (poll_cq q n ∷ t) = suc (polls t)
polls (x ∷ t) = polls t

-- a poll yields no more completions than it asks for
abbrev pub YieldsAtMost : World → Type 0
YieldsAtMost w = (cq : Ptr) (n : ℕ) (t : Trace) → pos_part (w.int (poll_cq cq n ∷ t)) ≤ n

module _ (w : World) (cq : Ptr) (entries n : ℕ) (at_most : YieldsAtMost w) where
  abbrev Collects : ℕ → Trace → ℤ → Trace → Type 0
  Collects done t ret t' =
      is_zero ret ≡ true
      → (collected w cq t + n ≤ done + collected w cq t')
        × (done + collected w cq t' < collected w cq t + n + entries)

  poll_loop-Collects :
      (fuel done : ℕ) (t : Trace)
      → done < n + entries
      → After (Collects done t) (poll_loop fuel cq entries n done w t)
  unfolding poll_loop
  poll_loop-Collects zero done t h = After.unfinished
  poll_loop-Collects (suc fuel) done t h =
      After.test w (leb n done) _ _ t (λ stop. After.returned λ z. (ground arith, ground arith))
        λ go.
          let ret = w.int (poll_cq cq entries ∷ t) in
          After.test w (is_neg ret) _ _ (poll_cq cq entries ∷ t)
            (λ failed. After.returned λ z. ground arith)
            λ fine.
              After.mono
                (poll_loop-Collects fuel (done + pos_part ret) (poll_cq cq entries ∷ t)
                  (omega (arith, at_most cq entries t, leb_false→lt go)))
                λ r t' q z.
                  let got : collected w cq (poll_cq cq entries ∷ t)
                      ≡ pos_part ret + collected w cq t =
                    rw (==_refl cq) refl in
                  let (low, high) = q z in (omega (arith, low, got), omega (arith, high, got))

-- From the poll number `k` on, each poll of the queue yields a completion, and none fails.
pub record IsReady (w : World) (cq : Ptr) (entries : ℕ) (k : ℕ) : Type 0 where
  pub works : (t : Trace) → is_neg (w.int (poll_cq cq entries ∷ t)) ≡ false
  pub yields : (t : Trace) → k ≤ polls t → 0 < pos_part (w.int (poll_cq cq entries ∷ t))

module _ (w : World) (cq : Ptr) (entries n k : ℕ) (ready : IsReady w cq entries k) where
  -- a poll makes the rest of the wait shorter
  closer :
      {fuel : ℕ} (done : ℕ) (t : Trace)
      → (k - polls t) + (n - done) < suc fuel
      → leb n done ≡ false
      → (k - suc (polls t)) + (n - (done + pos_part (w.int (poll_cq cq entries ∷ t)))) < fuel
  closer done t h e = elim (Bool-cases (leb k (polls t))) [
    | inl late ↦ omega (arith, ready.yields t (ground arith), leb_false→lt e)
    | inr early ↦ ground arith
  ]

  poll_loop-returns :
      (fuel done : ℕ) (t : Trace)
      → (k - polls t) + (n - done) < fuel
      → (t' : Trace) × (poll_loop fuel cq entries n done w t ≡ ok (pos 0) t')
  unfolding poll_loop
  poll_loop-returns zero done t h = absurd (omega arith)
  poll_loop-returns (suc fuel) done t h = elim (Bool-cases (leb n done)) [
    | inl e ↦ (t, ground arith)
    | inr e ↦
        let at = poll_cq cq entries ∷ t in
        let works = ready.works t in
        let (t', run) =
          poll_loop-returns fuel (done + pos_part (w.int at)) at (closer done t h e) in
        (t', rw (e, works) run)
  ]

-- Of a connected node whose polls yield no more than they ask for: where node_poll_n_cq returns 0, it
-- has collected at least `n` completions from the node's queue, and fewer than `n + entries`.
pub node_poll_n_cq-Collects :
    (fuel entries : ℕ) (node : Node) (index : CqIndex) (n : ℕ) (w : World) (t : Trace) {ret : ℤ}
    {t' : Trace}
    → YieldsAtMost w
    → node.connected ≡ true
    → 0 < entries
    → node_poll_n_cq fuel entries node index n w t ≡ ok ret t'
    → is_zero ret ≡ true
    → let cq = cq_of node index in
      (collected w cq t + n ≤ collected w cq t')
      × (collected w cq t' < collected w cq t + n + entries)
unfolding node_poll_n_cq
node_poll_n_cq-Collects fuel entries node index n w t {ret} {t'} at_most linked some_entry e z =
    let cq = cq_of node index in
    let run : poll_loop fuel cq entries n 0 w t ≡ ok ret t' = ground (arith, e, linked) in
    let (low, high) =
      After.apply (poll_loop-Collects w cq entries n at_most fuel 0 t (omega arith)) ret t' run z in
    (omega (arith, low), omega (arith, high))

-- If no poll fails, and from the poll number `k` on each one yields a completion, then fuel above
-- `k + n` is enough for node_poll_n_cq to return 0.
pub node_poll_n_cq_returns :
    (fuel entries : ℕ) (node : Node) (index : CqIndex) (n k : ℕ) (w : World) (t : Trace)
    → IsReady w (cq_of node index) entries k
    → k + n < fuel
    → (t' : Trace) × (node_poll_n_cq fuel entries node index n w t ≡ ok (pos 0) t')
unfolding node_poll_n_cq
node_poll_n_cq_returns fuel entries node index n k w t ready h = elim (Bool-cases node.connected) [
  | inl e ↦
      let (t', run) =
        poll_loop-returns w (cq_of node index) entries n k ready fuel 0 t (omega arith) in
      (t', ground (arith, run, e))
  | inr e ↦ (t, ground (arith, e))
]
