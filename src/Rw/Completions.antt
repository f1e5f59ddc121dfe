-- ===== src/Rw/Completions.antt =====
-- The completions that process_work_completion_events of rwbenchmark takes.
use rdma_pmem.Prelude.{
  ℕ, zero, suc, ◌+◌, ◌-◌, ◌≤◌, ◌≡◌, ◌⊎◌, inl, inr, refl, ltb, ltb_false→le, if◌then◌else◌, not,
  true, Option-cases, Bool-cases, ◌==◌, none, some, List, [], ◌∷◌, ◌++◌, length, arith,
}
use rdma_pmem.Prelude.Int.{ℤ, pos, is_zero, is_neg, negate, pos_part}
use mathlib.Core.List.{append_assoc}
use rdma_pmem.World.{
  Ptr, Trace, World, Cmd, ok, pure, ◌>>=◌, call_int, errno, poll_cq, get_cq_event, ack_cq_events,
  req_notify_cq,
}
use rdma_pmem.World.After
use rdma_pmem.World.After.{After}
use rdma_pmem.Rw.{
  minus_errno, statuses_of, reap, Reaped, failed, reaped, first_failure, after_reap, reap_events,
  process_work_completion_events,
}

-- how many events of completion channels came, and how many are acknowledged
abbrev pub cq_events : World → Trace → ℕ
cq_events w [] = 0
cq_events w (get_cq_event channel ∷ t) =
    (if is_zero (w.int (get_cq_event channel ∷ t)) then 1 else 0) + cq_events w t
cq_events w (x ∷ t) = cq_events w t

abbrev pub cq_acks : Trace → ℕ
cq_acks [] = 0
cq_acks (ack_cq_events cq n ∷ t) = cq_acks t + n
cq_acks (x ∷ t) = cq_acks t

-- the statuses of all completions taken
abbrev pub taken : World → Trace → List ℕ
taken w [] = []
taken w (poll_cq cq n ∷ t) =
    let at = poll_cq cq n ∷ t in taken w t ++ statuses_of (w.wc_status at) 0 (pos_part (w.int at))
taken w (x ∷ t) = taken w t

-- a call that fails leaves a positive number in errno
abbrev pub ErrnoIsPositive : World → Type 0
ErrnoIsPositive w = (t : Trace) → is_neg (negate (w.int (errno ∷ t))) ≡ true

-- `n` completions or more, all successful, are taken; one event came and is acknowledged
pub record Completes (w : World) (n : ℕ) (t : Trace) (ret : ℤ) (t' : Trace) : Type 0 where
  pub statuses : List ℕ
  pub collected : taken w t' ≡ taken w t ++ statuses
  pub enough : n ≤ length statuses
  pub successes : first_failure statuses ≡ none
  pub counted : ret ≡ pos (length statuses)
  pub came : cq_events w t' ≡ cq_events w t + 1
  pub acknowledged : cq_acks t' ≡ cq_acks t + 1

-- the result is an error, and no event is acknowledged
pub record Fails (t : Trace) (ret : ℤ) (t' : Trace) : Type 0 where
  pub error : is_neg ret ≡ true
  pub left : cq_acks t' ≡ cq_acks t

-- what the loop has taken
record Took (w : World) (n : ℕ) (wc all : List ℕ) (t t' : Trace) : Type 0 where
  new : List ℕ
  grown : all ≡ wc ++ new
  collected : taken w t' ≡ taken w t ++ new
  enough : n ≤ length all
  events : cq_events w t' ≡ cq_events w t
  acks : cq_acks t' ≡ cq_acks t

data Reaps (w : World) (n : ℕ) (wc : List ℕ) (t t' : Trace) : Reaped → Type 0 where
  stops : {ret : ℤ} → is_neg ret ≡ true → cq_acks t' ≡ cq_acks t → Reaps w n wc t t' (failed ret)
  takes : {all : List ℕ} → Took w n wc all t t' → Reaps w n wc t t' (reaped all)

first_failure_neg :
    (wc : List ℕ) (status : ℕ)
    → first_failure wc ≡ some status
    → is_neg (negate (pos status)) ≡ true
first_failure_neg [] status h = cc
first_failure_neg (s ∷ rest) status h = elim (Bool-cases (s == 0)) [
  | inl zero_status ↦ first_failure_neg rest status (rw zero_status at h)
  | inr failed_status ↦ ground (arith, failed_status, h)
]

module _ (w : World) where
  grow-Reaps :
      (n : ℕ) (wc new : List ℕ) (t s t' : Trace) (r : Reaped)
      → taken w s ≡ taken w t ++ new
      → cq_events w s ≡ cq_events w t
      → cq_acks s ≡ cq_acks t
      → Reaps w n (wc ++ new) s t' r
      → Reaps w n wc t t' r
  grow-Reaps n wc new t s t' r e events acks (stops neg same) = stops neg (omega arith)
  grow-Reaps n wc new t s t' r e events acks (takes took) = takes (record {
    new = new ++ took.new;
    grown = rw took.grown (append_assoc wc new took.new);
    collected = rw (took.collected, e) (append_assoc (taken w t) new took.new);
    enough = took.enough;
    events = rw (took.events, events) refl;
    acks = rw (took.acks, acks) refl;
  })

  reap-Reaps :
      (fuel : ℕ) (cq : Ptr) (n : ℕ) (wc : List ℕ) (t : Trace)
      → After (λ r t'. Reaps w n wc t t' r) (reap fuel cq n wc w t)
  unfolding reap
  reap-Reaps zero cq n wc t = After.unfinished
  reap-Reaps (suc fuel) cq n wc t =
      let at = poll_cq cq (n - length wc) ∷ t in
      let new = statuses_of (w.wc_status at) 0 (pos_part (w.int at)) in
      After.test w (is_neg (w.int at)) (pure (failed (w.int at)))
        (if ltb (length (wc ++ new)) n
          then reap fuel cq n (wc ++ new)
          else pure (reaped (wc ++ new)))
        at (λ neg. After.returned (stops neg refl))
        λ fine.
          After.test w (ltb (length (wc ++ new)) n) (reap fuel cq n (wc ++ new))
            (pure (reaped (wc ++ new))) at
            (λ more.
              After.mono (reap-Reaps fuel cq n (wc ++ new) at)
                λ r t' h. grow-Reaps n wc new t at t' r refl refl refl h)
            λ done. After.returned (
              takes (record {
                new = new;
                grown = refl;
                collected = refl;
                enough = ltb_false→le (length (wc ++ new)) n done;
                events = refl;
                acks = refl;
              }))

  abbrev Ends : ℕ → Trace → ℤ → Trace → Type 0
  Ends n t ret t' = Completes w n t ret t' ⊎ Fails t ret t'

  -- the trace `s` is that behind the event
  after_reap-Ends :
      (cq : Ptr) (n : ℕ) (t s s' : Trace) (r : Reaped)
      → taken w s ≡ taken w t
      → cq_events w s ≡ cq_events w t + 1
      → cq_acks s ≡ cq_acks t
      → Reaps w n [] s s' r
      → After (Ends n t) (after_reap cq r w s')
  unfolding after_reap
  after_reap-Ends cq n t s s' r e events acks (stops neg same) =
      After.returned (inr (record { error = neg; left = omega arith }))
  after_reap-Ends cq n t s s' r e events acks (takes {all} took) =
      elim (Option-cases (first_failure all)) [
        | inl fine ↦
            rw (fine, after_reap)
              (After.returned (
                inl (record {
                  statuses = all;
                  collected = rw (took.collected, e, took.grown) refl;
                  enough = took.enough;
                  successes = fine;
                  counted = refl;
                  came = omega (arith, took.events);
                  acknowledged = omega (arith, took.acks);
                })))
        | inr (status, bad) ↦
            rw (bad, after_reap)
              (After.returned (
                inr (record {
                  error = first_failure_neg all status bad;
                  left = omega (arith, took.acks);
                })))
      ]

  module _ (positive : ErrnoIsPositive w) where
    reap_events-Ends :
        (fuel : ℕ) (cq : Ptr) (n : ℕ) (t s : Trace)
        → taken w s ≡ taken w t
        → cq_events w s ≡ cq_events w t + 1
        → cq_acks s ≡ cq_acks t
        → After (Ends n t) (reap_events fuel cq n w s)
    unfolding reap_events
    reap_events-Ends fuel cq n t s e events acks =
        After.bind w (after_reap cq) (reap-Reaps fuel cq n [] s)
          λ r s' h. after_reap-Ends cq n t s s' r e events acks h

    errno-Ends : (n : ℕ) (t s : Trace) → cq_acks s ≡ cq_acks t → After (Ends n t) (minus_errno w s)
    errno-Ends n t s same = After.returned (inr (record { error = positive s; left = same }))

    process-Ends :
        (fuel : ℕ) (channel : Ptr) (n : ℕ) (t : Trace)
        → After (Ends n t) (process_work_completion_events fuel channel n w t)
    unfolding process_work_completion_events
    process-Ends fuel channel n t =
        let got = get_cq_event channel ∷ t in
        let cq = w.ptr got in
        let asked = req_notify_cq cq ∷ got in
        let rest : Cmd ℤ = do
          ret ← call_int (req_notify_cq cq)
          if not (is_zero ret) then minus_errno else reap_events fuel cq n
        in After.test w (not (is_zero (w.int got))) minus_errno rest got
          (λ failed. errno-Ends n t got refl)
          λ came.
            After.test w (not (is_zero (w.int asked))) minus_errno (reap_events fuel cq n) asked
              (λ failed. errno-Ends n t asked refl)
              λ fine. reap_events-Ends fuel cq n t asked refl (ground (arith, came)) refl

-- If a call that fails leaves a positive number in errno, then process_work_completion_events either
-- returns the number of completions that it has taken, which are `max_wc` or more and all
-- successful, with one event come and acknowledged, or it returns a negative number and acknowledges
-- no event.
pub process_work_completion_events-Ends :
    (w : World) (fuel : ℕ) (channel : Ptr) (max_wc : ℕ) (t : Trace) {ret : ℤ} {t' : Trace}
    → ErrnoIsPositive w
    → process_work_completion_events fuel channel max_wc w t ≡ ok ret t'
    → Completes w max_wc t ret t' ⊎ Fails t ret t'
process_work_completion_events-Ends w fuel channel max_wc t {ret} {t'} positive =
    After.apply (process-Ends w positive fuel channel max_wc t) ret t'
