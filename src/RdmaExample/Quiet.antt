-- ===== src/RdmaExample/Quiet.antt =====
-- The functions that make no memory region and no buffer, and release none.
use rdma_pmem.Prelude.{ℕ, zero, suc, ◌-◌, ltb, not, Option, none, some, List, [], ◌∷◌, ◌++◌, length}
use rdma_pmem.Prelude.Int.{ℤ, pos, is_zero, is_neg, negate}
use rdma_pmem.World.{
  Ptr, EventType, Event, Trace, World, Call, Cmd, ok, pure, exhausted, crash, call, call_int,
  get_cm_event, ack_cm_event, ack_no_event, errno, host_lookup, host_address, host_release,
  get_cq_event, req_notify_cq, poll_cq, ack_cq_events, ◌>>◌,
}
use rdma_pmem.World.Keeps
use rdma_pmem.World.Keeps.{Keeps}
use rdma_pmem.Node.{is_null, failure}
use rdma_pmem.Rw.{
  minus_errno, get_addr, get_event, is_event, process_rdma_cm_event, acknowledge, poll, reap,
  Reaped, failed, reaped, first_failure, after_reap, reap_events, process_work_completion_events,
}
use rdma_pmem.RdmaExample.Resources.{IsQuiet}

module _ {w : World} {P : Trace → Type 0}
    (quiet : (c : Call) (t : Trace) → IsQuiet c → P t → P (c ∷ t)) where
  pub call-Keeps : (c : Call) → IsQuiet c → Keeps w P (call c)
  call-Keeps c q = Keeps.step (call c) λ t. quiet c t q

  pub int-Keeps : (c : Call) → IsQuiet c → Keeps w P (call_int c)
  int-Keeps c q = Keeps.step (call_int c) λ t. quiet c t q

  errno-Keeps : Keeps w P minus_errno
  errno-Keeps = Keeps.bind (int-Keeps errno tt) λ code. Keeps.pure-Keeps (negate code)

  pub get_addr-Keeps : (dst : Ptr) → Keeps w P (get_addr dst)
  unfolding get_addr
  get_addr-Keeps dst =
      Keeps.bind
        (Keeps.step {A = ℤ × Ptr}
          (λ w t. let t' = host_lookup dst ∷ t in ok (w.int t', w.ptr t') t')
          λ t. quiet (host_lookup dst) t tt)
        λ r. Keeps.branch (not (is_zero r.0)) (Keeps.pure-Keeps r.0) (
          Keeps.branch (is_null r.1) (Keeps.step crash λ t p. p) (
            Keeps.bind (call-Keeps (host_address r.1) tt)
              λ done. Keeps.bind (call-Keeps (host_release r.1) tt) λ done. Keeps.pure-Keeps r.0))

  pub process-Keeps :
      (channel : Ptr) (expected : EventType) (cm_event : Option Event)
      → Keeps w P (process_rdma_cm_event channel expected cm_event)
  unfolding process_rdma_cm_event
  process-Keeps channel expected cm_event =
      Keeps.bind (Keeps.step (get_event channel) λ t. quiet (get_cm_event channel) t tt) λ r.
        Keeps.branch (not (is_zero r.0))
          (Keeps.bind errno-Keeps λ code. Keeps.pure-Keeps (code, cm_event))
          (Keeps.branch (not (is_zero r.1.status))
            (Keeps.bind (call-Keeps (ack_cm_event r.1) tt)
              λ done. Keeps.pure-Keeps (negate r.1.status, some r.1))
            (Keeps.branch (not (is_event r.1.event expected))
              (Keeps.bind (call-Keeps (ack_cm_event r.1) tt)
                λ done. Keeps.pure-Keeps (failure, some r.1))
              (Keeps.pure-Keeps (pos 0, some r.1))))

  pub acknowledge-Keeps : (cm_event : Option Event) → Keeps w P (acknowledge cm_event)
  unfolding acknowledge
  acknowledge-Keeps none = int-Keeps ack_no_event tt
  acknowledge-Keeps (some e) = int-Keeps (ack_cm_event e) tt

  reap-Keeps : (fuel : ℕ) (cq : Ptr) (n : ℕ) (wc : List ℕ) → Keeps w P (reap fuel cq n wc)
  unfolding reap
  reap-Keeps zero cq n wc = Keeps.step exhausted λ t p. p
  reap-Keeps (suc fuel) cq n wc =
      Keeps.bind (Keeps.step (poll cq (n - length wc)) λ t. quiet (poll_cq cq (n - length wc)) t tt)
        λ r. Keeps.branch (is_neg r.0) (Keeps.pure-Keeps (failed r.0)) (
          Keeps.branch (ltb (length (wc ++ r.1)) n) (reap-Keeps fuel cq n (wc ++ r.1))
            (Keeps.pure-Keeps (reaped (wc ++ r.1))))

  after_reap-Keeps : (cq : Ptr) (r : Reaped) → Keeps w P (after_reap cq r)
  unfolding after_reap
  after_reap-Keeps cq (failed ret) = Keeps.pure-Keeps ret
  after_reap-Keeps cq (reaped wc) = at (first_failure wc)
    where
      at :
          (o : Option ℕ)
          → Keeps w P (elim o as (λ o. Cmd ℤ) [
            | some s ↦ pure (negate (pos s))
            | none ↦ (do call (ack_cq_events cq 1); pure (pos (length wc)))
          ])
      at (some s) = Keeps.pure-Keeps (negate (pos s))
      at none =
          Keeps.bind (call-Keeps (ack_cq_events cq 1) tt) λ done. Keeps.pure-Keeps (pos (length wc))

  pub completions-Keeps :
      (fuel : ℕ) (channel : Ptr) (n : ℕ) → Keeps w P (process_work_completion_events fuel channel n)
  unfolding process_work_completion_events reap_events
  completions-Keeps fuel channel n =
      Keeps.bind
        (Keeps.step {A = ℤ × Ptr}
          (λ w t. let t' = get_cq_event channel ∷ t in ok (w.int t', w.ptr t') t')
          λ t. quiet (get_cq_event channel) t tt)
        λ r. Keeps.branch (not (is_zero r.0)) errno-Keeps (
          Keeps.bind (int-Keeps (req_notify_cq r.1) tt) λ ret.
            Keeps.branch (not (is_zero ret)) errno-Keeps
              (Keeps.bind (reap-Keeps fuel r.1 n []) λ q. after_reap-Keeps r.1 q))
