-- ===== src/Rw/Balance.antt =====
-- The events that the client of rwbenchmark takes and acknowledges while it sets a connection up: the
-- calls that take no event.
pub mod Setup
use rdma_pmem.Prelude.{
  ℕ, zero, suc, ◌+◌, ◌-◌, ◌≡◌, ◌⊎◌, inl, inr, refl, ltb, if◌then◌else◌, not, false, Bool-cases,
  Option, none, some, is_some, List, [], ◌∷◌, ◌++◌, length, arith, u32,
}
use rdma_pmem.Prelude.Int.{ℤ, pos, eqb_ℤ, is_zero, is_neg, negate}
use rdma_pmem.World.{
  Ptr, Mr, Access, local_write, local_remote_write, EventType, Event, addr_resolved, route_resolved,
  established, Trace, World, Cmd, pure, ok, crash, call, call_int, call_ptr, call_size, trace_of,
  get_cm_event, ack_cm_event, errno, ◌>>=◌, connect, resolve_addr, resolve_route, post_recv_sge,
  load_qp, create_qp, req_notify_cq, create_cq, create_comp_channel, alloc_pd, create_id,
  create_event_channel, get_cq_event, strlen, load_metadata, store_metadata, post_send_sge, wr_send,
}
use rdma_pmem.World.Keeps
use rdma_pmem.World.Keeps.{Keeps}
use rdma_pmem.Node.{is_null, failure, enomem, metadata_size}
use rdma_pmem.Ws.Resources.{ErrnoIsSet}
use rdma_pmem.Rw.{
  Text, Client, sge_of, minus_errno, get_addr, rdma_buffer_register, is_event,
  process_rdma_cm_event, acknowledge, poll, reap, Reaped, failed, reaped, after_reap, reap_events,
  process_work_completion_events,
}
use rdma_pmem.Rw.Init.{
  qp_attr, then_client, checked, allocated, await_event, connect_client, post_metadata, pre_post,
  create_pair, create_queue, create_channel, create_resources, find_route, create_client_id,
  open_channel, resolve_server,
}
use rdma_pmem.Rw.Init
use rdma_pmem.Rw.Worker
use rdma_pmem.Rw.Transfer.{
  string_length, complete, described, swap_metadata, send_metadata, exchange_metadata_with_server,
  set_src, alloc_dst,
}

-- how many events came, and how many are acknowledged
abbrev pub came : World → Trace → ℕ
came w [] = 0
came w (get_cm_event channel ∷ t) =
    (if is_zero (w.int (get_cm_event channel ∷ t)) then 1 else 0) + came w t
came w (x ∷ t) = came w t

abbrev pub acks : Trace → ℕ
acks [] = 0
acks (ack_cm_event e ∷ t) = acks t + 1
acks (x ∷ t) = acks t

abbrev pub Balanced : World → Trace → Type 0
Balanced w t = came w t ≡ acks t

module _ {w : World} where
  pub then_client-Balanced :
      {S : Type 0} (ret : ℤ) (client : S) {rest : Cmd (ℤ × S)}
      → Keeps w (Balanced w) rest
      → Keeps w (Balanced w) (then_client ret client rest)
  then_client-Balanced ret client h = Keeps.branch (is_zero ret) h (Keeps.pure-Keeps _)

  pub minus_errno-Balanced : Keeps w (Balanced w) minus_errno
  minus_errno-Balanced = Keeps.step _ λ t p. p

  pub string_length-Balanced : (p : Ptr) → Keeps w (Balanced w) (string_length p)
  string_length-Balanced p =
      Keeps.branch (is_null p) (Keeps.step crash λ t p. p)
        (Keeps.step (call_size (strlen p)) λ t p. p)

  pub errno-Balanced :
      {S : Type 0} (client : S)
      → Keeps {A = ℤ × S} w (Balanced w) (do code ← minus_errno; pure (code, client))
  errno-Balanced client = Keeps.step _ λ t p. p

  pub checked-Balanced :
      {S : Type 0} (ret : ℤ) (client : S) {rest : Cmd (ℤ × S)}
      → Keeps w (Balanced w) rest
      → Keeps w (Balanced w) (checked ret client rest)
  checked-Balanced ret client h = Keeps.branch (is_zero ret) h (errno-Balanced client)

  pub allocated-Balanced :
      {S : Type 0} (p : Ptr) (client : S) {rest : Cmd (ℤ × S)}
      → Keeps w (Balanced w) rest
      → Keeps w (Balanced w) (allocated p client rest)
  allocated-Balanced p client h = Keeps.branch (is_null p) (errno-Balanced client) h

  pub get_addr-Balanced : (dst : Ptr) → Keeps w (Balanced w) (get_addr dst)
  unfolding get_addr
  get_addr-Balanced dst = Keeps.step _ λ t p. ground (arith, p)

  pub register-Balanced :
      (pd addr : Ptr) (size : ℕ) (access : Access)
      → Keeps w (Balanced w) (rdma_buffer_register pd addr size access)
  unfolding rdma_buffer_register
  register-Balanced pd addr size access = Keeps.step _ λ t p. ground (arith, p)

  pub reap-Balanced :
      (fuel : ℕ) (cq : Ptr) (n : ℕ) (wc : List ℕ) → Keeps w (Balanced w) (reap fuel cq n wc)
  unfolding reap
  reap-Balanced zero cq n wc = Keeps.step _ λ t p. p
  reap-Balanced (suc fuel) cq n wc = Keeps.bind (Keeps.step (poll cq (n - length wc)) λ t p. p) λ r.
      Keeps.branch (is_neg r.0) (Keeps.pure-Keeps (failed r.0)) (
        Keeps.branch (ltb (length (wc ++ r.1)) n) (reap-Balanced fuel cq n (wc ++ r.1))
          (Keeps.pure-Keeps (reaped (wc ++ r.1))))

  pub after_reap-Balanced : (cq : Ptr) (r : Reaped) → Keeps w (Balanced w) (after_reap cq r)
  unfolding after_reap
  after_reap-Balanced cq r = Keeps.step _ λ t p. ground (arith, p)

  pub completions-Balanced :
      (fuel : ℕ) (channel : Ptr) (n : ℕ)
      → Keeps w (Balanced w) (process_work_completion_events fuel channel n)
  unfolding process_work_completion_events reap_events
  completions-Balanced fuel channel n =
      Keeps.bind
        (Keeps.step {A = ℤ × Ptr}
          (λ w t. let t' = get_cq_event channel ∷ t in ok (w.int t', w.ptr t') t') λ t p. p)
        λ r. Keeps.branch (not (is_zero r.0)) minus_errno-Balanced (
          Keeps.bind (Keeps.step (call_int (req_notify_cq r.1)) λ t p. p) λ ret.
            Keeps.branch (not (is_zero ret)) minus_errno-Balanced
              (Keeps.bind (reap-Balanced fuel r.1 n []) λ q. after_reap-Balanced r.1 q))

  pub complete-Balanced :
      (fuel : ℕ) (client : Client) (n : ℕ) → Keeps w (Balanced w) (complete fuel client n)
  unfolding complete
  complete-Balanced fuel client n =
      Keeps.bind (completions-Balanced fuel client.io_completion_channel n)
        λ ret. Keeps.branch (eqb_ℤ ret (pos n)) (Keeps.pure-Keeps (pos 0)) (Keeps.pure-Keeps ret)

  pub swap_metadata-Balanced :
      (fuel : ℕ) (mr : Mr) (client : Client) → Keeps w (Balanced w) (swap_metadata fuel mr client)
  unfolding swap_metadata
  swap_metadata-Balanced fuel mr client =
      Keeps.bind
        (Keeps.step (call_int (post_send_sge client.client_qp wr_send (sge_of mr) none)) λ t p. p)
        λ ret. checked-Balanced ret client (
          Keeps.bind (completions-Balanced fuel client.io_completion_channel 2) λ ret.
            Keeps.branch (not (eqb_ℤ ret (pos 2))) (Keeps.pure-Keeps (ret, client)) (
              Keeps.bind (Keeps.step (call (load_metadata client.server_metadata)) λ t p. p)
                λ done. Keeps.pure-Keeps (pos 0, client)))

  pub send_metadata-Balanced :
      (fuel : ℕ) (mr : Mr) (client : Client) → Keeps w (Balanced w) (send_metadata fuel mr client)
  unfolding send_metadata
  send_metadata-Balanced fuel src_mr client =
      Keeps.bind
        (Keeps.step (call (store_metadata client.client_metadata (described src_mr))) λ t p. p)
        λ done.
          Keeps.bind (register-Balanced client.pd client.client_metadata metadata_size local_write)
            λ mr.
              let made = record client { client_metadata_mr = mr } in
              Keeps.on_option mr (Keeps.pure-Keeps (failure, made))
                λ mr. swap_metadata-Balanced fuel mr made

  pub exchange-Balanced :
      (fuel : ℕ) (client : Client)
      → Keeps w (Balanced w) (exchange_metadata_with_server fuel client)
  unfolding exchange_metadata_with_server
  exchange-Balanced fuel client = Keeps.bind (string_length-Balanced client.src) λ size.
      Keeps.bind (register-Balanced client.pd client.src size local_remote_write) λ mr.
        let made = record client { client_src_mr = mr } in
        Keeps.on_option mr (Keeps.pure-Keeps (failure, made))
          λ mr. send_metadata-Balanced fuel mr made

  pub set_src-Balanced : (str : Text) (client : Client) → Keeps w (Balanced w) (set_src str client)
  unfolding set_src
  set_src-Balanced str client = Keeps.step _ λ t p. ground (arith, p)

  pub alloc_dst-Balanced :
      (str : Text) (client : Client) → Keeps w (Balanced w) (alloc_dst str client)
  unfolding alloc_dst
  alloc_dst-Balanced str client = Keeps.step _ λ t p. ground (arith, p)
