-- ===== src/Rw.antt =====
-- rwbenchmark: rwbenchmark/src/common.cpp and the class Client of rwbenchmark/src/client.cpp, whose
-- functions are in the child modules. The client of rdma-example has the same code up to its main.
-- A function that writes a member of the object returns the new object with its result. The reads
-- of errno for a message are left out, those for a result are not.
pub mod Init
pub mod Transfer
pub mod Cleanup
pub mod Worker
pub mod Session
pub mod Server
pub mod Balance
pub mod Steps
pub mod Resources
pub mod Completions
pub mod Release
pub mod Startup
use rdma_pmem.Prelude.{
  ℕ, zero, suc, ◌+◌, ◌-◌, ltb, ◌==◌, if◌then◌else◌, Bool, true, false, not, Option, none, some,
  List, [], ◌∷◌, ◌++◌, length, u32,
}
use rdma_pmem.Prelude.Int.{ℤ, pos, is_zero, is_neg, negate, pos_part}
use rdma_pmem.World.{
  Ptr, Mr, Access, Sge, EventType, addr_resolved, route_resolved, connect_request, established,
  disconnected, Event, errno, host_lookup, host_address, host_release, dereg_mr, req_notify_cq,
  poll_cq, get_cq_event, ack_cq_events, get_cm_event, ack_cm_event, ack_no_event, Cmd, ok, pure,
  ◌>>=◌, ◌>>◌, crash, exhausted, call, call_int,
}
use rdma_pmem.Node.{is_null, failure}
use rdma_pmem.Setup.{register}

-- a `std::string`
pub record Text : Type 0 where
  pub c_str : Ptr
  pub size : ℕ

-- `class Client`; `client_metadata` and `server_metadata` are the addresses of its two members of
-- type rdma_buffer_attr, and `server_port` is what std::stol makes of that string, `none` where it
-- throws
pub record Client : Type 0 where
  pub server_addr : Ptr
  pub server_port : Option ℕ
  pub cm_event_channel : Ptr
  pub cm_client_id : Ptr
  pub pd : Ptr
  pub io_completion_channel : Ptr
  pub client_cq : Ptr
  pub client_qp : Ptr
  pub client_metadata_mr : Option Mr
  pub client_src_mr : Option Mr
  pub client_dst_mr : Option Mr
  pub server_metadata_mr : Option Mr
  pub client_metadata : Ptr
  pub server_metadata : Ptr
  pub src : Ptr
  pub dst : Ptr

-- the constructor of an object with these members' addresses
abbrev pub new_client :
    (client_metadata server_metadata server_addr : Ptr) (server_port : Option ℕ) → Client
new_client client_metadata server_metadata server_addr server_port = record {
  server_addr = server_addr;
  server_port = server_port;
  cm_event_channel = 0;
  cm_client_id = 0;
  pd = 0;
  io_completion_channel = 0;
  client_cq = 0;
  client_qp = 0;
  client_metadata_mr = none;
  client_src_mr = none;
  client_dst_mr = none;
  server_metadata_mr = none;
  client_metadata = client_metadata;
  server_metadata = server_metadata;
  src = 0;
  dst = 0;
}

-- the whole memory region
abbrev pub sge_of : Mr → Sge
sge_of mr = record { addr = mr.addr; length = u32 mr.length; lkey = mr.lkey }

-- `-errno`
abbrev pub minus_errno : Cmd ℤ
minus_errno = do code ← call_int errno; pure (negate code)

-- the rest, or `return -errno` if `ret` is not 0
abbrev pub or_errno {ℓ} : {A : Type ℓ} → ℤ → (ℤ → A) → Cmd A → Cmd A
or_errno ret result rest = if is_zero ret then rest else do code ← minus_errno; pure (result code)

unfoldable pub get_addr : Ptr → Cmd ℤ
get_addr dst = do
  (ret, res) ← λ w t. let t' = host_lookup dst ∷ t in ok (w.int t', w.ptr t') t'
  if not (is_zero ret)
      then pure ret
      else if is_null res
      then crash
      else do call (host_address res); call (host_release res); pure ret

unfoldable pub rdma_buffer_register : Ptr → Ptr → (length : ℕ) → Access → Cmd (Option Mr)
rdma_buffer_register pd addr length access =
    if is_null pd then pure none else register pd addr (u32 length) access

unfoldable pub rdma_buffer_deregister : Option Mr → Cmd (Unit {0})
rdma_buffer_deregister none = pure tt
rdma_buffer_deregister (some mr) = call (dereg_mr (some mr))

-- `==` on the five types that the programs expect
abbrev pub is_event : EventType → EventType → Bool
is_event addr_resolved addr_resolved = true
is_event route_resolved route_resolved = true
is_event connect_request connect_request = true
is_event established established = true
is_event disconnected disconnected = true
is_event _ _ = false

abbrev pub get_event : Ptr → Cmd (ℤ × Event)
get_event channel w t = let t' = get_cm_event channel ∷ t in ok (w.int t', w.event t') t'

-- with what `*cm_event` is behind it; `none` is NULL
unfoldable pub process_rdma_cm_event :
    (channel : Ptr) (expected : EventType) → Option Event → Cmd (ℤ × Option Event)
process_rdma_cm_event channel expected cm_event = do
  (ret, e) ← get_event channel
  if not (is_zero ret)
      then (do code ← minus_errno; pure (code, cm_event))
      else if not (is_zero e.status)
      then (do call (ack_cm_event e); pure (negate e.status, some e))
      else if not (is_event e.event expected)
      then (do call (ack_cm_event e); pure (failure, some e))
      else pure (pos 0, some e)

-- `rdma_ack_cm_event(cm_event)`
unfoldable pub acknowledge : Option Event → Cmd ℤ
acknowledge none = call_int ack_no_event
acknowledge (some e) = call_int (ack_cm_event e)

-- what the loop over `ibv_poll_cq` ends with: the result of a poll that failed, or the statuses
pub data Reaped : Type 0 where
  failed : ℤ → Reaped
  reaped : List ℕ → Reaped

abbrev pub statuses_of : (ℕ → ℕ) → (i k : ℕ) → List ℕ
statuses_of status i zero = []
statuses_of status i (suc k) = status i ∷ statuses_of status (i + 1) k

-- `ibv_poll_cq` with the statuses of the completions
abbrev pub poll : Ptr → ℕ → Cmd (ℤ × List ℕ)
poll cq n w t =
    let t' = poll_cq cq n ∷ t in
    ok (w.int t', statuses_of (w.wc_status t') 0 (pos_part (w.int t'))) t'

-- the do-while loop; `wc` holds the statuses of the completions so far
unfoldable pub reap : (fuel : ℕ) (cq : Ptr) (max_wc : ℕ) (wc : List ℕ) → Cmd Reaped
reap zero cq max_wc wc = exhausted
reap (suc fuel) cq max_wc wc = do
  (ret, new) ← poll cq (max_wc - length wc)
  if is_neg ret
      then pure (failed ret)
      else if ltb (length (wc ++ new)) max_wc
      then reap fuel cq max_wc (wc ++ new)
      else pure (reaped (wc ++ new))

-- the status of the first completion that was no success
abbrev pub first_failure : List ℕ → Option ℕ
first_failure [] = none
first_failure (s ∷ rest) = if s == 0 then first_failure rest else some s

-- the validity of the completions, and the acknowledgement
unfoldable pub after_reap : (cq : Ptr) → Reaped → Cmd ℤ
after_reap cq (failed ret) = pure ret
after_reap cq (reaped wc) = elim (first_failure wc) as (λ o. Cmd ℤ) [
  | some s ↦ pure (negate (pos s))
  | none ↦ (do call (ack_cq_events cq 1); pure (pos (length wc)))
]

-- from the loop on
unfoldable pub reap_events : (fuel : ℕ) (cq : Ptr) (max_wc : ℕ) → Cmd ℤ
unfolding reap after_reap
reap_events fuel cq max_wc = do r ← reap fuel cq max_wc []; after_reap cq r

unfoldable pub process_work_completion_events : (fuel : ℕ) → Ptr → (max_wc : ℕ) → Cmd ℤ
unfolding reap_events
process_work_completion_events fuel channel max_wc = do
  (ret, cq) ← λ w t. let t' = get_cq_event channel ∷ t in ok (w.int t', w.ptr t') t'
  if not (is_zero ret) then minus_errno else do
    ret ← call_int (req_notify_cq cq)
    if not (is_zero ret) then minus_errno else reap_events fuel cq max_wc
