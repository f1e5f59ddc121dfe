-- ===== src/RdmaExample/Lending.antt =====
-- What the members of the server of rdma-example hold when it has lent its buffer to the client.
use rdma_pmem.Prelude.{ℕ, ◌+◌, ◌≡◌, Option, none, some, is_some, not, ◌∷◌, arith, if◌then◌else◌}
use rdma_pmem.Prelude.Int.{ℤ, pos, is_zero, eqb_ℤ}
use rdma_pmem.World.{
  Ptr, Mr, Access, local_write, local_remote_write, Trace, World, Call, calloc, free, post_send_sge,
  wr_send, store_metadata, Cmd, call, call_ptr, pure, ◌>>◌,
}
use rdma_pmem.World.Triple
use rdma_pmem.World.Triple.{Triple}
use rdma_pmem.World.After
use rdma_pmem.Node.{is_null, metadata_size, enomem}
use rdma_pmem.Rw.{rdma_buffer_register, process_work_completion_events}
use rdma_pmem.Rw.Release.{one}
use rdma_pmem.Rw.Init.{checked}
use rdma_pmem.Rw.Transfer.{described, load_attr}
use rdma_pmem.Rw.Session.{
  Session, rdma_buffer_alloc, send_metadata, describe_buffer, exchange_metadata,
}
use rdma_pmem.RdmaExample.Resources.{Accounts, Accounts-Quiet, IsQuiet}
use rdma_pmem.RdmaExample.Quiet.{completions-Keeps, int-Keeps}
use rdma_pmem.RdmaExample.Holding.{Room, Room-Quiet, register-Accounts, value_of-Triple}

module _ (w : World) (t₀ : Trace) where
  -- a session that holds what was made
  abbrev pub Holds : Session → Trace → Type 0
  Holds s = Accounts w t₀ 0 0 s

  abbrev pub HoldsAfter : ℤ × Session → Trace → Type 0
  HoldsAfter r t = Holds r.1 t

  Holds-Quiet : (s : Session) (c : Call) (t : Trace) → IsQuiet c → Holds s t → Holds s (c ∷ t)
  Holds-Quiet s = Accounts-Quiet w t₀ 0 0 s

  pub checked-Holds :
      (ret : ℤ) (s : Session) {rest : Cmd (ℤ × Session)}
      → Triple w (Holds s) rest HoldsAfter
      → Triple w (Holds s) (checked ret s rest) HoldsAfter
  checked-Holds ret s h =
      Triple.branch (is_zero ret) (λ z. h) λ z. Triple.step _ λ t p. After.returned p

  pub wait-Holds :
      (fuel : ℕ) (channel : Ptr) (s : Session)
      → Triple w (Holds s) (process_work_completion_events fuel channel 1) (λ b. Holds s)
  wait-Holds fuel channel s = Triple.kept (completions-Keeps (Holds-Quiet s) fuel channel 1)

  send_metadata-Holds :
      (fuel : ℕ) (mr : Option Mr) (channel : Ptr) (s : Session)
      → Triple w (Holds s) (send_metadata fuel mr channel s) HoldsAfter
  unfolding send_metadata
  send_metadata-Holds fuel none channel s = Triple.pure-Triple (enomem, s) λ t p. p
  send_metadata-Holds fuel (some mr) channel s =
      Triple.next (value_of-Triple (Holds-Quiet s) s.qp) λ qp.
        Triple.next
          (Triple.kept (
            int-Keeps (Holds-Quiet s)
              (post_send_sge qp wr_send
                (record { addr = s.server_metadata; length = metadata_size; lkey = mr.lkey }) none)
              tt))
          λ ret. checked-Holds ret s (
            Triple.next (wait-Holds fuel channel s)
              λ ret. Triple.pure-Triple (if eqb_ℤ ret (pos 1) then pos 0 else ret, s) λ t p. p)

  server_metadata_held :
      (s : Session) (mr : Option Mr) (t : Trace)
      → s.server_metadata_mr ≡ some none
      → Accounts w t₀ (0 + one (is_some mr)) 0 s t
      → Holds (record s { server_metadata_mr = some mr }) t
  server_metadata_held s none t e p = ground (arith, p.0, p.1, e)
  server_metadata_held s (some mr) t e p = ground (arith, p.0, p.1, e)

  -- the server's metadata have no region yet
  abbrev Lends : Session → Trace → Type 0
  Lends s t = Holds s t × (s.server_metadata_mr ≡ some none)

  register_server-Holds :
      (pd : Ptr) (s : Session)
      → Triple w
          (Lends s)
          (rdma_buffer_register pd s.server_metadata metadata_size local_write)
          (λ mr. Holds (record s { server_metadata_mr = some mr }))
  register_server-Holds pd s = Triple.step _ λ t p.
      After.mono
        ((register-Accounts w t₀ 0 0 s pd s.server_metadata metadata_size local_write).run t p.0)
        λ mr t' q. server_metadata_held s mr t' p.1 q

  describe_buffer-Holds :
      (fuel : ℕ) (buffer : Option Mr) (pd channel : Ptr) (s : Session)
      → Triple w (Lends s) (describe_buffer fuel buffer pd channel s) HoldsAfter
  unfolding describe_buffer
  describe_buffer-Holds fuel none pd channel s = Triple.pure-Triple (enomem, s) λ t p. p.0
  describe_buffer-Holds fuel (some buffer) pd channel s =
      Triple.next
        (Triple.step {Q = λ b. Lends s} (call (store_metadata s.server_metadata (described buffer)))
          λ t p. After.returned p)
        λ done.
          Triple.bind (register_server-Holds pd s)
            λ mr. send_metadata-Holds fuel mr channel (record s { server_metadata_mr = some mr })

  -- the buffer and its region, or neither
  server_buffer_held :
      (s : Session) (mr : Option Mr) (t : Trace)
      → s.server_buffer_mr ≡ some none
      → Accounts w t₀ (0 + one (is_some mr)) (one (is_some mr)) s t
      → Holds (record s { server_buffer_mr = some mr }) t
  server_buffer_held s none t e p = ground (arith, p.0, p.1, e)
  server_buffer_held s (some mr) t e p = ground (arith, p.0, p.1, e)

  keep_buffer-Accounts :
      (s : Session) (buf : Ptr) (mr : Option Mr)
      → Triple w
          (Accounts w t₀ (0 + one (is_some mr)) 1 s)
          (elim mr as (λ mr. Cmd (Option Mr)) [
            | none ↦ (do call (free buf); pure none)
            | some mr ↦ pure (some mr)
          ])
          (λ mr. Accounts w t₀ (0 + one (is_some mr)) (one (is_some mr)) s)
  keep_buffer-Accounts s buf none = Triple.step _ λ t p. After.returned (p.0, omega (arith, p.1))
  keep_buffer-Accounts s buf (some mr) = Triple.pure-Triple (some mr) λ t p. p

  alloc-Accounts :
      (pd : Ptr) (size : ℕ) (access : Access) (s : Session)
      → Triple w
          (Accounts w t₀ 0 0 s)
          (rdma_buffer_alloc pd size access)
          (λ mr. Accounts w t₀ (0 + one (is_some mr)) (one (is_some mr)) s)
  unfolding rdma_buffer_alloc
  alloc-Accounts pd size access s =
      Triple.branch (is_null pd) (λ z. Triple.pure-Triple none λ t p. p)
        λ z.
          Triple.bind {R = λ buf. Accounts w t₀ 0 (one (not (is_null buf))) s}
            (Triple.step (call_ptr (calloc size)) λ t p. After.returned (p.0, omega (arith, p.1)))
            λ buf.
              Triple.branch (is_null buf) (λ null. Triple.pure-Triple none λ t p. rw null at p)
                λ made.
                  Triple.bind
                    (Triple.weaken (register-Accounts w t₀ 0 1 s pd buf size access)
                      λ t p. rw made at p)
                    (keep_buffer-Accounts s buf)

  alloc-Lends :
      (pd : Ptr) (size : ℕ) (s : Session)
      → Triple w
          (Room w t₀ s)
          (rdma_buffer_alloc pd size local_remote_write)
          (λ mr. Lends (record s { server_buffer_mr = some mr }))
  alloc-Lends pd size s = Triple.step _ λ t p.
      After.mono ((alloc-Accounts pd size local_remote_write s).run t p.0)
        λ mr t' q. (server_buffer_held s mr t' p.1 q, p.2)

  pub exchange_metadata-Holds :
      (fuel : ℕ) (s : Session) → Triple w (Room w t₀ s) (exchange_metadata fuel s) HoldsAfter
  unfolding exchange_metadata
  exchange_metadata-Holds fuel s =
      Triple.next (value_of-Triple (Room-Quiet w t₀ s) s.io_completion_channel) λ channel.
        Triple.next (Triple.kept (completions-Keeps (Room-Quiet w t₀ s) fuel channel 1)) λ ret.
          Triple.branch (not (eqb_ℤ ret (pos 1))) (λ z. Triple.pure-Triple (ret, s) λ t p. p.0)
            λ z.
              Triple.next
                (Triple.step {Q = λ b. Room w t₀ s} (load_attr s.client_metadata)
                  λ t p. After.returned p)
                λ attr. Triple.next (value_of-Triple (Room-Quiet w t₀ s) s.pd) λ pd.
                  Triple.bind (alloc-Lends pd attr.length s) λ buffer.
                    describe_buffer-Holds fuel buffer pd channel
                      (record s { server_buffer_mr = some buffer })
