-- ===== src/RdmaExample/Holding.antt =====
-- What the members of the server of rdma-example hold while it sets the connection up.
use rdma_pmem.Prelude.{ℕ, ◌+◌, ◌≡◌, Option, none, some, is_some, ◌∷◌, arith}
use rdma_pmem.Prelude.Int.{ℤ, is_zero}
use rdma_pmem.World.{
  Ptr, Mr, Access, local_write, Trace, World, Call, alloc_pd, create_comp_channel, create_cq,
  req_notify_cq, create_qp, load_qp, post_recv_sge, load_uninitialised, Cmd, call_int, call_ptr,
  pure, ◌>>=◌,
}
use rdma_pmem.World.Triple
use rdma_pmem.World.Triple.{Triple}
use rdma_pmem.World.After
use rdma_pmem.Node.{is_null, metadata_size, enomem}
use rdma_pmem.Setup.{deref}
use rdma_pmem.Rw.{minus_errno, rdma_buffer_register, sge_of}
use rdma_pmem.Rw.Release.{one}
use rdma_pmem.Rw.Init.{then_client, checked, allocated}
use rdma_pmem.Rw.Session.{
  Session, value_of, einval, qp_attr, post_metadata, use_pair, create_pair, create_queue,
  create_channel, set_up,
}
use rdma_pmem.RdmaExample.Resources.{Accounts, Accounts-Quiet, IsQuiet}
use rdma_pmem.RdmaExample.Quiet.{int-Keeps}

pub deref-Triple :
    {A : Type 0} {w : World} {P : Trace → Type 0} (o : Option A) → Triple w P (deref o) (λ a. P)
deref-Triple none = Triple.crash-Triple
deref-Triple (some a) = Triple.pure-Triple a λ t p. p

-- what the memory of a member holds does not matter
pub value_of-Triple :
    {w : World} {P : Trace → Type 0}
    → ((c : Call) (t : Trace) → IsQuiet c → P t → P (c ∷ t))
    → (o : Option Ptr) → Triple w P (value_of o) (λ a. P)
value_of-Triple quiet none =
    Triple.step (call_ptr load_uninitialised)
      λ t p. After.returned (quiet load_uninitialised t tt p)
value_of-Triple quiet (some p) = Triple.pure-Triple p λ t q. q

module _ (w : World) (t₀ : Trace) where
  -- a session that holds what was made, and may take the server's regions
  abbrev pub Room : Session → Trace → Type 0
  Room s t =
      Accounts w t₀ 0 0 s t × (s.server_buffer_mr ≡ some none) × (s.server_metadata_mr ≡ some none)

  -- and the client's
  abbrev pub Bare : Session → Trace → Type 0
  Bare s t = Room s t × (s.client_metadata_mr ≡ some none)

  abbrev pub RoomAfter : ℤ × Session → Trace → Type 0
  RoomAfter r t = Room r.1 t

  pub Room-Quiet : (s : Session) (c : Call) (t : Trace) → IsQuiet c → Room s t → Room s (c ∷ t)
  Room-Quiet s c t q p = (Accounts-Quiet w t₀ 0 0 s c t q p.0, p.1, p.2)

  pub Bare-Quiet : (s : Session) (c : Call) (t : Trace) → IsQuiet c → Bare s t → Bare s (c ∷ t)
  Bare-Quiet s c t q p = (Room-Quiet s c t q p.0, p.1)

  int-Room : (s : Session) (c : Call) → IsQuiet c → Triple w (Room s) (call_int c) (λ b. Room s)
  int-Room s c q = Triple.kept (int-Keeps (Room-Quiet s) c q)

  int-Bare : (s : Session) (c : Call) → IsQuiet c → Triple w (Bare s) (call_int c) (λ b. Bare s)
  int-Bare s c q = Triple.kept (int-Keeps (Bare-Quiet s) c q)

  ptr-Bare : (s : Session) (c : Call) → IsQuiet c → Triple w (Bare s) (call_ptr c) (λ b. Bare s)
  ptr-Bare s c q = Triple.step (call_ptr c) λ t p. After.returned (Bare-Quiet s c t q p)

  errno-Room :
      (s : Session)
      → Triple {A = ℤ × Session} w (Room s) (do code ← minus_errno; pure (code, s)) RoomAfter
  errno-Room s = Triple.step _ λ t p. After.returned p

  pub then_client-Room :
      (ret : ℤ) (s : Session) {rest : Cmd (ℤ × Session)}
      → Triple w (Room s) rest RoomAfter
      → Triple w (Room s) (then_client ret s rest) RoomAfter
  then_client-Room ret s h =
      Triple.branch (is_zero ret) (λ z. h) λ z. Triple.pure-Triple (ret, s) λ t p. p

  pub checked-Room :
      (ret : ℤ) (s : Session) {rest : Cmd (ℤ × Session)}
      → Triple w (Room s) rest RoomAfter
      → Triple w (Room s) (checked ret s rest) RoomAfter
  checked-Room ret s h = Triple.branch (is_zero ret) (λ z. h) λ z. errno-Room s

  checked-Bare :
      (ret : ℤ) (s : Session) {rest : Cmd (ℤ × Session)}
      → Triple w (Bare s) rest RoomAfter
      → Triple w (Bare s) (checked ret s rest) RoomAfter
  checked-Bare ret s h =
      Triple.branch (is_zero ret) (λ z. h) λ z. Triple.weaken (errno-Room s) λ t p. p.0

  allocated-Bare :
      (a : Ptr) (s : Session) {rest : Cmd (ℤ × Session)}
      → Triple w (Bare s) rest RoomAfter
      → Triple w (Bare s) (allocated a s rest) RoomAfter
  allocated-Bare a s h =
      Triple.branch (is_null a) (λ z. Triple.weaken (errno-Room s) λ t p. p.0) λ z. h

  -- the region that is made is not held yet
  pub register-Accounts :
      (m n : ℕ) (s : Session) (pd addr : Ptr) (size : ℕ) (access : Access)
      → Triple w
          (Accounts w t₀ m n s)
          (rdma_buffer_register pd addr size access)
          (λ mr. Accounts w t₀ (m + one (is_some mr)) n s)
  unfolding rdma_buffer_register
  register-Accounts m n s pd addr size access =
      Triple.branch (is_null pd) (λ z. Triple.pure-Triple none λ t p. (omega (arith, p.0), p.1))
        λ z. Triple.step _ λ t p. After.returned (omega (arith, p.0), p.1)

  -- a member takes it
  client_metadata_held :
      (s : Session) (mr : Option Mr) (t : Trace)
      → s.client_metadata_mr ≡ some none
      → Accounts w t₀ (0 + one (is_some mr)) 0 s t
      → Accounts w t₀ 0 0 (record s { client_metadata_mr = some mr }) t
  client_metadata_held s none t e p = ground (arith, p.0, p.1, e)
  client_metadata_held s (some mr) t e p = ground (arith, p.0, p.1, e)

  register-Bare :
      (pd : Ptr) (s : Session)
      → Triple w
          (Bare s)
          (rdma_buffer_register pd s.client_metadata metadata_size local_write)
          (λ mr t. Room (record s { client_metadata_mr = some mr }) t)
  register-Bare pd s = Triple.step _ λ t p.
      After.mono
        ((register-Accounts 0 0 s pd s.client_metadata metadata_size local_write).run t p.0.0)
        λ mr t' q. (client_metadata_held s mr t' p.1 q, p.0.1, p.0.2)

  module _ (rest : Session → Cmd (ℤ × Session))
      (ends : (s : Session) → Triple w (Room s) (rest s) RoomAfter) where
    post_metadata-Room :
        (mr : Option Mr) (qp : Ptr) (s : Session)
        → Triple w (Room s) (post_metadata rest mr qp s) RoomAfter
    unfolding post_metadata
    post_metadata-Room none qp s = Triple.pure-Triple (enomem, s) λ t p. p
    post_metadata-Room (some mr) qp s =
        Triple.next (int-Room s (post_recv_sge qp (sge_of mr)) tt)
          λ ret. then_client-Room ret s (ends s)

    use_pair-Room :
        (pd qp : Ptr) (s : Session) → Triple w (Bare s) (use_pair rest pd qp s) RoomAfter
    unfolding use_pair
    use_pair-Room pd qp s =
        Triple.branch (is_null qp) (λ z. Triple.pure-Triple (einval, s) λ t p. p.0)
          λ z.
            Triple.bind (register-Bare pd s)
              λ mr. post_metadata-Room mr qp (record s { client_metadata_mr = some mr })

    create_pair-Room :
        (pd cq : Ptr) (s : Session) → Triple w (Bare s) (create_pair rest pd cq s) RoomAfter
    unfolding create_pair
    create_pair-Room pd cq s =
        Triple.next (int-Bare s (create_qp s.cm_client_id pd (qp_attr cq)) tt) λ ret.
          checked-Bare ret s (
            Triple.next (ptr-Bare s (load_qp s.cm_client_id) tt)
              λ qp. use_pair-Room pd qp (record s { qp = some qp }))

    create_queue-Room :
        (pd channel : Ptr) (s : Session)
        → Triple w (Bare s) (create_queue rest pd channel s) RoomAfter
    unfolding create_queue
    create_queue-Room pd channel s =
        Triple.next (ptr-Bare s (create_cq s.cm_client_id 16 channel) tt) λ cq.
          let made = record s { cq = some cq } in
          allocated-Bare cq made (
            Triple.next (int-Bare made (req_notify_cq cq) tt)
              λ ret. checked-Bare ret made (create_pair-Room pd cq made))

    create_channel-Room :
        (pd : Ptr) (s : Session) → Triple w (Bare s) (create_channel rest pd s) RoomAfter
    unfolding create_channel
    create_channel-Room pd s =
        Triple.next (ptr-Bare s (create_comp_channel s.cm_client_id) tt) λ channel.
          let made = record s { io_completion_channel = some channel } in
          allocated-Bare channel made (create_queue-Room pd channel made)

    pub set_up-Room : (s : Session) → Triple w (Bare s) (set_up rest s) RoomAfter
    unfolding set_up
    set_up-Room s =
        Triple.branch (is_null s.cm_client_id) (λ z. Triple.crash-Triple)
          λ z. Triple.next (ptr-Bare s (alloc_pd s.cm_client_id) tt) λ pd.
            let made = record s { pd = some pd } in
            allocated-Bare pd made (create_channel-Room pd made)
