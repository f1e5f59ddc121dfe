-- ===== src/Rw/Session/Setup.antt =====
-- What a session of the server of rwbenchmark has where setup_connection returns 0.
use rdma_pmem.Prelude.{◌≡◌, refl, true, Option, none, some, ◌∷◌}
use rdma_pmem.Prelude.Int.{ℤ, pos, is_zero}
use rdma_pmem.World.{
  Ptr, Mr, local_write, alloc_pd, create_comp_channel, create_cq, req_notify_cq, create_qp, load_qp,
  post_recv_sge, Trace, World, Cmd, ok, pure, ◌>>=◌, crash, call_int, call_ptr,
}
use rdma_pmem.World.After
use rdma_pmem.World.After.{After}
use rdma_pmem.Node.{is_null, metadata_size}
use rdma_pmem.Ws.Resources.{ErrnoIsSet}
use rdma_pmem.Rw.{rdma_buffer_register, sge_of}
use rdma_pmem.Rw.Init.{checked, allocated}
use rdma_pmem.Rw.Steps.{Succeeds, checked-Succeeds, allocated-Succeeds, then_client-Succeeds}
use rdma_pmem.Rw.Session.{
  Session, einval, qp_attr, post_metadata, use_pair, create_pair, create_queue, create_channel,
  set_up, setup_connection,
}
use rdma_pmem.Rw.Session.Serving.{IsReady, Holds}

-- what follows keeps the members
module _ (w : World) (errno_set : ErrnoIsSet w) (rest : Session → Cmd (ℤ × Session))
    (ends : (s : Session) (t : Trace) → IsReady s → After (Succeeds IsReady) (rest s w t)) where
  post_metadata-IsReady :
      (mr : Option Mr) (qp : Ptr) (s : Session) (t : Trace)
      → Holds s.pd
      → Holds s.cq
      → Holds s.qp
      → Holds s.io_completion_channel
      → s.client_metadata_mr ≡ some mr
      → After (Succeeds IsReady) (post_metadata rest mr qp s w t)
  unfolding post_metadata
  post_metadata-IsReady none qp s t pd cq pair channel e = After.returned λ z. cc
  post_metadata-IsReady (some mr) qp s t pd cq pair channel e =
      let at = post_recv_sge qp (sge_of mr) ∷ t in
      then_client-Succeeds w errno_set IsReady (w.int at) s (rest s) at
        (ends s at (record { pd = pd; cq = cq; qp = pair; channel = channel; metadata = (mr, e) }))

  use_pair-IsReady :
      (pd_at qp_at : Ptr) (s : Session) (t : Trace)
      → Holds s.pd
      → Holds s.cq
      → Holds s.io_completion_channel
      → s.qp ≡ some qp_at
      → After (Succeeds IsReady) (use_pair rest pd_at qp_at s w t)
  unfolding use_pair
  use_pair-IsReady pd_at qp_at s t pd cq channel e =
      let post : Cmd (ℤ × Session) = do
        mr ← rdma_buffer_register pd_at s.client_metadata metadata_size local_write
        post_metadata rest mr qp_at (record s { client_metadata_mr = some mr })
      in After.test w (is_null qp_at) (pure (einval, s)) post t (λ null. After.returned λ z. cc)
        λ made.
          After.bind w
            (λ mr. post_metadata rest mr qp_at (record s { client_metadata_mr = some mr }))
            (After.any (rdma_buffer_register pd_at s.client_metadata metadata_size local_write w t))
            λ mr t' any.
              post_metadata-IsReady mr qp_at (record s { client_metadata_mr = some mr }) t' pd cq
                (qp_at, e, made) channel refl

  create_pair-IsReady :
      (pd_at cq_at : Ptr) (s : Session) (t : Trace)
      → Holds s.pd
      → Holds s.cq
      → Holds s.io_completion_channel
      → After (Succeeds IsReady) (create_pair rest pd_at cq_at s w t)
  unfolding create_pair
  create_pair-IsReady pd_at cq_at s t pd cq channel =
      let at = create_qp s.cm_client_id pd_at (qp_attr cq_at) ∷ t in
      let qp_at = load_qp s.cm_client_id ∷ at in
      let next : Cmd (ℤ × Session) = do
        qp ← call_ptr (load_qp s.cm_client_id)
        use_pair rest pd_at qp (record s { qp = some qp })
      in checked-Succeeds w errno_set IsReady (w.int at) s next at (
        use_pair-IsReady pd_at (w.ptr qp_at) (record s { qp = some (w.ptr qp_at) }) qp_at pd cq
          channel refl)

  create_queue-IsReady :
      (pd_at channel_at : Ptr) (s : Session) (t : Trace)
      → Holds s.pd
      → Holds s.io_completion_channel
      → After (Succeeds IsReady) (create_queue rest pd_at channel_at s w t)
  unfolding create_queue
  create_queue-IsReady pd_at channel_at s t pd channel =
      let at = create_cq s.cm_client_id 16 channel_at ∷ t in
      let cq = w.ptr at in
      let asked = req_notify_cq cq ∷ at in
      let made = record s { cq = some cq } in
      let next : Cmd (ℤ × Session) = do
        ret ← call_int (req_notify_cq cq)
        checked ret made (create_pair rest pd_at cq made)
      in allocated-Succeeds w errno_set IsReady cq made next at λ cq_made.
        checked-Succeeds w errno_set IsReady (w.int asked) made (create_pair rest pd_at cq made)
          asked (create_pair-IsReady pd_at cq made asked pd (cq, refl, cq_made) channel)

  create_channel-IsReady :
      (pd_at : Ptr) (s : Session) (t : Trace)
      → Holds s.pd
      → After (Succeeds IsReady) (create_channel rest pd_at s w t)
  unfolding create_channel
  create_channel-IsReady pd_at s t pd =
      let at = create_comp_channel s.cm_client_id ∷ t in
      let channel = w.ptr at in
      let made = record s { io_completion_channel = some channel } in
      allocated-Succeeds w errno_set IsReady channel made (create_queue rest pd_at channel made) at
        λ channel_made. create_queue-IsReady pd_at channel made at pd (channel, refl, channel_made)

  set_up-IsReady : (s : Session) (t : Trace) → After (Succeeds IsReady) (set_up rest s w t)
  unfolding set_up
  set_up-IsReady s t =
      let at = alloc_pd s.cm_client_id ∷ t in
      let pd = w.ptr at in
      let made = record s { pd = some pd } in
      let next : Cmd (ℤ × Session) = do
        pd ← call_ptr (alloc_pd s.cm_client_id)
        let s = record s { pd = some pd }
        allocated pd s (create_channel rest pd s)
      in After.test w (is_null s.cm_client_id) crash next t (λ null. After.faulted)
        λ id.
          allocated-Succeeds w errno_set IsReady pd made (create_channel rest pd made) at
            λ pd_made. create_channel-IsReady pd made at (pd, refl, pd_made)

-- If errno is set by a call that fails, setup_connection of the server of rwbenchmark returns 0 only
-- with every member of the session made that exchange_metadata and teardown read before they make
-- their own.
pub setup_connection-IsReady :
    (w : World) (s : Session) (t : Trace) {r : ℤ × Session} {t' : Trace}
    → ErrnoIsSet w
    → setup_connection s w t ≡ ok r t'
    → is_zero r.0 ≡ true
    → IsReady r.1
unfolding setup_connection
setup_connection-IsReady w s t {r} {t'} errno_set e =
    After.apply
      (set_up-IsReady w errno_set (λ s. pure (pos 0, s)) (λ s t ready. After.returned λ z. ready) s
        t)
      r t' e
