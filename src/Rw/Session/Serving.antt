-- ===== src/Rw/Session/Serving.antt =====
-- What a session of the server of rwbenchmark holds when it is set up, and what it gives back.
use rdma_pmem.Prelude.{
  ℕ, ◌+◌, ◌≡◌, refl, ◌==◌, if◌then◌else◌, not, true, false, inl, inr, Option, none, some, ◌∷◌,
  arith,
}
use rdma_pmem.Prelude.Int.{ℤ, pos, is_zero, eqb_ℤ}
use rdma_pmem.World.{
  Ptr, Mr, local_write, local_remote_write, free, load_metadata, store_metadata, dereg_mr,
  dealloc_pd, destroy_comp_channel, destroy_cq, destroy_id, destroy_qp, Trace, World, Cmd, ok, pure,
  ◌>>=◌,
}
use rdma_pmem.World.After
use rdma_pmem.World.After.{After}
use rdma_pmem.Node.{is_null, metadata_size}
use rdma_pmem.Setup.Release.{frees}
use rdma_pmem.Rw.{rdma_buffer_register, process_work_completion_events}
use rdma_pmem.Rw.Transfer.{load_attr, described}
use rdma_pmem.Rw.Completions.{ErrnoIsPositive, process_work_completion_events-Ends}
use rdma_pmem.Rw.Release.{deregistered}
use rdma_pmem.Rw.Session.{
  Session, value_of, rdma_buffer_alloc, describe_buffer, exchange_metadata, send_metadata, teardown,
}

-- a pointer that is initialised, and not to NULL
abbrev pub Holds : Option Ptr → Type 0
Holds o = (p : Ptr) × (o ≡ some p) × (is_null p ≡ false)

-- the members that setup_connection initialises
pub record IsReady (s : Session) : Type 0 where
  pub pd : Holds s.pd
  pub cq : Holds s.cq
  pub qp : Holds s.qp
  pub channel : Holds s.io_completion_channel
  pub metadata : (mr : Mr) × (s.client_metadata_mr ≡ some (some mr))

-- the same, with the buffer that is lent to the client
pub record Serves (s : Session) (buffer : Mr) : Type 0 where
  pub ready : IsReady s
  pub lent : s.server_buffer_mr ≡ some (some buffer)
  pub described : (mr : Mr) × (s.server_metadata_mr ≡ some (some mr))

-- teardown of a session that serves a client returns 0, frees the buffer that was lent and nothing
-- else, and deregisters three regions.
teardown-Frees :
    (s : Session) (buffer : Mr) (w : World) (t : Trace) (p : Ptr)
    → Serves s buffer
    → (t' : Trace) × (teardown s w t ≡ ok (pos 0) t')
      × (frees p t' ≡ frees p t + (if buffer.addr == p then 1 else 0))
      × (deregistered t' ≡ deregistered t + 3)
unfolding teardown
teardown-Frees s buffer w t p serves =
    let (pd, pd_is, a) = serves.ready.pd in
    let (cq, cq_is, b) = serves.ready.cq in
    let (channel, channel_is, d) = serves.ready.channel in
    let (client_mr, client_is) = serves.ready.metadata in
    let (server_mr, server_is) = serves.described in
    (
      dealloc_pd pd
          ∷ dereg_mr (some client_mr)
          ∷ dereg_mr (some server_mr)
          ∷ free buffer.addr
          ∷ dereg_mr (some buffer)
          ∷ destroy_comp_channel channel
          ∷ destroy_cq cq
          ∷ destroy_id s.cm_client_id
          ∷ destroy_qp s.cm_client_id
          ∷ t,
      ground (arith, pd_is, cq_is, channel_is, client_is, server_is, serves.lent),
      ground arith,
      ground arith,
    )

module _ (w : World) (positive : ErrnoIsPositive w) where
  send_metadata-Leaves :
      (fuel : ℕ) (mr : Mr) (channel : Ptr) (s : Session) (t : Trace)
      → After (λ r t'. r.1 ≡ s) (send_metadata fuel (some mr) channel s w t)
  unfolding send_metadata
  send_metadata-Leaves fuel mr channel s t = After.intro _ λ r t' e. ground arith

  abbrev Served : ℤ × Session → Trace → Type 0
  Served r t = is_zero r.0 ≡ true → (buffer : Mr) × Serves r.1 buffer

  send_metadata-Served :
      (fuel : ℕ) (mr : Option Mr) (channel : Ptr) (s : Session) (buffer : Mr) (t : Trace)
      → IsReady s
      → s.server_buffer_mr ≡ some (some buffer)
      → s.server_metadata_mr ≡ some mr
      → After Served (send_metadata fuel mr channel s w t)
  unfolding send_metadata
  send_metadata-Served fuel none channel s buffer t ready lent told = After.returned λ z. cc
  send_metadata-Served fuel (some mr) channel s buffer t ready lent told =
      After.mono (send_metadata-Leaves fuel mr channel s t) λ r t' same z.
        (buffer, rw same (record { ready = ready; lent = lent; described = (mr, told) }))

  describe_buffer-Served :
      (fuel : ℕ) (buffer : Option Mr) (pd channel : Ptr) (s : Session) (t : Trace)
      → IsReady s
      → s.server_buffer_mr ≡ some buffer
      → After Served (describe_buffer fuel buffer pd channel s w t)
  unfolding describe_buffer
  describe_buffer-Served fuel none pd channel s t ready lent = After.returned λ z. cc
  describe_buffer-Served fuel (some buffer) pd channel s t ready lent =
      let at = store_metadata s.server_metadata (described buffer) ∷ t in
      After.bind w (λ mr. send_metadata fuel mr channel (record s { server_metadata_mr = some mr }))
        (After.any (rdma_buffer_register pd s.server_metadata metadata_size local_write w at))
        λ mr t' any.
          send_metadata-Served fuel mr channel (record s { server_metadata_mr = some mr }) buffer t'
            (record {
              pd = ready.pd;
              cq = ready.cq;
              qp = ready.qp;
              channel = ready.channel;
              metadata = ready.metadata;
            })
            lent refl

  -- a wait that returns 0 has not happened
  wait_not_zero :
      (fuel : ℕ) (channel : Ptr) (t : Trace) (ret : ℤ) (t' : Trace)
      → process_work_completion_events fuel channel 1 w t ≡ ok ret t'
      → is_zero ret ≡ false
  wait_not_zero fuel channel t ret t' e =
      elim (process_work_completion_events-Ends w fuel channel 1 t positive e) [
        | inl done ↦ ground (arith, done.counted, done.enough)
        | inr failed ↦ ground (arith, failed.error)
      ]

  abbrev lent_session : Session → Option Mr → Session
  lent_session s buffer = record s { server_buffer_mr = some buffer }

  -- exchange_metadata behind the receive of the client's metadata
  abbrev lend : ℕ → Session → Ptr → Ptr → ℕ → Cmd (ℤ × Session)
  lend fuel s channel pd size = do
    buffer ← rdma_buffer_alloc pd size local_remote_write
    describe_buffer fuel buffer pd channel (lent_session s buffer)

  lend-Served :
      (fuel : ℕ) (s : Session) (channel pd : Ptr) (size : ℕ) (t : Trace)
      → IsReady s
      → After Served (lend fuel s channel pd size w t)
  lend-Served fuel s channel pd size t ready =
      After.bind w (λ buffer. describe_buffer fuel buffer pd channel (lent_session s buffer))
        (After.any (rdma_buffer_alloc pd size local_remote_write w t))
        λ buffer t' any.
          describe_buffer-Served fuel buffer pd channel (lent_session s buffer) t'
            (record {
              pd = ready.pd;
              cq = ready.cq;
              qp = ready.qp;
              channel = ready.channel;
              metadata = ready.metadata;
            })
            refl

  -- exchange_metadata behind the wait for the client's metadata
  abbrev waited : ℕ → Session → Ptr → ℤ → Cmd (ℤ × Session)
  waited fuel s channel ret = if not (eqb_ℤ ret (pos 1)) then pure (ret, s) else do
    attr ← load_attr s.client_metadata
    pd ← value_of s.pd
    lend fuel s channel pd attr.length

  waited-Served :
      (fuel : ℕ) (s : Session) (channel : Ptr) (ret : ℤ) (t : Trace)
      → IsReady s
      → is_zero ret ≡ false
      → After Served (waited fuel s channel ret w t)
  waited-Served fuel s channel ret t ready nonzero =
      let at = load_metadata s.client_metadata ∷ t in
      let size = (w.attr at).length in
      After.test w (not (eqb_ℤ ret (pos 1))) (pure (ret, s))
        (do
          attr ← load_attr s.client_metadata
          pd ← value_of s.pd
          lend fuel s channel pd attr.length)
        t (λ other. After.returned λ z. cc)
        λ one.
          After.bind w (λ pd. lend fuel s channel pd size) (After.any (value_of s.pd w at))
            λ pd t' any. lend-Served fuel s channel pd size t' ready

  exchange_metadata-Served :
      (fuel : ℕ) (s : Session) (t : Trace) → IsReady s → After Served (exchange_metadata fuel s w t)
  unfolding exchange_metadata
  exchange_metadata-Served fuel s t ready =
      After.bind w
        (λ channel. do
          ret ← process_work_completion_events fuel channel 1
          waited fuel s channel ret)
        (After.any (value_of s.io_completion_channel w t))
        λ channel t1 any.
          After.bind w (waited fuel s channel)
            (After.intro {Q = λ ret t'. is_zero ret ≡ false}
              (process_work_completion_events fuel channel 1 w t1) (wait_not_zero fuel channel t1))
            λ ret t2 nonzero. waited-Served fuel s channel ret t2 ready nonzero

-- If a call that fails leaves a positive number in errno, and exchange_metadata of a session that is
-- set up returns 0, then there is a buffer such that teardown of the session returns 0, frees that
-- buffer and nothing else, and deregisters three regions.
pub exchange_metadata-teardown :
    (fuel : ℕ) (s : Session) (w : World) (t : Trace) (p : Ptr) {r : ℤ × Session} {t' : Trace}
    → ErrnoIsPositive w
    → IsReady s
    → exchange_metadata fuel s w t ≡ ok r t'
    → is_zero r.0 ≡ true
    → (buffer : Mr) × (t'' : Trace) × (r.1.server_buffer_mr ≡ some (some buffer))
      × (teardown r.1 w t' ≡ ok (pos 0) t'')
      × (frees p t'' ≡ frees p t' + (if buffer.addr == p then 1 else 0))
      × (deregistered t'' ≡ deregistered t' + 3)
exchange_metadata-teardown fuel s w t p {r} {t'} positive ready e z =
    let (buffer, serves) =
      After.apply (exchange_metadata-Served w positive fuel s t ready) r t' e z in
    let (t'', run, freed, gone) = teardown-Frees r.1 buffer w t' p serves in
    (buffer, t'', serves.lent, run, freed, gone)
