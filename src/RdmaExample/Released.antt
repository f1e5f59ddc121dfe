-- ===== src/RdmaExample/Released.antt =====
-- What the server of rdma-example has released where its main returns 0.
use rdma_pmem.Prelude.{ℕ, ◌+◌, ◌≡◌, refl, Option, none, some, is_some, not, true, ◌∷◌, arith, List}
use rdma_pmem.Prelude.Int.{ℤ, pos, is_zero}
use rdma_pmem.World.{
  Ptr, Mr, disconnected, Trace, World, Call, free, calloc, reg_mr, dereg_mr, dealloc_pd, load_bytes,
  destroy_event_channel, destroy_id, destroy_qp, destroy_cq, destroy_comp_channel, operator_new,
  Cmd, ok, call, call_ptr, pure, ◌>>◌,
}
use rdma_pmem.World.Triple
use rdma_pmem.World.Triple.{Triple}
use rdma_pmem.World.After
use rdma_pmem.World.After.{After}
use rdma_pmem.Node.{is_null}
use rdma_pmem.Setup.{deref}
use rdma_pmem.Ws.Resources.{ErrnoIsSet}
use rdma_pmem.Rw.{Text, minus_errno, rdma_buffer_deregister}
use rdma_pmem.Rw.Release.{deregistered, one}
use rdma_pmem.Rw.Session.{Session}
use rdma_pmem.Rw.Server.{Opt, parse, allocate}
use rdma_pmem.RdmaExample.Server.{
  Server, new_server, print_buffer, exchange_metadata_with_client, rdma_buffer_free,
  release_buffers, release, cleanup, serve_client, server_main,
}
use rdma_pmem.RdmaExample.Resources.{Accounts-Quiet, IsQuiet, registered, callocs, freed, has}
use rdma_pmem.RdmaExample.Quiet.{process-Keeps, acknowledge-Keeps, call-Keeps}
use rdma_pmem.RdmaExample.Holding.{deref-Triple}
use rdma_pmem.RdmaExample.Lending.{Holds, exchange_metadata-Holds}
use rdma_pmem.RdmaExample.Accepting.{ServerBare, init-Room}

-- `m` regions and `n` buffers that were made since the trace `t₀` are still to release
abbrev Owes : World → Trace → (m n : ℕ) → Trace → Type 0
Owes w t₀ m n t =
    (registered w t + deregistered t₀ ≡ registered w t₀ + deregistered t + m)
    × (callocs w t + freed t₀ ≡ callocs w t₀ + freed t + n)

Owes-Quiet :
    (w : World) (t₀ : Trace) (m n : ℕ) (c : Call) (t : Trace)
    → IsQuiet c
    → Owes w t₀ m n t
    → Owes w t₀ m n (c ∷ t)
Owes-Quiet w t₀ m n (reg_mr pd addr size access) t q p = elim q [ ]
Owes-Quiet w t₀ m n (dereg_mr mr) t q p = elim q [ ]
Owes-Quiet w t₀ m n (calloc size) t q p = elim q [ ]
Owes-Quiet w t₀ m n (free a) t q p = elim q [ ]
Owes-Quiet w t₀ m n _ t q p = p

module _ (w : World) (t₀ : Trace) where
  call-Owes :
      (m n : ℕ) (c : Call) → IsQuiet c → Triple w (Owes w t₀ m n) (call c) (λ b. Owes w t₀ m n)
  call-Owes m n c q = Triple.kept (call-Keeps (Owes-Quiet w t₀ m n) c q)

  -- the member is initialised, so what it has is what is read
  deref_buffer-Owes :
      (m n : ℕ) (o : Option (Option Mr))
      → Triple w
          (Owes w t₀ (has o + m) (has o + n))
          (deref o)
          (λ mr. Owes w t₀ (one (is_some mr) + m) (one (is_some mr) + n))
  deref_buffer-Owes m n none = Triple.crash-Triple
  deref_buffer-Owes m n (some none) = Triple.pure-Triple none λ t p. p
  deref_buffer-Owes m n (some (some mr)) = Triple.pure-Triple (some mr) λ t p. p

  deref_region-Owes :
      (m n : ℕ) (o : Option (Option Mr))
      → Triple w (Owes w t₀ (has o + m) n) (deref o) (λ mr. Owes w t₀ (one (is_some mr) + m) n)
  deref_region-Owes m n none = Triple.crash-Triple
  deref_region-Owes m n (some none) = Triple.pure-Triple none λ t p. p
  deref_region-Owes m n (some (some mr)) = Triple.pure-Triple (some mr) λ t p. p

  deregister-Owes :
      (m n : ℕ) (mr : Option Mr)
      → Triple w
          (Owes w t₀ (one (is_some mr) + m) n)
          (rdma_buffer_deregister mr)
          (λ b. Owes w t₀ m n)
  unfolding rdma_buffer_deregister
  deregister-Owes m n none = Triple.pure-Triple tt λ t p. (omega (arith, p.0), p.1)
  deregister-Owes m n (some mr) = Triple.step _ λ t p. After.returned (omega (arith, p.0), p.1)

  free-Owes :
      (m n : ℕ) (mr : Option Mr)
      → Triple w
          (Owes w t₀ (one (is_some mr) + m) (one (is_some mr) + n))
          (rdma_buffer_free mr)
          (λ b. Owes w t₀ m n)
  unfolding rdma_buffer_free rdma_buffer_deregister
  free-Owes m n none = Triple.pure-Triple tt λ t p. (omega (arith, p.0), omega (arith, p.1))
  free-Owes m n (some mr) =
      Triple.step _ λ t p. After.returned (omega (arith, p.0), omega (arith, p.1))

  release_buffers-Owes :
      (s : Session)
      → Triple w
          (Owes w t₀
            (has s.server_buffer_mr + (has s.server_metadata_mr + (has s.client_metadata_mr + 0)))
            (has s.server_buffer_mr + 0))
          (release_buffers s)
          (λ b. Owes w t₀ 0 0)
  unfolding release_buffers
  release_buffers-Owes s =
      let m1 = has s.client_metadata_mr + 0 in
      let m2 = has s.server_metadata_mr + m1 in
      Triple.bind (deref_buffer-Owes m2 0 s.server_buffer_mr) λ buffer.
        Triple.bind (free-Owes m2 0 buffer) λ done.
          Triple.bind (deref_region-Owes m1 0 s.server_metadata_mr) λ mr.
            Triple.bind (deregister-Owes m1 0 mr) λ done.
              Triple.bind (deref_region-Owes 0 0 s.client_metadata_mr) λ mr. deregister-Owes 0 0 mr

  Holds-Owes :
      (s : Session) (t : Trace)
      → Holds w t₀ s t
      → Owes w t₀
          (has s.server_buffer_mr + (has s.server_metadata_mr + (has s.client_metadata_mr + 0)))
          (has s.server_buffer_mr + 0)
          t
  Holds-Owes s t p = (omega (arith, p.0), omega (arith, p.1))

  release-Owes :
      (server : Server) → Triple w (Holds w t₀ server.session) (release server) (λ b. Owes w t₀ 0 0)
  unfolding release
  release-Owes server =
      let s = server.session in
      let quiet = Accounts-Quiet w t₀ 0 0 s in
      Triple.next (Triple.kept (call-Keeps quiet (destroy_qp s.cm_client_id) tt)) λ done.
        Triple.next (Triple.kept (call-Keeps quiet (destroy_id s.cm_client_id) tt)) λ done.
          Triple.next (deref-Triple s.cq) λ cq.
            Triple.next (Triple.kept (call-Keeps quiet (destroy_cq cq) tt)) λ done.
              Triple.next (deref-Triple s.io_completion_channel) λ channel.
                Triple.next (Triple.kept (call-Keeps quiet (destroy_comp_channel channel) tt))
                  λ done.
                    Triple.bind (Triple.weaken (release_buffers-Owes s) (Holds-Owes s)) λ done.
                      Triple.next (deref-Triple s.pd) λ pd.
                        Triple.next (call-Owes 0 0 (dealloc_pd pd) tt) λ done.
                          Triple.next (call-Owes 0 0 (destroy_id server.cm_server_id) tt)
                            λ done. call-Owes 0 0 (destroy_event_channel server.cm_event_channel) tt

  -- a run that returns 0 has released all that it has made
  abbrev Releases : ℤ → Trace → Type 0
  Releases ret t = is_zero ret ≡ true → Owes w t₀ 0 0 t

  module _ (errno_set : ErrnoIsSet w) where
    errno-Releases : {P : Trace → Type 0} → Triple w P minus_errno Releases
    errno-Releases =
        Triple.step minus_errno λ t p. After.returned λ z. ground (arith, errno_set t, z)

    cleanup-Releases :
        (server : Server) → Triple w (Holds w t₀ server.session) (cleanup server) Releases
    unfolding cleanup
    cleanup-Releases server =
        let quiet = Accounts-Quiet w t₀ 0 0 server.session in
        Triple.next (Triple.kept (process-Keeps quiet server.cm_event_channel disconnected none))
          λ r.
            Triple.branch (not (is_zero r.0))
              (λ bad. Triple.pure-Triple r.0 λ t p z. ground (arith, bad, z))
              λ fine. Triple.next (Triple.kept (acknowledge-Keeps quiet r.1)) λ ret.
                Triple.branch (is_zero ret)
                  (λ z.
                    Triple.bind (release-Owes server) λ done. Triple.pure-Triple (pos 0) λ t p z. p)
                  λ z.
                    Triple.bind {R = Releases} errno-Releases
                      λ code. Triple.pure-Triple code λ t p. p

    print_buffer-Holds :
        (s : Session) → Triple w (Holds w t₀ s) (print_buffer s) (λ b. Holds w t₀ s)
    unfolding print_buffer
    print_buffer-Holds s = Triple.next (deref-Triple s.server_buffer_mr) λ region.
        Triple.next (deref-Triple region) λ buffer.
          Triple.kept
            (call-Keeps (Accounts-Quiet w t₀ 0 0 s) (load_bytes buffer.addr buffer.length) tt)

    serve_client-Releases :
        (fuel : ℕ) (server : Server)
        → Triple w (ServerBare w t₀ server) (serve_client fuel server) Releases
    unfolding serve_client exchange_metadata_with_client
    serve_client-Releases fuel server = Triple.bind (init-Room w t₀ server) λ r.
        Triple.branch (not (is_zero r.0))
          (λ bad. Triple.pure-Triple r.0 λ t p z. ground (arith, bad, z))
          λ fine.
            Triple.bind
              (Triple.bind (exchange_metadata-Holds w t₀ fuel r.1.session) λ q.
                Triple.pure-Triple {Q = λ o t. Holds w t₀ o.1.session t}
                  (q.0, record r.1 { session = q.1 }) λ t p. p)
              λ o.
                Triple.branch (not (is_zero o.0))
                  (λ bad. Triple.pure-Triple o.0 λ t p z. ground (arith, bad, z))
                  λ fine. Triple.next (print_buffer-Holds o.1.session) λ done. cleanup-Releases o.1

    allocate-Bare :
        (server : Server) → Triple w (ServerBare w t₀ server) allocate (λ p. ServerBare w t₀ server)
    allocate-Bare server =
        Triple.next
          (Triple.step {Q = λ r. ServerBare w t₀ server} (call_ptr operator_new)
            λ t p. After.returned p)
          λ p.
            Triple.branch (is_null p) (λ z. Triple.crash-Triple) λ z. Triple.pure-Triple p λ t q. q

-- If errno is set by a call that fails, and main of the server of rdma-example returns 0, then its
-- run has deregistered as many memory regions as it has registered, and has freed as many buffers as
-- it has allocated.
pub server_main-Releases :
    (w : World) (fuel : ℕ) (stol : Text → Option ℕ) (empty : Text)
    (client_metadata server_metadata : Ptr) (opts : List Opt) (t : Trace) {t' : Trace}
    → ErrnoIsSet w
    → server_main fuel stol empty client_metadata server_metadata opts w t ≡ ok (pos 0) t'
    → (registered w t' + deregistered t ≡ registered w t + deregistered t')
      × (callocs w t' + freed t ≡ callocs w t + freed t')
unfolding server_main
server_main-Releases w fuel stol empty client_metadata server_metadata opts t {t'} errno_set e =
    let (regions_even, buffers_even) =
      After.apply (main-Releases (parse empty empty opts)) (pos 0) t' e refl in
    (omega (arith, regions_even), omega (arith, buffers_even))
  where
    main-Releases :
        (o : Option (Text × Text))
        → After (Releases w t) (
            (elim o as (λ o. Cmd ℤ) [
              | none ↦ pure (pos 0)
              | some (addr, port) ↦ (do
                allocate
                serve_client fuel
                    (new_server client_metadata server_metadata addr.c_str (stol port)))
            ])
              w t)
    main-Releases none = After.returned λ z. (omega arith, omega arith)
    main-Releases (some (addr, port)) =
        let server = new_server client_metadata server_metadata addr.c_str (stol port) in
        (Triple.next (allocate-Bare w t errno_set server)
            λ p. serve_client-Releases w t errno_set fuel server).run
          t (((omega arith, omega arith), refl, refl), refl)
