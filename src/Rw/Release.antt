-- ===== src/Rw/Release.antt =====
-- What Client::cleanup of rwbenchmark releases, and what it acknowledges.
use rdma_pmem.Prelude.{
  ℕ, ◌+◌, ◌≡◌, refl, ◌==◌, if◌then◌else◌, Bool, true, false, not, ◌&&◌, Option, none, some, is_some,
  [], ◌∷◌, arith,
}
use rdma_pmem.Prelude.Int.{pos, is_zero}
use rdma_pmem.World.{
  Ptr, Mr, dereg_mr, free, destroy_qp, destroy_id, destroy_cq, destroy_comp_channel, dealloc_pd,
  destroy_event_channel, disconnect, get_cm_event, disconnected, Trace, World, ok, ◌>>=◌, ◌>>◌,
  trace_of, Call, pure, crash, call,
}
use rdma_pmem.World.Keeps
use rdma_pmem.World.Keeps.{Keeps}
use rdma_pmem.Node.{is_null}
use rdma_pmem.Setup.Release.{frees}
use rdma_pmem.Rw.{Client, rdma_buffer_deregister, process_rdma_cm_event, is_event, acknowledge}
use rdma_pmem.Rw.Cleanup.{follow, release_buffers, release, await_disconnect, cleanup}
use rdma_pmem.Rw.Balance.{came, acks}

-- how many regions are deregistered
abbrev pub deregistered : Trace → ℕ
deregistered [] = 0
deregistered (dereg_mr mr ∷ t) = deregistered t + 1
deregistered (x ∷ t) = deregistered t

abbrev pub one : Bool → ℕ
one b = if b then 1 else 0

-- how many regions the client has
abbrev pub regions : Client → ℕ
regions client =
    one (is_some client.server_metadata_mr)
    + one (is_some client.client_metadata_mr)
    + one (is_some client.client_src_mr)
    + one (is_some client.client_dst_mr)

-- the trace behind rdma_buffer_deregister
abbrev without : Option Mr → Trace → Trace
without none t = t
without (some mr) t = dereg_mr (some mr) ∷ t

abbrev buffers_released : Client → Trace → Trace
buffers_released client t =
    free client.dst
    ∷ free client.src
    ∷ without client.client_dst_mr (
        without client.client_src_mr
          (without client.client_metadata_mr (without client.server_metadata_mr t)))

-- the trace behind `release`
abbrev released : Client → Trace → Trace
released client t =
    destroy_event_channel client.cm_event_channel
    ∷ dealloc_pd client.pd
    ∷ buffers_released client (
        destroy_comp_channel client.io_completion_channel
        ∷ destroy_cq client.client_cq
        ∷ destroy_id client.cm_client_id
        ∷ destroy_qp client.cm_client_id
        ∷ t)

-- all that cleanup follows is there
pub record HasHandles (client : Client) : Type 0 where
  pub cm_event_channel : is_null client.cm_event_channel ≡ false
  pub cm_client_id : is_null client.cm_client_id ≡ false
  pub client_cq : is_null client.client_cq ≡ false
  pub io_completion_channel : is_null client.io_completion_channel ≡ false
  pub pd : is_null client.pd ≡ false

release_runs :
    (client : Client) (w : World) (t : Trace)
    → HasHandles client
    → release client w t ≡ ok tt (released client t)
unfolding release release_buffers rdma_buffer_deregister
release_runs client w t has = ground (arith, has)

module _ (client : Client) (w : World) (t : Trace) where
  abbrev pub got : Trace
  got = get_cm_event client.cm_event_channel ∷ disconnect client.cm_client_id ∷ t

  -- an event comes, but it is an error or not a disconnect
  abbrev pub is_unexpected : Bool
  is_unexpected =
      is_zero (w.int got)
      && not (is_zero (w.event got).status && is_event (w.event got).event disconnected)

  abbrev left : Trace
  left = trace_of (await_disconnect client w t)

  -- what the wait for the disconnect leaves
  await_disconnect_runs :
      HasHandles client → is_unexpected ≡ false → await_disconnect client w t ≡ ok tt left
  unfolding await_disconnect process_rdma_cm_event acknowledge
  await_disconnect_runs has expected = ground (arith, has.cm_client_id, expected)

  await_disconnect_frees :
      (p : Ptr) → (frees p left ≡ frees p t) × (deregistered left ≡ deregistered t)
  unfolding await_disconnect process_rdma_cm_event acknowledge
  await_disconnect_frees p = ground arith

  await_disconnect_acks :
      is_null client.cm_client_id ≡ false
      → is_unexpected ≡ true
      → (came w left ≡ came w t + 1) × (acks left ≡ acks t + 2)
  unfolding await_disconnect process_rdma_cm_event acknowledge
  await_disconnect_acks id unexpected = ground (arith, id, unexpected)

  released-frees :
      (p : Ptr)
      → (frees p (released client t) ≡ frees p t + one (client.src == p) + one (client.dst == p))
        × (deregistered (released client t) ≡ deregistered t + regions client)
  released-frees p = ground arith

-- `release` has to do with no event
module _ (client : Client) (w : World) (a b : ℕ) where
  abbrev Counts : Trace → Type 0
  Counts t = (came w t ≡ a) × (acks t ≡ b)

  follow-Counts :
      (p : Ptr) (c : Call) → ((t : Trace) → Counts t → Counts (c ∷ t)) → Keeps w Counts (follow p c)
  follow-Counts p c h = Keeps.branch (is_null p) (Keeps.step crash λ t q. q) (Keeps.step (call c) h)

  deregister-Counts : (mr : Option Mr) → Keeps w Counts (rdma_buffer_deregister mr)
  unfolding rdma_buffer_deregister
  deregister-Counts none = Keeps.pure-Keeps tt
  deregister-Counts (some mr) = Keeps.step _ λ t p. p

  buffers-Counts : Keeps w Counts (release_buffers client)
  unfolding release_buffers
  buffers-Counts = Keeps.bind (deregister-Counts client.server_metadata_mr) λ _.
      Keeps.bind (deregister-Counts client.client_metadata_mr) λ _.
        Keeps.bind (deregister-Counts client.client_src_mr) λ _.
          Keeps.bind (deregister-Counts client.client_dst_mr) λ _.
            Keeps.bind (Keeps.step (call (free client.src)) λ t p. p)
              λ _. Keeps.step (call (free client.dst)) λ t p. p

  release-Counts : Keeps w Counts (release client)
  unfolding release
  release-Counts = Keeps.bind (follow-Counts client.cm_client_id _ λ t p. p) λ _.
      Keeps.bind (follow-Counts client.cm_client_id _ λ t p. p) λ _.
        Keeps.bind (follow-Counts client.client_cq _ λ t p. p) λ _.
          Keeps.bind (follow-Counts client.io_completion_channel _ λ t p. p) λ _.
            Keeps.bind buffers-Counts λ _.
              Keeps.bind (follow-Counts client.pd _ λ t p. p)
                λ _. follow-Counts client.cm_event_channel _ λ t p. p

-- If a client has its id, its channels, its completion queue and its protection domain, and cleanup
-- of rwbenchmark gets a disconnect without an error or no event at all, then whatever else fails it
-- returns 0, frees the two buffers of the client and nothing else, and deregisters as many regions
-- as the client has.
pub cleanup-Releases :
    (client : Client) (w : World) (t : Trace) (p : Ptr)
    → HasHandles client
    → is_unexpected client w t ≡ false
    → (t' : Trace) × (cleanup client w t ≡ ok (pos 0) t')
      × (frees p t' ≡ frees p t + one (client.src == p) + one (client.dst == p))
      × (deregistered t' ≡ deregistered t + regions client)
unfolding cleanup
cleanup-Releases client w t p has expected =
    let s = left client w t in
    let (freed, gone) = released-frees client w s p in
    let (same_freed, same_gone) = await_disconnect_frees client w t p in
    (
      released client s,
      rw (await_disconnect_runs client w t has expected, ◌>>=◌)
          (rw (release_runs client w s has, ◌>>=◌) refl),
      omega (arith, freed, same_freed),
      omega (arith, gone, same_gone),
    )

-- If the event that comes at the end is an error or not a disconnect, cleanup of rwbenchmark of a
-- client with an id acknowledges it twice, however it ends: one event came, and two acknowledgements
-- are made.
pub cleanup_acknowledges_twice :
    (client : Client) (w : World) (t : Trace)
    → is_null client.cm_client_id ≡ false
    → is_unexpected client w t ≡ true
    → (came w (trace_of (cleanup client w t)) ≡ came w t + 1)
      × (acks (trace_of (cleanup client w t)) ≡ acks t + 2)
unfolding cleanup
cleanup_acknowledges_twice client w t id unexpected =
    Keeps.bind_run (await_disconnect client w t) (λ _. do release client; pure (pos 0))
      (await_disconnect_acks client w t id unexpected)
      λ _.
        Keeps.bind (release-Counts client w (came w t + 1) (acks t + 2))
          λ _. Keeps.pure-Keeps (pos 0)
