-- ===== src/Events/Quiet.antt =====
-- The handlers acknowledge no event themselves: connect_events and disconnect_events do.
use rdma_pmem.Prelude.{List, ℕ, ◌≡◌, not, Option, none, some, [], ◌∷◌, arith}
use rdma_pmem.Prelude.Int.{ℤ, pos, is_zero, eqb_ℤ}
use rdma_pmem.World.{
  Ptr, Mapping, EventType, addr_resolved, route_resolved, connect_request, established,
  disconnected, Event, ack_cm_event, Trace, World, Cmd, ◌>>=◌,
}
use rdma_pmem.World.Keeps
use rdma_pmem.World.Keeps.{Keeps}
use rdma_pmem.Node.{Config, Node}
use rdma_pmem.Setup.{deref}
use rdma_pmem.Post.{post_recv_metadata}
use rdma_pmem.Events.{
  Test, Variant, node_at, addr_handler, start_connection, route_handler, prepare_connection,
  connect_handler, dispatch, cma_handler,
}

-- the acknowledged events, the newest first
abbrev pub acked_events : Trace → List EventType
acked_events [] = []
acked_events (ack_cm_event e ∷ t) = e.event ∷ acked_events t
acked_events (x ∷ t) = acked_events t

abbrev pub IsQuiet {ℓ} : {A : Type ℓ} → World → Cmd A → Type 0
IsQuiet w m = (es : List EventType) → Keeps w (λ t. acked_events t ≡ es) m

-- the functions of a program that the handlers call
pub record QuietVariant (w : World) (v : Variant) : Type 0 where
  pub init_node :
      (c : Config) (pmem : Mapping) (count : ℤ) (node : Node)
      → IsQuiet w (v.init_node c pmem count node)
  pub post_first_recv : (node : Node) → IsQuiet w (v.post_first_recv node)

module _ {w : World} where
  pub deref-IsQuiet {ℓ} :
      {A : Type ℓ} {B : Type 0} (o : Option A) (k : A → Cmd B)
      → ((a : A) → IsQuiet w (k a))
      → IsQuiet w (deref o >>= k)
  deref-IsQuiet none k h es = Keeps.step _ (λ t p. p)
  deref-IsQuiet (some a) k h es = Keeps.step _ (λ t p. (h a es).keep t p)

  pub addr_handler-IsQuiet : (c : Config) (i : ℕ) (test : Test) → IsQuiet w (addr_handler c i test)
  unfolding addr_handler
  addr_handler-IsQuiet c i test es = Keeps.step _ (λ t p. ground arith)

  post_recv_metadata-IsQuiet : (node : Node) → IsQuiet w (post_recv_metadata node)
  unfolding post_recv_metadata
  post_recv_metadata-IsQuiet node es = Keeps.step _ (λ t p. ground arith)

module _ {w : World} (v : Variant) (quiet : QuietVariant w v) (c : Config) where
  route_handler-IsQuiet : (i : ℕ) (test : Test) → IsQuiet w (route_handler v c i test)
  unfolding route_handler start_connection
  route_handler-IsQuiet i test es =
      Keeps.bind (Keeps.step (node_at test i) (λ t p. ground arith)) λ node.
        Keeps.bind (quiet.init_node c test.pmem test.message_count node es) λ r.
          Keeps.branch (not (is_zero r.0)) (Keeps.pure-Keeps _) (
            Keeps.bind (post_recv_metadata-IsQuiet r.1 es) λ ret.
              Keeps.branch (not (is_zero ret)) (Keeps.pure-Keeps _)
                (Keeps.step _ (λ t p. ground arith)))

  prepare_connection-IsQuiet :
      (cma_id : Ptr) (i : ℕ) (node : Node) (test : Test)
      → IsQuiet w (prepare_connection v c cma_id i node test)
  unfolding prepare_connection
  prepare_connection-IsQuiet cma_id i node test es =
      Keeps.bind (quiet.init_node c test.pmem test.message_count node es) λ r.
        Keeps.branch (not (is_zero r.0)) (Keeps.step _ (λ t p. p)) (
          Keeps.bind (quiet.post_first_recv r.1 es) λ ret.
            Keeps.branch (not (is_zero ret)) (Keeps.step _ (λ t p. p))
              (Keeps.step _ (λ t p. ground arith)))

  connect_handler-IsQuiet :
      (cma_id : Ptr) (test : Test) → IsQuiet w (connect_handler v c cma_id test)
  unfolding connect_handler
  connect_handler-IsQuiet cma_id test es =
      Keeps.branch (eqb_ℤ (pos test.conn_index) c.connections) (Keeps.step _ (λ t p. p)) (
        Keeps.bind (Keeps.step (node_at test test.conn_index) (λ t p. ground arith))
          λ node. prepare_connection-IsQuiet cma_id test.conn_index _ _ es)

  dispatch-IsQuiet : (k : EventType) (e : Event) (test : Test) → IsQuiet w (dispatch v c k e test)
  unfolding dispatch
  dispatch-IsQuiet addr_resolved e test = deref-IsQuiet _ _ (λ i. addr_handler-IsQuiet c i test)
  dispatch-IsQuiet route_resolved e test = deref-IsQuiet _ _ (λ i. route_handler-IsQuiet i test)
  dispatch-IsQuiet connect_request e test = connect_handler-IsQuiet e.id test
  dispatch-IsQuiet established e test = λ es. Keeps.step _ (λ t p. ground arith)
  dispatch-IsQuiet disconnected e test = λ es. Keeps.step _ (λ t p. p)
  dispatch-IsQuiet _ e test = λ es. Keeps.step _ (λ t p. p)

  pub cma_handler-IsQuiet : (e : Event) (test : Test) → IsQuiet w (cma_handler v c e test)
  unfolding cma_handler
  cma_handler-IsQuiet e test = dispatch-IsQuiet e.event e test
