-- ===== src/Post/Outcomes.antt =====
-- The two outcomes of posting a request: a NULL pointer is followed, or one request is handed over.
use rdma_pmem.Prelude.{ℕ, ◌≡◌, ◌⊎◌, inl, inr, refl, ◌∷◌, Option, none, some, Bool-cases, arith}
use rdma_pmem.Prelude.Int.{ℤ}
use rdma_pmem.World.{Mr, post_recv, RecvWr, Trace, World, Run, ok, fault, ◌>>=◌}
use rdma_pmem.Setup.{deref}
use rdma_pmem.Node.{Node, is_null}
use rdma_pmem.Post.{submit_recv, post_recv_flush, post_recv_notification, post_recv_imm}

-- the receive is posted and the call's result returned, or nothing was called
abbrev pub Receives : World → Node → Trace → Run ℤ → Type 0
Receives w node t r =
    (r ≡ fault t)
    ⊎ ((wr : RecvWr) × (r
          ≡ ok (w.int (post_recv node.cma_id wr ∷ t)) (post_recv node.cma_id wr ∷ t)))

module _ (w : World) (node : Node) (t : Trace) where
  pub submit_recv-Receives : (wr : RecvWr) → Receives w node t (submit_recv node wr w t)
  submit_recv-Receives wr = elim (Bool-cases (is_null node.cma_id)) [
    | inl e ↦ inl (ground arith)
    | inr e ↦ inr (wr, ground arith)
  ]

  deref-Receives :
      (o : Option Mr) (request : Mr → RecvWr)
      → Receives w node t ((do mr ← deref o; submit_recv node (request mr)) w t)
  deref-Receives none request = inl refl
  deref-Receives (some mr) request = submit_recv-Receives (request mr)

  pub post_recv_flush-Receives : Receives w node t (post_recv_flush node w t)
  unfolding post_recv_flush
  post_recv_flush-Receives = deref-Receives node.flush_request_buff_mr _

  pub post_recv_notification-Receives :
      (offset : ℕ) → Receives w node t (post_recv_notification offset node w t)
  unfolding post_recv_notification
  post_recv_notification-Receives offset = deref-Receives node.flush_notification_buff_mr _

  pub post_recv_imm-Receives : Receives w node t (post_recv_imm node w t)
  unfolding post_recv_imm
  post_recv_imm-Receives = submit_recv-Receives _
