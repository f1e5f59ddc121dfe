-- ===== src/Setup/Release.antt =====
-- What destroy_node frees, and what is what it does when the registration of a buffer failed.
use rdma_pmem.Prelude.{
  ℕ, ◌+◌, ◌≡◌, refl, ◌==◌, ◌||◌, Option, some, is_some, if◌then◌else◌, Bool, true, false, not, none,
  [], ◌∷◌, ==_refl, arith,
}
use rdma_pmem.Prelude.Int.{ℤ, is_zero}
use rdma_pmem.World.{
  Ptr, Call, calloc, reg_mr, local_write, load_qp, destroy_qp, destroy_cq, dealloc_pd, destroy_id,
  free, Trace, World, Mr, Cmd, ok, fault, trace_of, ◌>>=◌, ◌>>◌, call, dereg_mr,
}
use rdma_pmem.Node.{Config, Node, is_null, metadata_size, failure}
use rdma_pmem.Setup.{create_metadata, when, deregister, destroy_buffers, destroy_node}

abbrev frees_one : Ptr → Call → ℕ
frees_one p (free q) = if q == p then 1 else 0
frees_one p _ = 0

-- how often `p` is freed
abbrev pub frees : Ptr → Trace → ℕ
frees p [] = 0
frees p (x ∷ t) = frees_one p x + frees p t

abbrev counts : Bool → ℕ
counts b = if b then 1 else 0

-- how many of the buffers that the node owns lie at `p`; the memory of a mapped file is not one
abbrev pub owned : Config → Node → Ptr → ℕ
owned c node p =
    (if not (is_null node.mem) then (if not c.use_pmem then counts (node.mem == p) else 0) else 0)
    + (if not (is_null node.src_mem) then counts (node.src_mem == p) else 0)
    + (if not (is_null node.server_metadata) then counts (node.server_metadata == p) else 0)
    + (if not (is_null node.stats) then counts (node.stats == p) else 0)

-- the buffers for messages and metadata have their regions
abbrev pub HasRegions : Node → Type 0
HasRegions node =
    (is_null node.mem || is_some node.mr ≡ true)
    × (is_null node.src_mem || is_some node.src_mem_mr ≡ true)
    × (is_null node.server_metadata || is_some node.server_metadata_mr ≡ true)

-- a command that returns, and frees `p` so often
record Frees (w : World) (p : Ptr) (k : ℕ) (m : Cmd (Unit {0})) : Type 0 where
  run : (t : Trace) → (t' : Trace) × (m w t ≡ ok tt t') × (frees p t' ≡ frees p t + k)

module _ (w : World) (p : Ptr) where
  one : (x : Call) → Frees w p (frees_one p x) (call x)
  one x = record { run = λ t. (x ∷ t, refl, omega arith) }

  seq :
      (m n : Cmd (Unit {0})) {k l : ℕ} → Frees w p k m → Frees w p l n → Frees w p (k + l) (m >> n)
  seq m n f g = record {
    run = λ t.
        let (s, e, a) = f.run t in
        let (t', e', b) = g.run s in (t', rw (e, ◌>>=◌) e', omega (arith, a, b));
  }

  optional :
      (b : Bool) (m : Cmd (Unit {0})) {k : ℕ}
      → Frees w p k m
      → Frees w p (if b then k else 0) (when b m)
  optional true m f = f
  optional false m f = record { run = λ t. (t, refl, omega arith) }

  same : {k l : ℕ} {m : Cmd (Unit {0})} → k ≡ l → Frees w p k m → Frees w p l m
  same e f = record { run = λ t. let (t', r, a) = f.run t in (t', r, omega (arith, a)) }

  -- a call that frees nothing, before one that may free
  behind :
      (x : Call) (n : Cmd (Unit {0})) {k : ℕ}
      → frees_one p x ≡ 0
      → Frees w p k n
      → Frees w p k (call x >> n)
  behind x n e f = same (omega arith) (seq (call x) n (one x) f)

  -- a buffer, whose region is deregistered before it is freed
  region_then :
      (q : Ptr) (mr : Option Mr) (n : Cmd (Unit {0})) {k : ℕ}
      → is_null q || is_some mr ≡ true
      → Frees w p k n
      → Frees w p (if not (is_null q) then k else 0) (when (not (is_null q)) (do deregister mr; n))
  region_then q (some mr) n h f =
      optional (not (is_null q)) _ (behind (dereg_mr (some mr)) n refl f)
  region_then q none n h f =
      let null : is_null q ≡ true = ground (arith, h) in
      record { run = λ t. rw null (t, refl, omega arith) }

  -- the last part of destroy_node
  module _ (c : Config) (node : Node) (regions : HasRegions node) where
    destroy_buffers-Frees : Frees w p (owned c node p) (destroy_buffers c node)
    unfolding destroy_buffers
    destroy_buffers-Frees = same (omega arith) (
        seq _ _
          (region_then node.mem node.mr _ regions.0
            (optional (not c.use_pmem) (call (free node.mem)) (one (free node.mem))))
          (seq _ _ (region_then node.src_mem node.src_mem_mr _ regions.1 (one (free node.src_mem)))
            (seq _ _
              (region_then node.server_metadata node.server_metadata_mr _ regions.2
                (one (free node.server_metadata)))
              (optional (not (is_null node.stats)) _ (one (free node.stats))))))

    none_then :
        (b : Bool) (x : Call) {n : Cmd (Unit {0})} {k : ℕ}
        → frees_one p x ≡ 0
        → Frees w p k n
        → Frees w p k (when b (call x) >> n)
    none_then true x e f = behind x _ e f
    none_then false x e f = record { run = λ t. f.run t }

    -- destroy_node behind its read of `node->cma_id->qp`
    rest-Frees :
        (b : Bool)
        → Frees w p (owned c node p) (
            when b (call (destroy_qp node.cma_id))
            >> (when (not (is_null node.send_cq)) (call (destroy_cq node.send_cq))
                >> (when (not (is_null node.recv_cq)) (call (destroy_cq node.recv_cq))
                    >> (destroy_buffers c node
                        >> (when (not (is_null node.pd)) (call (dealloc_pd node.pd))
                            >> call (destroy_id node.cma_id))))))
    rest-Frees b = none_then b _ refl (
        none_then (not (is_null node.send_cq)) _ refl (
          none_then (not (is_null node.recv_cq)) _ refl (
            same (omega arith) (
              seq _ _ destroy_buffers-Frees
                (none_then (not (is_null node.pd)) _ refl (one (destroy_id node.cma_id)))))))

-- destroy_node of a node with an id, each of whose buffers for messages and metadata has its region,
-- returns, and frees an address as often as one of the node's four buffers lies there: the buffer
-- for remote operations unless it is mapped, the source buffer, the metadata and the statistics. It
-- frees nothing else, so neither of the flush buffers.
pub destroy_node-frees :
    (c : Config) (node : Node) (w : World) (t : Trace) (p : Ptr)
    → is_null node.cma_id ≡ false
    → HasRegions node
    → (t' : Trace) × (destroy_node c node w t ≡ ok tt t')
      × (frees p t' ≡ frees p t + owned c node p)
unfolding destroy_node
destroy_node-frees c node w t p h regions =
    let at = load_qp node.cma_id ∷ t in
    let (t', e, count) = (rest-Frees w p c node regions (not (is_null (w.ptr at)))).run at in
    rw h (t', e, omega (arith, count))

-- If the registration of the metadata buffer of a node that has an id and no buffers for messages
-- fails, then create_metadata reports it and has freed the buffer, but destroy_node of the node that
-- it leaves faults, as it deregisters the region of that buffer, which is NULL.
pub create_metadata_not_destroyed :
    (c : Config) (node : Node) (w : World) (t : Trace)
    → let buffer_at = calloc metadata_size ∷ t in
      is_null node.cma_id ≡ false
      → is_null node.mem ≡ true
      → is_null node.src_mem ≡ true
      → is_null (w.ptr buffer_at) ≡ false
      → w.mr (reg_mr node.pd (w.ptr buffer_at) metadata_size local_write ∷ buffer_at) ≡ none
      → (r : ℤ × Node) × (t' : Trace) × (t'' : Trace) × (create_metadata node w t ≡ ok r t')
        × (is_zero r.0 ≡ false)
        × (frees (w.ptr buffer_at) t' ≡ frees (w.ptr buffer_at) t + 1)
        × (destroy_node c r.1 w t' ≡ fault t'')
unfolding create_metadata destroy_node destroy_buffers
create_metadata_not_destroyed c node w t id mem src buffer failed =
    let buffer_at = calloc metadata_size ∷ t in
    let p = w.ptr buffer_at in
    let reg_at = reg_mr node.pd p metadata_size local_write ∷ buffer_at in
    let node' = record node { server_metadata = p; server_metadata_mr = none } in
    (
      (failure, node'),
      free p ∷ reg_at,
      trace_of (destroy_node c node' w (free p ∷ reg_at)),
      ground (arith, buffer, failed),
      refl,
      ground (arith, ==_refl p),
      ground (arith, id, mem, src, buffer),
    )
