-- ===== src/Rw/Steps.antt =====
-- The steps by which the functions of rwbenchmark that set a connection up go on or return.
use rdma_pmem.Prelude.{◌≡◌, true, false, arith}
use rdma_pmem.Prelude.Int.{ℤ, is_zero}
use rdma_pmem.World.{Ptr, Trace, World, Cmd, pure, ◌>>=◌}
use rdma_pmem.World.After
use rdma_pmem.World.After.{After}
use rdma_pmem.Node.{is_null}
use rdma_pmem.Ws.Resources.{ErrnoIsSet}
use rdma_pmem.Rw.{minus_errno}
use rdma_pmem.Rw.Init.{then_client, checked, allocated}

-- a result of 0 comes with such an object
abbrev pub Succeeds : {S : Type 0} → (S → Type 0) → ℤ × S → Trace → Type 0
Succeeds P r t = is_zero r.0 ≡ true → P r.1

module _ (w : World) (errno_set : ErrnoIsSet w) {S : Type 0} (P : S → Type 0) where
  errno-Succeeds :
      (state : S) (t : Trace) → After (Succeeds P) ((do code ← minus_errno; pure (code, state)) w t)
  errno-Succeeds state t = After.returned λ z. ground (arith, errno_set t, z)

  -- the rest succeeds where the call did
  pub made-Succeeds :
      (ret : ℤ) (state : S) (rest : Cmd (ℤ × S)) (t : Trace)
      → (is_zero ret ≡ true → After (Succeeds P) (rest w t))
      → After (Succeeds P) (checked ret state rest w t)
  made-Succeeds ret state rest t h =
      After.test w (is_zero ret) rest (do code ← minus_errno; pure (code, state)) t h
        λ z. errno-Succeeds state t

  pub checked-Succeeds :
      (ret : ℤ) (state : S) (rest : Cmd (ℤ × S)) (t : Trace)
      → After (Succeeds P) (rest w t)
      → After (Succeeds P) (checked ret state rest w t)
  checked-Succeeds ret state rest t h = made-Succeeds ret state rest t λ z. h

  pub allocated-Succeeds :
      (p : Ptr) (state : S) (rest : Cmd (ℤ × S)) (t : Trace)
      → (is_null p ≡ false → After (Succeeds P) (rest w t))
      → After (Succeeds P) (allocated p state rest w t)
  allocated-Succeeds p state rest t h =
      After.test w (is_null p) (do code ← minus_errno; pure (code, state)) rest t
        (λ z. errno-Succeeds state t) h

  pub then_client-Succeeds :
      (ret : ℤ) (state : S) (rest : Cmd (ℤ × S)) (t : Trace)
      → After (Succeeds P) (rest w t)
      → After (Succeeds P) (then_client ret state rest w t)
  then_client-Succeeds ret state rest t h =
      After.test w (is_zero ret) rest (pure (ret, state)) t (λ z. h) λ z. After.returned λ y. cc
