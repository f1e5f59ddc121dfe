-- ===== src/Common/Buf/RoundTrip.antt =====
-- A buffer that format_buf fills passes verify_buf.
use mathlib.Core.Path.{subst}
use rdma_pmem.Prelude.{
  Bool-cases, inl, inr, ==→eq, ◌==◌, if◌then◌else◌, ℕ, zero, suc, ◌+◌, ◌≤◌, ◌<◌, ◌≡◌, ◌≢◌, refl,
  Option, none, some, List, [], ◌∷◌, length, arith,
}
use mathlib.Core.Option
use rdma_pmem.Prelude.Int.{ℤ, pos, negsuc, pos_part}
use rdma_pmem.Node.{failure}
use rdma_pmem.Common.Buf.{next_byte, format_bytes, format_buf, Verifier, verify_bytes, verify_buf}

format_verify_bytes :
    (b n k : ℕ) (bytes : List ℕ)
    → k ≤ length bytes
    → (r : ℕ × List ℕ) × (format_bytes b k bytes ≡ some r)
      × (verify_bytes (record { expected = b; total_bytes = n }) k r.1
          ≡ some (pos 0, record { expected = r.0; total_bytes = n + k }))
unfolding format_bytes verify_bytes
format_verify_bytes b n zero bytes h = ((b, bytes), refl, ground arith)
format_verify_bytes b n (suc k) [] h = absurd (omega arith)
format_verify_bytes b n (suc k) (x ∷ rest) h =
    let (r, e, f) = format_verify_bytes (next_byte b) (n + 1) k rest (omega arith) in
    ((r.0, b ∷ r.1), rw e, ground arith)

-- a verifier whose counter stands where that of format_buf stood
accepts :
    (b n : ℕ) (size : ℤ) (bytes : List ℕ)
    → pos_part size ≤ length bytes
    → (r : ℕ × List ℕ) × (format_buf b size bytes ≡ some r)
      × (verify_buf (record { expected = b; total_bytes = n }) size r.1
          ≡ some (pos 0, record { expected = r.0; total_bytes = n + pos_part size }))
unfolding format_buf verify_buf
accepts b n size bytes h = format_verify_bytes b n (pos_part size) bytes h

format_bytes_head :
    (b k : ℕ) (x : ℕ) (rest : List ℕ) {r : ℕ × List ℕ}
    → format_bytes b (suc k) (x ∷ rest) ≡ some r
    → (tail : List ℕ) × (r.1 ≡ b ∷ tail)
unfolding format_bytes
format_bytes_head b k x rest {r} e = go (format_bytes (next_byte b) k rest) e
  where
    go :
        (o : Option (ℕ × List ℕ))
        → Option.map (λ r. (r.0, b ∷ r.1)) o ≡ some r
        → (tail : List ℕ) × (r.1 ≡ b ∷ tail)
    go none h = cc
    go (some q) h = (q.1, ground arith)

-- a verifier whose counter stands elsewhere
rejects :
    (b : ℕ) (s : Verifier) (size : ℤ) (bytes : List ℕ) {r : ℕ × List ℕ}
    → 0 < pos_part size
    → b ≢ s.expected
    → format_buf b size bytes ≡ some r
    → verify_buf s size r.1 ≡ some (failure, record s { expected = next_byte s.expected })
unfolding format_buf verify_buf
rejects b s (pos (suc k)) [] h d e = unfold format_bytes in cc
rejects b s (pos (suc k)) (x ∷ rest) h d e =
    let tail = format_bytes_head b k x rest e in rw tail.1 (unfold verify_bytes in ground arith)
rejects b s (pos zero) bytes h d e = absurd (omega arith)
rejects b s (negsuc k) bytes h d e = absurd (omega arith)

-- what verify_buf answers of a buffer that format_buf has filled from `b`, with the counter at `next`
abbrev pub verdict : (b next : ℕ) → (size : ℤ) → Verifier → ℤ × Verifier
verdict b next size s =
    if b == s.expected
    then (pos 0, record { expected = next; total_bytes = s.total_bytes + pos_part size })
    else (failure, record s { expected = next_byte s.expected })

-- format_buf fills a buffer that is long enough, and of at least one byte that it wrote verify_buf
-- accepts all exactly if the two counters agree: they agree again then, and the total grows by the
-- bytes; else the total stays.
pub format_buf-verify_buf :
    (b : ℕ) (s : Verifier) (size : ℤ) (bytes : List ℕ)
    → 0 < pos_part size
    → pos_part size ≤ length bytes
    → (r : ℕ × List ℕ) × (format_buf b size bytes ≡ some r)
      × (verify_buf s size r.1 ≡ some (verdict b r.0 size s))
format_buf-verify_buf b s size bytes h long =
    let (r, wrote, same) = accepts b s.total_bytes size bytes long in
    elim (Bool-cases (b == s.expected)) [
      | inl agree ↦ (
        r,
        wrote,
        rw agree (
            subst
              (λ n.
                verify_buf (record s { expected = n }) size r.1
                ≡ some
                    (pos 0, record { expected = r.0; total_bytes = s.total_bytes + pos_part size }))
              (==→eq b s.expected agree) same),
      )
      | inr differ ↦
          (r, wrote, rw differ (rejects b s size bytes h (λ e. ground (arith, e, differ)) wrote))
    ]
