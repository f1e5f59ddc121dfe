-- ===== src/Common/Buf.antt =====
-- format_buf and verify_buf of pmrdmabenchmark/src/common.c. A buffer is its bytes from `buf` on;
-- an access past its end is `none`. The static variables are arguments and results.
pub mod RoundTrip
use rdma_pmem.Prelude.{
  ℕ, zero, suc, ◌+◌, ◌%◌, ◌==◌, if◌then◌else◌, Option, none, some, List, [], ◌∷◌,
}
use rdma_pmem.Prelude.Int.{ℤ, pos, pos_part}
use rdma_pmem.Node.{failure}
use mathlib.Core.Option

-- `data++` on uint8_t
abbrev pub next_byte : ℕ → ℕ
next_byte b = (b + 1) % 256

-- the loop of format_buf: the static `data` and the bytes after it
format_bytes : (b rounds : ℕ) → List ℕ → Option (ℕ × List ℕ)
format_bytes b zero bytes = some (b, bytes)
format_bytes b (suc k) [] = none
format_bytes b (suc k) (x ∷ rest) =
    Option.map (λ r. (r.0, b ∷ r.1)) (format_bytes (next_byte b) k rest)

unfoldable pub format_buf : ℕ → ℤ → List ℕ → Option (ℕ × List ℕ)
unfolding format_bytes
format_buf b size bytes = format_bytes b (pos_part size) bytes

-- the static variables of verify_buf
pub record Verifier : Type 0 where
  pub expected : ℕ
  pub total_bytes : ℕ

-- the loop of verify_buf; a byte that differs has moved `data` on, and not `total_bytes`
verify_bytes : Verifier → (rounds : ℕ) → List ℕ → Option (ℤ × Verifier)
verify_bytes s zero bytes = some (pos 0, s)
verify_bytes s (suc k) [] = none
verify_bytes s (suc k) (x ∷ rest) =
    let next = next_byte s.expected in
    let on = verify_bytes (record { expected = next; total_bytes = s.total_bytes + 1 }) k rest in
    if x == s.expected then on else some (failure, record s { expected = next })

unfoldable pub verify_buf : Verifier → ℤ → List ℕ → Option (ℤ × Verifier)
unfolding verify_bytes
verify_buf s size bytes = verify_bytes s (pos_part size) bytes
