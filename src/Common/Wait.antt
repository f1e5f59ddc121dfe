-- ===== src/Common/Wait.antt =====
-- do_poll and create_first_event_channel of pmrdmabenchmark/src/common.c.
use Prim.Native.Nat.{bit_and}
use rdma_pmem.Prelude.{ℕ, zero, suc, if◌then◌else◌, ◌∷◌}
use rdma_pmem.Prelude.Int.{ℤ, pos, is_zero, eqb_ℤ}
use rdma_pmem.World.{
  Ptr, rs_poll, create_event_channel, errno, Cmd, ok, pure, ◌>>=◌, ◌>>◌, exhausted, call_int,
  call_ptr,
}
use rdma_pmem.Node.{is_null}

-- `POLLERR | POLLHUP`
abbrev pub error_mask : ℕ
error_mask = 24

-- `rs_poll(fds, 1, timeout)` with `fds->revents`
abbrev poll_fd : Cmd (ℤ × ℕ)
poll_fd w t = let t' = rs_poll ∷ t in ok (w.int t', w.ptr t') t'

unfoldable pub do_poll : (fuel : ℕ) → Cmd ℤ
do_poll zero = exhausted
do_poll (suc fuel) = do
  (ret, revents) ← poll_fd
  if is_zero ret
      then do_poll fuel
      else pure (if eqb_ℤ ret (pos 1) then pos (bit_and revents error_mask) else ret)

pub create_first_event_channel : Cmd Ptr
create_first_event_channel = do
  channel ← call_ptr create_event_channel
  if is_null channel then (do call_int errno; pure channel) else pure channel
