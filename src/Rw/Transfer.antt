-- ===== src/Rw/Transfer.antt =====
-- The buffers and the requests of Client in rwbenchmark/src/client.cpp: set_src, alloc_dst,
-- exchange_metadata_with_server, send_write, send_read and cmp_data.
use rdma_pmem.Prelude.{ℕ, ◌+◌, if◌then◌else◌, not, none, some, ◌∷◌, u32}
use rdma_pmem.Prelude.Int.{ℤ, pos, eqb_ℤ}
use rdma_pmem.World.{
  Ptr, Mr, BufferAttr, local_write, local_remote_write, Opcode, wr_send, wr_rdma_write,
  wr_rdma_read, calloc, free, strncpy, strlen, strcmp, load_metadata, store_metadata, post_send_sge,
  Cmd, ok, pure, ◌>>=◌, ◌>>◌, crash, call, call_int, call_ptr, call_size,
}
use rdma_pmem.Node.{is_null, failure, enomem, metadata_size}
use rdma_pmem.Setup.{deref}
use rdma_pmem.Rw.{
  Text, Client, sge_of, or_errno, rdma_buffer_register, process_work_completion_events,
}

-- a buffer for `str` and its last zero
unfoldable pub set_src : Text → Client → Cmd (ℤ × Client)
set_src str client = do
  src ← call_ptr (calloc (str.size + 1))
  let client = record client { src = src }
  if is_null src
      then (do call (free src); pure (enomem, client))
      else do call (strncpy src str.c_str (str.size + 1)); pure (pos 0, client)

unfoldable pub alloc_dst : Text → Client → Cmd (ℤ × Client)
alloc_dst str client = do
  dst ← call_ptr (calloc (str.size + 1))
  let client = record client { dst = dst }
  if is_null dst then (do call (free dst); pure (enomem, client)) else pure (pos 0, client)

abbrev pub string_length : Ptr → Cmd ℕ
string_length p = if is_null p then crash else call_size (strlen p)

abbrev pub load_attr : Ptr → Cmd BufferAttr
load_attr p w t = let t' = load_metadata p ∷ t in ok (w.attr t') t'

-- the wait for `n` completions of a request that was posted
unfoldable pub complete : (fuel : ℕ) → Client → (n : ℕ) → Cmd ℤ
complete fuel client n = do
  ret ← process_work_completion_events fuel client.io_completion_channel n
  if eqb_ℤ ret (pos n) then pure (pos 0) else pure ret

-- the metadata of the client, whose region is registered, for those of the server
unfoldable pub swap_metadata : (fuel : ℕ) → Mr → Client → Cmd (ℤ × Client)
swap_metadata fuel mr client = do
  ret ← call_int (post_send_sge client.client_qp wr_send (sge_of mr) none)
  or_errno ret (λ code. (code, client))
      (do
        ret ← process_work_completion_events fuel client.io_completion_channel 2
        if not (eqb_ℤ ret (pos 2))
            then pure (ret, client)
            else do call (load_metadata client.server_metadata); pure (pos 0, client))

-- the region of the source buffer, as the metadata say
abbrev pub described : Mr → BufferAttr
described mr = record { address = mr.addr; length = u32 mr.length; key = mr.lkey }

-- from "we prepare metadata for the first buffer" on
unfoldable pub send_metadata : (fuel : ℕ) → Mr → Client → Cmd (ℤ × Client)
send_metadata fuel src_mr client = do
  call (store_metadata client.client_metadata (described src_mr))
  mr ← rdma_buffer_register client.pd client.client_metadata metadata_size local_write
  let client = record client { client_metadata_mr = mr }
  elim mr as (λ mr. Cmd (ℤ × Client)) [
    | none ↦ pure (failure, client)
    | some mr ↦ swap_metadata fuel mr client
  ]

unfoldable pub exchange_metadata_with_server : (fuel : ℕ) → Client → Cmd (ℤ × Client)
exchange_metadata_with_server fuel client = do
  length ← string_length client.src
  mr ← rdma_buffer_register client.pd client.src length local_remote_write
  let client = record client { client_src_mr = mr }
  elim mr as (λ mr. Cmd (ℤ × Client)) [
    | none ↦ pure (failure, client)
    | some mr ↦ send_metadata fuel mr client
  ]

-- a request on the server's buffer, and its completion
unfoldable pub transfer : (fuel : ℕ) → Opcode → Mr → Client → Cmd ℤ
transfer fuel opcode mr client = do
  attr ← load_attr client.server_metadata
  ret ← call_int (post_send_sge client.client_qp opcode (sge_of mr) (some attr))
  or_errno ret (λ code. code) (complete fuel client 1)

unfoldable pub send_write : (fuel : ℕ) → Client → Cmd ℤ
send_write fuel client = do mr ← deref client.client_src_mr; transfer fuel wr_rdma_write mr client

unfoldable pub send_read : (fuel : ℕ) → Client → Cmd (ℤ × Client)
send_read fuel client = do
  string_length client.src
  length ← string_length client.src
  mr ← rdma_buffer_register client.pd client.dst length local_remote_write
  let client = record client { client_dst_mr = mr }
  elim mr as (λ mr. Cmd (ℤ × Client)) [
    | none ↦ pure (enomem, client)
    | some mr ↦ (do ret ← transfer fuel wr_rdma_read mr client; pure (ret, client))
  ]

unfoldable pub cmp_data : Client → Cmd ℤ
cmp_data client =
    if is_null client.src
    then crash
    else if is_null client.dst
    then crash
    else call_int (strcmp client.src client.dst)
