-- ===== src/Rw/Worker.antt =====
-- The rest of rwbenchmark/src/client.cpp: class ClientWorkerThread and main, with its one thread.
use rdma_pmem.Prelude.{ℕ, if◌then◌else◌, Bool, not, Option, List, [], ◌∷◌}
use rdma_pmem.Prelude.Int.{ℤ, is_zero}
use rdma_pmem.World.{Ptr, Cmd, pure, ◌>>=◌}
use rdma_pmem.Rw.{Text, Client, new_client}
use rdma_pmem.Rw.Init
use rdma_pmem.Rw.Init.{then_client}
use rdma_pmem.Rw.Transfer.{
  set_src, alloc_dst, exchange_metadata_with_server, send_write, send_read, cmp_data,
}
use rdma_pmem.Rw.Cleanup.{cleanup}

unfoldable pub init : (fuel : ℕ) → Text → Client → Cmd (ℤ × Client)
init fuel str client = do
  (ret, client) ← set_src str client
  then_client ret client (do
    (ret, client) ← alloc_dst str client
    then_client ret client (do
      (ret, client) ← Init.init client
      then_client ret client (exchange_metadata_with_server fuel client)))

-- what the thread reports; `compared` says whether the buffers are equal
pub data Outcome : Type 0 where
  not_written not_read not_cleaned : ℤ → Outcome
  compared : Bool → Outcome

-- the thread's main, `operator()`
unfoldable pub run : (fuel : ℕ) → Client → Cmd Outcome
run fuel client = do
  ret ← send_write fuel client
  if not (is_zero ret) then pure (not_written ret) else do
    (ret, client) ← send_read fuel client
    if not (is_zero ret) then pure (not_read ret) else do
      differs ← cmp_data client
      ret ← cleanup client
      if not (is_zero ret) then pure (not_cleaned ret) else pure (compared (is_zero differs))

-- what getopt_long yields
pub data Opt : Type 0 where
  opt_a opt_p opt_d : Text → Opt
  opt_unknown : Opt

-- the three strings of main; `text` is its `data`
pub record Options : Type 0 where
  pub server_addr : Text
  pub server_port : Text
  pub text : Text

-- the loop over the options; `none` is the usage
unfoldable pub parse : Options → List Opt → Option Options
parse o [] = Option.some o
parse o (opt_a arg ∷ rest) = parse (record o { server_addr = arg }) rest
parse o (opt_p arg ∷ rest) = parse (record o { server_port = arg }) rest
parse o (opt_d arg ∷ rest) = parse (record o { text = arg }) rest
parse o (opt_unknown ∷ rest) = Option.none

-- main, with what std::stol makes of a string, and the addresses of the two members of the client
-- that the adapter reads and writes; `none` is the usage
unfoldable pub rw_main :
    (fuel : ℕ)
    → (stol : Text → Option ℕ) → (client_metadata server_metadata : Ptr) → (defaults : Options)
    → List Opt
    → Cmd (Option Outcome)
rw_main fuel stol client_metadata server_metadata defaults opts =
    elim (parse defaults opts) as (λ o. Cmd (Option Outcome)) [
      | Option.none ↦ pure Option.none
      | Option.some o ↦ (do
        (ret, client) ←
            init fuel o.text
              (new_client client_metadata server_metadata o.server_addr.c_str (stol o.server_port))
        outcome ← run fuel client
        pure (Option.some outcome))
    ]
