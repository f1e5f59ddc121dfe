-- ===== src/Programs/Pmem.antt =====
-- Which of the programs turn persistent memory on.
use rdma_pmem.Prelude.{◌≡◌, Bool, true, false, ◌&&◌, List, arith}
use rdma_pmem.World.{Ptr}
use rdma_pmem.Options.{
  Opt, pmem_cases, Libc, Parsed, Options, parsed, ws_parse, wi_parse, wr_parse, wb_parse, rb_parse,
}
use rdma_pmem.Options.Pmem.{has_pmem_option, parse_from_use_pmem}
use rdma_pmem.Programs.{Program}

-- the options of each program
abbrev pub parse : Program → Libc → (port : Ptr) → List Opt → Parsed
parse Program.wsbenchmark = ws_parse
parse Program.wibenchmark = wi_parse
parse Program.wrbenchmark = wr_parse
parse Program.wbenchmark = wb_parse
parse Program.rbenchmark = rb_parse

abbrev pub sets_use_pmem : Program → Bool
sets_use_pmem Program.wibenchmark = false
sets_use_pmem _ = true

-- In each program but wibenchmark.c a parsed command line turns persistent memory on exactly if it
-- has the option --pmem, and in wibenchmark.c no command line does.
pub parse_use_pmem :
    (p : Program) (libc : Libc) (port : Ptr) (args : List Opt) {o : Options}
    → parse p libc port args ≡ parsed o
    → o.config.use_pmem ≡ (sets_use_pmem p && has_pmem_option args)
unfolding ws_parse wi_parse wr_parse wb_parse rb_parse
parse_use_pmem Program.wsbenchmark libc port args e =
    ground (arith, parse_from_use_pmem pmem_cases libc _ args e)
parse_use_pmem Program.wibenchmark libc port args e = ground (
  arith,
  parse_from_use_pmem (record { sets_use_pmem = false; counts_messages = false }) libc _ args e,
)
parse_use_pmem Program.wrbenchmark libc port args e =
    ground (arith, parse_from_use_pmem pmem_cases libc _ args e)
parse_use_pmem Program.wbenchmark libc port args e =
    ground (arith, parse_from_use_pmem pmem_cases libc _ args e)
parse_use_pmem Program.rbenchmark libc port args e = ground (
  arith,
  parse_from_use_pmem (record { sets_use_pmem = true; counts_messages = true }) libc _ args e,
)
