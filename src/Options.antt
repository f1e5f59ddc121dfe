-- ===== src/Options.antt =====
-- The options of the programs: the `while` loop over `getopt_long` in main of
-- pmrdmabenchmark/src/wsbenchmark.c and of the four programs beside it. What `getopt_long` returns is a list of
-- options, and the C library's conversions are a parameter.
pub mod Pmem
use Prim.Native.String.{String}
use rdma_pmem.Prelude.{ℕ, ◌%◌, leb, if◌then◌else◌, Bool, true, false, List, [], ◌∷◌}
use rdma_pmem.Prelude.Int.{ℤ, pos, is_zero, to_unsigned}
use rdma_pmem.World.{Ptr, Timespec, ps_tcp, ps_ib, Hints}
use rdma_pmem.Node.{Config}

-- `case` by `case`; `opt_v` is 'v', `opt_pmem` is 0, and `opt_unknown` is the default case
pub data Opt : Type 0 where
  opt_s opt_b opt_f opt_p_upper opt_c opt_c_upper opt_s_upper opt_t opt_p opt_a opt_pmem : Ptr → Opt
  opt_v opt_unknown : Opt

pub record Libc : Type 0 where
  pub atoi : Ptr → ℤ
  pub strtoul : Ptr → ℕ
  pub strncasecmp : String → Ptr → ℕ → ℤ
  pub strlen : Ptr → ℕ

-- the globals that the options set
pub record Options : Type 0 where
  pub config : Config
  pub src_addr : Ptr
  pub dst_addr : Ptr
  pub port : Ptr
  pub hints : Hints
  pub set_timeout : Bool
  pub timeout : ℕ
  pub sleep_time : Timespec
  pub prepare_time : Timespec
  pub pmem_file_path : Ptr

-- the initialisers of the globals, and the statements of main before the loop; `no_ack` is the
-- macro, and `port` the literal "7471"
pub default_options : (no_ack : Bool) (port : Ptr) → Options
default_options no_ack port = record {
  config = record {
    no_ack = no_ack;
    connections = pos 1;
    message_size = 100;
    use_pmem = false;
    debug_log = true;
    csv_output = false;
    set_tos = false;
    message_count = pos 1;
  };
  src_addr = 0;
  dst_addr = 0;
  port = port;
  hints = record {
    passive = false;
    numeric_host = false;
    family = false;
    family_ib = false;
    port_space = ps_tcp;
    source = record { addr = 0; len = 0 };
  };
  set_timeout = false;
  timeout = 0;
  sleep_time = record { tv_sec = pos 1; tv_nsec = 0 };
  prepare_time = record { tv_sec = pos 1; tv_nsec = 0 };
  pmem_file_path = 0;
}

-- `usage`: the program prints its usage and exits with 1; `overflow`: `strcpy` writes past the
-- 128 bytes of `pmem_file_path`
pub data Parsed : Type 0 where
  parsed : Options → Parsed
  usage overflow : Parsed

-- case 'f'
set_format : Libc → Ptr → Hints → Hints
set_format libc arg hints =
    if is_zero (libc.strncasecmp "ip" arg 2)
    then record hints { passive = false; numeric_host = true; family = false }
    else if is_zero (libc.strncasecmp "gid" arg 3)
    then record hints { passive = false; numeric_host = true; family = true; family_ib = true }
    else hints

-- case 'P'
set_port_space : Libc → Ptr → Hints → Hints
set_port_space libc arg hints =
    if is_zero (libc.strncasecmp "ib" arg 2) then record hints { port_space = ps_ib } else hints

abbrev set_config : Options → Config → Parsed
set_config o c = parsed (record o { config = c })

-- where the programs differ: whether case 0 also sets `use_pmem`, and whether there is a case 'C'
pub record Cases : Type 0 where
  pub sets_use_pmem : Bool
  pub counts_messages : Bool

-- the `switch`
set_option : Cases → Libc → Options → Opt → Parsed
unfolding set_format set_port_space
set_option cases libc o (opt_s arg) = parsed (record o { dst_addr = arg })
set_option cases libc o (opt_b arg) = parsed (record o { src_addr = arg })
set_option cases libc o (opt_f arg) =
    let hints = set_format libc arg o.hints in parsed (record o { hints = hints })
set_option cases libc o (opt_p_upper arg) =
    let hints = set_port_space libc arg o.hints in parsed (record o { hints = hints })
set_option cases libc o (opt_c arg) =
    let c = o.config in set_config o (record c { connections = libc.atoi arg })
set_option cases libc o (opt_c_upper arg) =
    let c = o.config in
    if cases.counts_messages
    then set_config o (record c { message_count = libc.atoi arg })
    else usage
set_option cases libc o (opt_s_upper arg) =
    let c = o.config in set_config o (record c { message_size = to_unsigned (libc.atoi arg) })
set_option cases libc o (opt_t arg) =
    parsed (record o { sleep_time = record { tv_sec = libc.atoi arg; tv_nsec = 0 } })
set_option cases libc o (opt_p arg) = parsed (record o { port = arg })
set_option cases libc o (opt_a arg) =
    parsed (record o { set_timeout = true; timeout = libc.strtoul arg % 256 })
set_option cases libc o opt_v =
    let c = o.config in set_config o (record c { csv_output = true; debug_log = false })
set_option cases libc o (opt_pmem arg) =
    let c = o.config in
    let path = record o { pmem_file_path = arg } in
    if leb 128 (libc.strlen arg)
    then overflow
    else if cases.sets_use_pmem
    then set_config path (record c { use_pmem = true })
    else parsed path
set_option cases libc o opt_unknown = usage

pub parse_from : Cases → Libc → Options → List Opt → Parsed
unfolding set_option
parse_from cases libc o [] = parsed o
parse_from cases libc o (x ∷ rest) = elim (set_option cases libc o x) [
  | parsed o' ↦ parse_from cases libc o' rest
  | usage ↦ usage
  | overflow ↦ overflow
]

-- wsbenchmark.c, with NO_ACK 1
abbrev pub pmem_cases : Cases
pmem_cases = record { sets_use_pmem = true; counts_messages = false }

unfoldable pub ws_parse : Libc → (port : Ptr) → List Opt → Parsed
unfolding parse_from default_options
ws_parse libc port = parse_from pmem_cases libc (default_options true port)

-- wibenchmark.c, with NO_ACK 0
unfoldable pub wi_parse : Libc → (port : Ptr) → List Opt → Parsed
unfolding parse_from default_options
wi_parse libc port =
    parse_from (record { sets_use_pmem = false; counts_messages = false }) libc
      (default_options false port)

-- wrbenchmark.c, with NO_ACK 1
unfoldable pub wr_parse : Libc → (port : Ptr) → List Opt → Parsed
unfolding parse_from default_options
wr_parse libc port = parse_from pmem_cases libc (default_options true port)

-- wbenchmark.c, which does what the others do with NO_ACK 0
unfoldable pub wb_parse : Libc → (port : Ptr) → List Opt → Parsed
unfolding parse_from default_options
wb_parse libc port = parse_from pmem_cases libc (default_options false port)

-- rbenchmark.c, which does what the others do with NO_ACK 0
unfoldable pub rb_parse : Libc → (port : Ptr) → List Opt → Parsed
unfolding parse_from default_options
rb_parse libc port =
    parse_from (record { sets_use_pmem = true; counts_messages = true }) libc
      (default_options false port)
