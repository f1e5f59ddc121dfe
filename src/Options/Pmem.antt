-- ===== src/Options/Pmem.antt =====
-- Whether the option --pmem has an effect.
use rdma_pmem.Prelude.{◌≡◌, refl, Bool, true, false, ◌||◌, if◌then◌else◌, List, [], ◌∷◌, arith}
use rdma_pmem.World.{Ptr}
use rdma_pmem.Options.{
  Opt, opt_pmem, Cases, Libc, Options, Parsed, parsed, usage, overflow, set_option, parse_from,
  wi_parse,
}

abbrev is_pmem_option : Opt → Bool
is_pmem_option (opt_pmem arg) = true
is_pmem_option _ = false

abbrev pub has_pmem_option : List Opt → Bool
has_pmem_option [] = false
has_pmem_option (x ∷ rest) = is_pmem_option x || has_pmem_option rest

-- the flag after one option
set_option_use_pmem :
    (cases : Cases) (libc : Libc) (o : Options) (x : Opt) {o' : Options}
    → set_option cases libc o x ≡ parsed o'
    → o'.config.use_pmem
      ≡ (if cases.sets_use_pmem then is_pmem_option x || o.config.use_pmem else o.config.use_pmem)
unfolding set_option
set_option_use_pmem cases libc o x e = ground arith

-- a list that is parsed begins with an option that is
after_option :
    (p : Parsed) (k : Options → Parsed) {o : Options}
    → (elim p [ parsed m ↦ k m | usage ↦ usage | overflow ↦ overflow ]) ≡ parsed o
    → (m : Options) × (p ≡ parsed m) × (k m ≡ parsed o)
after_option (parsed m) k e = (m, refl, e)
after_option usage k e = cc
after_option overflow k e = cc

pub parse_from_use_pmem :
    (cases : Cases) (libc : Libc) (o : Options) (args : List Opt) {o' : Options}
    → parse_from cases libc o args ≡ parsed o'
    → o'.config.use_pmem ≡ (
        if cases.sets_use_pmem
        then has_pmem_option args || o.config.use_pmem
        else o.config.use_pmem)
unfolding parse_from
parse_from_use_pmem cases libc o [] e = ground arith
parse_from_use_pmem cases libc o (x ∷ rest) e =
    let (m, first, e') =
      after_option (set_option cases libc o x) (λ m. parse_from cases libc m rest) e in
    ground
      (arith, set_option_use_pmem cases libc o x first, parse_from_use_pmem cases libc m rest e')

-- In wibenchmark.c no command line turns persistent memory on.
pub wi_parse_use_pmem :
    (libc : Libc) (port : Ptr) (args : List Opt) {o : Options}
    → wi_parse libc port args ≡ parsed o
    → o.config.use_pmem ≡ false
unfolding wi_parse
wi_parse_use_pmem libc port args e = ground (
  arith,
  parse_from_use_pmem (record { sets_use_pmem = false; counts_messages = false }) libc _ args e,
)
