-- ===== src/Main/Options.antt =====
-- src/pmd.c: `parse_options`, `usage` and `pmd_print_version`. `getopt_long` and the macros of
-- libovscommon for the options of logging and daemons are the record `OptionLibrary`; 1 is EXIT_FAILURE.
use ops_pmd.Base.{
  ℕ, Bool, true, false, ◌||◌, Option, none, some, List, [], ◌∷◌, ◌++◌, CString, codes, ◌==◌,
  if◌then◌else◌,
}

-- `struct option`: its flag is NULL throughout.
pub record LongOption : Type 0 where
  pub name : CString
  pub required_argument : Bool
  pub val : ℕ

pub record OptionLibrary : Type 0 where
  -- The values that the calls return before -1, each with `optarg`, and the arguments from `optind` on.
  pub getopt_long : List LongOption → List CString → List (ℕ × CString) × List CString
  -- DAEMON_LONG_OPTIONS and VLOG_LONG_OPTIONS
  pub library_options : List LongOption
  -- VLOG_OPTION_HANDLERS and DAEMON_OPTION_HANDLERS: an exit code, if the handler ends the process.
  pub handle : ℕ → CString → Option ℕ
  pub program_name : CString
  pub ovs_rundir : CString
  pub daemon_usage : CString
  pub vlog_usage : CString

-- UCHAR_MAX + 1
abbrev pub opt_unixctl : ℕ
opt_unixctl = 256

abbrev pub long_options : OptionLibrary → List LongOption
long_options O =
    record { name = codes "help"; required_argument = false; val = b'h' }
    ∷ record { name = codes "version"; required_argument = false; val = b'V' }
    ∷ record { name = codes "unixctl"; required_argument = true; val = opt_unixctl }
    ∷ O.library_options

abbrev pub has_val : List LongOption → ℕ → Bool
has_val [] c = false
has_val (o ∷ os) c = (o.val == c) || has_val os c

abbrev pub end_of_line : CString
end_of_line = 10 ∷ []

abbrev pub program_version : CString
program_version = codes "0.02"

-- What `pmd_print_version` and `usage` write.
unfoldable pub pmd_print_version : OptionLibrary → CString
pmd_print_version O = O.program_name ++ (codes " version " ++ (program_version ++ end_of_line))

unfoldable pub default_remote : OptionLibrary → CString
default_remote O = codes "unix:" ++ (O.ovs_rundir ++ codes "/db.sock")

-- A text from its parts.
abbrev concat : List CString → CString
concat [] = []
concat (part ∷ parts) = part ++ concat parts

unfoldable pub usage : OptionLibrary → CString
unfolding default_remote
usage O = concat (
    O.program_name
    ∷ codes ": OpenSwitch pluggable module daemon (pmd)"
    ∷ end_of_line
    ∷ codes "usage: "
    ∷ O.program_name
    ∷ codes " [OPTIONS] [DATABASE]"
    ∷ end_of_line
    ∷ codes "where DATABASE is a socket on which ovsdb-server is listening"
    ∷ end_of_line
    ∷ codes "      (default: "
    ∷ (b'"' ∷ [])
    ∷ default_remote O
    ∷ (b'"' ∷ [])
    ∷ codes ")."
    ∷ end_of_line
    ∷ O.daemon_usage
    ∷ O.vlog_usage
    ∷ end_of_line
    ∷ codes "Other options:"
    ∷ end_of_line
    ∷ codes "  --unixctl=SOCKET        override default control socket name"
    ∷ end_of_line
    ∷ codes "  -h, --help              display this help message"
    ∷ end_of_line
    ∷ codes "  -V, --version           display version information"
    ∷ end_of_line
    ∷ [])

-- The process ends with a code, having written a text; or `abort`; or the remote of the database and
-- the path of the control socket, NULL if none was given.
pub data Parsed : Type 0 where
  exits : ℕ → CString → Parsed
  aborts : Parsed
  parsed : CString → Option CString → Parsed

module _ (O : OptionLibrary) where
  -- Behind the loop: the arguments that are no options.
  unfoldable pub remote_of : List CString → Option CString → Parsed
  remote_of [] path = parsed (default_remote O) path
  remote_of (arg ∷ []) path = parsed arg path
  remote_of (arg ∷ other ∷ args) path = exits 1 []

  -- The loop over the results of `getopt_long`, with its `switch`.
  unfoldable pub parse_loop : List (ℕ × CString) → List CString → Option CString → Parsed
  parse_loop [] args path = remote_of args path
  parse_loop ((c, optarg) ∷ os) args path =
      let set_path = parse_loop os args (some optarg) in
      let next = parse_loop os args path in
      if c == b'h'
      then exits 0 (usage O)
      else if c == b'V'
      then exits 0 (pmd_print_version O)
      else if c == opt_unixctl
      then set_path
      else if has_val O.library_options c
      then elim (O.handle c optarg) [ some code ↦ exits code [] | none ↦ next ]
      else if c == b'?'
      then exits 1 []
      else aborts

  unfoldable pub parse_options : List CString → Parsed
  parse_options argv =
      let (os, args) = O.getopt_long (long_options O) argv in parse_loop os args none
