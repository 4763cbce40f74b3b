-- ===== src/Tests/Start.antt =====
-- The theorems on `main` and its options at work: two rounds, the second with the request to end.
use ops_pmd.Base.{
  ℕ, ◌≡◌, ◌≢◌, ◌≤◌, refl, true, ◌&&◌, Option, none, some, List, [], ◌∷◌, CString, codes, ◌==◌, leb,
  if◌then◌else◌, length, arith, str_eq, find, inl,
}
use ops_pmd.Daemon.{IsReachable, pm_ovsdb_if_init}
use ops_pmd.Main.{Callback, Command, Unixctl, Process, Round, returned, sleeping, main}
use ops_pmd.Main.Options.{
  OptionLibrary, LongOption, opt_unixctl, aborts, parsed, parse_loop, parse_options, remote_of,
}
use ops_pmd.Main.Switch.{verdict, parse_options-verdict}
use ops_pmd.Main.Requests.{is_exit, IsDocumented}
use ops_pmd.Main.Ends.{any_exit, asked, up_to_exit, run_rounds, main-ends}
use ops_pmd.Tests.Data.{a_platform}
use ops_pmd.Tests.Rounds.{a_store_idl, a_store}

-- Every argument that begins with a dash is a path of the control socket.
abbrev put_argument :
    CString → List (ℕ × CString) × List CString → List (ℕ × CString) × List CString
put_argument [] (os, args) = (os, [] ∷ args)
put_argument (c ∷ cs) (os, args) =
    if c == b'-' then ((opt_unixctl, cs) ∷ os, args) else (os, (c ∷ cs) ∷ args)

abbrev a_getopt_long : List LongOption → List CString → List (ℕ × CString) × List CString
a_getopt_long table [] = ([], [])
a_getopt_long table (arg ∷ argv) = put_argument arg (a_getopt_long table argv)

abbrev some_options : OptionLibrary
some_options = record {
  getopt_long = a_getopt_long;
  library_options = [];
  handle = λ c optarg. none;
  program_name = codes "ops-pmd";
  ovs_rundir = codes "/var/run";
  daemon_usage = [];
  vlog_usage = [];
}

abbrev argv : List CString
argv = codes "-first" ∷ codes "tcp:1" ∷ codes "-last" ∷ []

parsed-argv : parse_options some_options argv ≡ parsed (codes "tcp:1") (some (codes "last"))
unfolding parse_options parse_loop remote_of
parsed-argv = refl

parse_options-verdict_example :
    (parse_options some_options argv
      ≡ verdict some_options
          ((opt_unixctl, codes "first") ∷ (opt_unixctl, codes "last") ∷ [])
          (codes "tcp:1" ∷ [])
          none)
    × (parse_options some_options argv ≢ aborts)
parse_options-verdict_example = parse_options-verdict some_options argv (inl refl, (inl refl, tt))

abbrev if_within : Option Command → List CString → Option Callback
if_within none args = none
if_within (some c) args =
    if leb c.min_args (length args) && leb (length args) c.max_args then some c.callback else none

abbrev a_unixctl : Unixctl
a_unixctl = record { server_created = λ path. true; dispatch = λ cs r. if_within (find r.0 cs) r.1 }

within :
    (c : Command) (args : List CString)
    → c.min_args ≤ length args
    → length args ≤ c.max_args
    → if_within (some c) args ≡ some c.callback
within c args h k = ground arith

below :
    (o : Option Command) (args : List CString) (cb : Callback)
    → if_within o args ≡ some cb
    → (c : Command) × (o ≡ some c) × (length args ≤ c.max_args) × (c.callback ≡ cb)
below none args cb e = cc
below (some c) args cb e = (c, refl, ground arith, ground arith)

a_unixctl-IsDocumented : IsDocumented a_unixctl
a_unixctl-IsDocumented = record {
  found = λ cs name args c e h k. rw e (within c args h k);
  registered = λ cs name args cb e. below (find name cs) args cb e;
}

abbrev two_rounds : List (Round a_store_idl a_platform)
two_rounds =
    record { db = a_store; world = 0; requests = [] }
    ∷ record {
      db = a_store;
      world = 0;
      requests = (codes "ops-pmd/dump", []) ∷ (codes "exit", []) ∷ [];
    }
    ∷ record { db = a_store; world = 0; requests = [] }
    ∷ []

main-ends_example :
    (q : Process a_store_idl a_platform) × (main a_unixctl a_store_idl a_platform some_options
        (λ remote. a_store)
        0
        argv
        two_rounds
      ≡ (if asked two_rounds then returned 0 q else sleeping q))
    × (q.state
        ≡ run_rounds (up_to_exit two_rounds) (pm_ovsdb_if_init a_store_idl a_platform a_store 0))
    × IsReachable a_store_idl a_platform q.state
main-ends_example =
    main-ends a_unixctl a_unixctl-IsDocumented some_options (λ remote. a_store) 0 argv two_rounds
      (codes "tcp:1") (some (codes "last")) parsed-argv refl

asked-two_rounds : asked two_rounds ≡ true
unfolding asked any_exit is_exit str_eq
asked-two_rounds = refl
