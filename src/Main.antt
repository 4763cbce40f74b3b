-- ===== src/Main.antt =====
-- src/pmd.c: the commands of the daemon and `main`, from its arguments to its return, for the build
-- with hardware. The control socket of libovscommon is the record `Unixctl`: whether it can be opened,
-- and which of the registered functions a request calls. `proctitle_init`, `daemonize_start`,
-- `fatal_ignore_sigpipe` and the blocking of `poll_block` act on nothing that is modelled: a run is
-- given by what the daemon finds in each round.
pub mod Options
pub mod Switch
pub mod Requests
pub mod Ends
use ops_pmd.Base.{
  ℕ, Bool, true, false, Option, none, some, List, [], ◌∷◌, ◌++◌, CString, codes, add, if◌then◌else◌,
}
use ops_pmd.Platform.{Platform}
use ops_pmd.Db.{Idl}
use ops_pmd.Dump.{pmd_unixctl_dump}
use ops_pmd.Daemon.{State, pm_ovsdb_if_init, pmd_run}
use ops_pmd.Main.Options.{OptionLibrary, Parsed, exits, aborts, parsed, parse_options}

-- `ops_pmd_exit` and `pmd_unixctl_dump`
pub data Callback : Type 0 where
  exit dump : Callback

-- What `unixctl_command_register` is told besides the name.
pub record Command : Type 0 where
  pub min_args : ℕ
  pub max_args : ℕ
  pub callback : Callback

-- A request is a command's name and its arguments.
abbrev pub Request : Type 0
Request = CString × List CString

pub record Unixctl : Type 0 where
  -- `unixctl_server_create(path)` returns 0.
  pub server_created : Option CString → Bool
  -- The function that a request calls, if it is one of the registered commands.
  pub dispatch : List (CString × Command) → Request → Option Callback

-- The commands that `pmd_init` registers.
unfoldable pub pmd_init_commands : List (CString × Command) → List (CString × Command)
pmd_init_commands =
    add (codes "ops-pmd/dump") (record { min_args = 0; max_args = 2; callback = dump })

-- All that `main` registers.
unfoldable pub commands : List (CString × Command)
unfolding pmd_init_commands
commands =
    pmd_init_commands
      (add (codes "exit") (record { min_args = 0; max_args = 0; callback = exit }) [])

-- The variables of `main`, and the replies sent so far; a reply with NULL has no text.
pub record Process (I : Idl) (P : Platform) : Type 0 where
  pub state : State I P
  pub exiting : Bool
  pub replies : List (Option CString)

-- What a round finds: the database and the hardware, which may have changed while the daemon slept,
-- and the requests that are waiting.
pub record Round (I : Idl) (P : Platform) : Type 0 where
  pub db : I.Db
  pub world : P.World
  pub requests : List Request

-- How far a run comes: ended with an exit code, before the loop or by the return from `main`; aborted;
-- or asleep behind the last of the rounds.
pub data Outcome (I : Idl) (P : Platform) : Type 0 where
  exited : ℕ → Outcome I P
  aborted : Outcome I P
  returned : ℕ → Process I P → Outcome I P
  sleeping : Process I P → Outcome I P

module _ (U : Unixctl) (I : Idl) (P : Platform) where
  unfoldable pub ops_pmd_exit : Process I P → Process I P
  ops_pmd_exit p = record p { exiting = true; replies = p.replies ++ none ∷ [] }

  unfoldable pub reply_dump : Request → Process I P → Process I P
  reply_dump (name, args) p = record p {
    replies = p.replies ++ some (pmd_unixctl_dump (name ∷ args) p.state.pmd.ovs_intfs) ∷ [];
  }

  -- A request that `unixctl_server_run` reads: what the library answers itself is left out.
  unfoldable pub serve : Request → Process I P → Process I P
  unfolding ops_pmd_exit reply_dump
  serve r p = elim (U.dispatch commands r) [
    | none ↦ p
    | some c ↦ elim c [ exit ↦ ops_pmd_exit p | dump ↦ reply_dump r p ]
  ]

  -- The requests that are waiting when the loop calls `unixctl_server_run`.
  unfoldable pub serve_all : List Request → Process I P → Process I P
  serve_all [] p = p
  serve_all (r ∷ rs) p = serve_all rs (serve r p)

  -- The body of the loop.
  unfoldable pub main_round : Round I P → Process I P → Process I P
  main_round r p =
      let woken : State I P = record p.state { db = r.db; world = r.world } in
      serve_all r.requests (record p { state = pmd_run I P woken })

  -- `while (!exiting)`, and the end of `main`.
  unfoldable pub main_loop : List (Round I P) → Process I P → Outcome I P
  main_loop [] p = if p.exiting then returned 0 p else sleeping p
  main_loop (r ∷ rs) p = elim p.exiting [
    | true ↦ returned 0 p
    | false ↦ main_loop rs (main_round r p)
  ]

  -- `connect` is the database as `ovsdb_idl_create` gives it for a remote, with the lock requested.
  unfoldable pub main :
      OptionLibrary → (CString → I.Db) → P.World → List CString → List (Round I P) → Outcome I P
  main O connect w argv rounds = elim (parse_options O argv) [
    | exits code text ↦ exited code
    | aborts ↦ aborted
    | parsed remote unixctl_path ↦
        if U.server_created unixctl_path
        then main_loop rounds (record {
          state = pm_ovsdb_if_init I P (connect remote) w;
          exiting = false;
          replies = [];
        })
        else exited 1
  ]
