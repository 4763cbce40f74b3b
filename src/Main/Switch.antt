-- ===== src/Main/Switch.antt =====
-- src/pmd.c, `parse_options`: what the loop over the options comes to.
use ops_pmd.Base.{
  ℕ, ◌≡◌, ◌≢◌, ◌⊎◌, ◌∙◌, sym, refl, true, Option, none, some, List, [], ◌∷◌, ◌++◌, codes, inl, inr,
  Option-cases, CString, ◌==◌, if◌then◌else◌, All, arith,
}
use ops_pmd.Main.Options.{
  OptionLibrary, opt_unixctl, long_options, has_val, pmd_print_version, usage, Parsed, exits,
  aborts, parsed, default_remote, remote_of, parse_loop, parse_options,
}

module _ (O : OptionLibrary) where
  -- As `getopt_long` documents it: each result is the value of an option in the table or `?`.
  abbrev pub IsInTable : ℕ × CString → Type 0
  IsInTable (c, optarg) = (has_val (long_options O) c ≡ true) ⊎ (c ≡ b'?')

  -- The exit code and the text of an option that ends the process.
  pub ending : ℕ × CString → Option (ℕ × CString)
  ending (c, optarg) =
      if c == b'h'
      then some (0, usage O)
      else if c == b'V'
      then some (0, pmd_print_version O)
      else if c == opt_unixctl
      then none
      else if has_val O.library_options c
      then elim (O.handle c optarg) [ some code ↦ some (code, []) | none ↦ none ]
      else some (1, [])

  -- The first of the options that ends the process.
  pub first_end : List (ℕ × CString) → Option (ℕ × CString)
  unfolding ending
  first_end [] = none
  first_end (o ∷ os) = elim (ending o) [ some e ↦ some e | none ↦ first_end os ]

  -- The argument of the last `--unixctl`, or else `path`.
  pub last_path : Option CString → List (ℕ × CString) → Option CString
  last_path path [] = path
  last_path path ((c, optarg) ∷ os) = last_path (if c == opt_unixctl then some optarg else path) os

  -- The remote and the path that the other arguments leave.
  pub remote_given : List CString → Option CString → Parsed
  remote_given args path = elim args [
    | [] ↦ parsed (codes "unix:" ++ (O.ovs_rundir ++ codes "/db.sock")) path
    | arg ∷ more ↦ elim more [ [] ↦ parsed arg path | other ∷ rest ↦ exits 1 [] ]
  ]

  -- What is to come of the options and the other arguments.
  pub verdict : List (ℕ × CString) → List CString → Option CString → Parsed
  unfolding first_end last_path remote_given
  verdict os args path = elim (first_end os) [
    | some e ↦ exits e.0 e.1
    | none ↦ remote_given args (last_path path os)
  ]

  remote_of_lem :
      (args : List CString) (path : Option CString) → remote_of O args path ≡ remote_given args path
  unfolding remote_of remote_given default_remote
  remote_of_lem [] path = refl
  remote_of_lem (arg ∷ []) path = refl
  remote_of_lem (arg ∷ other ∷ args) path = refl

  parse_loop_lem :
      (os : List (ℕ × CString)) (args : List CString) (path : Option CString)
      → All IsInTable os
      → parse_loop O os args path ≡ verdict os args path
  unfolding parse_loop verdict ending first_end last_path
  parse_loop_lem [] args path h = remote_of_lem args path
  parse_loop_lem ((c, optarg) ∷ os) args path h =
      ground (arith, parse_loop_lem os args path h.1, parse_loop_lem os args (some optarg) h.1)

  remote_given-ne-aborts :
      (args : List CString) (path : Option CString) → remote_given args path ≢ aborts
  unfolding remote_given
  remote_given-ne-aborts [] path h = cc
  remote_given-ne-aborts (arg ∷ []) path h = cc
  remote_given-ne-aborts (arg ∷ other ∷ args) path h = cc

  verdict-ne-aborts :
      (os : List (ℕ × CString)) (args : List CString) (path : Option CString)
      → verdict os args path ≢ aborts
  unfolding verdict
  verdict-ne-aborts os args path = elim (Option-cases (first_end os)) [
    | inl e ↦ rw (e, verdict) (remote_given-ne-aborts args (last_path path os))
    | inr (ending, e) ↦ rw (e, verdict) (λ h. cc)
  ]

  -- If `getopt_long` returns only values of the table and `?`, the first option that ends the process
  -- decides: help and the version end it with 0 and their text, an unknown option with 1, an option of
  -- the library as its handler says. Where none does, one argument that is no option is the remote,
  -- without one it is the default, more of them end the process with 1, and the path of the control
  -- socket is that of the last `--unixctl`. `abort` is never called.
  pub parse_options-verdict :
      (argv : List CString)
      → let (os, args) = O.getopt_long (long_options O) argv in
        All IsInTable os
        → (parse_options O argv ≡ verdict os args none) × (parse_options O argv ≢ aborts)
  unfolding parse_options
  parse_options-verdict argv h =
      let (os, args) = O.getopt_long (long_options O) argv in
      let e = parse_loop_lem os args none h in (e, λ a. verdict-ne-aborts os args none (sym e ∙ a))
