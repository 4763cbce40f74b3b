-- ===== src/Main/Requests.antt =====
-- src/pmd.c: which requests reach which of the registered functions.
use ops_pmd.Base.{
  ◌≡◌, ◌≤◌, ◌≢◌, refl, Bool, true, false, some, List, CString, codes, subst, ◌&&◌, ◌==◌, arith,
  length, str_eq, str_eq→eq, find, add,
}
use ops_pmd.Main.{Callback, exit, Command, Request, Unixctl, commands}

-- What the library documents of its commands: a request calls the function that is registered under
-- its name, if the number of its arguments is within the bounds, and no other.
pub record IsDocumented (U : Unixctl) : Type 0 where
  pub found :
      (cs : List (CString × Command)) (name : CString) (args : List CString) (c : Command)
      → find name cs ≡ some c
      → c.min_args ≤ length args
      → length args ≤ c.max_args
      → U.dispatch cs (name, args) ≡ some c.callback
  pub registered :
      (cs : List (CString × Command)) (name : CString) (args : List CString) (cb : Callback)
      → U.dispatch cs (name, args) ≡ some cb
      → (c : Command) × (find name cs ≡ some c) × (length args ≤ c.max_args) × (c.callback ≡ cb)

-- A request to end: the command "exit" without arguments.
unfoldable pub is_exit : Request → Bool
is_exit (name, args) = str_eq (codes "exit") name && (length args == 0)

abbrev exit_command : Command
exit_command = record { min_args = 0; max_args = 0; callback = exit }

find-exit : find (codes "exit") commands ≡ some exit_command
unfolding commands find add str_eq
find-exit = refl

find-commands :
    (name : CString) (c : Command)
    → find name commands ≡ some c
    → c.callback ≡ exit
    → (str_eq (codes "exit") name ≡ true) × (c.max_args ≡ 0)
unfolding commands find add
find-commands name c e x = ground arith

module _ (U : Unixctl) (documented : IsDocumented U) where
  dispatch_exit :
      (name : CString) (args : List CString)
      → codes "exit" ≡ name
      → length args ≡ 0
      → U.dispatch commands (name, args) ≡ some exit
  dispatch_exit name args same none_given =
      subst (λ n. U.dispatch commands (n, args) ≡ some exit) same
        (documented.found commands (codes "exit") args exit_command find-exit (omega arith)
          (omega arith))

  pub dispatch-exit : (r : Request) → is_exit r ≡ true → U.dispatch commands r ≡ some exit
  unfolding is_exit
  dispatch-exit (name, args) h =
      dispatch_exit name args (str_eq→eq (codes "exit") name (ground arith)) (ground arith)

  pub dispatch-ne-exit : (r : Request) → is_exit r ≡ false → U.dispatch commands r ≢ some exit
  unfolding is_exit
  dispatch-ne-exit (name, args) h e =
      let (c, at, few, same) = documented.registered commands name args exit e in
      let known = find-commands name c at same in ground arith
