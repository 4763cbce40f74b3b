-- ===== src/Main/Ends.antt =====
-- src/pmd.c, `main`: when it returns, and what it has done by then.
use ops_pmd.Base.{
  ◌≡◌, ◌∙◌, refl, sym, ap, subst, Bool, true, false, ◌||◌, Option, List, [], ◌∷◌, CString,
  if◌then◌else◌, arith, inl, inr, Bool-cases,
}
use ops_pmd.Platform.{Platform}
use ops_pmd.Db.{Idl}
use ops_pmd.Daemon.{State, pm_ovsdb_if_init, pmd_run, IsReachable, start, after, run_round, outside}
use ops_pmd.Main.{
  Request, Unixctl, Process, Round, Outcome, returned, sleeping, serve, serve_all, main_round,
  main_loop, main,
}
use ops_pmd.Main.Options.{OptionLibrary, parsed, parse_options}
use ops_pmd.Main.Requests.{IsDocumented, is_exit, dispatch-exit, dispatch-ne-exit}

unfoldable pub any_exit : List Request → Bool
any_exit [] = false
any_exit (r ∷ rs) = is_exit r || any_exit rs

module _ {I : Idl} {P : Platform} where
  -- A request to end in one of the rounds.
  unfoldable pub asked : List (Round I P) → Bool
  asked [] = false
  asked (r ∷ rs) = any_exit r.requests || asked rs

  -- The rounds up to the first with a request to end.
  pub up_to_exit : List (Round I P) → List (Round I P)
  up_to_exit [] = []
  up_to_exit (r ∷ rs) = r ∷ (if any_exit r.requests then [] else up_to_exit rs)

  -- Rounds of the daemon, as if there were no control socket.
  pub run_rounds : List (Round I P) → State I P → State I P
  run_rounds [] s = s
  run_rounds (r ∷ rs) s = run_rounds rs (pmd_run I P (record s { db = r.db; world = r.world }))

  run_rounds-IsReachable :
      (rs : List (Round I P)) (s : State I P)
      → IsReachable I P s
      → IsReachable I P (run_rounds rs s)
  unfolding run_rounds
  run_rounds-IsReachable [] s h = h
  run_rounds-IsReachable (r ∷ rs) s h =
      run_rounds-IsReachable rs _ (after (after h (outside r.db r.world)) run_round)

  module _ (U : Unixctl) (documented : IsDocumented U) where
    serve_lem :
        (r : Request) (p : Process I P)
        → ((serve U I P r p).exiting ≡ is_exit r || p.exiting) × ((serve U I P r p).state ≡ p.state)
    unfolding serve
    serve_lem r p = ground (arith, dispatch-exit U documented r, dispatch-ne-exit U documented r)

    serve_all_lem :
        (rs : List Request) (p : Process I P)
        → let q = serve_all U I P rs p in
          (q.exiting ≡ any_exit rs || p.exiting) × (q.state ≡ p.state)
    unfolding serve_all any_exit
    serve_all_lem [] p = (refl, refl)
    serve_all_lem (r ∷ rs) p =
        let one = serve_lem r p in
        let rest = serve_all_lem rs (serve U I P r p) in (ground arith, rest.1 ∙ one.1)

    -- What becomes of the loop over some rounds, and with which state.
    abbrev ComesTo : Outcome I P → Bool → State I P → Type 0
    ComesTo o ended s =
        (q : Process I P) × (o ≡ (if ended then returned 0 q else sleeping q)) × (q.state ≡ s)

    main_loop_exiting :
        (rs : List (Round I P)) (p : Process I P)
        → p.exiting ≡ true
        → main_loop U I P rs p ≡ returned 0 p
    unfolding main_loop
    main_loop_exiting [] p e = rw e
    main_loop_exiting (r ∷ rs) p e = ground arith

    main_loop_step :
        (r : Round I P) (rs : List (Round I P)) (p : Process I P)
        → p.exiting ≡ false
        → main_loop U I P (r ∷ rs) p ≡ main_loop U I P rs (main_round U I P r p)
    unfolding main_loop
    main_loop_step r rs p e = ground arith

    main_round_lem :
        (r : Round I P) (p : Process I P)
        → let q = main_round U I P r p in
          (q.exiting ≡ any_exit r.requests || p.exiting)
          × (q.state ≡ pmd_run I P (record p.state { db = r.db; world = r.world }))
    unfolding main_round
    main_round_lem r p = serve_all_lem r.requests _

    main_loop-ComesTo :
        (rs : List (Round I P)) (p : Process I P)
        → p.exiting ≡ false
        → ComesTo (main_loop U I P rs p) (asked rs) (run_rounds (up_to_exit rs) p.state)
    unfolding main_loop asked run_rounds up_to_exit
    main_loop-ComesTo [] p e = (p, rw e, refl)
    main_loop-ComesTo (r ∷ rs) p e =
        let q = main_round U I P r p in
        let facts = main_round_lem r p in
        elim (Bool-cases (any_exit r.requests)) [
          | inl x ↦ rw x (
            q,
            main_loop_step r rs p e ∙ main_loop_exiting rs q (facts.0 ∙ ap (λ b. b || p.exiting) x),
            facts.1,
          )
          | inr x ↦
              let (q', came, state) =
                main_loop-ComesTo rs q (facts.0 ∙ ap (λ b. b || p.exiting) x ∙ e) in
              rw x (
                q',
                main_loop_step r rs p e ∙ came,
                state ∙ ap (run_rounds (up_to_exit rs)) facts.1,
              )
        ]

    -- Where the options are parsed and the control socket can be opened, `main` returns 0 behind the
    -- first round with the request "exit", as soon as its requests are answered, and sleeps on without
    -- one; by then it has made just the rounds up to there, with which no request interferes, so the
    -- state it is in is one that rounds of the daemon reach.
    pub main-ends :
        (O : OptionLibrary) (connect : CString → I.Db) (w : P.World) (argv : List CString)
        (rounds : List (Round I P)) (remote : CString) (path : Option CString)
        → parse_options O argv ≡ parsed remote path
        → U.server_created path ≡ true
        → (q : Process I P) × (main U I P O connect w argv rounds
            ≡ (if asked rounds then returned 0 q else sleeping q))
          × (q.state ≡ run_rounds (up_to_exit rounds) (pm_ovsdb_if_init I P (connect remote) w))
          × IsReachable I P q.state
    unfolding main
    main-ends O connect w argv rounds remote path e made =
        let s = pm_ovsdb_if_init I P (connect remote) w in
        let (q, came, state) =
          main_loop-ComesTo rounds (record { state = s; exiting = false; replies = [] }) refl in
        (
          q,
          rw (e, main, made) came,
          state,
          subst (IsReachable I P) (sym state)
              (run_rounds-IsReachable (up_to_exit rounds) s (start (connect remote) w)),
        )
