-- ===== src/Sim/Events.antt =====
-- src/plug.c and src/pmd.c under PLATFORM_SIMULATION: modules that come and go between the passes.
use ops_pmd.Base.{
  ℕ, ◌≡◌, ◌∙◌, refl, ap, subst, ◌&&◌, ◌==◌, length, get_or, codes, Option, none, some, List, [],
  ◌∷◌, map, CString, All, str_eq, modify_first, find, Option-cases, Bool-cases, inl, inr,
}
use ops_pmd.Port.{PmPort}
use ops_pmd.Detect.{module_type}
use ops_pmd.Platform.{Platform}
use ops_pmd.Plug.Scan.{IsTyped, IsSettled, IsTyped-device}
use ops_pmd.Sim.{
  Files, Ports, put_module, read_page, pmd_sim_insert, pmd_sim_remove, pmd_unixctl_sim,
}
use ops_pmd.Sim.Scan.{Became, AllBecame, sim_read_state-AllBecame, sim_read_module_state-settled}
use ops_pmd.Sim.Loop.{Event, scan, command, sim_read_state, run_events}

-- All that the ports show, whichever modules are in them.
abbrev pub shown : Ports → Ports
shown = map (λ n. (n.0, put_module none n.1))

-- What every exchange of a module keeps, a command keeps.
module _ {κ} (Q : Ports → Type κ)
    (kept : (k : CString) (page : Option (List ℕ)) (m : Ports)
      → Q m
      → Q (modify_first k (put_module page) m)) where
  pmd_sim_insert-kept :
      (fopen : Files) (name file : CString) (ports : Ports)
      → Q ports
      → Q (pmd_sim_insert fopen name file ports).2
  unfolding pmd_sim_insert
  pmd_sim_insert-kept fopen name file ports h = elim (Option-cases (find name ports)) [
    | inl e ↦ rw (e, pmd_sim_insert) h
    | inr (p, e) ↦ elim (Option-cases (fopen file)) [
      | inl o ↦ rw (e, pmd_sim_insert, o) (kept name none ports h)
      | inr (bytes, o) ↦ elim (Option-cases (read_page bytes)) [
        | inl r ↦ rw (e, pmd_sim_insert, o, r) (kept name none ports h)
        | inr (page, r) ↦
            rw (e, pmd_sim_insert, o, r) (kept name (some page) _ (kept name none ports h))
      ]
    ]
  ]

  pmd_sim_remove-kept : (name : CString) (ports : Ports) → Q ports → Q (pmd_sim_remove name ports).2
  unfolding pmd_sim_remove
  pmd_sim_remove-kept name ports h = elim (Option-cases (find name ports)) [
    | inl e ↦ rw (e, pmd_sim_remove) h
    | inr (p, e) ↦ elim (Option-cases p.module_data) [
      | inl m ↦ rw (e, pmd_sim_remove, m) h
      | inr (page, m) ↦ rw (e, pmd_sim_remove, m) (kept name none ports h)
    ]
  ]

  pmd_unixctl_sim-kept :
      (fopen : Files) (argv : List CString) (ports : Ports)
      → Q ports
      → Q (pmd_unixctl_sim fopen argv ports).1
  unfolding pmd_unixctl_sim
  pmd_unixctl_sim-kept fopen argv ports h =
      let name = get_or argv 1 (codes "") in
      let verb = get_or argv 2 (codes "") in
      elim (Bool-cases ((length argv == 4) && str_eq (codes "insert") verb)) [
        | inl e ↦
            rw (e, pmd_unixctl_sim)
              (pmd_sim_insert-kept fopen name (get_or argv 3 (codes "")) ports h)
        | inr e ↦ elim (Bool-cases ((length argv == 3) && str_eq (codes "remove") verb)) [
          | inl r ↦ rw (e, pmd_unixctl_sim, r) (pmd_sim_remove-kept name ports h)
          | inr r ↦ rw (e, pmd_unixctl_sim, r) h
        ]
      ]

-- An exchange changes nothing that a port shows.
shown-modify_first :
    (k : CString) (page : Option (List ℕ)) (m : Ports)
    → shown (modify_first k (put_module page) m) ≡ shown m
unfolding modify_first
shown-modify_first k page [] = refl
shown-modify_first k page ((name, p) ∷ m) = elim (Bool-cases (str_eq name k)) [
  | inl e ↦ rw (e, modify_first)
  | inr e ↦
      rw (e, modify_first) (ap (λ r. (name, put_module none p) ∷ r) (shown-modify_first k page m))
]

-- Ports that a pass leaves as they are: pluggable ports of known types that have been read.
abbrev IsDone : PmPort → Type 0
IsDone p = IsTyped p × IsSettled p

modify_first-IsDone :
    (k : CString) (page : Option (List ℕ)) (m : Ports)
    → All (λ n. IsDone n.1) m
    → All (λ n. IsDone n.1) (modify_first k (put_module page) m)
unfolding modify_first module_type
modify_first-IsDone k page [] h = h
modify_first-IsDone k page ((name, p) ∷ m) h = elim (Bool-cases (str_eq name k)) [
  | inl e ↦ rw (e, modify_first) h
  | inr e ↦ rw (e, modify_first) (h.0, modify_first-IsDone k page m h.1)
]

no_result : {o : Option Ports} {m : Ports} → o ≡ none → o ≡ some m → ⊥
no_result a b = cc

some_same : {o : Option Ports} {m n : Ports} → o ≡ some m → o ≡ some n → m ≡ n
some_same a b = cc

module _ (P : Platform) where
  sim_read_state-same :
      (ports : Ports) → All (λ n. IsDone n.1) ports → sim_read_state P ports ≡ some ports
  unfolding sim_read_state
  sim_read_state-same [] h = refl
  sim_read_state-same ((name, p) ∷ ports) h =
      let ((plug, t, e), settled) = h.0 in
      rw (
        sim_read_module_state-settled P p t e settled,
        sim_read_state,
        sim_read_state-same ports h.1,
      )

  run_events-shown :
      (es : List Event) (ports : Ports)
      → All (λ n. IsDone n.1) ports
      → (after : Ports) × (run_events P es ports ≡ some after) × (shown after ≡ shown ports)
  unfolding run_events
  run_events-shown [] ports h = (ports, refl, refl)
  run_events-shown (scan ∷ es) ports h =
      rw (sim_read_state-same ports h, run_events) (run_events-shown es ports h)
  run_events-shown (command fopen argv ∷ es) ports h =
      let kept =
        pmd_unixctl_sim-kept (λ m. All (λ n. IsDone n.1) m) modify_first-IsDone fopen argv ports
          h in
      let same =
        pmd_unixctl_sim-kept (λ m. shown m ≡ shown ports)
          (λ k page m e. shown-modify_first k page m ∙ e) fopen argv ports refl in
      let (after, ran, e) = run_events-shown es (pmd_unixctl_sim fopen argv ports).1 kept in
      (after, ran, e ∙ same)

  Became-IsTyped : (p q : PmPort) → IsTyped p → Became P p q → IsTyped q
  Became-IsTyped p q h (inl (s, same)) = rw same h
  Became-IsTyped p q h (inr (page, u, m, r)) =
      IsTyped-device p q (ap (λ x. x.module_device) r.same) h

  AllBecame-IsDone :
      (ports after : Ports)
      → All (λ n. IsTyped n.1) ports
      → AllBecame P ports after
      → All (λ n. IsSettled n.1) after
      → All (λ n. IsDone n.1) after
  AllBecame-IsDone [] [] h b s = tt
  AllBecame-IsDone [] (n ∷ ns) h b s = absurd b
  AllBecame-IsDone (m ∷ ms) [] h b s = absurd b
  AllBecame-IsDone (m ∷ ms) (n ∷ ns) h b s =
      ((Became-IsTyped m.1 n.1 h.0 b.0.1, s.0), AllBecame-IsDone ms ns h.1 b.1 s.1)

  -- Behind a pass over pluggable ports of known types that does not end the daemon no module is read
  -- again: whatever passes and commands follow, and whichever modules they insert and remove, none of
  -- the passes ends the daemon, and the ports show what they showed behind the first.
  pub run_events-shown_after :
      (ports first : Ports) (es : List Event)
      → All (λ n. IsTyped n.1) ports
      → sim_read_state P ports ≡ some first
      → (after : Ports) × (run_events P es first ≡ some after) × (shown after ≡ shown first)
  run_events-shown_after ports first es h e = elim (sim_read_state-AllBecame P ports h) [
    | inl (crash, stuck) ↦ absurd (no_result crash e)
    | inr (read, step, became, settled, free) ↦
        let same : read ≡ first = some_same step e in
        run_events-shown es first
          (subst (λ m. All (λ n. IsDone n.1) m) same (AllBecame-IsDone ports read h became settled))
  ]
