-- ===== src/Sim/Scan.antt =====
-- src/plug.c under PLATFORM_SIMULATION: what a pass over all ports does.
use ops_pmd.Base.{
  ℕ, ◌≡◌, ◌⊎◌, inl, inr, refl, true, false, none, some, List, [], ◌∷◌, pos, arith, All,
  Option-cases,
}
use ops_pmd.Port.{PmPort}
use ops_pmd.Detect.{ModuleType, module_type}
use ops_pmd.Platform.{Platform}
use ops_pmd.Plug.Read.{IsRead, serial_id_offset-type}
use ops_pmd.Plug.Scan.{IsTyped, IsSettled, IsSettled-cases}
use ops_pmd.Sim.{Ports, sim_get_presence, sim_read_module_state}
use ops_pmd.Sim.Read.{sim_read_module_state-IsRead}
use ops_pmd.Sim.Loop.{sim_read_state}

abbrev pub Any {ℓ} : {A : Type ℓ} → (A → Type 0) → List A → Type 0
Any P [] = ⊥
Any P (x ∷ xs) = P x ⊎ Any P xs

-- A port that is to be read and has no module.
abbrev pub IsStuck : PmPort → Type 0
IsStuck p = ((p.present ≡ false) ⊎ (p.retry ≡ true)) × (p.module_data ≡ none)

settled_not_stuck : (p : PmPort) → IsSettled p → IsStuck p → ⊥
settled_not_stuck p s k = elim k.0 [ inl e ↦ cc | inr e ↦ cc ]

no_module : (p : PmPort) {page : List ℕ} → p.module_data ≡ some page → p.module_data ≡ none → ⊥
no_module p a b = cc

module _ (P : Platform) where
  -- A port that has been read stays; another one shows the module that is in it.
  abbrev pub Became : PmPort → PmPort → Type 0
  Became p q =
      (IsSettled p × (q ≡ p))
      ⊎ ((page : List ℕ) × (t : ModuleType) × (p.module_data ≡ some page) × IsRead P t page p q)

  abbrev pub AllBecame : Ports → Ports → Type 0
  AllBecame [] [] = Unit
  AllBecame [] (n ∷ ns) = ⊥
  AllBecame (m ∷ ms) [] = ⊥
  AllBecame (m ∷ ms) (n ∷ ns) = ((m.0 ≡ n.0) × Became m.1 n.1) × AllBecame ms ns

  pub sim_read_module_state-settled :
      (p : PmPort) (t : ModuleType)
      → module_type p ≡ some t
      → IsSettled p
      → sim_read_module_state P p ≡ some (pos 0, p)
  unfolding sim_read_module_state sim_get_presence
  sim_read_module_state-settled p t e s = ground (arith, serial_id_offset-type p t e)

  -- The pass over one port: it ends the daemon, or leaves the port as it is to become.
  sim_read_module_state-cases :
      (p : PmPort)
      → IsTyped p
      → ((sim_read_module_state P p ≡ none) × IsStuck p)
        ⊎ ((q : PmPort) × (sim_read_module_state P p ≡ some (pos 0, q))
            × Became p q
            × IsSettled q
            × ¬ IsStuck p)
  sim_read_module_state-cases p (h, t, e) = elim (IsSettled-cases p) [
    | inl s ↦
        inr
          (p, sim_read_module_state-settled p t e s, inl (s, refl), s, λ k. settled_not_stuck p s k)
    | inr u ↦
        let (crash, read) = sim_read_module_state-IsRead P p t h e u in
        elim (Option-cases p.module_data) [
          | inl m ↦ inl (crash.0 m, (u, m))
          | inr (page, m) ↦
              let (q, step, r) = read page m in
              inr (q, step, inr (page, t, m, r), (r.present, r.settled), λ k. no_module p m k.1)
        ]
  ]

  -- A pass over ports that are pluggable and of known types ends the daemon, by a copy from a NULL
  -- pointer, exactly where one that is to be read has no module. Otherwise each port, under its name,
  -- is as it was if it has been read, and else shows the module that is in it; all have been read then.
  pub sim_read_state-AllBecame :
      (ports : Ports)
      → All (λ n. IsTyped n.1) ports
      → ((sim_read_state P ports ≡ none) × Any (λ n. IsStuck n.1) ports)
        ⊎ ((after : Ports) × (sim_read_state P ports ≡ some after)
            × AllBecame ports after
            × All (λ n. IsSettled n.1) after
            × ¬ Any (λ n. IsStuck n.1) ports)
  unfolding sim_read_state
  sim_read_state-AllBecame [] h = inr ([], refl, tt, tt, λ k. k)
  sim_read_state-AllBecame ((name, p) ∷ ports) h = elim (sim_read_module_state-cases p h.0) [
    | inl (crash, stuck) ↦ inl (rw (crash, sim_read_state), inl stuck)
    | inr (q, step, became, settled, free) ↦ elim (sim_read_state-AllBecame ports h.1) [
      | inl (crash, stuck) ↦ inl (rw (step, sim_read_state, crash), inr stuck)
      | inr (after, rest, all, kept, others) ↦ inr (
        (name, q) ∷ after,
        rw (step, sim_read_state, rest),
        ((refl, became), all),
        (settled, kept),
        λ k. elim k [ inl here ↦ free here | inr there ↦ others there ],
      )
    ]
  ]
