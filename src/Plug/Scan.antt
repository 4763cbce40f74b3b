-- ===== src/Plug/Scan.antt =====
-- src/plug.c: `pm_read_state`, the pass over all ports, repeated every half second.
use ops_pmd.Base.{
  ◌≡◌, refl, ◌⊎◌, inl, inr, true, false, some, List, [], ap, ◌∙◌, arith, ◌∷◌, CString, Bool-cases,
  All,
}
use ops_pmd.Port.{PmPort}
use ops_pmd.Detect.{ModuleType, module_type}
use ops_pmd.Platform.{Platform}
use ops_pmd.Plug.{pm_read_port_state, pm_read_state}
use ops_pmd.Plug.Read.{pm_read_module_state-IsRead, pm_read_module_state-settled}

-- A port whose module the daemon can read: pluggable, with a connector of a known type.
abbrev pub IsTyped : PmPort → Type 0
IsTyped p = (p.module_device.pluggable ≡ true) × (t : ModuleType) × (module_type p ≡ some t)

abbrev pub IsSettled : PmPort → Type 0
IsSettled p = (p.present ≡ true) × (p.retry ≡ false)

pub IsSettled-cases : (p : PmPort) → IsSettled p ⊎ ((p.present ≡ false) ⊎ (p.retry ≡ true))
IsSettled-cases p = elim (Bool-cases p.present) [
  | inr e ↦ inr (inl e)
  | inl e ↦ elim (Bool-cases p.retry) [ inl r ↦ inr (inr r) | inr r ↦ inl (e, r) ]
]

same_type : (p q : PmPort) → q.module_device ≡ p.module_device → module_type q ≡ module_type p
unfolding module_type
same_type p q e = ground arith

-- The type of a port is that of its device.
pub IsTyped-device : (p q : PmPort) → q.module_device ≡ p.module_device → IsTyped p → IsTyped q
IsTyped-device p q e (h, t, f) = (ap (λ d. d.pluggable) e ∙ h, t, same_type p q e ∙ f)

module _ (P : Platform) where
  pub pm_read_port_state-IsSettled :
      (p : PmPort) (w : P.World) → IsTyped p → IsSettled (pm_read_port_state P p w).0
  unfolding pm_read_port_state
  pm_read_port_state-IsSettled p w (h, t, e) = elim (IsSettled-cases p) [
    | inl s ↦ rw (pm_read_module_state-settled P p w s.0 s.1) s
    | inr u ↦ let (_, r) = pm_read_module_state-IsRead P p t w h e u in (r.present, r.settled)
  ]

  -- One pass settles every port of a list of ports that can be read.
  pm_read_state-IsSettled :
      (ports : List (CString × PmPort)) (w : P.World)
      → All (λ n. IsTyped n.1) ports
      → All (λ n. IsSettled n.1) (pm_read_state P ports w).0
  unfolding pm_read_state
  pm_read_state-IsSettled [] w h = tt
  pm_read_state-IsSettled ((name, p) ∷ ports) w h =
      (pm_read_port_state-IsSettled p w h.0, pm_read_state-IsSettled ports _ h.1)

  pm_read_state-same :
      (ports : List (CString × PmPort)) (w : P.World)
      → All (λ n. IsSettled n.1) ports
      → (pm_read_state P ports w).0 ≡ ports
  unfolding pm_read_state pm_read_port_state
  pm_read_state-same [] w h = refl
  pm_read_state-same ((name, p) ∷ ports) w h =
      rw (pm_read_module_state-settled P p w h.0.0 h.0.1, pm_read_state-same ports _ h.1)

  -- Where every port is pluggable and of a known type, the state of the ports is a fixed point after
  -- one pass: no later pass, in whatever state of the hardware, changes a port, so neither the
  -- removal nor the exchange of a module is noticed.
  pub pm_read_state-fixed :
      (ports : List (CString × PmPort)) (w w' : P.World)
      → All (λ n. IsTyped n.1) ports
      → (pm_read_state P (pm_read_state P ports w).0 w').0 ≡ (pm_read_state P ports w).0
  pm_read_state-fixed ports w w' h =
      pm_read_state-same (pm_read_state P ports w).0 w' (pm_read_state-IsSettled ports w h)
