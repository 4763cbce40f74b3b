-- ===== src/Sim/Read.antt =====
-- src/plug.c under PLATFORM_SIMULATION: what a pass over a port does.
use ops_pmd.Base.{
  ℕ, ◌≡◌, ◌⊎◌, ◌↔◌, refl, Bool, true, false, not, Option, none, some, List, pos, ℤ, ap, sym, ◌∙◌,
  ◌&&◌, if◌then◌else◌,
}
use ops_pmd.Port.{PmPort}
use ops_pmd.Detect.{ModuleType, module_type}
use ops_pmd.Platform.{Platform}
use ops_pmd.Plug.{accept_page}
use ops_pmd.Plug.Read.{IsRead, accept_page-IsRead, serial_id_offset-type, not_settled}
use ops_pmd.Sim.{sim_get_presence, sim_read_module_state}

pub switched_off {ℓ} : {A : Type ℓ} (b : Bool) (x y : A) → (if b && false then x else y) ≡ y
switched_off true x y = refl
switched_off false x y = refl

module _ (P : Platform) where
  -- A pass that copies from a module, or from a NULL pointer.
  abbrev copied : Option (List ℕ) → PmPort → Option (ℤ × PmPort)
  copied o p = elim o [ none ↦ none | some page ↦ some (pos 0, accept_page P page p) ]

  copied-none : (o : Option (List ℕ)) (p : PmPort) → copied o p ≡ none → o ≡ none
  copied-none none p e = refl
  copied-none (some page) p e = cc

  -- The pass over a port that is to be read: the presence test plays no part.
  sim_read_module_state_lem :
      (p : PmPort) (t : ModuleType)
      → module_type p ≡ some t
      → (p.present ≡ false) ⊎ (p.retry ≡ true)
      → sim_read_module_state P p ≡ copied p.module_data p
  unfolding sim_read_module_state
  sim_read_module_state_lem p t e unread =
      rw (serial_id_offset-type p t e, sim_read_module_state, not_settled p unread)
        (switched_off (not (sim_get_presence p)) _ _)

  -- A pass over a pluggable port of a known type that has not been read, or is to be read again: with
  -- a module the pass returns 0 and the port holds what its page says; without one it copies from a
  -- NULL pointer.
  pub sim_read_module_state-IsRead :
      (p : PmPort) (t : ModuleType)
      → p.module_device.pluggable ≡ true
      → module_type p ≡ some t
      → (p.present ≡ false) ⊎ (p.retry ≡ true)
      → ((p.module_data ≡ none) ↔ (sim_read_module_state P p ≡ none))
        × ((page : List ℕ)
            → p.module_data ≡ some page
            → (q : PmPort) × (sim_read_module_state P p ≡ some (pos 0, q)) × IsRead P t page p q)
  sim_read_module_state-IsRead p t h e unread =
      let step = sim_read_module_state_lem p t e unread in
      (
        (λ m. step ∙ ap (λ o. copied o p) m, λ k. copied-none p.module_data p (sym step ∙ k)),
        λ page m. (
          accept_page P page p,
          step ∙ ap (λ o. copied o p) m,
          accept_page-IsRead P page p t h e,
        ),
      )
