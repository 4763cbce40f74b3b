-- ===== src/Tests/Simulation.antt =====
-- The theorems on the build for simulation at work.
use ops_pmd.Base.{
  ◌≡◌, refl, false, none, some, [], ◌∷◌, codes, pos, str_eq, find, inl, inr, ◌⊎◌, All,
  if◌then◌else◌,
}
use ops_pmd.Detect.{sfp_plus, qsfp_plus, module_type}
use ops_pmd.Plug.Scan.{IsTyped, IsSettled}
use ops_pmd.Sim.{Files, Ports, put_module, read_page, pmd_sim_insert, pmd_sim_remove}
use ops_pmd.Sim.Modules.{IsInserted, page_in, find-pmd_sim_insert, pmd_sim_remove-pmd_sim_insert}
use ops_pmd.Sim.Loop.{scan, command, sim_read_state, run_events}
use ops_pmd.Sim.Scan.{Any, IsStuck, AllBecame, sim_read_state-AllBecame}
use ops_pmd.Sim.Events.{shown, run_events-shown_after}
use ops_pmd.Tests.Data.{a_platform, sfp_port, qsfp_port, lr4_page}

-- One file can be opened.
abbrev disk : Files
disk file = if str_eq (codes "lr4") file then some lr4_page else none

abbrev ports : Ports
ports = (codes "1", sfp_port) ∷ (codes "2", qsfp_port) ∷ []

find-ports : find (codes "2") ports ≡ some qsfp_port
unfolding find str_eq
find-ports = refl

other_name : str_eq (codes "2") (codes "1") ≡ false
unfolding str_eq
other_name = refl

page_in-disk : page_in disk (codes "lr4") ≡ some lr4_page
unfolding read_page str_eq
page_in-disk = refl

find-pmd_sim_insert_example :
    let (rc, text, after) = pmd_sim_insert disk (codes "2") (codes "lr4") ports in
    IsInserted disk (codes "lr4") qsfp_port rc (find (codes "2") after)
    × (find (codes "1") after ≡ find (codes "1") ports)
find-pmd_sim_insert_example =
    find-pmd_sim_insert disk (codes "2") (codes "lr4") (codes "1") ports qsfp_port find-ports
      other_name

pmd_sim_remove-pmd_sim_insert_example :
    pmd_sim_remove (codes "2") (pmd_sim_insert disk (codes "2") (codes "lr4") ports).2
    ≡ (pos 0, codes "Pluggable module removed", ports)
pmd_sim_remove-pmd_sim_insert_example =
    pmd_sim_remove-pmd_sim_insert disk (codes "2") (codes "lr4") ports qsfp_port find-ports refl
      page_in-disk

qsfp_port-type : module_type qsfp_port ≡ some qsfp_plus
unfolding module_type str_eq
qsfp_port-type = refl

sfp_port-type : module_type sfp_port ≡ some sfp_plus
unfolding module_type str_eq
sfp_port-type = refl

-- Both ports with the module of the file.
abbrev full_ports : Ports
full_ports =
    (codes "1", put_module (some lr4_page) sfp_port)
    ∷ (codes "2", put_module (some lr4_page) qsfp_port)
    ∷ []

full_ports-IsTyped : All (λ n. IsTyped n.1) full_ports
unfolding module_type str_eq
full_ports-IsTyped = ((refl, sfp_plus, refl), ((refl, qsfp_plus, refl), tt))

sim_read_state-AllBecame_example :
    ((sim_read_state a_platform full_ports ≡ none) × Any (λ n. IsStuck n.1) full_ports)
    ⊎ ((after : Ports) × (sim_read_state a_platform full_ports ≡ some after)
        × AllBecame a_platform full_ports after
        × All (λ n. IsSettled n.1) after
        × ¬ Any (λ n. IsStuck n.1) full_ports)
sim_read_state-AllBecame_example = sim_read_state-AllBecame a_platform full_ports full_ports-IsTyped

-- The pass over them comes to an end, since both have a module.
first_pass : (after : Ports) × (sim_read_state a_platform full_ports ≡ some after)
first_pass = elim (sim_read_state-AllBecame a_platform full_ports full_ports-IsTyped) [
  | inl (crash, stuck) ↦ elim stuck [
    | inl k ↦ cc
    | inr k ↦ elim k [ inl j ↦ cc | inr j ↦ elim j [ ] ]
  ]
  | inr (after, step, became, settled, free) ↦ (after, step)
]

run_events-shown_after_example :
    let es = command disk (codes "sim" ∷ codes "2" ∷ codes "remove" ∷ []) ∷ scan ∷ [] in
    (after : Ports) × (run_events a_platform es first_pass.0 ≡ some after)
    × (shown after ≡ shown first_pass.0)
run_events-shown_after_example =
    run_events-shown_after a_platform full_ports first_pass.0
      (command disk (codes "sim" ∷ codes "2" ∷ codes "remove" ∷ []) ∷ scan ∷ []) full_ports-IsTyped
      first_pass.1
