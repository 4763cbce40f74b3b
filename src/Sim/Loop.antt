-- ===== src/Sim/Loop.antt =====
-- src/plug.c and src/pmd.c under PLATFORM_SIMULATION: `pm_read_state` over all ports, and the commands
-- that come between its passes.
use ops_pmd.Base.{Option, none, some, List, [], ◌∷◌, CString}
use ops_pmd.Port.{PmPort}
use ops_pmd.Platform.{Platform}
use ops_pmd.Sim.{Files, Ports, sim_configure_port, sim_read_module_state, pmd_unixctl_sim}

-- `pm_set_enabled`
unfoldable pub sim_set_enabled : Ports → Ports
sim_set_enabled [] = []
sim_set_enabled ((name, p) ∷ ports) = (name, sim_configure_port p) ∷ sim_set_enabled ports

abbrev pub onto : CString × PmPort → Option Ports → Option Ports
onto n none = none
onto n (some rest) = some (n ∷ rest)

-- What happens to the ports: a pass over them, or a command, with the files as they are then.
pub data Event : Type 0 where
  scan : Event
  command : Files → List CString → Event

module _ (P : Platform) where
  -- `pm_read_state`; `none` is the copy from a NULL pointer, which ends the daemon.
  unfoldable pub sim_read_state : Ports → Option Ports
  sim_read_state [] = some []
  sim_read_state ((name, p) ∷ ports) =
      let rest = sim_read_state ports in
      elim (sim_read_module_state P p) [ none ↦ none | some (rc, q) ↦ onto (name, q) rest ]

  unfoldable pub run_events : List Event → Ports → Option Ports
  run_events [] ports = some ports
  run_events (scan ∷ es) ports = elim (sim_read_state ports) [
    | none ↦ none
    | some read ↦ run_events es read
  ]
  run_events (command fopen argv ∷ es) ports = run_events es (pmd_unixctl_sim fopen argv ports).1
