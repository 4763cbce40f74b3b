-- ===== src/Tests/Database.antt =====
-- The theorems on the daemon's ports and the database at work.
use ops_pmd.Base.{
  negsuc, none, succeeded, ◌≡◌, refl, true, false, List, [], ◌∷◌, CString, codes, All, find, str_eq,
}
use ops_pmd.Port.{PmPort}
use ops_pmd.Platform.{Platform}
use ops_pmd.Config.{pm_read_yaml_files}
use ops_pmd.Db.{Pmd, create_missing, subsys_process, subsystems_process}
use ops_pmd.Db.Failure.{subsys_process_failed}
use ops_pmd.Db.Yaml.{KeepsYaml}
use ops_pmd.Db.Refine.{view, or_else, ports_for, create_missing-Refines}
use ops_pmd.Db.Loop.{drop_gone, delete_ports, follow_db, publish_all, pm_ovsdb_update}
use ops_pmd.Db.Valid.{IsValid}
use ops_pmd.Db.Gone.{live, HasRow, delete_ports-live}
use ops_pmd.Db.Keep.{follow_db-HasRow}
use ops_pmd.Db.Enable.{Follows, told_changes, follow_db-Follows}
use ops_pmd.Db.Publish.{pm_ovsdb_update_once}
use ops_pmd.Daemon.{State, pm_ovsdb_if_init, pmd_run, run_round, start, after}
use ops_pmd.Daemon.Invariant.{IsReachable-IsValid}
use ops_pmd.Tests.Data.{
  subsystem_row, a_platform, an_idl, a_db, row_1, row_2, sfp_port, qsfp28_port,
}

-- The third port has no row.
abbrev ports : List (CString × PmPort)
ports = (codes "3", qsfp28_port) ∷ (codes "1", record sfp_port { module_info_changed = true }) ∷ []

ports-IsValid : IsValid ports
unfolding find str_eq
ports-IsValid = record { kept = ((refl, refl), ((refl, refl), tt)); unique = (refl, (refl, tt)) }

delete_ports-live_example : delete_ports an_idl a_db ports ports ≡ live an_idl a_db ports
delete_ports-live_example = delete_ports-live an_idl a_db ports ports-IsValid

abbrev a_state : Pmd
a_state = record {
  ovs_intfs = ports;
  ovs_subs = (codes "base", 7) ∷ [];
  idl_seqno = 0;
  cur_hw_set = false;
}

follow_db-HasRow_example :
    All (HasRow an_idl a_db) (follow_db an_idl a_platform a_db a_state 0).0.ovs_intfs
follow_db-HasRow_example =
    follow_db-HasRow a_platform an_idl a_db a_state 0 ((refl, (refl, tt)), tt) ports-IsValid

follow_db-Follows_example :
    let (mid, w1) =
      subsystems_process a_platform (an_idl.subsystems a_db) (drop_gone an_idl a_db a_state) 0 in
    let (followed, w2) = follow_db an_idl a_platform a_db a_state 0 in
    All (Follows a_platform followed.ovs_intfs) (row_1 ∷ row_2 ∷ [])
    × (w2 ≡ told_changes a_platform mid.ovs_intfs followed.ovs_intfs (row_1 ∷ row_2 ∷ []) w1)
unfolding str_eq
follow_db-Follows_example =
    follow_db-Follows a_platform an_idl a_db a_state 0 ((refl, tt), (tt, tt))

abbrev updatable : Pmd
updatable = record a_state {
  ovs_intfs = (codes "1", record sfp_port { module_info_changed = true }) ∷ [];
}

pm_ovsdb_update_once_example :
    publish_all an_idl (pm_ovsdb_update an_idl updatable a_db).0.ovs_intfs a_db
    ≡ ((pm_ovsdb_update an_idl updatable a_db).0.ovs_intfs, a_db)
pm_ovsdb_update_once_example =
    pm_ovsdb_update_once an_idl (λ intf info db uuid. refl) updatable a_db a_db ((row_1, refl), tt)

abbrev first_state : State an_idl a_platform
first_state = pm_ovsdb_if_init an_idl a_platform a_db 0

IsReachable-IsValid_example : IsValid (pmd_run an_idl a_platform first_state).pmd.ovs_intfs
IsReachable-IsValid_example =
    IsReachable-IsValid a_platform an_idl (pmd_run an_idl a_platform first_state)
      (after (start a_db 0) run_round)

pub an_idle_hardware : KeepsYaml a_platform
an_idle_hardware = record {
  by_reg_write = λ sub op value w. (refl, refl);
  by_data_write = λ device sub offset bytes w. (refl, refl);
  by_nanosleep = λ ns w. (refl, refl);
}

abbrev empty_state : Pmd
empty_state = record a_state { ovs_intfs = [] }

create_missing-Refines_example :
    view (create_missing a_platform (row_1 ∷ row_2 ∷ []) (codes "base") empty_state 0).0.ovs_intfs
    ≡ or_else
        (view empty_state.ovs_intfs)
        (ports_for a_platform 0 (codes "base") (row_1 ∷ row_2 ∷ []))
create_missing-Refines_example =
    create_missing-Refines a_platform an_idle_hardware (row_1 ∷ row_2 ∷ []) (codes "base")
      empty_state 0

-- The library cannot read the description.
abbrev failing_platform : Platform
failing_platform = record a_platform { yaml_add_subsystem = λ name dir w. (negsuc 0, w) }

unreadable :
    succeeded (pm_read_yaml_files failing_platform (codes "base") (codes "/etc/hw") 0).0 ≡ false
unfolding pm_read_yaml_files
unreadable = refl

abbrev first_pass : Pmd
first_pass = record empty_state { ovs_subs = [] }

first_pass-subsystem : find (codes "base") first_pass.ovs_subs ≡ none
unfolding find
first_pass-subsystem = refl

subsys_process_failed_example :
    ((subsys_process failing_platform subsystem_row first_pass 0).0.ovs_intfs ≡ [])
    × (subsys_process failing_platform subsystem_row
          (subsys_process failing_platform subsystem_row first_pass 0).0
          5
        ≡ create_missing failing_platform
            (row_1 ∷ row_2 ∷ [])
            (codes "base")
            (subsys_process failing_platform subsystem_row first_pass 0).0
            5)
subsys_process_failed_example =
    subsys_process_failed failing_platform subsystem_row first_pass 0 5 first_pass-subsystem
      unreadable
