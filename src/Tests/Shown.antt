-- ===== src/Tests/Shown.antt =====
-- The first round of a daemon that starts with no ports, on a database with one subsystem.
use ops_pmd.Base.{str_eq, Memᴰ, codes, refl, false, [], find, inr}
use ops_pmd.Port.{connector_qsfp_plus}
use ops_pmd.Config.{find_yaml_port, pm_get_yaml_port, pm_read_yaml_files}
use ops_pmd.Db.{subsystems_process}
use ops_pmd.Db.Loop.{drop_gone, delete_ports, delete_subsystems}
use ops_pmd.Daemon.{State, scan}
use ops_pmd.Daemon.Serves.{IsShown, scan-IsShown}
use ops_pmd.Tests.Data.{yaml_port, row_2, a_platform, subsystem_row}
use ops_pmd.Tests.Database.{an_idle_hardware}
use ops_pmd.Tests.Rounds.{a_store_idl, a_store, a_column}

abbrev blank : State a_store_idl a_platform
blank = record {
  pmd = record { ovs_intfs = []; ovs_subs = []; idl_seqno = 0; cur_hw_set = false };
  db = a_store;
  world = 0;
}

scan-IsShown_example :
    IsShown a_platform a_store_idl a_column (scan a_store_idl a_platform blank) row_2
unfolding subsystems_process drop_gone delete_ports delete_subsystems find pm_read_yaml_files
    pm_get_yaml_port find_yaml_port str_eq
scan-IsShown_example =
    scan-IsShown a_platform a_store_idl a_column blank [] [] subsystem_row 0 row_2
      (yaml_port (codes "2") connector_qsfp_plus) an_idle_hardware refl refl
      (inr (refl, refl, refl)) ((refl, (refl, tt)), tt) (record { kept = tt; unique = tt }) tt
      (Memᴰ.tail (Memᴰ.head refl)) refl refl
