-- ===== src/Db.antt =====
-- src/ovsdb_access.c: the ports of the daemon against the database.
-- The database is reached through the OVSDB IDL, which is a parameter: `Idl` has the calls that the
-- daemon makes, and the rows that they return.
pub mod Loop
pub mod Publish
pub mod Sync
pub mod Valid
pub mod Keep
pub mod Gone
pub mod Wanted
pub mod Enable
pub mod Yaml
pub mod Create
pub mod Refine
pub mod Failure
use ops_pmd.Base.{
  ℕ, zero, suc, ◌+◌, Bool, true, false, not, Option, none, some, List, [], ◌∷◌, ◌++◌, CString,
  codes, ◌==◌, if◌then◌else◌, str_eq, find, add, delete_first, modify_first, ℤ, succeeded,
  replicate,
}
use ops_pmd.Port.{Column, PmPort, YamlPort, max_split_count}
use ops_pmd.Detect.{Build}
use ops_pmd.Platform.{Platform}
use ops_pmd.Config.{pm_get_yaml_port, pm_read_yaml_files}
use ops_pmd.Plug.{pm_configure_port, pm_clear_reset}

abbrev pub Smap : Type 0
Smap = List (CString × CString)

-- `struct ovsrec_interface`, `struct ovsrec_subsystem`, `struct ovsrec_daemon`
pub record IntfRow : Type 0 where
  pub uuid : ℕ
  pub name : CString
  pub hw_intf_config : Smap

pub record SubsystemRow : Type 0 where
  pub uuid : ℕ
  pub name : CString
  pub hw_desc_dir : CString
  pub interfaces : List IntfRow

pub record DaemonRow : Type 0 where
  pub uuid : ℕ
  pub name : CString

pub record Idl : Type 1 where
  pub Db : Type 0
  pub get_seqno : Db → ℕ
  pub run : Db → Db
  pub is_lock_contended : Db → Bool
  pub has_lock : Db → Bool
  pub interface_get_for_uuid : Db → ℕ → Option IntfRow
  pub subsystem_get_for_uuid : Db → ℕ → Option SubsystemRow
  pub interfaces : Db → List IntfRow
  pub subsystems : Db → List SubsystemRow
  pub daemons : Db → List DaemonRow
  pub set_pm_info : IntfRow → Smap → Db → Db
  pub set_cur_hw : DaemonRow → ℕ → Db → Db
  pub txn_commit_block : Db → Db

-- The state of the file: `ovs_intfs`, `ovs_subs`, `idl_seqno` and `cur_hw_set`.
pub record Pmd : Type 0 where
  pub ovs_intfs : List (CString × PmPort)
  pub ovs_subs : List (CString × ℕ)
  pub idl_seqno : ℕ
  pub cur_hw_set : Bool

-- `a == b` on `bool`
abbrev pub same : Bool → Bool → Bool
same true b = b
same false b = not b

-- The value of "enable" is the text for true.
unfoldable pub get_hw_enable : Build → IntfRow → Bool
get_hw_enable build intf = elim (find build.config_map_enable intf.hw_intf_config) [
  | none ↦ false
  | some v ↦ str_eq build.config_map_enable_true v
]

-- The structure as `ovsdb_if_intf_create` fills it: `calloc` leaves the rest empty.
unfoldable pub new_port : Build → IntfRow → CString → YamlPort → PmPort
new_port build intf sub_name yaml_port = record {
  instance_name = intf.name;
  uuid = intf.uuid;
  module_device = yaml_port;
  subsystem = sub_name;
  ovs_module_columns = λ _. none;
  ovs_module_dom_columns = λ _. none;
  module_info_changed = false;
  hw_enable = get_hw_enable build intf;
  hw_enable_subport = replicate max_split_count false;
  present = false;
  retry = false;
  a2_read_requested = false;
  split = false;
  optical = false;
  module_data = none;
  port_enable = 0;
}

module _ (P : Platform) where
  open P use {World}

  unfoldable pub intf_create : IntfRow → CString → Pmd → World → Pmd × World
  intf_create intf sub_name st w = elim (pm_get_yaml_port P w sub_name intf.name) [
    | none ↦ (st, w)
    | some yaml_port ↦
        if not yaml_port.pluggable
        then (st, w)
        else let port = new_port P.build intf sub_name yaml_port in
          (
            record st { ovs_intfs = add port.instance_name port st.ovs_intfs },
            pm_clear_reset P port (pm_configure_port P port w),
          )
  ]

  unfoldable pub intf_modify : IntfRow → PmPort → World → PmPort × World
  intf_modify intf p w =
      let hw_enable = get_hw_enable P.build intf in
      if same p.hw_enable hw_enable
      then (p, w)
      else let p' : PmPort = record p { hw_enable = hw_enable } in (p', pm_configure_port P p' w)

  unfoldable pub intf_configure : IntfRow → Pmd → World → World
  intf_configure intf st w = elim (find intf.name st.ovs_intfs) [
    | none ↦ w
    | some p ↦ pm_configure_port P p w
  ]

  -- The loop over the interfaces of a subsystem.
  unfoldable pub create_missing : List IntfRow → CString → Pmd → World → Pmd × World
  create_missing [] sub_name st w = (st, w)
  create_missing (intf ∷ intfs) sub_name st w =
      let (st', w') : Pmd × World = elim (find intf.name st.ovs_intfs) [
        | none ↦ intf_create intf sub_name st w
        | some _ ↦ (st, w)
      ] in
      create_missing intfs sub_name st' w'

  unfoldable pub subsys_process : SubsystemRow → Pmd → World → Pmd × World
  subsys_process sub st w = elim (find sub.name st.ovs_subs) [
    | some _ ↦ create_missing sub.interfaces sub.name st w
    | none ↦
        let st' : Pmd = record st { ovs_subs = add sub.name sub.uuid st.ovs_subs } in
        let (rc, w') = pm_read_yaml_files P sub.name sub.hw_desc_dir w in
        if not (succeeded rc) then (st', w') else create_missing sub.interfaces sub.name st' w'
  ]

  -- The loop over the subsystems of the database.
  unfoldable pub subsystems_process : List SubsystemRow → Pmd → World → Pmd × World
  subsystems_process [] st w = (st, w)
  subsystems_process (sub ∷ subs) st w =
      let (st', w') = subsys_process sub st w in subsystems_process subs st' w'

  -- The loop over the interfaces of the database, for changes of their configuration.
  unfoldable pub intfs_modify :
      List IntfRow → List (CString × PmPort) → World → List (CString × PmPort) × World
  intfs_modify [] ports w = (ports, w)
  intfs_modify (intf ∷ intfs) ports w = elim (find intf.name ports) [
    | none ↦ intfs_modify intfs ports w
    | some p ↦
        let (p', w') = intf_modify intf p w in
        intfs_modify intfs (modify_first intf.name (λ _. p') ports) w'
  ]

  unfoldable pub intfs_configure : List IntfRow → Pmd → World → World
  intfs_configure [] st w = w
  intfs_configure (intf ∷ intfs) st w = intfs_configure intfs st (intf_configure intf st w)
