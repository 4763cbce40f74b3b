-- ===== src/Tests/Data.antt =====
-- A build, a platform and a database to run the daemon on.
use ops_pmd.Base.{
  ℕ, zero, suc, true, false, Option, none, some, List, [], ◌∷◌, CString, codes, ℤ, pos, negsuc,
  replicate, if◌then◌else◌, ◌==◌, ◌+◌,
}
use ops_pmd.Port.{
  PmPort, BitOp, YamlPort, connector_sfp_plus, connector_qsfp_plus, connector_qsfp28,
}
use ops_pmd.Detect.{
  Build, ConnectorKind, Status, supported, unrecognized, absent, qsfp_lr4, qsfp28_cwdm4, sfp_sr,
}
use ops_pmd.Platform.{Platform}
use ops_pmd.Db.{Idl, IntfRow, SubsystemRow, Smap}

abbrev kind_name : ConnectorKind → CString
kind_name qsfp_lr4 = codes "QSFP_LR4"
kind_name qsfp28_cwdm4 = codes "QSFP28_CWDM4"
kind_name sfp_sr = codes "SFP_SR"
kind_name absent = codes "absent"
kind_name _ = codes "unknown"

abbrev state_name : Status → CString
state_name supported = codes "supported"
state_name unrecognized = codes "unrecognized"

abbrev pub a_build : Build
a_build = record {
  connector_name = kind_name;
  status_name = state_name;
  technology_active = codes "active";
  technology_passive = codes "passive";
  config_map_enable = codes "enable";
  config_map_enable_true = codes "true";
  behind_vendor_name = replicate 4 37;
  behind_serial_number = replicate 2 37;
}

abbrev pub op : ℕ → BitOp
op n = record { number = n; bit_mask = 4 }

abbrev pub yaml_port : CString → CString → YamlPort
yaml_port name connector = record {
  name = name;
  pluggable = true;
  connector = some connector;
  module_eeprom = codes "eeprom";
  sfpp_mod_present = op 0;
  sfpp_tx_disable = op 1;
  qsfpp_mod_present = op 2;
  qsfpp_reset = none;
  qsfp28p_mod_present = op 3;
  qsfp28p_reset = some (op 4);
}

abbrev pub port : CString → ℕ → CString → PmPort
port name uuid connector = record {
  instance_name = name;
  uuid = uuid;
  module_device = yaml_port name connector;
  subsystem = codes "base";
  ovs_module_columns = λ _. none;
  ovs_module_dom_columns = λ _. none;
  module_info_changed = false;
  hw_enable = false;
  hw_enable_subport = true ∷ false ∷ true ∷ false ∷ [];
  present = false;
  retry = false;
  a2_read_requested = false;
  split = false;
  optical = false;
  module_data = none;
  port_enable = 0;
}

abbrev pub sfp_port : PmPort
sfp_port = port (codes "1") 11 connector_sfp_plus

abbrev pub qsfp_port : PmPort
qsfp_port = port (codes "2") 12 connector_qsfp_plus

abbrev pub qsfp28_port : PmPort
qsfp28_port = port (codes "3") 13 connector_qsfp28

-- A page of a 40G LR4 module: bit 1 of byte 3.
abbrev pub lr4_page : List ℕ
lr4_page = 13 ∷ 0 ∷ 0 ∷ 2 ∷ replicate 124 0

-- The register reads fail as often as the world says; then the register holds 1.
abbrev pub read_reg : ℕ → ℤ × ℕ × ℕ
read_reg zero = (pos 0, 1, zero)
read_reg (suc failures) = (negsuc 0, 0, failures)

abbrev pub a_platform : Platform
a_platform = record {
  build = a_build;
  World = ℕ;
  Device = Unit;
  yaml_get_port_count = λ w sub. 2;
  yaml_get_port = λ w sub i.
      if i == 0
      then yaml_port (codes "1") connector_sfp_plus
      else yaml_port (codes "2") connector_qsfp_plus;
  yaml_find_device = λ w sub name. some tt;
  yaml_add_subsystem = λ name dir w. (pos 0, w);
  yaml_parse_devices = λ name w. (pos 0, w);
  yaml_parse_ports = λ name w. (pos 0, w);
  yaml_init_devices = λ name w. w;
  i2c_reg_read = λ sub o w. read_reg w;
  i2c_reg_write = λ sub o v w. (pos 0, w);
  i2c_data_read = λ device sub offset buf w. (pos 0, lr4_page, w);
  i2c_data_write = λ device sub offset buf w. (pos 0, w);
  nanosleep = λ ns w. w;
}

-- A database with its interfaces and subsystems, and what was written to it.
pub record TestDb : Type 0 where
  pub seqno : ℕ
  pub rows : List IntfRow
  pub subs : List SubsystemRow
  pub written : List Smap

abbrev pub row_for : List IntfRow → ℕ → Option IntfRow
row_for [] uuid = none
row_for (row ∷ rows) uuid = if row.uuid == uuid then some row else row_for rows uuid

abbrev pub sub_for : List SubsystemRow → ℕ → Option SubsystemRow
sub_for [] uuid = none
sub_for (row ∷ rows) uuid = if row.uuid == uuid then some row else sub_for rows uuid

abbrev pub an_idl : Idl
an_idl = record {
  Db = TestDb;
  get_seqno = λ db. db.seqno;
  run = λ db. record db { seqno = db.seqno + 1 };
  is_lock_contended = λ db. false;
  has_lock = λ db. true;
  interface_get_for_uuid = λ db. row_for db.rows;
  subsystem_get_for_uuid = λ db. sub_for db.subs;
  interfaces = λ db. db.rows;
  subsystems = λ db. db.subs;
  daemons = λ db. [];
  set_pm_info = λ intf info db. record db { written = info ∷ db.written };
  set_cur_hw = λ row n db. db;
  txn_commit_block = λ db. db;
}

abbrev pub row_1 : IntfRow
row_1 = record { uuid = 11; name = codes "1"; hw_intf_config = (codes "enable", codes "true") ∷ [] }

abbrev pub row_2 : IntfRow
row_2 = record { uuid = 12; name = codes "2"; hw_intf_config = [] }

abbrev pub subsystem_row : SubsystemRow
subsystem_row = record {
  uuid = 7;
  name = codes "base";
  hw_desc_dir = codes "/etc/hw";
  interfaces = row_1 ∷ row_2 ∷ [];
}

abbrev pub a_db : TestDb
a_db = record { seqno = 1; rows = row_1 ∷ row_2 ∷ []; subs = subsystem_row ∷ []; written = [] }
