-- ===== src/Port.antt =====
-- include/pmd.h.in: the state that the daemon keeps for a port (`pm_port_t`, `struct
-- ovs_module_info`) and the macros through which all of its columns are written. The struct of the
-- columns is a function from the names of its fields; NULL is `none`.
pub mod Laws
pub mod Deleted
use ops_pmd.Base.{
  ◌+◌, ◌*◌, ℕ, ◌-◌, Bool, true, false, not, ◌||◌, Option, none, some, List, [], ◌∷◌, CString, codes,
  ◌==◌, length, if◌then◌else◌, ℤ, pos, eq_ℤ, str_eq,
}
use ops_pmd.Float.{Float, eq_long, print_float}
use ops_pmd.Format.{print_int, strtol, hex_to_ascii, speeds_from}

abbrev pub connector_sfp_plus : CString
connector_sfp_plus = codes "SFP_PLUS"

abbrev pub connector_qsfp_plus : CString
connector_qsfp_plus = codes "QSFP_PLUS"

abbrev pub connector_qsfp28 : CString
connector_qsfp28 = codes "QSFP28"

abbrev pub max_split_count : ℕ
max_split_count = 4

-- A register operation of the hardware description; `number` tells one from another.
pub record BitOp : Type 0 where
  pub number : ℕ
  pub bit_mask : ℕ

-- The fields of `YamlPort` that the daemon reads. A port without a reset line has no reset
-- operation; the other operations are followed without a test.
pub record YamlPort : Type 0 where
  pub name : CString
  pub pluggable : Bool
  pub connector : Option CString
  pub module_eeprom : CString
  pub sfpp_mod_present : BitOp
  pub sfpp_tx_disable : BitOp
  pub qsfpp_mod_present : BitOp
  pub qsfpp_reset : Option BitOp
  pub qsfp28p_mod_present : BitOp
  pub qsfp28p_reset : Option BitOp

-- The fields of `struct ovs_module_info`.
pub data Column : Type 0 where
  cable_length cable_technology connector connector_status supported_speeds max_speed : Column
  power_mode vendor_name vendor_oui vendor_part_number vendor_revision : Column
  vendor_serial_number a0 a0_uppers a2 : Column

abbrev pub index : Column → ℕ
index Column.cable_length = 0
index Column.cable_technology = 1
index Column.connector = 2
index Column.connector_status = 3
index Column.supported_speeds = 4
index Column.max_speed = 5
index Column.power_mode = 6
index Column.vendor_name = 7
index Column.vendor_oui = 8
index Column.vendor_part_number = 9
index Column.vendor_revision = 10
index Column.vendor_serial_number = 11
index Column.a0 = 12
index Column.a0_uppers = 13
index Column.a2 = 14

abbrev pub Columns : Type 0
Columns = Column → Option CString

-- `columns.c = v`
abbrev pub put : Column → Option CString → Columns → Columns
put c v columns d = if index c == index d then v else columns d

pub data Lane : Type 0 where
  lane_1 lane_2 lane_3 lane_4 : Lane

-- What is measured of a module: for the whole module, or for one of the four lanes of a QSFP.
pub data Quantity : Type 0 where
  temperature vcc tx_bias rx_power tx_power : Quantity
  lane_tx_bias lane_rx_power : Lane → Quantity

pub data Level : Type 0 where
  high_alarm low_alarm high_warning low_warning : Level

-- The fields of `struct ovs_module_dom_info`: `tx_bias`, `tx_bias_high_alarm`,
-- `tx_bias_high_alarm_threshold` are the reading, a flag and a threshold of one quantity; `tx1_bias` is
-- that of lane 1.
pub data DomColumn : Type 0 where
  reading : Quantity → DomColumn
  flag threshold : Quantity → Level → DomColumn

abbrev pub DomColumns : Type 0
DomColumns = DomColumn → Option CString

abbrev pub lane_index : Lane → ℕ
lane_index lane_1 = 0
lane_index lane_2 = 1
lane_index lane_3 = 2
lane_index lane_4 = 3

abbrev quantity_index : Quantity → ℕ
quantity_index temperature = 0
quantity_index vcc = 1
quantity_index tx_bias = 2
quantity_index rx_power = 3
quantity_index tx_power = 4
quantity_index (lane_tx_bias lane) = 5 + lane_index lane
quantity_index (lane_rx_power lane) = 9 + lane_index lane

abbrev level_index : Level → ℕ
level_index high_alarm = 0
level_index low_alarm = 1
level_index high_warning = 2
level_index low_warning = 3

abbrev pub dom_index : DomColumn → ℕ
dom_index (reading q) = 9 * quantity_index q
dom_index (flag q l) = 9 * quantity_index q + 1 + level_index l
dom_index (threshold q l) = 9 * quantity_index q + 5 + level_index l

abbrev pub put_dom : DomColumn → Option CString → DomColumns → DomColumns
put_dom c v columns d = if dom_index c == dom_index d then v else columns d

-- `pm_port_t`. The last two fields exist only in a build for simulation.
pub record PmPort : Type 0 where
  pub instance_name : CString
  pub uuid : ℕ
  pub module_device : YamlPort
  pub subsystem : CString
  pub ovs_module_columns : Columns
  pub ovs_module_dom_columns : DomColumns
  pub module_info_changed : Bool
  pub hw_enable : Bool
  pub hw_enable_subport : List Bool
  pub present : Bool
  pub retry : Bool
  pub a2_read_requested : Bool
  pub split : Bool
  pub optical : Bool
  pub module_data : Option (List ℕ)
  pub port_enable : ℕ

-- A write of a column that marks the port.
abbrev pub write : Column → Option CString → PmPort → PmPort
write c v p = record p {
  ovs_module_columns = put c v p.ovs_module_columns;
  module_info_changed = true;
}

abbrev pub write_dom : DomColumn → Option CString → PmPort → PmPort
write_dom c v p = record p {
  ovs_module_dom_columns = put_dom c v p.ovs_module_dom_columns;
  module_info_changed = true;
}

-- `strcmp(port->module_device->connector, name) == 0`; the source has a pointer that is not NULL.
abbrev pub has_connector : CString → PmPort → Bool
has_connector name p = elim p.module_device.connector [ none ↦ false | some c ↦ str_eq c name ]

unfoldable pub set_static_string : Column → CString → PmPort → PmPort
set_static_string c v p = write c (some v) p

unfoldable pub set_string : Column → CString → PmPort → PmPort
set_string c v p = elim (p.ovs_module_columns c) [
  | none ↦ write c (some v) p
  | some old ↦ if not (length old == length v) || not (str_eq old v) then write c (some v) p else p
]

-- The value is a non-negative `int` at every use.
unfoldable pub set_int_string : Column → ℕ → PmPort → PmPort
set_int_string c n p = elim (p.ovs_module_columns c) [
  | none ↦ write c (some (print_int n)) p
  | some old ↦ if not (eq_ℤ (strtol old) (pos n)) then write c (some (print_int n)) p else p
]

-- `allocated` is the outcome of the `malloc` in `hex_to_ascii`.
unfoldable pub set_binary : Bool → Column → List ℕ → PmPort → PmPort
set_binary allocated c bytes p = write c (hex_to_ascii allocated bytes) p

-- A `long` is compared with the value as a `float`.
unfoldable pub set_float_string : DomColumn → Float → PmPort → PmPort
set_float_string c v p = elim (p.ovs_module_dom_columns c) [
  | none ↦ write_dom c (some (print_float v)) p
  | some old ↦ if not (eq_long (strtol old) v) then write_dom c (some (print_float v)) p else p
]

unfoldable pub set_flag_string : DomColumn → CString → PmPort → PmPort
set_flag_string c v p = elim (p.ovs_module_dom_columns c) [
  | none ↦ write_dom c (some v) p
  | some old ↦
      if not (length old == length v) || not (str_eq old v) then write_dom c (some v) p else p
]

unfoldable pub set_bool_string : DomColumn → Bool → PmPort → PmPort
set_bool_string c b p =
    if b then set_flag_string c (codes "On") p else set_flag_string c (codes "Off") p

-- `DELETE`, for columns that hold static strings.
unfoldable pub delete : Column → PmPort → PmPort
delete c p = elim (p.ovs_module_columns c) [ none ↦ p | some old ↦ write c none p ]

-- `DELETE_FREE`, for columns that hold allocated strings; the freed string is not used again.
unfoldable pub delete_free : Column → PmPort → PmPort
delete_free c p = elim (p.ovs_module_columns c) [ none ↦ p | some old ↦ write c none p ]

-- `set_supported_speeds(port, count, ...)`
unfoldable pub set_supported_speeds : List ℕ → PmPort → PmPort
set_supported_speeds speeds p = write Column.supported_speeds (speeds_from none speeds) p

-- `pm_delete_all_data`
unfoldable pub pm_delete_all_data : PmPort → PmPort
pm_delete_all_data p = delete_free Column.a0_uppers (
    delete_free Column.a2 (
      delete_free Column.a0 (
        delete_free Column.vendor_serial_number (
          delete_free Column.vendor_revision (
            delete_free Column.vendor_part_number (
              delete_free Column.vendor_oui (
                delete_free Column.vendor_name (
                  delete Column.power_mode (
                    delete_free Column.max_speed (
                      delete_free Column.cable_length (
                        delete Column.cable_technology (
                          delete_free Column.supported_speeds
                            (delete Column.connector_status p)))))))))))))
