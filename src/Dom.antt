-- ===== src/Dom.antt =====
-- src/pm_dom.c: `set_a2_read_request`, which decides from the serial id page whether a module has
-- diagnostics to read, and `pm_set_a2`, which turns the page of diagnostics into columns. Its body is a
-- sequence of macro calls, which is a list here; each entry is one call, in the source's order.
pub mod Assign
pub mod Memory
pub mod After
use ops_pmd.Base.{
  Bool, true, false, not, ◌&&◌, ◌||◌, Option, none, some, List, [], ◌∷◌, ℕ, if◌then◌else◌,
}
use ops_pmd.Float.{Float}
use ops_pmd.Port.{
  Column, Quantity, temperature, vcc, tx_bias, rx_power, tx_power, lane_tx_bias, lane_rx_power,
  Lane, lane_1, lane_2, lane_3, lane_4, Level, high_alarm, low_alarm, high_warning, low_warning,
  DomColumn, reading, flag, threshold, PmPort, has_connector, connector_sfp_plus,
  connector_qsfp_plus, connector_qsfp28, set_static_string, set_binary, set_float_string,
  set_bool_string,
}
use ops_pmd.Detect.{Build, unknown, ModuleType, sfp_plus, qsfp_plus, qsfp28, module_type}
use ops_pmd.SerialId.Sfp as SfpId
use ops_pmd.SerialId.Qsfp as QsfpId
use ops_pmd.A2.Sfp
use ops_pmd.A2.Qsfp
use ops_pmd.A2.{celsius, by_ten_thousandth, by_two_thousandths}

-- The four bits of an SFP+ page that allow the read.
unfoldable pub sfp_has_dom : List ℕ → Bool
sfp_has_dom page =
    SfpId.implemented_digital page
    && (SfpId.internally_calibrated page
        && (SfpId.power_measurement_type page && not (SfpId.addr_change_required page)))

unfoldable pub set_a2_read_request : List ℕ → PmPort → PmPort
set_a2_read_request page p =
    if has_connector connector_sfp_plus p
    then if sfp_has_dom page then record p { a2_read_requested = true } else p
    else if has_connector connector_qsfp_plus p || has_connector connector_qsfp28 p
    then if QsfpId.average_input_optical_power page
      then record p { a2_read_requested = true }
      else p
    else p

-- A call of SET_FLOAT_STRING or of SET_BOOL_STRING.
pub data Assignment : Type 0 where
  float_string : DomColumn → Float → Assignment
  bool_string : DomColumn → Bool → Assignment

abbrev pub assign : Assignment → PmPort → PmPort
assign (float_string c v) p = set_float_string c v p
assign (bool_string c b) p = set_bool_string c b p

unfoldable pub assign_all : List Assignment → PmPort → PmPort
assign_all [] p = p
assign_all (call ∷ calls) p = assign_all calls (assign call p)

-- The calls for an SFP+ module.
unfoldable pub sfp_assignments : List ℕ → List Assignment
sfp_assignments page =
    float_string (reading temperature) (celsius page Sfp.temperature)
    ∷ bool_string (flag temperature high_alarm) (Sfp.temp_high_alarm_flag page)
    ∷ bool_string (flag temperature low_alarm) (Sfp.temp_low_alarm_flag page)
    ∷ bool_string (flag temperature high_warning) (Sfp.temp_high_warning_flag page)
    ∷ bool_string (flag temperature low_warning) (Sfp.temp_low_warning_flag page)
    ∷ float_string (threshold temperature high_alarm) (celsius page Sfp.temp_high_alarm)
    ∷ float_string (threshold temperature low_alarm) (celsius page Sfp.temp_low_alarm)
    ∷ float_string (threshold temperature high_warning) (celsius page Sfp.temp_high_warning)
    ∷ float_string (threshold temperature low_warning) (celsius page Sfp.temp_low_warning)
    ∷ float_string (reading vcc) (by_ten_thousandth page Sfp.vcc)
    ∷ bool_string (flag vcc high_alarm) (Sfp.vcc_high_alarm_flag page)
    ∷ bool_string (flag vcc low_alarm) (Sfp.vcc_low_alarm_flag page)
    ∷ bool_string (flag vcc high_warning) (Sfp.vcc_high_warning_flag page)
    ∷ bool_string (flag vcc low_warning) (Sfp.vcc_low_warning_flag page)
    ∷ float_string (threshold vcc high_alarm) (by_ten_thousandth page Sfp.voltage_high_alarm)
    ∷ float_string (threshold vcc low_alarm) (by_ten_thousandth page Sfp.voltage_low_alarm)
    ∷ float_string (threshold vcc high_warning) (by_ten_thousandth page Sfp.voltage_high_warning)
    ∷ float_string (threshold vcc low_warning) (by_ten_thousandth page Sfp.voltage_low_warning)
    ∷ float_string (reading tx_bias) (by_two_thousandths page Sfp.tx_bias)
    ∷ bool_string (flag tx_bias high_alarm) (Sfp.tx_bias_high_alarm_flag page)
    ∷ bool_string (flag tx_bias low_alarm) (Sfp.tx_bias_low_alarm_flag page)
    ∷ bool_string (flag tx_bias high_warning) (Sfp.tx_bias_high_warning_flag page)
    ∷ bool_string (flag tx_bias low_warning) (Sfp.tx_bias_low_warning_flag page)
    ∷ float_string (threshold tx_bias high_alarm) (by_two_thousandths page Sfp.bias_high_alarm)
    ∷ float_string (threshold tx_bias low_alarm) (by_two_thousandths page Sfp.bias_low_alarm)
    ∷ float_string (threshold tx_bias high_warning) (by_two_thousandths page Sfp.bias_high_warning)
    ∷ float_string (threshold tx_bias low_warning) (by_two_thousandths page Sfp.bias_low_warning)
    ∷ float_string (reading rx_power) (by_ten_thousandth page Sfp.rx_power)
    ∷ bool_string (flag rx_power high_alarm) (Sfp.rx_pwr_high_alarm_flag page)
    ∷ bool_string (flag rx_power low_alarm) (Sfp.rx_pwr_low_alarm_flag page)
    ∷ bool_string (flag rx_power high_warning) (Sfp.rx_pwr_high_warning_flag page)
    ∷ bool_string (flag rx_power low_warning) (Sfp.rx_pwr_low_warning_flag page)
    ∷ float_string (threshold rx_power high_alarm) (by_ten_thousandth page Sfp.rx_power_high_alarm)
    ∷ float_string (threshold rx_power low_alarm) (by_ten_thousandth page Sfp.rx_power_low_alarm)
    ∷ float_string (threshold rx_power high_warning)
        (by_ten_thousandth page Sfp.rx_power_high_warning)
    ∷ float_string (threshold rx_power low_warning)
        (by_ten_thousandth page Sfp.rx_power_low_warning)
    ∷ float_string (reading tx_power) (by_ten_thousandth page Sfp.tx_power)
    ∷ bool_string (flag tx_power high_alarm) (Sfp.tx_pwr_high_alarm_flag page)
    ∷ bool_string (flag tx_power low_alarm) (Sfp.tx_pwr_low_alarm_flag page)
    ∷ bool_string (flag tx_power high_warning) (Sfp.tx_pwr_high_warning_flag page)
    ∷ bool_string (flag tx_power low_warning) (Sfp.tx_pwr_low_warning_flag page)
    ∷ float_string (threshold tx_power high_alarm) (by_ten_thousandth page Sfp.tx_power_high_alarm)
    ∷ float_string (threshold tx_power low_alarm) (by_ten_thousandth page Sfp.tx_power_low_alarm)
    ∷ float_string (threshold tx_power high_warning)
        (by_ten_thousandth page Sfp.tx_power_high_warning)
    ∷ float_string (threshold tx_power low_warning)
        (by_ten_thousandth page Sfp.tx_power_low_warning)
    ∷ []

-- The calls for a QSFP module.
unfoldable pub qsfp_assignments : List ℕ → List Assignment
qsfp_assignments page =
    float_string (reading temperature) (celsius page Qsfp.temp)
    ∷ float_string (reading vcc) (by_ten_thousandth page Qsfp.voltage)
    ∷ float_string (reading (lane_tx_bias lane_1)) (by_two_thousandths page Qsfp.tx1_bias)
    ∷ bool_string (flag (lane_tx_bias lane_1) high_alarm) (Qsfp.latched_tx1_bias_high_alarm page)
    ∷ bool_string (flag (lane_tx_bias lane_1) low_alarm) (Qsfp.latched_tx1_bias_low_alarm page)
    ∷ bool_string (flag (lane_tx_bias lane_1) high_warning)
        (Qsfp.latched_tx1_bias_high_warning page)
    ∷ bool_string (flag (lane_tx_bias lane_1) low_warning) (Qsfp.latched_tx1_bias_low_warning page)
    ∷ float_string (reading (lane_rx_power lane_1)) (by_ten_thousandth page Qsfp.rx1_power)
    ∷ bool_string (flag (lane_rx_power lane_1) high_alarm) (Qsfp.latched_rx1_power_high_alarm page)
    ∷ bool_string (flag (lane_rx_power lane_1) low_alarm) (Qsfp.latched_rx1_power_low_alarm page)
    ∷ bool_string (flag (lane_rx_power lane_1) high_warning)
        (Qsfp.latched_rx1_power_high_warning page)
    ∷ bool_string (flag (lane_rx_power lane_1) low_warning)
        (Qsfp.latched_rx1_power_low_warning page)
    ∷ float_string (reading (lane_tx_bias lane_2)) (by_two_thousandths page Qsfp.tx2_bias)
    ∷ bool_string (flag (lane_tx_bias lane_2) high_alarm) (Qsfp.latched_tx2_bias_high_alarm page)
    ∷ bool_string (flag (lane_tx_bias lane_2) low_alarm) (Qsfp.latched_tx2_bias_low_alarm page)
    ∷ bool_string (flag (lane_tx_bias lane_2) high_warning)
        (Qsfp.latched_tx2_bias_high_warning page)
    ∷ bool_string (flag (lane_tx_bias lane_2) low_warning) (Qsfp.latched_tx2_bias_low_warning page)
    ∷ float_string (reading (lane_rx_power lane_2)) (by_ten_thousandth page Qsfp.rx2_power)
    ∷ bool_string (flag (lane_rx_power lane_2) high_alarm) (Qsfp.latched_rx2_power_high_alarm page)
    ∷ bool_string (flag (lane_rx_power lane_2) low_alarm) (Qsfp.latched_rx2_power_low_alarm page)
    ∷ bool_string (flag (lane_rx_power lane_2) high_warning)
        (Qsfp.latched_rx2_power_high_warning page)
    ∷ bool_string (flag (lane_rx_power lane_2) low_warning)
        (Qsfp.latched_rx2_power_low_warning page)
    ∷ float_string (reading (lane_tx_bias lane_3)) (by_two_thousandths page Qsfp.tx3_bias)
    ∷ bool_string (flag (lane_tx_bias lane_3) high_alarm) (Qsfp.latched_tx3_bias_high_alarm page)
    ∷ bool_string (flag (lane_tx_bias lane_3) low_alarm) (Qsfp.latched_tx3_bias_low_alarm page)
    ∷ bool_string (flag (lane_tx_bias lane_3) high_warning)
        (Qsfp.latched_tx3_bias_high_warning page)
    ∷ bool_string (flag (lane_tx_bias lane_3) low_warning) (Qsfp.latched_tx3_bias_low_warning page)
    ∷ float_string (reading (lane_rx_power lane_3)) (by_ten_thousandth page Qsfp.rx3_power)
    ∷ bool_string (flag (lane_rx_power lane_3) high_alarm) (Qsfp.latched_rx3_power_high_alarm page)
    ∷ bool_string (flag (lane_rx_power lane_3) low_alarm) (Qsfp.latched_rx3_power_low_alarm page)
    ∷ bool_string (flag (lane_rx_power lane_3) high_warning)
        (Qsfp.latched_rx3_power_high_warning page)
    ∷ bool_string (flag (lane_rx_power lane_3) low_warning)
        (Qsfp.latched_rx3_power_low_warning page)
    ∷ float_string (reading (lane_tx_bias lane_4)) (by_two_thousandths page Qsfp.tx4_bias)
    ∷ bool_string (flag (lane_tx_bias lane_4) high_alarm) (Qsfp.latched_tx4_bias_high_alarm page)
    ∷ bool_string (flag (lane_tx_bias lane_4) low_alarm) (Qsfp.latched_tx4_bias_low_alarm page)
    ∷ bool_string (flag (lane_tx_bias lane_4) high_warning)
        (Qsfp.latched_tx4_bias_high_warning page)
    ∷ bool_string (flag (lane_tx_bias lane_4) low_warning) (Qsfp.latched_tx4_bias_low_warning page)
    ∷ float_string (reading (lane_rx_power lane_4)) (by_ten_thousandth page Qsfp.rx4_power)
    ∷ bool_string (flag (lane_rx_power lane_4) high_alarm) (Qsfp.latched_rx4_power_high_alarm page)
    ∷ bool_string (flag (lane_rx_power lane_4) low_alarm) (Qsfp.latched_rx4_power_low_alarm page)
    ∷ bool_string (flag (lane_rx_power lane_4) high_warning)
        (Qsfp.latched_rx4_power_high_warning page)
    ∷ bool_string (flag (lane_rx_power lane_4) low_warning)
        (Qsfp.latched_rx4_power_low_warning page)
    ∷ []

abbrev pub assignments : ModuleType → List ℕ → List Assignment
assignments sfp_plus page = sfp_assignments page
assignments qsfp_plus page = qsfp_assignments page
assignments qsfp28 page = qsfp_assignments page

unfoldable pub pm_set_a2 : Build → List ℕ → PmPort → PmPort
pm_set_a2 build page p =
    if not p.module_device.pluggable then p else elim p.module_device.connector [
      | none ↦ p
      | some _ ↦ elim (module_type p) [
        | none ↦ set_static_string Column.connector (build.connector_name unknown) p
        | some t ↦ set_binary true Column.a2 page (assign_all (assignments t page) p)
      ]
    ]
