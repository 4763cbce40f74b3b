-- ===== src/Layout/SfpDom.antt =====
-- include/pm_dom.h: the page of diagnostics of an SFP+ module.
use ops_pmd.Base.{ℕ}
use ops_pmd.Layout.{Members, ◌▸◌, end, array, byte, field, flag, struct}

abbrev single_precision_len : ℕ
single_precision_len = 4

abbrev fixed_decimal_len : ℕ
fixed_decimal_len = 2

abbrev pub pm_sfp_status_control_bits_t : Members
pm_sfp_status_control_bits_t =
    flag "data_ready_bar"
    ▸ flag "los"
    ▸ flag "tx_fault"
    ▸ flag "soft_rx_rate_select"
    ▸ flag "rx_rate_select_state"
    ▸ flag "reserved_110_5"
    ▸ flag "soft_tx_disable"
    ▸ flag "tx_disable_status"
    ▸ byte "reserved_111"
    ▸ end

abbrev pub pm_sfp_alarm_warning_bits_t : Members
pm_sfp_alarm_warning_bits_t =
    flag "tx_pwr_low_alarm"
    ▸ flag "tx_pwr_high_alarm"
    ▸ flag "tx_bias_low_alarm"
    ▸ flag "tx_bias_high_alarm"
    ▸ flag "vcc_low_alarm"
    ▸ flag "vcc_high_alarm"
    ▸ flag "temp_low_alarm"
    ▸ flag "temp_high_alarm"
    ▸ flag "reserved_113_0"
    ▸ flag "reserved_113_1"
    ▸ flag "reserved_113_2"
    ▸ flag "reserved_113_3"
    ▸ flag "reserved_113_4"
    ▸ flag "reserved_113_5"
    ▸ flag "rx_pwr_low_alarm"
    ▸ flag "rx_pwr_high_alarm"
    ▸ byte "reserved_114"
    ▸ byte "reserved_115"
    ▸ flag "tx_pwr_low_warning"
    ▸ flag "tx_pwr_high_warning"
    ▸ flag "tx_bias_low_warning"
    ▸ flag "tx_bias_high_warning"
    ▸ flag "vcc_low_warning"
    ▸ flag "vcc_high_warning"
    ▸ flag "temp_low_warning"
    ▸ flag "temp_high_warning"
    ▸ flag "reserved_117_0"
    ▸ flag "reserved_117_1"
    ▸ flag "reserved_117_2"
    ▸ flag "reserved_117_3"
    ▸ flag "reserved_117_4"
    ▸ flag "reserved_117_5"
    ▸ flag "rx_pwr_low_warning"
    ▸ flag "rx_pwr_high_warning"
    ▸ byte "reserved_118"
    ▸ byte "reserved_119"
    ▸ end

abbrev pub pm_sfp_password_t : Members
pm_sfp_password_t =
    byte "reserved_120"
    ▸ byte "reserved_121"
    ▸ byte "reserved_122"
    ▸ byte "password_byte_3"
    ▸ byte "password_byte_2"
    ▸ byte "password_byte_1"
    ▸ byte "password_byte_0"
    ▸ end

abbrev pub pm_sfp_dom_t : Members
pm_sfp_dom_t =
    byte "temp_high_alarm_msb"
    ▸ byte "temp_high_alarm_lsb"
    ▸ byte "temp_low_alarm_msb"
    ▸ byte "temp_low_alarm_lsb"
    ▸ byte "temp_high_warning_msb"
    ▸ byte "temp_high_warning_lsb"
    ▸ byte "temp_low_warning_msb"
    ▸ byte "temp_low_warning_lsb"
    ▸ byte "voltage_high_alarm_msb"
    ▸ byte "voltage_high_alarm_lsb"
    ▸ byte "voltage_low_alarm_msb"
    ▸ byte "voltage_low_alarm_lsb"
    ▸ byte "voltage_high_warning_msb"
    ▸ byte "voltage_high_warning_lsb"
    ▸ byte "voltage_low_warning_msb"
    ▸ byte "voltage_low_warning_lsb"
    ▸ byte "bias_high_alarm_msb"
    ▸ byte "bias_high_alarm_lsb"
    ▸ byte "bias_low_alarm_msb"
    ▸ byte "bias_low_alarm_lsb"
    ▸ byte "bias_high_warning_msb"
    ▸ byte "bias_high_warning_lsb"
    ▸ byte "bias_low_warning_msb"
    ▸ byte "bias_low_warning_lsb"
    ▸ byte "tx_power_high_alarm_msb"
    ▸ byte "tx_power_high_alarm_lsb"
    ▸ byte "tx_power_low_alarm_msb"
    ▸ byte "tx_power_low_alarm_lsb"
    ▸ byte "tx_power_high_warning_msb"
    ▸ byte "tx_power_high_warning_lsb"
    ▸ byte "tx_power_low_warning_msb"
    ▸ byte "tx_power_low_warning_lsb"
    ▸ byte "rx_power_high_alarm_msb"
    ▸ byte "rx_power_high_alarm_lsb"
    ▸ byte "rx_power_low_alarm_msb"
    ▸ byte "rx_power_low_alarm_lsb"
    ▸ byte "rx_power_high_warning_msb"
    ▸ byte "rx_power_high_warning_lsb"
    ▸ byte "rx_power_low_warning_msb"
    ▸ byte "rx_power_low_warning_lsb"
    ▸ byte "reserved_40"
    ▸ byte "reserved_41"
    ▸ byte "reserved_42"
    ▸ byte "reserved_43"
    ▸ byte "reserved_44"
    ▸ byte "reserved_45"
    ▸ byte "reserved_46"
    ▸ byte "reserved_47"
    ▸ byte "reserved_48"
    ▸ byte "reserved_49"
    ▸ byte "reserved_50"
    ▸ byte "reserved_51"
    ▸ byte "reserved_52"
    ▸ byte "reserved_53"
    ▸ byte "reserved_54"
    ▸ byte "reserved_55"
    ▸ array "rx_pwr4" single_precision_len
    ▸ array "rx_pwr3" single_precision_len
    ▸ array "rx_pwr2" single_precision_len
    ▸ array "rx_pwr1" single_precision_len
    ▸ array "rx_pwr0" single_precision_len
    ▸ array "current_tx_slope" fixed_decimal_len
    ▸ array "current_tx_offset" fixed_decimal_len
    ▸ array "power_tx_slope" fixed_decimal_len
    ▸ array "power_tx_offset" fixed_decimal_len
    ▸ array "temperature_slope" fixed_decimal_len
    ▸ array "temperature_offset" fixed_decimal_len
    ▸ array "voltage_slope" fixed_decimal_len
    ▸ array "voltage_offset" fixed_decimal_len
    ▸ byte "reserved_92"
    ▸ byte "reserved_93"
    ▸ byte "reserved_94"
    ▸ byte "checksum"
    ▸ byte "temperature_msb"
    ▸ byte "temperature_lsb"
    ▸ byte "vcc_msb"
    ▸ byte "vcc_lsb"
    ▸ byte "tx_bias_msb"
    ▸ byte "tx_bias_lsb"
    ▸ byte "tx_power_msb"
    ▸ byte "tx_power_lsb"
    ▸ byte "rx_power_msb"
    ▸ byte "rx_power_lsb"
    ▸ byte "reserved_106"
    ▸ byte "reserved_107"
    ▸ byte "reserved_108"
    ▸ byte "reserved_109"
    ▸ field "status_control_bits" (struct pm_sfp_status_control_bits_t)
    ▸ field "alarm_warning_bits" (struct pm_sfp_alarm_warning_bits_t)
    ▸ field "password" (struct pm_sfp_password_t)
    ▸ byte "eeprom_select"
    ▸ end
