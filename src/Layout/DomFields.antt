-- ===== src/Layout/DomFields.antt =====
-- include/pm_dom.h: the members of the pages of diagnostics that the daemon reads, each with the model's way to read it.
use ops_pmd.Base.{[], ◌∷◌, ◌++◌, codes}
use ops_pmd.Layout.Pages.{Fields, inside}
use ops_pmd.A2.Sfp as A2Sfp
use ops_pmd.A2.Qsfp as A2Qsfp

abbrev pub sfp_dom_fields : Fields
sfp_dom_fields = record {
  flags = inside (codes "alarm_warning_bits" ∷ []) (
      ("tx_pwr_low_alarm", A2Sfp.tx_pwr_low_alarm_flag)
      ∷ ("tx_pwr_high_alarm", A2Sfp.tx_pwr_high_alarm_flag)
      ∷ ("tx_bias_low_alarm", A2Sfp.tx_bias_low_alarm_flag)
      ∷ ("tx_bias_high_alarm", A2Sfp.tx_bias_high_alarm_flag)
      ∷ ("vcc_low_alarm", A2Sfp.vcc_low_alarm_flag)
      ∷ ("vcc_high_alarm", A2Sfp.vcc_high_alarm_flag)
      ∷ ("temp_low_alarm", A2Sfp.temp_low_alarm_flag)
      ∷ ("temp_high_alarm", A2Sfp.temp_high_alarm_flag)
      ∷ ("rx_pwr_low_alarm", A2Sfp.rx_pwr_low_alarm_flag)
      ∷ ("rx_pwr_high_alarm", A2Sfp.rx_pwr_high_alarm_flag)
      ∷ ("tx_pwr_low_warning", A2Sfp.tx_pwr_low_warning_flag)
      ∷ ("tx_pwr_high_warning", A2Sfp.tx_pwr_high_warning_flag)
      ∷ ("tx_bias_low_warning", A2Sfp.tx_bias_low_warning_flag)
      ∷ ("tx_bias_high_warning", A2Sfp.tx_bias_high_warning_flag)
      ∷ ("vcc_low_warning", A2Sfp.vcc_low_warning_flag)
      ∷ ("vcc_high_warning", A2Sfp.vcc_high_warning_flag)
      ∷ ("temp_low_warning", A2Sfp.temp_low_warning_flag)
      ∷ ("temp_high_warning", A2Sfp.temp_high_warning_flag)
      ∷ ("rx_pwr_low_warning", A2Sfp.rx_pwr_low_warning_flag)
      ∷ ("rx_pwr_high_warning", A2Sfp.rx_pwr_high_warning_flag)
      ∷ []);
  byte_fields = [];
  arrays = [];
  words = inside [] (
      ("temp_high_alarm", A2Sfp.temp_high_alarm)
      ∷ ("temp_low_alarm", A2Sfp.temp_low_alarm)
      ∷ ("temp_high_warning", A2Sfp.temp_high_warning)
      ∷ ("temp_low_warning", A2Sfp.temp_low_warning)
      ∷ ("voltage_high_alarm", A2Sfp.voltage_high_alarm)
      ∷ ("voltage_low_alarm", A2Sfp.voltage_low_alarm)
      ∷ ("voltage_high_warning", A2Sfp.voltage_high_warning)
      ∷ ("voltage_low_warning", A2Sfp.voltage_low_warning)
      ∷ ("bias_high_alarm", A2Sfp.bias_high_alarm)
      ∷ ("bias_low_alarm", A2Sfp.bias_low_alarm)
      ∷ ("bias_high_warning", A2Sfp.bias_high_warning)
      ∷ ("bias_low_warning", A2Sfp.bias_low_warning)
      ∷ ("tx_power_high_alarm", A2Sfp.tx_power_high_alarm)
      ∷ ("tx_power_low_alarm", A2Sfp.tx_power_low_alarm)
      ∷ ("tx_power_high_warning", A2Sfp.tx_power_high_warning)
      ∷ ("tx_power_low_warning", A2Sfp.tx_power_low_warning)
      ∷ ("rx_power_high_alarm", A2Sfp.rx_power_high_alarm)
      ∷ ("rx_power_low_alarm", A2Sfp.rx_power_low_alarm)
      ∷ ("rx_power_high_warning", A2Sfp.rx_power_high_warning)
      ∷ ("rx_power_low_warning", A2Sfp.rx_power_low_warning)
      ∷ ("temperature", A2Sfp.temperature)
      ∷ ("vcc", A2Sfp.vcc)
      ∷ ("tx_bias", A2Sfp.tx_bias)
      ∷ ("tx_power", A2Sfp.tx_power)
      ∷ ("rx_power", A2Sfp.rx_power)
      ∷ []);
}

abbrev pub qsfp_dom_fields : Fields
qsfp_dom_fields = record {
  flags = inside (codes "interrupt_flags" ∷ []) (
      ("latched_rx2_power_low_warning", A2Qsfp.latched_rx2_power_low_warning)
      ∷ ("latched_rx2_power_high_warning", A2Qsfp.latched_rx2_power_high_warning)
      ∷ ("latched_rx2_power_low_alarm", A2Qsfp.latched_rx2_power_low_alarm)
      ∷ ("latched_rx2_power_high_alarm", A2Qsfp.latched_rx2_power_high_alarm)
      ∷ ("latched_rx1_power_low_warning", A2Qsfp.latched_rx1_power_low_warning)
      ∷ ("latched_rx1_power_high_warning", A2Qsfp.latched_rx1_power_high_warning)
      ∷ ("latched_rx1_power_low_alarm", A2Qsfp.latched_rx1_power_low_alarm)
      ∷ ("latched_rx1_power_high_alarm", A2Qsfp.latched_rx1_power_high_alarm)
      ∷ ("latched_rx4_power_low_warning", A2Qsfp.latched_rx4_power_low_warning)
      ∷ ("latched_rx4_power_high_warning", A2Qsfp.latched_rx4_power_high_warning)
      ∷ ("latched_rx4_power_low_alarm", A2Qsfp.latched_rx4_power_low_alarm)
      ∷ ("latched_rx4_power_high_alarm", A2Qsfp.latched_rx4_power_high_alarm)
      ∷ ("latched_rx3_power_low_warning", A2Qsfp.latched_rx3_power_low_warning)
      ∷ ("latched_rx3_power_high_warning", A2Qsfp.latched_rx3_power_high_warning)
      ∷ ("latched_rx3_power_low_alarm", A2Qsfp.latched_rx3_power_low_alarm)
      ∷ ("latched_rx3_power_high_alarm", A2Qsfp.latched_rx3_power_high_alarm)
      ∷ ("latched_tx2_bias_low_warning", A2Qsfp.latched_tx2_bias_low_warning)
      ∷ ("latched_tx2_bias_high_warning", A2Qsfp.latched_tx2_bias_high_warning)
      ∷ ("latched_tx2_bias_low_alarm", A2Qsfp.latched_tx2_bias_low_alarm)
      ∷ ("latched_tx2_bias_high_alarm", A2Qsfp.latched_tx2_bias_high_alarm)
      ∷ ("latched_tx1_bias_low_warning", A2Qsfp.latched_tx1_bias_low_warning)
      ∷ ("latched_tx1_bias_high_warning", A2Qsfp.latched_tx1_bias_high_warning)
      ∷ ("latched_tx1_bias_low_alarm", A2Qsfp.latched_tx1_bias_low_alarm)
      ∷ ("latched_tx1_bias_high_alarm", A2Qsfp.latched_tx1_bias_high_alarm)
      ∷ ("latched_tx4_bias_low_warning", A2Qsfp.latched_tx4_bias_low_warning)
      ∷ ("latched_tx4_bias_high_warning", A2Qsfp.latched_tx4_bias_high_warning)
      ∷ ("latched_tx4_bias_low_alarm", A2Qsfp.latched_tx4_bias_low_alarm)
      ∷ ("latched_tx4_bias_high_alarm", A2Qsfp.latched_tx4_bias_high_alarm)
      ∷ ("latched_tx3_bias_low_warning", A2Qsfp.latched_tx3_bias_low_warning)
      ∷ ("latched_tx3_bias_high_warning", A2Qsfp.latched_tx3_bias_high_warning)
      ∷ ("latched_tx3_bias_low_alarm", A2Qsfp.latched_tx3_bias_low_alarm)
      ∷ ("latched_tx3_bias_high_alarm", A2Qsfp.latched_tx3_bias_high_alarm)
      ∷ []);
  byte_fields = [];
  arrays = [];
  words =
      inside (codes "module_monitors" ∷ [])
        (("temp", A2Qsfp.temp) ∷ ("voltage", A2Qsfp.voltage) ∷ [])
      ++ inside (codes "channel_monitors" ∷ []) (
          ("rx1_power", A2Qsfp.rx1_power)
          ∷ ("rx2_power", A2Qsfp.rx2_power)
          ∷ ("rx3_power", A2Qsfp.rx3_power)
          ∷ ("rx4_power", A2Qsfp.rx4_power)
          ∷ ("tx1_bias", A2Qsfp.tx1_bias)
          ∷ ("tx2_bias", A2Qsfp.tx2_bias)
          ∷ ("tx3_bias", A2Qsfp.tx3_bias)
          ∷ ("tx4_bias", A2Qsfp.tx4_bias)
          ∷ []);
}
