-- ===== src/Layout/QsfpFlags.antt =====
-- include/pm_dom.h: the status and the interrupt flags of a QSFP module, bytes 1 to 21 of its lower memory map.
use ops_pmd.Layout.{Members, ◌▸◌, end, byte, flag}

abbrev pub pm_qsfp_status_indicators_t : Members
pm_qsfp_status_indicators_t =
    byte "reserved_1"
    ▸ flag "data_not_ready"
    ▸ flag "intl"
    ▸ flag "reserved_2_2"
    ▸ flag "reserved_2_3"
    ▸ flag "reserved_2_4"
    ▸ flag "reserved_2_5"
    ▸ flag "reserved_2_6"
    ▸ flag "reserved_2_7"
    ▸ end

abbrev pub pm_qsfp_interrupt_flags_t : Members
pm_qsfp_interrupt_flags_t =
    flag "latched_rx1_los_indicator"
    ▸ flag "latched_rx2_los_indicator"
    ▸ flag "latched_rx3_los_indicator"
    ▸ flag "latched_rx4_los_indicator"
    ▸ flag "latched_tx1_los_indicator"
    ▸ flag "latched_tx2_los_indicator"
    ▸ flag "latched_tx3_los_indicator"
    ▸ flag "latched_tx4_los_indicator"
    ▸ flag "latched_tx1_fault_indicator"
    ▸ flag "latched_tx2_fault_indicator"
    ▸ flag "latched_tx3_fault_indicator"
    ▸ flag "latched_tx4_fault_indicator"
    ▸ flag "reserved_4_4"
    ▸ flag "reserved_4_5"
    ▸ flag "reserved_4_6"
    ▸ flag "reserved_4_7"
    ▸ byte "reserved_5"
    ▸ flag "reserved_6_0"
    ▸ flag "reserved_6_1"
    ▸ flag "reserved_6_2"
    ▸ flag "reserved_6_3"
    ▸ flag "latched_temp_low_warning"
    ▸ flag "latched_temp_high_warning"
    ▸ flag "latched_temp_low_alarm"
    ▸ flag "latched_temp_high_alarm"
    ▸ flag "reserved_7_0"
    ▸ flag "reserved_7_1"
    ▸ flag "reserved_7_2"
    ▸ flag "reserved_7_3"
    ▸ flag "latched_vcc_low_warning"
    ▸ flag "latched_vcc_high_warning"
    ▸ flag "latched_vcc_low_alarm"
    ▸ flag "latched_vcc_high_alarm"
    ▸ byte "reserved_8"
    ▸ flag "latched_rx2_power_low_warning"
    ▸ flag "latched_rx2_power_high_warning"
    ▸ flag "latched_rx2_power_low_alarm"
    ▸ flag "latched_rx2_power_high_alarm"
    ▸ flag "latched_rx1_power_low_warning"
    ▸ flag "latched_rx1_power_high_warning"
    ▸ flag "latched_rx1_power_low_alarm"
    ▸ flag "latched_rx1_power_high_alarm"
    ▸ flag "latched_rx4_power_low_warning"
    ▸ flag "latched_rx4_power_high_warning"
    ▸ flag "latched_rx4_power_low_alarm"
    ▸ flag "latched_rx4_power_high_alarm"
    ▸ flag "latched_rx3_power_low_warning"
    ▸ flag "latched_rx3_power_high_warning"
    ▸ flag "latched_rx3_power_low_alarm"
    ▸ flag "latched_rx3_power_high_alarm"
    ▸ flag "latched_tx2_bias_low_warning"
    ▸ flag "latched_tx2_bias_high_warning"
    ▸ flag "latched_tx2_bias_low_alarm"
    ▸ flag "latched_tx2_bias_high_alarm"
    ▸ flag "latched_tx1_bias_low_warning"
    ▸ flag "latched_tx1_bias_high_warning"
    ▸ flag "latched_tx1_bias_low_alarm"
    ▸ flag "latched_tx1_bias_high_alarm"
    ▸ flag "latched_tx4_bias_low_warning"
    ▸ flag "latched_tx4_bias_high_warning"
    ▸ flag "latched_tx4_bias_low_alarm"
    ▸ flag "latched_tx4_bias_high_alarm"
    ▸ flag "latched_tx3_bias_low_warning"
    ▸ flag "latched_tx3_bias_high_warning"
    ▸ flag "latched_tx3_bias_low_alarm"
    ▸ flag "latched_tx3_bias_high_alarm"
    ▸ byte "reserved_13"
    ▸ byte "reserved_14"
    ▸ byte "reserved_15"
    ▸ byte "reserved_16"
    ▸ byte "reserved_17"
    ▸ byte "reserved_18"
    ▸ byte "reserved_19"
    ▸ byte "reserved_20"
    ▸ byte "reserved_21"
    ▸ end
