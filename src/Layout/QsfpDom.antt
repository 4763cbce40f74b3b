-- ===== src/Layout/QsfpDom.antt =====
-- include/pm_dom.h: the lower memory map of a QSFP module.
use ops_pmd.Base.{ℕ}
use ops_pmd.Layout.{Members, ◌▸◌, end, array, byte, field, flag, struct}
use ops_pmd.Layout.QsfpFlags.{pm_qsfp_status_indicators_t, pm_qsfp_interrupt_flags_t}

abbrev password_len : ℕ
password_len = 4

abbrev pub pm_qsfp_module_monitors_t : Members
pm_qsfp_module_monitors_t =
    byte "temp_msb"
    ▸ byte "temp_lsb"
    ▸ byte "reserved_24"
    ▸ byte "reserved_25"
    ▸ byte "voltage_msb"
    ▸ byte "voltage_lsb"
    ▸ byte "reserved_28"
    ▸ byte "reserved_29"
    ▸ byte "reserved_30"
    ▸ byte "reserved_31"
    ▸ byte "reserved_32"
    ▸ byte "reserved_33"
    ▸ end

abbrev pub pm_qsfp_channel_monitors_t : Members
pm_qsfp_channel_monitors_t =
    byte "rx1_power_msb"
    ▸ byte "rx1_power_lsb"
    ▸ byte "rx2_power_msb"
    ▸ byte "rx2_power_lsb"
    ▸ byte "rx3_power_msb"
    ▸ byte "rx3_power_lsb"
    ▸ byte "rx4_power_msb"
    ▸ byte "rx4_power_lsb"
    ▸ byte "tx1_bias_msb"
    ▸ byte "tx1_bias_lsb"
    ▸ byte "tx2_bias_msb"
    ▸ byte "tx2_bias_lsb"
    ▸ byte "tx3_bias_msb"
    ▸ byte "tx3_bias_lsb"
    ▸ byte "tx4_bias_msb"
    ▸ byte "tx4_bias_lsb"
    ▸ byte "reserved_50"
    ▸ byte "reserved_51"
    ▸ byte "reserved_52"
    ▸ byte "reserved_53"
    ▸ byte "reserved_54"
    ▸ byte "reserved_55"
    ▸ byte "reserved_56"
    ▸ byte "reserved_57"
    ▸ byte "reserved_58"
    ▸ byte "reserved_59"
    ▸ byte "reserved_60"
    ▸ byte "reserved_61"
    ▸ byte "reserved_62"
    ▸ byte "reserved_63"
    ▸ byte "reserved_64"
    ▸ byte "reserved_65"
    ▸ byte "reserved_66"
    ▸ byte "reserved_67"
    ▸ byte "reserved_68"
    ▸ byte "reserved_69"
    ▸ byte "reserved_70"
    ▸ byte "reserved_71"
    ▸ byte "reserved_72"
    ▸ byte "reserved_73"
    ▸ byte "reserved_74"
    ▸ byte "reserved_75"
    ▸ byte "reserved_76"
    ▸ byte "reserved_77"
    ▸ byte "reserved_78"
    ▸ byte "reserved_79"
    ▸ byte "reserved_80"
    ▸ byte "reserved_81"
    ▸ end

abbrev pub pm_qsfp_control_t : Members
pm_qsfp_control_t =
    flag "tx1_disable"
    ▸ flag "tx2_disable"
    ▸ flag "tx3_disable"
    ▸ flag "tx4_disable"
    ▸ flag "reserved_86_4"
    ▸ flag "reserved_86_5"
    ▸ flag "reserved_86_6"
    ▸ flag "reserved_86_7"
    ▸ flag "rx1_rate_select_lsb"
    ▸ flag "rx1_rate_select_msb"
    ▸ flag "rx2_rate_select_lsb"
    ▸ flag "rx2_rate_select_msb"
    ▸ flag "rx3_rate_select_lsb"
    ▸ flag "rx3_rate_select_msb"
    ▸ flag "rx4_rate_select_lsb"
    ▸ flag "rx4_rate_select_msb"
    ▸ flag "tx1_rate_select_lsb"
    ▸ flag "tx1_rate_select_msb"
    ▸ flag "tx2_rate_select_lsb"
    ▸ flag "tx2_rate_select_msb"
    ▸ flag "tx3_rate_select_lsb"
    ▸ flag "tx3_rate_select_msb"
    ▸ flag "tx4_rate_select_lsb"
    ▸ flag "tx4_rate_select_msb"
    ▸ byte "rx4_application_select"
    ▸ byte "rx3_application_select"
    ▸ byte "rx2_application_select"
    ▸ byte "rx1_application_select"
    ▸ flag "power_override"
    ▸ flag "power_set"
    ▸ flag "reserved_93_2"
    ▸ flag "reserved_93_3"
    ▸ flag "reserved_93_4"
    ▸ flag "reserved_93_5"
    ▸ flag "reserved_93_6"
    ▸ flag "reserved_93_7"
    ▸ byte "tx4_application_select"
    ▸ byte "tx3_application_select"
    ▸ byte "tx2_application_select"
    ▸ byte "tx1_application_select"
    ▸ end

abbrev pub pm_qsfp_module_and_channel_masks_t : Members
pm_qsfp_module_and_channel_masks_t =
    flag "masking_bit_rx1_los_indicator"
    ▸ flag "masking_bit_rx2_los_indicator"
    ▸ flag "masking_bit_rx3_los_indicator"
    ▸ flag "masking_bit_rx4_los_indicator"
    ▸ flag "masking_bit_tx1_los_indicator"
    ▸ flag "masking_bit_tx2_los_indicator"
    ▸ flag "masking_bit_tx3_los_indicator"
    ▸ flag "masking_bit_tx4_los_indicator"
    ▸ flag "masking_bit_tx1_fault_indicator"
    ▸ flag "masking_bit_tx2_fault_indicator"
    ▸ flag "masking_bit_tx3_fault_indicator"
    ▸ flag "masking_bit_tx4_fault_indicator"
    ▸ flag "reserved_101_4"
    ▸ flag "reserved_101_5"
    ▸ flag "reserved_101_6"
    ▸ flag "reserved_101_7"
    ▸ byte "reserved_102"
    ▸ flag "reserved_103_0"
    ▸ flag "reserved_103_1"
    ▸ flag "reserved_103_2"
    ▸ flag "reserved_103_3"
    ▸ flag "masking_bit_low_temp_warning"
    ▸ flag "masking_bit_high_temp_warning"
    ▸ flag "masking_bit_low_temp_alarm"
    ▸ flag "masking_bit_high_temp_alarm"
    ▸ flag "reserved_104_0"
    ▸ flag "reserved_104_1"
    ▸ flag "reserved_104_2"
    ▸ flag "reserved_104_3"
    ▸ flag "masking_bit_low_vcc_warning"
    ▸ flag "masking_bit_high_vcc_warning"
    ▸ flag "masking_bit_low_vcc_alarm"
    ▸ flag "masking_bit_high_vcc_alarm"
    ▸ byte "reserved_105"
    ▸ byte "reserved_106"
    ▸ end

abbrev pub pm_qsfp_password_change_entry_area_t : Members
pm_qsfp_password_change_entry_area_t = array "password_change_entry_area" password_len ▸ end

abbrev pub pm_qsfp_password_entry_area_t : Members
pm_qsfp_password_entry_area_t = array "password_entry_area" password_len ▸ end

abbrev pub pm_qsfp_dom_t : Members
pm_qsfp_dom_t =
    byte "indentifier"
    ▸ field "status" (struct pm_qsfp_status_indicators_t)
    ▸ field "interrupt_flags" (struct pm_qsfp_interrupt_flags_t)
    ▸ field "module_monitors" (struct pm_qsfp_module_monitors_t)
    ▸ field "channel_monitors" (struct pm_qsfp_channel_monitors_t)
    ▸ array "reserved_82" 4
    ▸ field "control" (struct pm_qsfp_control_t)
    ▸ array "reserved_98" 2
    ▸ field "module_and_channel_masks" (struct pm_qsfp_module_and_channel_masks_t)
    ▸ array "reserved_107" 12
    ▸ field "password_change_entry_area" (struct pm_qsfp_password_change_entry_area_t)
    ▸ field "password_entry_area" (struct pm_qsfp_password_entry_area_t)
    ▸ byte "page_select_btye"
    ▸ end
