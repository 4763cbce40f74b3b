-- ===== src/Layout/QsfpId.antt =====
-- include/plug.h: the serial id page of a QSFP module, whose byte 0 is byte 128 of its memory.
use ops_pmd.Layout.{Members, ◌▸◌, end, array, bits, byte, field, flag, struct, union, word}
use ops_pmd.SerialId.{
  qsfp_vendor_rev_len, vendor_area_len, vendor_name_len, vendor_oui_len, vendor_pn_len,
  vendor_sn_len,
}
use ops_pmd.Layout.SfpId.{pm_date_code_t}

abbrev pub pm_qsfp_ext_indentifier_t : Members
pm_qsfp_ext_indentifier_t =
    field "reserved_129_1" (bits 2)
    ▸ flag "cdr_present_in_rx"
    ▸ flag "cdr_present_in_tx"
    ▸ flag "clei_code_present"
    ▸ flag "reserved_129_5"
    ▸ field "power_class" (bits 2)
    ▸ end

abbrev pub pm_qsfp_spec_compliance_t : Members
pm_qsfp_spec_compliance_t =
    flag "enet_40g_xlppi"
    ▸ flag "enet_40gbase_lr4"
    ▸ flag "enet_40gbase_sr4"
    ▸ flag "enet_40gbase_cr4"
    ▸ flag "enet_10gbase_sr"
    ▸ flag "enet_10gbase_lr"
    ▸ flag "enet_10gbase_lrm"
    ▸ flag "enet_extended"
    ▸ flag "oc_48_short"
    ▸ flag "oc_48_intermediate"
    ▸ flag "oc_48_long"
    ▸ flag "sonet_40g_otn"
    ▸ flag "reserved_132_4"
    ▸ flag "reserved_132_5"
    ▸ flag "reserved_132_6"
    ▸ flag "reserved_132_7"
    ▸ flag "reserved_133_0"
    ▸ flag "reserved_133_1"
    ▸ flag "reserved_133_2"
    ▸ flag "reserved_133_3"
    ▸ flag "sas_3_0g"
    ▸ flag "sas_6_0g"
    ▸ flag "reserved_133_6"
    ▸ flag "reserved_133_7"
    ▸ flag "enet_1000base_sx"
    ▸ flag "enet_1000base_lx"
    ▸ flag "enet_1000base_cx"
    ▸ flag "enet_1000base_t"
    ▸ flag "reserved_134_4"
    ▸ flag "reserved_134_5"
    ▸ flag "reserved_134_6"
    ▸ flag "reserved_134_7"
    ▸ flag "fc_electrical_inter_enclosure_el"
    ▸ flag "fc_longwave_laser_lc"
    ▸ flag "reserved_135_2"
    ▸ flag "fc_length_medium"
    ▸ flag "fc_length_long"
    ▸ flag "fc_length_intermediate"
    ▸ flag "fc_length_short"
    ▸ flag "fc_length_very_long"
    ▸ flag "reserved_136_0"
    ▸ flag "reserved_136_1"
    ▸ flag "reserved_136_2"
    ▸ flag "reserved_136_3"
    ▸ flag "fc_longwave_laser_ll"
    ▸ flag "fc_shortwave_laser_ofc_sl"
    ▸ flag "fc_shortwave_laser_sn"
    ▸ flag "fc_electrical_intra_enclosure"
    ▸ flag "fc_media_single_mode_sm"
    ▸ flag "fc_media_multi_mode_50um_om3"
    ▸ flag "fc_media_multi_mode_50m_m5"
    ▸ flag "fc_media_multi_mode_6250cm_m6"
    ▸ flag "fc_media_video_coax_tv"
    ▸ flag "fc_media_miniature_coax_mi"
    ▸ flag "fc_media_shielded_twisted_pair_tp"
    ▸ flag "fc_media_twin_axial_pair_tw"
    ▸ flag "fc_speed_100"
    ▸ flag "reserved_138_1"
    ▸ flag "fc_speed_200"
    ▸ flag "reserved_138_3"
    ▸ flag "fc_speed_400"
    ▸ flag "fc_speed_1600"
    ▸ flag "fc_speed_800"
    ▸ flag "fc_speed_1200"
    ▸ end

abbrev pub pm_qsfp_rate_select_t : Members
pm_qsfp_rate_select_t =
    flag "version_1"
    ▸ flag "reserved_141_1"
    ▸ flag "reserved_141_2"
    ▸ flag "reserved_141_3"
    ▸ flag "reserved_141_4"
    ▸ flag "reserved_141_5"
    ▸ flag "reserved_141_6"
    ▸ flag "reserved_141_7"
    ▸ end

abbrev pub pm_qsfp_device_tech_t : Members
pm_qsfp_device_tech_t =
    flag "transmitter_tunable"
    ▸ flag "apd_detector"
    ▸ flag "cooled_transmitter"
    ▸ flag "active_wavelength_control"
    ▸ field "transmitter_tech" (bits 4)
    ▸ end

abbrev pub pm_qsfp_ib_compliance_t : Members
pm_qsfp_ib_compliance_t =
    flag "sdr"
    ▸ flag "ddr"
    ▸ flag "qdr"
    ▸ flag "fdr"
    ▸ flag "edr"
    ▸ flag "reserved_164_5"
    ▸ flag "reserved_164_6"
    ▸ flag "reserved_164_7"
    ▸ end

abbrev pub copper_attenuation : Members
copper_attenuation = byte "at_2_5_ghz" ▸ byte "at_5_0_ghz" ▸ end

abbrev pub pm_qsfp_wavelength_t : Members
pm_qsfp_wavelength_t =
    field "laser_wavelength" word ▸ field "copper_attenuation" (struct copper_attenuation) ▸ end

abbrev pub pm_qsfp_options_t : Members
pm_qsfp_options_t =
    byte "ext_compliance_code"
    ▸ flag "rx_output_amplitude"
    ▸ flag "reserved_193_1"
    ▸ flag "reserved_193_2"
    ▸ flag "reserved_193_3"
    ▸ flag "reserved_193_4"
    ▸ flag "reserved_193_5"
    ▸ flag "reserved_193_6"
    ▸ flag "reserved_193_7"
    ▸ flag "tx_squelch"
    ▸ flag "tx_squelch_disable"
    ▸ flag "rx_output_disable"
    ▸ flag "rx_squelch_disable"
    ▸ flag "reserved_194_4"
    ▸ flag "reserved_194_5"
    ▸ flag "reserved_194_6"
    ▸ flag "reserved_194_7"
    ▸ flag "reserved_195_0"
    ▸ flag "loss_of_signal"
    ▸ flag "tx_squelch_pave"
    ▸ flag "tx_fault"
    ▸ flag "tx_disable"
    ▸ flag "rate_select"
    ▸ flag "memory_page_1"
    ▸ flag "memory_page_2"
    ▸ end

abbrev pub pm_qsfp_diag_monitoring_type_t : Members
pm_qsfp_diag_monitoring_type_t =
    flag "reserved_220_0"
    ▸ flag "reserved_220_1"
    ▸ flag "reserved_220_2"
    ▸ flag "average_input_optical_power"
    ▸ flag "reserved_220_4"
    ▸ flag "reserved_220_5"
    ▸ flag "reserved_220_6"
    ▸ flag "reserved_220_7"
    ▸ end

abbrev pub pm_qsfp_enhanced_options_t : Members
pm_qsfp_enhanced_options_t =
    flag "reserved_221_0"
    ▸ flag "reserved_221_1"
    ▸ flag "application_rate_selection"
    ▸ flag "rate_selection_supported"
    ▸ flag "reserved_221_4"
    ▸ flag "reserved_221_5"
    ▸ flag "reserved_221_6"
    ▸ flag "reserved_221_7"
    ▸ end

abbrev pub pm_qsfp_serial_id_t : Members
pm_qsfp_serial_id_t =
    byte "identifier"
    ▸ field "ext_identifier" (struct pm_qsfp_ext_indentifier_t)
    ▸ byte "connector"
    ▸ field "spec_compliance" (struct pm_qsfp_spec_compliance_t)
    ▸ byte "encoding"
    ▸ byte "bit_rate_nominal"
    ▸ field "rate_select" (struct pm_qsfp_rate_select_t)
    ▸ byte "length_smf_in_km"
    ▸ byte "length_om3_in_2m"
    ▸ byte "length_om2_in_m"
    ▸ byte "length_om1_in_m"
    ▸ byte "length_copper_in_m"
    ▸ field "device_tech" (struct pm_qsfp_device_tech_t)
    ▸ array "vendor_name" vendor_name_len
    ▸ field "ib_compliance" (struct pm_qsfp_ib_compliance_t)
    ▸ array "vendor_oui" vendor_oui_len
    ▸ array "vendor_part_number" vendor_pn_len
    ▸ array "vendor_revision" qsfp_vendor_rev_len
    ▸ field "wavelength" (union pm_qsfp_wavelength_t)
    ▸ field "wavelength_tolerance" word
    ▸ byte "max_case_temperature"
    ▸ byte "check_code_for_base"
    ▸ field "options" (struct pm_qsfp_options_t)
    ▸ array "vendor_serial_number" vendor_sn_len
    ▸ field "vendor_date_code" (struct pm_date_code_t)
    ▸ field "diag_monitor_type" (struct pm_qsfp_diag_monitoring_type_t)
    ▸ field "enhanced_options" (struct pm_qsfp_enhanced_options_t)
    ▸ byte "reserved_222"
    ▸ byte "check_code_for_extended"
    ▸ array "vendor_area" vendor_area_len
    ▸ end
