-- ===== src/Layout/SfpId.antt =====
-- include/plug.h: the serial id page of an SFP+ module.
use ops_pmd.Layout.{Members, ◌▸◌, end, array, bits, byte, field, flag, struct, word}
use ops_pmd.SerialId.{
  sfp_vendor_rev_len, vendor_area_len, vendor_name_len, vendor_oui_len, vendor_pn_len,
  vendor_sn_len,
}

abbrev pub pm_date_code_t : Members
pm_date_code_t = array "year" 2 ▸ array "month" 2 ▸ array "day" 2 ▸ array "lot_code" 2 ▸ end

abbrev pub pm_sfp_serial_id_transceiver_t : Members
pm_sfp_serial_id_transceiver_t =
    flag "ib_1x_copper_passive"
    ▸ flag "ib_1x_copper_active"
    ▸ flag "ib_1x_lx"
    ▸ flag "ib_1x_sx"
    ▸ flag "enet_10gbase_sr"
    ▸ flag "enet_10gbase_lr"
    ▸ flag "enet_10gbase_lrm"
    ▸ flag "enet_10gbase_er"
    ▸ flag "oc_48_short"
    ▸ flag "oc_48_intermediate"
    ▸ flag "oc_48_long"
    ▸ field "sonet_reach_specifier" (bits 2)
    ▸ flag "oc_192"
    ▸ flag "escon_smf_1310nm_laser"
    ▸ flag "escon_mmf_1310nm_led"
    ▸ flag "oc_3_multi_short"
    ▸ flag "oc_3_single_intermdiate"
    ▸ flag "oc_3_single_long"
    ▸ flag "reserved_4"
    ▸ flag "oc_12_multi_short"
    ▸ flag "oc_12_single_intermdiate"
    ▸ flag "oc_12_single_long"
    ▸ flag "reserved_3"
    ▸ flag "enet_1000base_sx"
    ▸ flag "enet_1000base_lx"
    ▸ flag "enet_1000base_cx"
    ▸ flag "enet_1000base_t"
    ▸ flag "enet_100base_lx_lx10"
    ▸ flag "enet_100base_fx"
    ▸ flag "enet_base_bx10"
    ▸ flag "enet_base_px"
    ▸ flag "fc_electrical_inter_enclosure"
    ▸ flag "fc_longwave_laser_lc"
    ▸ flag "fc_shortwave_laser_linear_rx"
    ▸ flag "fc_length_medium"
    ▸ flag "fc_length_long"
    ▸ flag "fc_length_intermediate"
    ▸ flag "fc_length_short"
    ▸ flag "fc_length_very_long"
    ▸ flag "reserved_7"
    ▸ flag "reserved_7_1"
    ▸ flag "cable_technology_passive"
    ▸ flag "cable_technology_active"
    ▸ flag "fc_longwave_laser_ll"
    ▸ flag "fc_shortwave_laser_ofc"
    ▸ flag "fc_shortwave_laser"
    ▸ flag "fc_electrical_intra_enclosure"
    ▸ flag "fc_media_single_mode"
    ▸ flag "reserved_8"
    ▸ flag "fc_media_multi_mode_5000cm"
    ▸ flag "fc_media_multi_mode_6250cm"
    ▸ flag "fc_media_video_coax"
    ▸ flag "fc_media_miniature_coax"
    ▸ flag "fc_media_shielded_twisted_pair"
    ▸ flag "fc_media_twin_axial_pair"
    ▸ flag "fc_speed_100"
    ▸ flag "reserved_11"
    ▸ flag "fc_speed_200"
    ▸ flag "fc_speed_3200"
    ▸ flag "fc_speed_400"
    ▸ flag "fc_speed_1600"
    ▸ flag "fc_speed_800"
    ▸ flag "fc_speed_1200"
    ▸ end

abbrev pub pm_sfp_options_t : Members
pm_sfp_options_t =
    flag "linear_receiver_output"
    ▸ flag "power_class"
    ▸ flag "cooled_transceiver"
    ▸ flag "retimer_or_cdr"
    ▸ flag "paging_implementation"
    ▸ flag "high_power_level_declaration"
    ▸ field "reserved_0" (bits 2)
    ▸ flag "reserved_2"
    ▸ flag "loss_of_signal"
    ▸ flag "loss_of_signal_inverted"
    ▸ flag "tx_fault"
    ▸ flag "tx_disable"
    ▸ flag "rate_select"
    ▸ flag "tunable_transmitter"
    ▸ flag "receiver_decision_threshold"
    ▸ end

abbrev pub pm_sfp_diag_monitoring_type_t : Members
pm_sfp_diag_monitoring_type_t =
    field "reserved" (bits 2)
    ▸ flag "addr_change_required"
    ▸ flag "power_measurement_type"
    ▸ flag "externally_calibrated"
    ▸ flag "internally_calibrated"
    ▸ flag "implemented_digital"
    ▸ flag "legacy"
    ▸ end

abbrev pub pm_sfp_enhanced_options_t : Members
pm_sfp_enhanced_options_t =
    flag "reserved"
    ▸ flag "sff8431_rate_select"
    ▸ flag "sff8079_appl_select"
    ▸ flag "soft_rate_select"
    ▸ flag "soft_rx_los"
    ▸ flag "soft_tx_fault"
    ▸ flag "soft_tx_disable"
    ▸ flag "alarm_warning_flags"
    ▸ end

abbrev pub pm_sfp_serial_id_t : Members
pm_sfp_serial_id_t =
    byte "identifier"
    ▸ byte "ext_identifier"
    ▸ byte "connector"
    ▸ field "transceiver" (struct pm_sfp_serial_id_transceiver_t)
    ▸ byte "encoding"
    ▸ byte "bit_rate_nominal"
    ▸ byte "rate_identifier"
    ▸ byte "length_smf_9um_in_km"
    ▸ byte "length_smf_9um_in_100m"
    ▸ byte "length_mmf_50um_om2"
    ▸ byte "length_mmf_62_5um_om1"
    ▸ byte "length_copper"
    ▸ byte "length_mmf_50um_om3"
    ▸ array "vendor_name" vendor_name_len
    ▸ byte "transceiver_2"
    ▸ array "vendor_oui" vendor_oui_len
    ▸ array "vendor_part_number" vendor_pn_len
    ▸ array "vendor_revision" sfp_vendor_rev_len
    ▸ field "laser_wavelength" word
    ▸ byte "reserved_3"
    ▸ byte "check_code_for_base"
    ▸ field "options" (struct pm_sfp_options_t)
    ▸ byte "bit_rate_max_margin"
    ▸ byte "bit_rate_min_margin"
    ▸ array "vendor_serial_number" vendor_sn_len
    ▸ field "vendor_date_code" (struct pm_date_code_t)
    ▸ field "diag_monitor_type" (struct pm_sfp_diag_monitoring_type_t)
    ▸ field "enhanced_options" (struct pm_sfp_enhanced_options_t)
    ▸ byte "sff8472_compliance"
    ▸ byte "check_code_for_extended"
    ▸ array "vendor_area" vendor_area_len
    ▸ end
