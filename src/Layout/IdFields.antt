-- ===== src/Layout/IdFields.antt =====
-- include/plug.h: the members of the serial id pages that the daemon reads, each with the model's way to read it.
use ops_pmd.Base.{[], ◌∷◌, ◌++◌, codes}
use ops_pmd.Layout.Pages.{Fields, inside}
use ops_pmd.SerialId.Sfp as SerialIdSfp
use ops_pmd.SerialId.Qsfp as SerialIdQsfp

abbrev pub sfp_id_fields : Fields
sfp_id_fields = record {
  flags =
      inside (codes "transceiver" ∷ []) (
        ("enet_10gbase_sr", SerialIdSfp.enet_10gbase_sr)
        ∷ ("enet_10gbase_lr", SerialIdSfp.enet_10gbase_lr)
        ∷ ("enet_10gbase_lrm", SerialIdSfp.enet_10gbase_lrm)
        ∷ ("enet_1000base_sx", SerialIdSfp.enet_1000base_sx)
        ∷ ("enet_1000base_lx", SerialIdSfp.enet_1000base_lx)
        ∷ ("enet_1000base_cx", SerialIdSfp.enet_1000base_cx)
        ∷ ("enet_1000base_t", SerialIdSfp.enet_1000base_t)
        ∷ ("cable_technology_passive", SerialIdSfp.cable_technology_passive)
        ∷ ("cable_technology_active", SerialIdSfp.cable_technology_active)
        ∷ [])
      ++ inside (codes "diag_monitor_type" ∷ []) (
          ("addr_change_required", SerialIdSfp.addr_change_required)
          ∷ ("power_measurement_type", SerialIdSfp.power_measurement_type)
          ∷ ("internally_calibrated", SerialIdSfp.internally_calibrated)
          ∷ ("implemented_digital", SerialIdSfp.implemented_digital)
          ∷ []);
  byte_fields = inside [] (
      ("connector", SerialIdSfp.connector_code)
      ∷ ("bit_rate_nominal", SerialIdSfp.bit_rate_nominal)
      ∷ ("length_copper", SerialIdSfp.length_copper)
      ∷ []);
  arrays = [];
  words = [];
}

abbrev pub qsfp_id_fields : Fields
qsfp_id_fields = record {
  flags =
      inside (codes "spec_compliance" ∷ []) (
        ("enet_40gbase_lr4", SerialIdQsfp.enet_40gbase_lr4)
        ∷ ("enet_40gbase_sr4", SerialIdQsfp.enet_40gbase_sr4)
        ∷ ("enet_40gbase_cr4", SerialIdQsfp.enet_40gbase_cr4)
        ∷ ("enet_extended", SerialIdQsfp.enet_extended)
        ∷ [])
      ++ inside (codes "diag_monitor_type" ∷ [])
          (("average_input_optical_power", SerialIdQsfp.average_input_optical_power) ∷ []);
  byte_fields =
      inside (codes "options" ∷ [])
        (("ext_compliance_code", SerialIdQsfp.ext_compliance_code) ∷ []);
  arrays = inside [] (
      ("vendor_name", SerialIdQsfp.vendor_name)
      ∷ ("vendor_oui", SerialIdQsfp.vendor_oui)
      ∷ ("vendor_part_number", SerialIdQsfp.vendor_part_number)
      ∷ ("vendor_revision", SerialIdQsfp.vendor_revision)
      ∷ ("vendor_serial_number", SerialIdQsfp.vendor_serial_number)
      ∷ []);
  words = [];
}
