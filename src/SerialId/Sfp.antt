-- ===== src/SerialId/Sfp.antt =====
-- include/plug.h, `pm_sfp_serial_id_t`: byte 2, the transceiver codes from byte 3 on, the bit rate and the length.
use ops_pmd.Base.{ℕ, Bool, List}
use ops_pmd.SerialId.{byte_at, bit_at}

abbrev pub connector_code : List ℕ → ℕ
connector_code page = byte_at page 2

abbrev pub enet_10gbase_sr : List ℕ → Bool
enet_10gbase_sr page = bit_at page 3 4

abbrev pub enet_10gbase_lr : List ℕ → Bool
enet_10gbase_lr page = bit_at page 3 5

abbrev pub enet_10gbase_lrm : List ℕ → Bool
enet_10gbase_lrm page = bit_at page 3 6

abbrev pub enet_1000base_sx : List ℕ → Bool
enet_1000base_sx page = bit_at page 6 0

abbrev pub enet_1000base_lx : List ℕ → Bool
enet_1000base_lx page = bit_at page 6 1

abbrev pub enet_1000base_cx : List ℕ → Bool
enet_1000base_cx page = bit_at page 6 2

abbrev pub enet_1000base_t : List ℕ → Bool
enet_1000base_t page = bit_at page 6 3

abbrev pub cable_technology_passive : List ℕ → Bool
cable_technology_passive page = bit_at page 8 2

abbrev pub cable_technology_active : List ℕ → Bool
cable_technology_active page = bit_at page 8 3

abbrev pub bit_rate_nominal : List ℕ → ℕ
bit_rate_nominal page = byte_at page 12

abbrev pub length_copper : List ℕ → ℕ
length_copper page = byte_at page 18

abbrev pub addr_change_required : List ℕ → Bool
addr_change_required page = bit_at page 92 2

abbrev pub power_measurement_type : List ℕ → Bool
power_measurement_type page = bit_at page 92 3

abbrev pub internally_calibrated : List ℕ → Bool
internally_calibrated page = bit_at page 92 5

abbrev pub implemented_digital : List ℕ → Bool
implemented_digital page = bit_at page 92 6
