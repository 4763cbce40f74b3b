-- ===== src/SerialId/Qsfp.antt =====
-- include/plug.h, `pm_qsfp_serial_id_t`, whose byte 0 is byte 128 of the module's memory.
use ops_pmd.Base.{ℕ, Bool, List}
use ops_pmd.SerialId.{
  byte_at, bit_at, array_at, vendor_name_len, vendor_oui_len, vendor_pn_len, vendor_sn_len,
  qsfp_vendor_rev_len,
}

abbrev pub enet_40gbase_lr4 : List ℕ → Bool
enet_40gbase_lr4 page = bit_at page 3 1

abbrev pub enet_40gbase_sr4 : List ℕ → Bool
enet_40gbase_sr4 page = bit_at page 3 2

abbrev pub enet_40gbase_cr4 : List ℕ → Bool
enet_40gbase_cr4 page = bit_at page 3 3

abbrev pub enet_extended : List ℕ → Bool
enet_extended page = bit_at page 3 7

abbrev pub vendor_name : List ℕ → List ℕ
vendor_name page = array_at page 20 vendor_name_len

abbrev pub vendor_oui : List ℕ → List ℕ
vendor_oui page = array_at page 37 vendor_oui_len

abbrev pub vendor_part_number : List ℕ → List ℕ
vendor_part_number page = array_at page 40 vendor_pn_len

abbrev pub vendor_revision : List ℕ → List ℕ
vendor_revision page = array_at page 56 qsfp_vendor_rev_len

abbrev pub ext_compliance_code : List ℕ → ℕ
ext_compliance_code page = byte_at page 64

-- The values of `ext_compliance_code` that the daemon knows.
abbrev pub ext_compliance_code_100gbase_sr4 : ℕ
ext_compliance_code_100gbase_sr4 = 0x02

abbrev pub ext_compliance_code_100gbase_lr4 : ℕ
ext_compliance_code_100gbase_lr4 = 0x03

abbrev pub ext_compliance_code_100gbase_cwdm4 : ℕ
ext_compliance_code_100gbase_cwdm4 = 0x06

abbrev pub ext_compliance_code_100gbase_psm4 : ℕ
ext_compliance_code_100gbase_psm4 = 0x07

abbrev pub ext_compliance_code_100gbase_cr4 : ℕ
ext_compliance_code_100gbase_cr4 = 0x0B

abbrev pub ext_compliance_code_100gbase_clr4 : ℕ
ext_compliance_code_100gbase_clr4 = 0x17

abbrev pub vendor_serial_number : List ℕ → List ℕ
vendor_serial_number page = array_at page 68 vendor_sn_len

abbrev pub average_input_optical_power : List ℕ → Bool
average_input_optical_power page = bit_at page 92 3
