-- ===== src/Detect.antt =====
-- src/pm_detect.c: `pm_parse`, which turns a serial id page into the columns of a port, and the
-- checksums. The branches that the source has switched off by `&& false` stand here with that test.
-- The strings of the database schema (OVSREC_INTERFACE_PM_INFO_*) come from a generated header and
-- are a parameter, as are the bytes that stand behind two string literals which `memcpy` overruns.
pub mod Fields
pub mod Report
pub mod Classify
pub mod Parse
pub mod Vendor
pub mod Identity
pub mod Checksum
use ops_pmd.Base.{
  ℕ, zero, suc, ◌+◌, ◌-◌, ◌%◌, ◌≤◌, Bool, true, false, not, ◌&&◌, ◌||◌, Option, none, some, List,
  [], ◌∷◌, ◌++◌, CString, codes, c_string, leb, ◌==◌, if◌then◌else◌, get_or, set, take, ℤ, pos,
  negsuc, str_eq,
}
use ops_pmd.Format.{space, pm_oui_format}
use ops_pmd.Port.{
  Column, PmPort, has_connector, connector_sfp_plus, connector_qsfp_plus, connector_qsfp28,
  set_static_string, set_string, set_int_string, set_binary, delete, delete_free,
  set_supported_speeds, pm_delete_all_data,
}
use ops_pmd.SerialId.{
  byte_at, set_bit, vendor_name_len, vendor_pn_len, vendor_sn_len, sfp_vendor_rev_len,
  qsfp_vendor_rev_len,
}
use ops_pmd.SerialId.Sfp
use ops_pmd.SerialId.Qsfp

pub data ConnectorKind : Type 0 where
  absent unknown : ConnectorKind
  sfp_rj45 sfp_sr sfp_lr sfp_lrm sfp_dac sfp_cx sfp_sx sfp_lx : ConnectorKind
  qsfp_cr4 qsfp_sr4 qsfp_lr4 : ConnectorKind
  qsfp28_sr4 qsfp28_lr4 qsfp28_cwdm4 qsfp28_psm4 qsfp28_cr4 qsfp28_clr4 : ConnectorKind

pub data Status : Type 0 where
  supported unrecognized : Status

-- What the build supplies: the strings of the schema, and the bytes behind the literals
-- "vendor_name" and "serial_number" in memory.
pub record Build : Type 0 where
  pub connector_name : ConnectorKind → CString
  pub status_name : Status → CString
  pub technology_active : CString
  pub technology_passive : CString
  pub config_map_enable : CString
  pub config_map_enable_true : CString
  pub behind_vendor_name : List ℕ
  pub behind_serial_number : List ℕ

-- The loop that replaces trailing spaces by NUL, from index `idx` down to 1.
unfoldable pub strip_spaces : ℕ → List ℕ → List ℕ
strip_spaces zero buf = buf
strip_spaces (suc idx) buf =
    if get_or buf (suc idx) 0 == space then strip_spaces idx (set buf (suc idx) 0) else buf

-- `memcpy` of `len` bytes into a buffer of `len + 1`, the NUL behind them, and the loop.
unfoldable pub text_field : ℕ → List ℕ → CString
text_field len source = c_string (strip_spaces (len - 1) (take len source ++ (0 ∷ [])))

-- The sum of the bytes from index `idx` on, `count` of them, in an `unsigned char`.
unfoldable pub sum_from : List ℕ → ℕ → ℕ → ℕ → ℕ
sum_from block idx zero value = value
sum_from block idx (suc count) value =
    sum_from block (idx + 1) count ((value + byte_at block idx) % 256)

-- The loop runs from `start` to `end` inclusive.
unfoldable pub pm_byte_sum : List ℕ → ℕ → ℕ → ℕ → ℕ
pm_byte_sum block start end offset =
    if sum_from block start (end + 1 - start) 0 == byte_at block offset then 0 else 1

unfoldable pub sfpp_sum_verify : List ℕ → ℕ
sfpp_sum_verify page = pm_byte_sum page 0 62 63 + pm_byte_sum page 64 94 95

pub data ModuleType : Type 0 where
  sfp_plus qsfp_plus qsfp28 : ModuleType

-- Which of the three connector names the port has.
unfoldable pub module_type : PmPort → Option ModuleType
module_type p =
    if has_connector connector_sfp_plus p
    then some sfp_plus
    else if has_connector connector_qsfp_plus p
    then some qsfp_plus
    else if has_connector connector_qsfp28 p
    then some qsfp28
    else none

module _ (build : Build) where
  -- The block that each branch repeats: connector, status, speed, and no cable data.
  unfoldable pub report : Bool → ConnectorKind → Status → ℕ → PmPort → PmPort
  report is_optical kind status speed p = delete_free Column.cable_length (
      delete Column.cable_technology (
        set_supported_speeds (speed ∷ []) (
          set_int_string Column.max_speed speed (
            set_static_string Column.connector_status (build.status_name status) (
              set_static_string Column.connector (build.connector_name kind)
                (record p { optical = is_optical }))))))

  -- The branch for a copper pigtail.
  unfoldable pub report_dac : List ℕ → PmPort → PmPort
  report_dac page p =
      let speed : ℕ = if leb 0x64 (Sfp.bit_rate_nominal page) then 10000 else 1000 in
      let tech : CString =
        if Sfp.cable_technology_active page
        then build.technology_active
        else if Sfp.cable_technology_passive page
        then build.technology_passive
        else build.technology_passive in
      set_int_string Column.cable_length (Sfp.length_copper page) (
        set_static_string Column.cable_technology tech (
          set_supported_speeds (speed ∷ []) (
            set_int_string Column.max_speed speed (
              set_static_string Column.connector_status (build.status_name supported) (
                set_static_string Column.connector (build.connector_name sfp_dac)
                  (record p { optical = false }))))))

  -- The chain of tests of the SFP+ case.
  unfoldable pub sfp_type : List ℕ → PmPort → PmPort
  sfp_type page p =
      if (Sfp.connector_code page == 0x21) && false
      then report_dac page p
      else if Sfp.enet_1000base_sx page && false
      then report true sfp_sx supported 1000 p
      else if Sfp.enet_1000base_lx page && false
      then report true sfp_lx supported 1000 p
      else if Sfp.enet_1000base_cx page && false
      then report false sfp_cx supported 1000 p
      else if Sfp.enet_1000base_t page && false
      then report false sfp_rj45 supported 1000 p
      else if Sfp.enet_10gbase_sr page || true
      then report true sfp_sr supported 10000 p
      else if Sfp.enet_10gbase_lr page
      then report true sfp_lr supported 10000 p
      else if Sfp.enet_10gbase_lrm page
      then report true sfp_lrm supported 10000 p
      else report false unknown unrecognized 0 p

  -- What the SFP+ case does behind the choice of the type: the vendor's texts are literals, and the OUI
  -- is left as it was.
  unfoldable pub sfp_identity : List ℕ → PmPort → PmPort
  sfp_identity page p = set_binary true Column.a0 page (
      set_string Column.vendor_serial_number
        (text_field vendor_sn_len (codes "serial_number" ++ (0 ∷ build.behind_serial_number)))
        (set_string Column.vendor_revision (text_field sfp_vendor_rev_len (codes "rev" ++ (0 ∷ [])))
          (set_string Column.vendor_part_number
            (text_field vendor_pn_len (codes "vendor_part_number" ++ (0 ∷ [])))
            (set_string Column.vendor_name
              (text_field vendor_name_len (codes "vendor_name" ++ (0 ∷ build.behind_vendor_name)))
              (delete Column.power_mode p)))))

  unfoldable pub parse_sfp : List ℕ → PmPort → PmPort
  unfolding sfp_identity
  parse_sfp page p = sfp_identity page (sfp_type page p)

  -- The 40G codes, first match wins.
  unfoldable pub qsfp_type : List ℕ → PmPort → PmPort
  qsfp_type page p =
      if Qsfp.enet_40gbase_lr4 page
      then report true qsfp_lr4 supported 40000 p
      else if Qsfp.enet_40gbase_sr4 page
      then report true qsfp_sr4 supported 40000 p
      else if Qsfp.enet_40gbase_cr4 page
      then report false qsfp_cr4 supported 40000 p
      else report false unknown unrecognized 0 p

  -- The extended compliance codes.
  unfoldable pub extended_type : ℕ → PmPort → PmPort
  extended_type code p =
      if code == Qsfp.ext_compliance_code_100gbase_sr4
      then report true qsfp28_sr4 supported 100000 p
      else if code == Qsfp.ext_compliance_code_100gbase_lr4
      then report true qsfp28_lr4 supported 100000 p
      else if code == Qsfp.ext_compliance_code_100gbase_cwdm4
      then report true qsfp28_cwdm4 supported 100000 p
      else if code == Qsfp.ext_compliance_code_100gbase_psm4
      then report true qsfp28_psm4 supported 100000 p
      else if code == Qsfp.ext_compliance_code_100gbase_cr4
      then report false qsfp28_cr4 supported 100000 p
      else if code == Qsfp.ext_compliance_code_100gbase_clr4
      then report true qsfp28_clr4 supported 100000 p
      else report false unknown unrecognized 0 p

  unfoldable pub qsfp28_type : List ℕ → PmPort → PmPort
  qsfp28_type page p =
      if Qsfp.enet_extended page
      then extended_type (Qsfp.ext_compliance_code page) p
      else qsfp_type page p

  -- What the two QSFP cases do behind the choice of the type.
  unfoldable pub qsfp_identity : List ℕ → PmPort → PmPort
  qsfp_identity page p = set_binary true Column.a0 page (
      set_string Column.vendor_serial_number
        (text_field vendor_sn_len (Qsfp.vendor_serial_number page))
        (set_string Column.vendor_revision
          (text_field qsfp_vendor_rev_len (Qsfp.vendor_revision page))
          (set_string Column.vendor_part_number
            (text_field vendor_pn_len (Qsfp.vendor_part_number page))
            (set_string Column.vendor_oui (pm_oui_format (Qsfp.vendor_oui page)) (
              set_string Column.vendor_name (text_field vendor_name_len (Qsfp.vendor_name page))
                (delete Column.power_mode p))))))

  unfoldable pub parse_qsfp : List ℕ → PmPort → PmPort
  parse_qsfp page p = qsfp_identity page (qsfp_type page p)

  unfoldable pub parse_qsfp28 : List ℕ → PmPort → PmPort
  parse_qsfp28 page p = qsfp_identity page (qsfp28_type page p)

  unfoldable pub parse_as : ModuleType → List ℕ → PmPort → PmPort
  parse_as sfp_plus page p = parse_sfp page p
  parse_as qsfp_plus page p = parse_qsfp page p
  parse_as qsfp28 page p = parse_qsfp28 page p

  -- `pm_parse` of a pluggable port with a connector: a known type is parsed from the page with the
  -- bit `enet_10gbase_sr` set, which the caller's page keeps.
  unfoldable pub parse_known : Option ModuleType → List ℕ → PmPort → ℤ × List ℕ × PmPort
  parse_known none page p = (
    negsuc 0,
    page,
    set_static_string Column.connector (build.connector_name unknown) (pm_delete_all_data p),
  )
  parse_known (some t) page p = (pos 0, set_bit page 3 4, parse_as t (set_bit page 3 4) p)

  -- The return code, the page and the port.
  unfoldable pub pm_parse : List ℕ → PmPort → ℤ × List ℕ × PmPort
  pm_parse page p =
      if not p.module_device.pluggable then (pos 0, page, p) else elim p.module_device.connector [
        | none ↦ (negsuc 0, page, p)
        | some _ ↦ parse_known (module_type p) page p
      ]
