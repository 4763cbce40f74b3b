-- ===== src/Detect/Parse.antt =====
-- src/pm_detect.c: every outcome of `pm_parse`.
use ops_pmd.Base.{
  ℕ, ◌≡◌, refl, true, false, List, none, some, ◌==◌, if◌then◌else◌, pos, negsuc, arith, CString,
  ◌∙◌, ap, ◌⊎◌,
}
use ops_pmd.Port.{Column, PmPort, index, set_static_string, set_binary, set_supported_speeds}
use ops_pmd.Port.Laws.{rest, rest-set_string, rest-set_int_string, rest-delete, rest-delete_free}
use ops_pmd.Port.Deleted.{columns-pm_delete_all_data, rest-pm_delete_all_data}
use ops_pmd.SerialId.{set_bit}
use ops_pmd.Detect.{
  Build, ModuleType, sfp_plus, qsfp_plus, qsfp28, unknown, report, parse_sfp, qsfp_identity,
  parse_qsfp, parse_qsfp28, parse_as, module_type, pm_parse, parse_known,
}
use ops_pmd.Detect.Report.{Verdict, Shows}
use ops_pmd.Detect.Classify.{
  classify, classify-set_bit, report_verdict, sfp_type_lem, qsfp_type_lem, qsfp28_type_lem,
  parse_as-Shows,
}

module _ (build : Build) where
  rest-report_verdict :
      (v : Verdict) (p : PmPort)
      → rest (report_verdict build v p) ≡ rest (record p { optical = v.is_optical })
  unfolding report set_static_string set_supported_speeds
  rest-report_verdict v p =
      rest-delete_free _ _ ∙ rest-delete _ _ ∙ rest-set_int_string Column.max_speed v.speed _

  rest-qsfp_identity : (page : List ℕ) (p : PmPort) → rest (qsfp_identity build page p) ≡ rest p
  unfolding qsfp_identity set_binary
  rest-qsfp_identity page p = simp (rest-set_string, rest-delete)

  rest-parse_as :
      (t : ModuleType) (page : List ℕ) (p : PmPort)
      → rest (parse_as build t page p) ≡ rest (record p { optical = (classify t page).is_optical })
  unfolding parse_as parse_qsfp parse_qsfp28 parse_sfp set_binary
  rest-parse_as sfp_plus page p =
      rest-set_string _ _ _
      ∙ rest-set_string _ _ _
      ∙ rest-set_string _ _ _
      ∙ rest-set_string _ _ _
      ∙ rest-delete _ _
      ∙ ap rest (sfp_type_lem build page p)
      ∙ rest-report_verdict (classify sfp_plus page) p
  rest-parse_as qsfp_plus page p =
      rest-qsfp_identity page _
      ∙ ap rest (qsfp_type_lem build page p)
      ∙ rest-report_verdict (classify qsfp_plus page) p
  rest-parse_as qsfp28 page p =
      rest-qsfp_identity page _
      ∙ ap rest (qsfp28_type_lem build page p)
      ∙ rest-report_verdict (classify qsfp28 page) p

  -- `pm_parse` of a port that is not pluggable or has no connector data touches nothing.
  pub pm_parse_ignored :
      (page : List ℕ) (p : PmPort)
      → (p.module_device.pluggable ≡ false) ⊎ (p.module_device.connector ≡ none)
      → ((pm_parse build page p).1 ≡ page) × ((pm_parse build page p).2 ≡ p)
  unfolding pm_parse
  pm_parse_ignored page p h = ground arith

  -- Without connector data the port has no type.
  typed_connector :
      (p : PmPort) {t : ModuleType}
      → module_type p ≡ some t
      → (name : CString) × (p.module_device.connector ≡ some name)
  unfolding module_type
  typed_connector p e = ground arith

  pub pm_parse_lem :
      (page : List ℕ) (p : PmPort) (t : ModuleType)
      → p.module_device.pluggable ≡ true
      → module_type p ≡ some t
      → pm_parse build page p ≡ (pos 0, set_bit page 3 4, parse_as build t (set_bit page 3 4) p)
  unfolding pm_parse parse_known
  pm_parse_lem page p t h e = let (name, c) = typed_connector p e in ground arith

  -- `pm_parse` of a pluggable port whose connector is SFP_PLUS, QSFP_PLUS or QSFP28 returns 0. An
  -- SFP_PLUS port is always shown as an optical 10G SR module of 10000 Mb/s, supported, whatever its
  -- page says; a QSFP_PLUS or QSFP28 port is shown as the tables of compliance codes have it for the
  -- page as it was read: connector, status, speeds and the optical flag. The cable columns are empty,
  -- the port is marked, the caller's page gets the bit `enet_10gbase_sr`, and no field outside the
  -- columns, the mark and the optical flag changes.
  pub pm_parse-Shows :
      (page : List ℕ) (p : PmPort) (t : ModuleType)
      → p.module_device.pluggable ≡ true
      → module_type p ≡ some t
      → let (rc, page', q) = pm_parse build page p in
        (rc ≡ pos 0)
        × (page' ≡ set_bit page 3 4)
        × Shows build (classify t page) q
        × (rest q ≡ rest (record p { optical = (classify t page).is_optical }))
  pm_parse-Shows page p t h e =
      rw (pm_parse_lem page p t h e, ← classify-set_bit t page)
        (
          refl,
          refl,
          parse_as-Shows build t (set_bit page 3 4) p,
          rest-parse_as t (set_bit page 3 4) p,
        )

  -- `pm_parse` of a pluggable port with a connector of no known type fails: the port is left with
  -- the connector column "unknown" and no other column, and the page as it was.
  pub pm_parse_unknown :
      (page : List ℕ) (p : PmPort) {name : CString} (d : Column)
      → p.module_device.pluggable ≡ true
      → p.module_device.connector ≡ some name
      → module_type p ≡ none
      → let (rc, page', q) = pm_parse build page p in
        (rc ≡ negsuc 0)
        × (page' ≡ page)
        × (q.ovs_module_columns d ≡ (
            if index Column.connector == index d
            then some (build.connector_name unknown)
            else none))
        × (q.module_info_changed ≡ true)
        × (rest q ≡ rest p)
  unfolding pm_parse parse_known set_static_string
  pm_parse_unknown page p d h c e = (
    ground arith,
    ground arith,
    ground (arith, columns-pm_delete_all_data d p),
    ground arith,
    ground (arith, rest-pm_delete_all_data p),
  )
