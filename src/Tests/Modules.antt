-- ===== src/Tests/Modules.antt =====
-- The theorems on modules and on texts at work.
use ops_pmd.Base.{
  zero, suc, All, inl, ℕ, ◌≡◌, ◌≢◌, ◌↔◌, ◌≤◌, ◌%◌, ◌+◌, ◌*◌, refl, true, none, some, List, [], ◌∷◌,
  CString, codes, replicate, pos, negsuc, length, set, c_string, arith, str_eq,
}
use mathlib.Core.Option
use ops_pmd.Port.{Column, PmPort, write}
use ops_pmd.Port.Laws.{rest}
use ops_pmd.Format.{print_int, strtol, hex_to_ascii, ascii_size, pm_oui_format}
use ops_pmd.Detect.Identity.{pm_parse-page, IsIdentified, pm_parse-IsIdentified}
use ops_pmd.Format.Hex.{
  IsByte, parse_hex, parse_hex-hex_to_ascii, parse_oui, pm_oui_format_roundtrip,
}
use ops_pmd.Format.Decimal.{strtol-print_int}
use ops_pmd.SerialId.{set_bit, byte_at, array_at}
use ops_pmd.Detect.{
  qsfp_plus, module_type, pm_parse, text_field, sfpp_sum_verify, pm_byte_sum, sum_from, unknown,
}
use ops_pmd.Detect.Report.{Shows}
use ops_pmd.Detect.Classify.{classify}
use ops_pmd.Detect.Parse.{pm_parse-Shows, pm_parse_unknown}
use ops_pmd.Detect.Fields.{rstrip, text_field-rstrip}
use ops_pmd.Detect.Checksum.{total, sfpp_sum_verify_iff, sfpp_sum_verify-detects}
use ops_pmd.Tests.Data.{a_build, port, qsfp_port, lr4_page}

qsfp_port-type : module_type qsfp_port ≡ some qsfp_plus
unfolding module_type str_eq
qsfp_port-type = refl

pm_parse-Shows_example :
    let (rc, page', q) = pm_parse a_build lr4_page qsfp_port in
    (rc ≡ pos 0)
    × (page' ≡ set_bit lr4_page 3 4)
    × Shows a_build (classify qsfp_plus lr4_page) q
    × (rest q ≡ rest (record qsfp_port { optical = (classify qsfp_plus lr4_page).is_optical }))
pm_parse-Shows_example = pm_parse-Shows a_build lr4_page qsfp_port qsfp_plus refl qsfp_port-type

abbrev strange_port : PmPort
strange_port = port (codes "9") 19 (codes "CFP")

strange_port-type : module_type strange_port ≡ none
unfolding module_type str_eq
strange_port-type = refl

pm_parse_unknown_example :
    let (rc, page', q) = pm_parse a_build lr4_page strange_port in
    (rc ≡ negsuc 0)
    × (page' ≡ lr4_page)
    × (q.ovs_module_columns Column.connector ≡ some (a_build.connector_name unknown))
    × (q.module_info_changed ≡ true)
    × (rest q ≡ rest strange_port)
pm_parse_unknown_example =
    pm_parse_unknown a_build lr4_page strange_port Column.connector refl refl strange_port-type

sfpp_sum_verify_iff_example : (sfpp_sum_verify lr4_page ≡ 0) ↔ (
    (total (array_at lr4_page 0 63) % 256 ≡ byte_at lr4_page 63)
    × (total (array_at lr4_page 64 31) % 256 ≡ byte_at lr4_page 95))
sfpp_sum_verify_iff_example = sfpp_sum_verify_iff lr4_page

abbrev zero_page : List ℕ
zero_page = replicate 128 0

zero_page-verified : sfpp_sum_verify zero_page ≡ 0
unfolding sfpp_sum_verify pm_byte_sum sum_from
zero_page-verified = refl

sfpp_sum_verify-detects_example : sfpp_sum_verify (set zero_page 20 65) ≢ 0
sfpp_sum_verify-detects_example =
    sfpp_sum_verify-detects zero_page 20 65 zero_page-verified (omega arith) (omega arith)
      (omega arith) (omega arith) (omega arith)

text_field-rstrip_example : text_field 4 (codes "AB  ") ≡ c_string (65 ∷ rstrip (codes "B  "))
text_field-rstrip_example = text_field-rstrip 4 65 (codes "B  ") refl

parse_hex-hex_to_ascii_example :
    (text : CString) × (hex_to_ascii true (10 ∷ 255 ∷ []) ≡ some text)
    × (parse_hex text ≡ 10 ∷ 255 ∷ [])
    × (length text + 1 ≤ ascii_size 2)
parse_hex-hex_to_ascii_example =
    parse_hex-hex_to_ascii (10 ∷ 255 ∷ []) (omega arith, (omega arith, tt))

pm_oui_format_roundtrip_example :
    (length (pm_oui_format (0 ∷ 27 ∷ 33 ∷ [])) + 1 ≡ 3 * 3)
    × (parse_oui (pm_oui_format (0 ∷ 27 ∷ 33 ∷ [])) ≡ 0 ∷ 27 ∷ 33 ∷ [])
pm_oui_format_roundtrip_example =
    pm_oui_format_roundtrip 0 27 33 (omega arith) (omega arith) (omega arith)

strtol-print_int_example : strtol (print_int 40000) ≡ pos 40000
strtol-print_int_example = strtol-print_int 40000 (omega arith)

abbrev measured_port : PmPort
measured_port = write Column.max_speed (some (print_int 40000)) qsfp_port

lr4_page-bytes : All IsByte lr4_page
lr4_page-bytes =
    (omega arith, (omega arith, (omega arith, (omega arith, all-replicate 124 (omega arith)))))
  where
    all-replicate : (n : ℕ) → IsByte 0 → All IsByte (replicate n 0)
    all-replicate zero h = tt
    all-replicate (suc n) h = (h, all-replicate n h)

pm_parse-page_example :
    Option.map parse_hex ((pm_parse a_build lr4_page qsfp_port).2.ovs_module_columns Column.a0)
    ≡ some (set_bit lr4_page 3 4)
pm_parse-page_example =
    pm_parse-page a_build lr4_page qsfp_port qsfp_plus lr4_page-bytes refl qsfp_port-type

pm_parse-IsIdentified_example :
    IsIdentified a_build lr4_page (pm_parse a_build lr4_page qsfp_port).2
pm_parse-IsIdentified_example =
    pm_parse-IsIdentified a_build lr4_page qsfp_port qsfp_plus (inl refl) refl lr4_page-bytes refl
      qsfp_port-type
