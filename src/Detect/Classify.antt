-- ===== src/Detect/Classify.antt =====
-- src/pm_detect.c: `pm_parse` against tables of the compliance codes of a module.
use ops_pmd.Base.{
  ℕ, ◌≤◌, ◌≡◌, refl, Bool, true, false, List, [], ◌∷◌, ◌==◌, if◌then◌else◌, arith, Bool-cases, inl,
  inr, ◌⊎◌, get_or-set_self, get_or-set_ne, ◌+◌, ◌≢◌, leb,
}
use ops_pmd.Format.{long_max}
use ops_pmd.Port.{PmPort}
use ops_pmd.SerialId.{byte_at, bit_at, set_bit}
use ops_pmd.SerialId.Qsfp
use ops_pmd.Detect.{
  Build, ModuleType, sfp_plus, qsfp_plus, qsfp28, supported, unrecognized, unknown, sfp_sr,
  qsfp_lr4, qsfp_sr4, qsfp_cr4, qsfp28_sr4, qsfp28_lr4, qsfp28_cwdm4, qsfp28_psm4, qsfp28_cr4,
  qsfp28_clr4, sfp_type, parse_sfp, qsfp_type, extended_type, qsfp28_type, qsfp_identity,
  parse_qsfp, parse_qsfp28, parse_as, report, ConnectorKind,
}
use ops_pmd.Detect.Report.{
  Verdict, Shows, report-Shows, set_string-Shows, delete-Shows, set_binary-Shows,
}

abbrev verdict : Bool → ConnectorKind → ℕ → Verdict
verdict o k n = record { is_optical = o; kind = k; status = supported; speed = n }

abbrev unsupported : Verdict
unsupported = record { is_optical = false; kind = unknown; status = unrecognized; speed = 0 }

-- The extended compliance codes of 100G modules that the daemon supports.
abbrev code_table : List (ℕ × Verdict)
code_table =
    (0x02, verdict true qsfp28_sr4 100000)
    ∷ (0x03, verdict true qsfp28_lr4 100000)
    ∷ (0x06, verdict true qsfp28_cwdm4 100000)
    ∷ (0x07, verdict true qsfp28_psm4 100000)
    ∷ (0x0B, verdict false qsfp28_cr4 100000)
    ∷ (0x17, verdict true qsfp28_clr4 100000)
    ∷ []

-- The flags of 40G modules, in the order in which they count.
abbrev flag_table : List ℕ → List (Bool × Verdict)
flag_table page =
    (Qsfp.enet_40gbase_lr4 page, verdict true qsfp_lr4 40000)
    ∷ (Qsfp.enet_40gbase_sr4 page, verdict true qsfp_sr4 40000)
    ∷ (Qsfp.enet_40gbase_cr4 page, verdict false qsfp_cr4 40000)
    ∷ []

abbrev by_code : List (ℕ × Verdict) → ℕ → Verdict
by_code [] code = unsupported
by_code ((k, v) ∷ rows) code = if code == k then v else by_code rows code

abbrev by_flag : List (Bool × Verdict) → Verdict
by_flag [] = unsupported
by_flag ((b, v) ∷ rows) = if b then v else by_flag rows

-- What the daemon takes a module for: every SFP+ module is a 10G SR, a QSFP+ module goes by its
-- flags, and a QSFP28 module by its extended code where it announces one.
unfoldable pub classify : ModuleType → List ℕ → Verdict
classify sfp_plus page = verdict true sfp_sr 10000
classify qsfp_plus page = by_flag (flag_table page)
classify qsfp28 page =
    if Qsfp.enet_extended page
    then by_code code_table (Qsfp.ext_compliance_code page)
    else by_flag (flag_table page)

speed_fits : (n : ℕ) → leb n 100000 ≡ true → n ≤ long_max
speed_fits n h = ground arith

module _ (build : Build) where
  abbrev pub report_verdict : Verdict → PmPort → PmPort
  report_verdict v p = report build v.is_optical v.kind v.status v.speed p

  -- Every test of the SFP+ case is switched off but one, which is always met.
  pub sfp_type_lem :
      (page : List ℕ) (p : PmPort)
      → sfp_type build page p ≡ report_verdict (classify sfp_plus page) p
  unfolding sfp_type classify
  sfp_type_lem page p = ground arith

  pub qsfp_type_lem :
      (page : List ℕ) (p : PmPort)
      → qsfp_type build page p ≡ report_verdict (classify qsfp_plus page) p
  unfolding qsfp_type classify
  qsfp_type_lem page p = ground arith

  extended_type_lem :
      (code : ℕ) (p : PmPort)
      → extended_type build code p ≡ report_verdict (by_code code_table code) p
  unfolding extended_type
  extended_type_lem code p = ground arith

  pub qsfp28_type_lem :
      (page : List ℕ) (p : PmPort)
      → qsfp28_type build page p ≡ report_verdict (classify qsfp28 page) p
  unfolding qsfp28_type classify
  qsfp28_type_lem page p = elim (Bool-cases (Qsfp.enet_extended page)) [
    | inl e ↦ rw e (extended_type_lem (Qsfp.ext_compliance_code page) p)
    | inr e ↦ rw e (qsfp_type_lem page p)
  ]

  by_code-speed : (code : ℕ) → leb (by_code code_table code).speed 100000 ≡ true
  by_code-speed code = ground arith

  classify-speed : (t : ModuleType) (page : List ℕ) → leb (classify t page).speed 100000 ≡ true
  unfolding classify
  classify-speed sfp_plus page = refl
  classify-speed qsfp_plus page = ground arith
  classify-speed qsfp28 page = ground (arith, by_code-speed (Qsfp.ext_compliance_code page))

  report_verdict-Shows :
      (t : ModuleType) (page : List ℕ) (p : PmPort)
      → Shows build (classify t page) (report_verdict (classify t page) p)
  report_verdict-Shows t page p =
      report-Shows build _ _ _ _ p (speed_fits _ (classify-speed t page))

module _ (build : Build) (page : List ℕ) {v : Verdict} {p : PmPort} (shown : Shows build v p) where
  qsfp_identity-Shows : Shows build v (qsfp_identity build page p)
  unfolding qsfp_identity
  qsfp_identity-Shows = set_binary-Shows build _ _ (omega arith) (
      set_string-Shows build _ _ (omega arith) (
        set_string-Shows build _ _ (omega arith) (
          set_string-Shows build _ _ (omega arith) (
            set_string-Shows build _ _ (omega arith) (
              set_string-Shows build _ _ (omega arith)
                (delete-Shows build _ (omega arith) shown))))))

module _ (build : Build) (page : List ℕ) (p : PmPort) where
  parse_sfp-Shows : Shows build (classify sfp_plus page) (parse_sfp build page p)
  unfolding parse_sfp
  parse_sfp-Shows = set_binary-Shows build _ _ (omega arith) (
      set_string-Shows build _ _ (omega arith) (
        set_string-Shows build _ _ (omega arith) (
          set_string-Shows build _ _ (omega arith) (
            set_string-Shows build _ _ (omega arith) (
              delete-Shows build _ (omega arith)
                (rw (sfp_type_lem build page p) (report_verdict-Shows build sfp_plus page p)))))))

pub parse_as-Shows :
    (build : Build) (t : ModuleType) (page : List ℕ) (p : PmPort)
    → Shows build (classify t page) (parse_as build t page p)
unfolding parse_as parse_qsfp parse_qsfp28
parse_as-Shows build sfp_plus page p = parse_sfp-Shows build page p
parse_as-Shows build qsfp_plus page p =
    qsfp_identity-Shows build page
      (rw (qsfp_type_lem build page p) (report_verdict-Shows build qsfp_plus page p))
parse_as-Shows build qsfp28 page p =
    qsfp_identity-Shows build page
      (rw (qsfp28_type_lem build page p) (report_verdict-Shows build qsfp28 page p))

byte_three :
    (page : List ℕ)
    → (byte_at (set_bit page 3 4) 3 ≡ byte_at page 3)
      ⊎ (byte_at (set_bit page 3 4) 3 ≡ byte_at page 3 + 16) × (bit_at page 3 4 ≡ false)
byte_three page = elim (Bool-cases (bit_at page 3 4)) [
  | inl e ↦ inl (rw e refl)
  | inr e ↦ elim (get_or-set_self page 3 (byte_at page 3 + 16) 0) [
    | inl w ↦ inr (rw e w, e)
    | inr w ↦ inl (rw e w)
  ]
]

other_byte : (page : List ℕ) (i : ℕ) → 3 ≢ i → byte_at (set_bit page 3 4) i ≡ byte_at page i
other_byte page i h = elim (Bool-cases (bit_at page 3 4)) [
  | inl e ↦ rw e refl
  | inr e ↦ rw e (get_or-set_ne page 3 i (byte_at page 3 + 16) 0 h)
]

-- The flags of byte 3 that the daemon reads, after the fourth bit is set.
same_flags :
    (page : List ℕ)
    → (bit_at (set_bit page 3 4) 3 1 ≡ bit_at page 3 1)
      × (bit_at (set_bit page 3 4) 3 2 ≡ bit_at page 3 2)
      × (bit_at (set_bit page 3 4) 3 3 ≡ bit_at page 3 3)
      × (bit_at (set_bit page 3 4) 3 7 ≡ bit_at page 3 7)
same_flags page = elim (byte_three page) [
  | inl e ↦ rw e (refl, refl, refl, refl)
  | inr (e, clear) ↦ rw e (ground arith, ground arith, ground arith, ground arith)
]

-- The bit that `pm_parse` sets in the page has no part in the choice of the type.
pub classify-set_bit :
    (t : ModuleType) (page : List ℕ) → classify t (set_bit page 3 4) ≡ classify t page
unfolding classify
classify-set_bit sfp_plus page = refl
classify-set_bit qsfp_plus page = let (a, b, c, d) = same_flags page in rw (a, b, c)
classify-set_bit qsfp28 page =
    let (a, b, c, d) = same_flags page in rw (a, b, c, d, other_byte page 64 (omega arith))
