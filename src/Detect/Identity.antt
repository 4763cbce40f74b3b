-- ===== src/Detect/Identity.antt =====
-- src/pm_detect.c: the columns of the vendor and of the page behind `pm_parse`.
use ops_pmd.Base.{
  CString, length, ℕ, zero, suc, ◌+◌, ◌<◌, ◌≡◌, ◌⊎◌, refl, true, false, some, List, [], ◌∷◌, arith,
  All, set, drop, take, Bool-cases, inl, inr, ap, ◌∙◌,
}
use mathlib.Core.Option
use ops_pmd.Format.{hex_to_ascii, pm_oui_format}
use ops_pmd.Format.Hex.{parse_oui, parse_hex, parse_hex-hex_to_ascii, IsByte}
use ops_pmd.Port.{Column, PmPort, set_binary}
use ops_pmd.Port.Laws.{columns-set_string}
use ops_pmd.SerialId.{set_bit, byte_at, bit_at, array_at}
use ops_pmd.Detect.{
  Build, ModuleType, sfp_plus, qsfp_plus, qsfp28, module_type, qsfp_identity, parse_sfp, parse_qsfp,
  parse_qsfp28, parse_as, pm_parse,
}
use ops_pmd.Detect.Vendor.{field, text_in, shown_text, text_field-text_in, pm_oui_format-field}
use ops_pmd.Detect.Parse.{pm_parse_lem}

All-set : (page : List ℕ) (i v : ℕ) → All IsByte page → IsByte v → All IsByte (set page i v)
All-set [] i v h b = tt
All-set (x ∷ page) zero v h b = (b, h.1)
All-set (x ∷ page) (suc i) v h b = (h.0, All-set page i v h.1 b)

pub byte_at-IsByte : (page : List ℕ) (i : ℕ) → All IsByte page → byte_at page i < 256
byte_at-IsByte [] i h = omega arith
byte_at-IsByte (x ∷ page) zero h = h.0
byte_at-IsByte (x ∷ page) (suc i) h = byte_at-IsByte page i h.1

room : (b : ℕ) → b < 256 → bit_at (b ∷ []) 0 4 ≡ false → b + 16 < 256
room b h e = ground arith

-- The bit that `pm_parse` sets keeps the bytes of a page bytes.
set_bit-IsByte : (page : List ℕ) → All IsByte page → All IsByte (set_bit page 3 4)
set_bit-IsByte page h = elim (Bool-cases (bit_at page 3 4)) [
  | inl e ↦ rw e h
  | inr e ↦ rw e (All-set page 3 _ h (room (byte_at page 3) (byte_at-IsByte page 3 h) e))
]

drop-set : (page : List ℕ) (j i v : ℕ) → j < i → drop i (set page j v) ≡ drop i page
drop-set [] j i v h = refl
drop-set (x ∷ page) j zero v h = absurd (omega arith)
drop-set (x ∷ page) zero (suc i) v h = refl
drop-set (x ∷ page) (suc j) (suc i) v h = drop-set page j i v (omega arith)

array_at-set_bit :
    (page : List ℕ) (i n : ℕ) → 3 < i → array_at (set_bit page 3 4) i n ≡ array_at page i n
array_at-set_bit page i n h = elim (Bool-cases (bit_at page 3 4)) [
  | inl e ↦ rw e
  | inr e ↦ rw e (ap (take n) (drop-set page 3 i _ h))
]

length-set : (page : List ℕ) (i v : ℕ) → length (set page i v) ≡ length page
length-set [] i v = refl
length-set (x ∷ page) zero v = refl
length-set (x ∷ page) (suc i) v = ap suc (length-set page i v)

length-set_bit : (page : List ℕ) {n : ℕ} → length page ≡ n → length (set_bit page 3 4) ≡ n
length-set_bit page h = elim (Bool-cases (bit_at page 3 4)) [
  | inl e ↦ rw e h
  | inr e ↦ rw e (length-set page 3 _ ∙ h)
]

module _ (build : Build) where
  parse_as-a0 :
      (t : ModuleType) (page : List ℕ) (p : PmPort)
      → (parse_as build t page p).ovs_module_columns Column.a0 ≡ hex_to_ascii true page
  unfolding parse_as parse_sfp parse_qsfp parse_qsfp28 qsfp_identity set_binary
  parse_as-a0 sfp_plus page p = refl
  parse_as-a0 qsfp_plus page p = refl
  parse_as-a0 qsfp28 page p = refl

  -- After `pm_parse` of a pluggable port of a known type the column `a0` is a text from which the page
  -- can be read back, with the bit that `pm_parse` has set, if the page consists of bytes.
  pub pm_parse-page :
      (page : List ℕ) (p : PmPort) (t : ModuleType)
      → All IsByte page
      → p.module_device.pluggable ≡ true
      → module_type p ≡ some t
      → Option.map parse_hex ((pm_parse build page p).2.ovs_module_columns Column.a0)
        ≡ some (set_bit page 3 4)
  pm_parse-page page p t bytes h e =
      let (_, printed, read, _) =
        parse_hex-hex_to_ascii (set_bit page 3 4) (set_bit-IsByte page bytes) in
      ap (λ r. Option.map parse_hex (r.2.ovs_module_columns Column.a0))
        (pm_parse_lem build page p t h e)
      ∙ ap (Option.map parse_hex) (parse_as-a0 t (set_bit page 3 4) p)
      ∙ ap (Option.map parse_hex) printed
      ∙ ap some read

  -- The columns of a port hold the identity that stands in a QSFP page: texts without the spaces at their
  -- ends, and an OUI of 8 characters from which the three bytes can be read back.
  pub record IsIdentified (page : List ℕ) (q : PmPort) : Type 0 where
    pub name : q.ovs_module_columns Column.vendor_name ≡ some (text_in page 20 16)
    pub oui :
        (text : CString) × (q.ovs_module_columns Column.vendor_oui ≡ some text)
        × (length text ≡ 8)
        × (parse_oui text ≡ field page 37 3)
    pub part_number : q.ovs_module_columns Column.vendor_part_number ≡ some (text_in page 40 16)
    pub revision : q.ovs_module_columns Column.vendor_revision ≡ some (text_in page 56 2)
    pub serial_number : q.ovs_module_columns Column.vendor_serial_number ≡ some (text_in page 68 16)

  qsfp_identity-IsIdentified :
      (page : List ℕ) (p : PmPort)
      → length page ≡ 128
      → All IsByte page
      → IsIdentified page (qsfp_identity build page p)
  unfolding qsfp_identity set_binary
  qsfp_identity-IsIdentified page p whole bytes = record {
    name = simp columns-set_string (ap some (text_field-text_in page 20 15 whole (omega arith)));
    oui =
        let (size, read) = pm_oui_format-field page 37 whole bytes (omega arith) in
        (pm_oui_format (field page 37 3), simp columns-set_string, size, read);
    part_number =
        simp columns-set_string (ap some (text_field-text_in page 40 15 whole (omega arith)));
    revision = simp columns-set_string (ap some (text_field-text_in page 56 1 whole (omega arith)));
    serial_number =
        simp columns-set_string (ap some (text_field-text_in page 68 15 whole (omega arith)));
  }

  -- The bit that `pm_parse` sets stands before the identity.
  text_in-set_bit :
      (page : List ℕ) (i n : ℕ) → 3 < i → text_in (set_bit page 3 4) i n ≡ text_in page i n
  text_in-set_bit page i n h = ap shown_text (array_at-set_bit page i n h)

  IsIdentified-set_bit :
      (page : List ℕ) (q : PmPort) → IsIdentified (set_bit page 3 4) q → IsIdentified page q
  IsIdentified-set_bit page q i = record {
    name = i.name ∙ ap some (text_in-set_bit page 20 16 (omega arith));
    oui =
        let (text, e, size, read) = i.oui in
        (text, e, size, read ∙ array_at-set_bit page 37 3 (omega arith));
    part_number = i.part_number ∙ ap some (text_in-set_bit page 40 16 (omega arith));
    revision = i.revision ∙ ap some (text_in-set_bit page 56 2 (omega arith));
    serial_number = i.serial_number ∙ ap some (text_in-set_bit page 68 16 (omega arith));
  }

  parse_as-IsIdentified :
      (t : ModuleType) (page : List ℕ) (p : PmPort)
      → (t ≡ qsfp_plus) ⊎ (t ≡ qsfp28)
      → length page ≡ 128
      → All IsByte page
      → IsIdentified page (parse_as build t page p)
  unfolding parse_as parse_qsfp parse_qsfp28
  parse_as-IsIdentified sfp_plus page p h = elim h [ inl e ↦ cc | inr e ↦ cc ]
  parse_as-IsIdentified qsfp_plus page p h = qsfp_identity-IsIdentified page _
  parse_as-IsIdentified qsfp28 page p h = qsfp_identity-IsIdentified page _

  -- After `pm_parse` of a pluggable port whose connector is QSFP_PLUS or QSFP28, with a page of 128
  -- bytes, the vendor's columns show what stands in the page: the name in 16 bytes from 20 on, the part
  -- number in 16 from 40, the revision in 2 from 56 and the serial number in 16 from 68, each up to a
  -- NUL and without the spaces at the end of its field, but with its first character even where that is
  -- a space; and the OUI in 3 bytes from 37, as 8 characters from which they can be read back.
  pub pm_parse-IsIdentified :
      (page : List ℕ) (p : PmPort) (t : ModuleType)
      → (t ≡ qsfp_plus) ⊎ (t ≡ qsfp28)
      → length page ≡ 128
      → All IsByte page
      → p.module_device.pluggable ≡ true
      → module_type p ≡ some t
      → IsIdentified page (pm_parse build page p).2
  pm_parse-IsIdentified page p t q whole bytes h e = rw (pm_parse_lem build page p t h e) (
      IsIdentified-set_bit page _ (
        parse_as-IsIdentified t (set_bit page 3 4) p q (length-set_bit page whole)
          (set_bit-IsByte page bytes)))
