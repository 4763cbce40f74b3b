-- ===== src/A2/Degrees.antt =====
-- src/pm_dom.c and include/pmd.h.in: the text of a temperature.
use ops_pmd.Base.{
  ℕ, ◌+◌, ◌-◌, ◌/◌, ◌<◌, ◌≡◌, refl, Bool, true, List, ◌++◌, CString, codes, ltb, if◌then◌else◌,
  str_eq, str_eq→eq, table_ok, table_ok_entry, arith, ap, ◌∙◌, ℤ, pos, negsuc,
}
use ops_pmd.Format.{print_int, digits_before}
use ops_pmd.Float.{print_float, float_of_int, magnitude, nearest, bit_length}
use ops_pmd.SerialId.{byte_at}
use ops_pmd.A2.{signed_char, add_byte, celsius}

-- The signed number that the byte stands for in two's complement, with two zeros behind the point.
abbrev pub degrees : ℕ → CString
degrees b =
    if ltb b 128
    then print_int b ++ codes ".00"
    else codes "-" ++ (print_int (256 - b) ++ codes ".00")

abbrev shown_right : ℕ → Bool
shown_right b = str_eq (print_float (float_of_int (signed_char b))) (degrees b)

all_shown_right : table_ok shown_right 256 ≡ true
unfolding table_ok str_eq print_float float_of_int magnitude nearest bit_length signed_char
    print_int digits_before
all_shown_right = refl

-- The second byte adds nothing.
celsius-byte :
    (page : List ℕ) (i : ℕ)
    → byte_at page (i + 1) < 256
    → celsius page i ≡ float_of_int (signed_char (byte_at page i))
unfolding celsius add_byte
celsius-byte page i h =
    let low : byte_at page (i + 1) / 256 ≡ 0 = omega arith in
    ap (λ k. float_of_int (add_byte (signed_char (byte_at page i)) k)) low
    ∙ ap float_of_int (add_none (signed_char (byte_at page i)))
  where
    add_none : (z : ℤ) → add_byte z 0 ≡ z
    add_none (pos n) = ap pos (omega arith)
    add_none (negsuc n) = ground arith

-- The text of a temperature, or of a threshold of one, shows the first of its two bytes as a signed number
-- of whole degrees: the fraction in the second byte is lost.
pub print_float-celsius :
    (page : List ℕ) (i : ℕ)
    → byte_at page i < 256
    → byte_at page (i + 1) < 256
    → print_float (celsius page i) ≡ degrees (byte_at page i)
print_float-celsius page i h k =
    ap print_float (celsius-byte page i k)
    ∙ str_eq→eq _ _ (table_ok_entry shown_right 256 (byte_at page i) all_shown_right h)
