-- ===== src/Format/Hex.antt =====
-- src/pm_detect.c: the texts of `hex_to_ascii` and `pm_oui_format`, how to read them, their lengths.
use ops_pmd.Base.{
  ℕ, ◌+◌, ◌-◌, ◌*◌, ◌/◌, ◌%◌, ◌<◌, ◌≤◌, ◌≡◌, refl, some, List, [], ◌∷◌, ◌++◌, CString, ◌==◌,
  if◌then◌else◌, length, get_or, arith, All, true, ◌&&◌, not, table_ok, table_ok_entry, Bool, ap,
  ◌∙◌, take, drop,
}
use ops_pmd.Format.{
  separator, hex_from, hex_to_ascii, ascii_size, ascii_map, lower_hex, pm_oui_format, space,
  digit_value,
}

-- The bytes that a text of hexadecimal digits stands for, spaces between the bytes skipped.
unfoldable pub parse_hex : CString → List ℕ
parse_hex [] = []
parse_hex (c ∷ []) = []
parse_hex (c ∷ d ∷ cs) =
    let byte = (digit_value c * 16 + digit_value d) ∷ parse_hex cs in
    let rest = parse_hex (d ∷ cs) in if c == space then rest else byte

abbrev pub IsByte : ℕ → Type 0
IsByte b = b < 256

-- A digit of either table reads back, and is no space.
abbrev good_digit : CString → ℕ → Bool
good_digit table d = digit_value (get_or table d 0) == d && not (get_or table d 0 == space)

digit_table : table_ok (good_digit ascii_map) 16 ≡ true
unfolding table_ok
digit_table = refl

lower_table : table_ok (good_digit lower_hex) 16 ≡ true
unfolding table_ok
lower_table = refl

upper_digit : (d : ℕ) → d < 16 → good_digit ascii_map d ≡ true
upper_digit d h = table_ok_entry _ 16 d digit_table h

lower_digit : (d : ℕ) → d < 16 → good_digit lower_hex d ≡ true
lower_digit d h = table_ok_entry _ 16 d lower_table h

-- A byte in front of any text.
parse_hex-byte :
    (table : CString) (b : ℕ) (cs : CString)
    → IsByte b
    → good_digit table (b / 16 % 16) ≡ true
    → good_digit table (b % 16) ≡ true
    → parse_hex (get_or table (b / 16 % 16) 0 ∷ get_or table (b % 16) 0 ∷ cs) ≡ b ∷ parse_hex cs
unfolding parse_hex
parse_hex-byte table b cs h p q = ground arith

parse_hex-separator :
    (i : ℕ) (b : ℕ) (cs : CString) → parse_hex (separator i ++ (b ∷ cs)) ≡ parse_hex (b ∷ cs)
unfolding parse_hex
parse_hex-separator i b cs = ground arith

module _ (table : CString) (good : (d : ℕ) → d < 16 → good_digit table d ≡ true) where
  parse_hex-digits :
      (b : ℕ) (cs : CString)
      → IsByte b
      → parse_hex (get_or table (b / 16 % 16) 0 ∷ get_or table (b % 16) 0 ∷ cs) ≡ b ∷ parse_hex cs
  parse_hex-digits b cs h =
      parse_hex-byte table b cs h (good (b / 16 % 16) (omega arith)) (good (b % 16) (omega arith))

parse_hex-hex_from : (i : ℕ) (bs : List ℕ) → All IsByte bs → parse_hex (hex_from i bs) ≡ bs
unfolding hex_from
parse_hex-hex_from i [] h = unfold parse_hex in refl
parse_hex-hex_from i (b ∷ bs) h =
    parse_hex-separator i _ _
    ∙ parse_hex-digits ascii_map upper_digit b _ h.0
    ∙ ap (λ r. b ∷ r) (parse_hex-hex_from (i + 1) bs h.1)

length-hex_from :
    (i : ℕ) (bs : List ℕ)
    → length (hex_from i bs) + (i - 1) / 4 ≡ 2 * length bs + (i + length bs - 1) / 4
unfolding hex_from
length-hex_from i [] = omega arith
length-hex_from i (b ∷ bs) = ground (arith, length-hex_from (i + 1) bs)

-- `hex_to_ascii` of a list of bytes makes a text from which they can be read back, and which with its NUL
-- fits the buffer that is allocated.
pub parse_hex-hex_to_ascii :
    (bs : List ℕ)
    → All IsByte bs
    → (text : CString) × (hex_to_ascii true bs ≡ some text)
      × (parse_hex text ≡ bs)
      × (length text + 1 ≤ ascii_size (length bs))
unfolding hex_to_ascii
parse_hex-hex_to_ascii bs h =
    (hex_from 0 bs, refl, parse_hex-hex_from 0 bs h, ground (arith, length-hex_from 0 bs))

-- The bytes that stand at the digit positions of "xx-xx-xx".
unfoldable pub parse_oui : CString → List ℕ
parse_oui text = parse_hex (take 2 text ++ (take 2 (drop 3 text) ++ take 2 (drop 6 text)))

-- The text of an OUI of three bytes has 8 characters, which with the NUL fill the buffer of
-- `PM_VENDOR_OUI_LEN * 3`, and the three bytes can be read back from it.
pub pm_oui_format_roundtrip :
    (a b c : ℕ)
    → IsByte a
    → IsByte b
    → IsByte c
    → (length (pm_oui_format (a ∷ b ∷ c ∷ [])) + 1 ≡ 3 * 3)
      × (parse_oui (pm_oui_format (a ∷ b ∷ c ∷ [])) ≡ a ∷ b ∷ c ∷ [])
unfolding pm_oui_format
pm_oui_format_roundtrip a b c ha hb hc = (
  refl,
  unfold parse_oui in
      parse_hex-digits lower_hex lower_digit a _ ha
      ∙ ap (λ r. a ∷ r) (parse_hex-digits lower_hex lower_digit b _ hb)
      ∙ ap (λ r. a ∷ b ∷ r) (parse_hex-digits lower_hex lower_digit c _ hc)
      ∙ unfold parse_hex in refl,
)
