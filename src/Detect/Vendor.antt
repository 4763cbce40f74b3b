-- ===== src/Detect/Vendor.antt =====
-- src/pm_detect.c: what the fields of a page that describe the vendor say, and the texts that it makes of them.
use ops_pmd.Base.{
  ℕ, zero, suc, ◌+◌, ◌≤◌, ◌≡◌, refl, List, [], ◌∷◌, CString, c_string, length, arith, All, drop,
  take, ap,
}
use ops_pmd.Format.{pm_oui_format}
use ops_pmd.Format.Hex.{IsByte, parse_oui, pm_oui_format_roundtrip}
use ops_pmd.SerialId.{array_at}
use ops_pmd.Detect.{text_field}
use ops_pmd.Detect.Fields.{rstrip, text_field-rstrip}

-- The `n` bytes of a page from byte `i` on.
abbrev pub field : List ℕ → ℕ → ℕ → List ℕ
field page i n = take n (drop i page)

-- What a field filled up with spaces says: up to a NUL, without the spaces at its end, but with its first
-- character even where that is a space.
abbrev pub shown_text : List ℕ → CString
shown_text [] = []
shown_text (c ∷ cs) = c_string (c ∷ rstrip cs)

abbrev pub text_in : List ℕ → ℕ → ℕ → CString
text_in page i n = shown_text (field page i n)

length-field : (page : List ℕ) (i n : ℕ) → i + n ≤ length page → length (field page i n) ≡ n
length-field page zero zero h = refl
length-field [] zero (suc n) h = absurd (omega arith)
length-field (x ∷ page) zero (suc n) h = ap suc (length-field page zero n (omega arith))
length-field [] (suc i) n h = absurd (omega arith)
length-field (x ∷ page) (suc i) n h = length-field page i n (omega arith)

field-IsByte : (page : List ℕ) (i n : ℕ) → All IsByte page → All IsByte (field page i n)
field-IsByte page zero zero h = tt
field-IsByte [] zero (suc n) h = tt
field-IsByte (x ∷ page) zero (suc n) h = (h.0, field-IsByte page zero n h.1)
field-IsByte [] (suc i) zero h = tt
field-IsByte [] (suc i) (suc n) h = tt
field-IsByte (x ∷ page) (suc i) n h = field-IsByte page i n h.1

text_field-shown : (xs : List ℕ) (n : ℕ) → length xs ≡ suc n → text_field (suc n) xs ≡ shown_text xs
text_field-shown [] n h = absurd (omega arith)
text_field-shown (c ∷ cs) n h = text_field-rstrip (suc n) c cs h

pub text_field-text_in :
    (page : List ℕ) (i n : ℕ)
    → length page ≡ 128
    → i + suc n ≤ 128
    → text_field (suc n) (array_at page i (suc n)) ≡ text_in page i (suc n)
text_field-text_in page i n whole h =
    text_field-shown (field page i (suc n)) n (length-field page i (suc n) (omega arith))

pm_oui_format-three :
    (xs : List ℕ)
    → length xs ≡ 3
    → All IsByte xs
    → (length (pm_oui_format xs) ≡ 8) × (parse_oui (pm_oui_format xs) ≡ xs)
pm_oui_format-three [] h bytes = absurd (omega arith)
pm_oui_format-three (a ∷ []) h bytes = absurd (omega arith)
pm_oui_format-three (a ∷ b ∷ []) h bytes = absurd (omega arith)
pm_oui_format-three (a ∷ b ∷ c ∷ []) h (x, (y, (z, _))) =
    let (size, read) = pm_oui_format_roundtrip a b c x y z in (omega arith, read)
pm_oui_format-three (a ∷ b ∷ c ∷ d ∷ xs) h bytes = absurd (omega arith)

pub pm_oui_format-field :
    (page : List ℕ) (i : ℕ)
    → length page ≡ 128
    → All IsByte page
    → i + 3 ≤ 128
    → (length (pm_oui_format (field page i 3)) ≡ 8)
      × (parse_oui (pm_oui_format (field page i 3)) ≡ field page i 3)
pm_oui_format-field page i whole bytes h =
    pm_oui_format-three (field page i 3) (length-field page i 3 (omega arith))
      (field-IsByte page i 3 bytes)
