-- ===== src/Format/Decimal.antt =====
-- include/pmd.h.in: `strtol` against "%d", on which `SET_INT_STRING` relies.
use ops_pmd.Base.{
  ℕ, zero, suc, ◌+◌, ◌/◌, ◌%◌, ◌<◌, ◌≤◌, ◌≡◌, refl, [], ◌∷◌, CString, arith, Bool-cases, inl, inr,
  ap, ◌∙◌, pos, ltb, sym, min,
}
use ops_pmd.Format.{
  digits_before, print_int, read_digits, read_based, read_signed, strtol, skip_spaces, long_max,
}

-- Reading the digits that "%d" writes in front of a text goes on with the number as accumulator.
read_digits-digits_before :
    (fuel n : ℕ) (cs : CString)
    → n < fuel
    → read_digits 10 0 (digits_before fuel n cs) ≡ read_digits 10 n cs
unfolding digits_before read_digits
read_digits-digits_before zero n cs h = absurd (omega arith)
read_digits-digits_before (suc fuel) n cs h =
    ground (arith, read_digits-digits_before fuel (n / 10) ((b'0' + n % 10) ∷ cs))

-- The first digit of a positive number is not 0.
digits_before-cons :
    (fuel n : ℕ) (cs : CString)
    → n < fuel
    → 0 < n
    → (d : ℕ) × (r : CString) × (digits_before fuel n cs ≡ d ∷ r) × (b'1' ≤ d) × (d ≤ b'9')
unfolding digits_before
digits_before-cons zero n cs h p = absurd (omega arith)
digits_before-cons (suc fuel) n cs h p = elim (Bool-cases (ltb n 10)) [
  | inl small ↦ (b'0' + n, cs, rw small, ground arith, ground arith)
  | inr large ↦ rw large (digits_before-cons fuel (n / 10) _ (ground arith) (ground arith))
]

read_based-cons :
    (d : ℕ) (r : CString) → b'1' ≤ d → d ≤ b'9' → read_based (d ∷ r) ≡ read_digits 10 0 (d ∷ r)
unfolding read_based
read_based-cons d [] lo hi = refl
read_based-cons d (c ∷ r) lo hi = ground arith

strtol-cons :
    (d : ℕ) (r : CString)
    → b'1' ≤ d
    → d ≤ b'9'
    → strtol (d ∷ r) ≡ pos (min (read_digits 10 0 (d ∷ r)) long_max)
unfolding strtol skip_spaces read_signed
strtol-cons d r lo hi = ground (arith, read_based-cons d r lo hi)

read_digits-print_int : (n : ℕ) → read_digits 10 0 (print_int n) ≡ n
unfolding print_int read_digits
read_digits-print_int n = read_digits-digits_before (suc n) n [] (omega arith)

print_int-cons :
    (n : ℕ) → 0 < n → (d : ℕ) × (r : CString) × (print_int n ≡ d ∷ r) × (b'1' ≤ d) × (d ≤ b'9')
unfolding print_int
print_int-cons n p = digits_before-cons (suc n) n [] (omega arith) p

-- Every number that a `long` holds is read back by `strtol` from the text that "%d" prints.
pub strtol-print_int : (n : ℕ) → n ≤ long_max → strtol (print_int n) ≡ pos n
strtol-print_int zero h =
    unfold strtol print_int digits_before skip_spaces read_signed read_based read_digits in refl
strtol-print_int (suc n) h =
    let (d, r, e, lo, hi) = print_int-cons (suc n) (omega arith) in
    ap strtol e
    ∙ strtol-cons d r lo hi
    ∙ ap (λ m. pos (min m long_max)) (ap (read_digits 10 0) (sym e) ∙ read_digits-print_int (suc n))
    ∙ ap pos (omega arith)
