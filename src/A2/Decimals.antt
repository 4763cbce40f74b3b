-- ===== src/A2/Decimals.antt =====
-- src/pm_dom.c and include/pmd.h.in: the text of a voltage, a power or a current.
use ops_pmd.Base.{
  ℕ, ◌+◌, ◌*◌, ◌/◌, ◌%◌, ◌^◌, ◌≤◌, ◌<◌, ◌≡◌, refl, false, List, [], ◌∷◌, ◌++◌, CString, codes,
  arith,
}
use ops_pmd.Format.{print_int}
use ops_pmd.Float.{Float, print_float, round_to, times, ten_thousandth, two_thousandths}
use ops_pmd.Float.Bounds.{hundredths, hundredths-times}
use ops_pmd.SerialId.{byte_at}
use ops_pmd.A2.{word_at, by_ten_thousandth, by_two_thousandths}

-- So many hundredths in decimal, with two digits behind the point.
abbrev pub decimal : ℕ → CString
decimal h = print_int (h / 100) ++ (codes "." ++ ((b'0' + h / 10 % 10) ∷ (b'0' + h % 10) ∷ []))

print_float-positive :
    (n : ℕ) (c : Float)
    → c.negative ≡ false
    → print_float (times n c) ≡ decimal (hundredths (times n c))
unfolding print_float times round_to
print_float-positive n c e = rw e

word_at-bound :
    (page : List ℕ) (i : ℕ)
    → byte_at page i < 256
    → byte_at page (i + 1) < 256
    → word_at page i < 2 ^ 16
word_at-bound page i h k = omega arith

-- The texts of the two conversions of a word are right to half a hundredth: a voltage or a power is shown as
-- so many hundredths that the word, in ten-thousandths, is at most 50 away, and a current as so many
-- that the word, in fifths of a hundredth, is at most two and a half away.
pub print_float-near :
    (page : List ℕ) (i : ℕ)
    → byte_at page i < 256
    → byte_at page (i + 1) < 256
    → ((h : ℕ) × (print_float (by_ten_thousandth page i) ≡ decimal h)
        × (100 * h ≤ word_at page i + 50)
        × (word_at page i ≤ 100 * h + 50))
      × ((h : ℕ) × (print_float (by_two_thousandths page i) ≡ decimal h)
          × (2 * (5 * h) ≤ 2 * word_at page i + 5)
          × (2 * word_at page i ≤ 2 * (5 * h) + 5))
unfolding by_ten_thousandth by_two_thousandths
print_float-near page i h k =
    let n = word_at page i in
    let small = word_at-bound page i h k in
    let (low, high) = hundredths-times n ten_thousandth small (omega arith) (omega arith) in
    let (low', high') = hundredths-times n two_thousandths small (omega arith) (omega arith) in
    (
      (
        hundredths (times n ten_thousandth),
        print_float-positive n ten_thousandth refl,
        omega arith,
        omega arith,
      ),
      (
        hundredths (times n two_thousandths),
        print_float-positive n two_thousandths refl,
        omega arith,
        omega arith,
      ),
    )
