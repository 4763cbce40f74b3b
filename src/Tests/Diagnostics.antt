-- ===== src/Tests/Diagnostics.antt =====
-- The theorems on the page of diagnostics at work: a module at 3.3 volts.
use ops_pmd.Base.{
  zero, suc, All, [], ◌≡◌, ◌≤◌, ◌+◌, ◌*◌, ℕ, refl, true, some, List, ◌∷◌, ◌++◌, replicate, str_eq,
  arith,
}
use ops_pmd.Format.{hex_to_ascii}
use ops_pmd.Format.Hex.{IsByte}
use ops_pmd.Port.{Column, vcc, reading, put}
use ops_pmd.Detect.{sfp_plus, module_type}
use ops_pmd.Dom.{pm_set_a2}
use ops_pmd.Dom.Memory.{number, in_ten_thousandths}
use ops_pmd.Dom.After.{IsAfter, pm_set_a2-IsAfter}
use ops_pmd.Float.{print_float}
use ops_pmd.A2.{celsius, word_at, by_ten_thousandth, by_two_thousandths}
use ops_pmd.A2.Decimals.{decimal, print_float-near}
use ops_pmd.A2.Degrees.{degrees, print_float-celsius}
use ops_pmd.Tests.Data.{a_build, sfp_port}

-- Bytes 98 and 99 hold 33000 units of 100 microvolts.
abbrev a2_page : List ℕ
a2_page = replicate 98 0 ++ (128 ∷ 232 ∷ replicate 28 0)

sfp_port-type : module_type sfp_port ≡ some sfp_plus
unfolding module_type str_eq
sfp_port-type = refl

replicate-IsByte : (n : ℕ) → All IsByte (replicate n 0)
replicate-IsByte zero = tt
replicate-IsByte (suc n) = (omega arith, replicate-IsByte n)

append-IsByte : (xs ys : List ℕ) → All IsByte xs → All IsByte ys → All IsByte (xs ++ ys)
append-IsByte [] ys h k = k
append-IsByte (x ∷ xs) ys h k = (h.0, append-IsByte xs ys h.1 k)

a2_page-IsByte : All IsByte a2_page
a2_page-IsByte =
    append-IsByte (replicate 98 0) (128 ∷ 232 ∷ replicate 28 0) (replicate-IsByte 98)
      (omega arith, (omega arith, replicate-IsByte 28))

pm_set_a2-IsAfter_example :
    let q = pm_set_a2 a_build a2_page sfp_port in
    IsAfter a2_page sfp_port q (reading vcc) (some (number in_ten_thousandths 98))
    × (q ≡ record sfp_port {
      ovs_module_columns = put Column.a2 (hex_to_ascii true a2_page) sfp_port.ovs_module_columns;
      ovs_module_dom_columns = q.ovs_module_dom_columns;
      module_info_changed = true;
    })
pm_set_a2-IsAfter_example =
    pm_set_a2-IsAfter a_build a2_page sfp_port sfp_plus (reading vcc) a2_page-IsByte refl
      sfp_port-type

-- 25 degrees and a half.
abbrev warm_page : List ℕ
warm_page = replicate 96 0 ++ (25 ∷ 128 ∷ replicate 30 0)

print_float-celsius_example : print_float (celsius warm_page 96) ≡ degrees 25
print_float-celsius_example = print_float-celsius warm_page 96 (omega arith) (omega arith)

print_float-near_example :
    ((h : ℕ) × (print_float (by_ten_thousandth a2_page 98) ≡ decimal h)
      × (100 * h ≤ word_at a2_page 98 + 50)
      × (word_at a2_page 98 ≤ 100 * h + 50))
    × ((h : ℕ) × (print_float (by_two_thousandths a2_page 98) ≡ decimal h)
        × (2 * (5 * h) ≤ 2 * word_at a2_page 98 + 5)
        × (2 * word_at a2_page 98 ≤ 2 * (5 * h) + 5))
print_float-near_example = print_float-near a2_page 98 (omega arith) (omega arith)
