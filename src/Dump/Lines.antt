-- ===== src/Dump/Lines.antt =====
-- Texts of lines, each with a label in front, and how a value is found in them by its label.
use ops_pmd.Base.{
  ℕ, ◌≡◌, refl, Bool, true, false, Option, none, some, List, [], ◌∷◌, ◌++◌, CString, ◌==◌,
  if◌then◌else◌, arith,
}
use ops_pmd.Dump.{newline}

abbrev pub IsOneLine : CString → Type 0
IsOneLine [] = Unit
IsOneLine (c ∷ s) = ((c == newline) ≡ false) × IsOneLine s

abbrev cons_first : ℕ → List CString → List CString
cons_first c [] = (c ∷ []) ∷ []
cons_first c (line ∷ lines) = (c ∷ line) ∷ lines

-- The lines of a text, without their newlines.
unfoldable pub lines_of : CString → List CString
lines_of [] = []
lines_of (c ∷ s) = let lines = lines_of s in if c == newline then [] ∷ lines else cons_first c lines

-- What stands behind a label at the start of a line.
unfoldable pub after_label : CString → CString → Option CString
after_label [] s = some s
after_label (c ∷ label) [] = none
after_label (c ∷ label) (d ∷ s) = if c == d then after_label label s else none

unfoldable pub first_after : CString → List CString → Option CString
first_after label [] = none
first_after label (line ∷ lines) =
    let rest = first_after label lines in
    elim (after_label label line) [ none ↦ rest | some v ↦ some v ]

-- Neither of two labels is the start of the other.
unfoldable pub differ : CString → CString → Bool
differ [] s = false
differ (a ∷ as') [] = false
differ (a ∷ as') (b ∷ bs) = if a == b then differ as' bs else true

pub IsOneLine-append : (a b : CString) → IsOneLine a → IsOneLine b → IsOneLine (a ++ b)
IsOneLine-append [] b h k = k
IsOneLine-append (c ∷ a) b h k = (h.0, IsOneLine-append a b h.1 k)

pub lines_of-append : (a s : CString) → IsOneLine a → lines_of (a ++ (newline ∷ s)) ≡ a ∷ lines_of s
unfolding lines_of
lines_of-append [] s h = refl
lines_of-append (c ∷ a) s h = rw (h.0, lines_of-append a s h.1)

pub after_label-append : (label v : CString) → after_label label (label ++ v) ≡ some v
unfolding after_label
after_label-append [] v = refl
after_label-append (c ∷ label) v = ground (arith, after_label-append label v)

pub after_label-differ :
    (label other v : CString) → differ label other ≡ true → after_label label (other ++ v) ≡ none
unfolding after_label differ
after_label-differ [] other v h = cc
after_label-differ (c ∷ label) [] v h = cc
after_label-differ (c ∷ label) (d ∷ other) v h = ground (arith, after_label-differ label other v)

pub differ_sym : (a b : CString) → differ a b ≡ true → differ b a ≡ true
unfolding differ
differ_sym [] b h = cc
differ_sym (c ∷ a) [] h = cc
differ_sym (c ∷ a) (d ∷ b) h = ground (arith, differ_sym a b)
