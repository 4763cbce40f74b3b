-- ===== src/Dump/Read.antt =====
-- src/ovsdb_access.c: the dump of one interface against the columns of its port.
use ops_pmd.Base.{
  ◌≡◌, ◌==◌, refl, Bool, true, false, ◌&&◌, Option, none, some, List, [], ◌∷◌, ◌++◌, CString, codes,
  str_eq, find, All, Option-cases, inl, inr, arith, ap, ◌∙◌, sym, append-nil, append_assoc,
  if◌then◌else◌,
}
use ops_pmd.Port.{Column, PmPort}
use ops_pmd.Dump.{
  newline, dumped, put_columns, interface_label, pm_interface_dump, pm_interfaces_dump,
  pm_debug_dump, pmd_unixctl_dump,
}
use ops_pmd.Dump.Names.{label_of, names}
use ops_pmd.Dump.Lines.{
  IsOneLine, lines_of, first_after, differ, IsOneLine-append, lines_of-append, after_label-append,
  after_label-differ, differ_sym,
}

-- The value of a column as a reader finds it in a dump.
abbrev pub read_column : CString → CString → Option CString
read_column label text = first_after label (lines_of text)

-- No column of the port runs over a line.
abbrev pub HasOneLineColumns : PmPort → Type 0
HasOneLineColumns p = (c : Column) (v : CString) → p.ovs_module_columns c ≡ some v → IsOneLine v

abbrev differ_all : CString → List (CString × Column) → Bool
differ_all label [] = true
differ_all label ((other, c) ∷ rest) = differ label other && differ_all label rest

abbrev distinct_labels : List (CString × Column) → Bool
distinct_labels [] = true
distinct_labels ((label, c) ∷ rest) = differ_all label rest && distinct_labels rest

put_columns-append :
    (ds : CString) (columns : List (CString × Column)) (p : PmPort)
    → put_columns ds columns p ≡ ds ++ put_columns [] columns p
unfolding put_columns
put_columns-append ds [] p = sym (append-nil ds)
put_columns-append ds ((label, c) ∷ rest) p = elim (Option-cases (p.ovs_module_columns c)) [
  | inl e ↦ rw e (put_columns-append ds rest p)
  | inr (v, e) ↦
      let text = label ++ (v ++ (newline ∷ [])) in
      rw e (
        put_columns-append (ds ++ text) rest p
        ∙ append_assoc ds text (put_columns [] rest p)
        ∙ ap (λ s. ds ++ s) (sym (put_columns-append text rest p)))
]

module _ (p : PmPort) (whole : HasOneLineColumns p) where
  lines_of-put_columns :
      (label : CString) (c : Column) (v : CString) (rest : List (CString × Column))
      → IsOneLine label
      → p.ovs_module_columns c ≡ some v
      → lines_of (put_columns [] ((label, c) ∷ rest) p)
        ≡ (label ++ v) ∷ lines_of (put_columns [] rest p)
  unfolding put_columns
  lines_of-put_columns label c v rest one e = rw e (
      ap lines_of (
        put_columns-append (label ++ (v ++ (newline ∷ []))) rest p
        ∙ ap (λ s. s ++ put_columns [] rest p) (sym (append_assoc label v (newline ∷ [])))
        ∙ append_assoc (label ++ v) (newline ∷ []) (put_columns [] rest p))
      ∙ lines_of-append (label ++ v) (put_columns [] rest p)
          (IsOneLine-append label v one (whole c v e)))

  -- A column of the port adds nothing to what is found behind another label.
  read_other :
      (label other : CString) (c : Column) (rest : List (CString × Column))
      → IsOneLine other
      → differ label other ≡ true
      → read_column label (put_columns [] ((other, c) ∷ rest) p)
        ≡ read_column label (put_columns [] rest p)
  unfolding put_columns first_after
  read_other label other c rest one d = elim (Option-cases (p.ovs_module_columns c)) [
    | inl e ↦ rw e
    | inr (v, e) ↦
        ap (first_after label) (lines_of-put_columns other c v rest one e)
        ∙ rw (after_label-differ label other v d, first_after)
  ]

  read_self :
      (label : CString) (c : Column) (rest : List (CString × Column))
      → IsOneLine label
      → read_column label (put_columns [] rest p) ≡ none
      → read_column label (put_columns [] ((label, c) ∷ rest) p) ≡ p.ovs_module_columns c
  unfolding put_columns first_after
  read_self label c rest one none_behind = elim (Option-cases (p.ovs_module_columns c)) [
    | inl e ↦ rw e none_behind
    | inr (v, e) ↦
        ap (first_after label) (lines_of-put_columns label c v rest one e)
        ∙ rw (after_label-append label v, first_after) (sym e)
  ]

  read_fresh :
      (label : CString) (columns : List (CString × Column))
      → All (λ n. IsOneLine n.0) columns
      → differ_all label columns ≡ true
      → read_column label (put_columns [] columns p) ≡ none
  unfolding put_columns first_after lines_of
  read_fresh label [] one d = refl
  read_fresh label ((other, c) ∷ rest) one d =
      read_other label other c rest one.0 (ground arith)
      ∙ read_fresh label rest one.1 (ground arith)

  -- Behind each label stands the column.
  abbrev Reads : CString → List (CString × Column) → Type 0
  Reads text columns = All (λ n. read_column n.0 text ≡ p.ovs_module_columns n.1) columns

  Reads-cons :
      (label : CString) (c : Column) (columns rest : List (CString × Column))
      → IsOneLine label
      → differ_all label rest ≡ true
      → Reads (put_columns [] columns p) rest
      → Reads (put_columns [] ((label, c) ∷ columns) p) rest
  Reads-cons label c columns [] one d h = tt
  Reads-cons label c columns ((other, k) ∷ rest) one d h = (
    read_other other label c columns one (differ_sym label other (ground arith)) ∙ h.0,
    Reads-cons label c columns rest one (ground arith) h.1,
  )

  put_columns-Reads :
      (columns : List (CString × Column))
      → All (λ n. IsOneLine n.0) columns
      → distinct_labels columns ≡ true
      → Reads (put_columns [] columns p) columns
  put_columns-Reads [] one d = tt
  put_columns-Reads ((label, c) ∷ rest) one d = (
    read_self label c rest one.0 (read_fresh label rest one.1 (ground arith)),
    Reads-cons label c rest rest one.0 (ground arith) (put_columns-Reads rest one.1 (ground arith)),
  )

abbrev one_line : CString → Bool
one_line [] = true
one_line (c ∷ s) = if c == newline then false else one_line s

one_line-IsOneLine : (s : CString) → one_line s ≡ true → IsOneLine s
one_line-IsOneLine [] h = tt
one_line-IsOneLine (c ∷ s) h = (ground arith, one_line-IsOneLine s (ground arith))

-- A label is one line and differs from the start of the first line of a dump.
abbrev sound_labels : List (CString × Column) → Bool
sound_labels [] = true
sound_labels ((label, c) ∷ rest) =
    one_line label && (differ label interface_label && sound_labels rest)

sound_labels-All :
    (columns : List (CString × Column))
    → sound_labels columns ≡ true
    → All (λ n. IsOneLine n.0) columns × All (λ n. differ n.0 interface_label ≡ true) columns
sound_labels-All [] h = (tt, tt)
sound_labels-All ((label, c) ∷ rest) h =
    let (one, other) = sound_labels-All rest (ground arith) in
    ((one_line-IsOneLine label (ground arith), one), (ground arith, other))

sound_labels-dumped : (sound_labels dumped ≡ true) × (distinct_labels dumped ≡ true)
unfolding differ
sound_labels-dumped = (refl, refl)

pub pm_interface_dump-append :
    (ds : CString) (p : PmPort) → pm_interface_dump ds p ≡ ds ++ pm_interface_dump [] p
unfolding pm_interface_dump
pm_interface_dump-append ds p =
    let first = interface_label ++ (p.instance_name ++ (codes ":" ++ (newline ∷ []))) in
    put_columns-append (ds ++ first) dumped p
    ∙ append_assoc ds first (put_columns [] dumped p)
    ∙ ap (λ s. ds ++ s) (sym (put_columns-append first dumped p))

lines_of-pm_interface_dump :
    (p : PmPort)
    → IsOneLine p.instance_name
    → lines_of (pm_interface_dump [] p)
      ≡ (interface_label ++ (p.instance_name ++ codes ":")) ∷ lines_of (put_columns [] dumped p)
unfolding pm_interface_dump
lines_of-pm_interface_dump p h =
    let first = interface_label ++ (p.instance_name ++ codes ":") in
    ap lines_of (
      put_columns-append (interface_label ++ (p.instance_name ++ (codes ":" ++ (newline ∷ []))))
        dumped p
      ∙ ap (λ s. s ++ put_columns [] dumped p)
          (ap (λ s. interface_label ++ s)
              (sym (append_assoc p.instance_name (codes ":") (newline ∷ [])))
            ∙ sym (append_assoc interface_label (p.instance_name ++ codes ":") (newline ∷ [])))
      ∙ append_assoc first (newline ∷ []) (put_columns [] dumped p))
    ∙ lines_of-append first (put_columns [] dumped p) (
        IsOneLine-append interface_label (p.instance_name ++ codes ":")
          (one_line-IsOneLine interface_label refl)
          (IsOneLine-append p.instance_name (codes ":") h (one_line-IsOneLine (codes ":") refl)))

Reads-pm_interface_dump :
    (p : PmPort) (whole : HasOneLineColumns p) (columns : List (CString × Column))
    → IsOneLine p.instance_name
    → All (λ n. differ n.0 interface_label ≡ true) columns
    → Reads p whole (put_columns [] dumped p) columns
    → Reads p whole (pm_interface_dump [] p) columns
unfolding first_after
Reads-pm_interface_dump p whole [] one d h = tt
Reads-pm_interface_dump p whole ((label, c) ∷ rest) one d h = (
  ap (first_after label) (lines_of-pm_interface_dump p one)
      ∙ rw
          (after_label-differ label interface_label (p.instance_name ++ codes ":") d.0, first_after)
          h.0,
  Reads-pm_interface_dump p whole rest one d.1 h.1,
)

pub pmd_unixctl_dump_one :
    (command name : CString) (ports : List (CString × PmPort)) (p : PmPort)
    → find name ports ≡ some p
    → pmd_unixctl_dump (command ∷ codes "interface" ∷ name ∷ []) ports ≡ pm_interface_dump [] p
unfolding pmd_unixctl_dump pm_debug_dump pm_interfaces_dump str_eq
pmd_unixctl_dump_one command name ports p e = rw e

-- The dump of an interface tells all: each of its twelve columns is what stands in the text behind the
-- label made of the column's own name, or missing where no line has that label, if the name of the port
-- and its columns hold no newline.
pub pmd_unixctl_dump_roundtrip :
    (command name : CString) (ports : List (CString × PmPort)) (p : PmPort)
    → find name ports ≡ some p
    → IsOneLine p.instance_name
    → HasOneLineColumns p
    → let text = pmd_unixctl_dump (command ∷ codes "interface" ∷ name ∷ []) ports in
      All (λ n. read_column (label_of n.0) text ≡ p.ovs_module_columns n.1) names
pmd_unixctl_dump_roundtrip command name ports p e one whole =
    let (lines, others) = sound_labels-All dumped sound_labels-dumped.0 in
    let (length, (technology, (connector, (status, (speeds, (max_speed, (power, rest))))))) =
      Reads-pm_interface_dump p whole dumped one others
        (put_columns-Reads p whole dumped lines sound_labels-dumped.1) in
    rw (pmd_unixctl_dump_one command name ports p e)
      (max_speed, (speeds, (connector, (status, (power, (technology, (length, rest)))))))
