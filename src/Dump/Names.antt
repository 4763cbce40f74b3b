-- ===== src/Dump/Names.antt =====
-- src/ovsdb_access.c: the names of the columns as a reader of the dump knows them.
use ops_pmd.Base.{ℕ, zero, suc, List, [], ◌∷◌, ◌++◌, CString, codes}
use ops_pmd.Port.{Column}

-- The label of a column: its name in a field of 23 characters, between four spaces and "= ".
abbrev padded : ℕ → CString → CString
padded zero name = name
padded (suc n) [] = codes " " ++ padded n []
padded (suc n) (c ∷ cs) = c ∷ padded n cs

abbrev pub label_of : CString → CString
label_of name = codes "    " ++ (padded 23 name ++ codes "= ")

-- The columns that a reader of the dump looks for, by their names.
abbrev pub names : List (CString × Column)
names =
    (codes "max_speed", Column.max_speed)
    ∷ (codes "supported_speeds", Column.supported_speeds)
    ∷ (codes "connector", Column.connector)
    ∷ (codes "connector_status", Column.connector_status)
    ∷ (codes "power_mode", Column.power_mode)
    ∷ (codes "cable_technology", Column.cable_technology)
    ∷ (codes "cable_length", Column.cable_length)
    ∷ (codes "vendor_name", Column.vendor_name)
    ∷ (codes "vendor_oui", Column.vendor_oui)
    ∷ (codes "vendor_part_number", Column.vendor_part_number)
    ∷ (codes "vendor_revision", Column.vendor_revision)
    ∷ (codes "vendor_serial_number", Column.vendor_serial_number)
    ∷ []
