-- ===== src/Dump.antt =====
-- The debug dump at the end of src/ovsdb_access.c and its command in src/pmd.c: the ports as text. A
-- `struct ds` is the string that it holds; `argv` is a list, and `argc` its length.
pub mod Lines
pub mod Names
pub mod Read
pub mod Whole
use ops_pmd.Base.{
  ℕ, Option, none, some, List, [], ◌∷◌, ◌++◌, CString, codes, ltb, if◌then◌else◌, length, get_or,
  str_eq, find,
}
use ops_pmd.Port.{Column, PmPort}

abbrev pub newline : ℕ
newline = 10

-- One `if` of `pm_interface_dump`.
abbrev pub put_column : CString → CString → Option CString → CString
put_column ds label none = ds
put_column ds label (some v) = ds ++ (label ++ (v ++ (newline ∷ [])))

-- The columns of the dump, each behind its label, in their order.
abbrev pub dumped : List (CString × Column)
dumped =
    (codes "    cable_length           = ", Column.cable_length)
    ∷ (codes "    cable_technology       = ", Column.cable_technology)
    ∷ (codes "    connector              = ", Column.connector)
    ∷ (codes "    connector_status       = ", Column.connector_status)
    ∷ (codes "    supported_speeds       = ", Column.supported_speeds)
    ∷ (codes "    max_speed              = ", Column.max_speed)
    ∷ (codes "    power_mode             = ", Column.power_mode)
    ∷ (codes "    vendor_name            = ", Column.vendor_name)
    ∷ (codes "    vendor_oui             = ", Column.vendor_oui)
    ∷ (codes "    vendor_part_number     = ", Column.vendor_part_number)
    ∷ (codes "    vendor_revision        = ", Column.vendor_revision)
    ∷ (codes "    vendor_serial_number   = ", Column.vendor_serial_number)
    ∷ []

-- The `if`s one after the other.
unfoldable pub put_columns : CString → List (CString × Column) → PmPort → CString
put_columns ds [] p = ds
put_columns ds ((label, c) ∷ rest) p =
    put_columns (put_column ds label (p.ovs_module_columns c)) rest p

abbrev pub interface_label : CString
interface_label = codes "Pluggable info for Interface "

unfoldable pub pm_interface_dump : CString → PmPort → CString
pm_interface_dump ds p =
    put_columns (ds ++ (interface_label ++ (p.instance_name ++ (codes ":" ++ (newline ∷ [])))))
      dumped p

-- The loop over `ovs_intfs`.
unfoldable pub dump_each : CString → List (CString × PmPort) → CString
dump_each ds [] = ds
dump_each ds ((name, p) ∷ ports) = dump_each (pm_interface_dump ds p) ports

abbrev pub heading : CString
heading = codes "================ Interfaces ================" ++ (newline ∷ [])

unfoldable pub pm_interfaces_dump : CString → List CString → List (CString × PmPort) → CString
pm_interfaces_dump ds argv ports =
    if ltb 2 (length argv)
    then elim (find (get_or argv 2 []) ports) [ none ↦ ds | some p ↦ pm_interface_dump ds p ]
    else dump_each (ds ++ heading) ports

unfoldable pub pm_debug_dump : CString → List CString → List (CString × PmPort) → CString
pm_debug_dump ds argv ports =
    if ltb 1 (length argv)
    then if str_eq (get_or argv 1 []) (codes "interface")
      then pm_interfaces_dump ds argv ports
      else ds
    else pm_interfaces_dump ds [] ports

-- The reply to the command.
unfoldable pub pmd_unixctl_dump : List CString → List (CString × PmPort) → CString
pmd_unixctl_dump argv ports = pm_debug_dump [] argv ports
