-- ===== src/Dump/Whole.antt =====
-- src/ovsdb_access.c: the dump of all interfaces against the dumps of each.
use ops_pmd.Base.{
  ◌≡◌, some, List, [], ◌∷◌, ◌++◌, CString, codes, str_eq, find, All, ap, ◌∙◌, sym, append-nil,
  append_assoc, IsNew, HasUniqueKeys, Bool-cases, inl, inr, arith, str_eq_refl, str_eq→eq,
}
use ops_pmd.Port.{PmPort}
use ops_pmd.Dump.{
  pm_interface_dump, dump_each, heading, pm_interfaces_dump, pm_debug_dump, pmd_unixctl_dump,
}
use ops_pmd.Dump.Read.{pm_interface_dump-append, pmd_unixctl_dump_one}

-- The dumps of the interfaces of a list, one by one, as the command gives them.
abbrev pub one_by_one : CString → List (CString × PmPort) → List (CString × PmPort) → CString
one_by_one command ports [] = []
one_by_one command ports ((name, p) ∷ rest) =
    pmd_unixctl_dump (command ∷ codes "interface" ∷ name ∷ []) ports
    ++ one_by_one command ports rest

-- Each entry is the one that its name finds.
abbrev Found : List (CString × PmPort) → List (CString × PmPort) → Type 0
Found ports part = All (λ n. find n.0 ports ≡ some n.1) part

Found-cons :
    (name : CString) (p : PmPort) (ports part : List (CString × PmPort))
    → IsNew name ports
    → Found ports part
    → Found ((name, p) ∷ ports) part
unfolding find
Found-cons name p ports [] new h = tt
Found-cons name p ports ((other, q) ∷ part) new h = (
  elim (Bool-cases (str_eq name other)) [
    | inl e ↦ grind (arith, str_eq→eq name other)
    | inr e ↦ rw e h.0
  ],
  Found-cons name p ports part new h.1,
)

HasUniqueKeys-Found : (ports : List (CString × PmPort)) → HasUniqueKeys ports → Found ports ports
unfolding find
HasUniqueKeys-Found [] u = tt
HasUniqueKeys-Found ((name, p) ∷ ports) u =
    (rw (str_eq_refl name), Found-cons name p ports ports u.0 (HasUniqueKeys-Found ports u.1))

dump_each-one_by_one :
    (command ds : CString) (ports part : List (CString × PmPort))
    → Found ports part
    → dump_each ds part ≡ ds ++ one_by_one command ports part
unfolding dump_each
dump_each-one_by_one command ds ports [] h = sym (append-nil ds)
dump_each-one_by_one command ds ports ((name, p) ∷ part) h =
    dump_each-one_by_one command (pm_interface_dump ds p) ports part h.1
    ∙ ap (λ s. s ++ one_by_one command ports part) (pm_interface_dump-append ds p)
    ∙ append_assoc ds (pm_interface_dump [] p) (one_by_one command ports part)
    ∙ ap (λ s. ds ++ (s ++ one_by_one command ports part))
        (sym (pmd_unixctl_dump_one command name ports p h.0))

-- The dump without arguments is the heading and then the dump of each interface, as the command gives it
-- for its name, in the order of the map, where no name stands twice in the map.
pub pmd_unixctl_dump_whole :
    (command : CString) (ports : List (CString × PmPort))
    → HasUniqueKeys ports
    → pmd_unixctl_dump (command ∷ []) ports ≡ heading ++ one_by_one command ports ports
unfolding pmd_unixctl_dump pm_debug_dump pm_interfaces_dump
pmd_unixctl_dump_whole command ports u =
    dump_each-one_by_one command heading ports ports (HasUniqueKeys-Found ports u)
