-- ===== src/Tests/Dumps.antt =====
-- The theorems on the dump at work.
use ops_pmd.Base.{
  ◌≡◌, refl, none, some, List, [], ◌∷◌, ◌++◌, CString, codes, str_eq, find, All, subst, arith,
}
use ops_pmd.Port.{PmPort, Column, Columns}
use ops_pmd.Dump.{heading, pmd_unixctl_dump}
use ops_pmd.Dump.Lines.{IsOneLine}
use ops_pmd.Dump.Names.{label_of, names}
use ops_pmd.Dump.Read.{read_column, pmd_unixctl_dump_roundtrip}
use ops_pmd.Dump.Whole.{one_by_one, pmd_unixctl_dump_whole}
use ops_pmd.Tests.Data.{sfp_port, qsfp_port}

abbrev columns : Columns
columns Column.max_speed = some (codes "40000")
columns _ = none

abbrev shown_port : PmPort
shown_port = record qsfp_port { ovs_module_columns = columns }

abbrev ports : List (CString × PmPort)
ports = (codes "1", sfp_port) ∷ (codes "2", shown_port) ∷ []

find-ports : find (codes "2") ports ≡ some shown_port
unfolding find str_eq
find-ports = refl

ports_new : find (codes "1") ((codes "2", shown_port) ∷ []) ≡ none
unfolding find str_eq
ports_new = refl

shown_port-IsOneLine :
    (c : Column) (v : CString) → shown_port.ovs_module_columns c ≡ some v → IsOneLine v
shown_port-IsOneLine Column.max_speed v e =
    subst IsOneLine (same (codes "40000") v e) (refl, (refl, (refl, (refl, (refl, tt)))))
  where
    same : (a b : CString) → some a ≡ some b → a ≡ b
    same a b e = ground arith
shown_port-IsOneLine _ v e = cc

pmd_unixctl_dump_roundtrip_example :
    let text = pmd_unixctl_dump (codes "ops-pmd/dump" ∷ codes "interface" ∷ codes "2" ∷ []) ports in
    All (λ n. read_column (label_of n.0) text ≡ shown_port.ovs_module_columns n.1) names
pmd_unixctl_dump_roundtrip_example =
    pmd_unixctl_dump_roundtrip (codes "ops-pmd/dump") (codes "2") ports shown_port find-ports
      (refl, tt) shown_port-IsOneLine

pmd_unixctl_dump_whole_example :
    pmd_unixctl_dump (codes "ops-pmd/dump" ∷ []) ports
    ≡ heading ++ one_by_one (codes "ops-pmd/dump") ports ports
unfolding find
pmd_unixctl_dump_whole_example =
    pmd_unixctl_dump_whole (codes "ops-pmd/dump") ports (ports_new, (refl, tt))
