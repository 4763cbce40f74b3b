-- ===== src/Port/Deleted.antt =====
-- src/plug.c: the columns behind `pm_delete_all_data`.
use ops_pmd.Base.{◌≡◌, none, ◌==◌, if◌then◌else◌}
use ops_pmd.Port.{Column, index, PmPort, pm_delete_all_data}
use ops_pmd.Port.Laws.{columns-delete, columns-delete_free, rest, rest-delete, rest-delete_free}

-- After `pm_delete_all_data` every column is empty but the connector, which stays as it was.
pub columns-pm_delete_all_data :
    (d : Column) (p : PmPort)
    → (pm_delete_all_data p).ovs_module_columns d
      ≡ (if index Column.connector == index d then p.ovs_module_columns d else none)
unfolding pm_delete_all_data
columns-pm_delete_all_data Column.cable_length p = simp (columns-delete, columns-delete_free)
columns-pm_delete_all_data _ p = simp (columns-delete, columns-delete_free)

pub rest-pm_delete_all_data : (p : PmPort) → rest (pm_delete_all_data p) ≡ rest p
unfolding pm_delete_all_data
rest-pm_delete_all_data p = simp (rest-delete, rest-delete_free)
