-- ===== src/Detect/Report.antt =====
-- src/pm_detect.c: what `pm_parse` reports of a module, against a table of the compliance codes.
use ops_pmd.Base.{ℕ, ◌≤◌, ◌≡◌, refl, Bool, true, none, some, List, CString, pos, arith, ap, ◌∙◌}
use ops_pmd.Format.{print_int, speeds_from, long_max}
use ops_pmd.Port.{
  Column, index, PmPort, set_static_string, set_string, set_binary, delete, set_supported_speeds,
}
use ops_pmd.Port.Laws.{
  as_int, columns-set_string, columns-set_int_string_ne, as_int-set_int_string, columns-delete,
  columns-delete_free, rest-set_string, rest-set_int_string, rest-delete, rest-delete_free,
  delete-marked, delete_free-marked, set_string-marked,
}
use ops_pmd.Detect.{Build, ConnectorKind, Status, report}

-- What a module is: optical or copper, its kind, whether it is supported, and its speed in Mb/s.
pub record Verdict : Type 0 where
  pub is_optical : Bool
  pub kind : ConnectorKind
  pub status : Status
  pub speed : ℕ

module _ (build : Build) where
  -- The columns of a port show a verdict, and no cable data.
  pub record Shows (v : Verdict) (p : PmPort) : Type 0 where
    pub connector : p.ovs_module_columns Column.connector ≡ some (build.connector_name v.kind)
    pub status : p.ovs_module_columns Column.connector_status ≡ some (build.status_name v.status)
    pub max_speed : as_int (p.ovs_module_columns Column.max_speed) ≡ some (pos v.speed)
    pub speeds : p.ovs_module_columns Column.supported_speeds ≡ some (print_int v.speed)
    pub technology : p.ovs_module_columns Column.cable_technology ≡ none
    pub cable_length : p.ovs_module_columns Column.cable_length ≡ none
    pub optical : p.optical ≡ v.is_optical
    pub changed : p.module_info_changed ≡ true

  pub report-Shows :
      (o : Bool) (k : ConnectorKind) (s : Status) (n : ℕ) (p : PmPort)
      → n ≤ long_max
      → Shows (record { is_optical = o; kind = k; status = s; speed = n }) (report build o k s n p)
  unfolding report set_static_string set_supported_speeds speeds_from
  report-Shows o k s n p h = record {
    connector = simp (columns-delete_free, columns-delete) (columns-set_int_string_ne _ _ n _ refl);
    status = simp (columns-delete_free, columns-delete) (columns-set_int_string_ne _ _ n _ refl);
    max_speed =
        simp (columns-delete_free, columns-delete) (as_int-set_int_string Column.max_speed n _ h);
    speeds = simp (columns-delete_free, columns-delete);
    technology = simp (columns-delete_free, columns-delete);
    cable_length = simp columns-delete_free;
    optical =
        ap (λ q. q.optical)
          (rest-delete_free Column.cable_length _
            ∙ rest-delete Column.cable_technology _
            ∙ rest-set_int_string Column.max_speed n _);
    changed = delete_free-marked _ _ (delete-marked _ _ refl);
  }

  -- The columns of the vendor and of the pages stand behind those that `Shows` speaks of.
  pub set_string-Shows :
      (c : Column) (t : CString) {v : Verdict} {p : PmPort}
      → 6 ≤ index c
      → Shows v p
      → Shows v (set_string c t p)
  set_string-Shows c t {v} {p} h s = record {
    connector = columns-set_string c _ t p ∙ ground arith;
    status = columns-set_string c _ t p ∙ ground arith;
    max_speed = ap as_int (columns-set_string c _ t p) ∙ ground arith;
    speeds = columns-set_string c _ t p ∙ ground arith;
    technology = columns-set_string c _ t p ∙ ground arith;
    cable_length = columns-set_string c _ t p ∙ ground arith;
    optical = ap (λ q. q.optical) (rest-set_string c t p) ∙ s.optical;
    changed = set_string-marked c t p s.changed;
  }

  pub delete-Shows :
      (c : Column) {v : Verdict} {p : PmPort} → 6 ≤ index c → Shows v p → Shows v (delete c p)
  delete-Shows c {v} {p} h s = record {
    connector = columns-delete c _ p ∙ ground arith;
    status = columns-delete c _ p ∙ ground arith;
    max_speed = ap as_int (columns-delete c _ p) ∙ ground arith;
    speeds = columns-delete c _ p ∙ ground arith;
    technology = columns-delete c _ p ∙ ground arith;
    cable_length = columns-delete c _ p ∙ ground arith;
    optical = ap (λ q. q.optical) (rest-delete c p) ∙ s.optical;
    changed = delete-marked c p s.changed;
  }

  pub set_binary-Shows :
      (c : Column) (bytes : List ℕ) {v : Verdict} {p : PmPort}
      → 6 ≤ index c
      → Shows v p
      → Shows v (set_binary true c bytes p)
  unfolding set_binary
  set_binary-Shows c bytes {v} {p} h s = ground arith
