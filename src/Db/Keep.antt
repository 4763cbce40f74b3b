-- ===== src/Db/Keep.antt =====
-- src/ovsdb_access.c: what holds of the ports after `pmd_reconfigure` has followed the database.
use ops_pmd.Base.{
  ◌≡◌, Bool, some, List, [], ◌∷◌, CString, All, find, add, Bool-cases, Option-cases, inl, inr,
  succeeded, modify_first-All,
}
use ops_pmd.Port.{PmPort, YamlPort}
use ops_pmd.Platform.{Platform}
use ops_pmd.Config.{pm_get_yaml_port, pm_read_yaml_files}
use ops_pmd.Db.{
  Idl, IntfRow, SubsystemRow, Pmd, new_port, intf_create, create_missing, subsys_process,
  subsystems_process, intfs_modify,
}
use ops_pmd.Db.Loop.{drop_gone, follow_db}
use ops_pmd.Db.Valid.{IsValid, subsystems_process-IsValid, intfs_modify-IsValid, intf_modify_frame}
use ops_pmd.Db.Gone.{HasRow, delete_ports-live, live, live-HasRow, live-IsValid}

-- The row stands in the database.
abbrev pub IsRow : (I : Idl) → I.Db → IntfRow → Type 0
IsRow I db intf = I.interface_get_for_uuid db intf.uuid ≡ some intf

-- The interfaces that a subsystem lists are rows of the database: it keeps its references intact.
abbrev pub ListsRows : (I : Idl) → I.Db → SubsystemRow → Type 0
ListsRows I db sub = All (IsRow I db) sub.interfaces

-- A property of ports that new ports of rows have, and that enabling a port keeps.
pub record IsTracked (P : Platform) (I : Idl) (db : I.Db) (Q : CString × PmPort → Type 0)
    : Type 0 where
  pub created :
      (intf : IntfRow) (sub_name : CString) (yaml_port : YamlPort)
      → IsRow I db intf
      → Q (intf.name, new_port P.build intf sub_name yaml_port)
  pub enabled :
      (name : CString) (p : PmPort) (enable : Bool)
      → Q (name, p)
      → Q (name, record p { hw_enable = enable })

module _ (P : Platform) (I : Idl) (db : I.Db) where
  module _ (Q : CString × PmPort → Type 0) (tracked : IsTracked P I db Q) where
    intf_create-All :
        (intf : IntfRow) (sub_name : CString) (st : Pmd) (w : P.World)
        → IsRow I db intf
        → All Q st.ovs_intfs
        → All Q (intf_create P intf sub_name st w).0.ovs_intfs
    unfolding intf_create new_port add
    intf_create-All intf sub_name st w row h =
        elim (Option-cases (pm_get_yaml_port P w sub_name intf.name)) [
          | inl e ↦ rw (e, intf_create) h
          | inr (yaml_port, e) ↦ elim (Bool-cases yaml_port.pluggable) [
            | inl k ↦ simp (e, intf_create, k) (tracked.created intf sub_name yaml_port row, h)
            | inr k ↦ rw (e, intf_create, k) h
          ]
        ]

    create_missing-All :
        (intfs : List IntfRow) (sub_name : CString) (st : Pmd) (w : P.World)
        → All (IsRow I db) intfs
        → All Q st.ovs_intfs
        → All Q (create_missing P intfs sub_name st w).0.ovs_intfs
    unfolding create_missing
    create_missing-All [] sub_name st w rows h = h
    create_missing-All (intf ∷ intfs) sub_name st w rows h =
        elim (Option-cases (find intf.name st.ovs_intfs)) [
          | inl e ↦
              rw (e, create_missing)
                (create_missing-All intfs sub_name _ _ rows.1
                  (intf_create-All intf sub_name st w rows.0 h))
          | inr (p, e) ↦ rw (e, create_missing) (create_missing-All intfs sub_name st w rows.1 h)
        ]

    subsys_process-All :
        (sub : SubsystemRow) (st : Pmd) (w : P.World)
        → ListsRows I db sub
        → All Q st.ovs_intfs
        → All Q (subsys_process P sub st w).0.ovs_intfs
    unfolding subsys_process
    subsys_process-All sub st w rows h = elim (Option-cases (find sub.name st.ovs_subs)) [
      | inr (u, e) ↦ rw (e, subsys_process) (create_missing-All sub.interfaces sub.name st w rows h)
      | inl e ↦
          let st' : Pmd = record st { ovs_subs = add sub.name sub.uuid st.ovs_subs } in
          let (rc, w') = pm_read_yaml_files P sub.name sub.hw_desc_dir w in
          elim (Bool-cases (succeeded rc)) [
            | inl s ↦
                rw (e, subsys_process, s) (create_missing-All sub.interfaces sub.name st' w' rows h)
            | inr s ↦ rw (e, subsys_process, s) h
          ]
    ]

    pub subsystems_process-All :
        (subs : List SubsystemRow) (st : Pmd) (w : P.World)
        → All (ListsRows I db) subs
        → All Q st.ovs_intfs
        → All Q (subsystems_process P subs st w).0.ovs_intfs
    unfolding subsystems_process
    subsystems_process-All [] st w rows h = h
    subsystems_process-All (sub ∷ subs) st w rows h =
        subsystems_process-All subs _ _ rows.1 (subsys_process-All sub st w rows.0 h)

    intfs_modify-All :
        (intfs : List IntfRow) (ports : List (CString × PmPort)) (w : P.World)
        → All Q ports
        → All Q (intfs_modify P intfs ports w).0
    unfolding intfs_modify
    intfs_modify-All [] ports w h = h
    intfs_modify-All (intf ∷ intfs) ports w h = elim (Option-cases (find intf.name ports)) [
      | inl e ↦ rw (e, intfs_modify) (intfs_modify-All intfs ports w h)
      | inr (p, e) ↦
          rw (e, intfs_modify)
            (intfs_modify-All intfs _ _ (
              modify_first-All Q intf.name _ ports e
                (λ j k. rw (intf_modify_frame P intf p w) (tracked.enabled j p _ k)) h))
    ]

  pub follow_db-IsValid :
      (st : Pmd) (w : P.World) → IsValid st.ovs_intfs → IsValid (follow_db I P db st w).0.ovs_intfs
  unfolding follow_db drop_gone
  follow_db-IsValid st w v =
      let start : Pmd = drop_gone I db st in
      let (mid, w') = subsystems_process P (I.subsystems db) start w in
      intfs_modify-IsValid P (I.interfaces db) mid.ovs_intfs w' (
        subsystems_process-IsValid P (I.subsystems db) start w
          (rw (delete_ports-live I db st.ovs_intfs v) (live-IsValid I db st.ovs_intfs v)))

  pub follow_db-All :
      (Q : CString × PmPort → Type 0) (tracked : IsTracked P I db Q) (st : Pmd) (w : P.World)
      → All (ListsRows I db) (I.subsystems db)
      → IsValid st.ovs_intfs
      → All Q (live I db st.ovs_intfs)
      → All Q (follow_db I P db st w).0.ovs_intfs
  unfolding follow_db drop_gone
  follow_db-All Q tracked st w rows v h =
      let start : Pmd = drop_gone I db st in
      let (mid, w') = subsystems_process P (I.subsystems db) start w in
      intfs_modify-All Q tracked (I.interfaces db) mid.ovs_intfs w' (
        subsystems_process-All Q tracked (I.subsystems db) start w rows
          (rw (delete_ports-live I db st.ovs_intfs v) h))

  HasRow-IsTracked : IsTracked P I db (HasRow I db)
  unfolding new_port
  HasRow-IsTracked = record {
    created = λ intf sub_name yaml_port row. (intf, row);
    enabled = λ name p enable h. h;
  }

  -- After the daemon has followed a change of the database, every port it keeps has a row there, if
  -- the map of ports was valid before and the subsystems list rows of the database.
  pub follow_db-HasRow :
      (st : Pmd) (w : P.World)
      → All (ListsRows I db) (I.subsystems db)
      → IsValid st.ovs_intfs
      → All (HasRow I db) (follow_db I P db st w).0.ovs_intfs
  follow_db-HasRow st w rows v =
      follow_db-All (HasRow I db) HasRow-IsTracked st w rows v (live-HasRow I db st.ovs_intfs)
