-- ===== src/Daemon/Sync.antt =====
-- src/pmd.c: a round of the daemon keeps the database up to date with the ports.
use ops_pmd.Base.{
  ◌≡◌, true, false, ◌⊎◌, inl, inr, some, List, [], ◌∷◌, CString, All, ◌==◌, Bool-cases, ap, ◌∙◌,
  sym, subst, arith,
}
use ops_pmd.Port.{PmPort}
use ops_pmd.Platform.{Platform}
use ops_pmd.Plug.{pm_read_module_state, pm_read_state, pm_read_port_state}
use ops_pmd.Plug.Told.{pm_read_module_state-cases}
use ops_pmd.Plug.Read.{pm_read_module_state-fixed}
use ops_pmd.Db.{Idl, IntfRow, Pmd, new_port}
use ops_pmd.Db.Loop.{pmd_reconfigure, pm_info}
use ops_pmd.Db.Valid.{IsKept, IsValid}
use ops_pmd.Db.Gone.{live-All}
use ops_pmd.Db.Keep.{ListsRows, IsTracked, follow_db-All}
use ops_pmd.Db.Sync.{PmInfoColumn, IsSynced, IsPublished}
use ops_pmd.Db.Sync.Update.{pm_ovsdb_update-IsPublished}
use ops_pmd.Daemon.{State, scan}
use ops_pmd.Daemon.Invariant.{pm_read_state-Alike, IsValid-Alike, pmd_reconfigure-IsValid}

module _ (P : Platform) where
  -- A pass over a pluggable port leaves it as it is or marks it.
  pm_read_module_state-marks :
      (p : PmPort) (w : P.World)
      → p.module_device.pluggable ≡ true
      → ((pm_read_module_state P p w).1 ≡ p)
        ⊎ ((pm_read_module_state P p w).1.module_info_changed ≡ true)
  pm_read_module_state-marks p w h = elim (pm_read_module_state-cases P p w h) [
    | inl same ↦ inl same
    | inr (t, e, read) ↦ inr read.shown.changed
  ]

  module _ (I : Idl) (column : PmInfoColumn I) where
    pub new_port-IsSynced : (db : I.Db) → IsTracked P I db (IsSynced I column db)
    unfolding new_port
    new_port-IsSynced db = record {
      created = λ intf sub_name yaml_port is_row row found.
          (ap (λ r. r.name) (same_row (sym found ∙ is_row)), λ present. absurd (unread present));
      enabled = λ name p enable h. unfold pm_info in h;
    }
      where
        same_row : {a b : IntfRow} → some a ≡ some b → a ≡ b
        same_row e = ground arith

        unread : false ≡ true → ⊥
        unread e = cc

    pm_read_state-IsSynced :
        (db : I.Db) (ports : List (CString × PmPort)) (w : P.World)
        → All IsKept ports
        → All (IsSynced I column db) ports
        → All (IsSynced I column db) (pm_read_state P ports w).0
    unfolding pm_read_state pm_read_port_state
    pm_read_state-IsSynced db [] w kept h = tt
    pm_read_state-IsSynced db ((name, p) ∷ ports) w kept h = (
      elim (pm_read_module_state-marks p w kept.0.1) [
        | inl same ↦ subst (λ q. IsSynced I column db (name, q)) (sym same) h.0
        | inr marked ↦
            let same = pm_read_module_state-fixed P p w in
            λ row found. (
              (h.0 row (ap (I.interface_get_for_uuid db) (sym (ap (λ q. q.uuid) same)) ∙ found)).0
                  ∙ sym (ap (λ q. q.instance_name) same),
              λ present unmarked. absurd (both (sym marked ∙ unmarked)),
            )
      ],
      pm_read_state-IsSynced db ports _ kept.1 h.1,
    )
      where
        both : true ≡ false → ⊥
        both e = cc

    pmd_reconfigure-IsSynced :
        (db : I.Db) (st : Pmd) (w : P.World)
        → All (ListsRows I db) (I.subsystems db)
        → IsValid st.ovs_intfs
        → All (IsSynced I column db) st.ovs_intfs
        → All (IsSynced I column db) (pmd_reconfigure I P db st w).0.ovs_intfs
    unfolding pmd_reconfigure
    pmd_reconfigure-IsSynced db st w rows v h = elim (Bool-cases (I.get_seqno db == st.idl_seqno)) [
      | inl e ↦ rw (e, pmd_reconfigure) h
      | inr e ↦
          rw (e, pmd_reconfigure)
            (follow_db-All P I db (IsSynced I column db) (new_port-IsSynced db)
              (record st { idl_seqno = I.get_seqno db }) w rows v
              (live-All I db (IsSynced I column db) st.ovs_intfs h))
    ]

    -- Behind a round with the lock every port with a row is unmarked, and if it has been read, the column
    -- `pm_info` of its row holds its map. It is assumed that the map of ports is valid, that the
    -- subsystems list rows of the database, and that before the round the row of a port, if it has one,
    -- has the port's name and holds the port's map, unless the port is marked or has not been read.
    pub scan-IsPublished :
        (s : State I P)
        → All (ListsRows I s.db) (I.subsystems s.db)
        → IsValid s.pmd.ovs_intfs
        → All (IsSynced I column s.db) s.pmd.ovs_intfs
        → All (IsPublished I column (scan I P s).db) (scan I P s).pmd.ovs_intfs
    unfolding scan
    scan-IsPublished s rows v h =
        let (st1, w1) = pmd_reconfigure I P s.db s.pmd s.world in
        let ports = (pm_read_state P st1.ovs_intfs w1).0 in
        let valid = pmd_reconfigure-IsValid P I s.db s.pmd s.world v in
        pm_ovsdb_update-IsPublished I column (record st1 { ovs_intfs = ports }) s.db
          (IsValid-Alike st1.ovs_intfs ports (pm_read_state-Alike P st1.ovs_intfs w1) valid)
          (pm_read_state-IsSynced s.db st1.ovs_intfs w1 valid.kept
            (pmd_reconfigure-IsSynced s.db s.pmd s.world rows v h))
