-- ===== src/Db/Loop.antt =====
-- src/ovsdb_access.c: `pmd_configure`, `pmd_reconfigure` and `pm_ovsdb_update`, which the main loop
-- calls. A SHASH_FOR_EACH_SAFE loop goes over the entries that stood there when it began.
use ops_pmd.Base.{
  ℕ, Bool, true, false, not, Option, none, some, List, [], ◌∷◌, ◌++◌, CString, codes, ◌==◌,
  if◌then◌else◌, str_eq, delete_first,
}
use ops_pmd.Port.{Column, PmPort}
use ops_pmd.Platform.{Platform}
use ops_pmd.Db.{Idl, DaemonRow, Pmd, Smap, subsystems_process, intfs_modify, intfs_configure}

-- A key of the map for a column that is set.
abbrev pub entry : CString → Option CString → Smap
entry key none = []
entry key (some v) = (key, v) ∷ []

-- The map that is written for a port. `smap_add` has no order that a reader could see.
unfoldable pub pm_info : PmPort → Smap
pm_info p =
    entry (codes "connector") (p.ovs_module_columns Column.connector)
    ++ (entry (codes "connector_status") (p.ovs_module_columns Column.connector_status)
        ++ (entry (codes "supported_speeds") (p.ovs_module_columns Column.supported_speeds)
            ++ entry (codes "max_speed") (p.ovs_module_columns Column.max_speed)))

module _ (I : Idl) where
  open I use {Db}

  -- The loop over `ovs_intfs` that deletes the ports whose row is gone: `ports` are the entries still
  -- to come, `kept` is the map.
  unfoldable pub delete_ports :
      Db → List (CString × PmPort) → List (CString × PmPort) → List (CString × PmPort)
  delete_ports db [] kept = kept
  delete_ports db ((name, p) ∷ ports) kept =
      delete_ports db ports (elim (I.interface_get_for_uuid db p.uuid) [
        | none ↦ delete_first p.instance_name kept
        | some _ ↦ kept
      ])

  -- The same for `ovs_subs`, by the name of the entry.
  unfoldable pub delete_subsystems :
      Db → List (CString × ℕ) → List (CString × ℕ) → List (CString × ℕ)
  delete_subsystems db [] kept = kept
  delete_subsystems db ((name, uuid) ∷ subs) kept =
      delete_subsystems db subs
        (elim (I.subsystem_get_for_uuid db uuid) [ none ↦ delete_first name kept | some _ ↦ kept ])

  unfoldable pub drop_gone : Db → Pmd → Pmd
  drop_gone db st = record st {
    ovs_intfs = delete_ports db st.ovs_intfs st.ovs_intfs;
    ovs_subs = delete_subsystems db st.ovs_subs st.ovs_subs;
  }

  module _ (P : Platform) where
    unfoldable pub pmd_configure : Db → Pmd → P.World → Pmd × P.World
    pmd_configure db st w =
        let (st', w') = subsystems_process P (I.subsystems db) st w in
        (st', intfs_configure P (I.interfaces db) st' w')

    -- `pmd_reconfigure` behind the test of the sequence number.
    unfoldable pub follow_db : Db → Pmd → P.World → Pmd × P.World
    follow_db db st w =
        let (st', w') = subsystems_process P (I.subsystems db) (drop_gone db st) w in
        let (ports, w'') = intfs_modify P (I.interfaces db) st'.ovs_intfs w' in
        (record st' { ovs_intfs = ports }, w'')

    unfoldable pub pmd_reconfigure : Db → Pmd → P.World → Pmd × P.World
    pmd_reconfigure db st w =
        if I.get_seqno db == st.idl_seqno
        then (st, w)
        else follow_db db (record st { idl_seqno = I.get_seqno db }) w

  -- One round of the loop of `pm_ovsdb_update`.
  unfoldable pub publish : PmPort → Db → PmPort × Db
  publish p db = elim (I.interface_get_for_uuid db p.uuid) [
    | none ↦ (p, db)
    | some intf ↦
        if not p.module_info_changed
        then (p, db)
        else (record p { module_info_changed = false }, I.set_pm_info intf (pm_info p) db)
  ]

  unfoldable pub publish_all : List (CString × PmPort) → Db → List (CString × PmPort) × Db
  publish_all [] db = ([], db)
  publish_all ((name, p) ∷ ports) db =
      let (p', db') = publish p db in
      let (rest, db'') = publish_all ports db' in ((name, p') ∷ rest, db'')

  abbrev pub name_in_daemon_table : CString
  name_in_daemon_table = codes "ops-pmd"

  -- The loop that looks for the daemon's own row: whether it was there, and the database.
  unfoldable pub announce : List DaemonRow → Db → Bool × Db
  announce [] db = (false, db)
  announce (row ∷ rows) db =
      let rest = announce rows db in
      if str_eq row.name name_in_daemon_table then (true, I.set_cur_hw row 1 db) else rest

  unfoldable pub pm_ovsdb_update : Pmd → Db → Pmd × Db
  pm_ovsdb_update st db =
      let (ports, db1) = publish_all st.ovs_intfs db in
      let (done, db2) : Bool × Db =
        if st.cur_hw_set then (true, db1) else announce (I.daemons db1) db1 in
      (record st { ovs_intfs = ports; cur_hw_set = done }, I.txn_commit_block db2)
