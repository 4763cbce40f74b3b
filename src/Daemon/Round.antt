-- ===== src/Daemon/Round.antt =====
-- src/pmd.c: a round of the daemon, from a change of the database to what is published.
use ops_pmd.Base.{◌≡◌, false, List, [], ◌∷◌, CString, All, ◌==◌, ap, ◌∙◌}
use ops_pmd.Port.{PmPort}
use ops_pmd.Platform.{Platform}
use ops_pmd.Plug.{pm_read_state, pm_read_port_state}
use ops_pmd.Plug.Read.{pm_read_module_state-fixed}
use ops_pmd.Db.{Idl, Pmd}
use ops_pmd.Db.Loop.{pmd_reconfigure, pm_ovsdb_update}
use ops_pmd.Db.Valid.{IsValid}
use ops_pmd.Db.Gone.{HasRow}
use ops_pmd.Db.Keep.{ListsRows, follow_db-HasRow}
use ops_pmd.Db.Publish.{KeepsRows, publish_all-unmarked}
use ops_pmd.Daemon.{State, scan}

module _ (P : Platform) (I : Idl) where
  pm_read_state-HasRow :
      (db : I.Db) (ports : List (CString × PmPort)) (w : P.World)
      → All (HasRow I db) ports
      → All (HasRow I db) (pm_read_state P ports w).0
  unfolding pm_read_state pm_read_port_state
  pm_read_state-HasRow db [] w h = tt
  pm_read_state-HasRow db ((name, p) ∷ ports) w h = (
    (
      h.0.0,
      ap (I.interface_get_for_uuid db) (ap (λ q. q.uuid) (pm_read_module_state-fixed P p w))
          ∙ h.0.1,
    ),
    pm_read_state-HasRow db ports _ h.1,
  )

  reconfigured-HasRow :
      (db : I.Db) (st : Pmd) (w : P.World)
      → All (ListsRows I db) (I.subsystems db)
      → IsValid st.ovs_intfs
      → (I.get_seqno db == st.idl_seqno) ≡ false
      → All (HasRow I db) (pmd_reconfigure I P db st w).0.ovs_intfs
  unfolding pmd_reconfigure
  reconfigured-HasRow db st w rows v e =
      rw (e, pmd_reconfigure)
        (follow_db-HasRow P I db (record st { idl_seqno = I.get_seqno db }) w rows v)

  -- Behind a round with the lock that finds the database changed no port is marked as changed. It is
  -- assumed that the map of ports is valid before, that the subsystems list rows of the database, and
  -- that writing `pm_info` removes no row.
  scan-published :
      (s : State I P)
      → KeepsRows I
      → All (ListsRows I s.db) (I.subsystems s.db)
      → IsValid s.pmd.ovs_intfs
      → (I.get_seqno s.db == s.pmd.idl_seqno) ≡ false
      → All (λ n. n.1.module_info_changed ≡ false) (scan I P s).pmd.ovs_intfs
  unfolding scan pm_ovsdb_update
  scan-published s keeps rows v e =
      let (st1, w1) = pmd_reconfigure I P s.db s.pmd s.world in
      publish_all-unmarked I keeps (pm_read_state P st1.ovs_intfs w1).0 s.db (
        pm_read_state-HasRow s.db st1.ovs_intfs w1
          (reconfigured-HasRow s.db s.pmd s.world rows v e))
