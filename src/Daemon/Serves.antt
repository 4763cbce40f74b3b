-- ===== src/Daemon/Serves.antt =====
-- src/pmd.c and src/ovsdb_access.c: from an interface of the database to a port whose module is read.
use ops_pmd.Base.{
  All-member, Memᴰ, All-find, ◌≡◌, true, false, some, List, ◌∷◌, ◌++◌, CString, All, find, ◌==◌, ap,
  sym, ◌∙◌, subst,
}
use ops_pmd.Port.{PmPort, YamlPort}
use ops_pmd.Platform.{Platform}
use ops_pmd.Config.{pm_get_yaml_port}
use ops_pmd.Plug.{pm_read_port_state, pm_read_state}
use ops_pmd.Plug.Scan.{IsTyped, IsTyped-device, IsSettled, pm_read_port_state-IsSettled}
use ops_pmd.Db.{Idl, IntfRow, SubsystemRow, Pmd, subsys_process, subsystems_process}
use ops_pmd.Db.Loop.{drop_gone, follow_db, pmd_reconfigure, publish, pm_ovsdb_update}
use ops_pmd.Db.Yaml.{KeepsYaml}
use ops_pmd.Db.Create.{IsServed}
use ops_pmd.Db.Publish.{publish_frame}
use ops_pmd.Db.Keep.{ListsRows}
use ops_pmd.Db.Valid.{IsValid}
use ops_pmd.Db.Sync.{PmInfoColumn, IsSynced, IsPublished}
use ops_pmd.Plug.Read.{pm_read_module_state-fixed}
use ops_pmd.Daemon.Sync.{scan-IsPublished}
use ops_pmd.Daemon.{State, scan}
use ops_pmd.Daemon.Found.{
  HasPort, IsDescribed, subsystems_process-HasPort, intfs_modify-HasPort, pm_read_state-find,
  publish_all-find, subsystems_process-append, subsys_process-IsServed,
}

module _ (P : Platform) where
  -- Neither the pass nor the update changes a port's device, and the update leaves its flags.
  settled_behind :
      (I : Idl) (p : PmPort) (w : P.World) (db : I.Db)
      → IsTyped (publish I (pm_read_port_state P p w).0 db).0
      → IsSettled (publish I (pm_read_port_state P p w).0 db).0
  unfolding pm_read_port_state
  settled_behind I p w db typed =
      let q = (pm_read_port_state P p w).0 in
      let frame = publish_frame I q db in
      let same : q.module_device ≡ p.module_device =
        ap (λ x. x.module_device) (pm_read_module_state-fixed P p w) in
      let back = sym same ∙ sym (ap (λ x. x.module_device) frame) in
      let (present, settled) =
        pm_read_port_state-IsSettled P p w (IsTyped-device (publish I q db).0 p back typed) in
      (ap (λ x. x.present) frame ∙ present, ap (λ x. x.retry) frame ∙ settled)

  -- A port that is there when the round starts to read is shown behind it.
  shown :
      (I : Idl) (s : State I P) (k : CString)
      → HasPort (pmd_reconfigure I P s.db s.pmd s.world).0.ovs_intfs k
      → (p : PmPort) × (find k (scan I P s).pmd.ovs_intfs ≡ some p) × (IsTyped p → IsSettled p)
  unfolding scan pm_ovsdb_update
  shown I s k (p, h) =
      let (st1, w1) = pmd_reconfigure I P s.db s.pmd s.world in
      let (w', read) = pm_read_state-find P k st1.ovs_intfs w1 h in
      let q = (pm_read_port_state P p w').0 in
      let (db', out) = publish_all-find P k I (pm_read_state P st1.ovs_intfs w1).0 s.db read in
      ((publish I q db').0, out, λ typed. settled_behind I p w' db' typed)

  -- A port that stands behind the turn of a subsystem is there when the daemon has followed the database.
  reconfigured-HasPort :
      (I : Idl) (k : CString) (s : State I P) (before after : List SubsystemRow)
      (sub : SubsystemRow)
      → (I.get_seqno s.db == s.pmd.idl_seqno) ≡ false
      → I.subsystems s.db ≡ before ++ (sub ∷ after)
      → (let found : Pmd = record s.pmd { idl_seqno = I.get_seqno s.db } in
          let (st1, w1) = subsystems_process P before (drop_gone I s.db found) s.world in
          HasPort (subsys_process P sub st1 w1).0.ovs_intfs k)
      → HasPort (pmd_reconfigure I P s.db s.pmd s.world).0.ovs_intfs k
  unfolding pmd_reconfigure follow_db
  reconfigured-HasPort I k s before after sub changed listed h =
      let start : Pmd = drop_gone I s.db (record s.pmd { idl_seqno = I.get_seqno s.db }) in
      let (st1, w1) = subsystems_process P before start s.world in
      rw (changed, pmd_reconfigure)
        (intfs_modify-HasPort P k (I.interfaces s.db) _ _ (
          subst (λ l. HasPort (subsystems_process P l start s.world).0.ovs_intfs k) (sym listed)
            (subst (λ r. HasPort r.0.ovs_intfs k)
              (sym (subsystems_process-append P before after sub start s.world))
              (subsystems_process-HasPort P k after _ _ h))))

  module _ (I : Idl) (column : PmInfoColumn I) where
    -- The interface has a port, whose module has been read if it is of a known type, and the row of the port,
    -- if it has one, is what `IsPublished` says.
    abbrev pub IsShown : State I P → IntfRow → Type 0
    IsShown s intf =
        (p : PmPort) × (find intf.name s.pmd.ovs_intfs ≡ some p)
        × (IsTyped p → IsSettled p)
        × ((name : CString) × IsPublished I column s.db (name, p))

    -- A round with the lock that finds the database changed shows every interface: each one that a
    -- subsystem lists and that the hardware description names as a pluggable port has a port behind the
    -- round, whose module has been read if its connector is of a known type; and the row of the port,
    -- if it has one, is named after the port, which is unmarked, and, if the port has been read, holds
    -- its map (a port counts as read by its flags, whatever the read returned). It is assumed that a
    -- write of the column `pm_info` changes that of its row and no other, and that no transaction is
    -- refused; that no access to a device and no wait changes the description; that the description of
    -- a known subsystem is the one that is there when its turn comes, that of a new one what its files
    -- yield, if they can be read; that the subsystems list rows of the database and the map of ports is
    -- valid; and that before the round the row of a port, if it has one, has the port's name and holds
    -- its map, unless the port is marked or has not been read.
    pub scan-IsShown :
        (s : State I P) (before after : List SubsystemRow) (sub : SubsystemRow) (w0 : P.World)
        (intf : IntfRow) (yaml_port : YamlPort)
        → KeepsYaml P
        → (I.get_seqno s.db == s.pmd.idl_seqno) ≡ false
        → I.subsystems s.db ≡ before ++ (sub ∷ after)
        → (let found : Pmd = record s.pmd { idl_seqno = I.get_seqno s.db } in
            let (st1, w1) = subsystems_process P before (drop_gone I s.db found) s.world in
            IsDescribed P sub st1 w1 w0)
        → All (ListsRows I s.db) (I.subsystems s.db)
        → IsValid s.pmd.ovs_intfs
        → All (IsSynced I column s.db) s.pmd.ovs_intfs
        → Memᴰ intf sub.interfaces
        → pm_get_yaml_port P w0 sub.name intf.name ≡ some yaml_port
        → yaml_port.pluggable ≡ true
        → IsShown (scan I P s) intf
    scan-IsShown s before after sub w0 intf yaml_port keeps changed listed described rows valid
          synced here found pluggable =
        let start : Pmd = drop_gone I s.db (record s.pmd { idl_seqno = I.get_seqno s.db }) in
        let (st1, w1) = subsystems_process P before start s.world in
        let served =
          All-member (IsServed P w0 sub.name (subsys_process P sub st1 w1).0.ovs_intfs)
            sub.interfaces here (subsys_process-IsServed P keeps sub st1 w1 w0 described) in
        let (p, at, settled) = shown I s intf.name (
          reconfigured-HasPort I intf.name s before after sub changed listed
            (served yaml_port found pluggable)) in
        (
          p,
          at,
          settled,
          All-find (IsPublished I column (scan I P s).db) intf.name (scan I P s).pmd.ovs_intfs at
              (scan-IsPublished P I column s rows valid synced),
        )
