-- ===== src/Daemon/Calm.antt =====
-- src/pmd.c: runs of the daemon in which nobody else writes the column `pm_info` of its interfaces.
use ops_pmd.Base.{◌≡◌, inl, inr, some, List, [], ◌∷◌, CString, All, ◌∙◌, sym}
use ops_pmd.Port.{PmPort}
use ops_pmd.Platform.{Platform}
use ops_pmd.Db.{Idl, IntfRow}
use ops_pmd.Db.Loop.{pmd_configure}
use ops_pmd.Db.Keep.{ListsRows, subsystems_process-All}
use ops_pmd.Db.Sync.{PmInfoColumn, IsSynced, IsPublished}
use ops_pmd.Daemon.{
  State, pm_ovsdb_if_init, pmd_run, scan, IsReachable, start, after, run_round, outside,
}
use ops_pmd.Daemon.Invariant.{pmd_run-cases, IsReachable-IsValid}
use ops_pmd.Daemon.Sync.{new_port-IsSynced, scan-IsPublished}

module _ (P : Platform) (I : Idl) (column : PmInfoColumn I) where
  open column use {pm_info_of}

  -- From one database to the next the row of a port may go, but is not renamed, its column `pm_info` is not
  -- written, and a row that is gone does not come back.
  abbrev pub IsHonest : List (CString × PmPort) → I.Db → I.Db → Type 0
  IsHonest ports db db' =
      All
        (λ n.
          (row : IntfRow)
          → I.interface_get_for_uuid db' n.1.uuid ≡ some row
          → (old : IntfRow) × (I.interface_get_for_uuid db n.1.uuid ≡ some old)
            × (old.name ≡ row.name)
            × (pm_info_of db' n.1.uuid ≡ pm_info_of db n.1.uuid))
        ports

  -- The states that a run reaches in which all changes of the database are such, in a round or outside, and
  -- in which the subsystems list rows of the database whenever the daemon looks.
  pub data IsCalm : State I P → Type 0 where
    calm_start :
        (db : I.Db) (w : P.World)
        → All (ListsRows I db) (I.subsystems db)
        → IsCalm (pm_ovsdb_if_init I P db w)
    calm_round :
        {s : State I P}
        → IsCalm s
        → IsHonest s.pmd.ovs_intfs s.db (I.run s.db)
        → All (ListsRows I (I.run s.db)) (I.subsystems (I.run s.db))
        → IsCalm (pmd_run I P s)
    calm_outside :
        {s : State I P}
        → IsCalm s
        → (db : I.Db) (w : P.World) → IsHonest s.pmd.ovs_intfs s.db db
        → IsCalm (record s { db = db; world = w })

  pub IsCalm-IsReachable : (s : State I P) → IsCalm s → IsReachable I P s
  IsCalm-IsReachable s (calm_start db w rows) = start db w
  IsCalm-IsReachable s (calm_round {s = s'} calm honest rows) =
      after (IsCalm-IsReachable s' calm) run_round
  IsCalm-IsReachable s (calm_outside {s = s'} calm db w honest) =
      after (IsCalm-IsReachable s' calm) (outside db w)

  IsHonest-IsSynced :
      (ports : List (CString × PmPort)) (db db' : I.Db)
      → IsHonest ports db db'
      → All (IsSynced I column db) ports
      → All (IsSynced I column db') ports
  IsHonest-IsSynced [] db db' honest h = tt
  IsHonest-IsSynced (n ∷ ports) db db' honest h = (
    λ row found.
        (let (old, was, named, kept) = honest.0 row found in
          let (name, info) = h.0 old was in
          (sym named ∙ name, λ present unmarked. kept ∙ info present unmarked)),
    IsHonest-IsSynced ports db db' honest.1 h.1,
  )

  IsPublished-IsSynced :
      (ports : List (CString × PmPort)) (db : I.Db)
      → All (IsPublished I column db) ports
      → All (IsSynced I column db) ports
  IsPublished-IsSynced [] db h = tt
  IsPublished-IsSynced (n ∷ ports) db h = (
    λ row found.
        (let (name, mark, info) = h.0 row found in (name, λ present unmarked. info present)),
    IsPublished-IsSynced ports db h.1,
  )

  started :
      (db : I.Db) (w : P.World)
      → All (ListsRows I db) (I.subsystems db)
      → All (IsSynced I column db) (pm_ovsdb_if_init I P db w).pmd.ovs_intfs
  unfolding pm_ovsdb_if_init pmd_configure
  started db w rows =
      subsystems_process-All P I db (IsSynced I column db) (new_port-IsSynced P I column db)
        (I.subsystems db) _ w rows tt

  -- In every state that such a run reaches, whatever the hardware does and whoever holds the lock, the row
  -- of each port that has been read and is not marked holds the map of the port.
  pub IsCalm-IsSynced : (s : State I P) → IsCalm s → All (IsSynced I column s.db) s.pmd.ovs_intfs
  unfolding pm_ovsdb_if_init
  IsCalm-IsSynced s (calm_start db w rows) = started db w rows
  IsCalm-IsSynced s (calm_outside {s = s'} calm db w honest) =
      IsHonest-IsSynced s'.pmd.ovs_intfs s'.db db honest (IsCalm-IsSynced s' calm)
  IsCalm-IsSynced s (calm_round {s = s'} calm honest rows) =
      let synced =
        IsHonest-IsSynced s'.pmd.ovs_intfs s'.db (I.run s'.db) honest (IsCalm-IsSynced s' calm) in
      let valid = IsReachable-IsValid P I s' (IsCalm-IsReachable s' calm) in
      elim (pmd_run-cases P I s') [
        | inl e ↦ rw e synced
        | inr e ↦
            let seen : State I P = record s' { db = I.run s'.db } in
            rw e (
              IsPublished-IsSynced (scan I P seen).pmd.ovs_intfs (scan I P seen).db
                (scan-IsPublished P I column seen rows valid synced))
      ]
