-- ===== src/Daemon/Told.antt =====
-- From the page of a module to the database: what the runs of src/pmd.c publish stood in a buffer behind a read.
use ops_pmd.Base.{
  ◌⊎◌, ◌≡◌, true, false, inl, inr, some, List, [], ◌∷◌, CString, codes, All, ap, ◌∙◌, sym, subst,
  find, pos, Bool-cases,
}
use ops_pmd.Format.{print_int}
use ops_pmd.Port.{PmPort, YamlPort}
use ops_pmd.Port.Laws.{as_int}
use ops_pmd.Platform.{Platform}
use ops_pmd.Detect.{Build, ModuleType, module_type}
use ops_pmd.Detect.Report.{Verdict}
use ops_pmd.Detect.Classify.{classify}
use ops_pmd.Plug.Told.{Displays, buffer}
use ops_pmd.Db.{Idl, IntfRow, Smap}
use ops_pmd.Db.Loop.{pm_info, pmd_configure, pmd_reconfigure}
use ops_pmd.Db.Keep.{subsystems_process-All}
use ops_pmd.Db.Publish.{find-pm_info_keys}
use ops_pmd.Db.Sync.{PmInfoColumn, IsSynced}
use ops_pmd.Daemon.{State, pm_ovsdb_if_init, scan, pmd_run}
use ops_pmd.Daemon.Invariant.{IsReachable-IsValid}
use ops_pmd.Daemon.Reads.{IsTold, IsTold-mono, IsReadIn, IsTold-IsTracked, scan-IsTold}
use ops_pmd.Daemon.Calm.{
  IsCalm, calm_start, calm_round, calm_outside, IsCalm-IsReachable, IsCalm-IsSynced,
}

-- A `pm_info` map tells a verdict.
abbrev pub Tells : Build → Verdict → Smap → Type 0
Tells build v info =
    (find (codes "connector") info ≡ some (build.connector_name v.kind))
    × (find (codes "connector_status") info ≡ some (build.status_name v.status))
    × (find (codes "supported_speeds") info ≡ some (print_int v.speed))
    × (as_int (find (codes "max_speed") info) ≡ some (pos v.speed))

pm_info-Tells :
    (build : Build) (v : Verdict) (p : PmPort)
    → Displays build v p.ovs_module_columns
    → Tells build v (pm_info p)
pm_info-Tells build v p (connector, status, speeds, max_speed) =
    let (c, s, v, m) = find-pm_info_keys p in
    (c ∙ connector, s ∙ status, v ∙ speeds, ap as_int m ∙ max_speed)

module _ (P : Platform) where
  module _ (I : Idl) (column : PmInfoColumn I) where
    open column use {pm_info_of}

    -- A round from here has the lock, and reads so in this state of the hardware.
    abbrev IsReadFrom : State I P → CString → YamlPort → P.World → Type 0
    IsReadFrom s subsystem device w =
        (I.is_lock_contended (I.run s.db) ≡ false)
        × (I.has_lock (I.run s.db) ≡ true)
        × (let (st1, w1) = pmd_reconfigure I P (I.run s.db) s.pmd s.world in
            IsReadIn P st1.ovs_intfs w1 subsystem device w)

    -- A round of this run has read so.
    abbrev pub WasReadIn :
        (s : State I P) → IsCalm P I column s → CString → YamlPort → P.World → Type 0
    WasReadIn s (calm_start db w rows) subsystem device w' = ⊥
    WasReadIn s (calm_outside {s = s'} calm db w honest) subsystem device w' =
        WasReadIn s' calm subsystem device w'
    WasReadIn s (calm_round {s = s'} calm honest rows) subsystem device w' =
        WasReadIn s' calm subsystem device w' ⊎ IsReadFrom s' subsystem device w'

    pmd_run-lock :
        (s : State I P)
        → (pmd_run I P s ≡ record s { db = I.run s.db })
          ⊎ ((I.is_lock_contended (I.run s.db) ≡ false)
              × (I.has_lock (I.run s.db) ≡ true)
              × (pmd_run I P s ≡ scan I P (record s { db = I.run s.db })))
    unfolding pmd_run
    pmd_run-lock s = elim (Bool-cases (I.is_lock_contended (I.run s.db))) [
      | inl e ↦ inl (rw (e, pmd_run))
      | inr e ↦ elim (Bool-cases (I.has_lock (I.run s.db))) [
        | inl h ↦ inr (e, h, rw (e, pmd_run, h))
        | inr h ↦ inl (rw (e, pmd_run, h))
      ]
    ]

    IsCalm-IsTold :
        (s : State I P) (calm : IsCalm P I column s)
        → All (IsTold P (WasReadIn s calm)) s.pmd.ovs_intfs
    unfolding pm_ovsdb_if_init pmd_configure
    IsCalm-IsTold s (calm_start db w rows) =
        subsystems_process-All P I db (IsTold P (λ subsystem device w'. ⊥))
          (IsTold-IsTracked P (λ subsystem device w'. ⊥) I db) (I.subsystems db) _ w rows tt
    IsCalm-IsTold s (calm_outside {s = s'} calm db w honest) = IsCalm-IsTold s' calm
    IsCalm-IsTold s (calm_round {s = s'} calm honest rows) =
        let before = WasReadIn s' calm in
        let here : CString → YamlPort → P.World → Type 0 =
          λ subsystem device w. before subsystem device w ⊎ IsReadFrom s' subsystem device w in
        let told =
          IsTold-mono P before here (λ subsystem device w h. inl h) s'.pmd.ovs_intfs
            (IsCalm-IsTold s' calm) in
        elim (pmd_run-lock s') [
          | inl e ↦ subst (λ r. All (IsTold P here) r.pmd.ovs_intfs) (sym e) told
          | inr (free, locked, e) ↦
              let valid = IsReachable-IsValid P I s' (IsCalm-IsReachable P I column s' calm) in
              subst (λ r. All (IsTold P here) r.pmd.ovs_intfs) (sym e)
                (scan-IsTold P here I (record s' { db = I.run s'.db }) rows valid
                  (λ subsystem device w at. inr (free, locked, at)) told)
        ]

    -- The row of a port tells the classification of the buffer behind one of the given calls.
    abbrev pub IsAccurate :
        (CString → YamlPort → P.World → Type 0) → I.Db → CString × PmPort → Type 0
    IsAccurate Q db n =
        (row : IntfRow)
        → I.interface_get_for_uuid db n.1.uuid ≡ some row
        → n.1.present ≡ true
        → n.1.module_info_changed ≡ false
        → (t : ModuleType) × (w : P.World) × (module_type n.1 ≡ some t)
          × Q n.1.subsystem n.1.module_device w
          × Tells P.build (classify t (buffer P t n.1.subsystem n.1.module_device w))
              (pm_info_of db n.1.uuid)

    told_IsAccurate :
        (Q : CString → YamlPort → P.World → Type 0) (db : I.Db) (ports : List (CString × PmPort))
        → All (IsSynced I column db) ports
        → All (IsTold P Q) ports
        → All (IsAccurate Q db) ports
    told_IsAccurate Q db [] synced told = tt
    told_IsAccurate Q db (n ∷ ports) synced told = (
      λ row found present unmarked.
          (let (t, w, type, at, shown) = told.0 present in
            let v = classify t (buffer P t n.1.subsystem n.1.module_device w) in
            (
              t,
              w,
              type,
              at,
              subst (Tells P.build v) (sym ((synced.0 row found).1 present unmarked))
                  (pm_info-Tells P.build v n.1 shown),
            )),
      told_IsAccurate Q db ports synced.1 told.1,
    )

    -- From the module to the database: in every state of a run in which nobody else writes the column
    -- `pm_info` of the daemon's interfaces, renames their rows or brings a deleted row back, in which
    -- the subsystems list rows of the database and no transaction is refused, if the row of a port is
    -- there and the port counts as present and is not marked, the map in the row gives the kind, the
    -- status and the speed of a verdict: for a QSFP+ or QSFP28 port what the tables of compliance codes
    -- have for a buffer of 128 bytes behind a call of `i2c_data_read` on the eeprom of the port's
    -- configuration at offset 128, for an SFP+ port, whose call is at offset 0, always a supported 10G
    -- SR. The call was made by a round of this very run with the lock, when its pass came to a port of
    -- that subsystem and configuration that was unread or to be read again, behind the question whether
    -- its module is present; neither the answer to that nor the return code of the call plays a part,
    -- so that the buffer may come from a failed read.
    pub IsCalm-IsAccurate :
        (s : State I P) (calm : IsCalm P I column s)
        → All (IsAccurate (WasReadIn s calm) s.db) s.pmd.ovs_intfs
    IsCalm-IsAccurate s calm =
        told_IsAccurate (WasReadIn s calm) s.db s.pmd.ovs_intfs (IsCalm-IsSynced P I column s calm)
          (IsCalm-IsTold s calm)
