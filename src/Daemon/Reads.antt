-- ===== src/Daemon/Reads.antt =====
-- src/pmd.c and src/plug.c: the reads of a round, and that the ports show what they left.
use ops_pmd.Base.{
  ◌++◌, ◌≡◌, refl, true, false, inl, inr, List, [], ◌∷◌, CString, All, ap, ◌∙◌, sym, ◌==◌,
  Bool-cases,
}
use ops_pmd.Port.{PmPort, YamlPort}
use ops_pmd.Platform.{Platform}
use ops_pmd.Plug.{pm_get_presence, pm_read_state, pm_read_port_state}
use ops_pmd.Plug.Told.{IsUnread, WasRead, WasRead-mono, WasRead-same, pm_read_module_state-WasRead}
use ops_pmd.Db.{Idl, Pmd, new_port}
use ops_pmd.Db.Loop.{pmd_reconfigure, publish, publish_all, pm_ovsdb_update}
use ops_pmd.Db.Valid.{IsKept, IsValid}
use ops_pmd.Db.Gone.{live-All}
use ops_pmd.Db.Keep.{ListsRows, IsTracked, follow_db-All}
use ops_pmd.Db.Publish.{publish_frame}
use ops_pmd.Daemon.{State, scan}
use ops_pmd.Daemon.Invariant.{pmd_reconfigure-IsValid}

module _ (P : Platform) where
  -- A port that counts as present shows what was read.
  abbrev pub IsTold : (CString → YamlPort → P.World → Type 0) → CString × PmPort → Type 0
  IsTold Q n = n.1.present ≡ true → WasRead P Q n.1

  pub IsTold-mono :
      (Q R : CString → YamlPort → P.World → Type 0)
      → ((subsystem : CString) (device : YamlPort) (w : P.World)
          → Q subsystem device w
          → R subsystem device w)
      → (ports : List (CString × PmPort)) → All (IsTold Q) ports
      → All (IsTold R) ports
  IsTold-mono Q R f [] h = tt
  IsTold-mono Q R f (n ∷ ports) h =
      (λ present. WasRead-mono P Q R f n.1 (h.0 present), IsTold-mono Q R f ports h.1)

  -- In this state of the hardware a pass over these ports asks for the page of one of them, behind the
  -- question whether its module is present; the port has the given configuration.
  abbrev pub IsReadIn : List (CString × PmPort) → P.World → CString → YamlPort → P.World → Type 0
  IsReadIn ports w0 subsystem device w =
      (before : List (CString × PmPort)) × (n : CString × PmPort) × (after : List
        (CString × PmPort))
      × (ports ≡ before ++ (n ∷ after))
      × (n.1.subsystem ≡ subsystem)
      × (n.1.module_device ≡ device)
      × IsUnread P n.1
      × (w ≡ (pm_get_presence P n.1 (pm_read_state P before w0).1).1)

  module _ (Q : CString → YamlPort → P.World → Type 0) where
    pub IsTold-IsTracked : (I : Idl) (db : I.Db) → IsTracked P I db (IsTold Q)
    unfolding new_port
    IsTold-IsTracked I db = record {
      created = λ intf sub_name yaml_port row present. absurd (unread present);
      enabled = λ name p enable h present.
          WasRead-same P Q p (record p { hw_enable = enable }) refl refl refl (h present);
    }
      where
        unread : false ≡ true → ⊥
        unread e = cc

    pm_read_state-IsTold :
        (ports : List (CString × PmPort)) (w : P.World)
        → All IsKept ports
        → ((subsystem : CString) (device : YamlPort) (w' : P.World)
            → IsReadIn ports w subsystem device w'
            → Q subsystem device w')
        → All (IsTold Q) ports
        → All (IsTold Q) (pm_read_state P ports w).0
    unfolding pm_read_state pm_read_port_state
    pm_read_state-IsTold [] w kept seen h = tt
    pm_read_state-IsTold ((name, p) ∷ ports) w kept seen h = (
      pm_read_module_state-WasRead P Q p w kept.0.1
          (λ unread.
            seen p.subsystem p.module_device (pm_get_presence P p w).1
              ([], (name, p), ports, refl, refl, refl, unread, refl))
          h.0,
      pm_read_state-IsTold ports _ kept.1
          (λ subsystem device w' (before, n, after, split, sub, dev, unread, at).
            seen subsystem device w'
              ((name, p) ∷ before, n, after, ap (λ l. (name, p) ∷ l) split, sub, dev, unread, at))
          h.1,
    )

    module _ (I : Idl) where
      publish_all-IsTold :
          (ports : List (CString × PmPort)) (db : I.Db)
          → All (IsTold Q) ports
          → All (IsTold Q) (publish_all I ports db).0
      unfolding publish_all
      publish_all-IsTold [] db h = tt
      publish_all-IsTold ((name, p) ∷ ports) db h =
          let e = publish_frame I p db in
          (
            λ present.
                WasRead-same P Q p (publish I p db).0 (ap (λ q. q.subsystem) e)
                  (ap (λ q. q.module_device) e) (ap (λ q. q.ovs_module_columns) e)
                  (h.0 (sym (ap (λ q. q.present) e) ∙ present)),
            publish_all-IsTold ports (publish I p db).1 h.1,
          )

      pmd_reconfigure-IsTold :
          (db : I.Db) (st : Pmd) (w : P.World)
          → All (ListsRows I db) (I.subsystems db)
          → IsValid st.ovs_intfs
          → All (IsTold Q) st.ovs_intfs
          → All (IsTold Q) (pmd_reconfigure I P db st w).0.ovs_intfs
      unfolding pmd_reconfigure
      pmd_reconfigure-IsTold db st w rows v h = elim (Bool-cases (I.get_seqno db == st.idl_seqno)) [
        | inl e ↦ rw (e, pmd_reconfigure) h
        | inr e ↦
            rw (e, pmd_reconfigure)
              (follow_db-All P I db (IsTold Q) (IsTold-IsTracked I db)
                (record st { idl_seqno = I.get_seqno db }) w rows v
                (live-All I db (IsTold Q) st.ovs_intfs h))
      ]

      pub scan-IsTold :
          (s : State I P)
          → All (ListsRows I s.db) (I.subsystems s.db)
          → IsValid s.pmd.ovs_intfs
          → (let (st1, w1) = pmd_reconfigure I P s.db s.pmd s.world in
              (subsystem : CString) (device : YamlPort) (w : P.World)
              → IsReadIn st1.ovs_intfs w1 subsystem device w
              → Q subsystem device w)
          → All (IsTold Q) s.pmd.ovs_intfs
          → All (IsTold Q) (scan I P s).pmd.ovs_intfs
      unfolding scan pm_ovsdb_update
      scan-IsTold s rows v seen h =
          let (st1, w1) = pmd_reconfigure I P s.db s.pmd s.world in
          publish_all-IsTold (pm_read_state P st1.ovs_intfs w1).0 s.db (
            pm_read_state-IsTold st1.ovs_intfs w1
              (pmd_reconfigure-IsValid P I s.db s.pmd s.world v).kept seen
              (pmd_reconfigure-IsTold s.db s.pmd s.world rows v h))
