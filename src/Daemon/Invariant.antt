-- ===== src/Daemon/Invariant.antt =====
-- src/pmd.c: what holds of the daemon's state in every run.
use ops_pmd.Base.{
  ◌≡◌, refl, ◌⊎◌, inl, inr, List, [], ◌∷◌, CString, arith, All, ◌==◌, Bool-cases, ap, ◌∙◌, sym,
  subst, find, IsNew, HasUniqueKeys,
}
use ops_pmd.Port.{PmPort}
use ops_pmd.Platform.{Platform}
use ops_pmd.Plug.{pm_read_port_state, pm_read_state}
use ops_pmd.Plug.Read.{pm_read_module_state-fixed}
use ops_pmd.Db.{Idl, Pmd}
use ops_pmd.Db.Loop.{pmd_configure, pmd_reconfigure, publish, publish_all, pm_ovsdb_update}
use ops_pmd.Db.Valid.{IsKept, IsValid, subsystems_process-IsValid}
use ops_pmd.Db.Keep.{follow_db-IsValid}
use ops_pmd.Db.Publish.{publish_frame}
use ops_pmd.Daemon.{
  State, pm_ovsdb_if_init, scan, pmd_run, run_round, outside, IsReachable, start, after,
}

-- Two maps with the same names, in the same order, and under each name a port of the same interface.
abbrev Alike : CString × PmPort → CString × PmPort → Type 0
Alike n m =
    (n.0 ≡ m.0) × (n.1.instance_name ≡ m.1.instance_name) × (n.1.module_device ≡ m.1.module_device)

abbrev AllAlike : List (CString × PmPort) → List (CString × PmPort) → Type 0
AllAlike [] [] = Unit
AllAlike [] (_ ∷ _) = ⊥
AllAlike (_ ∷ _) [] = ⊥
AllAlike (n ∷ ns) (m ∷ ms) = Alike n m × AllAlike ns ms

IsNew-Alike :
    (k : CString) (ns ms : List (CString × PmPort)) → AllAlike ns ms → IsNew k ns → IsNew k ms
unfolding find
IsNew-Alike k [] [] a h = refl
IsNew-Alike k [] (_ ∷ ms) a h = elim a [ ]
IsNew-Alike k (_ ∷ ns) [] a h = elim a [ ]
IsNew-Alike k ((i, p) ∷ ns) ((j, q) ∷ ms) a h = ground (arith, IsNew-Alike k ns ms a.1, a.0.0)

HasUniqueKeys-Alike :
    (ns ms : List (CString × PmPort)) → AllAlike ns ms → HasUniqueKeys ns → HasUniqueKeys ms
HasUniqueKeys-Alike [] [] a h = tt
HasUniqueKeys-Alike [] (_ ∷ ms) a h = elim a [ ]
HasUniqueKeys-Alike (_ ∷ ns) [] a h = elim a [ ]
HasUniqueKeys-Alike ((i, p) ∷ ns) ((j, q) ∷ ms) a h =
    (subst (λ k. IsNew k ms) a.0.0 (IsNew-Alike i ns ms a.1 h.0), HasUniqueKeys-Alike ns ms a.1 h.1)

IsKept-Alike : (ns ms : List (CString × PmPort)) → AllAlike ns ms → All IsKept ns → All IsKept ms
IsKept-Alike [] [] a h = tt
IsKept-Alike [] (_ ∷ ms) a h = elim a [ ]
IsKept-Alike (_ ∷ ns) [] a h = elim a [ ]
IsKept-Alike ((i, p) ∷ ns) ((j, q) ∷ ms) a h = (
  (sym a.0.0 ∙ h.0.0 ∙ a.0.1, ap (λ d. d.pluggable) (sym a.0.2) ∙ h.0.1),
  IsKept-Alike ns ms a.1 h.1,
)

pub IsValid-Alike : (ns ms : List (CString × PmPort)) → AllAlike ns ms → IsValid ns → IsValid ms
IsValid-Alike ns ms a v = record {
  kept = IsKept-Alike ns ms a v.kept;
  unique = HasUniqueKeys-Alike ns ms a v.unique;
}

module _ (P : Platform) where
  pub pm_read_state-Alike :
      (ports : List (CString × PmPort)) (w : P.World) → AllAlike ports (pm_read_state P ports w).0
  unfolding pm_read_state pm_read_port_state
  pm_read_state-Alike [] w = tt
  pm_read_state-Alike ((name, p) ∷ ports) w =
      let e = pm_read_module_state-fixed P p w in
      (
        (refl, sym (ap (λ q. q.instance_name) e), sym (ap (λ q. q.module_device) e)),
        pm_read_state-Alike ports _,
      )

  module _ (I : Idl) where
    publish_all-Alike :
        (ports : List (CString × PmPort)) (db : I.Db) → AllAlike ports (publish_all I ports db).0
    unfolding publish_all
    publish_all-Alike [] db = tt
    publish_all-Alike ((name, p) ∷ ports) db =
        let e = publish_frame I p db in
        (
          (refl, sym (ap (λ q. q.instance_name) e), sym (ap (λ q. q.module_device) e)),
          publish_all-Alike ports (publish I p db).1,
        )

    pub pmd_reconfigure-IsValid :
        (db : I.Db) (st : Pmd) (w : P.World)
        → IsValid st.ovs_intfs
        → IsValid (pmd_reconfigure I P db st w).0.ovs_intfs
    unfolding pmd_reconfigure
    pmd_reconfigure-IsValid db st w v = elim (Bool-cases (I.get_seqno db == st.idl_seqno)) [
      | inl e ↦ rw (e, pmd_reconfigure) v
      | inr e ↦
          rw (e, pmd_reconfigure)
            (follow_db-IsValid P I db (record st { idl_seqno = I.get_seqno db }) w v)
    ]

    scan-IsValid : (s : State I P) → IsValid s.pmd.ovs_intfs → IsValid (scan I P s).pmd.ovs_intfs
    unfolding scan pm_ovsdb_update
    scan-IsValid s v =
        let (st1, w1) = pmd_reconfigure I P s.db s.pmd s.world in
        let ports = (pm_read_state P st1.ovs_intfs w1).0 in
        IsValid-Alike ports _ (publish_all-Alike ports s.db) (
          IsValid-Alike st1.ovs_intfs ports (pm_read_state-Alike st1.ovs_intfs w1)
            (pmd_reconfigure-IsValid s.db s.pmd s.world v))

    -- What a round does: with the lock it scans, and otherwise it touches nothing but the replica.
    pub pmd_run-cases :
        (s : State I P)
        → (pmd_run I P s ≡ record s { db = I.run s.db })
          ⊎ (pmd_run I P s ≡ scan I P (record s { db = I.run s.db }))
    unfolding pmd_run
    pmd_run-cases s = elim (Bool-cases (I.is_lock_contended (I.run s.db))) [
      | inl e ↦ inl (rw (e, pmd_run))
      | inr e ↦ elim (Bool-cases (I.has_lock (I.run s.db))) [
        | inl h ↦ inr (rw (e, pmd_run, h))
        | inr h ↦ inl (rw (e, pmd_run, h))
      ]
    ]

    pmd_run-IsValid :
        (s : State I P) → IsValid s.pmd.ovs_intfs → IsValid (pmd_run I P s).pmd.ovs_intfs
    pmd_run-IsValid s v = elim (pmd_run-cases s) [
      | inl e ↦ rw e v
      | inr e ↦ rw e (scan-IsValid (record s { db = I.run s.db }) v)
    ]

    empty-IsValid : IsValid []
    empty-IsValid = record { kept = tt; unique = tt }

    pm_ovsdb_if_init-IsValid :
        (db : I.Db) (w : P.World) → IsValid (pm_ovsdb_if_init I P db w).pmd.ovs_intfs
    unfolding pm_ovsdb_if_init pmd_configure
    pm_ovsdb_if_init-IsValid db w = subsystems_process-IsValid P (I.subsystems db) _ w empty-IsValid

    -- In every state that the daemon reaches, whatever the database and the hardware do between its
    -- rounds, its map of ports is valid: each port stands under its own name, once, and is pluggable.
    pub IsReachable-IsValid : (s : State I P) → IsReachable I P s → IsValid s.pmd.ovs_intfs
    IsReachable-IsValid s (start db w) = pm_ovsdb_if_init-IsValid db w
    IsReachable-IsValid s (after {s = s'} reached run_round) =
        pmd_run-IsValid s' (IsReachable-IsValid s' reached)
    IsReachable-IsValid s (after {s = s'} reached (outside db w)) = IsReachable-IsValid s' reached
