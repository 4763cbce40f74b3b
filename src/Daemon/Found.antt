-- ===== src/Daemon/Found.antt =====
-- src/ovsdb_access.c and src/plug.c: a port that stands under a name through the steps of a round.
use ops_pmd.Base.{
  ℕ, ◌≡◌, ◌⊎◌, inl, inr, refl, true, none, some, List, [], ◌∷◌, ◌++◌, CString, All, find, add,
  modify_first, str_eq, find-modify_self, find-modify_ne, ap, sym, ◌∙◌, subst, succeeded,
  Bool-cases, Option-cases, str_eq→eq, first_value, arith,
}
use ops_pmd.Port.{PmPort}
use ops_pmd.Platform.{Platform}
use ops_pmd.Config.{pm_read_yaml_files}
use ops_pmd.Plug.{pm_read_port_state, pm_read_state}
use ops_pmd.Db.{Idl, IntfRow, SubsystemRow, Pmd, subsys_process, subsystems_process, intfs_modify}
use ops_pmd.Db.Loop.{publish, publish_all}
use ops_pmd.Db.Yaml.{KeepsYaml}
use ops_pmd.Db.Create.{create_missing-kept, IsServed, create_missing-IsServed}

abbrev pub Ports : Type 0
Ports = List (CString × PmPort)

-- A name under which a port stands.
abbrev pub HasPort : Ports → CString → Type 0
HasPort ports name = (p : PmPort) × (find name ports ≡ some p)

module _ (P : Platform) where
  module _ (k : CString) where
    subsys_process-HasPort :
        (sub : SubsystemRow) (st : Pmd) (w : P.World)
        → HasPort st.ovs_intfs k
        → HasPort (subsys_process P sub st w).0.ovs_intfs k
    unfolding subsys_process
    subsys_process-HasPort sub st w (p, h) = elim (Option-cases (find sub.name st.ovs_subs)) [
      | inr (u, e) ↦
          rw (e, subsys_process) (p, create_missing-kept P k sub.interfaces sub.name st w h)
      | inl e ↦
          let st' : Pmd = record st { ovs_subs = add sub.name sub.uuid st.ovs_subs } in
          let (rc, w') = pm_read_yaml_files P sub.name sub.hw_desc_dir w in
          elim (Bool-cases (succeeded rc)) [
            | inl s ↦
                rw (e, subsys_process, s)
                  (p, create_missing-kept P k sub.interfaces sub.name st' w' h)
            | inr s ↦ rw (e, subsys_process, s) (p, h)
          ]
    ]

    pub subsystems_process-HasPort :
        (subs : List SubsystemRow) (st : Pmd) (w : P.World)
        → HasPort st.ovs_intfs k
        → HasPort (subsystems_process P subs st w).0.ovs_intfs k
    unfolding subsystems_process
    subsystems_process-HasPort [] st w h = h
    subsystems_process-HasPort (sub ∷ subs) st w h =
        subsystems_process-HasPort subs _ _ (subsys_process-HasPort sub st w h)

    modify_first-HasPort :
        (name : CString) (f : PmPort → PmPort) (ports : Ports)
        → HasPort ports k
        → HasPort (modify_first name f ports) k
    modify_first-HasPort name f ports (p, h) = elim (Bool-cases (str_eq name k)) [
      | inl e ↦
          subst (λ n. HasPort (modify_first n f ports) k) (sym (str_eq→eq name k e))
            (f p, find-modify_self k f ports p h)
      | inr e ↦ (p, find-modify_ne k name f ports e ∙ h)
    ]

    pub intfs_modify-HasPort :
        (intfs : List IntfRow) (ports : Ports) (w : P.World)
        → HasPort ports k
        → HasPort (intfs_modify P intfs ports w).0 k
    unfolding intfs_modify
    intfs_modify-HasPort [] ports w h = h
    intfs_modify-HasPort (intf ∷ intfs) ports w h = elim (Option-cases (find intf.name ports)) [
      | inl e ↦ rw (e, intfs_modify) (intfs_modify-HasPort intfs ports w h)
      | inr (q, e) ↦
          rw (e, intfs_modify)
            (intfs_modify-HasPort intfs _ _ (modify_first-HasPort intf.name _ ports h))
    ]

    -- The pass reads the port in some state of the hardware.
    pub pm_read_state-find :
        (ports : Ports) (w : P.World) {p : PmPort}
        → find k ports ≡ some p
        → (w' : P.World) × (find k (pm_read_state P ports w).0 ≡ some (pm_read_port_state P p w').0)
    unfolding pm_read_state find
    pm_read_state-find [] w h = cc
    pm_read_state-find ((name, q) ∷ ports) w {p} h = elim (Bool-cases (str_eq name k)) [
      | inl e ↦ (w, rw e (ap (λ x. some (pm_read_port_state P x w).0) (first_value _ _ _ _ e h)))
      | inr e ↦
          let (w', found) =
            pm_read_state-find ports (pm_read_port_state P q w).1 {p = p} (ground arith) in
          (w', rw e found)
    ]

    pub publish_all-find :
        (I : Idl) (ports : Ports) (db : I.Db) {p : PmPort}
        → find k ports ≡ some p
        → (db' : I.Db) × (find k (publish_all I ports db).0 ≡ some (publish I p db').0)
    unfolding publish_all find
    publish_all-find I [] db h = cc
    publish_all-find I ((name, q) ∷ ports) db {p} h = elim (Bool-cases (str_eq name k)) [
      | inl e ↦ (db, rw e (ap (λ x. some (publish I x db).0) (first_value _ _ _ _ e h)))
      | inr e ↦
          let (db', found) = publish_all-find I ports (publish I q db).1 {p = p} (ground arith) in
          (db', rw e found)
    ]

  pub subsystems_process-append :
      (before after : List SubsystemRow) (sub : SubsystemRow) (st : Pmd) (w : P.World)
      → subsystems_process P (before ++ (sub ∷ after)) st w ≡ (
          let (st1, w1) = subsystems_process P before st w in
          let (st2, w2) = subsys_process P sub st1 w1 in subsystems_process P after st2 w2)
  unfolding subsystems_process
  subsystems_process-append [] after sub st w = refl
  subsystems_process-append (other ∷ before) after sub st w =
      subsystems_process-append before after sub _ _

  -- The hardware description `w0` by which the interfaces of the subsystem are served: of a known
  -- subsystem the one that is there, of a new one that which its files yield, if they can be read.
  abbrev pub IsDescribed : SubsystemRow → Pmd → P.World → P.World → Type 0
  IsDescribed sub st w w0 =
      ((uuid : ℕ) × (find sub.name st.ovs_subs ≡ some uuid) × (w0 ≡ w))
      ⊎ ((find sub.name st.ovs_subs ≡ none)
          × (succeeded (pm_read_yaml_files P sub.name sub.hw_desc_dir w).0 ≡ true)
          × (w0 ≡ (pm_read_yaml_files P sub.name sub.hw_desc_dir w).1))

  pub subsys_process-IsServed :
      KeepsYaml P
      → (sub : SubsystemRow) (st : Pmd) (w w0 : P.World) → IsDescribed sub st w w0
      → All (IsServed P w0 sub.name (subsys_process P sub st w).0.ovs_intfs) sub.interfaces
  unfolding subsys_process
  subsys_process-IsServed keeps sub st w w0 (inl (uuid, e, same)) =
      rw (e, subsys_process, same) (create_missing-IsServed P keeps sub.interfaces sub.name st w)
  subsys_process-IsServed keeps sub st w w0 (inr (e, s, same)) =
      rw (e, subsys_process, s, same) (create_missing-IsServed P keeps sub.interfaces sub.name _ _)
