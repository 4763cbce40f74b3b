-- ===== src/Db/Valid.antt =====
-- src/ovsdb_access.c: the invariant of the map `ovs_intfs`, and the operations that create ports.
use ops_pmd.Base.{
  ◌≡◌, refl, true, List, [], ◌∷◌, CString, arith, All, find, add, IsNew, HasUniqueKeys,
  modify_first-HasUniqueKeys, modify_first-All, Bool-cases, Option-cases, inl, inr, succeeded,
}
use ops_pmd.Port.{PmPort}
use ops_pmd.Platform.{Platform}
use ops_pmd.Config.{pm_get_yaml_port, pm_read_yaml_files}
use ops_pmd.Db.{
  IntfRow, SubsystemRow, Pmd, new_port, get_hw_enable, intf_create, intf_modify, create_missing,
  subsys_process, subsystems_process, intfs_modify,
}

-- A port under its own name that is pluggable.
abbrev pub IsKept : CString × PmPort → Type 0
IsKept n = (n.0 ≡ n.1.instance_name) × (n.1.module_device.pluggable ≡ true)

-- No name stands twice, so the node that `shash_find` returns is the only one.
pub record IsValid (ports : List (CString × PmPort)) : Type 0 where
  pub kept : All IsKept ports
  pub unique : HasUniqueKeys ports

module _ (P : Platform) where
  intf_create-IsValid :
      (intf : IntfRow) (sub_name : CString) (st : Pmd) (w : P.World)
      → IsNew intf.name st.ovs_intfs
      → IsValid st.ovs_intfs
      → IsValid (intf_create P intf sub_name st w).0.ovs_intfs
  unfolding intf_create new_port add
  intf_create-IsValid intf sub_name st w fresh v =
      elim (Option-cases (pm_get_yaml_port P w sub_name intf.name)) [
        | inl e ↦ rw (e, intf_create) v
        | inr (yaml_port, e) ↦ elim (Bool-cases yaml_port.pluggable) [
          | inl h ↦
              rw (e, intf_create, h)
                (record { kept = ((refl, refl), v.kept); unique = (fresh, v.unique) })
          | inr h ↦ rw (e, intf_create, h) v
        ]
      ]

  create_missing-IsValid :
      (intfs : List IntfRow) (sub_name : CString) (st : Pmd) (w : P.World)
      → IsValid st.ovs_intfs
      → IsValid (create_missing P intfs sub_name st w).0.ovs_intfs
  unfolding create_missing
  create_missing-IsValid [] sub_name st w v = v
  create_missing-IsValid (intf ∷ intfs) sub_name st w v =
      elim (Option-cases (find intf.name st.ovs_intfs)) [
        | inl e ↦
            rw (e, create_missing)
              (create_missing-IsValid intfs sub_name _ _
                (intf_create-IsValid intf sub_name st w e v))
        | inr (p, e) ↦ rw (e, create_missing) (create_missing-IsValid intfs sub_name st w v)
      ]

  subsys_process-IsValid :
      (sub : SubsystemRow) (st : Pmd) (w : P.World)
      → IsValid st.ovs_intfs
      → IsValid (subsys_process P sub st w).0.ovs_intfs
  unfolding subsys_process
  subsys_process-IsValid sub st w v = elim (Option-cases (find sub.name st.ovs_subs)) [
    | inr (u, e) ↦ rw (e, subsys_process) (create_missing-IsValid sub.interfaces sub.name st w v)
    | inl e ↦
        let st' : Pmd = record st { ovs_subs = add sub.name sub.uuid st.ovs_subs } in
        let (rc, w') = pm_read_yaml_files P sub.name sub.hw_desc_dir w in
        elim (Bool-cases (succeeded rc)) [
          | inl s ↦
              rw (e, subsys_process, s) (create_missing-IsValid sub.interfaces sub.name st' w' v)
          | inr s ↦ rw (e, subsys_process, s) v
        ]
  ]

  pub subsystems_process-IsValid :
      (subs : List SubsystemRow) (st : Pmd) (w : P.World)
      → IsValid st.ovs_intfs
      → IsValid (subsystems_process P subs st w).0.ovs_intfs
  unfolding subsystems_process
  subsystems_process-IsValid [] st w v = v
  subsystems_process-IsValid (sub ∷ subs) st w v =
      subsystems_process-IsValid subs _ _ (subsys_process-IsValid sub st w v)

  pub intf_modify_frame :
      (intf : IntfRow) (p : PmPort) (w : P.World)
      → (intf_modify P intf p w).0 ≡ record p { hw_enable = get_hw_enable P.build intf }
  unfolding intf_modify
  intf_modify_frame intf p w = ground arith

  pub intfs_modify-IsValid :
      (intfs : List IntfRow) (ports : List (CString × PmPort)) (w : P.World)
      → IsValid ports
      → IsValid (intfs_modify P intfs ports w).0
  unfolding intfs_modify
  intfs_modify-IsValid [] ports w v = v
  intfs_modify-IsValid (intf ∷ intfs) ports w v = elim (Option-cases (find intf.name ports)) [
    | inl e ↦ rw (e, intfs_modify) (intfs_modify-IsValid intfs ports w v)
    | inr (p, e) ↦
        rw (e, intfs_modify)
          (intfs_modify-IsValid intfs _ _ (record {
            kept =
                modify_first-All IsKept intf.name _ ports e
                  (λ j k. rw (intf_modify_frame intf p w) k) v.kept;
            unique = modify_first-HasUniqueKeys intf.name _ ports v.unique;
          }))
  ]
