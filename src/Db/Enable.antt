-- ===== src/Db/Enable.antt =====
-- src/ovsdb_access.c: `pmd_reconfigure` and the configuration of the interfaces.
use ops_pmd.Base.{
  Bool, true, str_eq_sym, Bool-cases, if◌then◌else◌, ◌≡◌, refl, false, Option, none, some, List, [],
  ◌∷◌, CString, arith, All, find, modify_first, Option-cases, inl, inr, ap, ◌∙◌, sym, subst, str_eq,
  find-modify_ne, find-modify_self,
}
use ops_pmd.Port.{PmPort}
use ops_pmd.Platform.{Platform}
use ops_pmd.Plug.{pm_configure_port}
use ops_pmd.Db.{Idl, IntfRow, Pmd, get_hw_enable, intf_modify, subsystems_process, intfs_modify}
use ops_pmd.Db.Wanted.{IsEnabledBy, get_hw_enable-IsEnabledBy}
use ops_pmd.Db.Loop.{drop_gone, follow_db}
use ops_pmd.Db.Valid.{intf_modify_frame}

-- No two rows have one name, which is the key of the table.
abbrev pub HasUniqueNames : List IntfRow → Type 0
HasUniqueNames [] = Unit
HasUniqueNames (intf ∷ intfs) =
    All (λ other. str_eq other.name intf.name ≡ false) intfs × HasUniqueNames intfs

pub none_not_some : {o : Option PmPort} {q : PmPort} → o ≡ none → o ≡ some q → ⊥
none_not_some a b = cc

same_value : {o : Option PmPort} {p q : PmPort} → o ≡ some p → o ≡ some q → q ≡ p
same_value a b = ground arith

-- Two ports are enabled alike.
abbrev agree : Bool → Bool → Bool
agree true true = true
agree false false = true
agree _ _ = false

module _ (P : Platform) where
  -- The port under the name of a row, if there is one, is enabled exactly where the row says so.
  abbrev pub Follows : List (CString × PmPort) → IntfRow → Type 0
  Follows ports intf =
      (p : PmPort)
      → find intf.name ports ≡ some p
      → IsEnabledBy P.build intf.hw_intf_config p.hw_enable

  find-intfs_modify :
      (key : CString) (intfs : List IntfRow) (ports : List (CString × PmPort)) (w : P.World)
      → All (λ other. str_eq other.name key ≡ false) intfs
      → find key (intfs_modify P intfs ports w).0 ≡ find key ports
  unfolding intfs_modify
  find-intfs_modify key [] ports w h = refl
  find-intfs_modify key (intf ∷ intfs) ports w h = elim (Option-cases (find intf.name ports)) [
    | inl e ↦ rw (e, intfs_modify) (find-intfs_modify key intfs ports w h.1)
    | inr (p, e) ↦
        rw (e, intfs_modify)
          (find-intfs_modify key intfs _ _ h.1 ∙ find-modify_ne key intf.name _ ports h.0)
  ]

  intfs_modify-none :
      (intf : IntfRow) (intfs : List IntfRow) (ports : List (CString × PmPort)) (w : P.World)
      → find intf.name ports ≡ none
      → intfs_modify P (intf ∷ intfs) ports w ≡ intfs_modify P intfs ports w
  unfolding intfs_modify
  intfs_modify-none intf intfs ports w e = rw (e, intfs_modify)

  intfs_modify-some :
      (intf : IntfRow) (intfs : List IntfRow) (ports : List (CString × PmPort)) (w : P.World)
      (p : PmPort)
      → find intf.name ports ≡ some p
      → intfs_modify P (intf ∷ intfs) ports w
        ≡ intfs_modify P intfs
            (modify_first intf.name (λ _. (intf_modify P intf p w).0) ports)
            (intf_modify P intf p w).1
  unfolding intfs_modify
  intfs_modify-some intf intfs ports w p e = rw (e, intfs_modify)

  intfs_modify-Follows :
      (intfs : List IntfRow) (ports : List (CString × PmPort)) (w : P.World)
      → HasUniqueNames intfs
      → All (Follows (intfs_modify P intfs ports w).0) intfs
  intfs_modify-Follows [] ports w u = tt
  intfs_modify-Follows (intf ∷ intfs) ports w u = elim (Option-cases (find intf.name ports)) [
    | inl e ↦
        subst (λ r. All (Follows r.0) (intf ∷ intfs)) (sym (intfs_modify-none intf intfs ports w e))
          (
            λ p h. absurd (none_not_some (find-intfs_modify intf.name intfs ports w u.0 ∙ e) h),
            intfs_modify-Follows intfs ports w u.1,
          )
    | inr (p, e) ↦
        let (p', w') = intf_modify P intf p w in
        let ports' = modify_first intf.name (λ _. p') ports in
        subst (λ r. All (Follows r.0) (intf ∷ intfs))
          (sym (intfs_modify-some intf intfs ports w p e))
          (
            λ q h.
                subst (IsEnabledBy P.build intf.hw_intf_config)
                  (sym (
                    ap (λ r. r.hw_enable)
                      (same_value
                        (find-intfs_modify intf.name intfs ports' w' u.0
                          ∙ find-modify_self intf.name (λ _. p') ports p e)
                        h)
                    ∙ ap (λ r. r.hw_enable) (intf_modify_frame P intf p w)))
                  (get_hw_enable-IsEnabledBy P.build intf),
            intfs_modify-Follows intfs ports' w' u.1,
          )
  ]

  -- What the hardware is told between two states of the ports: of each row's port that is enabled otherwise
  -- than before, as it stands afterwards, in the order of the rows.
  unfoldable pub told_changes :
      (before after : List (CString × PmPort)) → List IntfRow → P.World → P.World
  told_changes before after [] w = w
  told_changes before after (intf ∷ intfs) w =
      told_changes before after intfs (elim (find intf.name before) [
        | none ↦ w
        | some p ↦ elim (find intf.name after) [
          | none ↦ w
          | some q ↦ if agree p.hw_enable q.hw_enable then w else pm_configure_port P q w
        ]
      ])

  told_changes-modify :
      (key : CString) (f : PmPort → PmPort) (before after : List (CString × PmPort))
      (intfs : List IntfRow) (w : P.World)
      → All (λ other. str_eq other.name key ≡ false) intfs
      → told_changes (modify_first key f before) after intfs w ≡ told_changes before after intfs w
  unfolding told_changes
  told_changes-modify key f before after [] w h = refl
  told_changes-modify key f before after (intf ∷ intfs) w h =
      rw (find-modify_ne intf.name key f before (str_eq_sym key intf.name ∙ h.0))
        (told_changes-modify key f before after intfs _ h.1)

  intf_modify-told :
      (intf : IntfRow) (p : PmPort) (w : P.World)
      → (intf_modify P intf p w).1 ≡ (
          if agree p.hw_enable (intf_modify P intf p w).0.hw_enable
          then w
          else pm_configure_port P (intf_modify P intf p w).0 w)
  unfolding intf_modify
  intf_modify-told intf p w = elim (Bool-cases p.hw_enable) [
    | inl a ↦ elim (Bool-cases (get_hw_enable P.build intf)) [
      | inl b ↦ ground arith
      | inr b ↦ ground arith
    ]
    | inr a ↦ elim (Bool-cases (get_hw_enable P.build intf)) [
      | inl b ↦ ground arith
      | inr b ↦ ground arith
    ]
  ]

  told_changes-step :
      (intf : IntfRow) (intfs : List IntfRow) (before after : List (CString × PmPort)) (w : P.World)
      {p q : PmPort}
      → find intf.name before ≡ some p
      → find intf.name after ≡ some q
      → told_changes before after (intf ∷ intfs) w
        ≡ told_changes before after intfs
            (if agree p.hw_enable q.hw_enable then w else pm_configure_port P q w)
  unfolding told_changes
  told_changes-step intf intfs before after w e h = rw (e, told_changes, h)

  intfs_modify-told :
      (intfs : List IntfRow) (ports : List (CString × PmPort)) (w : P.World)
      → HasUniqueNames intfs
      → (intfs_modify P intfs ports w).1
        ≡ told_changes ports (intfs_modify P intfs ports w).0 intfs w
  intfs_modify-told [] ports w u = unfold intfs_modify told_changes in refl
  intfs_modify-told (intf ∷ intfs) ports w u = elim (Option-cases (find intf.name ports)) [
    | inl e ↦
        subst (λ r. r.1 ≡ told_changes ports r.0 (intf ∷ intfs) w)
          (sym (intfs_modify-none intf intfs ports w e))
          (intfs_modify-told intfs ports w u.1 ∙ unfold told_changes in rw e)
    | inr (p, e) ↦
        let (p', w') = intf_modify P intf p w in
        let ports' = modify_first intf.name (λ _. p') ports in
        let after = (intfs_modify P intfs ports' w').0 in
        subst (λ r. r.1 ≡ told_changes ports r.0 (intf ∷ intfs) w)
          (sym (intfs_modify-some intf intfs ports w p e))
          (intfs_modify-told intfs ports' w' u.1
            ∙ told_changes-modify intf.name (λ _. p') ports after intfs w' u.0
            ∙ ap (told_changes ports after intfs) (intf_modify-told intf p w)
            ∙ sym (
                told_changes-step intf intfs ports after w e (
                  find-intfs_modify intf.name intfs ports' w' u.0
                  ∙ find-modify_self intf.name (λ _. p') ports p e)))
  ]

  -- When `pmd_reconfigure` has followed a change of a database in which no two interfaces have one
  -- name, the flag `hw_enable` of the port of each interface row, if there is one, is set exactly where
  -- `hw_intf_config` has the key "enable" with the value for true; and, once the subsystems have been
  -- processed, `pm_configure_port` is called for each port whose flag changes, as the port stands
  -- afterwards, in the order of the rows, and nothing else acts on the hardware.
  pub follow_db-Follows :
      (I : Idl) (db : I.Db) (st : Pmd) (w : P.World)
      → HasUniqueNames (I.interfaces db)
      → let (mid, w1) = subsystems_process P (I.subsystems db) (drop_gone I db st) w in
        let (after, w2) = follow_db I P db st w in
        All (Follows after.ovs_intfs) (I.interfaces db)
        × (w2 ≡ told_changes mid.ovs_intfs after.ovs_intfs (I.interfaces db) w1)
  unfolding follow_db
  follow_db-Follows I db st w u =
      let (mid, w') = subsystems_process P (I.subsystems db) (drop_gone I db st) w in
      (
        intfs_modify-Follows (I.interfaces db) mid.ovs_intfs w' u,
        intfs_modify-told (I.interfaces db) mid.ovs_intfs w' u,
      )
