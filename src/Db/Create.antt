-- ===== src/Db/Create.antt =====
-- src/ovsdb_access.c: the interfaces for which `ovsdb_if_subsys_process` makes ports.
use ops_pmd.Base.{
  ◌≡◌, true, false, Option, none, some, List, [], ◌∷◌, CString, All, find, add, Option-cases,
  Bool-cases, inl, inr, ap, ◌∙◌, sym, subst, str_eq, str_eq_refl, str_eq→eq,
}
use ops_pmd.Port.{PmPort, YamlPort}
use ops_pmd.Platform.{Platform}
use ops_pmd.Config.{pm_get_yaml_port}
use ops_pmd.Db.Enable.{none_not_some}
use ops_pmd.Db.{IntfRow, Pmd, new_port, intf_create, create_missing}
use ops_pmd.Db.Yaml.{
  SameYaml, KeepsYaml, pm_get_yaml_port-SameYaml, SameYaml-refl, SameYaml-trans,
  pm_configure_port-SameYaml, pm_clear_reset-SameYaml,
}

-- A name that is found and one that is not.
pub different :
    (j k : CString) (m : List (CString × PmPort)) {p : PmPort}
    → find k m ≡ some p
    → find j m ≡ none
    → str_eq j k ≡ false
different j k m here fresh = elim (Bool-cases (str_eq j k)) [
  | inr e ↦ e
  | inl e ↦ absurd (none_not_some (ap (λ n. find n m) (sym (str_eq→eq j k e)) ∙ fresh) here)
]

module _ (P : Platform) where
  module _ (keeps : KeepsYaml P) where
    -- What a step of the loop does: it adds a port, or leaves the ports, and the description stays.
    pub intf_create-SameYaml :
        (intf : IntfRow) (sub : CString) (st : Pmd) (w : P.World)
        → SameYaml P (intf_create P intf sub st w).1 w
    unfolding intf_create
    intf_create-SameYaml intf sub st w = elim (Option-cases (pm_get_yaml_port P w sub intf.name)) [
      | inl e ↦ rw (e, intf_create) (SameYaml-refl P w)
      | inr (yaml_port, e) ↦ elim (Bool-cases yaml_port.pluggable) [
        | inr h ↦ rw (e, intf_create, h) (SameYaml-refl P w)
        | inl h ↦
            rw (e, intf_create, h)
              (SameYaml-trans P _ _ w (pm_clear_reset-SameYaml P keeps _ _)
                (pm_configure_port-SameYaml P keeps _ w))
      ]
    ]

  created :
      (intf : IntfRow) (sub : CString) (st : Pmd) (w : P.World) (yaml_port : YamlPort)
      → pm_get_yaml_port P w sub intf.name ≡ some yaml_port
      → yaml_port.pluggable ≡ true
      → find intf.name (intf_create P intf sub st w).0.ovs_intfs
        ≡ some (new_port P.build intf sub yaml_port)
  unfolding intf_create add find new_port
  created intf sub st w yaml_port e h = rw (e, intf_create, h, str_eq_refl intf.name)

  intf_create-kept :
      (k : CString) (intf : IntfRow) (sub : CString) (st : Pmd) (w : P.World) {p : PmPort}
      → find k st.ovs_intfs ≡ some p
      → find intf.name st.ovs_intfs ≡ none
      → find k (intf_create P intf sub st w).0.ovs_intfs ≡ some p
  unfolding intf_create add find new_port
  intf_create-kept k intf sub st w here fresh =
      elim (Option-cases (pm_get_yaml_port P w sub intf.name)) [
        | inl e ↦ rw (e, intf_create) here
        | inr (yaml_port, e) ↦ elim (Bool-cases yaml_port.pluggable) [
          | inr h ↦ rw (e, intf_create, h) here
          | inl h ↦ rw (e, intf_create, h, different _ _ _ here fresh) here
        ]
      ]

  pub create_missing-fresh :
      (intf : IntfRow) (intfs : List IntfRow) (sub : CString) (st : Pmd) (w : P.World)
      → find intf.name st.ovs_intfs ≡ none
      → create_missing P (intf ∷ intfs) sub st w
        ≡ create_missing P intfs sub (intf_create P intf sub st w).0 (intf_create P intf sub st w).1
  unfolding create_missing
  create_missing-fresh intf intfs sub st w e = rw (e, create_missing)

  pub create_missing-known :
      (intf : IntfRow) (intfs : List IntfRow) (sub : CString) (st : Pmd) (w : P.World) {p : PmPort}
      → find intf.name st.ovs_intfs ≡ some p
      → create_missing P (intf ∷ intfs) sub st w ≡ create_missing P intfs sub st w
  unfolding create_missing
  create_missing-known intf intfs sub st w e = rw (e, create_missing)

  -- The port that is found under a name, in the result of the loop.
  abbrev pub port_after : CString → Pmd × P.World → Option PmPort
  port_after k r = find k r.0.ovs_intfs

  pub create_missing-kept :
      (k : CString) (intfs : List IntfRow) (sub : CString) (st : Pmd) (w : P.World) {p : PmPort}
      → find k st.ovs_intfs ≡ some p
      → port_after k (create_missing P intfs sub st w) ≡ some p
  create_missing-kept k [] sub st w here = unfold create_missing in here
  create_missing-kept k (intf ∷ intfs) sub st w here =
      elim (Option-cases (find intf.name st.ovs_intfs)) [
        | inl e ↦
            ap (port_after k) (create_missing-fresh intf intfs sub st w e)
            ∙ create_missing-kept k intfs sub _ _ (intf_create-kept k intf sub st w here e)
        | inr (q, e) ↦
            ap (port_after k) (create_missing-known intf intfs sub st w e)
            ∙ create_missing-kept k intfs sub st w here
      ]

  -- An interface that the description of the subsystem names as pluggable has a port.
  abbrev pub IsServed : P.World → CString → List (CString × PmPort) → IntfRow → Type 0
  IsServed w sub ports intf =
      (yaml_port : YamlPort)
      → pm_get_yaml_port P w sub intf.name ≡ some yaml_port
      → yaml_port.pluggable ≡ true
      → (p : PmPort) × (find intf.name ports ≡ some p)

  serve :
      KeepsYaml P
      → (intfs : List IntfRow) (sub : CString) (st : Pmd) (w w0 : P.World) → SameYaml P w w0
      → All (IsServed w0 sub (create_missing P intfs sub st w).0.ovs_intfs) intfs
  serve keeps [] sub st w w0 e = tt
  serve keeps (intf ∷ intfs) sub st w w0 e = elim (Option-cases (find intf.name st.ovs_intfs)) [
    | inl fresh ↦
        let (st1, w1) = intf_create P intf sub st w in
        subst (λ r. All (IsServed w0 sub r.0.ovs_intfs) (intf ∷ intfs))
          (sym (create_missing-fresh intf intfs sub st w fresh))
          (
            λ yaml_port found h. (
              new_port P.build intf sub yaml_port,
              create_missing-kept intf.name intfs sub st1 w1 (
                  created intf sub st w yaml_port
                    (pm_get_yaml_port-SameYaml P w w0 sub intf.name e ∙ found) h),
            ),
            serve keeps intfs sub st1 w1 w0
                (SameYaml-trans P w1 w w0 (intf_create-SameYaml keeps intf sub st w) e),
          )
    | inr (p, known) ↦
        subst (λ r. All (IsServed w0 sub r.0.ovs_intfs) (intf ∷ intfs))
          (sym (create_missing-known intf intfs sub st w known))
          (
            λ yaml_port found h. (p, create_missing-kept intf.name intfs sub st w known),
            serve keeps intfs sub st w w0 e,
          )
  ]

  -- After the loop over the interfaces of a subsystem each of them that the hardware description names
  -- as a pluggable port has a port. It is assumed that no access to a device, and no wait, changes the
  -- description.
  pub create_missing-IsServed :
      KeepsYaml P
      → (intfs : List IntfRow) (sub : CString) (st : Pmd) (w : P.World)
      → All (IsServed w sub (create_missing P intfs sub st w).0.ovs_intfs) intfs
  create_missing-IsServed keeps intfs sub st w = serve keeps intfs sub st w w (SameYaml-refl P w)
