-- ===== src/Db/Refine.antt =====
-- src/ovsdb_access.c: the creation of ports against its specification on maps from names to ports, which
-- forget the order of the entries and what the hash table keeps behind the first entry of a name.
use ops_pmd.Base.{
  ◌≡◌, refl, Bool, true, false, Option, none, some, List, [], ◌∷◌, CString, find, add, Option-cases,
  Bool-cases, inl, inr, ap, ◌∙◌, sym, str_eq, str_eq_sym, str_eq→eq, if◌then◌else◌, arith,
}
use ops_pmd.Port.{PmPort, YamlPort}
use ops_pmd.Platform.{Platform}
use ops_pmd.Config.{pm_get_yaml_port}
use ops_pmd.Db.{IntfRow, Pmd, new_port, intf_create, create_missing}
use ops_pmd.Db.Yaml.{SameYaml, KeepsYaml, pm_get_yaml_port-SameYaml, SameYaml-refl, SameYaml-trans}
use ops_pmd.Db.Create.{different, intf_create-SameYaml, create_missing-fresh, create_missing-known}

-- A map of ports, as its users see it.
abbrev pub PortMap : Type 0
PortMap = CString → Option PmPort

abbrev pub view : List (CString × PmPort) → PortMap
view ports name = find name ports

-- What `m` has, and where it has nothing, what `n` has.
abbrev pub or_else : PortMap → PortMap → PortMap
or_else m n name = elim (m name) [ none ↦ n name | some p ↦ some p ]

module _ (P : Platform) where
  -- The pluggable port that the description has under a name.
  abbrev pub pluggable_for : P.World → CString → CString → Option YamlPort
  pluggable_for w sub name = elim (pm_get_yaml_port P w sub name) [
    | none ↦ none
    | some yaml_port ↦ if yaml_port.pluggable then some yaml_port else none
  ]

  abbrev pub port_of : IntfRow → CString → Option YamlPort → Option PmPort
  port_of intf sub none = none
  port_of intf sub (some yaml_port) = some (new_port P.build intf sub yaml_port)

  -- The port that an interface gets: the description has to name a pluggable port for it.
  abbrev pub port_for : P.World → CString → IntfRow → Option PmPort
  port_for w sub intf = port_of intf sub (pluggable_for w sub intf.name)

  -- The ports for the interfaces of a subsystem: the first interface of a name counts.
  abbrev pub ports_for : P.World → CString → List IntfRow → PortMap
  ports_for w sub [] name = none
  ports_for w sub (intf ∷ intfs) name =
      if str_eq intf.name name then port_for w sub intf else ports_for w sub intfs name

  intf_create-yaml :
      (intf : IntfRow) (sub : CString) (st : Pmd) (w : P.World) (yaml_port : YamlPort)
      → pm_get_yaml_port P w sub intf.name ≡ some yaml_port
      → (intf_create P intf sub st w).0.ovs_intfs ≡ (
          if yaml_port.pluggable
          then (intf.name, new_port P.build intf sub yaml_port) ∷ st.ovs_intfs
          else st.ovs_intfs)
  unfolding intf_create add new_port
  intf_create-yaml intf sub st w yaml_port e = rw (e, intf_create) (ground arith)

  intf_create-none :
      (intf : IntfRow) (sub : CString) (st : Pmd) (w : P.World)
      → pm_get_yaml_port P w sub intf.name ≡ none
      → ((intf_create P intf sub st w).0.ovs_intfs ≡ st.ovs_intfs)
        × (pluggable_for w sub intf.name ≡ none)
  unfolding intf_create
  intf_create-none intf sub st w e = (rw (e, intf_create), rw (e, pluggable_for))

  pluggable_for-yaml :
      (name sub : CString) (w : P.World) (yaml_port : YamlPort)
      → pm_get_yaml_port P w sub name ≡ some yaml_port
      → pluggable_for w sub name ≡ (if yaml_port.pluggable then some yaml_port else none)
  pluggable_for-yaml name sub w yaml_port e = rw (e, pluggable_for)

  -- The map with the new port, if there is one.
  abbrev with_port : CString → Option PmPort → List (CString × PmPort) → List (CString × PmPort)
  with_port name none ports = ports
  with_port name (some p) ports = (name, p) ∷ ports

  -- What the creation of a port does to the map.
  intf_create-ports :
      (intf : IntfRow) (sub : CString) (st : Pmd) (w : P.World)
      → (intf_create P intf sub st w).0.ovs_intfs
        ≡ with_port intf.name (port_for w sub intf) st.ovs_intfs
  intf_create-ports intf sub st w = elim (Option-cases (pm_get_yaml_port P w sub intf.name)) [
    | inl e ↦
        let (same, nothing) = intf_create-none intf sub st w e in
        same ∙ ap (λ o. with_port intf.name (port_of intf sub o) st.ovs_intfs) (sym nothing)
    | inr (yaml_port, e) ↦
        intf_create-yaml intf sub st w yaml_port e
        ∙ either yaml_port.pluggable yaml_port
        ∙ ap (λ o. with_port intf.name (port_of intf sub o) st.ovs_intfs)
            (sym (pluggable_for-yaml intf.name sub w yaml_port e))
  ]
    where
      either :
          (b : Bool) (y : YamlPort)
          → (if b then (intf.name, new_port P.build intf sub y) ∷ st.ovs_intfs else st.ovs_intfs)
            ≡ with_port intf.name (port_of intf sub (if b then some y else none)) st.ovs_intfs
      either true y = refl
      either false y = refl

  port_for-SameYaml :
      (intf : IntfRow) (sub : CString) (w w0 : P.World)
      → SameYaml P w w0
      → port_for w sub intf ≡ port_for w0 sub intf
  port_for-SameYaml intf sub w w0 same =
      ap (port_of intf sub) (here (pm_get_yaml_port-SameYaml P w w0 sub intf.name same))
    where
      here :
          pm_get_yaml_port P w sub intf.name ≡ pm_get_yaml_port P w0 sub intf.name
          → pluggable_for w sub intf.name ≡ pluggable_for w0 sub intf.name
      here e = rw (e, pluggable_for)

  -- An interface that gets no port gets none under the same name later either.
  port_for-name :
      (w : P.World) (sub name : CString) (intfs : List IntfRow)
      → pluggable_for w sub name ≡ none
      → ports_for w sub intfs name ≡ none
  port_for-name w sub name [] e = refl
  port_for-name w sub name (other ∷ intfs) e = elim (Bool-cases (str_eq other.name name)) [
    | inr d ↦ rw d (port_for-name w sub name intfs e)
    | inl d ↦
        rw d (ap (port_of other sub) (ap (pluggable_for w sub) (str_eq→eq other.name name d) ∙ e))
  ]

  -- One step of the loop, on the maps.
  find-with_port :
      (o : Option PmPort) (rest : Option PmPort) (key name : CString)
      (ports : List (CString × PmPort))
      → find key ports ≡ none
      → (o ≡ none → str_eq key name ≡ true → rest ≡ none)
      → elim (find name (with_port key o ports)) [ none ↦ rest | some p ↦ some p ]
        ≡ elim (find name ports) [ none ↦ if str_eq key name then o else rest | some p ↦ some p ]
  unfolding find
  find-with_port none rest key name ports fresh gone = elim (Bool-cases (str_eq key name)) [
    | inl d ↦ rw (ap (λ k. find k ports) (sym (str_eq→eq key name d)) ∙ fresh, d) (gone refl d)
    | inr d ↦
        ap (λ b. elim (find name ports) [ none ↦ if b then none else rest | some p ↦ some p ])
          (sym d)
  ]
  find-with_port (some p) rest key name ports fresh gone = elim (Bool-cases (str_eq key name)) [
    | inl d ↦ rw (d, ap (λ k. find k ports) (sym (str_eq→eq key name d)) ∙ fresh, d)
    | inr d ↦ rw d (
        ap (λ b. elim (find name ports) [ none ↦ if b then some p else rest | some q ↦ some q ])
          (sym d))
  ]

  step_new :
      (w : P.World) (sub : CString) (intf : IntfRow) (intfs : List IntfRow)
      (ports : List (CString × PmPort)) (name : CString)
      → find intf.name ports ≡ none
      → or_else
          (view (with_port intf.name (port_for w sub intf) ports))
          (ports_for w sub intfs)
          name
        ≡ or_else (view ports) (ports_for w sub (intf ∷ intfs)) name
  step_new w sub intf intfs ports name fresh =
      find-with_port (port_for w sub intf) (ports_for w sub intfs name) intf.name name ports fresh
        (λ e d. port_for-name w sub name intfs (
          ap (pluggable_for w sub) (sym (str_eq→eq intf.name name d))
          ∙ unplugged (pluggable_for w sub intf.name) e))
    where
      unplugged : (o : Option YamlPort) → port_of intf sub o ≡ none → o ≡ none
      unplugged none e = refl
      unplugged (some y) e = cc

  step_known :
      (w : P.World) (sub : CString) (intf : IntfRow) (intfs : List IntfRow)
      (ports : List (CString × PmPort)) (name : CString) {p : PmPort}
      → find intf.name ports ≡ some p
      → or_else (view ports) (ports_for w sub intfs) name
        ≡ or_else (view ports) (ports_for w sub (intf ∷ intfs)) name
  step_known w sub intf intfs ports name known = elim (Option-cases (find name ports)) [
    | inr (q, e) ↦ rw (e, or_else)
    | inl e ↦ rw (e, or_else, str_eq_sym intf.name name ∙ different name intf.name ports known e)
  ]

  view-create_missing :
      KeepsYaml P
      → (intfs : List IntfRow) (sub : CString) (st : Pmd) (w w0 : P.World) (name : CString)
      → SameYaml P w w0
      → view (create_missing P intfs sub st w).0.ovs_intfs name
        ≡ or_else (view st.ovs_intfs) (ports_for w0 sub intfs) name
  unfolding create_missing
  view-create_missing keeps [] sub st w w0 name same = nothing_more (find name st.ovs_intfs)
    where
      nothing_more : (o : Option PmPort) → o ≡ elim o [ none ↦ none | some p ↦ some p ]
      nothing_more none = refl
      nothing_more (some p) = refl
  view-create_missing keeps (intf ∷ intfs) sub st w w0 name same =
      elim (Option-cases (find intf.name st.ovs_intfs)) [
        | inr (p, e) ↦
            ap (λ r. find name r.0.ovs_intfs) (create_missing-known P intf intfs sub st w e)
            ∙ view-create_missing keeps intfs sub st w w0 name same
            ∙ step_known w0 sub intf intfs st.ovs_intfs name e
        | inl e ↦
            let (st1, w1) = intf_create P intf sub st w in
            ap (λ r. find name r.0.ovs_intfs) (create_missing-fresh P intf intfs sub st w e)
            ∙ view-create_missing keeps intfs sub st1 w1 w0 name
                (SameYaml-trans P w1 w w0 (intf_create-SameYaml P keeps intf sub st w) same)
            ∙ ap (λ ports. or_else (view ports) (ports_for w0 sub intfs) name)
                (intf_create-ports intf sub st w
                  ∙ ap (λ o. with_port intf.name o st.ovs_intfs)
                      (port_for-SameYaml intf sub w w0 same))
            ∙ step_new w0 sub intf intfs st.ovs_intfs name e
      ]

  -- The loop over the interfaces of a subsystem refines an update of the map from names to ports: the map
  -- afterwards has the ports that were there, and under every other name the port that the hardware
  -- description gives the first interface of that name, if it names a pluggable one. It is assumed that
  -- no access to a device, and no wait, changes the description.
  pub create_missing-Refines :
      KeepsYaml P
      → (intfs : List IntfRow) (sub : CString) (st : Pmd) (w : P.World)
      → view (create_missing P intfs sub st w).0.ovs_intfs
        ≡ or_else (view st.ovs_intfs) (ports_for w sub intfs)
  create_missing-Refines keeps intfs sub st w =
      λ i name. view-create_missing keeps intfs sub st w w name (SameYaml-refl P w) i
