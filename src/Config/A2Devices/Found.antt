-- ===== src/Config/A2Devices/Found.antt =====
-- src/config.c, src/plug.c: `pm_read_a2` finds the devices that `pm_create_a2_devices` adds.
use ops_pmd.Base.{
  succeeded, Bool-cases, Option-cases, append_assoc, arith, ◌≡◌, ◌⊎◌, refl, Bool, true, false, not,
  Option, none, some, List, [], ◌∷◌, ◌++◌, CString, codes, if◌then◌else◌, str_eq, str_eq_refl, All,
  ap, ◌∙◌, sym, subst, inl, inr,
}
use ops_pmd.Port.{PmPort, YamlPort, connector_sfp_plus}
use ops_pmd.Platform.{Platform}
use ops_pmd.Config.{pm_get_yaml_port}
use ops_pmd.Plug.{a2_device_name}
use ops_pmd.Db.Yaml.{SameYaml, pm_get_yaml_port-SameYaml}
use ops_pmd.Config.A2Devices.{
  pm_sfp_a2_i2c_address, DeviceLibrary, create_a2_device, pm_create_a2_devices, AddsDevices,
  IsThere, IsDescribed, HasA2,
}

module _ (P : Platform) (L : DeviceLibrary P) where
  module _ (adds : AddsDevices P L) (same_name : L.sfpp ≡ connector_sfp_plus) where
    -- The call that the body makes for a device of the serial id.
    abbrev add_for : PmPort → P.World → P.Device → P.World
    add_for p w a0_device =
        let new_name = L.device_name a0_device ++ codes "_dom" in
        (L.yaml_add_device p.subsystem new_name (L.renamed a0_device new_name pm_sfp_a2_i2c_address)
          w).1

    create_a2_device-cases :
        (yaml_port : YamlPort) (p : PmPort) (w : P.World)
        → (create_a2_device P L yaml_port p w ≡ w)
          ⊎ ((d : P.Device) × (create_a2_device P L yaml_port p w ≡ add_for p w d))
    unfolding create_a2_device
    create_a2_device-cases yaml_port p w = branch yaml_port.pluggable _ _
      where
        branch :
            (a b : Bool) (o : Option P.Device)
            → let w' =
                if not a
                then w
                else if not b
                then w
                else elim o [ none ↦ w | some d ↦ add_for p w d ] in
              (w' ≡ w) ⊎ ((d : P.Device) × (w' ≡ add_for p w d))
        branch false b o = inl refl
        branch true false o = inl refl
        branch true true none = inl refl
        branch true true (some d) = inr (d, refl)

    create_a2_device-taken :
        (p : PmPort) (w : P.World) (d : P.Device)
        → p.module_device.pluggable ≡ true
        → p.module_device.connector ≡ some connector_sfp_plus
        → P.yaml_find_device w p.subsystem p.module_device.module_eeprom ≡ some d
        → create_a2_device P L p.module_device p w ≡ add_for p w d
    unfolding create_a2_device
    create_a2_device-taken p w d h c e =
        taken p.module_device.pluggable _ _ h (sfpp_named p.module_device.connector c) e
      where
        taken :
            (a b : Bool) (o : Option P.Device)
            → a ≡ true
            → b ≡ true
            → o ≡ some d
            → (if not a
                then w
                else if not b
                then w
                else elim o [ none ↦ w | some d ↦ add_for p w d ])
              ≡ add_for p w d
        taken a b o h k e = rw (h, k, e)

        sfpp_named :
            (o : Option CString)
            → o ≡ some connector_sfp_plus
            → elim o [ none ↦ false | some c ↦ str_eq c L.sfpp ] ≡ true
        sfpp_named o e = rw (e, same_name) (str_eq_refl connector_sfp_plus)

    create_a2_device-kept :
        (yaml_port : YamlPort) (p : PmPort) (w : P.World) (sub name : CString)
        → IsThere P L w sub name
        → IsThere P L (create_a2_device P L yaml_port p w) sub name
    create_a2_device-kept yaml_port p w sub name (a, there) =
        elim (create_a2_device-cases yaml_port p w) [
          | inl e ↦ subst (λ v. IsThere P L v sub name) (sym e) (a, there)
          | inr (d, e) ↦
              subst (λ v. IsThere P L v sub name) (sym e)
                (adds.kept w p.subsystem (L.device_name d ++ codes "_dom") _ sub name there)
        ]

    create_a2_device-SameYaml :
        (yaml_port : YamlPort) (p : PmPort) (w : P.World)
        → SameYaml P (create_a2_device P L yaml_port p w) w
    create_a2_device-SameYaml yaml_port p w = elim (create_a2_device-cases yaml_port p w) [
      | inl e ↦ subst (λ v. SameYaml P v w) (sym e) (refl, refl)
      | inr (d, e) ↦ subst (λ v. SameYaml P v w) (sym e) (adds.same_ports w p.subsystem _ _)
    ]

    -- Behind its turn the port has its second device, or that could not be added.
    create_a2_device-IsThere :
        (p : PmPort) (w : P.World) (d : P.Device)
        → p.module_device.pluggable ≡ true
        → p.module_device.connector ≡ some connector_sfp_plus
        → P.yaml_find_device w p.subsystem p.module_device.module_eeprom ≡ some d
        → IsThere P L (create_a2_device P L p.module_device p w) p.subsystem (a2_device_name p)
          ⊎ (succeeded
                (L.yaml_add_device p.subsystem
                  (a2_device_name p)
                  (L.renamed d (a2_device_name p) 0x51)
                  w).0
              ≡ false)
    create_a2_device-IsThere p w d pluggable sfp there =
        let new = L.renamed d (a2_device_name p) pm_sfp_a2_i2c_address in
        let call = L.yaml_add_device p.subsystem (a2_device_name p) new w in
        elim (Bool-cases (succeeded call.0)) [
          | inr e ↦ inr e
          | inl e ↦ inl (
              subst (λ v. IsThere P L v p.subsystem (a2_device_name p))
                (sym (
                  create_a2_device-taken p w d pluggable sfp there
                  ∙ ap
                      (λ n.
                        (L.yaml_add_device p.subsystem n (L.renamed d n pm_sfp_a2_i2c_address) w).1)
                      (sym (a2_name sfp))))
                (
                  new,
                  adds.added w p.subsystem (a2_device_name p) new
                      (adds.has_name d (a2_device_name p) pm_sfp_a2_i2c_address) e,
                ))
        ]
      where
        a2_name :
            p.module_device.connector ≡ some connector_sfp_plus
            → a2_device_name p ≡ L.device_name d ++ codes "_dom"
        a2_name e =
            rw (e, str_eq_refl connector_sfp_plus)
              (sym (ap (λ n. n ++ codes "_dom") (adds.named w p.subsystem _ d there)))

    pm_create_a2_devices-step :
        (name : CString) (p : PmPort) (ports : List (CString × PmPort)) (w : P.World)
        → IsDescribed P L w (name, p)
        → pm_create_a2_devices P L ((name, p) ∷ ports) w
          ≡ pm_create_a2_devices P L ports (create_a2_device P L p.module_device p w)
    unfolding pm_create_a2_devices
    pm_create_a2_devices-step name p ports w e = rw (e, pm_create_a2_devices)

    -- What is there stays there.
    abbrev Keeps : P.World → P.World → Type 0
    Keeps w w' = (sub name : CString) → IsThere P L w sub name → IsThere P L w' sub name

    IsDescribed-SameYaml :
        (ports : List (CString × PmPort)) (w w' : P.World)
        → SameYaml P w' w
        → All (IsDescribed P L w) ports
        → All (IsDescribed P L w') ports
    IsDescribed-SameYaml [] w w' same h = tt
    IsDescribed-SameYaml ((name, p) ∷ ports) w w' same h = (
      pm_get_yaml_port-SameYaml P w' w p.subsystem p.instance_name same ∙ h.0,
      IsDescribed-SameYaml ports w w' same h.1,
    )

    pm_create_a2_devices-append :
        (earlier : List (CString × PmPort)) (n : CString × PmPort) (w : P.World) {w1 : P.World}
        → pm_create_a2_devices P L earlier w ≡ some w1
        → pm_create_a2_devices P L (earlier ++ (n ∷ [])) w ≡ pm_create_a2_devices P L (n ∷ []) w1
    unfolding pm_create_a2_devices
    pm_create_a2_devices-append [] n w {w1} e = ap (pm_create_a2_devices P L (n ∷ [])) (same w w1 e)
      where
        same : (a b : P.World) → some a ≡ some b → a ≡ b
        same a b e = ground arith
    pm_create_a2_devices-append ((name, p) ∷ earlier) n w {w1} e =
        elim (Option-cases (pm_get_yaml_port P w p.subsystem p.instance_name)) [
          | inl o ↦ absurd (stuck o e)
          | inr (yaml_port, o) ↦
              rw (o, pm_create_a2_devices)
                (pm_create_a2_devices-append earlier n (create_a2_device P L yaml_port p w)
                  (going yaml_port o e))
        ]
      where
        stuck :
            pm_get_yaml_port P w p.subsystem p.instance_name ≡ none
            → pm_create_a2_devices P L ((name, p) ∷ earlier) w ≡ some w1
            → ⊥
        stuck o e = ground arith

        going :
            (yaml_port : YamlPort)
            → pm_get_yaml_port P w p.subsystem p.instance_name ≡ some yaml_port
            → pm_create_a2_devices P L ((name, p) ∷ earlier) w ≡ some w1
            → pm_create_a2_devices P L earlier (create_a2_device P L yaml_port p w) ≡ some w1
        going yaml_port o e = ground arith

    -- The loop over the ports that are still to come, behind those that are done.
    created_from :
        (all done ports : List (CString × PmPort)) (before w : P.World)
        → all ≡ done ++ ports
        → pm_create_a2_devices P L done before ≡ some w
        → Keeps before w
        → All (IsDescribed P L w) ports
        → (w' : P.World) × (pm_create_a2_devices P L ports w ≡ some w')
          × Keeps w w'
          × All (HasA2 P L before all w') ports
    created_from all done [] before w whole run keeps h =
        (w, unfold pm_create_a2_devices in refl, (λ sub name t. t), tt)
    created_from all done ((name, p) ∷ ports) before w whole run keeps h =
        let w1 = create_a2_device P L p.module_device p w in
        let step = pm_create_a2_devices-step name p [] w h.0 in
        let (w', e, later, rest) =
          created_from all (done ++ ((name, p) ∷ [])) ports before w1
            (whole ∙ sym (append_assoc done ((name, p) ∷ []) ports))
            (pm_create_a2_devices-append done (name, p) before run
              ∙ step
              ∙ unfold pm_create_a2_devices in refl)
            (λ sub n t. create_a2_device-kept p.module_device p w sub n (keeps sub n t))
            (IsDescribed-SameYaml ports w w1 (create_a2_device-SameYaml p.module_device p w) h.1) in
        (
          w',
          pm_create_a2_devices-step name p ports w h.0 ∙ e,
          λ sub n t. later sub n (create_a2_device-kept p.module_device p w sub n t),
          (
            λ pluggable sfp there.
                (let (d, found) = keeps p.subsystem p.module_device.module_eeprom there in
                  elim (create_a2_device-IsThere p w d pluggable sfp found) [
                    | inl there ↦ inl (later p.subsystem (a2_device_name p) there)
                    | inr failed ↦ inr (done, ports, whole, w, run, d, found, failed)
                  ]),
            rest,
          ),
        )

    -- Where every port is in the hardware description, `pm_create_a2_devices` comes to its end without
    -- following a NULL, and afterwards `pm_read_a2` finds its device for every pluggable SFP+ port
    -- whose serial id device was there, unless `yaml_add_device` failed for the port in its turn: the
    -- names that the two files build agree. It is assumed that SFPP is the name of the SFP+ connector,
    -- and that the library finds a device under its name only, finds under its name what was added with
    -- success, and loses no device and changes no port when it adds or fails to.
    pub pm_create_a2_devices-HasA2 :
        (ports : List (CString × PmPort)) (w : P.World)
        → All (IsDescribed P L w) ports
        → (w' : P.World) × (pm_create_a2_devices P L ports w ≡ some w')
          × All (HasA2 P L w ports w') ports
    pm_create_a2_devices-HasA2 ports w h =
        let (w', e, later, all) =
          created_from ports [] ports w w refl (unfold pm_create_a2_devices in refl)
            (λ sub name t. t) h in
        (w', e, all)
