-- ===== src/Config/A2Devices.antt =====
-- src/config.c: `pm_create_a2_devices`, which adds to the hardware description the devices that hold the
-- pages of diagnostics of SFP+ modules, and src/plug.c, which looks for them in `pm_read_a2`.
pub mod Found
use ops_pmd.Base.{
  succeeded, ◌≡◌, ◌⊎◌, refl, Bool, true, false, not, Option, none, some, List, [], ◌∷◌, ◌++◌, ℕ, ℤ,
  CString, codes, if◌then◌else◌, str_eq, str_eq_refl, All, ap, ◌∙◌, sym, subst, inl, inr,
}
use ops_pmd.Port.{PmPort, YamlPort, connector_sfp_plus}
use ops_pmd.Platform.{Platform}
use ops_pmd.Config.{pm_get_yaml_port}
use ops_pmd.Plug.{a2_device_name}
use ops_pmd.Db.Yaml.{SameYaml, pm_get_yaml_port-SameYaml}

abbrev pub pm_sfp_a2_i2c_address : ℕ
pm_sfp_a2_i2c_address = 0x51

-- What `pm_create_a2_devices` uses of ops-config-yaml beyond `Platform`: the constant SFPP, the name in a
-- `YamlDevice`, a copy of one with another name and address, and the call that adds one to a subsystem.
pub record DeviceLibrary (P : Platform) : Type 0 where
  pub sfpp : CString
  pub device_name : P.Device → CString
  pub renamed : P.Device → CString → ℕ → P.Device
  pub yaml_add_device : CString → CString → P.Device → P.World → ℤ × P.World

module _ (P : Platform) (L : DeviceLibrary P) where
  -- The loop's body for a port that the description knows.
  unfoldable pub create_a2_device : YamlPort → PmPort → P.World → P.World
  create_a2_device yaml_port p w =
      let is_sfpp : Bool = elim yaml_port.connector [ none ↦ false | some c ↦ str_eq c L.sfpp ] in
      if not yaml_port.pluggable
      then w
      else if not is_sfpp
      then w
      else elim (P.yaml_find_device w p.subsystem yaml_port.module_eeprom) [
        | none ↦ w
        | some a0_device ↦
            let new_name = L.device_name a0_device ++ codes "_dom" in
            (L.yaml_add_device p.subsystem new_name
              (L.renamed a0_device new_name pm_sfp_a2_i2c_address) w).1
      ]

  -- The loop over `ovs_intfs`; `none` where it follows the NULL that `pm_get_yaml_port` returned.
  unfoldable pub pm_create_a2_devices : List (CString × PmPort) → P.World → Option P.World
  pm_create_a2_devices [] w = some w
  pm_create_a2_devices ((name, p) ∷ ports) w =
      elim (pm_get_yaml_port P w p.subsystem p.instance_name) [
        | none ↦ none
        | some yaml_port ↦ pm_create_a2_devices ports (create_a2_device yaml_port p w)
      ]

  -- The library finds a device under its name only, finds under its name what was added, if the addition
  -- succeeded, and loses nothing when it adds or fails to.
  pub record AddsDevices : Type 0 where
    pub named :
        (w : P.World) (sub name : CString) (d : P.Device)
        → P.yaml_find_device w sub name ≡ some d
        → L.device_name d ≡ name
    pub added :
        (w : P.World) (sub name : CString) (d : P.Device)
        → L.device_name d ≡ name
        → succeeded (L.yaml_add_device sub name d w).0 ≡ true
        → P.yaml_find_device (L.yaml_add_device sub name d w).1 sub name ≡ some d
    pub has_name :
        (d : P.Device) (name : CString) (address : ℕ)
        → L.device_name (L.renamed d name address) ≡ name
    pub kept :
        (w : P.World) (sub name : CString) (d : P.Device) (other_sub other : CString) {a : P.Device}
        → P.yaml_find_device w other_sub other ≡ some a
        → (b : P.Device) × (P.yaml_find_device (L.yaml_add_device sub name d w).1 other_sub other
            ≡ some b)
    pub same_ports :
        (w : P.World) (sub name : CString) (d : P.Device)
        → SameYaml P (L.yaml_add_device sub name d w).1 w

  -- There is a device of the name.
  abbrev pub IsThere : P.World → CString → CString → Type 0
  IsThere w sub name = (d : P.Device) × (P.yaml_find_device w sub name ≡ some d)

  -- The description has the port as it was when the daemon made it.
  abbrev pub IsDescribed : P.World → CString × PmPort → Type 0
  IsDescribed w n = pm_get_yaml_port P w n.1.subsystem n.1.instance_name ≡ some n.1.module_device

  -- The addition of the port's second device failed when its turn came: `earlier` are the ports before it.
  abbrev pub WasRefused : P.World → List (CString × PmPort) → CString × PmPort → Type 0
  WasRefused before ports n =
      (earlier : List (CString × PmPort)) × (later : List (CString × PmPort)) × (ports
        ≡ earlier ++ (n ∷ later))
      × (w1 : P.World) × (pm_create_a2_devices earlier before ≡ some w1)
      × (d : P.Device) × (P.yaml_find_device w1 n.1.subsystem n.1.module_device.module_eeprom
          ≡ some d)
      × (succeeded
            (L.yaml_add_device n.1.subsystem (a2_device_name n.1)
              (L.renamed d (a2_device_name n.1) 0x51) w1).0
          ≡ false)

  -- The device that `pm_read_a2` looks for is there, if the port has the device of its serial id, or could
  -- not be added.
  abbrev pub HasA2 : P.World → List (CString × PmPort) → P.World → CString × PmPort → Type 0
  HasA2 before ports w n =
      n.1.module_device.pluggable ≡ true
      → n.1.module_device.connector ≡ some connector_sfp_plus
      → IsThere before n.1.subsystem n.1.module_device.module_eeprom
      → IsThere w n.1.subsystem (a2_device_name n.1) ⊎ WasRefused before ports n
