-- ===== src/Tests/Devices.antt =====
-- The theorem on the devices for diagnostics at work, on a library that keeps a list of devices.
use ops_pmd.Base.{
  ◌≡◌, refl, none, some, Option, List, [], ◌∷◌, ℕ, CString, codes, pos, str_eq, str_eq_refl,
  str_eq→eq, if◌then◌else◌, All, arith, ◌==◌, Bool-cases, inl, inr,
}
use ops_pmd.Port.{PmPort, connector_sfp_plus, connector_qsfp_plus}
use ops_pmd.Platform.{Platform}
use ops_pmd.Config.{pm_get_yaml_port, find_yaml_port}
use ops_pmd.Config.A2Devices.{DeviceLibrary, AddsDevices, pm_create_a2_devices, HasA2}
use ops_pmd.Config.A2Devices.Found.{pm_create_a2_devices-HasA2}
use ops_pmd.Tests.Data.{a_build, yaml_port, sfp_port, qsfp_port}

record TestDevice : Type 0 where
  name : CString
  address : ℕ

abbrev device_for : CString → List TestDevice → Option TestDevice
device_for name [] = none
device_for name (d ∷ devices) = if str_eq d.name name then some d else device_for name devices

abbrev listing_platform : Platform
listing_platform = record {
  build = a_build;
  World = List TestDevice;
  Device = TestDevice;
  yaml_get_port_count = λ w sub. 2;
  yaml_get_port = λ w sub i.
      if i == 0
      then yaml_port (codes "1") connector_sfp_plus
      else yaml_port (codes "2") connector_qsfp_plus;
  yaml_find_device = λ w sub name. device_for name w;
  yaml_add_subsystem = λ name dir w. (pos 0, w);
  yaml_parse_devices = λ name w. (pos 0, w);
  yaml_parse_ports = λ name w. (pos 0, w);
  yaml_init_devices = λ name w. w;
  i2c_reg_read = λ sub o w. (pos 0, 1, w);
  i2c_reg_write = λ sub o v w. (pos 0, w);
  i2c_data_read = λ device sub offset buf w. (pos 0, buf, w);
  i2c_data_write = λ device sub offset buf w. (pos 0, w);
  nanosleep = λ ns w. w;
}

abbrev a_library : DeviceLibrary listing_platform
a_library = record {
  sfpp = connector_sfp_plus;
  device_name = λ d. d.name;
  renamed = λ d name address. record { name = name; address = address };
  yaml_add_device = λ sub name d w. (pos 0, d ∷ w);
}

device_for-name :
    (devices : List TestDevice) (name : CString) (d : TestDevice)
    → device_for name devices ≡ some d
    → d.name ≡ name
device_for-name [] name d e = cc
device_for-name (head ∷ devices) name d e =
    ground (arith, device_for-name devices name d, str_eq→eq head.name name)

a_library-AddsDevices : AddsDevices listing_platform a_library
a_library-AddsDevices = record {
  named = λ w sub name d e. device_for-name w name d e;
  added = λ w sub name d e ok. rw (e, str_eq_refl name);
  has_name = λ d name address. refl;
  kept = λ w sub name d other_sub other {a} e. elim (Bool-cases (str_eq d.name other)) [
    | inl s ↦ (d, rw s)
    | inr s ↦ (a, rw s e)
  ];
  same_ports = λ w sub name d. (refl, refl);
}

abbrev devices : List TestDevice
devices = record { name = codes "eeprom"; address = 0x50 } ∷ []

abbrev ports : List (CString × PmPort)
ports = (codes "1", sfp_port) ∷ (codes "2", qsfp_port) ∷ []

ports_described :
    (pm_get_yaml_port listing_platform devices (codes "base") (codes "1")
      ≡ some sfp_port.module_device)
    × (pm_get_yaml_port listing_platform devices (codes "base") (codes "2")
        ≡ some qsfp_port.module_device)
unfolding pm_get_yaml_port find_yaml_port str_eq
ports_described = (refl, refl)

pm_create_a2_devices-HasA2_example :
    (w' : List TestDevice) × (pm_create_a2_devices listing_platform a_library ports devices
      ≡ some w')
    × All (HasA2 listing_platform a_library devices ports w') ports
pm_create_a2_devices-HasA2_example =
    pm_create_a2_devices-HasA2 listing_platform a_library a_library-AddsDevices refl ports devices
      (ports_described.0, (ports_described.1, tt))
