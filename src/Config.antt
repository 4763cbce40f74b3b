-- ===== src/Config.antt =====
-- src/config.c: the hardware description that the library ops-config-yaml holds for a subsystem.
-- `pm_create_a2_devices`, which the daemon does not call, is in Config/A2Devices.
pub mod Lookup
pub mod A2Devices
use ops_pmd.Base.{
  ℕ, zero, suc, ◌+◌, Bool, Option, none, some, CString, if◌then◌else◌, str_eq, ℤ, succeeded, not,
}
use ops_pmd.Port.{YamlPort}
use ops_pmd.Platform.{Platform}

module _ (P : Platform) where
  -- The loop from index `idx` on, with `count` ports left.
  unfoldable pub find_yaml_port : P.World → CString → CString → ℕ → ℕ → Option YamlPort
  find_yaml_port w subsystem name idx zero = none
  find_yaml_port w subsystem name idx (suc count) =
      let yaml_port = P.yaml_get_port w subsystem idx in
      let rest = find_yaml_port w subsystem name (idx + 1) count in
      if str_eq yaml_port.name name then some yaml_port else rest

  unfoldable pub pm_get_yaml_port : P.World → CString → CString → Option YamlPort
  pm_get_yaml_port w subsystem name =
      find_yaml_port w subsystem name 0 (P.yaml_get_port_count w subsystem)

  unfoldable pub pm_read_yaml_files : CString → CString → P.World → ℤ × P.World
  pm_read_yaml_files name hw_desc_dir w =
      let (rc, w1) = P.yaml_add_subsystem name hw_desc_dir w in
      if not (succeeded rc)
      then (rc, w1)
      else let (rc', w2) = P.yaml_parse_devices name w1 in
        if not (succeeded rc')
        then (rc', w2)
        else let (rc'', w3) = P.yaml_parse_ports name w2 in
          if not (succeeded rc'') then (rc'', w3) else (rc'', P.yaml_init_devices name w3)
