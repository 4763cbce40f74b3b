-- ===== src/Platform.antt =====
-- What the daemon calls and does not implement: the library ops-config-yaml with its I2C access,
-- and the clock. All of it acts on a state `World` of which nothing is assumed here; each call that
-- can act on it returns the next one. The strings of the build are `build`.
use ops_pmd.Base.{ℕ, Option, List, CString, ℤ}
use ops_pmd.Port.{YamlPort, BitOp}
use ops_pmd.Detect.{Build}

pub record Platform : Type 1 where
  pub build : Build
  pub World : Type 0
  pub Device : Type 0
  -- (handle, subsystem)
  pub yaml_get_port_count : World → CString → ℕ
  pub yaml_get_port : World → CString → ℕ → YamlPort
  -- (handle, subsystem, name)
  pub yaml_find_device : World → CString → CString → Option Device
  -- (subsystem, directory)
  pub yaml_add_subsystem : CString → CString → World → ℤ × World
  pub yaml_parse_devices : CString → World → ℤ × World
  pub yaml_parse_ports : CString → World → ℤ × World
  pub yaml_init_devices : CString → World → World
  -- The return code, and what is read: a register's value, or the buffer after the call.
  pub i2c_reg_read : CString → BitOp → World → ℤ × ℕ × World
  pub i2c_reg_write : CString → BitOp → ℕ → World → ℤ × World
  pub i2c_data_read : Option Device → CString → ℕ → List ℕ → World → ℤ × List ℕ × World
  pub i2c_data_write : Option Device → CString → ℕ → List ℕ → World → ℤ × World
  pub nanosleep : ℕ → World → World
