-- ===== src/Tests/Ports.antt =====
-- The theorems on ports and their hardware at work.
use ops_pmd.Base.{
  ℕ, ◌≡◌, ◌==◌, ◌<◌, ◌≤◌, refl, true, false, not, some, List, [], ◌∷◌, CString, codes, pos, arith,
  str_eq, inl,
}
use ops_pmd.Port.{PmPort}
use ops_pmd.Detect.{sfp_plus, qsfp_plus, module_type}
use ops_pmd.Plug.{presence_op, pm_get_presence, disable_byte, pm_read_module_state, pm_read_state}
use ops_pmd.Plug.Lanes.{lane_bit, lane_enabled, disable_byte-lanes}
use ops_pmd.Plug.Presence.{after_reads, FirstSuccess, AllFail, pm_get_presence-first}
use ops_pmd.Plug.Retry.{
  Control, retry_read, returned, retry, answer, PresenceRun, here, then_run, IsFinal,
  pm_get_presence-ends,
}
use ops_pmd.Plug.Read.{
  fixed, IsRead, page_read, pm_read_module_state-IsRead, pm_read_module_state-fixed,
}
use ops_pmd.Plug.Scan.{pm_read_state-fixed}
use ops_pmd.Config.{pm_get_yaml_port}
use ops_pmd.Config.Lookup.{IsFirstNamed, pm_get_yaml_port-IsFirstNamed}
use ops_pmd.Tests.Data.{a_platform, op, sfp_port, qsfp_port}

abbrev split_port : PmPort
split_port = record qsfp_port { split = true }

disable_byte-lanes_example :
    (disable_byte split_port < 16)
    × (lane_bit (disable_byte split_port) 3 ≡ not (lane_enabled split_port 3))
disable_byte-lanes_example = disable_byte-lanes split_port 3 (omega arith)

sfp_port-presence_op : presence_op sfp_port ≡ some (op 0)
unfolding presence_op str_eq
sfp_port-presence_op = refl

-- From the state 2 on two reads fail and the third succeeds, from 5 on three fail.
pm_get_presence-first_example :
    ((n : ℕ)
      → n ≤ 2
      → FirstSuccess a_platform sfp_port (op 0) n 2
      → pm_get_presence a_platform sfp_port 2 ≡ (
        not (
            (a_platform.i2c_reg_read sfp_port.subsystem
              (op 0)
              (after_reads a_platform sfp_port (op 0) n 2)).1
            == 0),
        (a_platform.i2c_reg_read sfp_port.subsystem
            (op 0)
            (after_reads a_platform sfp_port (op 0) n 2)).2,
      ))
    × (AllFail a_platform sfp_port (op 0) 3 2
        → pm_get_presence a_platform sfp_port 2
          ≡ (false, after_reads a_platform sfp_port (op 0) 3 2))
pm_get_presence-first_example =
    pm_get_presence-first a_platform sfp_port (op 0) 2 sfp_port-presence_op

third_read_answers : pm_get_presence a_platform sfp_port 2 ≡ (true, 0)
third_read_answers =
    (pm_get_presence-first a_platform sfp_port (op 0) 2 sfp_port-presence_op).0 2 (omega arith)
      (refl, (refl, refl))

sfp_port-type : module_type sfp_port ≡ some sfp_plus
unfolding module_type str_eq
sfp_port-type = refl

qsfp_port-type : module_type qsfp_port ≡ some qsfp_plus
unfolding module_type str_eq
qsfp_port-type = refl

pm_read_module_state-IsRead_example :
    ((pm_read_module_state a_platform qsfp_port 5).0 ≡ pos 0)
    × IsRead a_platform qsfp_plus
        (page_read a_platform qsfp_plus qsfp_port 5)
        qsfp_port
        (pm_read_module_state a_platform qsfp_port 5).1
pm_read_module_state-IsRead_example =
    pm_read_module_state-IsRead a_platform qsfp_port qsfp_plus 5 refl qsfp_port-type (inl refl)

pm_read_module_state-fixed_example :
    fixed (pm_read_module_state a_platform qsfp_port 1).1 ≡ fixed qsfp_port
pm_read_module_state-fixed_example = pm_read_module_state-fixed a_platform qsfp_port 1

abbrev two_ports : List (CString × PmPort)
two_ports = (codes "1", sfp_port) ∷ (codes "2", qsfp_port) ∷ []

pm_read_state-fixed_example :
    (pm_read_state a_platform (pm_read_state a_platform two_ports 0).0 9).0
    ≡ (pm_read_state a_platform two_ports 0).0
pm_read_state-fixed_example =
    pm_read_state-fixed a_platform two_ports 0 9
      ((refl, sfp_plus, sfp_port-type), ((refl, qsfp_plus, qsfp_port-type), tt))

pm_get_yaml_port-IsFirstNamed_example :
    IsFirstNamed a_platform 0
      (codes "base")
      (codes "2")
      2
      (pm_get_yaml_port a_platform 0 (codes "base") (codes "2"))
pm_get_yaml_port-IsFirstNamed_example =
    pm_get_yaml_port-IsFirstNamed a_platform 0 (codes "base") (codes "2")

three_reads : PresenceRun a_platform sfp_port (op 0) 3 (retry_read 2 2) (returned true 0)
three_reads =
    then_run (retry 1 2 refl) (then_run (retry 0 1 refl) (then_run (answer 0 0 refl) here))

pm_get_presence-ends_example :
    (3 ≤ 3)
    × (IsFinal a_platform sfp_port (op 0) (returned true 0)
        → ◌≡◌ {A = Control a_platform sfp_port (op 0)} (returned true 0) (
            returned
              (pm_get_presence a_platform sfp_port 2).0
              (pm_get_presence a_platform sfp_port 2).1))
pm_get_presence-ends_example =
    pm_get_presence-ends a_platform sfp_port (op 0) sfp_port-presence_op three_reads
