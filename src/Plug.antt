-- ===== src/Plug.antt =====
-- src/plug.c: reading the state of the modules and enabling them, in a build for hardware. The tests
-- that the source has fixed by `&& false` and `|| true` stand here as they do there.
-- A device name is always the module's eeprom, and a function that ignores a return code drops it.
pub mod Read
pub mod Scan
pub mod Told
pub mod Presence
pub mod Retry
pub mod Lanes
use ops_pmd.Base.{
  ℕ, zero, suc, ◌+◌, ◌*◌, ◌^◌, Bool, true, false, not, ◌&&◌, ◌||◌, Option, none, some, List, [],
  ◌∷◌, ◌++◌, codes, CString, ◌==◌, if◌then◌else◌, replicate, ℤ, pos, negsuc, succeeded, get_or,
}
use ops_pmd.Port.{
  Column, PmPort, BitOp, has_connector, connector_sfp_plus, connector_qsfp_plus, connector_qsfp28,
  set_static_string, pm_delete_all_data, max_split_count,
}
use ops_pmd.SerialId.{page_size}
use ops_pmd.A2.{a2_page_size}
use ops_pmd.Detect.{Build, absent, unknown, unrecognized, pm_parse}
use ops_pmd.Dom.{set_a2_read_request, pm_set_a2}
use ops_pmd.Platform.{Platform}

abbrev pub sfp_serial_id_offset : ℕ
sfp_serial_id_offset = 0

abbrev pub qsfp_serial_id_offset : ℕ
qsfp_serial_id_offset = 128

abbrev pub qsfp_disable_offset : ℕ
qsfp_disable_offset = 86

abbrev pub one_millisecond : ℕ
one_millisecond = 1000000

abbrev pub is_qsfp : PmPort → Bool
is_qsfp p = has_connector connector_qsfp_plus p || has_connector connector_qsfp28 p

-- The operation that tells whether a module is present.
unfoldable pub presence_op : PmPort → Option BitOp
presence_op p =
    if has_connector connector_sfp_plus p
    then some p.module_device.sfpp_mod_present
    else if has_connector connector_qsfp_plus p
    then some p.module_device.qsfpp_mod_present
    else if has_connector connector_qsfp28 p
    then some p.module_device.qsfp28p_mod_present
    else none

unfoldable pub serial_id_offset : PmPort → Option ℕ
serial_id_offset p =
    if has_connector connector_sfp_plus p
    then some sfp_serial_id_offset
    else if is_qsfp p
    then some qsfp_serial_id_offset
    else none

-- The loop over the lanes: bit `idx` is set for each subport that is not enabled. The bits are
-- distinct, so `|=` adds.
unfoldable pub disabled_lanes : ℕ → ℕ → List Bool → ℕ
disabled_lanes idx zero subports = 0
disabled_lanes idx (suc count) subports =
    (if get_or subports idx false then 0 else 2 ^ idx) + disabled_lanes (idx + 1) count subports

-- The byte that `pm_configure_qsfp` writes.
unfoldable pub disable_byte : PmPort → ℕ
disable_byte p =
    if p.split
    then disabled_lanes 0 max_split_count p.hw_enable_subport
    else if not p.hw_enable
    then 0x0f
    else 0x00

pub data ClearReset : Type 0 where
  set_reset clear_reset : ClearReset

-- The name of the device that holds the page of diagnostics.
abbrev pub a2_device_name : PmPort → CString
a2_device_name p =
    if has_connector connector_sfp_plus p
    then p.module_device.module_eeprom ++ codes "_dom"
    else p.module_device.module_eeprom

-- The page of diagnostics is stored and is not asked for again.
abbrev accept_a2 : Build → List ℕ → PmPort → PmPort
accept_a2 build page p = record (pm_set_a2 build page p) { a2_read_requested = false }

module _ (P : Platform) where
  open P use {World}

  -- `retry_count` further reads are made after one that fails.
  unfoldable pub presence_loop : ℕ → PmPort → BitOp → World → Bool × World
  presence_loop zero p op w =
      let (rc, result, w') = P.i2c_reg_read p.subsystem op w in
      if succeeded rc then (not (result == 0), w') else (false, w')
  presence_loop (suc retry_count) p op w =
      let (rc, result, w') = P.i2c_reg_read p.subsystem op w in
      let again = presence_loop retry_count p op w' in
      if succeeded rc then (not (result == 0), w') else again

  unfoldable pub pm_get_presence : PmPort → World → Bool × World
  pm_get_presence p w = elim (presence_op p) [
    | none ↦ (false, w)
    | some op ↦ presence_loop 2 p op w
  ]

  unfoldable pub pm_read_a0 : PmPort → List ℕ → ℕ → World → ℤ × List ℕ × World
  pm_read_a0 p buf offset w =
      let device = P.yaml_find_device w p.subsystem p.module_device.module_eeprom in
      let (rc, page, w') = P.i2c_data_read device p.subsystem offset buf w in
      if succeeded rc then (pos 0, page, w') else (negsuc 0, page, w')

  -- `pm_reset`; a failed write is only logged.
  unfoldable pub pm_reset : PmPort → ClearReset → World → World
  pm_reset p clear w =
      let op : Option BitOp =
        if has_connector connector_qsfp_plus p
        then p.module_device.qsfpp_reset
        else if has_connector connector_qsfp28 p
        then p.module_device.qsfp28p_reset
        else none in
      let value : ℕ = elim clear [ set_reset ↦ 0xff | clear_reset ↦ 0 ] in
      elim op [ none ↦ w | some o ↦ (P.i2c_reg_write p.subsystem o value w).1 ]

  unfoldable pub pm_clear_reset : PmPort → World → World
  pm_clear_reset p w = P.nanosleep (10 * one_millisecond) (pm_reset p clear_reset w)

  unfoldable pub pm_reset_port : PmPort → World → World
  pm_reset_port p w = pm_clear_reset p (P.nanosleep one_millisecond (pm_reset p set_reset w))

  -- The update for a module that is not there; the branch that would make it is switched off.
  unfoldable pub mark_absent : PmPort → PmPort
  mark_absent p =
      let update = set_static_string Column.connector_status (P.build.status_name unrecognized) (
        set_static_string Column.connector (P.build.connector_name absent)
          (pm_delete_all_data (record p { present = false }))) in
      elim (p.ovs_module_columns Column.connector) [
        | none ↦ update
        | some _ ↦ if p.present then update else p
      ]

  -- The update for a page that cannot be read; the branch that would make it is switched off.
  unfoldable pub mark_unreadable : PmPort → PmPort
  mark_unreadable p = set_static_string Column.connector_status (P.build.status_name unrecognized) (
      set_static_string Column.connector (P.build.connector_name unknown)
        (record (pm_delete_all_data p) { present = true; retry = true }))

  -- A page that was read: parse it, and mark the port as read or to be tried again.
  unfoldable pub accept_page : List ℕ → PmPort → PmPort
  accept_page page p =
      let (rc, page', q) = pm_parse P.build page p in
      if succeeded rc
      then set_a2_read_request page' (record q { present = true; retry = false })
      else record q { retry = true }

  unfoldable pub pm_read_a2 : PmPort → List ℕ → World → ℤ × List ℕ × World
  pm_read_a2 p buf w =
      let device = P.yaml_find_device w p.subsystem (a2_device_name p) in
      let (rc, page, w') = P.i2c_data_read device p.subsystem 0 buf w in
      if succeeded rc then (pos 0, page, w') else (negsuc 0, page, w')

  -- From the label `retry_read_a2` on. A page that cannot be read counts as one of ones.
  unfoldable pub read_a2_loop : ℕ → List ℕ → PmPort → World → PmPort × World
  read_a2_loop zero buf p w =
      let (rc, page, w') = pm_read_a2 p buf w in
      if succeeded rc
      then (accept_a2 P.build page p, w')
      else (accept_a2 P.build (replicate a2_page_size 0xff) p, w')
  read_a2_loop (suc retry_count) buf p w =
      let (rc, page, w') = pm_read_a2 p buf w in
      let again = read_a2_loop retry_count page p w' in
      if succeeded rc then (accept_a2 P.build page p, w') else again

  -- The end of `pm_read_module_state`; the read of the page of diagnostics is switched off.
  unfoldable pub read_diagnostics : ℕ → PmPort → World → ℤ × PmPort × World
  read_diagnostics retry_count p w =
      let (q, w') = read_a2_loop retry_count (replicate a2_page_size 0) p w in
      if not p.a2_read_requested || true then (pos 0, p, w) else (pos 0, q, w')

  -- One pass from the label `retry_read` on; `again` is what a failed read leads to.
  unfoldable pub read_pass :
      (List ℕ → PmPort → World → ℤ × PmPort × World)
      → ℕ
      → ℕ
      → List ℕ
      → PmPort
      → World
      → ℤ × PmPort × World
  read_pass again retry_count offset buf p w =
      let (is_present, w1) = pm_get_presence p w in
      if not is_present && false
      then (pos 0, mark_absent p, w1)
      else if not p.present || p.retry
      then (let (rc, page, w2) = pm_read_a0 p buf offset w1 in
          if not (succeeded rc) && false
          then again page p w2
          else read_diagnostics retry_count (accept_page page p) w2)
      else read_diagnostics retry_count p w1

  unfoldable pub read_loop : ℕ → ℕ → List ℕ → PmPort → World → ℤ × PmPort × World
  read_loop zero offset buf p w =
      read_pass (λ page q w'. (negsuc 0, mark_unreadable q, w')) 0 offset buf p w
  read_loop (suc retry_count) offset buf p w =
      read_pass (λ page q w'. read_loop retry_count offset page q (pm_reset_port q w'))
        (suc retry_count) offset buf p w

  unfoldable pub pm_read_module_state : PmPort → World → ℤ × PmPort × World
  pm_read_module_state p w = elim (serial_id_offset p) [
    | none ↦ (negsuc 0, p, w)
    | some offset ↦ read_loop 2 offset (replicate page_size 0) p w
  ]

  -- `pm_read_port_state`; the callers pass no NULL.
  unfoldable pub pm_read_port_state : PmPort → World → PmPort × World
  pm_read_port_state p w = let (rc, q, w') = pm_read_module_state p w in (q, w')

  -- The loop over `ovs_intfs`.
  unfoldable pub pm_read_state : List (CString × PmPort) → World → List (CString × PmPort) × World
  pm_read_state [] w = ([], w)
  pm_read_state ((name, p) ∷ ports) w =
      let (q, w1) = pm_read_port_state p w in
      let (rest, w2) = pm_read_state ports w1 in ((name, q) ∷ rest, w2)

  unfoldable pub pm_configure_qsfp : PmPort → World → World
  pm_configure_qsfp p w =
      if not p.present
      then w
      else if not p.optical
      then w
      else let device = P.yaml_find_device w p.subsystem p.module_device.module_eeprom in
        (P.i2c_data_write device p.subsystem qsfp_disable_offset (disable_byte p ∷ []) w).1

  unfoldable pub pm_configure_port : PmPort → World → World
  pm_configure_port p w =
      if is_qsfp p
      then pm_configure_qsfp p w
      else let op = p.module_device.sfpp_tx_disable in
        (P.i2c_reg_write p.subsystem op (if p.hw_enable then 0 else op.bit_mask) w).1

  -- `pm_set_enabled`
  unfoldable pub pm_set_enabled : List (CString × PmPort) → World → World
  pm_set_enabled [] w = w
  pm_set_enabled ((name, p) ∷ ports) w = pm_set_enabled ports (pm_configure_port p w)
